-- ===== src/Auth/Login.antt =====
-- `User.valid_password`, `User.login` and `User.logout` of aurweb/models/user.py, and the session
-- cookies that `login_post` of aurweb/routers/auth.py sets.
pub mod Passwords
pub mod Outcome
pub mod Cookies
use mprweb.Prelude.{
  ℕ, zero, suc, ◌+◌, String, Bool, true, false, not, ◌&&◌, ◌||◌, Option, none, some, ltb, ◌==◌,
  str_eq, if◌then◌else◌,
}
use Prim.Native.String.{◌++◌}
use mprweb.Models.{User, Session}
use mprweb.Auth.Sessions.{Timeouts, SessionCookies}

-- The password functions of bcrypt and hashlib. `checkpw` gives none where bcrypt raises
-- ValueError, as it does on a text that is no bcrypt hash.
pub record Hashing : Type 0 where
  pub checkpw : String → String → Option Bool
  pub hashpw : String → String
  pub md5 : String → String

abbrev pub passes : Option Bool → Bool
passes (some true) = true
passes _ = false

-- The verdict, and the account afterwards: a legacy hash that fits is replaced.
unfoldable pub valid_password : Hashing → User → Option String → Bool × User
valid_password h u none = (false, u)
valid_password h u (some password) =
    if passes (h.checkpw password u.passwd)
    then (true, u)
    else if not (str_eq u.salt "") && str_eq (h.md5 (u.salt ++ password)) u.passwd
    then (true, record u { passwd = h.hashpw password })
    else (false, u)

-- An account with its row of the Sessions table.
pub record Account : Type 0 where
  pub user : User
  pub session : Option Session

-- What the tries of `login` meet: the time, a fresh session ID, and whether the commit of the
-- try raises IntegrityError.
pub record Tries : Type 0 where
  pub now : ℕ → ℕ
  pub fresh_sid : ℕ → String
  pub conflict : ℕ → Bool

unfoldable pub renew_session : ℕ → String → ℕ → Option Session → Session
renew_session uid sid now none = record { users_id = uid; session_id = sid; last_update_ts = now }
renew_session uid sid now (some s) =
    if not (s.last_update_ts == 0) && ltb s.last_update_ts now
    then record s { session_id = sid; last_update_ts = now }
    else record s { last_update_ts = now }

-- The transaction of one try.
unfoldable pub login_once : String → ℕ → String → Account → Account
unfolding renew_session
login_once ip now sid a = record {
  user = record a.user { last_login = now; last_login_ip = some ip };
  session = some (renew_session a.user.id sid now a.session);
}

pub data LoginResult : Type 0 where
  -- `login` returns None
  denied : LoginResult
  -- the IntegrityError of the last try
  integrity_error : LoginResult
  -- the session ID that is returned, and the account as it is committed
  logged_in : String → Account → LoginResult

abbrev pub returned_sid : Account → String
returned_sid a = elim a.session [ none ↦ "" | some s ↦ s.session_id ]

-- `for i in range(tries)`: a rollback restores the account as the database has it.
unfoldable pub login_tries : Tries → String → ℕ → ℕ → Account → Account → LoginResult
login_tries t ip zero i stored a = integrity_error
login_tries t ip (suc n) i stored a =
    let rest = login_tries t ip n (i + 1) stored stored in
    if t.conflict i
    then rest
    else let done = login_once ip (t.now i) (t.fresh_sid i) a in logged_in (returned_sid done) done

abbrev pub max_tries : ℕ
max_tries = 36

unfoldable pub login : Hashing → Tries → Bool → String → String → Account → LoginResult
login h t banned ip password a =
    if banned || a.user.suspended
    then denied
    else let (valid, user) = valid_password h a.user (some password) in
      if valid then login_tries t ip max_tries 0 a (record a { user = user }) else denied

-- `User.logout` deletes the session.
unfoldable pub logout : Account → Account
logout a = record a { session = none }

-- A cookie that is set with an expiry.
pub record Cookie : Type 0 where
  pub value : String
  pub expires : ℕ

-- The cookies AURSID and AURREMEMBER.
pub record LoginCookies : Type 0 where
  pub aursid : Cookie
  pub aurremember : Cookie

abbrev pub expires_at : Timeouts → ℕ → Bool → ℕ
expires_at cfg now remember_me =
    let cookie_timeout = if remember_me then cfg.persistent_cookie_timeout else cfg.login_timeout in
    now + (if ltb cookie_timeout cfg.login_timeout then cfg.login_timeout else cookie_timeout)

-- `text` is how a Boolean cookie value is written.
unfoldable pub login_cookies : (Bool → String) → Timeouts → ℕ → String → Bool → LoginCookies
login_cookies text cfg now sid remember_me = record {
  aursid = record { value = sid; expires = expires_at cfg now remember_me };
  aurremember = record { value = text remember_me; expires = expires_at cfg now remember_me };
}

-- What a request brings back, where `sends` is the value of a cookie that the client still has.
abbrev pub request_cookies : (Cookie → Option String) → LoginCookies → SessionCookies
request_cookies sends cookies = record {
  aursid = sends cookies.aursid;
  aurremember = sends cookies.aurremember;
}
