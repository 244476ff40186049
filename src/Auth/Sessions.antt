-- ===== src/Auth/Sessions.antt =====
-- `BasicAuthBackend.authenticate` of aurweb/auth/__init__.py: the account that a request's session
-- cookie stands for, over the Sessions and Users tables.
pub mod Expiry
use mprweb.Prelude.{
  ℕ, ◌-◌, ◌+◌, String, Bool, true, false, not, Option, none, some, List, find?, filter, ltb, ◌==◌,
  str_eq, if◌then◌else◌,
}
use mprweb.Models.{User, Session}

-- The [options] of the configuration file that bound a session.
pub record Timeouts : Type 0 where
  pub login_timeout : ℕ
  pub persistent_cookie_timeout : ℕ

-- The request's AURSID and AURREMEMBER cookies.
pub record SessionCookies : Type 0 where
  pub aursid : Option String
  pub aurremember : Option String

-- What `authenticate` returns; `missing_user` is the AttributeError on a session without a user.
pub data Authentication : Type 0 where
  unauthenticated : Authentication
  authenticated : User → Authentication
  missing_user : Authentication

-- `bool(s)` of an optional text
abbrev pub is_set : Option String → Bool
is_set none = false
is_set (some s) = not (str_eq s "")

unfoldable pub timeout : Timeouts → Option String → ℕ
timeout cfg aurremember =
    if is_set aurremember then cfg.persistent_cookie_timeout else cfg.login_timeout

abbrev pub has_sid : String → Session → Bool
has_sid sid s = str_eq s.session_id sid

-- `record.LastUpdateTS < (now_ts - timeout)`
abbrev pub is_expired : ℕ → ℕ → Session → Bool
is_expired now limit s = ltb s.last_update_ts (now - limit)

-- `db.delete_all([record])`; UsersID is the primary key.
abbrev pub delete_session : Session → List Session → List Session
delete_session row = filter (λ s. not (s.users_id == row.users_id))

abbrev pub load_user : List User → ℕ → Authentication
load_user users uid = elim (find? (λ (u : User). u.id == uid) users) [
  | none ↦ missing_user
  | some u ↦ authenticated u
]

-- The branches once the session has been looked up.
unfoldable pub check_session :
    List User → ℕ → ℕ → Option Session → List Session → Authentication × List Session
check_session users now limit none sessions = (unauthenticated, sessions)
check_session users now limit (some row) sessions =
    if is_expired now limit row
    then (unauthenticated, delete_session row sessions)
    else (load_user users row.users_id, sessions)

unfoldable pub authenticate_sid :
    List User → ℕ → ℕ → String → List Session → Authentication × List Session
authenticate_sid users now limit sid sessions =
    if str_eq sid ""
    then (unauthenticated, sessions)
    else check_session users now limit (find? (has_sid sid) sessions) sessions

-- The answer, and the Sessions table afterwards.
unfoldable pub authenticate :
    Timeouts → List User → ℕ → SessionCookies → List Session → Authentication × List Session
unfolding authenticate_sid
authenticate cfg users now cookies sessions = elim cookies.aursid [
  | none ↦ (unauthenticated, sessions)
  | some sid ↦ authenticate_sid users now (timeout cfg cookies.aurremember) sid sessions
]
