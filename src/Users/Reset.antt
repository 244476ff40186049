-- ===== src/Users/Reset.antt =====
-- aurweb/routers/accounts.py, passreset_post: asking for a reset key, and setting a password with it.
pub mod Once
use mprweb.Prelude.{
  ℕ, String, Bool, true, false, not, ◌&&◌, ◌||◌, Option, none, some, List, [], ◌∷◌, filter, find?,
  update_where, ltb, ◌==◌, str_eq, str_len, if◌then◌else◌,
}
use mprweb.Models.{User, Session}
use mprweb.Auth.Login.{Hashing}

-- A row of Users with its ResetKey.
pub record KeyedUser : Type 0 where
  pub user : User
  pub reset_key : String

pub record ResetDb : Type 0 where
  pub users : List KeyedUser
  pub sessions : List Session

pub record ResetForm : Type 0 where
  pub user : String
  pub resetkey : Option String
  pub password : Option String
  pub confirm : Option String

pub data ResetReply : Type 0 where
  -- the errors of the page
  invalid_email missing_field different_passwords short_password : ResetReply
  -- redirects to the next step; a key is mailed to the user with the ID
  complete : ResetReply
  confirm_sent : ℕ → ResetReply
  -- ResetKeyNotification finds no account that is not suspended: status 500
  no_recipient : ResetReply

-- `or_(User.Username == user, User.Email == user)`
abbrev pub is_called : String → KeyedUser → Bool
is_called name u = str_eq u.user.username name || str_eq u.user.email name

abbrev pub is_keyed : ℕ → KeyedUser → Bool
is_keyed i u = u.user.id == i

abbrev pub given : Option String → Option String
given none = none
given (some s) = if str_eq s "" then none else some s

-- The password is set, the key is removed, and so is the session.
abbrev pub with_password : Hashing → String → KeyedUser → KeyedUser
with_password hashing p u = record u {
  user = record u.user { passwd = hashing.hashpw p };
  reset_key = "";
}

abbrev pub set_password : Hashing → String → KeyedUser → ResetDb → ResetDb
set_password hashing p u db = record db {
  users = update_where (is_keyed u.user.id) (with_password hashing p) db.users;
  sessions = filter (λ s. not (s.users_id == u.user.id)) db.sessions;
}

abbrev pub is_confirmed : String → Option String → Bool
is_confirmed p none = false
is_confirmed p (some c) = str_eq p c

abbrev pub reset_password :
    Hashing → ℕ → Option String → Option String → KeyedUser → ResetDb → ResetReply × ResetDb
reset_password hashing min_length none confirm u db = (missing_field, db)
reset_password hashing min_length (some p) confirm u db =
    if not (is_confirmed p confirm)
    then (different_passwords, db)
    else if ltb (str_len p) min_length
    then (short_password, db)
    else (complete, set_password hashing p u db)

abbrev pub issue_key : String → KeyedUser → ResetDb → ResetReply × ResetDb
issue_key new_key u db = (
  if u.user.suspended then no_recipient else confirm_sent u.user.id,
  record db {
    users = update_where (is_keyed u.user.id) (λ v. record v { reset_key = new_key }) db.users;
  },
)

abbrev pub key_matches : String → KeyedUser → Bool
key_matches k u = not (str_eq u.reset_key "") && str_eq k u.reset_key

-- With a key, a password is set; without, a key is issued.
abbrev pub reset_found :
    Hashing → ℕ → String → ResetForm → KeyedUser → ResetDb → ResetReply × ResetDb
reset_found hashing min_length new_key form u db = elim (given form.resetkey) [
  | none ↦ issue_key new_key u db
  | some k ↦
      if not (key_matches k u)
      then (invalid_email, db)
      else reset_password hashing min_length (given form.password) form.confirm u db
]

unfoldable pub passreset_post : Hashing → ℕ → String → ResetForm → ResetDb → ResetReply × ResetDb
passreset_post hashing min_length new_key form db = elim (find? (is_called form.user) db.users) [
  | none ↦ (invalid_email, db)
  | some u ↦ reset_found hashing min_length new_key form u db
]
