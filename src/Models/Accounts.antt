-- ===== src/Models/Accounts.antt =====
-- aurweb/models/user.py, account_type.py, session.py, ban.py: accounts and what they may do.
use mprweb.Prelude.{ℕ, String, Bool, Option, ◌∷◌, [], elem}

-- Users (the columns that the modelled code uses)
pub record User : Type 0 where
  pub id : ℕ
  pub username : String
  pub email : String
  pub account_type_id : ℕ
  pub suspended : Bool
  pub passwd : String
  pub salt : String
  pub inactivity_ts : ℕ
  pub last_login : ℕ
  pub last_login_ip : Option String
  pub last_ssh_login : ℕ
  pub last_ssh_login_ip : Option String

-- Sessions
pub record Session : Type 0 where
  pub users_id : ℕ
  pub session_id : String
  pub last_update_ts : ℕ

-- aurweb/models/account_type.py
abbrev pub user_id : ℕ
user_id = 1

abbrev pub trusted_user_id : ℕ
trusted_user_id = 2

abbrev pub developer_id : ℕ
developer_id = 3

abbrev pub trusted_user_and_dev_id : ℕ
trusted_user_and_dev_id = 4

unfoldable pub is_trusted_user : User → Bool
is_trusted_user u = elem u.account_type_id (trusted_user_id ∷ trusted_user_and_dev_id ∷ [])

unfoldable pub is_developer : User → Bool
is_developer u = elem u.account_type_id (developer_id ∷ trusted_user_and_dev_id ∷ [])

unfoldable pub is_elevated : User → Bool
is_elevated u =
    elem u.account_type_id (trusted_user_id ∷ developer_id ∷ trusted_user_and_dev_id ∷ [])
