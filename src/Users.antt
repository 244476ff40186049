-- ===== src/Users.antt =====
-- aurweb/users/validate.py, aurweb/users/update.py and the edit of an account in
-- aurweb/routers/accounts.py. Of an account the model keeps the columns of its record, so that of the
-- updates of its row it has `simple`, `account_type` and `password`, without the new session of
-- `password`.
pub mod Rights
pub mod Suspension
pub mod Reset
pub mod Register
pub mod Keys
mod Tests
use mprweb.Prelude.{
  ◌>>=◌, first_error, ◌or_else◌, require, ℕ, ◌*◌, String, Bool, true, false, not, ◌&&◌, ◌||◌,
  Option, none, some, List, [], ◌∷◌, any, elem, leb, ltb, ◌==◌, str_eq, str_len, if◌then◌else◌,
}
use mprweb.Models.{
  User, is_elevated, user_id, trusted_user_id, developer_id, trusted_user_and_dev_id,
}
use mprweb.Auth.Creds.{Credential, has_credential, can_edit_user}
use mprweb.Auth.Login.{Hashing, valid_password}

-- The fields of the form; `account_type` is T as a number, and a flag is None where it is not sent.
pub record Form : Type 0 where
  pub username : String
  pub email : String
  pub backup_email : String
  pub homepage : String
  pub pgp_key : String
  pub ssh_pubkey : String
  pub language : String
  pub timezone : String
  pub new_password : String
  pub confirmation : String
  pub hide_email : Option String
  pub inactive : Option String
  pub suspended : Option String
  pub account_type : Option ℕ
  pub captcha_salt : String
  pub captcha : String
  pub passwd : String

-- The validators of aurweb/util.py, the configuration, and the tables of bans and keys: `strtobool`
-- is that of distutils, none where it raises ValueError, `fingerprint` gives none for a key without one, and `key_taken` is whether another
-- account has the key with that fingerprint.
pub record Checks : Type 0 where
  pub banned : Bool
  pub min_password : ℕ
  pub languages : List String
  pub timezones : List String
  pub captcha_salts : List String
  pub captcha_answer : String → String
  pub valid_username : String → Bool
  pub valid_email : String → Bool
  pub valid_homepage : String → Bool
  pub valid_pgp_fingerprint : String → Bool
  pub valid_ssh_pubkey : String → Bool
  pub fingerprint : String → Option String
  pub key_taken : ℕ → String → Bool
  pub strtobool : String → Option Bool

-- ValidationError, by the check that raises it.
pub data FormError : Type 0 where
  registration_disabled invalid_user_password missing_field no_suspend_permission invalid_username
        short_password unconfirmed_password different_passwords invalid_email invalid_backup_email
        invalid_homepage invalid_pgp_key invalid_ssh_pubkey ssh_pubkey_in_use unsupported_language
        unsupported_timezone username_in_use email_in_use unknown_account_type
        no_account_type_permission account_type_too_high captcha_expired wrong_captcha :
      FormError

abbrev pub is_empty : String → Bool
is_empty s = str_eq s ""

-- `J != bool(user.InactivityTS)`: a flag that is sent is a text, which no Boolean equals.
abbrev pub inactive_differs : Option String → User → Bool
inactive_differs none user = not (user.inactivity_ts == 0)
inactive_differs (some j) user = true

abbrev pub check_password : ℕ → String → String → Option FormError
check_password min_password p c =
    if is_empty p
    then none
    else require (leb min_password (str_len p)) short_password
      or_else require (not (is_empty c)) unconfirmed_password
      or_else require (str_eq p c) different_passwords

abbrev pub check_ssh_pubkey : Checks → User → String → Option FormError
check_ssh_pubkey checks user pk =
    if is_empty pk
    then none
    else require (checks.valid_ssh_pubkey pk) invalid_ssh_pubkey
      or_else elim (checks.fingerprint pk) [
        | none ↦ some invalid_ssh_pubkey
        | some f ↦ require (not (checks.key_taken user.id f)) ssh_pubkey_in_use
      ]

abbrev pub in_use : (User → String) → String → User → List User → Bool
in_use field value user = any (λ u. not (u.id == user.id) && str_eq (field u) value)

-- ACCOUNT_TYPE_NAME
abbrev pub account_types : List ℕ
account_types = user_id ∷ trusted_user_id ∷ developer_id ∷ trusted_user_and_dev_id ∷ []

unfoldable pub check_account_type : User → User → Option ℕ → Option FormError
unfolding has_credential
check_account_type editor user none = none
check_account_type editor user (some t) =
    if t == user.account_type_id
    then none
    else require (elem t account_types) unknown_account_type
      or_else require (has_credential editor Credential.account_change_type [])
          no_account_type_permission
      or_else require (not (ltb editor.account_type_id t)) account_type_too_high

abbrev pub check_captcha : Checks → String → String → Option FormError
check_captcha checks salt captcha =
    require (is_empty salt || any (str_eq salt) checks.captcha_salts) captcha_expired
    or_else require (is_empty captcha || str_eq captcha (checks.captcha_answer salt)) wrong_captcha

-- The results of the checks, in the order of the list `checks`.
unfoldable pub account_checks :
    Hashing → Checks → List User → User → User → Form → List (Option FormError)
unfolding is_elevated
account_checks hashing checks users editor user form =
    require (not checks.banned) registration_disabled
    ∷ require (valid_password hashing editor (some form.passwd)).0 invalid_user_password
    ∷ require (not (is_empty form.email || is_empty form.username)) missing_field
    ∷ require (is_elevated editor || not (inactive_differs form.inactive user))
        no_suspend_permission
    ∷ require (checks.valid_username form.username) invalid_username
    ∷ check_password checks.min_password form.new_password form.confirmation
    ∷ require (checks.valid_email form.email) invalid_email
    ∷ require (is_empty form.backup_email || checks.valid_email form.backup_email)
        invalid_backup_email
    ∷ require (is_empty form.homepage || checks.valid_homepage form.homepage) invalid_homepage
    ∷ require (is_empty form.pgp_key || checks.valid_pgp_fingerprint form.pgp_key) invalid_pgp_key
    ∷ check_ssh_pubkey checks user form.ssh_pubkey
    ∷ require (is_empty form.language || any (str_eq form.language) checks.languages)
        unsupported_language
    ∷ require (is_empty form.timezone || any (str_eq form.timezone) checks.timezones)
        unsupported_timezone
    ∷ require (not (in_use (λ u. u.username) form.username user users)) username_in_use
    ∷ require (not (in_use (λ u. u.email) form.email user users)) email_in_use
    ∷ check_account_type editor user form.account_type
    ∷ check_captcha checks form.captcha_salt form.captcha
    ∷ []

-- `process_account_form` for an account that is signed in: the first check that fails is reported.
unfoldable pub process_account_form :
    Hashing → Checks → List User → User → User → Form → Option FormError
process_account_form hashing checks users editor user form =
    first_error (λ result. result) (account_checks hashing checks users editor user form)

abbrev pub or_old : String → String → String
or_old new old = if is_empty new then old else new

-- `strtobool` of aurweb/util.py: a flag that is not sent is False already.
unfoldable pub read_flag : Checks → Option String → Option Bool
read_flag checks none = some false
read_flag checks (some text) = checks.strtobool text

-- The row, once its flags have been read.
abbrev pub simple_row : ℕ → Form → Bool → Bool → User → User
simple_row now form suspended inactive user = record user {
  username = or_old form.username user.username;
  email = or_old form.email user.email;
  suspended = suspended;
  inactivity_ts = if inactive then now else 0;
}

-- None is the ValueError of a flag, which rolls the transaction back. The flags of the notifications
-- are left out: the framework lets only texts through that `strtobool` reads.
unfoldable pub update_simple : Checks → ℕ → Form → User → Option User
unfolding read_flag
update_simple checks now form user = do
  hidden ← read_flag checks form.hide_email
  suspended ← read_flag checks form.suspended
  inactive ← read_flag checks form.inactive
  some (simple_row now form suspended inactive user)

unfoldable pub update_account_type : Option ℕ → User → User
update_account_type none user = user
update_account_type (some t) user = record user { account_type_id = t }

unfoldable pub update_password : Hashing → String → User → User
update_password hashing p user =
    if is_empty p
    then user
    else let (valid, same) = valid_password hashing user (some p) in
      if valid then same else record user { passwd = hashing.hashpw p }

pub data EditResult : Type 0 where
  -- a redirect to the page of the account
  cannot_edit : EditResult
  rejected : FormError → EditResult
  -- the ValueError of a flag
  value_error : EditResult
  edited : User → EditResult

-- The outcome of the updates.
abbrev pub outcome_of : Option User → EditResult
outcome_of none = value_error
outcome_of (some after) = edited after

-- The account that is edited, as the check of the editor's password leaves it.
abbrev pub authenticated_target : Hashing → User → User → Form → User
authenticated_target hashing editor user form =
    if editor.id == user.id then (valid_password hashing editor (some form.passwd)).1 else user

-- The updates after the first.
abbrev pub later_updates : Hashing → Form → User → User
later_updates hashing form user =
    update_password hashing form.new_password (update_account_type form.account_type user)

-- The updates, in their order.
unfoldable pub edited_account : Hashing → Checks → ℕ → User → User → Form → Option User
unfolding update_simple
edited_account hashing checks now editor user form = do
  base ← update_simple checks now form (authenticated_target hashing editor user form)
  some (later_updates hashing form base)

unfoldable pub account_edit_post :
    Hashing → Checks → ℕ → List User → User → User → Form → EditResult
unfolding can_edit_user edited_account
account_edit_post hashing checks now users editor user form =
    if not (can_edit_user editor user)
    then cannot_edit
    else if is_empty form.passwd
    then rejected invalid_user_password
    else elim (process_account_form hashing checks users editor user form) [
      | some e ↦ rejected e
      | none ↦ outcome_of (edited_account hashing checks now editor user form)
    ]
