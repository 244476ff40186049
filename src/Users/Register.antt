-- ===== src/Users/Register.antt =====
-- aurweb/routers/accounts.py, account_register_post: the checks of process_account_form for a user
-- who is not signed in, and the account that is created.
pub mod Accepted
use mprweb.Prelude.{
  first_error, ◌or_else◌, require, ℕ, String, Bool, true, false, not, ◌&&◌, ◌||◌, Option, none,
  some, List, [], ◌∷◌, ◌++◌, any, elem, ◌==◌, str_eq, if◌then◌else◌,
}
use mprweb.Models.{User, user_id}
use mprweb.Users.{
  Form, Checks, FormError, registration_disabled, missing_field, no_suspend_permission,
  invalid_username, invalid_email, invalid_backup_email, invalid_homepage, invalid_pgp_key,
  unsupported_language, unsupported_timezone, username_in_use, email_in_use, unknown_account_type,
  no_account_type_permission, is_empty, inactive_differs, check_password, check_ssh_pubkey, in_use,
  account_types, check_captcha,
}
use mprweb.Users.Reset.{KeyedUser}
use mprweb.Users.Keys.{AccountKey, stored_pubkey}

-- AnonymousUser, as the user that the checks compare with.
abbrev pub anonymous : User
anonymous = record {
  id = 0;
  username = "";
  email = "";
  account_type_id = 0;
  suspended = false;
  passwd = "";
  salt = "";
  inactivity_ts = 0;
  last_login = 0;
  last_login_ip = none;
  last_ssh_login = 0;
  last_ssh_login_ip = none;
}

-- Without a credential to change types.
abbrev pub check_new_type : Option ℕ → Option FormError
check_new_type none = none
check_new_type (some t) =
    if t == 0
    then none
    else require (elem t account_types) unknown_account_type or_else some no_account_type_permission

-- The results of the checks, in their order; that of the password does not apply.
unfoldable pub register_checks : Checks → List User → Form → List (Option FormError)
register_checks checks users form =
    require (not checks.banned) registration_disabled
    ∷ require (not (is_empty form.email || is_empty form.username)) missing_field
    ∷ require (not (inactive_differs form.inactive anonymous)) no_suspend_permission
    ∷ require (checks.valid_username form.username) invalid_username
    ∷ check_password checks.min_password form.new_password form.confirmation
    ∷ require (checks.valid_email form.email) invalid_email
    ∷ require (is_empty form.backup_email || checks.valid_email form.backup_email)
        invalid_backup_email
    ∷ require (is_empty form.homepage || checks.valid_homepage form.homepage) invalid_homepage
    ∷ require (is_empty form.pgp_key || checks.valid_pgp_fingerprint form.pgp_key) invalid_pgp_key
    ∷ check_ssh_pubkey checks anonymous form.ssh_pubkey
    ∷ require (is_empty form.language || any (str_eq form.language) checks.languages)
        unsupported_language
    ∷ require (is_empty form.timezone || any (str_eq form.timezone) checks.timezones)
        unsupported_timezone
    ∷ require (not (in_use (λ u. u.username) form.username anonymous users)) username_in_use
    ∷ require (not (in_use (λ u. u.email) form.email anonymous users)) email_in_use
    ∷ check_new_type form.account_type
    ∷ check_captcha checks form.captcha_salt form.captcha
    ∷ []

-- A user with no password, and with a reset key that is mailed.
abbrev pub new_account : ℕ → String → Form → KeyedUser
new_account next_id resetkey form = record {
  user = record anonymous {
    id = next_id;
    username = form.username;
    email = form.email;
    account_type_id = user_id;
  };
  reset_key = resetkey;
}

abbrev pub add_pubkey : (String → String) → ℕ → String → List AccountKey → List AccountKey
add_pubkey fingerprint uid pk rows =
    if is_empty pk
    then rows
    else rows
      ++ record {
        user_id = uid;
        pub_key = stored_pubkey pk;
        fingerprint = fingerprint (stored_pubkey pk);
      }
        ∷ []

pub data RegisterResult : Type 0 where
  rejected : FormError → RegisterResult
  missing_captcha : RegisterResult
  registered : KeyedUser → List AccountKey → RegisterResult

-- `fingerprint` is get_fingerprint of a key that has one.
unfoldable pub account_register_post :
    Checks → (String → String) → List User → ℕ → String → Form → List AccountKey → RegisterResult
unfolding register_checks
account_register_post checks fingerprint users next_id resetkey form keys =
    elim (first_error (λ result. result) (register_checks checks users form)) [
      | some e ↦ rejected e
      | none ↦
          if is_empty form.captcha
          then missing_captcha
          else registered (new_account next_id resetkey form)
              (add_pubkey fingerprint next_id form.ssh_pubkey keys)
    ]
