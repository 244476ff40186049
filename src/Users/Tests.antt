-- ===== src/Users/Tests.antt =====
-- A user who edits their own account.
use mprweb.Prelude.{
  if◌then◌else◌, ◌≡◌, ◌≢◌, find?, refl, String, Bool, true, false, Option, none, some, [], ◌∷◌,
  str_eq,
}
use mprweb.Models.{User, user_id}
use mprweb.Auth.Creds.{has_credential, can_edit_user}
use mprweb.Auth.Login.{Hashing, valid_password}
use mprweb.Users.{
  outcome_of, value_error, read_flag, username_in_use, Form, Checks, in_use, account_checks,
  check_account_type, process_account_form, update_simple, update_account_type, update_password,
  edited, edited_account, account_edit_post,
}
use mprweb.Users.Reset.{
  KeyedUser, ResetDb, ResetForm, complete, invalid_email, is_called, passreset_post,
}
use mprweb.Users.Reset.Once.{reset_key_once}
use mprweb.Users.Register.{
  rejected, registered, new_account, register_checks, account_register_post,
}
use mprweb.Users.Register.Accepted.{IsAccepted, registered-IsAccepted}
use mprweb.Util.{matches_name, valid_username}
use mprweb.Users.Rights.{IsGranted, edit_keeps_rank}
use mprweb.Users.Suspension.{suspending, suspension_unchecked}

abbrev suspended_user : User
suspended_user = record {
  id = 7;
  username = "alice";
  email = "a@example.org";
  account_type_id = user_id;
  suspended = true;
  passwd = "secret";
  salt = "";
  inactivity_ts = 0;
  last_login = 0;
  last_login_ip = none;
  last_ssh_login = 0;
  last_ssh_login_ip = none;
}

-- Passwords are stored as they are.
abbrev plain : Hashing
plain = record { checkpw = λ p hash. some (str_eq p hash); hashpw = λ p. p; md5 = λ p. p }

-- "on" and "off" are the texts that are read.
abbrev on_or_off : String → Option Bool
on_or_off s = if str_eq s "on" then some true else if str_eq s "off" then some false else none

abbrev lenient : Checks
lenient = record {
  banned = false;
  min_password = 8;
  languages = "en" ∷ [];
  timezones = "UTC" ∷ [];
  captcha_salts = [];
  captcha_answer = λ s. s;
  valid_username = λ s. true;
  valid_email = λ s. true;
  valid_homepage = λ s. true;
  valid_pgp_fingerprint = λ s. true;
  valid_ssh_pubkey = λ s. true;
  fingerprint = λ s. some s;
  key_taken = λ i s. false;
  strtobool = on_or_off;
}

abbrev renaming : Form
renaming = record {
  username = "alicia";
  email = "a@example.org";
  backup_email = "";
  homepage = "";
  pgp_key = "";
  ssh_pubkey = "";
  language = "en";
  timezone = "UTC";
  new_password = "";
  confirmation = "";
  hide_email = none;
  inactive = none;
  suspended = some "on";
  account_type = some 1;
  captcha_salt = "";
  captcha = "";
  passwd = "secret";
}

abbrev renamed : User
renamed = record suspended_user { username = "alicia" }

edit_renames :
    account_edit_post plain lenient 50 (suspended_user ∷ []) suspended_user suspended_user renaming
    ≡ edited renamed
unfolding account_edit_post process_account_form account_checks check_account_type edited_account
    update_simple update_account_type update_password has_credential can_edit_user valid_password
    read_flag
edit_renames = refl

edit_keeps_rank_example :
    (can_edit_user suspended_user suspended_user ≡ true)
    × ((valid_password plain suspended_user (some "secret")).0 ≡ true)
    × IsGranted suspended_user 1 1
    × (renamed.id ≡ suspended_user.id)
    × (renamed.username ≡ renaming.username)
    × (in_use (λ u. u.username) "alicia" suspended_user (suspended_user ∷ []) ≡ false)
edit_keeps_rank_example =
    edit_keeps_rank plain lenient 50 (suspended_user ∷ []) suspended_user suspended_user renaming
      renamed (λ e. refl) edit_renames

suspension_unchecked_example :
    account_edit_post plain lenient 50
      (suspended_user ∷ [])
      suspended_user
      suspended_user
      (record renaming { suspended = some "off" })
    ≡ outcome_of (suspending renamed (read_flag lenient (some "off")))
suspension_unchecked_example =
    suspension_unchecked plain lenient 50 (suspended_user ∷ []) suspended_user suspended_user
      renaming renamed (some "off") edit_renames

unreadable_flag :
    account_edit_post plain lenient 50
      (suspended_user ∷ [])
      suspended_user
      suspended_user
      (record renaming { suspended = some "maybe" })
    ≡ value_error
unfolding account_edit_post process_account_form account_checks check_account_type edited_account
    update_simple update_account_type update_password has_credential can_edit_user valid_password
    read_flag
unreadable_flag = refl

-- Alice, who has asked for a reset key, and what she sends with it.
abbrev awaiting : ResetDb
awaiting = record {
  users = record { user = record suspended_user { suspended = false }; reset_key = "k1" } ∷ [];
  sessions = record { users_id = 7; session_id = "s"; last_update_ts = 5 } ∷ [];
}

abbrev with_key : ResetForm
with_key = record {
  user = "alice";
  resetkey = some "k1";
  password = some "long enough";
  confirm = some "long enough";
}

abbrev reset_db : ResetDb
reset_db = record {
  users =
      record {
        user = record suspended_user { suspended = false; passwd = "long enough" };
        reset_key = "";
      }
      ∷ [];
  sessions = [];
}

reset_completes : passreset_post plain 8 "k2" with_key awaiting ≡ (complete, reset_db)
unfolding passreset_post
reset_completes = refl

reset_key_once_example :
    ((u : KeyedUser) × (find? (is_called "alice") awaiting.users ≡ some u)
      × (some "k1" ≡ some u.reset_key)
      × (u.reset_key ≢ ""))
    × (passreset_post plain 8 "k2" with_key reset_db ≡ (invalid_email, reset_db))
reset_key_once_example =
    reset_key_once plain 8 "k2" with_key with_key awaiting reset_db "k1" reset_completes refl refl

-- Bob registers; the answer to a CAPTCHA is its salt.
abbrev registering : Form
registering = record {
  username = "bob";
  email = "b@example.org";
  backup_email = "";
  homepage = "";
  pgp_key = "";
  ssh_pubkey = "";
  language = "en";
  timezone = "UTC";
  new_password = "";
  confirmation = "";
  hide_email = none;
  inactive = none;
  suspended = none;
  account_type = none;
  captcha_salt = "";
  captcha = "x";
  passwd = "";
}

abbrev open_site : Checks
open_site = record lenient { captcha_answer = λ s. "x" }

bob_registers :
    account_register_post open_site (λ k. k) (suspended_user ∷ []) 8 "k3" registering []
    ≡ registered (new_account 8 "k3" registering) []
unfolding account_register_post register_checks
bob_registers = refl

registered-IsAccepted_example :
    IsAccepted open_site (suspended_user ∷ []) registering
    × ((new_account 8 "k3" registering).user.username ≡ registering.username)
    × ((new_account 8 "k3" registering).user.account_type_id ≡ user_id)
    × ((new_account 8 "k3" registering).user.passwd ≡ "")
    × ((new_account 8 "k3" registering).reset_key ≡ "k3")
registered-IsAccepted_example =
    registered-IsAccepted open_site (λ k. k) (suspended_user ∷ []) 8 "k3" registering [] []
      (new_account 8 "k3" registering) bob_registers

alice_is_taken :
    account_register_post open_site
      (λ k. k)
      (suspended_user ∷ [])
      8
      "k3"
      (record registering { username = "alice" })
      []
    ≡ rejected username_in_use
unfolding account_register_post register_checks
alice_is_taken = refl

-- With the validator of the site, a user name may end in a newline.
newline_registers :
    account_register_post
      (record open_site { valid_username = valid_username 3 16 })
      (λ k. k)
      (suspended_user ∷ [])
      8
      "k3"
      (record registering { username = "bob\n" })
      []
    ≡ registered (new_account 8 "k3" (record registering { username = "bob\n" })) []
unfolding account_register_post register_checks valid_username matches_name
newline_registers = refl
