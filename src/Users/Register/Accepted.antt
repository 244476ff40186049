-- ===== src/Users/Register/Accepted.antt =====
-- What holds of an account that has been registered.
use mprweb.Prelude.{
  first_error, first_error_iff, negated, not_second, or_else_iff, require_iff, ℕ, ◌≡◌, inl, inr,
  refl, String, true, false, ◌||◌, none, List, any, Bool-cases, Option-cases, str_eq,
}
use mprweb.Models.{User, user_id}
use mprweb.Users.{Form, Checks, is_empty, in_use}
use mprweb.Users.Reset.{KeyedUser}
use mprweb.Users.Keys.{AccountKey}
use mprweb.Users.Register.{
  anonymous, register_checks, new_account, registered, account_register_post,
}

pub record IsAccepted (checks : Checks) (users : List User) (form : Form) : Type 0 where
  pub not_banned : checks.banned ≡ false
  pub named : is_empty form.username ≡ false
  pub valid_name : checks.valid_username form.username ≡ true
  pub own_name : in_use (λ u. u.username) form.username anonymous users ≡ false
  pub own_email : in_use (λ u. u.email) form.email anonymous users ≡ false
  pub current_salt :
      (is_empty form.captcha_salt || any (str_eq form.captcha_salt) checks.captcha_salts) ≡ true
  pub answered : str_eq form.captcha (checks.captcha_answer form.captcha_salt) ≡ true

IsAccepted-facts :
    (checks : Checks) (users : List User) (form : Form)
    → first_error (λ result. result) (register_checks checks users form) ≡ none
    → is_empty form.captcha ≡ false
    → IsAccepted checks users form
unfolding register_checks
IsAccepted-facts checks users form h given =
    let passed =
      (first_error_iff (λ o. o) (λ o. o ≡ none) (register_checks checks users form)
          (λ o. ((λ e. e), λ e. e))).0
        h in
    let captcha = (or_else_iff _ _).0 passed.1.1.1.1.1.1.1.1.1.1.1.1.1.1.1.0 in
    record {
      not_banned = negated _ ((require_iff _ _).0 passed.0);
      named = not_second _ _ ((require_iff _ _).0 passed.1.0);
      valid_name = (require_iff _ _).0 passed.1.1.1.0;
      own_name = negated _ ((require_iff _ _).0 passed.1.1.1.1.1.1.1.1.1.1.1.1.0);
      own_email = negated _ ((require_iff _ _).0 passed.1.1.1.1.1.1.1.1.1.1.1.1.1.0);
      current_salt = (require_iff _ _).0 captcha.0;
      answered = rw given at ((require_iff _ _).0 captcha.1);
    }

-- A registration that succeeds comes from an address that is not banned, with a valid name and an
-- e-mail address that no account has, and with the right answer to a CAPTCHA; the new account is
-- an ordinary one without a password, which the reset key is for. The CAPTCHA is current or has an
-- empty salt.
pub registered-IsAccepted :
    (checks : Checks) (fingerprint : String → String) (users : List User) (next_id : ℕ)
    (resetkey : String) (form : Form) (keys after : List AccountKey) (a : KeyedUser)
    → account_register_post checks fingerprint users next_id resetkey form keys ≡ registered a after
    → IsAccepted checks users form
      × (a.user.username ≡ form.username)
      × (a.user.account_type_id ≡ user_id)
      × (a.user.passwd ≡ "")
      × (a.reset_key ≡ resetkey)
unfolding account_register_post
registered-IsAccepted checks fingerprint users next_id resetkey form keys after a h =
    elim (Option-cases (first_error (λ result. result) (register_checks checks users form))) [
      | inr (e, failed) ↦ absurd (cc (rw (account_register_post, failed) at h))
      | inl passed ↦ elim (Bool-cases (is_empty form.captcha)) [
        | inl without ↦ absurd (cc (rw (account_register_post, passed, without) at h))
        | inr given ↦
            let same : new_account next_id resetkey form ≡ a =
              cc (rw (account_register_post, passed, given) at h) in
            (
              IsAccepted-facts checks users form passed given,
              rw (← same) refl,
              rw (← same) refl,
              rw (← same) refl,
              rw (← same) refl,
            )
      ]
    ]
