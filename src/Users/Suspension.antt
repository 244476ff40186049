-- ===== src/Users/Suspension.antt =====
-- Nothing checks who may suspend an account, or lift its suspension.
use mprweb.Prelude.{
  sym, ℕ, ◌≡◌, refl, ap, ◌∙◌, String, Bool, Option, none, some, List, arith, Option-cases, inl, inr,
}
use mprweb.Models.{User}
use mprweb.Auth.Login.{Hashing, valid_password}
use mprweb.Users.{
  outcome_of, read_flag, simple_row, later_updates, Form, Checks, account_checks,
  process_account_form, update_simple, update_account_type, update_password, edited,
  authenticated_target, edited_account, account_edit_post,
}
use mprweb.Users.Rights.{edited-some, edited_account-IsUpdated}

update_password-suspended :
    (hashing : Hashing) (p : String) (user : User) (b : Bool)
    → update_password hashing p (record user { suspended = b })
      ≡ record (update_password hashing p user) { suspended = b }
unfolding update_password valid_password
update_password-suspended hashing p user b = ground arith

update_account_type-suspended :
    (t : Option ℕ) (user : User) (b : Bool)
    → update_account_type t (record user { suspended = b })
      ≡ record (update_account_type t user) { suspended = b }
unfolding update_account_type
update_account_type-suspended none user b = refl
update_account_type-suspended (some t) user b = refl

later_updates-suspended :
    (hashing : Hashing) (form : Form) (flag : Option String) (base : User) (b : Bool)
    → later_updates hashing (record form { suspended = flag }) (record base { suspended = b })
      ≡ record (later_updates hashing form base) { suspended = b }
later_updates-suspended hashing form flag base b =
    ap (update_password hashing form.new_password)
      (update_account_type-suspended form.account_type base b)
    ∙ update_password-suspended hashing form.new_password
        (update_account_type form.account_type base) b

-- The result with another flag: the ValueError if it cannot be read.
abbrev pub suspending : User → Option Bool → Option User
suspending after none = none
suspending after (some b) = some (record after { suspended = b })

edited_account-suspended :
    (hashing : Hashing) (checks : Checks) (now : ℕ) (editor user : User) (form : Form)
    (after : User) (flag : Option String)
    → edited_account hashing checks now editor user form ≡ some after
    → edited_account hashing checks now editor user (record form { suspended = flag })
      ≡ suspending after (read_flag checks flag)
unfolding edited_account update_simple
edited_account-suspended hashing checks now editor user form after flag h =
    let target = authenticated_target hashing editor user form in
    let (hidden, suspended, inactive, e, f, g, stored) =
      edited_account-IsUpdated hashing checks now editor user form after h in
    elim (Option-cases (read_flag checks flag)) [
      | inl bad ↦ rw (e, bad) refl
      | inr (b, good) ↦
          rw (e, good)
            (rw g (
              ap some (
                later_updates-suspended hashing form flag
                  (simple_row now form suspended inactive target) b
                ∙ ap (λ (u : User). record u { suspended = b }) (sym stored))))
    ]

process-suspended :
    (hashing : Hashing) (checks : Checks) (users : List User) (editor user : User) (form : Form)
    (flag : Option String)
    → process_account_form hashing checks users editor user (record form { suspended = flag })
      ≡ process_account_form hashing checks users editor user form
unfolding process_account_form account_checks
process-suspended hashing checks users editor user form flag = refl

-- Whoever may edit an account may suspend it, or lift its suspension, also their own: if an edit
-- succeeds, it succeeds with any flag for the suspension that can be read, and the account takes that
-- value and is otherwise the same. With a flag that cannot be read it ends in the ValueError.
pub suspension_unchecked :
    (hashing : Hashing) (checks : Checks) (now : ℕ) (users : List User) (editor user : User)
    (form : Form) (after : User) (flag : Option String)
    → account_edit_post hashing checks now users editor user form ≡ edited after
    → account_edit_post hashing checks now users editor user (record form { suspended = flag })
      ≡ outcome_of (suspending after (read_flag checks flag))
unfolding account_edit_post
suspension_unchecked hashing checks now users editor user form after flag h =
    elim (Option-cases (process_account_form hashing checks users editor user form)) [
      | inr (e, f) ↦ absurd (ground arith)
      | inl e ↦
          let stored =
            edited-some (edited_account hashing checks now editor user form) {after = after}
              (ground arith) in
          let passes = process-suspended hashing checks users editor user form flag ∙ e in
          let result =
            edited_account-suspended hashing checks now editor user form after flag stored in
          ground (arith, ap outcome_of result)
    ]
