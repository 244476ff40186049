-- ===== src/Users/Rights.antt =====
-- What an edit may change of the rights of an account.
use mathlib.Core.Path.{subst}
use mprweb.Prelude.{
  Bool, first_error_iff, negated, not_second, or_else_iff, require_iff, ℕ, ◌≤◌, ◌≡◌, ◌⊎◌, inl, inr,
  refl, sym, ap, ◌∙◌, String, true, false, Option, none, some, List, [], elem, ◌==◌, ==_iff, arith,
  Bool-cases, Option-cases,
}
use mprweb.Models.{User, is_elevated}
use mprweb.Auth.Creds.{Credential, has_credential, can_edit_user}
use mprweb.Auth.Creds.Roles.{has_credential-role_grants}
use mprweb.Auth.Login.{Hashing, valid_password}
use mprweb.Users.{
  Form, Checks, is_empty, outcome_of, read_flag, simple_row, later_updates, in_use, account_types,
  check_account_type, account_checks, process_account_form, or_old, update_simple,
  update_account_type, update_password, edited, authenticated_target, edited_account,
  account_edit_post,
}

changers : (u : User) → has_credential u Credential.account_change_type [] ≡ is_elevated u
changers u = has_credential-role_grants u Credential.account_change_type

-- The type after an edit is the one before, or the editor is elevated and does not rank below it.
abbrev pub IsGranted : User → ℕ → ℕ → Type 0
IsGranted editor before after =
    (after ≡ before)
    ⊎ ((is_elevated editor ≡ true)
        × (after ≤ editor.account_type_id)
        × (elem after account_types ≡ true))

type_after : Option ℕ → ℕ → ℕ
type_after none before = before
type_after (some t) before = t

check_account_type-IsGranted :
    (editor user : User) (t : Option ℕ)
    → check_account_type editor user t ≡ none
    → IsGranted editor user.account_type_id (type_after t user.account_type_id)
unfolding check_account_type type_after
check_account_type-IsGranted editor user none h = inl refl
check_account_type-IsGranted editor user (some t) h =
    elim (Bool-cases (t == user.account_type_id)) [
      | inl same ↦ inl ((==_iff t user.account_type_id).0 same)
      | inr changed ↦
          let (p, h1) = (or_else_iff _ _).0 (rw changed at h) in
          let (q, r) = (or_else_iff _ _).0 h1 in
          inr (
            sym (changers editor) ∙ (require_iff _ _).0 q,
            (let low = (require_iff _ _).0 r in ground arith),
            (require_iff _ _).0 p,
          )
    ]

update_password-keeps :
    (hashing : Hashing) (p : String) (user : User)
    → update_password hashing p user
      ≡ record user { passwd = (update_password hashing p user).passwd }
unfolding update_password valid_password
update_password-keeps hashing p user = ground arith

-- What the checks have found of a form that passes: the password is the editor's, the name is not empty
-- and nobody else's, and the type may be given.
process-facts :
    (hashing : Hashing) (checks : Checks) (users : List User) (editor user : User) (form : Form)
    → process_account_form hashing checks users editor user form ≡ none
    → ((valid_password hashing editor (some form.passwd)).0 ≡ true)
      × (is_empty form.username ≡ false)
      × (in_use (λ u. u.username) form.username user users ≡ false)
      × (check_account_type editor user form.account_type ≡ none)
unfolding process_account_form account_checks
process-facts hashing checks users editor user form h =
    let passed =
      (first_error_iff (λ o. o) (λ o. o ≡ none)
          (account_checks hashing checks users editor user form) (λ o. ((λ e. e), λ e. e))).0
        h in
    (
      (require_iff _ _).0 passed.1.0,
      not_second _ _ ((require_iff _ _).0 passed.1.1.0),
      negated _ ((require_iff _ _).0 passed.1.1.1.1.1.1.1.1.1.1.1.1.1.0),
      passed.1.1.1.1.1.1.1.1.1.1.1.1.1.1.1.0,
    )

update_account_type-fields :
    (t : Option ℕ) (user : User)
    → ((update_account_type t user).id ≡ user.id)
      × ((update_account_type t user).username ≡ user.username)
      × ((update_account_type t user).account_type_id ≡ type_after t user.account_type_id)
unfolding update_account_type type_after
update_account_type-fields none user = (refl, refl, refl)
update_account_type-fields (some t) user = (refl, refl, refl)

-- The flags of the form can be read, and the account is the result of the updates.
abbrev pub IsUpdated : Hashing → Checks → ℕ → User → Form → User → Type 0
IsUpdated hashing checks now target form after =
    (hidden suspended inactive : Bool) × (read_flag checks form.hide_email ≡ some hidden)
    × (read_flag checks form.suspended ≡ some suspended)
    × (read_flag checks form.inactive ≡ some inactive)
    × (after ≡ later_updates hashing form (simple_row now form suspended inactive target))

pub edited_account-IsUpdated :
    (hashing : Hashing) (checks : Checks) (now : ℕ) (editor user : User) (form : Form)
    (after : User)
    → edited_account hashing checks now editor user form ≡ some after
    → IsUpdated hashing checks now (authenticated_target hashing editor user form) form after
unfolding edited_account update_simple
edited_account-IsUpdated hashing checks now editor user form after h =
    elim (Option-cases (read_flag checks form.hide_email)) [
      | inl e ↦ absurd (let q = rw e at h in cc)
      | inr (hidden, e) ↦ elim (Option-cases (read_flag checks form.suspended)) [
        | inl f ↦ absurd (let q = rw (e, f) at h in cc)
        | inr (suspended, f) ↦ elim (Option-cases (read_flag checks form.inactive)) [
          | inl g ↦ absurd (let q = rw (e, f, g) at h in cc)
          | inr (inactive, g) ↦
              (hidden, suspended, inactive, e, f, g, (let q = rw (e, f, g) at h in cc))
        ]
      ]
    ]

later_updates-fields :
    (hashing : Hashing) (now : ℕ) (form : Form) (suspended inactive : Bool) (target : User)
    → let result = later_updates hashing form (simple_row now form suspended inactive target) in
      (result.id ≡ target.id)
      × (result.username ≡ or_old form.username target.username)
      × (result.account_type_id ≡ type_after form.account_type target.account_type_id)
later_updates-fields hashing now form suspended inactive target =
    let base = simple_row now form suspended inactive target in
    let typed = update_account_type form.account_type base in
    let keeps = update_password-keeps hashing form.new_password typed in
    let (i, n, t) = update_account_type-fields form.account_type base in
    (
      ap (λ (u : User). u.id) keeps ∙ i,
      ap (λ (u : User). u.username) keeps ∙ n,
      ap (λ (u : User). u.account_type_id) keeps ∙ t,
    )

IsUpdated-fields :
    (hashing : Hashing) (checks : Checks) (now : ℕ) (target : User) (form : Form) (after : User)
    → IsUpdated hashing checks now target form after
    → (after.id ≡ target.id)
      × (after.username ≡ or_old form.username target.username)
      × (after.account_type_id ≡ type_after form.account_type target.account_type_id)
IsUpdated-fields hashing checks now target form after
      (hidden, suspended, inactive, _, _, _, stored) =
    let (i, n, t) = later_updates-fields hashing now form suspended inactive target in
    (
      ap (λ (u : User). u.id) stored ∙ i,
      ap (λ (u : User). u.username) stored ∙ n,
      ap (λ (u : User). u.account_type_id) stored ∙ t,
    )

authenticated_target-type :
    (hashing : Hashing) (editor user : User) (form : Form)
    → (editor.id ≡ user.id → editor ≡ user)
    → ((authenticated_target hashing editor user form).account_type_id ≡ user.account_type_id)
      × ((authenticated_target hashing editor user form).id ≡ user.id)
unfolding valid_password
authenticated_target-type hashing editor user form one = elim (Bool-cases (editor.id == user.id)) [
  | inl same ↦
      let equal = one ((==_iff editor.id user.id).0 same) in
      (
        ground (arith, ap (λ (u : User). u.account_type_id) equal),
        ground (arith, ap (λ (u : User). u.id) equal),
      )
  | inr other ↦ (ground arith, ground arith)
]

pub edited-some : (o : Option User) {after : User} → outcome_of o ≡ edited after → o ≡ some after
edited-some none h = absurd (cc)
edited-some (some u) h = cc

-- An edit that succeeds was open to the editor, who has given their own password; it changes the type
-- of the account only if the editor is elevated, and never to one above the editor's own; the account
-- keeps its ID, and gets the name of the form, which no other account has. Accounts with one ID are
-- one account.
pub edit_keeps_rank :
    (hashing : Hashing) (checks : Checks) (now : ℕ) (users : List User) (editor user : User)
    (form : Form) (after : User)
    → (editor.id ≡ user.id → editor ≡ user)
    → account_edit_post hashing checks now users editor user form ≡ edited after
    → (can_edit_user editor user ≡ true)
      × ((valid_password hashing editor (some form.passwd)).0 ≡ true)
      × IsGranted editor user.account_type_id after.account_type_id
      × (after.id ≡ user.id)
      × (after.username ≡ form.username)
      × (in_use (λ u. u.username) after.username user users ≡ false)
unfolding account_edit_post
edit_keeps_rank hashing checks now users editor user form after one h =
    elim (Option-cases (process_account_form hashing checks users editor user form)) [
      | inr (e, f) ↦ absurd (ground arith)
      | inl e ↦
          let (right, filled, free, kind) = process-facts hashing checks users editor user form e in
          let target = authenticated_target hashing editor user form in
          let (i, n, t) = IsUpdated-fields hashing checks now target form after (
            edited_account-IsUpdated hashing checks now editor user form after
              (edited-some (edited_account hashing checks now editor user form) (ground arith))) in
          let (kept, same) = authenticated_target-type hashing editor user form one in
          let named : after.username ≡ form.username = n ∙ ground arith in
          (
            ground arith,
            right,
            subst (IsGranted editor user.account_type_id)
                (sym (t ∙ ap (type_after form.account_type) kept))
                (check_account_type-IsGranted editor user form.account_type kind),
            i ∙ same,
            named,
            rw named free,
          )
    ]
