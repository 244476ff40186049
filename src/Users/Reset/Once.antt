-- ===== src/Users/Reset/Once.antt =====
-- A reset key is good for one new password.
use mprweb.Prelude.{
  ℕ, ◌≡◌, ◌≢◌, refl, sym, subst, ap, ◌∙◌, String, true, Option, none, some, find?,
  find?-update_where, ltb, ==_self, str_eq, eq_iff, str_len, Bool-cases, Option-cases, inl, inr,
}
use mprweb.Auth.Login.{Hashing}
use mprweb.Users.Reset.{
  KeyedUser, ResetDb, ResetForm, complete, invalid_email, is_called, is_keyed, given, with_password,
  set_password, is_confirmed, reset_password, issue_key, key_matches, reset_found, passreset_post,
}

-- What a completed reset has done.
record IsReset (hashing : Hashing) (form : ResetForm) (u : KeyedUser) (db after : ResetDb)
    : Type 0 where
  key : String
  password : String
  sent : given form.resetkey ≡ some key
  matches : key_matches key u ≡ true
  done : after ≡ set_password hashing password u db

module _ (hashing : Hashing) (min_length : ℕ) (new_key : String) where
  password-set :
      (password confirm : Option String) (u : KeyedUser) (db after : ResetDb)
      → reset_password hashing min_length password confirm u db ≡ (complete, after)
      → (p : String) × (after ≡ set_password hashing p u db)
  password-set none confirm u db after h = absurd (cc (ap (λ r. r.0) h))
  password-set (some p) confirm u db after h = elim (Bool-cases (is_confirmed p confirm)) [
    | inr differs ↦ absurd (cc (ap (λ r. r.0) (rw (reset_password, differs) at h)))
    | inl same ↦ elim (Bool-cases (ltb (str_len p) min_length)) [
      | inl short ↦ absurd (cc (ap (λ r. r.0) (rw (reset_password, same, short) at h)))
      | inr long ↦ (p, cc (ap (λ r. r.1) (rw (reset_password, same, long) at h)))
    ]
  ]

  issued-ne : (u : KeyedUser) (db after : ResetDb) → issue_key new_key u db ≢ (complete, after)
  issued-ne u db after h = elim (Bool-cases u.user.suspended) [
    | inl e ↦ absurd (cc (ap (λ r. r.0) (rw (issue_key, e) at h)))
    | inr e ↦ absurd (cc (ap (λ r. r.0) (rw (issue_key, e) at h)))
  ]

  found-IsReset :
      (form : ResetForm) (u : KeyedUser) (db after : ResetDb)
      → reset_found hashing min_length new_key form u db ≡ (complete, after)
      → IsReset hashing form u db after
  found-IsReset form u db after h = elim (Option-cases (given form.resetkey)) [
    | inl without ↦ absurd (issued-ne u db after (rw (reset_found, without) at h))
    | inr (k, e) ↦ elim (Bool-cases (key_matches k u)) [
      | inr wrong ↦ absurd (cc (ap (λ r. r.0) (rw (reset_found, e, wrong) at h)))
      | inl right ↦
          let (p, done) =
            password-set (given form.password) form.confirm u db after
              (rw (reset_found, e, right) at h) in
          record { key = k; password = p; sent = e; matches = right; done = done }
    ]
  ]

  key_is :
      (k : String) (u : KeyedUser) → key_matches k u ≡ true → (k ≡ u.reset_key) × (u.reset_key ≢ "")
  key_is k u h = elim (Bool-cases (str_eq u.reset_key "")) [
    | inl empty ↦ absurd (cc (rw (key_matches, empty) at h))
    | inr full ↦ (
      (eq_iff k u.reset_key).0 (rw (key_matches, full) at h),
      λ e. cc ((eq_iff u.reset_key "").1 e, full),
    )
  ]

  -- The account with the same name after the reset.
  find?-set_password :
      (name p : String) (u : KeyedUser) (db : ResetDb)
      → find? (is_called name) db.users ≡ some u
      → find? (is_called name) (set_password hashing p u db).users
        ≡ some (with_password hashing p u)
  find?-set_password name p u db found =
      find?-update_where (is_keyed u.user.id) (is_called name) (with_password hashing p) db.users
        (λ x. refl)
      ∙ rw found (rw (==_self u.user.id) refl)

  refuses :
      (next : ResetForm) (key p : String) (u : KeyedUser) (db : ResetDb)
      → find? (is_called next.user) db.users ≡ some u
      → given next.resetkey ≡ some key
      → passreset_post hashing min_length new_key next (set_password hashing p u db)
        ≡ (invalid_email, set_password hashing p u db)
  unfolding passreset_post
  refuses next key p u db found given_key =
      rw (passreset_post, find?-set_password next.user p u db found)
        (rw (reset_found, given_key) refl)

  -- A password is set only with the reset key of the account, which is not empty; and once it is
  -- set, no key is accepted for that account until a new one is issued.
  pub reset_key_once :
      (form next : ResetForm) (db after : ResetDb) (key : String)
      → passreset_post hashing min_length new_key form db ≡ (complete, after)
      → next.user ≡ form.user
      → given next.resetkey ≡ some key
      → ((u : KeyedUser) × (find? (is_called form.user) db.users ≡ some u)
          × (given form.resetkey ≡ some u.reset_key)
          × (u.reset_key ≢ ""))
        × (passreset_post hashing min_length new_key next after ≡ (invalid_email, after))
  unfolding passreset_post
  reset_key_once form next db after key h same given_key =
      elim (Option-cases (find? (is_called form.user) db.users)) [
        | inl nobody ↦ absurd (cc (ap (λ r. r.0) (rw (passreset_post, nobody) at h)))
        | inr (u, found) ↦
            let r = found-IsReset form u db after (rw (passreset_post, found) at h) in
            let (is_own, full) = key_is r.key u r.matches in
            let called =
              subst (λ (n : String). find? (is_called n) db.users ≡ some u) (sym same) found in
            (
              (u, found, r.sent ∙ ap some is_own, full),
              subst
                  (λ (d : ResetDb).
                    passreset_post hashing min_length new_key next d ≡ (invalid_email, d))
                  (sym r.done) (refuses next key r.password u db called given_key),
            )
      ]
