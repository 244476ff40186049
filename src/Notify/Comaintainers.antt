-- ===== src/Notify/Comaintainers.antt =====
-- aurweb/pkgbase/util.py, remove_comaintainers, with the notifications that it makes.
use mprweb.Prelude.{
  ◌>>=◌, ℕ, ◌≡◌, refl, ◌∙◌, String, Bool, true, false, not, ◌&&◌, ◌||◌, Option, none, some, List,
  [], ◌∷◌, map, any, find?, ◌==◌, Bool-cases, inl, inr, if◌then◌else◌,
}
use mprweb.Models.{User, PackageComaintainer}
use mprweb.Pkgbase.Comaintainers.{of_base, is_named, username_of, remove_comaintainers}
use mprweb.Notify.{Reader, MailDb}
use mprweb.Notify.Notices.{Mail, base_name, active_reader, comaintainer_notification}

abbrev users : MailDb → List User
users db = map (λ (r : Reader). r.user) db.readers

-- The rows of the base whose users are named.
abbrev pub is_removed : MailDb → ℕ → List String → PackageComaintainer → Bool
is_removed db b names c = of_base b c && is_named names (username_of (users db) c.users_id)

-- A ComaintainerRemoveNotification for each of them.
unfoldable pub removal_mails :
    MailDb → ℕ → List String → List PackageComaintainer → Option (List Mail)
removal_mails db b names [] = some []
removal_mails db b names (c ∷ cs) =
    let rest = removal_mails db b names cs in
    if is_removed db b names c
    then (do m ← comaintainer_notification c.users_id b db; ms ← rest; some (m ∷ ms))
    else rest

-- The notifications are made before the rows are deleted, in one transaction: if one cannot be made,
-- no row is deleted.
unfoldable pub remove_and_notify :
    MailDb → ℕ → List String → Option (List PackageComaintainer × List Mail)
unfolding removal_mails
remove_and_notify db b names = do
  mails ← removal_mails db b names db.site.comaintainers
  some (remove_comaintainers (users db) b names db.site.comaintainers, mails)

abbrev pub is_none {ℓ} : {A : Type ℓ} → Option A → Bool
is_none none = true
is_none (some a) = false

-- An account that there is, and that is not suspended.
abbrev pub has_active_account : MailDb → ℕ → Bool
has_active_account db uid =
    any (λ (r : Reader). r.user.id == uid && not r.user.suspended) db.readers

is_none-bind {ℓ κ} :
    {A : Type ℓ} {B : Type κ} (m : Option A) (f : A → Option B)
    → ((a : A) → is_none (f a) ≡ false)
    → is_none (m >>= f) ≡ is_none m
is_none-bind none f h = refl
is_none-bind (some a) f h = h a

is_none-find? {ℓ} :
    {A : Type ℓ} (p : A → Bool) (xs : List A) → is_none (find? p xs) ≡ not (any p xs)
is_none-find? p [] = refl
is_none-find? p (x ∷ xs) = elim (Bool-cases (p x)) [
  | inl e ↦ rw e refl
  | inr e ↦ rw e (is_none-find? p xs)
]

module _ (db : MailDb) (b : ℕ) (name : String) (known : base_name b db ≡ some name) where
  is_none-comaintainer_notification :
      (uid : ℕ) → is_none (comaintainer_notification uid b db) ≡ not (has_active_account db uid)
  unfolding comaintainer_notification
  is_none-comaintainer_notification uid = rw known (
      is_none-bind (active_reader uid db) _ (λ r. refl)
      ∙ is_none-find? (λ (r : Reader). r.user.id == uid && not r.user.suspended) db.readers)

  is_none-then :
      (m : Option Mail) (ms : Option (List Mail))
      → is_none (m >>= (λ x. ms >>= (λ xs. some (x ∷ xs)))) ≡ (is_none m || is_none ms)
  is_none-then none ms = refl
  is_none-then (some m) none = refl
  is_none-then (some m) (some ms) = refl

  is_none-removal_mails :
      (names : List String) (rows : List PackageComaintainer)
      → is_none (removal_mails db b names rows)
        ≡ any (λ c. is_removed db b names c && not (has_active_account db c.users_id)) rows
  unfolding removal_mails
  is_none-removal_mails names [] = refl
  is_none-removal_mails names (c ∷ cs) = elim (Bool-cases (is_removed db b names c)) [
    | inr stays ↦ rw (removal_mails, stays) (is_none-removal_mails names cs)
    | inl goes ↦
        rw (removal_mails, goes)
          (is_none-then (comaintainer_notification c.users_id b db) (removal_mails db b names cs)
            ∙ rw (is_none-comaintainer_notification c.users_id, is_none-removal_mails names cs)
                refl)
  ]

  -- Removing comaintainers by their names fails exactly if one of the removed comaintainers has a
  -- suspended account. The base is there.
  pub removal_fails_iff :
      (names : List String)
      → is_none (remove_and_notify db b names)
        ≡ any
            (λ c. is_removed db b names c && not (has_active_account db c.users_id))
            db.site.comaintainers
  unfolding remove_and_notify
  removal_fails_iff names =
      is_none-bind (removal_mails db b names db.site.comaintainers) _ (λ ms. refl)
      ∙ is_none-removal_mails names db.site.comaintainers
