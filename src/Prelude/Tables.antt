-- ===== src/Prelude/Tables.antt =====
-- Updates and deletions of the rows of a table.
use mathlib.Core.Path.{◌≡◌, refl, ap}
use mathlib.Core.Logic.{inl, inr}
use mathlib.Core.Bool.{Bool, true, false}
use mathlib.Core.Option.{none, some}
use mathlib.Core.List.{List, [], ◌∷◌, ◌++◌}
use native.Mathlib.Omega.{arith}
use mprweb.Prelude.Tests.{if◌then◌else◌, Bool-cases}
use mprweb.Prelude.Lists.{filter, find?, any, update_where, All}

-- What the rows of a table satisfy after an update or a deletion.
module _ {ℓ} {A : Type ℓ} where
  pub All-update_where {κ μ} :
      (P : A → Type κ) (Q : A → Type μ) (p : A → Bool) (f : A → A) (xs : List A)
      → ((x : A) → p x ≡ true → P x → Q (f x))
      → ((x : A) → p x ≡ false → P x → Q x)
      → All P xs
      → All Q (update_where p f xs)
  All-update_where P Q p f [] hit miss h = tt
  All-update_where P Q p f (x ∷ xs) hit miss h = elim (Bool-cases (p x)) [
    | inl e ↦ rw e (hit x e h.0, All-update_where P Q p f xs hit miss h.1)
    | inr e ↦ rw e (miss x e h.0, All-update_where P Q p f xs hit miss h.1)
  ]

  pub All-filter_where {κ μ} :
      (P : A → Type κ) (Q : A → Type μ) (p : A → Bool) (xs : List A)
      → ((x : A) → p x ≡ true → P x → Q x)
      → All P xs
      → All Q (filter p xs)
  All-filter_where P Q p [] keep h = tt
  All-filter_where P Q p (x ∷ xs) keep h = elim (Bool-cases (p x)) [
    | inl e ↦ rw e (keep x e h.0, All-filter_where P Q p xs keep h.1)
    | inr e ↦ rw e (All-filter_where P Q p xs keep h.1)
  ]

  -- A second update of the same rows takes the place of the first.
  pub update_where-update_where :
      (p : A → Bool) (f g : A → A) (xs : List A)
      → ((x : A) → p x ≡ true → p (f x) ≡ true)
      → update_where p g (update_where p f xs) ≡ update_where p (λ x. g (f x)) xs
  update_where-update_where p f g [] same = refl
  update_where-update_where p f g (x ∷ xs) same = elim (Bool-cases (p x)) [
    | inl e ↦ rw (e, update_where-update_where p f g xs same) (rw (same x e) refl)
    | inr e ↦ rw (e, update_where-update_where p f g xs same) (rw e refl)
  ]

  pub update_where-same :
      (p : A → Bool) (f : A → A) (xs : List A)
      → All (λ x. p x ≡ true → f x ≡ x) xs
      → update_where p f xs ≡ xs
  update_where-same p f [] h = refl
  update_where-same p f (x ∷ xs) h = elim (Bool-cases (p x)) [
    | inl e ↦ rw (e, update_where-same p f xs h.1) (ap (λ y. y ∷ xs) (h.0 e))
    | inr e ↦ rw (e, update_where-same p f xs h.1) refl
  ]

  pub find?-update_where :
      (p q : A → Bool) (f : A → A) (xs : List A)
      → ((x : A) → q (f x) ≡ q x)
      → find? q (update_where p f xs)
        ≡ elim (find? q xs) [ none ↦ none | some x ↦ some (if p x then f x else x) ]
  find?-update_where p q f [] same = refl
  find?-update_where p q f (x ∷ xs) same = elim (Bool-cases (p x)) [
    | inl e ↦ elim (Bool-cases (q x)) [
      | inl here ↦ rw e (rw (same x, here) (rw e refl))
      | inr away ↦ rw e (rw (same x, away) (find?-update_where p q f xs same))
    ]
    | inr e ↦ elim (Bool-cases (q x)) [
      | inl here ↦ rw e (rw here (rw e refl))
      | inr away ↦ rw e (rw away (find?-update_where p q f xs same))
    ]
  ]

  pub find?-any :
      (p q : A → Bool) (xs : List A) {x : A} → find? p xs ≡ some x → q x ≡ true → any q xs ≡ true
  find?-any p q [] h e = cc
  find?-any p q (x ∷ xs) {x = y} h e = elim (Bool-cases (p x)) [
    | inl here ↦ let same : x ≡ y = ground arith in rw same (rw e refl)
    | inr away ↦ let rest = find?-any p q xs (rw away at h) e in ground (arith, rest)
  ]

  -- A new row is found where no row was before.
  pub find?-snoc :
      (p : A → Bool) (xs : List A) (x : A)
      → any p xs ≡ false
      → p x ≡ true
      → find? p (xs ++ x ∷ []) ≡ some x
  find?-snoc p [] x h e = rw e refl
  find?-snoc p (y ∷ ys) x h e = ground (arith, find?-snoc p ys x)
