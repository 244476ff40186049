-- ===== src/Prelude/Lists.antt =====
-- Lists as the tables and query results of the program use them: Boolean filters, first match,
-- membership tests, and the predicates that range over the rows of a table.
use Prim.Native.Nat.{ℕ, zero, suc, ◌+◌, ◌≤◌}
use mathlib.Core.Path.{◌≡◌, refl}
use mathlib.Core.Logic.{inl, inr}
use mathlib.Core.Bool.{Bool, true, false, ◌&&◌, ◌||◌}
use mathlib.Core.Option.{Option, none, some}
use mathlib.Core.List.{List, [], ◌∷◌, ◌++◌, map}
use native.Mathlib.Omega.{arith}
use mprweb.Prelude.Tests.{if◌then◌else◌, ◌==◌, Bool-cases}

module _ {ℓ} {A : Type ℓ} where
  abbrev pub length : List A → ℕ
  length [] = 0
  length (x ∷ xs) = suc (length xs)

  -- `[x for x in xs if p(x)]`, and `query.filter(p).all()`
  abbrev pub filter : (A → Bool) → List A → List A
  filter p [] = []
  filter p (x ∷ xs) = let rest = filter p xs in if p x then x ∷ rest else rest

  -- `query.filter(p).first()`
  abbrev pub find? : (A → Bool) → List A → Option A
  find? p [] = none
  find? p (x ∷ xs) = let rest = find? p xs in if p x then some x else rest

  -- `query.filter(p).exists()`
  abbrev pub any : (A → Bool) → List A → Bool
  any p [] = false
  any p (x ∷ xs) = p x || any p xs

  -- `query.filter(p).update(f)`
  abbrev pub update_where : (A → Bool) → (A → A) → List A → List A
  update_where p f [] = []
  update_where p f (x ∷ xs) = (if p x then f x else x) ∷ update_where p f xs

  -- `count(*)` of the rows that satisfy p
  abbrev pub count_where : (A → Bool) → List A → ℕ
  count_where p [] = 0
  count_where p (x ∷ xs) = (if p x then 1 else 0) + count_where p xs

  abbrev pub All {κ} : (A → Type κ) → List A → Type κ
  All P [] = Unit
  All P (x ∷ xs) = P x × All P xs

-- `x in xs` for numbers
abbrev pub elem : ℕ → List ℕ → Bool
elem a = any (λ x. a == x)

module _ {ℓ} {A : Type ℓ} where
  pub length-append : (xs ys : List A) → length (xs ++ ys) ≡ length xs + length ys
  length-append [] ys = omega arith
  length-append (x ∷ xs) ys = omega (arith, length-append xs ys)

  pub filter-append :
      (p : A → Bool) (xs ys : List A) → filter p (xs ++ ys) ≡ filter p xs ++ filter p ys
  filter-append p [] ys = refl
  filter-append p (x ∷ xs) ys = ground (arith, filter-append p xs ys)

  pub any-append : (p : A → Bool) (xs ys : List A) → any p (xs ++ ys) ≡ (any p xs || any p ys)
  any-append p [] ys = refl
  any-append p (x ∷ xs) ys = ground (arith, any-append p xs ys)

  pub length-filter-le : (p : A → Bool) (xs : List A) → length (filter p xs) ≤ length xs
  length-filter-le p [] = omega arith
  length-filter-le p (x ∷ xs) = ground (arith, length-filter-le p xs)

  -- The first match is a match.
  pub find?-holds : (p : A → Bool) (xs : List A) {x : A} → find? p xs ≡ some x → p x ≡ true
  find?-holds p [] h = cc
  find?-holds p (x ∷ xs) {x = y} h = elim (Bool-cases (p x)) [
    | inl e ↦ cc (e, rw e at h)
    | inr e ↦ find?-holds p xs (rw e at h)
  ]

  pub any-find? : (p : A → Bool) (xs : List A) → any p xs ≡ true → (x : A) × (find? p xs ≡ some x)
  any-find? p [] h = absurd (cc)
  any-find? p (x ∷ xs) h = elim (Bool-cases (p x)) [
    | inl e ↦ (x, rw e)
    | inr e ↦ rw e (any-find? p xs (rw e at h))
  ]

  pub find?-none : (p : A → Bool) (xs : List A) → any p xs ≡ false → find? p xs ≡ none
  find?-none p [] h = refl
  find?-none p (x ∷ xs) h = ground (arith, find?-none p xs)

  pub All-append {κ} : (P : A → Type κ) (xs ys : List A) → All P xs → All P ys → All P (xs ++ ys)
  All-append P [] ys hx hy = hy
  All-append P (x ∷ xs) ys hx hy = (hx.0, All-append P xs ys hx.1 hy)

  pub All-filter {κ} :
      (P : A → Type κ) (p : A → Bool) (xs : List A) → All P xs → All P (filter p xs)
  All-filter P p [] h = tt
  All-filter P p (x ∷ xs) h = elim (Bool-cases (p x)) [
    | inl e ↦ rw e (h.0, All-filter P p xs h.1)
    | inr e ↦ rw e (All-filter P p xs h.1)
  ]

  -- What a filter keeps passes its test.
  pub All-filter_self : (p : A → Bool) (xs : List A) → All (λ x. p x ≡ true) (filter p xs)
  All-filter_self p [] = tt
  All-filter_self p (x ∷ xs) = elim (Bool-cases (p x)) [
    | inl e ↦ rw e (e, All-filter_self p xs)
    | inr e ↦ rw e (All-filter_self p xs)
  ]

  pub All-map {κ μ} :
      {B : Type κ} (P : B → Type μ) (f : A → B) (xs : List A)
      → All (λ x. P (f x)) xs
      → All P (map f xs)
  All-map P f [] h = tt
  All-map P f (x ∷ xs) h = (h.0, All-map P f xs h.1)

  pub All-weaken {κ μ} :
      (P : A → Type κ) (Q : A → Type μ) (xs : List A) → ((x : A) → P x → Q x) → All P xs → All Q xs
  All-weaken P Q [] f h = tt
  All-weaken P Q (x ∷ xs) f h = (f x h.0, All-weaken P Q xs f h.1)

module _ {ℓ} {A : Type ℓ} where
  -- A filter finds no match where there was none.
  pub any-filter-false :
      (p q : A → Bool) (xs : List A) → any p xs ≡ false → any p (filter q xs) ≡ false
  any-filter-false p q [] h = refl
  any-filter-false p q (x ∷ xs) h = ground (arith, any-filter-false p q xs)

  pub All-find? {κ} :
      (P : A → Type κ) (p : A → Bool) (xs : List A) {x : A} → All P xs → find? p xs ≡ some x → P x
  All-find? P p [] h e = absurd (cc)
  All-find? P p (x ∷ xs) {x = y} h e = elim (Bool-cases (p x)) [
    | inl q ↦ let same : x ≡ y = ground arith in rw (← same) h.0
    | inr q ↦ All-find? P p xs h.1 (rw q at e)
  ]

  -- Filtering by a test that the looked-up rows pass anyway changes no lookup.
  pub find?-filter :
      (p q : A → Bool) (xs : List A)
      → ((x : A) → p x ≡ true → q x ≡ true)
      → find? p (filter q xs) ≡ find? p xs
  find?-filter p q [] h = refl
  find?-filter p q (x ∷ xs) h = ground (arith, h x, find?-filter p q xs h)

  pub count_where-filter :
      (p q : A → Bool) (xs : List A)
      → count_where p (filter q xs) ≡ count_where (λ x. q x && p x) xs
  count_where-filter p q [] = refl
  count_where-filter p q (x ∷ xs) = ground (arith, count_where-filter p q xs)

module _ {ℓ} {A : Type ℓ} where
  pub map_congr_All {κ} :
      {B : Type κ} (f g : A → B) (xs : List A) → All (λ (x : A). f x ≡ g x) xs → map f xs ≡ map g xs
  map_congr_All f g [] h = refl
  map_congr_All f g (x ∷ xs) h = cc (h.0, map_congr_All f g xs h.1)

  pub filter_congr_All :
      (p q : A → Bool) (xs : List A) → All (λ (x : A). p x ≡ q x) xs → filter p xs ≡ filter q xs
  filter_congr_All p q [] h = refl
  filter_congr_All p q (x ∷ xs) h = ground (arith, h.0, filter_congr_All p q xs h.1)

  pub filter-nil_of_any : (p : A → Bool) (xs : List A) → any p xs ≡ false → filter p xs ≡ []
  filter-nil_of_any p [] h = refl
  filter-nil_of_any p (x ∷ xs) h = ground (arith, filter-nil_of_any p xs)

  pub filter-cons_of_any :
      (p : A → Bool) (xs : List A)
      → any p xs ≡ true
      → (y : A) × (ys : List A) × (filter p xs ≡ y ∷ ys)
  filter-cons_of_any p [] h = absurd (cc)
  filter-cons_of_any p (x ∷ xs) h = elim (Bool-cases (p x)) [
    | inl e ↦ (x, filter p xs, rw e refl)
    | inr e ↦ rw e (filter-cons_of_any p xs (rw e at h))
  ]

  pub All-zip {κ μ} :
      (P : A → Type κ) (Q : A → Type μ) (xs : List A)
      → All P xs
      → All Q xs
      → All (λ x. P x × Q x) xs
  All-zip P Q [] hp hq = tt
  All-zip P Q (x ∷ xs) hp hq = ((hp.0, hq.0), All-zip P Q xs hp.1 hq.1)

  pub All-intro {κ} : (P : A → Type κ) (xs : List A) → ((x : A) → P x) → All P xs
  All-intro P [] h = tt
  All-intro P (x ∷ xs) h = (h x, All-intro P xs h)

module _ {ℓ κ} {A : Type ℓ} {B : Type κ} where
  pub any-map-false :
      (q : B → Bool) (f : A → B) (xs : List A)
      → ((x : A) → q (f x) ≡ false)
      → any q (map f xs) ≡ false
  any-map-false q f [] h = refl
  any-map-false q f (x ∷ xs) h = ground (arith, h x, any-map-false q f xs h)

  pub any-map-true :
      (p : A → Bool) (q : B → Bool) (f : A → B) (xs : List A)
      → ((x : A) → p x ≡ true → q (f x) ≡ true)
      → any p xs ≡ true
      → any q (map f xs) ≡ true
  any-map-true p q f [] h e = absurd (cc)
  any-map-true p q f (x ∷ xs) h e = elim (Bool-cases (p x)) [
    | inl here ↦ rw (h x here) refl
    | inr later ↦ ground (arith, any-map-true p q f xs h (rw later at e))
  ]

module _ {ℓ} {A : Type ℓ} where
  -- `query.limit(n)`
  abbrev pub take : ℕ → List A → List A
  take zero xs = []
  take (suc n) [] = []
  take (suc n) (x ∷ xs) = x ∷ take n xs

  pub length-take-le : (n : ℕ) (xs : List A) → length (take n xs) ≤ n
  length-take-le zero xs = omega arith
  length-take-le (suc n) [] = omega arith
  length-take-le (suc n) (x ∷ xs) = omega (arith, length-take-le n xs)

  pub All-take {κ} : (P : A → Type κ) (n : ℕ) (xs : List A) → All P xs → All P (take n xs)
  All-take P zero xs h = tt
  All-take P (suc n) [] h = tt
  All-take P (suc n) (x ∷ xs) h = (h.0, All-take P n xs h.1)
