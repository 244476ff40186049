-- ===== src/Pkgbase/Comaintainers/Order.antt =====
-- Ordering the comaintainers by priority: nothing is lost, and the place of a row is its rank.
use mprweb.Prelude.{
  ℕ, ◌+◌, ◌<◌, ◌≡◌, ◌≢◌, refl, ◌∙◌, Bool, false, some, List, [], ◌∷◌, filter, any, count_where, All,
  All-weaken, find?, any-filter-false, ◌||◌, leb, arith, Bool-cases, inl, inr, if◌then◌else◌,
}
use mprweb.Models.{PackageComaintainer}
use mprweb.Pkgbase.Comaintainers.{insert_by_priority, order_by_priority, is_row}

abbrev pub HasDistinctPriorities : List PackageComaintainer → Type 0
HasDistinctPriorities [] = Unit {0}
HasDistinctPriorities (c ∷ cs) =
    All (λ (d : PackageComaintainer). c.priority ≢ d.priority) cs × HasDistinctPriorities cs

abbrev pub IsSorted : List PackageComaintainer → Type 0
IsSorted [] = Unit {0}
IsSorted (c ∷ cs) = All (λ (d : PackageComaintainer). c.priority < d.priority) cs × IsSorted cs

pub count_where-insert :
    (p : PackageComaintainer → Bool) (c : PackageComaintainer) (cs : List PackageComaintainer)
    → count_where p (insert_by_priority c cs) ≡ (if p c then 1 else 0) + count_where p cs
unfolding insert_by_priority
count_where-insert p c [] = refl
count_where-insert p c (d ∷ ds) = ground (arith, count_where-insert p c ds)

pub count_where-order :
    (p : PackageComaintainer → Bool) (cs : List PackageComaintainer)
    → count_where p (order_by_priority cs) ≡ count_where p cs
unfolding order_by_priority
count_where-order p [] = refl
count_where-order p (c ∷ cs) =
    omega (arith, count_where-insert p c (order_by_priority cs), count_where-order p cs)

module _ (P : PackageComaintainer → Type 0) where
  pub All-insert :
      (c : PackageComaintainer) (cs : List PackageComaintainer)
      → P c
      → All P cs
      → All P (insert_by_priority c cs)
  unfolding insert_by_priority
  All-insert c [] pc h = (pc, tt)
  All-insert c (d ∷ ds) pc h = elim (Bool-cases (leb c.priority d.priority)) [
    | inl e ↦ rw e (pc, h)
    | inr e ↦ rw e (h.0, All-insert c ds pc h.1)
  ]

  pub All-order : (cs : List PackageComaintainer) → All P cs → All P (order_by_priority cs)
  unfolding order_by_priority
  All-order [] h = tt
  All-order (c ∷ cs) h = All-insert c (order_by_priority cs) h.0 (All-order cs h.1)

insert-IsSorted :
    (c : PackageComaintainer) (cs : List PackageComaintainer)
    → All (λ (d : PackageComaintainer). c.priority ≢ d.priority) cs
    → IsSorted cs
    → IsSorted (insert_by_priority c cs)
unfolding insert_by_priority
insert-IsSorted c [] h s = (tt, tt)
insert-IsSorted c (d ∷ ds) h s = elim (Bool-cases (leb c.priority d.priority)) [
  | inl e ↦ rw e (
    (
      ground (arith, h.0),
      All-weaken (λ x. d.priority < x.priority) (λ x. c.priority < x.priority) ds
          (λ x q. ground (arith, h.0)) s.0,
    ),
    s,
  )
  | inr e ↦ rw e (
    All-insert (λ x. d.priority < x.priority) c ds (ground (arith, h.0)) s.0,
    insert-IsSorted c ds h.1 s.1,
  )
]

-- Distinct priorities are sorted strictly.
pub order-IsSorted :
    (cs : List PackageComaintainer) → HasDistinctPriorities cs → IsSorted (order_by_priority cs)
unfolding order_by_priority
order-IsSorted [] h = tt
order-IsSorted (c ∷ cs) h =
    insert-IsSorted c (order_by_priority cs) (All-order (λ d. c.priority ≢ d.priority) cs h.0)
      (order-IsSorted cs h.1)

-- The primary key: no two rows have the same user and package base.
abbrev pub IsKeyed : List PackageComaintainer → Type 0
IsKeyed [] = Unit {0}
IsKeyed (c ∷ cs) = (any (is_row c.users_id c.package_base_id) cs ≡ false) × IsKeyed cs

pub any-insert :
    (p : PackageComaintainer → Bool) (c : PackageComaintainer) (cs : List PackageComaintainer)
    → any p (insert_by_priority c cs) ≡ (p c || any p cs)
unfolding insert_by_priority
any-insert p c [] = refl
any-insert p c (d ∷ ds) = ground (arith, any-insert p c ds)

pub any-order :
    (p : PackageComaintainer → Bool) (cs : List PackageComaintainer)
    → any p (order_by_priority cs) ≡ any p cs
unfolding order_by_priority
any-order p [] = refl
any-order p (c ∷ cs) = ground (arith, any-insert p c (order_by_priority cs), any-order p cs)

insert-IsKeyed :
    (c : PackageComaintainer) (cs : List PackageComaintainer)
    → any (is_row c.users_id c.package_base_id) cs ≡ false
    → IsKeyed cs
    → IsKeyed (insert_by_priority c cs)
unfolding insert_by_priority
insert-IsKeyed c [] h k = (refl, tt)
insert-IsKeyed c (d ∷ ds) h k = elim (Bool-cases (leb c.priority d.priority)) [
  | inl e ↦ rw e (h, k)
  | inr e ↦ rw e (
    ground (arith, any-insert (is_row d.users_id d.package_base_id) c ds),
    insert-IsKeyed c ds (ground arith) k.1,
  )
]

pub order-IsKeyed : (cs : List PackageComaintainer) → IsKeyed cs → IsKeyed (order_by_priority cs)
unfolding order_by_priority
order-IsKeyed [] k = tt
order-IsKeyed (c ∷ cs) k =
    insert-IsKeyed c (order_by_priority cs)
      (any-order (is_row c.users_id c.package_base_id) cs ∙ k.0) (order-IsKeyed cs k.1)

pub filter-IsKeyed :
    (q : PackageComaintainer → Bool) (cs : List PackageComaintainer)
    → IsKeyed cs
    → IsKeyed (filter q cs)
filter-IsKeyed q [] k = tt
filter-IsKeyed q (c ∷ cs) k = elim (Bool-cases (q c)) [
  | inl e ↦
      rw e
        (any-filter-false (is_row c.users_id c.package_base_id) q cs k.0, filter-IsKeyed q cs k.1)
  | inr e ↦ rw e (filter-IsKeyed q cs k.1)
]

find?-insert :
    (uid b : ℕ) (c : PackageComaintainer) (cs : List PackageComaintainer)
    → any (is_row c.users_id c.package_base_id) cs ≡ false
    → find? (is_row uid b) (insert_by_priority c cs)
      ≡ (if is_row uid b c then some c else find? (is_row uid b) cs)
unfolding insert_by_priority
find?-insert uid b c [] h = refl
find?-insert uid b c (d ∷ ds) h = ground (arith, find?-insert uid b c ds)

-- Ordering changes no lookup by key.
pub find?-order :
    (uid b : ℕ) (cs : List PackageComaintainer)
    → IsKeyed cs
    → find? (is_row uid b) (order_by_priority cs) ≡ find? (is_row uid b) cs
unfolding order_by_priority
find?-order uid b [] k = refl
find?-order uid b (c ∷ cs) k = ground (
  arith,
  any-order (is_row c.users_id c.package_base_id) cs,
  find?-insert uid b c (order_by_priority cs),
  find?-order uid b cs k.1,
)
