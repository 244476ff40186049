-- ===== src/Pkgbase/Comaintainers/Rotation.antt =====
-- `rotate_comaintainers` numbers the comaintainers of one package base by rank.
use mprweb.Prelude.{
  ℕ, ◌+◌, ◌<◌, ◌≡◌, ◌≢◌, refl, sym, ◌∙◌, ap, Bool, true, false, ◌&&◌, Option, some, none, List, [],
  ◌∷◌, filter, any, find?, find?-filter, count_where, count_where-filter, All, All-find?, ltb, ◌==◌,
  ==_iff, arith, Bool-cases, inl, inr, if◌then◌else◌,
}
use mathlib.Core.Option
use mprweb.Models.{PackageComaintainer}
use mprweb.Pkgbase.Comaintainers.{
  of_base, is_row, set_priority, renumber, order_by_priority, comaintainers_of,
  rotate_comaintainers,
}
use mprweb.Pkgbase.Comaintainers.Order.{
  HasDistinctPriorities, IsSorted, IsKeyed, order-IsSorted, order-IsKeyed, filter-IsKeyed,
  find?-order, count_where-order, any-order,
}

abbrev pub with_priority : ℕ → PackageComaintainer → PackageComaintainer
with_priority p c = record c { priority = p }

-- The priority that the loop leaves at a key, from number i on; p where it writes none.
abbrev pub place : ℕ → ℕ → ℕ → List PackageComaintainer → ℕ → ℕ
place uid b i [] p = p
place uid b i (c ∷ cs) p = place uid b (i + 1) cs (if is_row uid b c then i + 1 else p)

abbrev placed :
    ℕ → ℕ → ℕ → List PackageComaintainer → Option PackageComaintainer → Option PackageComaintainer
placed uid b i cs none = none
placed uid b i cs (some r) = some (with_priority (place uid b i cs r.priority) r)

find?-set_priority :
    (uid b vid a p : ℕ) (rows : List PackageComaintainer)
    → find? (is_row uid b) (set_priority vid a p rows) ≡ (
        if (vid == uid) && (a == b)
        then Option.map (with_priority p) (find? (is_row uid b) rows)
        else find? (is_row uid b) rows)
unfolding set_priority
find?-set_priority uid b vid a p [] = ground arith
find?-set_priority uid b vid a p (c ∷ cs) = ground (arith, find?-set_priority uid b vid a p cs)

placed-nil : (uid b i : ℕ) (o : Option PackageComaintainer) → placed uid b i [] o ≡ o
placed-nil uid b i none = refl
placed-nil uid b i (some r) = refl

placed-cons :
    (uid b i : ℕ) (c : PackageComaintainer) (cs : List PackageComaintainer)
    (o : Option PackageComaintainer)
    → placed uid b (i + 1) cs (if is_row uid b c then Option.map (with_priority (i + 1)) o else o)
      ≡ placed uid b i (c ∷ cs) o
placed-cons uid b i c cs none = ground arith
placed-cons uid b i c cs (some r) = elim (Bool-cases (is_row uid b c)) [
  | inl e ↦ rw e refl
  | inr e ↦ rw e refl
]

find?-renumber :
    (uid b i : ℕ) (cs rows : List PackageComaintainer)
    → find? (is_row uid b) (renumber i cs rows) ≡ placed uid b i cs (find? (is_row uid b) rows)
unfolding renumber
find?-renumber uid b i [] rows = sym (placed-nil uid b i (find? (is_row uid b) rows))
find?-renumber uid b i (c ∷ cs) rows =
    find?-renumber uid b (i + 1) cs (set_priority c.users_id c.package_base_id (i + 1) rows)
    ∙ ap (placed uid b (i + 1) cs)
        (find?-set_priority uid b c.users_id c.package_base_id (i + 1) rows)
    ∙ placed-cons uid b i c cs (find? (is_row uid b) rows)

place_absent :
    (uid b i p : ℕ) (cs : List PackageComaintainer)
    → any (is_row uid b) cs ≡ false
    → place uid b i cs p ≡ p
place_absent uid b i p [] h = refl
place_absent uid b i p (c ∷ cs) h = ground (arith, place_absent uid b (i + 1) p cs)

abbrev pub below : PackageComaintainer → PackageComaintainer → Bool
below c d = ltb d.priority c.priority

none_below :
    (c : PackageComaintainer) (cs : List PackageComaintainer)
    → All (λ (d : PackageComaintainer). c.priority < d.priority) cs
    → count_where (below c) cs ≡ 0
none_below c [] h = refl
none_below c (d ∷ ds) h = ground (arith, none_below c ds h.1)

-- In a sorted list the place of a row is the number of rows below it, and one.
place-rank :
    (uid b i p : ℕ) (cs : List PackageComaintainer) {c : PackageComaintainer}
    → IsSorted cs
    → IsKeyed cs
    → find? (is_row uid b) cs ≡ some c
    → place uid b i cs p ≡ i + 1 + count_where (below c) cs
place-rank uid b i p [] s k e = absurd (cc)
place-rank uid b i p (d ∷ ds) {c} s k e = elim (Bool-cases (is_row uid b d)) [
  | inl q ↦
      let same : d ≡ c = ground arith in
      let user : d.users_id ≡ uid = ground arith in
      let base : d.package_base_id ≡ b = ground arith in
      let alone : any (is_row uid b) ds ≡ false = rw (user, base) at k.0 in
      let above : All (λ (x : PackageComaintainer). c.priority < x.priority) ds = rw same at s.0 in
      ground (arith, place_absent uid b (i + 1) (i + 1) ds alone, none_below c ds above)
  | inr q ↦
      let found : find? (is_row uid b) ds ≡ some c = rw q at e in
      let above = All-find? (λ x. d.priority < x.priority) (is_row uid b) ds s.0 found in
      ground (arith, place-rank uid b (i + 1) p ds s.1 k.1 found)
]

-- The comaintainers of base b whose priority is smaller than c's.
abbrev pub ranks_below : ℕ → PackageComaintainer → List PackageComaintainer → ℕ
ranks_below b c = count_where (λ d. of_base b d && below c d)

no_other_base :
    (uid a b : ℕ) (rows : List PackageComaintainer)
    → a ≢ b
    → any (is_row uid a) (filter (of_base b) rows) ≡ false
no_other_base uid a b [] h = refl
no_other_base uid a b (c ∷ cs) h = ground (arith, no_other_base uid a b cs h)

row-of_base : (uid b : ℕ) (c : PackageComaintainer) → is_row uid b c ≡ true → of_base b c ≡ true
row-of_base uid b c h = ground arith

place-rotate :
    (uid a b p : ℕ) (rows : List PackageComaintainer) {c : PackageComaintainer}
    → IsKeyed rows
    → HasDistinctPriorities (filter (of_base b) rows)
    → find? (is_row uid a) rows ≡ some c
    → place uid a 0 (comaintainers_of b rows) p ≡ (if a == b then 1 + ranks_below b c rows else p)
unfolding comaintainers_of
place-rotate uid a b p rows {c} k d e = elim (Bool-cases (a == b)) [
  | inl same ↦
      rw (same, (==_iff a b).0 same)
        (place-rank uid b 0 p (order_by_priority (filter (of_base b) rows))
            (order-IsSorted (filter (of_base b) rows) d)
            (order-IsKeyed (filter (of_base b) rows) (filter-IsKeyed (of_base b) rows k))
            (find?-order uid b (filter (of_base b) rows) (filter-IsKeyed (of_base b) rows k)
              ∙ find?-filter (is_row uid b) (of_base b) rows (row-of_base uid b)
              ∙ rw ((==_iff a b).0 same) at e)
          ∙ ap (λ n. 1 + n)
              (count_where-order (below c) (filter (of_base b) rows)
                ∙ count_where-filter (below c) (of_base b) rows))
  | inr other ↦ rw other (
      place_absent uid a 0 p (order_by_priority (filter (of_base b) rows)) (
        any-order (is_row uid a) (filter (of_base b) rows)
        ∙ no_other_base uid a b rows (ground arith)))
]

-- After the rotation the priority of a comaintainer of the base is one more than the number of
-- comaintainers of the base that stood before it, so that the priorities are 1, 2, 3, … in the old
-- order, when the old ones are distinct. A row of another base is found as it was. No user has two
-- rows for one base.
pub find?-rotate :
    (uid a b : ℕ) (rows : List PackageComaintainer) {c : PackageComaintainer}
    → IsKeyed rows
    → HasDistinctPriorities (filter (of_base b) rows)
    → find? (is_row uid a) rows ≡ some c
    → find? (is_row uid a) (rotate_comaintainers b rows)
      ≡ some (if a == b then with_priority (1 + ranks_below b c rows) c else c)
unfolding rotate_comaintainers
find?-rotate uid a b rows {c} k d e =
    find?-renumber uid a 0 (comaintainers_of b rows) rows
    ∙ rw (e, place-rotate uid a b c.priority rows k d e)
        (elim (Bool-cases (a == b)) [ inl same ↦ rw same refl | inr other ↦ rw other refl ])
