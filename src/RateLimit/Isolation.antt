-- ===== src/RateLimit/Isolation.antt =====
-- The row of a host while rows expire, are counted and are created.
use mprweb.Prelude.{
  ℕ, ◌+◌, ◌≡◌, ◌≢◌, refl, ◌∙◌, String, Bool, false, not, Option, none, some, List, [], ◌∷◌, ◌++◌,
  filter, any, any-append, any-filter-false, find?, find?-none, update_where, eq_iff, arith,
  Bool-cases, inl, inr, if◌then◌else◌,
}
use mprweb.RateLimit.{ApiRateLimit, is_host, is_passed}

-- IP is the primary key.
abbrev pub HasUniqueHosts : List ApiRateLimit → Type 0
HasUniqueHosts [] = Unit {0}
HasUniqueHosts (r ∷ rs) = (any (is_host r.ip) rs ≡ false) × HasUniqueHosts rs

abbrev pub unexpired : ℕ → ℕ → Option ApiRateLimit → Option ApiRateLimit
unexpired len now none = none
unexpired len now (some r) = if is_passed len now r then none else some r

abbrev pub living : ℕ → ℕ → List ApiRateLimit → List ApiRateLimit
living len now = filter (λ r. not (is_passed len now r))

pub find?-living :
    (len now : ℕ) (h : String) (rows : List ApiRateLimit)
    → HasUniqueHosts rows
    → find? (is_host h) (living len now rows) ≡ unexpired len now (find? (is_host h) rows)
find?-living len now h [] u = refl
find?-living len now h (r ∷ rs) u = elim (Bool-cases (is_host h r)) [
  | inr other ↦ ground (arith, find?-living len now h rs u.1)
  | inl own ↦
      let same : r.ip ≡ h = (eq_iff r.ip h).0 own in
      let alone : any (is_host h) rs ≡ false = rw same at u.0 in
      ground (
        arith,
        find?-none (is_host h) (living len now rs)
            (any-filter-false (is_host h) (λ r. not (is_passed len now r)) rs alone),
      )
]

pub living-HasUniqueHosts :
    (len now : ℕ) (rows : List ApiRateLimit)
    → HasUniqueHosts rows
    → HasUniqueHosts (living len now rows)
living-HasUniqueHosts len now [] u = tt
living-HasUniqueHosts len now (r ∷ rs) u = elim (Bool-cases (is_passed len now r)) [
  | inl old ↦ rw old (living-HasUniqueHosts len now rs u.1)
  | inr young ↦ rw young (
    any-filter-false (is_host r.ip) (λ r. not (is_passed len now r)) rs u.0,
    living-HasUniqueHosts len now rs u.1,
  )
]

pub find?-append_absent :
    (p : ApiRateLimit → Bool) (rows : List ApiRateLimit) (r : ApiRateLimit)
    → find? p rows ≡ none
    → find? p (rows ++ r ∷ []) ≡ (if p r then some r else none)
find?-append_absent p [] r e = refl
find?-append_absent p (x ∷ xs) r e = ground (arith, find?-append_absent p xs r)

pub find?-append_other :
    (p : ApiRateLimit → Bool) (rows : List ApiRateLimit) (r : ApiRateLimit)
    → p r ≡ false
    → find? p (rows ++ r ∷ []) ≡ find? p rows
find?-append_other p [] r e = ground arith
find?-append_other p (x ∷ xs) r e = ground (arith, find?-append_other p xs r e)

abbrev pub bump : ApiRateLimit → ApiRateLimit
bump r = record r { requests = r.requests + 1 }

pub find?-bump_own :
    (h : String) (rows : List ApiRateLimit) {r : ApiRateLimit}
    → find? (is_host h) rows ≡ some r
    → find? (is_host h) (update_where (is_host h) bump rows) ≡ some (bump r)
find?-bump_own h [] e = absurd (cc)
find?-bump_own h (x ∷ xs) {r} e = elim (Bool-cases (is_host h x)) [
  | inl own ↦ ground arith
  | inr other ↦ let rest = find?-bump_own h xs (rw other at e) in ground arith
]

pub find?-bump_other :
    (g h : String) (rows : List ApiRateLimit)
    → g ≢ h
    → find? (is_host h) (update_where (is_host g) bump rows) ≡ find? (is_host h) rows
find?-bump_other g h [] ne = refl
find?-bump_other g h (x ∷ xs) ne = elim (Bool-cases (is_host g x)) [
  | inl own ↦
      let same : x.ip ≡ g = (eq_iff x.ip g).0 own in
      let foreign : is_host h x ≡ false = rw same (ground (arith, eq_iff g h)) in
      ground (arith, find?-bump_other g h xs ne)
  | inr other ↦ ground (arith, find?-bump_other g h xs ne)
]

any-bump :
    (g h : String) (rows : List ApiRateLimit)
    → any (is_host h) (update_where (is_host g) bump rows) ≡ any (is_host h) rows
any-bump g h [] = refl
any-bump g h (x ∷ xs) = ground (arith, any-bump g h xs)

pub bump-HasUniqueHosts :
    (g : String) (rows : List ApiRateLimit)
    → HasUniqueHosts rows
    → HasUniqueHosts (update_where (is_host g) bump rows)
bump-HasUniqueHosts g [] u = tt
bump-HasUniqueHosts g (x ∷ xs) u = elim (Bool-cases (is_host g x)) [
  | inl own ↦ rw own (any-bump g x.ip xs ∙ u.0, bump-HasUniqueHosts g xs u.1)
  | inr other ↦ rw other (any-bump g x.ip xs ∙ u.0, bump-HasUniqueHosts g xs u.1)
]

pub append-HasUniqueHosts :
    (rows : List ApiRateLimit) (r : ApiRateLimit)
    → HasUniqueHosts rows
    → find? (is_host r.ip) rows ≡ none
    → HasUniqueHosts (rows ++ r ∷ [])
append-HasUniqueHosts [] r u e = (refl, tt)
append-HasUniqueHosts (x ∷ xs) r u e =
    let foreign : is_host r.ip x ≡ false = ground arith in
    let back : is_host x.ip r ≡ false = ground (arith, eq_iff x.ip r.ip, eq_iff r.ip x.ip) in
    (
      any-append (is_host x.ip) xs (r ∷ []) ∙ ground (arith, u.0),
      append-HasUniqueHosts xs r u.1 (ground arith),
    )
