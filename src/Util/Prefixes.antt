-- ===== src/Util/Prefixes.antt =====
-- What git_search finds.
use mprweb.Prelude.{
  ℕ, zero, suc, ◌+◌, ◌-◌, ◌≤◌, ◌<◌, ◌≡◌, sym, subst, ◌==◌, ==_iff, String, Bool, true, false,
  str_len, str_take, Bool-cases, inl, inr, arith,
}
use mprweb.Util.{search_prefix, git_search}

-- The result of the search among some prefixes from a length on.
record IsShortest (in_repo : String → Bool) (hash : String) (left from found : ℕ) : Type 0 where
  lower : from ≤ found
  upper : found ≤ from + left
  none_shorter : (n : ℕ) → from ≤ n → n < found → in_repo (str_take n hash) ≡ false
  in_there : found < from + left → in_repo (str_take found hash) ≡ true

search_prefix-IsShortest :
    (in_repo : String → Bool) (hash : String) (left from : ℕ)
    → IsShortest in_repo hash left from (search_prefix in_repo hash left from)
unfolding search_prefix
search_prefix-IsShortest in_repo hash zero from = record {
  lower = omega arith;
  upper = omega arith;
  none_shorter = λ n p q. absurd (omega arith);
  in_there = λ p. absurd (omega arith);
}
search_prefix-IsShortest in_repo hash (suc left) from =
    let rest = search_prefix-IsShortest in_repo hash left (suc from) in
    elim (Bool-cases (in_repo (str_take from hash))) [
      | inl hit ↦ rw hit (record {
        lower = omega arith;
        upper = omega arith;
        none_shorter = λ n p q. absurd (omega arith);
        in_there = λ p. hit;
      })
      | inr miss ↦ rw miss (record {
        lower = omega (arith, rest.lower);
        upper = omega (arith, rest.upper);
        none_shorter = λ n p q. elim (Bool-cases (n == from)) [
          | inl here ↦
              subst (λ (m : ℕ). in_repo (str_take m hash) ≡ false) (sym ((==_iff n from).0 here))
                miss
          | inr later ↦ rest.none_shorter n (grind (arith, ==_iff n from, later, p)) q
        ];
        in_there = λ p. rest.in_there (omega (arith, p));
      })
    ]

-- git_search ends with a prefix of at least twelve characters, and of no more than the hash has,
-- unless that has fewer than twelve. No shorter prefix of at least twelve characters is in the
-- repository; and the prefix found is, unless it is the whole hash.
pub git_search-IsShortest :
    (in_repo : String → Bool) (hash : String)
    → (12 ≤ git_search in_repo hash)
      × (git_search in_repo hash ≤ 12 + (str_len hash - 12))
      × ((n : ℕ) → 12 ≤ n → n < git_search in_repo hash → in_repo (str_take n hash) ≡ false)
      × (git_search in_repo hash < str_len hash
          → in_repo (str_take (git_search in_repo hash) hash) ≡ true)
unfolding git_search
git_search-IsShortest in_repo hash =
    let r = search_prefix-IsShortest in_repo hash (str_len hash - 12) 12 in
    (r.lower, r.upper, r.none_shorter, λ p. r.in_there (omega (arith, p, r.lower)))
