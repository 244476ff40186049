-- ===== src/Util/Names.antt =====
-- A newline at the end of a user name.
use Prim.Native.Char.{code}
use Prim.Native.String.append
use Prim.Native.String.{◌++◌ as str_append}
use mprweb.Prelude.{
  ℕ, ◌<◌, ◌≡◌, String, Bool, true, false, ◌||◌, ◌==◌, str_len, str_len-append, Option-cases, inl,
  inr, arith,
}
use mprweb.Util.{NameState, start, next_state, matches_name, valid_username}

abbrev pub has_newline : String → Bool
has_newline String.[] = false
has_newline (String.◌∷◌ c s) = code c == 10 || has_newline s

matches_name-newline :
    (st : NameState) (s : String)
    → has_newline s ≡ false
    → matches_name st s ≡ true
    → matches_name st (str_append s "\n") ≡ true
unfolding matches_name
matches_name-newline st String.[] plain h = h
matches_name-newline st (String.◌∷◌ c s) plain h =
    let other : (code c == 10) ≡ false = ground arith in
    let rest : has_newline s ≡ false = ground arith in
    rw (append.cons c s "\n") (
      rw (matches_name, other)
        (elim (Option-cases (next_state st (code c))) [
          | inl stuck ↦ absurd (cc (rw (matches_name, other, stuck) at h))
          | inr (after, e) ↦
              rw e (matches_name-newline after s rest (rw (matches_name, other, e) at h))
        ]))

-- A user name without a newline that is valid, and shorter than the longest name, stays valid with a
-- newline at its end.
pub valid_username-newline :
    (min_len max_len : ℕ) (name : String)
    → has_newline name ≡ false
    → valid_username min_len max_len name ≡ true
    → str_len name < max_len
    → valid_username min_len max_len (str_append name "\n") ≡ true
unfolding valid_username
valid_username-newline min_len max_len name plain valid short =
    let matched : matches_name start name ≡ true = ground arith in
    ground (arith, str_len-append name "\n", matches_name-newline start name plain matched)
