-- ===== src/RateLimit/Answers.antt =====
-- The answers that a host gets depend on its own requests only.
use mprweb.Prelude.{
  ℕ, ◌≤◌, ◌≡◌, ◌≢◌, refl, sym, ap, ◌∙◌, String, Bool, Option, none, some, List, [], ◌∷◌, filter,
  find?, ltb, str_eq, eq_iff, arith, Bool-cases, inl, inr, if◌then◌else◌,
}
use text.Mathlib.TextPositions.{eq_refl}
use mprweb.RateLimit.{
  ApiRateLimit, Limits, is_host, counted, store_count, update_ratelimit_db, check_ratelimit,
}
use mprweb.RateLimit.Isolation.{
  HasUniqueHosts, unexpired, living, find?-living, living-HasUniqueHosts, find?-append_absent,
  find?-append_other, find?-bump_own, find?-bump_other, bump-HasUniqueHosts, append-HasUniqueHosts,
}

module _ (now : ℕ) (g : String) (left : List ApiRateLimit) where
  stored-own :
      (found : Option ApiRateLimit)
      → find? (is_host g) left ≡ found
      → find? (is_host g) (store_count now g found left) ≡ some (counted now g found)
  stored-own none e =
      find?-append_absent (is_host g) left (counted now g none) e ∙ rw (eq_refl g) refl
  stored-own (some r) e = find?-bump_own g left e

  stored-other :
      (h : String) (found : Option ApiRateLimit)
      → g ≢ h
      → find? (is_host h) (store_count now g found left) ≡ find? (is_host h) left
  stored-other h none ne =
      find?-append_other (is_host h) left (counted now g none) (ground (arith, eq_iff g h))
  stored-other h (some r) ne = find?-bump_other g h left ne

  stored-HasUniqueHosts :
      (found : Option ApiRateLimit)
      → find? (is_host g) left ≡ found
      → HasUniqueHosts left
      → HasUniqueHosts (store_count now g found left)
  stored-HasUniqueHosts none e u = append-HasUniqueHosts left (counted now g none) u e
  stored-HasUniqueHosts (some r) e u = bump-HasUniqueHosts g left u

-- A table, and another one that shows the same of a host at a time: up to a row that has expired.
abbrev Agree : ℕ → ℕ → String → List ApiRateLimit → List ApiRateLimit → Type 0
Agree len now h rows rows' =
    unexpired len now (find? (is_host h) rows) ≡ unexpired len now (find? (is_host h) rows')

unexpired-later :
    (len now later : ℕ) (o : Option ApiRateLimit)
    → now ≤ later
    → unexpired len later (unexpired len now o) ≡ unexpired len later o
unexpired-later len now later none le = refl
unexpired-later len now later (some r) le = ground arith

Agree-later :
    (len now later : ℕ) (h : String) (rows rows' : List ApiRateLimit)
    → now ≤ later
    → Agree len now h rows rows'
    → Agree len later h rows rows'
Agree-later len now later h rows rows' le agree =
    sym (unexpired-later len now later (find? (is_host h) rows) le)
    ∙ ap (unexpired len later) agree
    ∙ unexpired-later len now later (find? (is_host h) rows') le

-- The answers that host h gets in a sequence of requests, each with its time and its host.
abbrev pub answers : Limits → String → List (ℕ × String) → List ApiRateLimit → List Bool
answers limits h [] rows = []
answers limits h ((now, g) ∷ rest) rows =
    let (exceeded, left) = check_ratelimit limits now g rows in
    let others = answers limits h rest left in if str_eq g h then exceeded ∷ others else others

abbrev pub requests_of : String → List (ℕ × String) → List (ℕ × String)
requests_of h = filter (λ r. str_eq r.1 h)

-- The times never go back, from a first one on.
abbrev pub IsOrdered : ℕ → List (ℕ × String) → Type 0
IsOrdered from [] = Unit {0}
IsOrdered from ((now, g) ∷ rest) = (from ≤ now) × IsOrdered now rest

module _ (len now : ℕ) (h : String) (rows : List ApiRateLimit) (unique : HasUniqueHosts rows) where
  pub next-own :
      find? (is_host h) (update_ratelimit_db len now h rows).1
      ≡ some (counted now h (unexpired len now (find? (is_host h) rows)))
  unfolding update_ratelimit_db
  next-own =
      stored-own now h (living len now rows) (find? (is_host h) (living len now rows)) refl
      ∙ ap (λ o. some (counted now h o)) (find?-living len now h rows unique)

  pub answer-own :
      (update_ratelimit_db len now h rows).0
      ≡ counted now h (unexpired len now (find? (is_host h) rows))
  unfolding update_ratelimit_db
  answer-own = ap (counted now h) (find?-living len now h rows unique)

  next-other :
      (g : String)
      → g ≢ h
      → find? (is_host h) (update_ratelimit_db len now g rows).1
        ≡ unexpired len now (find? (is_host h) rows)
  unfolding update_ratelimit_db
  next-other g ne =
      stored-other now g (living len now rows) h (find? (is_host g) (living len now rows)) ne
      ∙ find?-living len now h rows unique

  pub next-HasUniqueHosts : (g : String) → HasUniqueHosts (update_ratelimit_db len now g rows).1
  unfolding update_ratelimit_db
  next-HasUniqueHosts g =
      stored-HasUniqueHosts now g (living len now rows) (find? (is_host g) (living len now rows))
        refl (living-HasUniqueHosts len now rows unique)

pub answers-own :
    (limits : Limits) (h : String) (now : ℕ) (rest : List (ℕ × String)) (rows : List ApiRateLimit)
    → answers limits h ((now, h) ∷ rest) rows
      ≡ ltb limits.request_limit (update_ratelimit_db limits.window_length now h rows).0.requests
        ∷ answers limits h rest (update_ratelimit_db limits.window_length now h rows).1
unfolding check_ratelimit
answers-own limits h now rest rows = rw (eq_refl h) refl

requests_of-own :
    (h : String) (now : ℕ) (rest : List (ℕ × String))
    → requests_of h ((now, h) ∷ rest) ≡ (now, h) ∷ requests_of h rest
requests_of-own h now rest = rw (eq_refl h) refl

answers-requests_of :
    (limits : Limits) (h : String) (trace : List (ℕ × String)) (from : ℕ)
    (rows rows' : List ApiRateLimit)
    → HasUniqueHosts rows
    → HasUniqueHosts rows'
    → IsOrdered from trace
    → Agree limits.window_length from h rows rows'
    → answers limits h trace rows ≡ answers limits h (requests_of h trace) rows'
unfolding check_ratelimit
answers-requests_of limits h [] from rows rows' u u' o a = refl
answers-requests_of limits h ((now, g) ∷ rest) from rows rows' u u' (le, o) a =
    let len = limits.window_length in
    let agree = Agree-later len from now h rows rows' le a in
    let same_answer : (update_ratelimit_db len now h rows).0
        ≡ (update_ratelimit_db len now h rows').0 =
      answer-own len now h rows u
      ∙ ap (counted now h) agree
      ∙ sym (answer-own len now h rows' u') in
    let same_row =
      next-own len now h rows u
      ∙ ap (λ x. some (counted now h x)) agree
      ∙ sym (next-own len now h rows' u') in
    let same_rest =
      answers-requests_of limits h rest now (update_ratelimit_db len now h rows).1
        (update_ratelimit_db len now h rows').1 (next-HasUniqueHosts len now h rows u h)
        (next-HasUniqueHosts len now h rows' u' h) o (ap (unexpired len now) same_row) in
    elim (Bool-cases (str_eq g h)) [
      | inl own ↦ rw ((eq_iff g h).0 own) (
          answers-own limits h now rest rows
          ∙ (λ i. ltb limits.request_limit (same_answer i).requests ∷ same_rest i)
          ∙ sym (answers-own limits h now (requests_of h rest) rows')
          ∙ ap (λ t. answers limits h t rows') (sym (requests_of-own h now rest)))
      | inr other ↦ rw other (
          answers-requests_of limits h rest now (update_ratelimit_db len now g rows).1 rows'
            (next-HasUniqueHosts len now h rows u g) u' o
            (ap (unexpired len now) (next-other len now h rows u g (ground (arith, eq_iff g h)))
              ∙ unexpired-later len now now (find? (is_host h) rows) (omega arith)
              ∙ agree))
    ]

-- When time never goes back, every host gets the answers that it would get if it were the only one:
-- the requests of other hosts, and the rows that they delete or create, change nothing for it.
pub answers-isolated :
    (limits : Limits) (h : String) (trace : List (ℕ × String)) (from : ℕ)
    → IsOrdered from trace
    → answers limits h trace [] ≡ answers limits h (requests_of h trace) []
answers-isolated limits h trace from o = answers-requests_of limits h trace from [] [] tt tt o refl
