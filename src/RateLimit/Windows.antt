-- ===== src/RateLimit/Windows.antt =====
-- How many requests a host may make in one window.
use text.Mathlib.TextPositions.{eq_refl}
use mprweb.Prelude.{
  ℕ, zero, suc, ◌+◌, ◌≤◌, ◌≡◌, refl, ap, ◌∙◌, String, Bool, some, List, [], ◌∷◌, map, find?, length,
  All, ltb, arith,
}
use mprweb.RateLimit.{ApiRateLimit, Limits, is_host, counted, update_ratelimit_db}
use mprweb.RateLimit.Isolation.{HasUniqueHosts, unexpired}
use mprweb.RateLimit.Answers.{answers, answers-own, next-own, answer-own, next-HasUniqueHosts}

-- The answers to n requests in one window, of which the first one is number k.
abbrev pub exceeded_from : ℕ → ℕ → ℕ → List Bool
exceeded_from limit k zero = []
exceeded_from limit k (suc n) = ltb limit k ∷ exceeded_from limit (suc k) n

abbrev pub by_host : String → List ℕ → List (ℕ × String)
by_host h = map (λ now. (now, h))

abbrev row_of : String → ℕ → ℕ → ApiRateLimit
row_of h k t = record { ip = h; requests = k; window_start = t }

row_lives :
    (len now : ℕ) (h : String) (k t : ℕ)
    → now ≤ t + len
    → unexpired len now (some (row_of h k t)) ≡ some (row_of h k t)
row_lives len now h k t le = ground arith

answers-row :
    (limits : Limits) (h : String) (t k : ℕ) (times : List ℕ) (rows : List ApiRateLimit)
    → HasUniqueHosts rows
    → find? (is_host h) rows ≡ some (row_of h k t)
    → All (λ (now : ℕ). now ≤ t + limits.window_length) times
    → answers limits h (by_host h times) rows
      ≡ exceeded_from limits.request_limit (suc k) (length times)
answers-row limits h t k [] rows u f within = refl
answers-row limits h t k (now ∷ rest) rows u f within =
    let len = limits.window_length in
    let alive : unexpired len now (find? (is_host h) rows) ≡ some (row_of h k t) =
      ap (unexpired len now) f ∙ row_lives len now h k t within.0 in
    let number : (update_ratelimit_db len now h rows).0.requests ≡ suc k =
      ap (λ r. r.requests) (answer-own len now h rows u ∙ ap (counted now h) alive) ∙ omega arith in
    let row : find? (is_host h) (update_ratelimit_db len now h rows).1 ≡ some (row_of h (suc k) t) =
      next-own len now h rows u
      ∙ ap (λ o. some (counted now h o)) alive
      ∙ ap (λ n. some (row_of h n t)) (omega arith) in
    let after =
      answers-row limits h t (suc k) rest (update_ratelimit_db len now h rows).1
        (next-HasUniqueHosts len now h rows u h) row within.1 in
    answers-own limits h now (by_host h rest) rows
    ∙ (λ i. ltb limits.request_limit (number i) ∷ after i)

-- A host that makes its first request at time t has one window from then on: while it lasts, the first
-- requests, as many as the limit, are let through, and all further ones exceed it.
pub answers-window :
    (limits : Limits) (h : String) (t : ℕ) (times : List ℕ)
    → All (λ (now : ℕ). now ≤ t + limits.window_length) times
    → answers limits h (by_host h (t ∷ times)) []
      ≡ exceeded_from limits.request_limit 1 (suc (length times))
unfolding update_ratelimit_db
answers-window limits h t times within =
    answers-own limits h t (by_host h times) []
    ∙ ap (λ l. ltb limits.request_limit 1 ∷ l)
        (answers-row limits h t 1 times (row_of h 1 t ∷ []) (refl, tt) (rw (eq_refl h) refl) within)
