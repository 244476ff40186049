-- ===== src/RateLimit/Tests.antt =====
-- Two hosts that take turns.
use mprweb.Prelude.{ℕ, ◌≡◌, refl, String, true, false, List, [], ◌∷◌, arith}
use mprweb.RateLimit.{Limits, update_ratelimit_db, check_ratelimit}
use mprweb.RateLimit.Answers.{answers, requests_of, answers-isolated}

abbrev limits : Limits
limits = record { window_length = 60; request_limit = 2 }

abbrev trace : List (ℕ × String)
trace = (100, "a") ∷ (110, "b") ∷ (120, "a") ∷ (130, "a") ∷ (200, "b") ∷ (210, "a") ∷ []

answers-isolated_example :
    answers limits "a" trace [] ≡ answers limits "a" (requests_of "a" trace) []
answers-isolated_example =
    answers-isolated limits "a" trace 100
      (omega arith, (omega arith, (omega arith, (omega arith, (omega arith, (omega arith, tt))))))

third_request_exceeds : answers limits "a" trace [] ≡ false ∷ false ∷ true ∷ false ∷ []
unfolding update_ratelimit_db check_ratelimit
third_request_exceeds = refl
