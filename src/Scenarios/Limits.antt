-- ===== src/Scenarios/Limits.antt =====
-- Runs of the rate limiter (internal/middleware/rate_limit.go).
use prappser_spaces.Base.{◌≡◌, refl, none, List, [], ◌∷◌, arith, length, max, min}
use prappser_spaces.Base.Int.{pos}
use prappser_spaces.RateLimit.{Limiter}
use prappser_spaces.RateLimit.Keys.{
  Request, run, answers_of, times_of, run_alone, keys_are_independent,
}
use prappser_spaces.RateLimit.Windows.{count_true, window_exact}

abbrev two_in_a_minute : Limiter
two_in_a_minute = record { limit = pos 2; window = pos 60 }

abbrev requests : List Request
requests =
    record { time = pos 5; key = "a" }
    ∷ record { time = pos 6; key = "b" }
    ∷ record { time = pos 10; key = "a" }
    ∷ record { time = pos 64; key = "a" }
    ∷ []

keys_are_independent_example :
    answers_of "a" (run two_in_a_minute requests (λ _. none))
    ≡ run_alone two_in_a_minute (times_of "a" requests) none
keys_are_independent_example =
    keys_are_independent two_in_a_minute "a" requests (pos 0)
      (omega arith, (omega arith, (omega arith, (omega arith, tt))))

window_exact_example :
    count_true (answers_of "a" (run two_in_a_minute requests (λ _. none)))
    ≡ min (length (pos 5 ∷ pos 10 ∷ pos 64 ∷ [])) (max 1 2)
unfolding times_of
window_exact_example =
    window_exact two_in_a_minute 2 "a" requests (pos 0) (pos 5) (pos 10 ∷ pos 64 ∷ [])
      (omega arith, (omega arith, (omega arith, (omega arith, tt)))) refl refl (refl, (refl, tt))
