-- ===== src/Resilience/Breaker/Tests.antt =====
-- The breaker theorems on short runs.
use python_yamp.Prelude.{
  ℕ, ◌+◌, ◌≡◌, refl, true, ◌||◌, [], ◌∷◌, arith, ltb, leb, length, All, nat_eq, string_eq,
  option_eq, pair_eq, int_eq,
}
use python_yamp.Resilience.Breaker.{open_, CircuitBreaker, allow, record_success}
use python_yamp.Resilience.Breaker.Trips.{fail_at, last_of, allow-fail_at}
use python_yamp.Resilience.Breaker.HalfOpen.{asks, asks_after_reset}

abbrev tripped : CircuitBreaker
tripped = record { threshold = 3; reset = 30; stored = open_; failures = 3; opened_at = 10 }

allow-fail_at_example :
    (allow 12 (fail_at (5 ∷ 6 ∷ 7 ∷ []) (record_success tripped))).1
    ≡ (ltb (length {A = ℕ} (5 ∷ 6 ∷ 7 ∷ [])) 3 || leb (last_of 5 (6 ∷ 7 ∷ []) + 30) 12)
allow-fail_at_example = allow-fail_at 12 5 (6 ∷ 7 ∷ []) tripped

asks_after_reset_example : All (λ a. a ≡ true) (asks (40 ∷ 40 ∷ 41 ∷ []) tripped)
asks_after_reset_example = asks_after_reset 40 (40 ∷ 41 ∷ []) tripped refl (omega arith)
