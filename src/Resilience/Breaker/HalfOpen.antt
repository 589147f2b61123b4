-- ===== src/Resilience/Breaker/HalfOpen.antt =====
-- The half-open state: what ends it, and what it lets through.
use python_yamp.Prelude.{ℕ, ◌+◌, ◌≤◌, ◌<◌, ◌≡◌, Bool, true, false, List, [], ◌∷◌, leb, arith, All}
use python_yamp.Resilience.Breaker.{
  open_, half_open, CircuitBreaker, poll, allow, record_success, record_failure,
}

-- the answers of `allow` at some times, with no outcome recorded between them
unfoldable pub asks : List ℕ → CircuitBreaker → List Bool
asks [] b = []
asks (t ∷ ts) b = let (b', answer) = allow t b in answer ∷ asks ts b'

asks_half_open :
    (ts : List ℕ) (b : CircuitBreaker) → b.stored ≡ half_open → All (λ a. a ≡ true) (asks ts b)
unfolding asks allow
asks_half_open [] b h = tt
asks_half_open (t ∷ ts) b h = (ground arith, asks_half_open ts (poll t b) (ground arith))

-- An open breaker whose reset time is over lets through every request that asks before an outcome
-- is recorded, however many they are.
pub asks_after_reset :
    (t : ℕ) (ts : List ℕ) (b : CircuitBreaker)
    → b.stored ≡ open_
    → b.opened_at + b.reset ≤ t
    → All (λ a. a ≡ true) (asks (t ∷ ts) b)
unfolding asks allow
asks_after_reset t ts b h k = (ground arith, asks_half_open ts (poll t b) (ground arith))

-- While the reset time of an open breaker runs, every request is refused and the breaker is as it was;
-- once it is over, one failure opens the breaker for a whole reset time from then, whatever was
-- counted, and one success closes it with no failure counted.
pub half_open_outcomes :
    (t u : ℕ) (b : CircuitBreaker)
    → b.stored ≡ open_
    → (t < b.opened_at + b.reset → allow t b ≡ (b, false))
      × (b.opened_at + b.reset ≤ t
          → ((allow u (record_failure t b)).1 ≡ leb (t + b.reset) u)
            × ((allow u (record_success (allow t b).0)).1 ≡ true)
            × ((record_success (allow t b).0).failures ≡ 0))
unfolding allow record_failure record_success
half_open_outcomes t u b h = (λ k. ground arith, λ k. (ground arith, ground arith, ground arith))
