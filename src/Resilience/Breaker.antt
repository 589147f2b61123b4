-- ===== src/Resilience/Breaker.antt =====
-- `CircuitBreaker` of yamp/resilience.py. The injected clock is an argument: the monotonic time, in
-- ticks, at which the method runs. `state` writes the half-open state that it finds, so it returns
-- the breaker beside its answer.
pub mod Trips
pub mod HalfOpen
mod Tests
use python_yamp.Prelude.{
  ℕ, suc, ◌+◌, Bool, true, false, not, ◌&&◌, List, [], ◌∷◌, leb, if◌then◌else◌,
}

pub data CircuitState : Type 0 where
  closed open_ half_open : CircuitState

abbrev pub is_open : CircuitState → Bool
is_open open_ = true
is_open _ = false

abbrev pub is_half_open : CircuitState → Bool
is_half_open half_open = true
is_half_open _ = false

pub record CircuitBreaker : Type 0 where
  pub threshold : ℕ
  pub reset : ℕ
  pub stored : CircuitState
  pub failures : ℕ
  pub opened_at : ℕ

unfoldable pub new_breaker : ℕ → ℕ → CircuitBreaker
new_breaker failure_threshold reset_timeout = record {
  threshold = failure_threshold;
  reset = reset_timeout;
  stored = closed;
  failures = 0;
  opened_at = 0;
}

-- the property `state`: now - opened_at >= reset, over the integers
unfoldable pub poll : ℕ → CircuitBreaker → CircuitBreaker
poll now b =
    if is_open b.stored && leb (b.opened_at + b.reset) now
    then record b { stored = half_open }
    else b

unfoldable pub allow : ℕ → CircuitBreaker → CircuitBreaker × Bool
unfolding poll
allow now b = let b' = poll now b in (b', not (is_open b'.stored))

unfoldable pub record_success : CircuitBreaker → CircuitBreaker
record_success b = record b { failures = 0; stored = closed }

unfoldable pub trip : ℕ → CircuitBreaker → CircuitBreaker
trip now b = record b { stored = open_; opened_at = now; failures = b.threshold }

abbrev pub count_failure : ℕ → CircuitBreaker → CircuitBreaker
count_failure now b =
    let b' = record b { failures = suc b.failures } in
    if leb b.threshold (suc b.failures) then trip now b' else b'

unfoldable pub record_failure : ℕ → CircuitBreaker → CircuitBreaker
unfolding poll trip
record_failure now b =
    let b' = poll now b in if is_half_open b'.stored then trip now b' else count_failure now b'
