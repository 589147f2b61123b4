-- ===== src/Resilience/Breaker/Trips.antt =====
-- When a run of failures opens the breaker, and until when.
use python_yamp.Prelude.{
  ℕ, suc, ◌+◌, ◌≤◌, ◌<◌, ◌≡◌, refl, true, List, [], ◌∷◌, leb, ltb, ◌||◌, ◌∙◌, inl, inr, Bool-cases,
  arith, length,
}
use python_yamp.Resilience.Breaker.{
  closed, open_, half_open, CircuitBreaker, new_breaker, poll, allow, record_success,
  record_failure, trip,
}

-- the clock's values at a run of failures, oldest first
abbrev pub fail_at : List ℕ → CircuitBreaker → CircuitBreaker
fail_at [] b = b
fail_at (t ∷ ts) b = fail_at ts (record_failure t b)

abbrev pub last_of : ℕ → List ℕ → ℕ
last_of t [] = t
last_of t (u ∷ ts) = last_of u ts

-- What every method keeps.
pub record IsSound (b : CircuitBreaker) : Type 0 where
  pub closed_below : b.stored ≡ closed → b.failures < b.threshold
  pub open_at : b.stored ≡ open_ → b.failures ≡ b.threshold
  pub half_at : b.stored ≡ half_open → b.failures ≡ b.threshold

pub new_breaker-IsSound : (n r : ℕ) → 0 < n → IsSound (new_breaker n r)
unfolding new_breaker
new_breaker-IsSound n r h = ground arith

pub poll-IsSound : (now : ℕ) (b : CircuitBreaker) → IsSound b → IsSound (poll now b)
unfolding poll
poll-IsSound now b h = ground arith

pub record_failure-IsSound :
    (now : ℕ) (b : CircuitBreaker) → IsSound b → IsSound (record_failure now b)
unfolding record_failure
record_failure-IsSound now b h = ground arith

-- a failure of a breaker that was tripped trips it anew, half-open by then or not
record_failure-trip : (t u : ℕ) (b : CircuitBreaker) → record_failure u (trip t b) ≡ trip u b
unfolding record_failure
record_failure-trip t u b = ground arith

fail_at-trip :
    (t : ℕ) (ts : List ℕ) (b : CircuitBreaker) → fail_at ts (trip t b) ≡ trip (last_of t ts) b
fail_at-trip t [] b = refl
fail_at-trip t (u ∷ ts) b = rw (record_failure-trip t u b) (fail_at-trip u ts b)

allow-trip : (now t : ℕ) (b : CircuitBreaker) → (allow now (trip t b)).1 ≡ leb (t + b.reset) now
unfolding allow trip
allow-trip now t b = ground arith

-- the failure that reaches the threshold
fail_reached :
    (t : ℕ) (b : CircuitBreaker)
    → b.stored ≡ closed
    → b.threshold ≤ suc b.failures
    → record_failure t b ≡ trip t b
unfolding record_failure
fail_reached t b h k = ground arith

-- a failure below it
fail_below :
    (t : ℕ) (b : CircuitBreaker)
    → b.stored ≡ closed
    → suc b.failures < b.threshold
    → record_failure t b ≡ record b { failures = suc b.failures }
unfolding record_failure
fail_below t b h k = ground arith

allow-closed : (now : ℕ) (b : CircuitBreaker) → b.stored ≡ closed → (allow now b).1 ≡ true
unfolding allow
allow-closed now b h = ground arith

fail_at_reached :
    (now t : ℕ) (ts : List ℕ) (b : CircuitBreaker)
    → b.stored ≡ closed
    → b.threshold ≤ suc b.failures
    → (allow now (fail_at (t ∷ ts) b)).1
      ≡ (ltb (b.failures + length (t ∷ ts)) b.threshold || leb (last_of t ts + b.reset) now)
fail_at_reached now t ts b h k =
    rw (fail_reached t b h k, fail_at-trip t ts b, allow-trip now (last_of t ts) b) (ground arith)

fail_at_closed :
    (now t : ℕ) (ts : List ℕ) (b : CircuitBreaker)
    → b.stored ≡ closed
    → (allow now (fail_at (t ∷ ts) b)).1
      ≡ (ltb (b.failures + length (t ∷ ts)) b.threshold || leb (last_of t ts + b.reset) now)
fail_at_closed now t [] b h = elim (Bool-cases (leb b.threshold (suc b.failures))) [
  | inl reached ↦ fail_at_reached now t [] b h (ground arith)
  | inr below ↦
      rw
        (
          fail_below t b h (ground arith),
          allow-closed now (record b { failures = suc b.failures }) h,
        )
        (ground arith)
]
fail_at_closed now t (u ∷ us) b h = elim (Bool-cases (leb b.threshold (suc b.failures))) [
  | inl reached ↦ fail_at_reached now t (u ∷ us) b h (ground arith)
  | inr below ↦
      rw (fail_below t b h (ground arith))
        (fail_at_closed now u us (record b { failures = suc b.failures }) h ∙ ground arith)
]

-- From a closed breaker with no failure counted, as after every success: after a run of failures
-- with no success between them, traffic is allowed exactly while the run is shorter than the
-- threshold, or once the reset time has gone by since the last failure of the run.
pub allow-fail_at :
    (now t : ℕ) (ts : List ℕ) (b : CircuitBreaker)
    → (allow now (fail_at (t ∷ ts) (record_success b))).1
      ≡ (ltb (length (t ∷ ts)) b.threshold || leb (last_of t ts + b.reset) now)
unfolding record_success
allow-fail_at now t ts b =
    fail_at_closed now t ts (record b { failures = 0; stored = closed }) refl ∙ ground arith
