-- ===== src/Server/CircuitBreaker/Invariant.antt =====
-- What holds of a circuit breaker between two calls of its methods
-- (internal/server/circuit_breaker.go).
use gh_aw_mcpg.Common.{ℕ, ◌<◌, ◌^◌, ◌≡◌, ◌≢◌, ◌⊎◌, Bool, true, false, List, [], ◌∷◌, arith}
use gh_aw_mcpg.Common.Int.{ℤ}
use gh_aw_mcpg.Common.Text.{Str}
use gh_aw_mcpg.Server.CircuitBreaker.{
  CircuitBreakerState, CircuitBreaker, circuit_closed, circuit_half_open, new_circuit_breaker,
  allow, record_success, record_rate_limit,
}

abbrev pub is_half_open : CircuitBreakerState → Bool
is_half_open circuit_half_open = true
is_half_open _ = false

-- A half-open circuit has its probe in flight and no other does; a closed one has had fewer
-- rate limits than its threshold, which is positive and fits a 64-bit `int`.
pub record IsBreaker (cb : CircuitBreaker) : Type 0 where
  pub probing : cb.probe_in_flight ≡ is_half_open cb.state
  pub below : (cb.state ≢ circuit_closed) ⊎ (cb.consecutive_errors < cb.threshold)
  pub positive : 0 < cb.threshold
  pub fits : cb.threshold < 2 ^ 63

new_circuit_breaker-IsBreaker :
    (server_id : Str) (n : ℕ) (cooldown : ℤ)
    → n < 2 ^ 63
    → IsBreaker (new_circuit_breaker server_id (ℤ.pos n) cooldown)
unfolding new_circuit_breaker
new_circuit_breaker-IsBreaker server_id n cooldown h = ground arith

pub allow-IsBreaker : (cb : CircuitBreaker) (now : ℕ) → IsBreaker cb → IsBreaker (allow cb now).0
unfolding allow
allow-IsBreaker cb now v = ground arith

pub record_success-IsBreaker : (cb : CircuitBreaker) → IsBreaker cb → IsBreaker (record_success cb)
unfolding record_success
record_success-IsBreaker cb v = ground arith

pub record_rate_limit-IsBreaker :
    (cb : CircuitBreaker) (reset_at now : ℕ)
    → IsBreaker cb
    → IsBreaker (record_rate_limit cb reset_at now)
unfolding record_rate_limit
record_rate_limit-IsBreaker cb reset_at now v = ground arith

-- a call of a method, with the instant that it sees
pub data BreakerEvent : Type 0 where
  allowing : ℕ → BreakerEvent
  success : BreakerEvent
  rate_limit : ℕ → ℕ → BreakerEvent

unfoldable pub breaker_step : CircuitBreaker → BreakerEvent → CircuitBreaker
breaker_step cb (allowing now) = (allow cb now).0
breaker_step cb success = record_success cb
breaker_step cb (rate_limit reset_at now) = record_rate_limit cb reset_at now

pub breaker_run : CircuitBreaker → List BreakerEvent → CircuitBreaker
breaker_run cb [] = cb
breaker_run cb (ev ∷ rest) = breaker_run (breaker_step cb ev) rest

breaker_step-IsBreaker :
    (cb : CircuitBreaker) (ev : BreakerEvent) → IsBreaker cb → IsBreaker (breaker_step cb ev)
unfolding breaker_step
breaker_step-IsBreaker cb (allowing now) v = allow-IsBreaker cb now v
breaker_step-IsBreaker cb success v = record_success-IsBreaker cb v
breaker_step-IsBreaker cb (rate_limit reset_at now) v =
    record_rate_limit-IsBreaker cb reset_at now v

run-IsBreaker :
    (cb : CircuitBreaker) (evs : List BreakerEvent) → IsBreaker cb → IsBreaker (breaker_run cb evs)
unfolding breaker_run
run-IsBreaker cb [] v = v
run-IsBreaker cb (ev ∷ evs) v =
    run-IsBreaker (breaker_step cb ev) evs (breaker_step-IsBreaker cb ev v)

-- After any calls of its methods, by any number of requests in any order, a circuit breaker with a
-- threshold below 2^63 is well-formed: its probe is in flight exactly if it is half-open, and closed
-- it has counted fewer rate limits than its threshold, even if the counter has wrapped.
pub breaker_run-IsBreaker :
    (server_id : Str) (n : ℕ) (cooldown : ℤ) (evs : List BreakerEvent)
    → n < 2 ^ 63
    → IsBreaker (breaker_run (new_circuit_breaker server_id (ℤ.pos n) cooldown) evs)
breaker_run-IsBreaker server_id n cooldown evs h =
    run-IsBreaker (new_circuit_breaker server_id (ℤ.pos n) cooldown) evs
      (new_circuit_breaker-IsBreaker server_id n cooldown h)
