-- ===== src/Server/CircuitBreaker.antt =====
-- internal/server/circuit_breaker.go: the rate-limit circuit breaker of a backend. Each method holds
-- the lock, so it is one step; `now` is what `nowFunc` returns. An instant is the nanoseconds since
-- the zero `time.Time`, which is 0.
use gh_aw_mcpg.Common.{
  ℕ, ◌+◌, ◌*◌, ◌-◌, ◌%◌, ◌^◌, Bool, true, false, not, ◌&&◌, Option, none, some, List, [], ◌∷◌, ltb,
  eqb, if◌then◌else◌,
}
use gh_aw_mcpg.Common.Int.{ℤ, positive_or, inc64, leb64}
use gh_aw_mcpg.Common.Text.{Str, str_eq}
use gh_aw_mcpg.Common.Dict.{insert}
use gh_aw_mcpg.Server.RateLimit.{signed64}
pub mod Invariant
pub mod Calls

pub data CircuitBreakerState : Type 0 where
  circuit_closed circuit_open circuit_half_open : CircuitBreakerState

abbrev pub default_rate_limit_threshold : ℕ
default_rate_limit_threshold = 3

-- 60 seconds
abbrev pub default_rate_limit_cooldown : ℕ
default_rate_limit_cooldown = 60 * 1_000_000_000

-- `consecutive_errors` is the bit pattern of the 64-bit counter.
pub record CircuitBreaker : Type 0 where
  pub state : CircuitBreakerState
  pub consecutive_errors : ℕ
  pub opened_at : ℕ
  pub reset_at : ℕ
  pub probe_in_flight : Bool
  pub server_id : Str
  pub threshold : ℕ
  pub cooldown : ℕ

pub new_circuit_breaker : Str → ℤ → ℤ → CircuitBreaker
new_circuit_breaker server_id threshold cooldown = record {
  state = circuit_closed;
  consecutive_errors = 0;
  opened_at = 0;
  reset_at = 0;
  probe_in_flight = false;
  server_id = server_id;
  threshold = positive_or default_rate_limit_threshold threshold;
  cooldown = positive_or default_rate_limit_cooldown cooldown;
}

pub record ErrCircuitOpen : Type 0 where
  pub server_id : Str
  pub reset_at : ℕ

abbrev open_error : CircuitBreaker → ErrCircuitOpen
open_error cb = record { server_id = cb.server_id; reset_at = cb.reset_at }

-- when the cooldown of an open circuit ends
abbrev pub open_until : CircuitBreaker → ℕ
open_until cb =
    if not (eqb cb.reset_at 0) && ltb cb.opened_at cb.reset_at
    then cb.reset_at
    else cb.opened_at + cb.cooldown

allow_in : CircuitBreakerState → CircuitBreaker → ℕ → CircuitBreaker × Option ErrCircuitOpen
allow_in circuit_closed cb now = (cb, none)
allow_in circuit_open cb now =
    if ltb (open_until cb) now
    then (record cb { state = circuit_half_open; probe_in_flight = true }, none)
    else (cb, some (open_error cb))
allow_in circuit_half_open cb now =
    if cb.probe_in_flight then (cb, some (open_error cb)) else (cb, none)

-- `none` lets the request through.
unfoldable pub allow : CircuitBreaker → ℕ → CircuitBreaker × Option ErrCircuitOpen
unfolding allow_in
allow cb now = allow_in cb.state cb now

success_in : CircuitBreakerState → CircuitBreaker → CircuitBreaker
success_in circuit_half_open cb = record cb { state = circuit_closed; reset_at = 0 }
success_in circuit_open cb = record cb { state = circuit_closed }
success_in circuit_closed cb = cb

pub record_success : CircuitBreaker → CircuitBreaker
unfolding success_in
record_success cb =
    success_in cb.state (record cb { consecutive_errors = 0; probe_in_flight = false })

rate_limit_in : CircuitBreakerState → CircuitBreaker → ℕ → CircuitBreaker
rate_limit_in circuit_closed cb now =
    if leb64 cb.threshold cb.consecutive_errors
    then record cb { state = circuit_open; opened_at = now }
    else cb
rate_limit_in circuit_half_open cb now = record cb { state = circuit_open; opened_at = now }
rate_limit_in circuit_open cb now = cb

pub record_rate_limit : CircuitBreaker → ℕ → ℕ → CircuitBreaker
unfolding rate_limit_in
record_rate_limit cb reset_at now =
    rate_limit_in cb.state
      (record cb {
        consecutive_errors = inc64 cb.consecutive_errors;
        probe_in_flight = false;
        reset_at = if eqb reset_at 0 then cb.reset_at else reset_at;
      })
      now

-- the settings of a server that `buildCircuitBreakers` reads; the cooldown is in seconds
pub record ServerConfig : Type 0 where
  pub rate_limit_threshold : ℤ
  pub rate_limit_cooldown : ℤ

-- `time.Duration(n) * time.Second`
abbrev seconds : ℤ → ℤ
seconds (ℤ.pos n) = signed64 ((n * 1_000_000_000) % 2 ^ 64)
seconds (ℤ.negsuc n) = signed64 ((2 ^ 64 - ((n + 1) * 1_000_000_000) % 2 ^ 64) % 2 ^ 64)

build_from : List (Str × ServerConfig) → List (Str × CircuitBreaker) → List (Str × CircuitBreaker)
build_from [] cbs = cbs
build_from ((server_id, cfg) ∷ rest) cbs = build_from rest (
    insert server_id
      (new_circuit_breaker server_id cfg.rate_limit_threshold (seconds cfg.rate_limit_cooldown))
      cbs)

unfoldable pub build_circuit_breakers :
    Option (List (Str × ServerConfig)) → List (Str × CircuitBreaker)
unfolding build_from
build_circuit_breakers none = []
build_circuit_breakers (some servers) = build_from servers []
