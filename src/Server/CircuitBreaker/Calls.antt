-- ===== src/Server/CircuitBreaker/Calls.antt =====
-- The calls of a backend through its circuit breaker (internal/server/unified.go, the execution phase
-- of `callBackendTool`), and when the breaker lets them through.
use gh_aw_mcpg.Common.{
  All, Bool, List, Option, [], arith, false, length, none, refl, some, true, ℕ, ◌+◌, ◌<◌, ◌^◌, ◌∷◌,
  ◌≡◌, ◌≢◌, ◌≤◌,
}
use gh_aw_mcpg.Common.Text.{str_eq}
use gh_aw_mcpg.Server.CircuitBreaker.{
  CircuitBreaker, CircuitBreakerState, ErrCircuitOpen, allow, circuit_closed, circuit_half_open,
  circuit_open, open_until, record_rate_limit, record_success,
}
use gh_aw_mcpg.Server.CircuitBreaker.Invariant.{BreakerEvent, allowing, rate_limit, success}

-- what the backend's execution comes to
pub data Execution : Type 0 where
  transport_error : Execution
  rate_limited : ℕ → Execution
  succeeded : Execution

-- what the caller of the tool gets
pub data CallOutcome : Type 0 where
  rejected : ErrCircuitOpen → CallOutcome
  failed limited passed : CallOutcome

after_allow : CircuitBreaker → Execution → ℕ → Option ErrCircuitOpen → CircuitBreaker × CallOutcome
after_allow cb execution now (some err) = (cb, rejected err)
after_allow cb transport_error now none = (cb, failed)
after_allow cb (rate_limited reset_at) now none = (record_rate_limit cb reset_at now, limited)
after_allow cb succeeded now none = (record_success cb, passed)

-- one call: `asked` is the instant at `Allow`, `answered` that at the answer
pub call_backend : CircuitBreaker → ℕ → ℕ → Execution → CircuitBreaker × CallOutcome
unfolding after_allow
call_backend cb asked answered execution =
    let (cb', err) = allow cb asked in after_allow cb' execution answered err

reject_step :
    (cb : CircuitBreaker) (now : ℕ)
    → cb.state ≡ circuit_half_open
    → cb.probe_in_flight ≡ true
    → ((allow cb now).0 ≡ cb) × ((allow cb now).1 ≢ none)
unfolding allow
reject_step cb now h p = ground arith

-- a later call: its two instants, and what the backend would answer
abbrev pub LaterCall : Type 0
LaterCall = ℕ × ℕ × Execution

pub call_all : CircuitBreaker → List LaterCall → CircuitBreaker × List CallOutcome
call_all cb [] = (cb, [])
call_all cb ((asked, answered, execution) ∷ rest) =
    let (cb', outcome) = call_backend cb asked answered execution in
    let (last, outcomes) = call_all cb' rest in (last, outcome ∷ outcomes)

abbrev pub is_rejected : CallOutcome → Bool
is_rejected (rejected err) = true
is_rejected _ = false

blocked_call :
    (cb : CircuitBreaker) (asked answered : ℕ) (execution : Execution)
    → cb.state ≡ circuit_half_open
    → cb.probe_in_flight ≡ true
    → ((call_backend cb asked answered execution).0 ≡ cb)
      × (is_rejected (call_backend cb asked answered execution).1 ≡ true)
unfolding call_backend allow
blocked_call cb asked answered transport_error h p = ground arith
blocked_call cb asked answered (rate_limited reset_at) h p = ground arith
blocked_call cb asked answered succeeded h p = ground arith

blocked_calls :
    (cb : CircuitBreaker) (calls : List LaterCall)
    → cb.state ≡ circuit_half_open
    → cb.probe_in_flight ≡ true
    → ((call_all cb calls).0 ≡ cb) × All (λ o. is_rejected o ≡ true) (call_all cb calls).1
unfolding call_all
blocked_calls cb [] h p = (refl, tt)
blocked_calls cb ((asked, answered, execution) ∷ rest) h p =
    let (same, refused) = blocked_call cb asked answered execution h p in
    rw same ((blocked_calls cb rest h p).0, (refused, (blocked_calls cb rest h p).1))

open_call :
    (cb : CircuitBreaker) (asked answered : ℕ) (execution : Execution)
    → cb.state ≡ circuit_open
    → asked ≤ open_until cb
    → ((call_backend cb asked answered execution).0 ≡ cb)
      × (is_rejected (call_backend cb asked answered execution).1 ≡ true)
unfolding call_backend allow
open_call cb asked answered transport_error h early = ground arith
open_call cb asked answered (rate_limited reset_at) h early = ground arith
open_call cb asked answered succeeded h early = ground arith

-- While a circuit is open, calls that ask before its cooldown has passed, at whatever instants, are
-- all rejected and change nothing: in particular they do not prolong the cooldown.
pub call_all-open :
    (cb : CircuitBreaker) (calls : List LaterCall)
    → cb.state ≡ circuit_open
    → All (λ c. c.0 ≤ open_until cb) calls
    → ((call_all cb calls).0 ≡ cb) × All (λ o. is_rejected o ≡ true) (call_all cb calls).1
unfolding call_all
call_all-open cb [] h early = (refl, tt)
call_all-open cb ((asked, answered, execution) ∷ rest) h early =
    let (same, refused) = open_call cb asked answered execution h early.0 in
    let (kept, all) = call_all-open cb rest h early.1 in rw same (kept, (refused, all))

-- While a half-open circuit's probe is in flight, calls at any instants are all rejected and change
-- nothing.
pub call_all-half_open :
    (cb : CircuitBreaker) (calls : List LaterCall)
    → cb.state ≡ circuit_half_open
    → cb.probe_in_flight ≡ true
    → ((call_all cb calls).0 ≡ cb) × All (λ o. is_rejected o ≡ true) (call_all cb calls).1
call_all-half_open cb calls h p = blocked_calls cb calls h p

lost_probe :
    (cb : CircuitBreaker) (asked answered : ℕ)
    → cb.state ≡ circuit_open
    → open_until cb < asked
    → let cb' = (call_backend cb asked answered transport_error).0 in
      (cb'.state ≡ circuit_half_open) × (cb'.probe_in_flight ≡ true)
unfolding call_backend allow
lost_probe cb asked answered h late = ground arith

-- If the probe of an open circuit whose cooldown has passed ends in a transport error, then every
-- later call is rejected, however late it comes and whatever the backend would answer.
pub call_backend-lost_probe :
    (cb : CircuitBreaker) (asked answered : ℕ) (calls : List LaterCall)
    → cb.state ≡ circuit_open
    → open_until cb < asked
    → let cb' = (call_backend cb asked answered transport_error).0 in
      All (λ o. is_rejected o ≡ true) (call_all cb' calls).1
call_backend-lost_probe cb asked answered calls h late =
    let (half, flying) = lost_probe cb asked answered h late in
    (blocked_calls (call_backend cb asked answered transport_error).0 calls half flying).1

-- A probe that is answered decides: a success closes the circuit, with no error counted and no reset
-- time; a rate limit opens it again as of that instant.
pub call_backend-probe :
    (cb : CircuitBreaker) (asked answered reset_at : ℕ)
    → cb.state ≡ circuit_open
    → open_until cb < asked
    → let good = (call_backend cb asked answered succeeded).0 in
      let bad = (call_backend cb asked answered (rate_limited reset_at)).0 in
      (good.state ≡ circuit_closed)
      × (good.consecutive_errors ≡ 0)
      × (good.reset_at ≡ 0)
      × (bad.state ≡ circuit_open)
      × (bad.opened_at ≡ answered)
      × (bad.probe_in_flight ≡ false)
unfolding call_backend allow record_success record_rate_limit
call_backend-probe cb asked answered reset_at h late = ground arith

-- rate limits recorded one after another, each with its reset time and its instant
pub record_rate_limits : CircuitBreaker → List (ℕ × ℕ) → CircuitBreaker
record_rate_limits cb [] = cb
record_rate_limits cb ((reset_at, now) ∷ rest) =
    record_rate_limits (record_rate_limit cb reset_at now) rest

one_more :
    (cb : CircuitBreaker) (reset_at now : ℕ)
    → cb.state ≡ circuit_closed
    → cb.consecutive_errors + 1 < cb.threshold
    → cb.threshold < 2 ^ 63
    → let cb' = record_rate_limit cb reset_at now in
      (cb'.state ≡ circuit_closed)
      × (cb'.consecutive_errors ≡ cb.consecutive_errors + 1)
      × (cb'.threshold ≡ cb.threshold)
unfolding record_rate_limit
one_more cb reset_at now h below fits = ground arith

last_one :
    (cb : CircuitBreaker) (reset_at now : ℕ)
    → cb.state ≡ circuit_closed
    → cb.consecutive_errors + 1 ≡ cb.threshold
    → cb.threshold < 2 ^ 63
    → (record_rate_limit cb reset_at now).state ≡ circuit_open
unfolding record_rate_limit
last_one cb reset_at now h at fits = ground arith

-- A closed circuit stays closed while fewer rate limits in a row are recorded than its threshold
-- leaves, and opens at the one that reaches the threshold; at a threshold below 2^63.
pub record_rate_limits-state :
    (cb : CircuitBreaker) (limits : List (ℕ × ℕ)) (reset_at now : ℕ)
    → cb.state ≡ circuit_closed
    → cb.consecutive_errors + length limits + 1 ≡ cb.threshold
    → cb.threshold < 2 ^ 63
    → let before = record_rate_limits cb limits in
      (before.state ≡ circuit_closed)
      × ((record_rate_limit before reset_at now).state ≡ circuit_open)
unfolding record_rate_limits
record_rate_limits-state cb [] reset_at now h count fits =
    (h, last_one cb reset_at now h (omega arith) fits)
record_rate_limits-state cb ((r, n) ∷ rest) reset_at now h count fits =
    let (still, errors, same) = one_more cb r n h (omega arith) fits in
    record_rate_limits-state (record_rate_limit cb r n) rest reset_at now still (omega arith)
      (omega arith)

-- The transitions that the type's comment documents, each with the method that makes it: `Allow` leads
-- from open to half-open exactly once the cooldown has passed, a success closes a half-open circuit,
-- and a rate limit opens a circuit.
pub data Documented (cb : CircuitBreaker)
    : BreakerEvent → CircuitBreakerState → CircuitBreakerState → Type 0 where
  admit : {now : ℕ} → Documented cb (allowing now) circuit_closed circuit_closed
  probing : {now : ℕ} → Documented cb (allowing now) circuit_half_open circuit_half_open
  probe :
      {now : ℕ} → open_until cb < now → Documented cb (allowing now) circuit_open circuit_half_open
  wait : {now : ℕ} → now ≤ open_until cb → Documented cb (allowing now) circuit_open circuit_open
  reset : Documented cb success circuit_closed circuit_closed
  recover : Documented cb success circuit_half_open circuit_closed
  count : {reset_at now : ℕ} → Documented cb (rate_limit reset_at now) circuit_closed circuit_closed
  trip : {reset_at now : ℕ} → Documented cb (rate_limit reset_at now) circuit_closed circuit_open
  trip_again :
      {reset_at now : ℕ} → Documented cb (rate_limit reset_at now) circuit_half_open circuit_open
  ignore : {reset_at now : ℕ} → Documented cb (rate_limit reset_at now) circuit_open circuit_open

-- A success that is recorded while the circuit is open, as by a request let through before it
-- opened, closes it before its cooldown has passed.
pub record_success-open :
    (cb : CircuitBreaker)
    → cb.state ≡ circuit_open
    → ((record_success cb).state ≡ circuit_closed) × ((record_success cb).reset_at ≡ cb.reset_at)
unfolding record_success
record_success-open cb h = ground arith
