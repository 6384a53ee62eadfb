-- ===== src/Breaker.antt =====
-- src/core/connection_policy.rs: the circuit breaker that guards connection attempts. Instants and
-- durations are numbers of nanoseconds; each method takes the `Instant::now()` that it reads as
-- `now`. A `&mut self` method returns the new breaker.
pub mod Inv
pub mod Trip
pub mod Recovery
mod Tests
use shared_ws.Prelude.{
  ℕ, ◌+◌, ◌-◌, Bool, true, false, Option, none, some, List, [], ◌∷◌, leb, ◌==◌, if◌then◌else◌, max,
  min, u64_max, saturating_add, u32_max,
}

-- `opened` is `Open { until }`.
pub data CircuitState : Type 0 where
  closed : CircuitState
  opened : ℕ → CircuitState
  half_open : CircuitState

pub record WsCircuitBreaker : Type 0 where
  pub state : CircuitState
  pub failure_threshold : ℕ
  pub success_threshold : ℕ
  pub timeout : ℕ
  pub failures : ℕ
  pub successes : ℕ

unfoldable pub new : ℕ → ℕ → ℕ → WsCircuitBreaker
new failure_threshold success_threshold timeout = record {
  state = closed;
  failure_threshold = max failure_threshold 1;
  success_threshold = max success_threshold 1;
  timeout = timeout;
  failures = 0;
  successes = 0;
}

open_circuit : WsCircuitBreaker → ℕ → WsCircuitBreaker
open_circuit b now = record b { state = opened (now + b.timeout); failures = 0; successes = 0 }

unfoldable pub can_proceed : WsCircuitBreaker → ℕ → Bool × WsCircuitBreaker
can_proceed b now = elim b.state [
  | closed ↦ (true, b)
  | opened until ↦
      if leb until now
      then (true, record b { state = half_open; failures = 0; successes = 0 })
      else (false, b)
  | half_open ↦ (true, b)
]

unfoldable pub record_success : WsCircuitBreaker → WsCircuitBreaker
record_success b = elim b.state [
  | half_open ↦
      let successes' = saturating_add u32_max b.successes 1 in
      if leb b.success_threshold successes'
      then record b { state = closed; failures = 0; successes = 0 }
      else record b { successes = successes' }
  | closed ↦ record b { failures = 0 }
  | opened until ↦ b
]

unfoldable pub record_failure : WsCircuitBreaker → ℕ → WsCircuitBreaker
unfolding open_circuit
record_failure b now =
    let counted = record b { failures = saturating_add u32_max b.failures 1 } in
    elim b.state [
      | closed ↦
          if leb b.failure_threshold counted.failures then open_circuit counted now else counted
      | half_open ↦ open_circuit counted now
      | opened until ↦ counted
    ]

-- `until.checked_duration_since(now)`
unfoldable pub time_until_retry : WsCircuitBreaker → ℕ → Option ℕ
time_until_retry b now = elim b.state [
  | opened until ↦ if leb now until then some (until - now) else none
  | _ ↦ none
]

-- What a client does with a breaker, each call at its instant.
pub data Call : Type 0 where
  proceeds : ℕ → Call
  succeeds : Call
  fails : ℕ → Call

unfoldable pub call : WsCircuitBreaker → Call → WsCircuitBreaker
unfolding can_proceed record_success record_failure
call b (proceeds now) = (can_proceed b now).1
call b succeeds = record_success b
call b (fails now) = record_failure b now

unfoldable pub run : WsCircuitBreaker → List Call → WsCircuitBreaker
run b [] = b
run b (c ∷ cs) = run (call b c) cs

-- `jittered` is the product of a delay and a random factor of 0.5 to 1, over the `f64`, as a `u128`.
unfoldable pub jitter_delay : (ℕ → ℕ) → ℕ → ℕ
jitter_delay jittered base = if base == 0 then base else min (jittered base) u64_max
