-- ===== src/Breaker/Recovery.antt =====
-- How a circuit breaker closes again once its deadline has passed.
use shared_ws.Prelude.{ℕ, zero, suc, ◌+◌, ◌≤◌, ◌<◌, ◌≡◌, ap, true, arith, if◌then◌else◌, ◌==◌}
use shared_ws.Breaker.{
  closed, opened, half_open, WsCircuitBreaker, can_proceed, record_success, record_failure,
}
use shared_ws.Breaker.Inv.{IsSound}

abbrev pub succeed_times : ℕ → WsCircuitBreaker → WsCircuitBreaker
succeed_times zero b = b
succeed_times (suc n) b = succeed_times n (record_success b)

-- A half-open breaker with `n` successes counted.
abbrev pub probing : WsCircuitBreaker → ℕ → WsCircuitBreaker
probing b n = record b { state = half_open; failures = 0; successes = n }

probe :
    (b : WsCircuitBreaker) {until : ℕ} (now : ℕ)
    → b.state ≡ opened until
    → until ≤ now
    → can_proceed b now ≡ (true, probing b 0)
unfolding can_proceed
probe b now h le = ground arith

success_below :
    (b : WsCircuitBreaker) (n : ℕ)
    → IsSound b
    → suc n < b.success_threshold
    → record_success (probing b n) ≡ probing b (suc n)
unfolding record_success
success_below b n h lt = ground arith

success_threshold_lem :
    (b : WsCircuitBreaker) (n : ℕ)
    → IsSound b
    → suc n ≡ b.success_threshold
    → record_success (probing b n) ≡ record b { state = closed; failures = 0; successes = 0 }
unfolding record_success
success_threshold_lem b n h e = ground arith

failure_reopens :
    (b : WsCircuitBreaker) (n now : ℕ)
    → record_failure (probing b n) now
      ≡ record b { state = opened (now + b.timeout); failures = 0; successes = 0 }
unfolding record_failure
failure_reopens b n now = ground arith

succeed_times-probing :
    (b : WsCircuitBreaker) (k n : ℕ)
    → IsSound b
    → k + n < b.success_threshold
    → succeed_times k (probing b n) ≡ probing b (k + n)
succeed_times-probing b zero n h lt = ap (probing b) (omega arith)
succeed_times-probing b (suc k) n h lt =
    ground (arith, success_below b n h, succeed_times-probing b k (suc n) h)

-- An attempt at or after the deadline is let through and makes the breaker half open. `n`
-- successes short of the threshold keep it so; from there one more success closes it with the
-- counters reset, and one failure opens it anew for `timeout`.
pub recovers :
    (b : WsCircuitBreaker) {until : ℕ} (now n later : ℕ)
    → IsSound b
    → b.state ≡ opened until
    → until ≤ now
    → n + 1 ≤ b.success_threshold
    → ((can_proceed b now).0 ≡ true)
      × (succeed_times n (can_proceed b now).1 ≡ probing b n)
      × (record_failure (succeed_times n (can_proceed b now).1) later
          ≡ record b { state = opened (later + b.timeout); failures = 0; successes = 0 })
      × (record_success (succeed_times n (can_proceed b now).1) ≡ (
          if n + 1 == b.success_threshold
          then record b { state = closed; failures = 0; successes = 0 }
          else probing b (suc n)))
recovers b now n later h o le lt = ground (
  arith,
  probe b now o le,
  succeed_times-probing b n 0 h,
  failure_reopens b n later,
  success_threshold_lem b n h,
  success_below b n h,
)
