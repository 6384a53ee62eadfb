-- ===== src/Breaker/Tests.antt =====
-- The circuit breaker on concrete calls.
use shared_ws.Prelude.{◌+◌, ◌*◌, ◌/◌, ◌≡◌, refl, true, false, some, [], ◌∷◌, arith}
use shared_ws.Breaker.{
  jitter_delay, WsCircuitBreaker, closed, opened, can_proceed, record_failure, record_success, run,
  proceeds, succeeds, fails, time_until_retry,
}
use shared_ws.Breaker.Inv.{IsSound}
use shared_ws.Breaker.Trip.{fail_at, fail_at-opens, refuses_until_deadline}
use shared_ws.Breaker.Recovery.{recovers, probing, succeed_times}

abbrev breaker : WsCircuitBreaker
breaker = record {
  state = closed;
  failure_threshold = 2;
  success_threshold = 2;
  timeout = 30;
  failures = 0;
  successes = 0;
}

breaker-IsSound : IsSound breaker
breaker-IsSound = ground arith

abbrev tripped : WsCircuitBreaker
tripped = record breaker { state = opened 40 }

tripped-IsSound : IsSound tripped
tripped-IsSound = ground arith

fail_at-opens_example :
    ((fail_at breaker (5 ∷ [])).state ≡ closed)
    × (record_failure (fail_at breaker (5 ∷ [])) 10 ≡ tripped)
fail_at-opens_example = fail_at-opens breaker (5 ∷ []) 10 breaker-IsSound refl (omega arith)

refuses_until_deadline_example :
    let b = run tripped (fails 12 ∷ proceeds 20 ∷ succeeds ∷ []) in
    (can_proceed b 39 ≡ (false, b)) × (time_until_retry b 39 ≡ some 1)
refuses_until_deadline_example =
    refuses_until_deadline tripped (fails 12 ∷ proceeds 20 ∷ succeeds ∷ []) 39 refl (omega arith)
      (omega arith)

recovers_example :
    ((can_proceed tripped 40).0 ≡ true)
    × (succeed_times 1 (can_proceed tripped 40).1 ≡ probing tripped 1)
    × (record_failure (succeed_times 1 (can_proceed tripped 40).1) 50
        ≡ record tripped { state = opened 80 })
    × (record_success (succeed_times 1 (can_proceed tripped 40).1) ≡ breaker)
recovers_example = recovers tripped 40 1 50 tripped-IsSound refl (omega arith) (omega arith)

-- Three quarters of a delay, and none of none.
jitters : (jitter_delay (λ base. 3 * base / 4) 100 ≡ 75) × (jitter_delay (λ base. base + 1) 0 ≡ 0)
unfolding jitter_delay
jitters = (refl, refl)
