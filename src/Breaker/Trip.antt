-- ===== src/Breaker/Trip.antt =====
-- When a closed circuit breaker opens, and what it refuses while it is open.
use shared_ws.Prelude.{
  ℕ, suc, ◌+◌, ◌-◌, ◌<◌, ◌≡◌, sym, subst, false, some, List, [], ◌∷◌, arith, length,
}
use shared_ws.Breaker.{
  closed, opened, WsCircuitBreaker, record_failure, can_proceed, Call, proceeds, succeeds, fails,
  call, run, time_until_retry,
}
use shared_ws.Breaker.Inv.{IsSound}

-- `record_failure` at each of the instants.
abbrev pub fail_at : WsCircuitBreaker → List ℕ → WsCircuitBreaker
fail_at b [] = b
fail_at b (t ∷ ts) = fail_at (record_failure b t) ts

-- One failure too few to reach the threshold is only counted.
fail_below :
    (b : WsCircuitBreaker) (now : ℕ)
    → IsSound b
    → b.state ≡ closed
    → suc b.failures < b.failure_threshold
    → record_failure b now ≡ record b { failures = suc b.failures }
unfolding record_failure
fail_below b now h c lt = ground arith

fail_threshold :
    (b : WsCircuitBreaker) (now : ℕ)
    → IsSound b
    → b.state ≡ closed
    → suc b.failures ≡ b.failure_threshold
    → record_failure b now
      ≡ record b { state = opened (now + b.timeout); failures = 0; successes = 0 }
unfolding record_failure
fail_threshold b now h c e = ground arith

-- A closed breaker stays closed through failures that do not reach the threshold, and the failure
-- that reaches it opens the circuit until `timeout` after that failure, with the counters reset.
pub fail_at-opens :
    (b : WsCircuitBreaker) (ts : List ℕ) (now : ℕ)
    → IsSound b
    → b.state ≡ closed
    → b.failures + length ts + 1 ≡ b.failure_threshold
    → ((fail_at b ts).state ≡ closed)
      × (record_failure (fail_at b ts) now
          ≡ record b { state = opened (now + b.timeout); failures = 0; successes = 0 })
fail_at-opens b [] now h c e = (c, fail_threshold b now h c (omega arith))
fail_at-opens b (t ∷ ts) now h c e =
    let counted : WsCircuitBreaker = record b { failures = suc b.failures } in
    let step : record_failure b t ≡ counted = fail_below b t h c (omega arith) in
    let sound : IsSound counted = ground arith in
    subst
      (λ s.
        ((fail_at s ts).state ≡ closed)
        × (record_failure (fail_at s ts) now
            ≡ record b { state = opened (now + b.timeout); failures = 0; successes = 0 }))
      (sym step) (fail_at-opens counted ts now sound c (omega arith))

-- The instants at which the calls ask to proceed are all before `until`.
abbrev pub AsksBefore : ℕ → List Call → Type 0
AsksBefore until [] = Unit
AsksBefore until (proceeds now ∷ cs) = (now < until) × AsksBefore until cs
AsksBefore until (succeeds ∷ cs) = AsksBefore until cs
AsksBefore until (fails now ∷ cs) = AsksBefore until cs

call_open :
    (b : WsCircuitBreaker) (c : Call) {until : ℕ}
    → b.state ≡ opened until
    → AsksBefore until (c ∷ [])
    → (call b c).state ≡ opened until
unfolding call
call_open b (proceeds now) h a = ground arith
call_open b succeeds h a = ground arith
call_open b (fails now) h a = ground arith

run_open :
    (b : WsCircuitBreaker) (cs : List Call) {until : ℕ}
    → b.state ≡ opened until
    → AsksBefore until cs
    → (run b cs).state ≡ opened until
unfolding run
run_open b [] h a = h
run_open b (proceeds now ∷ cs) h a =
    run_open (call b (proceeds now)) cs (call_open b (proceeds now) h (a.0, tt)) a.1
run_open b (succeeds ∷ cs) h a = run_open (call b succeeds) cs (call_open b succeeds h tt) a
run_open b (fails now ∷ cs) h a = run_open (call b (fails now)) cs (call_open b (fails now) h tt) a

refuse_open :
    (b : WsCircuitBreaker) {until : ℕ} (now : ℕ)
    → b.state ≡ opened until
    → now < until
    → (can_proceed b now ≡ (false, b)) × (time_until_retry b now ≡ some (until - now))
unfolding can_proceed time_until_retry
refuse_open b now h lt = ground arith

-- An open circuit refuses every attempt before its deadline, whatever failures, successes and
-- earlier attempts are recorded meanwhile, and it reports the time that is left.
pub refuses_until_deadline :
    (b : WsCircuitBreaker) (cs : List Call) {until : ℕ} (now : ℕ)
    → b.state ≡ opened until
    → AsksBefore until cs
    → now < until
    → (can_proceed (run b cs) now ≡ (false, run b cs))
      × (time_until_retry (run b cs) now ≡ some (until - now))
refuses_until_deadline b cs now h a lt = refuse_open (run b cs) now (run_open b cs h a) lt
