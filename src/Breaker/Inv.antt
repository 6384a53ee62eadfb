-- ===== src/Breaker/Inv.antt =====
-- What holds of a circuit breaker between two calls.
use shared_ws.Prelude.{ℕ, ◌≤◌, ◌<◌, ◌≡◌, List, [], ◌∷◌, arith, u32_max}
use shared_ws.Breaker.{
  closed, half_open, WsCircuitBreaker, new, Call, proceeds, succeeds, fails, call, run,
}

pub record IsSound (b : WsCircuitBreaker) : Type 0 where
  pub failure_positive : 1 ≤ b.failure_threshold
  pub failure_u32 : b.failure_threshold ≤ u32_max
  pub success_positive : 1 ≤ b.success_threshold
  pub success_u32 : b.success_threshold ≤ u32_max
  pub closed_below : b.state ≡ closed → b.failures < b.failure_threshold
  pub half_open_below : b.state ≡ half_open → b.successes < b.success_threshold
  pub half_open_fresh : b.state ≡ half_open → b.failures ≡ 0
  pub closed_fresh : b.state ≡ closed → b.successes ≡ 0

pub new-IsSound :
    (failure_threshold success_threshold timeout : ℕ)
    → failure_threshold ≤ u32_max
    → success_threshold ≤ u32_max
    → IsSound (new failure_threshold success_threshold timeout)
unfolding new
new-IsSound f s t hf hs = ground arith

pub call-IsSound : (b : WsCircuitBreaker) (c : Call) → IsSound b → IsSound (call b c)
unfolding call
call-IsSound b (proceeds now) h = ground arith
call-IsSound b succeeds h = ground arith
call-IsSound b (fails now) h = ground arith

pub run-IsSound : (b : WsCircuitBreaker) (cs : List Call) → IsSound b → IsSound (run b cs)
unfolding run
run-IsSound b [] h = h
run-IsSound b (c ∷ cs) h = run-IsSound (call b c) cs (call-IsSound b c h)

-- Whatever calls a new breaker gets, at whatever instants: closed it has counted fewer failures
-- than its threshold, half open fewer successes than its threshold, and the thresholds are at
-- least 1.
pub run-new-IsSound :
    (failure_threshold success_threshold timeout : ℕ) (cs : List Call)
    → failure_threshold ≤ u32_max
    → success_threshold ≤ u32_max
    → IsSound (run (new failure_threshold success_threshold timeout) cs)
run-new-IsSound f s t cs hf hs = run-IsSound (new f s t) cs (new-IsSound f s t hf hs)
