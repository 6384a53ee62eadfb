-- ===== src/Server/Backoff.antt =====
-- The waits between the binds of a server.
use shared_ws.Prelude.{ℕ, zero, suc, ◌*◌, ◌≤◌, ◌≡◌, arith, min}
use shared_ws.Server.Config.{WsServerRetryPolicy, next_backoff, duration_max}

-- The backoff after so many waits.
abbrev pub backoff_after : WsServerRetryPolicy → ℕ → ℕ
backoff_after p zero = p.initial_backoff
backoff_after p (suc n) = next_backoff p (backoff_after p n)

abbrev pub doubled : ℕ → ℕ → ℕ
doubled initial zero = initial
doubled initial (suc n) = 2 * doubled initial n

-- After `n` waits the backoff is the initial one doubled `n` times, or the largest one if that is
-- less, for a policy whose largest backoff is a duration and not below the initial one.
pub backoff_after_lem :
    (p : WsServerRetryPolicy) (n : ℕ)
    → p.max_backoff ≤ duration_max
    → p.initial_backoff ≤ p.max_backoff
    → backoff_after p n ≡ min p.max_backoff (doubled p.initial_backoff n)
unfolding next_backoff
backoff_after_lem p zero h i = omega arith
backoff_after_lem p (suc n) h i = omega (arith, backoff_after_lem p n h i)
