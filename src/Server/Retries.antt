-- ===== src/Server/Retries.antt =====
-- How a server gives up binding.
use Prim.Native.String.{String}
use shared_ws.Prelude.{
  ℕ, zero, suc, ◌+◌, ◌<◌, ◌≡◌, ◌∙◌, refl, false, Option, none, some, List, [], ◌∷◌, arith, subst,
}
use shared_ws.Types.Basic.{err}
use shared_ws.Server.Config.{WsServerConfig, WsServerRetryPolicy, is_exhausted}
use shared_ws.Server.Lifecycle.{
  terminal, bind, bind_retry_exhausted, binding, publishing, publishes, set_status, store_cause,
  publish_terminal, Server, Event, binds, sleeps, on_failure, on_bind, step_at, step, run, start,
}
use shared_ws.Server.Backoff.{backoff_after}

-- So many binds that fail, each with a sleep after it.
abbrev pub failing : String → ℕ → List Event
failing failure zero = []
failing failure (suc n) = binds (err failure) ∷ sleeps ∷ failing failure n

module _ {A W : Type 0} (config : WsServerConfig A W) (retry : WsServerRetryPolicy)
    (fault : Option ℕ) where
  -- About to bind after `n` failures, with no shutdown asked for.
  record Tried (n : ℕ) (s : Server A) : Type 0 where
    at_bind : s.phase ≡ binding
    not_shut : s.shared.shutdown ≡ false
    not_ended : s.shared.terminal_error ≡ none
    from_bind : s.origin ≡ bind
    counted : s.consecutive_failures ≡ n
    backed_off : s.backoff ≡ backoff_after retry n

  fail_once :
      (failure : String) (n limit : ℕ) (s : Server A)
      → retry.max_attempts ≡ some limit
      → n + 1 < limit
      → limit < 4294967296
      → Tried n s
      → Tried
          (suc n)
          (step config retry fault (step config retry fault s (binds (err failure))) sleeps)
  unfolding step step_at on_bind on_failure is_exhausted set_status
  fail_once failure n limit s m lt u t =
      ground (arith, t.at_bind, t.not_shut, t.not_ended, t.from_bind, t.counted, t.backed_off)

  fail_last :
      (failure : String) (n : ℕ) (s : Server A)
      → retry.max_attempts ≡ some (n + 1)
      → n + 1 < 4294967296
      → Tried n s
      → ((step config retry fault s (binds (err failure))).phase ≡ publishing)
        × ((step config retry fault s (binds (err failure))).shared.terminal_error
            ≡ some (bind_retry_exhausted config.bind_addr (n + 1) failure))
  unfolding step step_at on_bind on_failure is_exhausted store_cause
  fail_last failure n s m u t =
      ground (arith, t.at_bind, t.not_shut, t.not_ended, t.from_bind, t.counted, t.backed_off)

  -- The second write leaves the cause as it is.
  publishes_cause :
      (s : Server A)
      → s.phase ≡ publishing
      → ((step config retry fault s publishes).shared.status ≡ terminal)
        × ((step config retry fault s publishes).shared.terminal_error ≡ s.shared.terminal_error)
  unfolding step step_at publish_terminal
  publishes_cause s n = rw (n, step) (refl, refl)

  fail_all :
      (failure : String) (n limit k : ℕ) (s : Server A)
      → retry.max_attempts ≡ some limit
      → k + n < limit
      → limit < 4294967296
      → Tried k s
      → Tried (k + n) (run config retry fault s (failing failure n))
  unfolding run
  fail_all failure zero limit k s m lt u t = subst (λ j. Tried j s) (omega arith) t
  fail_all failure (suc n) limit k s m lt u t =
      let s' = step config retry fault (step config retry fault s (binds (err failure))) sleeps in
      let t' : Tried (suc k) s' = fail_once failure k limit s m (omega arith) u t in
      subst (λ j. Tried j (run config retry fault s' (failing failure n))) (omega arith)
        (fail_all failure n limit (suc k) s' m (omega arith) u t')

  start-Tried : Tried zero (start config retry fault)
  unfolding start
  start-Tried = record {
    at_bind = refl;
    not_shut = refl;
    not_ended = refl;
    from_bind = refl;
    counted = refl;
    backed_off = refl;
  }

  -- A retry budget of `n + 1` attempts is used up exactly: with no shutdown asked for, the server is
  -- still about to bind after `n` failed binds, each followed by its wait, with the backoff of `n`
  -- waits; with the next failure it stores `BindRetryExhausted`, the number of its attempts and the
  -- last failure, and its next write ends it as `Terminal`, with that error. The budget is within a
  -- `u32`.
  pub bind_budget_used_up :
      (failure : String) (n : ℕ)
      → retry.max_attempts ≡ some (n + 1)
      → n + 1 < 4294967296
      → let s = run config retry fault (start config retry fault) (failing failure n) in
        let failed = step config retry fault s (binds (err failure)) in
        let over = step config retry fault failed publishes in
        let cause = some (bind_retry_exhausted config.bind_addr (n + 1) failure) in
        (s.phase ≡ binding)
        × (s.backoff ≡ backoff_after retry n)
        × (failed.shared.terminal_error ≡ cause)
        × (over.shared.status ≡ terminal)
        × (over.shared.terminal_error ≡ cause)
  bind_budget_used_up failure n m u =
      let s = run config retry fault (start config retry fault) (failing failure n) in
      let t : Tried n s =
        subst (λ j. Tried j s) (omega arith)
          (fail_all failure n (n + 1) zero (start config retry fault) m (omega arith) u
            start-Tried) in
      let f = fail_last failure n s m u t in
      let p = publishes_cause (step config retry fault s (binds (err failure))) f.0 in
      (t.at_bind, t.backed_off, f.1, p.0, p.1 ∙ f.1)
