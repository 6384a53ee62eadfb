-- ===== src/Managed/Shutdown.antt =====
-- Where the managed loop hears a shutdown.
mod Tests
use Prim.Native.String.{String}
use shared_ws.Prelude.{◌≡◌, refl, sym, subst, ◌≢◌, List, [], ◌∷◌, arith, true, false, none, some}
use shared_ws.Types.Basic.{ok, err, WebSocketError, WsDisconnectCause, immediate_reconnect}
use shared_ws.Types.Endpoint.{Endpoint}
use shared_ws.Types.Strategy.{ReconnectStrategy}
use shared_ws.Managed.Io.{ManagedWsCommand}
use shared_ws.Managed.Session.{Input, received, round, on_command}
use shared_ws.Managed.Loop.{
  Phase, connecting, session, waiting, stopped, Loop, Event, connects, selects, wakes, wait_goes_on,
  after_round, enter_connecting, start_wait, reconnect_delay, disconnect, step_at, step, run,
}

-- The event is no connection.
abbrev ConnectsNot : {U : Type 0} → Event U → Type 0
ConnectsNot (connects (ok _)) = ⊥
ConnectsNot _ = Unit {0}

-- No connection is made.
abbrev pub NoConnection : {U : Type 0} → List (Event U) → Type 0
NoConnection [] = Unit {0}
NoConnection (e ∷ es) = ConnectsNot e × NoConnection es

-- A shutdown that the phase receives, or the end of the command channel.
abbrev pub Receives : {U : Type 0} → Phase → Event U → Type 0
Receives (session _ _) (selects (received none)) = Unit {0}
Receives (session _ _) (selects (received (some ManagedWsCommand.shutdown))) = Unit {0}
Receives (waiting _) (wakes (some none)) = Unit {0}
Receives (waiting _) (wakes (some (some ManagedWsCommand.shutdown))) = Unit {0}
Receives _ _ = ⊥

module _ {St M U J R : Type 0} (h : Endpoint St M U J) (strategy : ReconnectStrategy R)
    (display : WebSocketError → String)
    (immediate : (st : St) (cause : WsDisconnectCause)
      → h.classify_disconnect st cause ≡ immediate_reconnect) where
  disconnect-connecting :
      (l : Loop St U R) (cause : WsDisconnectCause)
      → (disconnect h strategy l cause).phase ≡ connecting
  unfolding disconnect start_wait reconnect_delay enter_connecting
  disconnect-connecting l cause = rw (immediate l.handler cause) refl

  step_at-connecting :
      (l : Loop St U R) (e : Event U)
      → ConnectsNot e
      → l.phase ≡ connecting
      → (step_at h strategy display connecting l e).phase ≡ connecting
  unfolding step_at
  step_at-connecting l (connects (ok sink)) n p = absurd n
  step_at-connecting l (connects (err e)) n p = disconnect-connecting l _
  step_at-connecting l (selects i) n p = p
  step_at-connecting l (wakes w) n p = p

  -- While no connection is made, and the endpoint wants every reconnect at once, the loop never
  -- leaves its attempts to connect: it awaits neither a session nor a delay, which is where it
  -- would receive a shutdown, so one that is sent is not heard, however many attempts fail.
  pub run_unheard :
      (l : Loop St U R) (es : List (Event U))
      → l.phase ≡ connecting
      → NoConnection es
      → (run h strategy display l es).phase ≡ connecting
  unfolding run step
  run_unheard l [] p n = p
  run_unheard l (e ∷ es) p n =
      run_unheard (step_at h strategy display l.phase l e) es
        (subst (λ q. (step_at h strategy display q l e).phase ≡ connecting) (sym p)
          (step_at-connecting l e n.0 p))
        n.1

module _ {St M U J R : Type 0} (h : Endpoint St M U J) (strategy : ReconnectStrategy R)
    (display : WebSocketError → String) where
  -- In a session and in a delay a shutdown stops the loop at once.
  pub step_at_heard :
      (p : Phase) (l : Loop St U R) (e : Event U)
      → Receives p e
      → (step_at h strategy display p l e).phase ≡ stopped
  unfolding step_at wait_goes_on after_round round on_command
  step_at_heard (session b w) l (selects (received none)) r = refl
  step_at_heard (session b w) l (selects (received (some ManagedWsCommand.shutdown))) r = refl
  step_at_heard (waiting d) l (wakes (some none)) r = refl
  step_at_heard (waiting d) l (wakes (some (some ManagedWsCommand.shutdown))) r = refl
  step_at_heard p l e r = absurd r
