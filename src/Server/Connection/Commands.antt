-- ===== src/Server/Connection/Commands.antt =====
-- The commands that reach an endpoint, when its receiver is subscribed to a broadcast channel.
use Prim.Native.String.{String}
use shared_ws.Prelude.{
  ℕ, zero, suc, ◌+◌, ◌<◌, ◌≡◌, ◌≢◌, ◌∙◌, refl, sym, ap, none, some, List, [], ◌∷◌, ◌++◌, append-nil,
  append_assoc, arith, drop, get_elem?,
}
use shared_ws.Types.Basic.{ok, err, WebSocketError}
use shared_ws.Frame.{WsFrame}
use shared_ws.Server.Connection.{
  WsServerEndpointEvent, connected, frame, command, tick, closed, EndpointFactory, received,
  fell_behind, Connection, WsServerCloseCause, finish_connection, Going, Branch, reads, receives,
  take_branch, on_received,
}
use shared_ws.Server.Connection.Events.{branch_events, frame_events}
use shared_ws.Server.Connection.Trace.{Told, take_branch-Told, finish_connection-told}

-- The place of the receiver after a branch that was taken: past the command that it got, or past
-- those that it missed.
abbrev pub past : {C : Type 0} → Branch C → ℕ → ℕ
past (receives (received x)) i = suc i
past (receives (fell_behind missed)) i = missed + i
past _ i = i

-- What a receiver at `i` of a channel may answer, when `all` is sent over it.
abbrev pub IsAnswer : {C : Type 0} → List C → ℕ → Branch C → Type 0
IsAnswer all i (receives (received x)) = get_elem? all i ≡ some x
IsAnswer all i (receives (fell_behind missed)) = 0 < missed
IsAnswer all i _ = Unit

-- The commands among the events.
abbrev pub commands_of : {A C : Type 0} → List (WsServerEndpointEvent A C) → List C
commands_of [] = []
commands_of (command x ∷ es) = x ∷ commands_of es
commands_of (_ ∷ es) = commands_of es

-- The commands that the handler was told are those sent since the subscription, in order and from
-- the first on, up to some place.
abbrev pub IsServed : {St A C : Type 0} → List C → Connection St A C → Type 0
IsServed {C = C} since c = (later : List C) × (commands_of c.told ++ later ≡ since)

commands_of-append :
    {A C : Type 0} (xs ys : List (WsServerEndpointEvent A C))
    → commands_of (xs ++ ys) ≡ commands_of xs ++ commands_of ys
commands_of-append [] ys = refl
commands_of-append (connected ctx ∷ xs) ys = commands_of-append xs ys
commands_of-append (frame f ∷ xs) ys = commands_of-append xs ys
commands_of-append (command x ∷ xs) ys = ap (◌∷◌ x) (commands_of-append xs ys)
commands_of-append (tick ∷ xs) ys = commands_of-append xs ys
commands_of-append (closed cause ∷ xs) ys = commands_of-append xs ys

drop-get_elem? :
    {C : Type 0} (all : List C) (i : ℕ) (x : C)
    → get_elem? all i ≡ some x
    → drop i all ≡ x ∷ drop (suc i) all
drop-get_elem? [] i x e = ground arith
drop-get_elem? (y ∷ all) zero x e = ground arith
drop-get_elem? (y ∷ all) (suc i) x e = drop-get_elem? all i x e

-- What a branch that is taken leaves of `since`: a connection that goes on has the rest of the
-- channel before it, and one that ends has missed nothing before its last command.
abbrev pub Feeds : {St A C : Type 0} → List C → List C → Going St A C → Type 0
Feeds since rest (none, c) = commands_of c.told ++ rest ≡ since
Feeds since rest (some cause, c) = IsServed since c

module _ {St A C : Type 0} where
  fed-Feeds :
      (since rest : List C) (g : Going St A C)
      → commands_of g.1.told ++ rest ≡ since
      → Feeds since rest g
  fed-Feeds since rest (none, c) e = e
  fed-Feeds since rest (some cause, c) e = (rest, e)

  pub told-Feeds :
      (since rest left : List C) (c : Connection St A C) (g : Going St A C)
      (events : List (WsServerEndpointEvent A C))
      → Told c events g.1
      → commands_of events ++ left ≡ rest
      → commands_of c.told ++ rest ≡ since
      → Feeds since left g
  told-Feeds since rest left c g events t e h = fed-Feeds since left g (
      rw (t.0, commands_of-append c.told events)
        (append_assoc (commands_of c.told) (commands_of events) left
          ∙ ap (λ l. commands_of c.told ++ l) e
          ∙ h))

module _ {St A C : Type 0} (h : EndpointFactory St A C) (display : WebSocketError → String)
    (all : List C) where
  frame_events-commands_of : (f : WsFrame) → commands_of {A = A} {C = C} (frame_events f) ≡ []
  frame_events-commands_of f = ground arith

  branch_events-commands_of :
      (b : Branch C) (i : ℕ)
      → IsAnswer all i b
      → ((missed : ℕ) → b ≢ receives (fell_behind missed))
      → commands_of {A = A} (branch_events b) ++ drop (past b i) all ≡ drop i all
  branch_events-commands_of (receives (received x)) i a n = sym (drop-get_elem? all i x a)
  branch_events-commands_of (receives (fell_behind missed)) i a n = absurd (n missed refl)
  branch_events-commands_of (reads (some (ok f))) i a n = rw (frame_events-commands_of f) refl
  branch_events-commands_of (reads (some (err e))) i a n = refl
  branch_events-commands_of (reads none) i a n = refl
  branch_events-commands_of b i a n = refl

  pub take_branch-Feeds :
      (since : List C) (c : Connection St A C) (b : Branch C) (i : ℕ)
      → IsAnswer all i b
      → commands_of c.told ++ drop i all ≡ since
      → Feeds since (drop (past b i) all) (take_branch h display c b)
  unfolding take_branch on_received
  take_branch-Feeds since c (receives (fell_behind missed)) i a e = (drop i all, e)
  take_branch-Feeds since c b i a e =
      told-Feeds since (drop i all) (drop (past b i) all) c (take_branch h display c b)
        (branch_events b) (take_branch-Told h display c b)
        (branch_events-commands_of b i a (λ missed k. ground arith)) e

  pub finish_connection-IsServed :
      (since : List C) (c : Connection St A C) (cause : WsServerCloseCause)
      → IsServed since c
      → IsServed since (finish_connection h display c cause)
  finish_connection-IsServed since c cause (later, e) =
      let t = (finish_connection-told h display c cause).0 in
      (
        later,
        rw (t, commands_of-append c.told (closed cause ∷ []), append-nil (commands_of c.told)) e,
      )
