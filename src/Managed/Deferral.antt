-- ===== src/Managed/Deferral.antt =====
-- Commands that wait for the session to be authenticated.
use Prim.Native.String.{String}
use shared_ws.Prelude.{
  true, false, some, ◌≡◌, refl, ◌∙◌, sym, ap, List, [], ◌∷◌, ◌++◌, append-nil, append_assoc, arith,
}
use shared_ws.Frame.{WsFrame}
use shared_ws.Types.Basic.{ok, WebSocketError, WsMessageAction, WsParseOutcome}
use shared_ws.Types.Endpoint.{Endpoint}
use shared_ws.Managed.Io.{
  ManagedWsCommand, command_requires_auth, Conn, apply_command, apply_pending_auth_commands,
  replay_subscriptions,
}
use shared_ws.Managed.Session.{
  Session, Flow, stays, breaks, returns, Input, received, read, round, rounds, on_command, on_frame,
  on_session_authenticated, or_break,
}

-- What is for the peer: a send, or a subscription update.
abbrev IsForPeer : {U : Type 0} → ManagedWsCommand U → Type 0
IsForPeer (ManagedWsCommand.send _) = Unit
IsForPeer (ManagedWsCommand.update_subscriptions _) = Unit
IsForPeer _ = ⊥

abbrev pub AllForPeer : {U : Type 0} → List (ManagedWsCommand U) → Type 0
AllForPeer [] = Unit
AllForPeer (c ∷ cs) = IsForPeer c × AllForPeer cs

abbrev pub arrivals : {U : Type 0} → List (ManagedWsCommand U) → List (Input U)
arrivals [] = []
arrivals (c ∷ cs) = received (some c) ∷ arrivals cs

module _ {St M U J : Type 0} (h : Endpoint St M U J) (display : WebSocketError → String) where
  gated_waits :
      (s : Session St U) (c : ManagedWsCommand U)
      → s.session_authenticated ≡ false
      → IsForPeer c
      → on_command h display s (some c)
        ≡ stays (record s { pending_auth_commands = s.pending_auth_commands ++ c ∷ [] })
  unfolding on_command command_requires_auth
  gated_waits s (ManagedWsCommand.send p) u g = ground arith
  gated_waits s (ManagedWsCommand.update_subscriptions a) u g = ground arith
  gated_waits s (ManagedWsCommand.force_reconnect r) u g = absurd g
  gated_waits s ManagedWsCommand.shutdown u g = absurd g

  gated_applies :
      (s : Session St U) (c : ManagedWsCommand U)
      → s.session_authenticated ≡ true
      → IsForPeer c
      → on_command h display s (some c) ≡ or_break h display "command" (apply_command h s.conn c) s
  unfolding on_command command_requires_auth
  gated_applies s (ManagedWsCommand.send p) u g = ground arith
  gated_applies s (ManagedWsCommand.update_subscriptions a) u g = ground arith
  gated_applies s (ManagedWsCommand.force_reconnect r) u g = absurd g
  gated_applies s ManagedWsCommand.shutdown u g = absurd g

  -- Before the session is authenticated, sends and subscription updates write nothing and do not
  -- reach the handler: they queue up in the order of their arrival.
  pub rounds-gated :
      (s : Session St U) (cs : List (ManagedWsCommand U))
      → s.session_authenticated ≡ false
      → AllForPeer cs
      → rounds h display s (arrivals cs)
        ≡ stays (record s { pending_auth_commands = s.pending_auth_commands ++ cs })
  unfolding rounds round
  rounds-gated s [] u g = rw (append-nil s.pending_auth_commands)
  rounds-gated s (c ∷ cs) u g =
      rw (gated_waits s c u g.0, rounds)
        (rounds-gated (record s { pending_auth_commands = s.pending_auth_commands ++ c ∷ [] }) cs u
            g.1
          ∙ ap (λ (l : List (ManagedWsCommand U)). stays (record s { pending_auth_commands = l }))
              (append_assoc s.pending_auth_commands (c ∷ []) cs))

  -- A run that stays in the loop has a first round that stays.
  rounds-cons :
      (s : Session St U) (x : Input U) (xs : List (Input U)) {s' : Session St U}
      → rounds h display s (x ∷ xs) ≡ stays s'
      → (t : Session St U) × (round h display s x ≡ stays t) × (rounds h display t xs ≡ stays s')
  unfolding rounds
  rounds-cons s x xs {s'} e = go (round h display s x) refl
    where
      go :
          (f : Flow St U)
          → round h display s x ≡ f
          → (t : Session St U) × (round h display s x ≡ stays t)
            × (rounds h display t xs ≡ stays s')
      go (stays t) q = (t, q, ground arith)
      go (breaks cause t) q = absurd (ground arith)
      go (returns t) q = absurd (ground arith)

  rounds-append :
      (s : Session St U) (xs ys : List (Input U)) {s' : Session St U}
      → rounds h display s xs ≡ stays s'
      → rounds h display s (xs ++ ys) ≡ rounds h display s' ys
  unfolding rounds
  rounds-append s [] ys e = ground arith
  rounds-append s (x ∷ xs) ys e =
      let (t, f, r) = rounds-cons s x xs e in ground (arith, rounds-append t xs ys r)

  rounds-singleton :
      (s : Session St U) (x : Input U) {s' : Session St U}
      → round h display s x ≡ stays s'
      → rounds h display s (x ∷ []) ≡ stays s'
  unfolding rounds
  rounds-singleton s x e = rw (e, rounds)

  pending-append :
      (c : Conn St) (xs ys : List (ManagedWsCommand U)) (c' : Conn St)
      → apply_pending_auth_commands h c xs ≡ (ok tt, c', [])
      → apply_pending_auth_commands h c (xs ++ ys) ≡ apply_pending_auth_commands h c' ys
  unfolding apply_pending_auth_commands
  pending-append c [] ys c' e = ground arith
  pending-append c (x ∷ xs) ys c' e =
      ground (arith, pending-append (apply_command h c x).1 xs ys c')

  -- The queue is empty once all of it has been applied.
  pending_done :
      (c : Conn St) (xs : List (ManagedWsCommand U)) (c' : Conn St)
      (left : List (ManagedWsCommand U))
      → apply_pending_auth_commands h c xs ≡ (ok tt, c', left)
      → left ≡ []
  unfolding apply_pending_auth_commands
  pending_done c [] c' left e = ground arith
  pending_done c (x ∷ xs) c' left e =
      ground (arith, pending_done (apply_command h c x).1 xs c' left)

  -- In an authenticated session the commands are applied in turn, as the queue is.
  applied_in_turn :
      (s : Session St U) (cs : List (ManagedWsCommand U)) (s' : Session St U)
      → s.session_authenticated ≡ true
      → AllForPeer cs
      → rounds h display s (arrivals cs) ≡ stays s'
      → (apply_pending_auth_commands h s.conn cs ≡ (ok tt, s'.conn, []))
        × (s' ≡ record s { conn = s'.conn })
  unfolding rounds round apply_pending_auth_commands
  applied_in_turn s [] s' u g e = ground arith
  applied_in_turn s (c ∷ cs) s' u g e =
      let (t, f, r) = rounds-cons s (received (some c)) (arrivals cs) e in
      ground (arith, gated_applies s c u g.0, applied_in_turn t cs s')

  -- The endpoint reads `frame` as the confirmation that the session is authenticated.
  abbrev pub Confirms : St → WsFrame → Type 0
  Confirms handler frame =
      (h.parse_frame (h.on_inbound_frame handler frame) frame).0
      ≡ ok (WsParseOutcome.message WsMessageAction.session_authenticated)

  abbrev pub confirmation : WsFrame → Input U
  confirmation frame = read (some (ok frame))

  abbrev after_frame : Session St U → WsFrame → Session St U
  after_frame s frame = record s {
    conn = record (s.conn) {
      handler = (h.parse_frame (h.on_inbound_frame (s.conn).handler frame) frame).1;
    };
  }

  round-confirmation :
      (s : Session St U) (frame : WsFrame)
      → Confirms (s.conn).handler frame
      → round h display s (confirmation frame)
        ≡ on_session_authenticated h display (after_frame s frame)
  unfolding round on_frame
  round-confirmation s frame e = rw e refl

  replayed : Session St U → Conn St
  replayed s = (replay_subscriptions h s.conn).1

  confirmed :
      (s t : Session St U)
      → on_session_authenticated h display s ≡ stays t
      → (apply_pending_auth_commands h (replayed s) s.pending_auth_commands ≡ (ok tt, t.conn, []))
        × (t ≡ record s { conn = t.conn; session_authenticated = true; pending_auth_commands = [] })
  unfolding on_session_authenticated replayed
  confirmed s t e =
      let (r, c, left) = apply_pending_auth_commands h (replayed s) s.pending_auth_commands in
      ground (arith, pending_done (replayed s) s.pending_auth_commands c left)

  confirmed_with_more :
      (s t : Session St U) (cs : List (ManagedWsCommand U)) (c : Conn St)
      → on_session_authenticated h display s ≡ stays t
      → apply_pending_auth_commands h t.conn cs ≡ (ok tt, c, [])
      → on_session_authenticated h display
          (record s { pending_auth_commands = s.pending_auth_commands ++ cs })
        ≡ stays (record t { conn = c })
  unfolding on_session_authenticated replayed
  confirmed_with_more s t cs c e f =
      let (done, shape) = confirmed s t e in
      ground
        (arith, done, shape, pending-append (replayed s) s.pending_auth_commands cs t.conn done)

  -- Deferring does no harm: sends and subscription updates that arrive before the confirmation end
  -- in the very state, frames written included, that they end in when they arrive right after it,
  -- if that run meets no failure.
  pub deferred_as_if_later :
      (s : Session St U) (cs : List (ManagedWsCommand U)) (frame : WsFrame) {s' : Session St U}
      → s.session_authenticated ≡ false
      → AllForPeer cs
      → Confirms (s.conn).handler frame
      → rounds h display s (confirmation frame ∷ arrivals cs) ≡ stays s'
      → rounds h display s (arrivals cs ++ confirmation frame ∷ []) ≡ stays s'
  deferred_as_if_later s cs frame {s'} u g k e =
      let (t, first, rest) = rounds-cons s (confirmation frame) (arrivals cs) e in
      let opened : on_session_authenticated h display (after_frame s frame) ≡ stays t =
        sym (round-confirmation s frame k) ∙ first in
      let (done, shape) = confirmed (after_frame s frame) t opened in
      let (applied, same) =
        applied_in_turn t cs s' (ap (λ (r : Session St U). r.session_authenticated) shape) g rest in
      let waiting : Session St U = record s {
        pending_auth_commands = s.pending_auth_commands ++ cs;
      } in
      rounds-append s (arrivals cs) (confirmation frame ∷ []) (rounds-gated s cs u g)
      ∙ rounds-singleton waiting (confirmation frame) (
          round-confirmation waiting frame k
          ∙ confirmed_with_more (after_frame s frame) t cs s'.conn opened applied
          ∙ ap stays (sym same))
