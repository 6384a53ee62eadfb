-- ===== src/Managed/Tests.antt =====
-- The managed loop on a small endpoint: one subscription, an auth payload, and frames that confirm
-- the session (1), ask for a reconnect (2) or carry a message (any other byte).
use Prim.Native.String.{String}
use shared_ws.Prelude.{ℕ, inl, true, false, none, some, ◌≡◌, ◌≢◌, refl, List, [], ◌∷◌, arith, ltb}
use shared_ws.Frame.{Bytes, WsFrame, text, into_ws_frame}
use shared_ws.Frame.Utf8.{is_utf8}
use shared_ws.Types.Basic.{
  Result, ok, err, WebSocketError, WsMessageAction, WsParseOutcome, WsSubscriptionAction, is_public,
  auth_gated,
}
use shared_ws.Managed.Io.{
  ManagedWsCommand, ws_status_from_u8, write_frame, send_payload, send_subscriptions,
  replay_subscriptions, apply_command, apply_pending_auth_commands, send_subscription_updates,
  command_requires_auth, ws_status_to_u8,
}
use shared_ws.Managed.Session.{
  Session, stays, received, read, rounds, round, on_command, on_frame, on_action,
  on_session_authenticated,
}
use shared_ws.Managed.Loop.{
  Loop, Phase, session, waiting, stopped, Event, connects, selects, wakes, run, start, step,
  step_at, enter_connecting, open_session, disconnect, reconnect_delay, after_round, wait_goes_on,
}
use shared_ws.Managed.Status.{status_of, run-status_of}
use shared_ws.Managed.Persistence.{AlwaysReconnects, run_goes_on}
use shared_ws.Managed.GivesUp.{IsOneLife, run-start-IsOneLife}
use shared_ws.Testing.Doubles.{no_reconnect, json_rpc_endpoint}
use shared_ws.Managed.Deferral.{confirmation, arrivals, rounds-gated, deferred_as_if_later}
use shared_ws.Managed.Reconnects.{attempts, is_reconnect-attempts, wakes-command}
use shared_ws.Managed.Pending.{Extends, run-Extends}
use shared_ws.Managed.Fixtures.{
  byte_of, meaning, counting, fast_reconnect, display, takes_all, raw, hello,
}
use shared_ws.Managed.Writes.{open_session_writes}
use shared_ws.Managed.Expected.{is_expected_ws_disconnect, to_ascii_lowercase, to_lower}
use shared_ws.Text.{codes}

abbrev first : Loop ℕ Bytes (Unit {0})
first = start (counting auth_gated) fast_reconnect display 0 tt

-- Connect, queue a command, lose the socket, wait, connect again.
abbrev script : List (Event Bytes)
script =
    connects (ok takes_all)
    ∷ selects (received (some raw))
    ∷ selects (read none)
    ∷ wakes none
    ∷ connects (ok takes_all)
    ∷ []

abbrev last_writer : Phase → List WsFrame
last_writer (session _ w) = w.written
last_writer _ = []

-- Only the auth payload has been written on the second connection, and the command still waits.
run-script :
    let l = run (counting auth_gated) fast_reconnect display first script in
    (last_writer l.phase ≡ text (65 ∷ []) ∷ [])
    × (l.pending_auth_commands ≡ raw ∷ [])
    × (l.is_reconnect ≡ true)
unfolding run step step_at start enter_connecting open_session disconnect after_round round
    on_command send_payload write_frame command_requires_auth reconnect_delay into_ws_frame is_utf8
    wait_goes_on
run-script = (refl, refl, refl)

run-status_of_example :
    let l = run (counting auth_gated) fast_reconnect display first script in
    ws_status_from_u8 l.status ≡ status_of l.phase
run-status_of_example = run-status_of (counting auth_gated) fast_reconnect display 0 tt script

abbrev parsed : WsMessageAction ℕ → Result String (WsParseOutcome ℕ (Unit {0}))
parsed action = ok (WsParseOutcome.message action)

never_means_shutdown : (b : ℕ) → parsed (meaning b) ≢ parsed WsMessageAction.shutdown
never_means_shutdown b = ground arith

counting-AlwaysReconnects : AlwaysReconnects (counting auth_gated) fast_reconnect
counting-AlwaysReconnects = record {
  never_aborts = λ st cause e. cc;
  never_shuts_down = λ st frame. never_means_shutdown (byte_of frame);
  retries = λ r. refl;
}

run_goes_on_example :
    (run (counting auth_gated) fast_reconnect display first script).phase ≢ stopped
unfolding start enter_connecting
run_goes_on_example =
    run_goes_on (counting auth_gated) fast_reconnect display counting-AlwaysReconnects first script
      (λ e. cc) (tt, (refl, (tt, (tt, (tt, tt)))))

-- A session in which the auth payload has been sent.
abbrev waiting_session : Session ℕ Bytes
waiting_session = record {
  conn = record {
    handler = 0;
    writer = record { sink = takes_all; written = text (65 ∷ []) ∷ [] };
  };
  session_authenticated = false;
  pending_auth_commands = [];
}

abbrev confirmed_session : Session ℕ Bytes
confirmed_session = record {
  conn = record {
    handler = 0;
    writer = record {
      sink = takes_all;
      written = text (65 ∷ []) ∷ text (83 ∷ []) ∷ text (82 ∷ []) ∷ text (84 ∷ []) ∷ [];
    };
  };
  session_authenticated = true;
  pending_auth_commands = [];
}

abbrev update : ManagedWsCommand Bytes
update = ManagedWsCommand.update_subscriptions WsSubscriptionAction.clear

rounds-gated_example :
    rounds (counting auth_gated) display waiting_session (arrivals (raw ∷ update ∷ []))
    ≡ stays (record waiting_session { pending_auth_commands = raw ∷ update ∷ [] })
rounds-gated_example =
    rounds-gated (counting auth_gated) display waiting_session (raw ∷ update ∷ []) refl
      (tt, (tt, tt))

deferred_as_if_later_example :
    rounds (counting auth_gated) display waiting_session (
      received (some raw)
      ∷ received (some update)
      ∷ confirmation (counting auth_gated) display hello
      ∷ [])
    ≡ stays confirmed_session
unfolding rounds round on_command on_frame on_action on_session_authenticated replay_subscriptions
    send_subscriptions send_payload write_frame command_requires_auth apply_command
    apply_pending_auth_commands send_subscription_updates into_ws_frame is_utf8
deferred_as_if_later_example =
    deferred_as_if_later (counting auth_gated) display waiting_session (raw ∷ update ∷ []) hello
      refl (tt, (tt, tt)) refl refl

is_reconnect-attempts_example :
    (run
      (counting auth_gated)
      fast_reconnect
      display
      first
      (connects (err WebSocketError.outbound_queue_full) ∷ wakes none ∷ [])).is_reconnect
    ≡ ltb 0 (
        attempts
          (counting auth_gated)
          fast_reconnect
          display
          first
          (connects (err WebSocketError.outbound_queue_full) ∷ wakes none ∷ []))
unfolding run step step_at start enter_connecting disconnect reconnect_delay wait_goes_on
is_reconnect-attempts_example =
    is_reconnect-attempts (counting auth_gated) fast_reconnect display 0 tt
      (connects (err WebSocketError.outbound_queue_full) ∷ wakes none ∷ []) refl

wakes-command_example :
    step
      (counting auth_gated)
      fast_reconnect
      display
      (record first { phase = waiting 5 })
      (wakes (some (some raw)))
    ≡ step
        (counting auth_gated)
        fast_reconnect
        display
        (record first { phase = waiting 5 })
        (wakes none)
unfolding start enter_connecting
wakes-command_example =
    wakes-command (counting auth_gated) fast_reconnect display (record first { phase = waiting 5 })
      raw refl refl

run-Extends_example :
    Extends first.pending_auth_commands
      (run (counting auth_gated) fast_reconnect display first script).pending_auth_commands
run-Extends_example =
    run-Extends (counting auth_gated) display fast_reconnect first script
      (tt, (tt, (tt, (tt, (tt, tt)))))

open_session_writes_example :
    open_session (counting is_public) fast_reconnect display first takes_all ≡ record first {
      phase =
          session true
            (record { sink = takes_all; written = text (65 ∷ []) ∷ text (83 ∷ []) ∷ [] });
      handler = 0;
      status = 1;
    }
unfolding start enter_connecting into_ws_frame is_utf8 ws_status_to_u8
open_session_writes_example =
    open_session_writes (counting is_public) fast_reconnect display first takes_all
      (λ history frame. refl)

broken_pipe_is_expected :
    is_expected_ws_disconnect (codes "IO error: Broken pipe (os error 32)") ≡ true
unfolding is_expected_ws_disconnect to_ascii_lowercase to_lower
broken_pipe_is_expected = refl

-- A socket that closes, and what would be another connection.
abbrev once : List (Event (Unit {0}))
once = connects (ok takes_all) ∷ selects (read none) ∷ wakes none ∷ connects (ok takes_all) ∷ []

run-start-IsOneLife_example : IsOneLife true (
    run
      (json_rpc_endpoint Bytes)
      no_reconnect
      display
      (start (json_rpc_endpoint Bytes) no_reconnect display tt tt)
      once)
run-start-IsOneLife_example =
    run-start-IsOneLife (json_rpc_endpoint Bytes) no_reconnect display (λ st cause r. inl refl) tt
      tt once
