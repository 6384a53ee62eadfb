-- ===== src/Managed/Fixtures.antt =====
-- An endpoint, a backoff and a socket for the tests of the managed loops.
use Prim.Native.String.{String}
use shared_ws.Prelude.{ℕ, ◌+◌, none, some, [], ◌∷◌, ◌==◌, if◌then◌else◌, true}
use shared_ws.Frame.{Bytes, WsFrame, text}
use shared_ws.Types.Basic.{
  ok, WebSocketError, WsMessageAction, WsParseOutcome, WsErrorAction, backoff_reconnect,
  WsSessionMode,
}
use shared_ws.Types.Endpoint.{Endpoint}
use shared_ws.Types.Strategy.{ReconnectStrategy}
use shared_ws.Managed.Io.{ManagedWsCommand, Sink}

abbrev pub byte_of : WsFrame → ℕ
byte_of (text (b ∷ _)) = b
byte_of _ = 0

abbrev pub meaning : ℕ → WsMessageAction ℕ
meaning b =
    if b == 1
    then WsMessageAction.session_authenticated
    else if b == 2
    then WsMessageAction.reconnect "asked"
    else WsMessageAction.process b

-- The state is the sum of the messages.
abbrev pub counting : WsSessionMode → Endpoint ℕ ℕ Bytes (Unit {0})
counting mode = record {
  initial_subscriptions = λ st. ((83 ∷ []) ∷ [], st);
  update_subscriptions = λ st action. (ok ((84 ∷ []) ∷ []), st);
  serialize_subscription = λ st u. (u, st);
  generate_auth = λ st. some (65 ∷ []);
  parse_frame = λ st frame. (ok (WsParseOutcome.message (meaning (byte_of frame))), st);
  handle_message = λ st m. (ok tt, st + m);
  handle_server_error = λ st code text value. (WsErrorAction.continue, st);
  reset_state = λ st. st;
  classify_disconnect = λ st cause. backoff_reconnect;
  session_mode = λ st. mode;
  on_open = λ st. st;
  on_connection_opened = λ st again. (none, st);
  on_connection_disconnected = λ st cause again. (none, st);
  on_inbound_frame = λ st frame. st;
  on_outbound_frame = λ st frame. st;
}

-- A constant delay of 5 ms, as in the repository's own tests.
abbrev pub fast_reconnect : ReconnectStrategy (Unit {0})
fast_reconnect = record { next_delay = λ r. (5000000, r); reset = λ r. r; should_retry = λ r. true }

abbrev pub display : WebSocketError → String
display e = "error"

abbrev pub takes_all : Sink
takes_all history frame = none

abbrev pub raw : ManagedWsCommand Bytes
raw = ManagedWsCommand.send (82 ∷ [])

abbrev pub hello : WsFrame
hello = text (1 ∷ [])
