-- ===== src/Checked/Tests.antt =====
-- The health-checked loop on small inputs.
use Prim.Native.String.{String}
use shared_ws.Prelude.{ℕ, suc, true, ◌≡◌, refl, none, some, List, [], ◌∷◌, arith}
use shared_ws.Frame.{Bytes}
use shared_ws.Types.Basic.{ok, auth_gated, WsDisconnectCause}
use shared_ws.Ping.Protocol.{ProtocolPingPong, protocol, create_ping, new as new_protocol}
use shared_ws.Ping.ServerDriven.{ServerDrivenProtocolPingPong, server_driven}
use shared_ws.Ping.Answers.{handle_all}
use shared_ws.Health.{
  Histogram, new, is_stale, reset_connection, record_connect_success, record_connect_attempt,
}
use shared_ws.Managed.Io.{send_payload, command_requires_auth}
use shared_ws.Managed.Session.{Session, breaks}
use shared_ws.Managed.Loop as PlainLoop
use shared_ws.Managed.Fixtures.{counting, fast_reconnect, display, takes_all, hello, raw}
use shared_ws.Checked.Session.{RequiredWsHealth, received, ticks, read, on_tick, round, on_command}
use shared_ws.Checked.Loop.{
  CheckedLoop, Event, connects, selects, run, start_checked, step, step_at,
}
use shared_ws.Checked.Plain.{plain_events, run-plain_events}
use shared_ws.Checked.PlainRound.{IsQuiet}
use shared_ws.Checked.Rounds.{on_tick-timeout}
use shared_ws.Checked.Counts.{counters}
use shared_ws.Checked.Connections.{IsOrdered, run-start-IsOrdered}

abbrev count_histogram : Histogram ℕ
count_histogram = record {
  fresh = 0;
  record_value = λ n x. suc n;
  len = λ n. n;
  value_at_percentile = λ n p. 0;
}

abbrev no_utf8 : String → Bytes
no_utf8 s = []

abbrev quiet : RequiredWsHealth ServerDrivenProtocolPingPong ℕ
quiet = record { ping_pong = record { check_interval = 20 }; monitor = new count_histogram 100 0 }

server_driven-IsQuiet : IsQuiet server_driven
unfolding server_driven
server_driven-IsQuiet = record { no_ping = λ p a b. refl; never_stale = λ p now. refl }

abbrev first : CheckedLoop ℕ Bytes (Unit {0}) ServerDrivenProtocolPingPong ℕ
first =
    start_checked (counting auth_gated) fast_reconnect server_driven count_histogram display no_utf8
      0 tt quiet

-- Connect, queue a command, let a tick pass, authenticate, lose the socket.
abbrev script : List (ℕ × Event Bytes)
script =
    (1, connects (ok takes_all))
    ∷ (2, selects (received (some raw)))
    ∷ (20, selects ticks)
    ∷ (21, selects (read (some (ok hello))))
    ∷ (22, selects (read none))
    ∷ []

run-plain_events_example :
    (run
      (counting auth_gated)
      fast_reconnect
      server_driven
      count_histogram
      display
      no_utf8
      first
      script).loop
    ≡ PlainLoop.run (counting auth_gated) fast_reconnect display first.loop (plain_events script)
unfolding is_stale step step_at start_checked PlainLoop.start PlainLoop.enter_connecting
    send_payload round on_command command_requires_auth reset_connection record_connect_success
    record_connect_attempt new server_driven
run-plain_events_example =
    run-plain_events (counting auth_gated) fast_reconnect server_driven count_histogram display
      no_utf8 first script server_driven-IsQuiet (tt, (tt, (refl, (refl, (tt, tt)))))

abbrev pinged : ProtocolPingPong
pinged = new_protocol 5 8

abbrev health : ProtocolPingPong → RequiredWsHealth ProtocolPingPong ℕ
health p = record { ping_pong = p; monitor = new count_histogram 100 0 }

abbrev opened : Session ℕ Bytes
opened = record {
  conn = record { handler = 0; writer = record { sink = takes_all; written = [] } };
  session_authenticated = true;
  pending_auth_commands = [];
}

-- A ping at 10 and no pong by 19, with a timeout of 8.
on_tick-timeout_example :
    on_tick
      (counting auth_gated)
      protocol
      count_histogram
      display
      no_utf8
      19
      opened
      (health (handle_all (create_ping pinged 10).1 ((12, hello) ∷ [])))
    ≡ (
      breaks WsDisconnectCause.pong_timeout opened,
      health (handle_all (create_ping pinged 10).1 ((12, hello) ∷ [])),
    )
unfolding new_protocol
on_tick-timeout_example =
    on_tick-timeout (counting auth_gated) count_histogram display no_utf8 19 opened
      (health (handle_all (create_ping pinged 10).1 ((12, hello) ∷ []))) pinged 10
      ((12, hello) ∷ []) refl tt (omega arith, tt)

run-start-IsOrdered_example :
    IsOrdered
      (run
        (counting auth_gated)
        fast_reconnect
        server_driven
        count_histogram
        display
        no_utf8
        first
        script).loop.phase
      (run
        (counting auth_gated)
        fast_reconnect
        server_driven
        count_histogram
        display
        no_utf8
        first
        script).counts
      (counters
        (run
          (counting auth_gated)
          fast_reconnect
          server_driven
          count_histogram
          display
          no_utf8
          first
          script).health)
run-start-IsOrdered_example =
    run-start-IsOrdered (counting auth_gated) fast_reconnect server_driven count_histogram display
      no_utf8 0 tt (record { check_interval = 20 }) 100 0 script
