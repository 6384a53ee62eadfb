-- ===== src/Lib.antt =====
-- Verification of shared-ws, a Rust library for websocket clients and servers.
--
-- The program's parts. A managed client (src/ws/managed.rs) keeps one logical connection over many
-- sockets: it connects, authenticates, replays subscriptions, serves commands and frames, and
-- reconnects after a delay. What a frame means, when to reconnect and with which delay is an
-- application's, through the traits of src/core/types.rs. A second loop of the same file adds a
-- ping strategy (src/core/ping.rs) and a health monitor (src/core/health.rs), whose lists of recent
-- errors are circular buffers (src/core/circular_buffer.rs). Beside them stand a circuit breaker
-- (src/core/connection_policy.rs), the frames (src/core/frame.rs), a backoff, a gate on live
-- connections and adapters to transports. A server (src/ws/server) binds a listener, admits
-- connections up to a limit and runs a handler on each.
--
-- Which file models what.
--   Prelude        what the files share: tests and saturating sums on native numbers, lists
--   Types          src/core/types.rs: errors, causes, actions; the traits WsEndpointHandler and
--                  WsSubscriptionManager as the record Endpoint, WsReconnectStrategy as
--                  ReconnectStrategy, the default methods (Types/Defaults),
--                  WsIngress (Types/Ingress), and the requests of src/ws/delegated.rs
--                  (Types/Delegated)
--   Frame          src/core/frame.rs: WsFrame, into_ws_frame, the validity of UTF-8 (Frame/Utf8)
--   Circular       src/core/circular_buffer.rs: CircularBuffer, one function per method
--   Breaker        src/core/connection_policy.rs: WsCircuitBreaker, one function per method
--   Ping           src/core/ping.rs: WsPingPongStrategy and its three implementations
--   Health         src/core/health.rs: WsHealthMonitor, one function per method
--   Reconnect      src/core/reconnect.rs: ExponentialBackoffReconnect, as a ReconnectStrategy
--   Managed        src/ws/managed.rs: the helpers that write to the socket (Managed/Io), the
--                  `select!` loop of run_managed_ws_loop (Managed/Session), its connection lifecycle
--                  (Managed/Loop), the handle of the spawned loop (Managed/Handle), and which errors
--                  are an expected disconnect (Managed/Expected)
--   Checked        src/ws/managed.rs: run_health_checked_managed_ws_loop, in the same two parts
--                  (Checked/Session, Checked/Loop)
--   Server         src/ws/server: the configuration and the retry policy (Server/Config), run_server
--                  with its accept loop and what the handle shows of it (Server/Lifecycle), what
--                  run_connection does on one connection (Server/Connection, with the frame batches
--                  of Server/Batch), the methods of the handle (Server/Handle), and the lifecycle, the tasks of
--                  the connections and their commands, interleaved (Server/System)
--   Text           `str::trim`, on code points
--   FixturePolicy  src/fixture_policy.rs: the gate on live websockets and the validator
--   Fixture        src/fixture.rs: WsFixture, read and write
--   Testing        src/testing.rs: how a JSON-RPC response is matched with its request, the mock
--                  transports (Testing/Mock), over the channels of Testing/Channel, and the
--                  endpoint and the strategy for tests (Testing/Doubles)
--   Transport      src/transport/tungstenite.rs and src/client.rs: the conversions of messages,
--                  the gated connect, and the client without the gate (Transport/Client)
--   Keepalive      src/core/ping.rs, the adapters and src/ws/server/runtime.rs together: a ping and
--                  its answer
-- The other files of a part hold its theorems, and its Tests the runs on small inputs.
--
-- How the code is read. A `&mut self` method is a function to the new state, beside its result. An
-- async loop is a step function: the state has the await at which the loop stands (Phase), an event
-- is what the await yields, and a step is what the code does up to the next await that yields to
-- the environment. A write to the socket is not such an await: the sink's answer, a function of the
-- frames written before, is part of the connection. A run is a fold over a list of events, so the
-- order in which `select!` takes its branches is the order of the list, and no fuel is needed; the
-- loops inside a step are structural recursions. Instants and durations are nanoseconds, a method
-- that reads the clock takes the instant, and in a run each event has one. Counters saturate at the
-- largest value of their type; the server's failures and connection ids wrap. The answer to a bind
-- is an event too, and so is the second of the two writes by which the server ends as `Terminal`,
-- since its handle may read between them. A server's connection runs over a list of polls of its `select!`, each with the
-- branches that are ready; beside the others it moves by a relation of steps (Server/System), of
-- which one is a poll with all that the code does about the branch it takes. A HashMap is a list of
-- entries, of which the code asks only the size, a key and the least instant.
--
-- What is a parameter: the application's endpoint and backoff, the ping closures, the `to_string`
-- of an error, the handler of a server's connection, the histogram of the hdrhistogram crate, the
-- position at which a VecDeque wraps, what the transport and the command channel yield, the
-- environment and the file system, the operations on floats and the random factor of the jitter,
-- the JSON libraries, the channels of the mock transports, and tungstenite with its close codes.
-- What a theorem needs of them is a hypothesis.
--
-- What is not modelled: the latency policy of src/core/types.rs, tungstenite and TLS behind the adapters
-- (src/transport, src/client.rs, src/tls.rs), and the benches and the example. That a task is
-- spawned, joined or aborted is the runtime's; a server's connection that is aborted stays where it
-- stands.
mod Prelude
pub mod Circular
pub mod Breaker
pub mod Frame
pub mod Types
pub mod Managed
pub mod Ping
pub mod Health
pub mod Checked
pub mod Server
pub mod Text
pub mod FixturePolicy
pub mod Fixture
pub mod Transport
pub mod Testing
pub mod Reconnect
pub mod Keepalive
