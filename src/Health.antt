-- ===== src/Health.antt =====
-- src/core/health.rs: `WsHealthMonitor`. A method that reads the clock takes what it reads, in
-- nanoseconds; a `&mut self` method returns the new monitor. Strings are their UTF-8 bytes.
pub mod Truncate
pub mod Samples
pub mod Errors
mod Tests
use shared_ws.Prelude.{
  ℕ, zero, suc, ◌-◌, ◌/◌, Bool, true, false, not, ◌&&◌, ◌||◌, Option, none, some, [], min, length,
  get_elem?, take, ltb, leb, ◌==◌, if◌then◌else◌, saturating_add, u64_max,
}
use shared_ws.Frame.{Bytes}
use shared_ws.Types.Basic.{ℤ}
use shared_ws.Circular.{CircularBuffer, push, len, new as empty_buffer, clear}

abbrev pub max_recent_errors : ℕ
max_recent_errors = 100

abbrev pub max_error_text_bytes : ℕ
max_error_text_bytes = 1024

abbrev pub min_rtt_us : ℕ
min_rtt_us = 1

abbrev pub max_rtt_us : ℕ
max_rtt_us = 60000000

-- The histogram of the `hdrhistogram` crate, over its state `H`; a percentile is 50 or 99. `fresh`
-- is `new_latency_histogram()`, and `record_value` what `record` leaves, whatever it returns.
pub record Histogram (H : Type 0) : Type 0 where
  pub fresh : H
  pub record_value : H → ℕ → H
  pub len : H → ℕ
  pub value_at_percentile : H → ℕ → ℕ

pub record ServerErrorRec : Type 0 where
  pub timestamp : ℕ
  pub code : Option ℤ
  pub text : Bytes

pub record InternalErrorRec : Type 0 where
  pub timestamp : ℕ
  pub context : Bytes
  pub text : Bytes

-- `str::is_char_boundary`
abbrev pub is_char_boundary : Bytes → ℕ → Bool
is_char_boundary s index =
    index == 0
    || index == length s
    || elim (get_elem? s index) [ none ↦ false | some b ↦ ltb b 0x80 || leb 0xc0 b ]

-- `while end > 0 && !s.is_char_boundary(end) { end -= 1 }`
unfoldable pub boundary_before : Bytes → ℕ → ℕ
boundary_before s zero = zero
boundary_before s (suc e) =
    let earlier = boundary_before s e in if is_char_boundary s (suc e) then suc e else earlier

unfoldable pub truncate_string : Bytes → Bytes
truncate_string s =
    if leb (length s) max_error_text_bytes
    then s
    else take (boundary_before s max_error_text_bytes) s

pub record WsHealthMonitor (H : Type 0) : Type 0 where
  pub connection_started : ℕ
  pub last_message_received : ℕ
  pub last_message_sent : ℕ
  pub stale_threshold : ℕ
  pub message_count : ℕ
  pub error_count : ℕ
  pub connect_attempts : ℕ
  pub connect_successes : ℕ
  pub reconnect_count : ℕ
  pub server_errors : CircularBuffer ServerErrorRec
  pub internal_errors : CircularBuffer InternalErrorRec
  pub latency_histogram : H
  pub rtt_clamped_samples : ℕ

pub record WsConnectionStats : Type 0 where
  pub uptime : ℕ
  pub messages : ℕ
  pub errors : ℕ
  pub connect_attempts : ℕ
  pub connect_successes : ℕ
  pub reconnects : ℕ
  pub last_message_age : ℕ
  pub recent_server_errors : ℕ
  pub recent_internal_errors : ℕ
  pub p50_latency_us : ℕ
  pub p99_latency_us : ℕ
  pub latency_samples : ℕ
  pub rtt_clamped_samples : ℕ

abbrev pub count : ℕ → ℕ
count n = saturating_add u64_max n 1

module _ {H : Type 0} (histogram : Histogram H) where
  unfoldable pub new : ℕ → ℕ → WsHealthMonitor H
  new stale_threshold now = record {
    connection_started = now;
    last_message_received = now;
    last_message_sent = now;
    stale_threshold = stale_threshold;
    message_count = 0;
    error_count = 0;
    connect_attempts = 0;
    connect_successes = 0;
    reconnect_count = 0;
    server_errors = empty_buffer max_recent_errors;
    internal_errors = empty_buffer max_recent_errors;
    latency_histogram = histogram.fresh;
    rtt_clamped_samples = 0;
  }

  unfoldable pub reset_connection : WsHealthMonitor H → ℕ → WsHealthMonitor H
  reset_connection m now = record m {
    connection_started = now;
    last_message_received = now;
    last_message_sent = now;
    message_count = 0;
    error_count = 0;
    server_errors = clear m.server_errors;
    internal_errors = clear m.internal_errors;
    latency_histogram = histogram.fresh;
    rtt_clamped_samples = 0;
  }

  -- `as_micros`, capped at `u64::MAX`, and clamped from below, then from above.
  unfoldable pub record_rtt : WsHealthMonitor H → ℕ → WsHealthMonitor H
  record_rtt m latency =
      let micros = min (latency / 1000) u64_max in
      let raised = if ltb micros min_rtt_us then min_rtt_us else micros in
      let lowered = if ltb max_rtt_us raised then max_rtt_us else raised in
      let clamped = ltb micros min_rtt_us || ltb max_rtt_us raised in
      record m {
        rtt_clamped_samples =
            if clamped then count m.rtt_clamped_samples else m.rtt_clamped_samples;
        latency_histogram = histogram.record_value m.latency_histogram lowered;
      }

  -- The two percentiles; without samples they are 0.
  unfoldable pub percentile : WsHealthMonitor H → ℕ → ℕ
  percentile m p =
      if histogram.len m.latency_histogram == 0
      then 0
      else min (histogram.value_at_percentile m.latency_histogram p) max_rtt_us

  unfoldable pub get_stats : WsHealthMonitor H → ℕ → WsConnectionStats
  unfolding percentile
  get_stats m now = record {
    uptime = now - m.connection_started;
    messages = m.message_count;
    errors = m.error_count;
    connect_attempts = m.connect_attempts;
    connect_successes = m.connect_successes;
    reconnects = m.reconnect_count;
    last_message_age = now - m.last_message_received;
    recent_server_errors = len m.server_errors;
    recent_internal_errors = len m.internal_errors;
    p50_latency_us = percentile m 50;
    p99_latency_us = percentile m 99;
    latency_samples = histogram.len m.latency_histogram;
    rtt_clamped_samples = m.rtt_clamped_samples;
  }

module _ {H : Type 0} where
  unfoldable pub record_connect_attempt : WsHealthMonitor H → WsHealthMonitor H
  record_connect_attempt m = record m { connect_attempts = count m.connect_attempts }

  unfoldable pub record_connect_success : WsHealthMonitor H → WsHealthMonitor H
  record_connect_success m = record m { connect_successes = count m.connect_successes }

  unfoldable pub record_message : WsHealthMonitor H → ℕ → WsHealthMonitor H
  record_message m now = record m {
    last_message_received = now;
    message_count = count m.message_count;
  }

  unfoldable pub record_inbound_frames : WsHealthMonitor H → ℕ → ℕ → WsHealthMonitor H
  record_inbound_frames m frames now = if frames == 0 then m else record m {
    last_message_received = now;
    message_count = saturating_add u64_max m.message_count frames;
  }

  unfoldable pub record_sent : WsHealthMonitor H → ℕ → WsHealthMonitor H
  record_sent m now = record m { last_message_sent = now }

  unfoldable pub record_error : WsHealthMonitor H → WsHealthMonitor H
  record_error m = record m { error_count = count m.error_count }

  unfoldable pub record_server_error : WsHealthMonitor H → Option ℤ → Bytes → ℕ → WsHealthMonitor H
  unfolding record_error
  record_server_error m code text now = record (record_error m) {
    server_errors =
        push m.server_errors (record { timestamp = now; code = code; text = truncate_string text });
  }

  unfoldable pub record_internal_error : WsHealthMonitor H → Bytes → Bytes → ℕ → WsHealthMonitor H
  unfolding record_error
  record_internal_error m context text now = record (record_error m) {
    internal_errors = push m.internal_errors (record {
      timestamp = now;
      context = truncate_string context;
      text = truncate_string text;
    });
  }

  unfoldable pub increment_reconnect : WsHealthMonitor H → WsHealthMonitor H
  increment_reconnect m = record m { reconnect_count = count m.reconnect_count }

  unfoldable pub is_stale : WsHealthMonitor H → ℕ → Bool
  is_stale m now = ltb m.stale_threshold (now - m.last_message_received)

  unfoldable pub clear_error_buffers : WsHealthMonitor H → WsHealthMonitor H
  clear_error_buffers m = record m {
    server_errors = clear m.server_errors;
    internal_errors = clear m.internal_errors;
  }
