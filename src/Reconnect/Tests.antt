-- ===== src/Reconnect/Tests.antt =====
-- The exponential backoff over numbers in place of floats: a factor is a number of halves.
use shared_ws.Prelude.{◌≤◌, ℕ, ◌*◌, ◌/◌, ◌≡◌, refl, true, [], ◌∷◌, ◌++◌, arith, ltb, min}
use shared_ws.Frame.{Bytes}
use shared_ws.Types.Basic.{err, WebSocketError, auth_gated}
use shared_ws.Managed.Loop.{Loop, waiting, connects, run, start, enter_connecting}
use shared_ws.Managed.Fixtures.{counting, display}
use shared_ws.Reconnect.{Floats, ExponentialBackoffReconnect, new, reset, exponential, grow}
use shared_ws.Reconnect.Delays.{failures, nth_delay, KeepsLimit, run_reset_delays}

abbrev halves : Floats ℕ
halves = record {
  is_finite = λ f. true;
  exceeds_one = λ f. ltb 2 f;
  one_and_a_half = 3;
  mul = λ d f. d * f / 2;
  min = λ a b. min a b;
  as_secs_f64 = λ d. d;
  from_secs_f64 = λ d. d;
}

abbrev doubling : ExponentialBackoffReconnect ℕ
doubling = record { base = 100; max = 500; factor = 4; current = 100; retry = true }

abbrev first : Loop ℕ Bytes (ExponentialBackoffReconnect ℕ)
first = start (counting auth_gated) (exponential halves) display 0 doubling

halves-KeepsLimit : KeepsLimit halves doubling
halves-KeepsLimit = (λ x. omega arith, λ d p. omega arith)

run_reset_delays_example :
    (d : ℕ) × ((run (counting auth_gated) (exponential halves) display first (
        failures WebSocketError.outbound_queue_full 3
        ++ connects (err WebSocketError.outbound_queue_full) ∷ [])).phase
      ≡ waiting d)
    × (d ≡ nth_delay (grow halves doubling) 100 3)
    × (d ≤ 500)
unfolding start enter_connecting reset
run_reset_delays_example =
    run_reset_delays (counting auth_gated) halves display (λ st cause. refl) first doubling
      WebSocketError.outbound_queue_full 3 refl refl refl halves-KeepsLimit (omega arith)
      (omega arith)

third_delay_is_capped : nth_delay (grow halves doubling) 100 3 ≡ 500
third_delay_is_capped = refl

-- A factor that is not above one is replaced.
factor_is_replaced : new halves 100 500 2 ≡ record doubling { factor = 3 }
unfolding new
factor_is_replaced = refl
