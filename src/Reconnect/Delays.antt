-- ===== src/Reconnect/Delays.antt =====
-- The delays of a managed loop with the exponential backoff.
use Prim.Native.String.{String}
use shared_ws.Prelude.{
  ℕ, zero, suc, ◌<◌, ◌≤◌, ◌≡◌, refl, ◌∙◌, true, none, List, [], ◌∷◌, ◌++◌, arith,
}
use shared_ws.Types.Basic.{err, WebSocketError, WsDisconnectCause, backoff_reconnect}
use shared_ws.Types.Endpoint.{Endpoint}
use shared_ws.Managed.Loop.{
  connecting, waiting, Loop, Event, connects, wakes, enter_connecting, start_wait, reconnect_delay,
  disconnect, step_at, step, run, wait_goes_on,
}
use shared_ws.Reconnect.{
  Floats, ExponentialBackoffReconnect, grow, next_delay, reset, should_retry, exponential,
}

-- `n` attempts to connect that fail, each followed by its whole delay.
abbrev pub failures : {U : Type 0} → WebSocketError → ℕ → List (Event U)
failures e zero = []
failures e (suc n) = connects (err e) ∷ wakes none ∷ failures e n

-- `grow` applied `n` times.
abbrev pub nth_delay : (ℕ → ℕ) → ℕ → ℕ → ℕ
nth_delay grow first zero = first
nth_delay grow first (suc n) = nth_delay grow (grow first) n

module _ {F : Type 0} (floats : Floats F) where
  open floats use {mul, as_secs_f64, from_secs_f64}

  -- What the conversions do about a largest delay that a float stands for exactly: the least of a number and that delay, read
  -- back as a duration, is not above it, and is not zero where the number is that of a delay that is
  -- not zero, times the factor.
  abbrev pub KeepsLimit : ExponentialBackoffReconnect F → Type 0
  KeepsLimit r =
      ((x : F) → from_secs_f64 (floats.min x (as_secs_f64 r.max)) ≤ r.max)
      × ((d : ℕ)
          → 0 < d
          → 0 < from_secs_f64 (floats.min (mul (as_secs_f64 d) r.factor) (as_secs_f64 r.max)))

  nth_delay-le :
      (r : ExponentialBackoffReconnect F) (n d : ℕ)
      → KeepsLimit r
      → d ≤ r.max
      → nth_delay (grow floats r) d n ≤ r.max
  nth_delay-le r zero d k l = l
  nth_delay-le r (suc n) d k l = nth_delay-le r n (grow floats r d) k (k.0 _)

module _ {St M U J F : Type 0} (h : Endpoint St M U J) (floats : Floats F)
    (display : WebSocketError → String)
    (backs_off : (st : St) (cause : WsDisconnectCause)
      → h.classify_disconnect st cause ≡ backoff_reconnect) where
  fails_once :
      (l : Loop St U (ExponentialBackoffReconnect F)) (r : ExponentialBackoffReconnect F)
      (e : WebSocketError)
      → l.phase ≡ connecting
      → l.reconnect ≡ r
      → r.retry ≡ true
      → 0 < r.current
      → ((step h (exponential floats) display l (connects (err e))).phase ≡ waiting r.current)
        × ((step h (exponential floats) display l (connects (err e))).reconnect
            ≡ record r { current = grow floats r r.current })
  unfolding step step_at disconnect start_wait reconnect_delay exponential next_delay should_retry
  fails_once l r e p q t c = ground (
    arith,
    p,
    q,
    t,
    c,
    backs_off l.handler (WsDisconnectCause.internal_error "connect" (display e)),
  )

  waits_once :
      (l : Loop St U (ExponentialBackoffReconnect F)) (d : ℕ)
      → l.phase ≡ waiting d
      → ((step h (exponential floats) display l (wakes none)).phase ≡ connecting)
        × ((step h (exponential floats) display l (wakes none)).reconnect ≡ l.reconnect)
  unfolding step step_at wait_goes_on enter_connecting
  waits_once l d p = ground (arith, p)

  run_delays :
      (l : Loop St U (ExponentialBackoffReconnect F)) (r : ExponentialBackoffReconnect F)
      (e : WebSocketError) (n : ℕ)
      → l.phase ≡ connecting
      → l.reconnect ≡ r
      → r.retry ≡ true
      → ((d : ℕ) → 0 < d → 0 < grow floats r d)
      → 0 < r.current
      → (run h (exponential floats) display l (failures e n ++ connects (err e) ∷ [])).phase
        ≡ waiting (nth_delay (grow floats r) r.current n)
  unfolding run
  run_delays l r e zero p q t g c = (fails_once l r e p q t c).0
  run_delays l r e (suc n) p q t g c =
      let failed = step h (exponential floats) display l (connects (err e)) in
      let (phase, reconnect) = fails_once l r e p q t c in
      let (again, kept) = waits_once failed r.current phase in
      run_delays (step h (exponential floats) display failed (wakes none))
        (record r { current = grow floats r r.current }) e n again (kept ∙ reconnect) t g
        (g r.current c)

  -- A loop that is about to connect, with the exponential backoff as it is made or reset, waits
  -- after the attempt that follows `n` failed ones, each with its whole delay, for the base delay
  -- grown `n` times, and never for more than the largest delay. This is for an endpoint that wants
  -- to back off, a backoff that is not aborted, a base delay that is not zero nor above the largest,
  -- and floating-point operations that keep the limit: the least of a number and the largest delay
  -- reads back as no more than that delay, and a delay that grows does not become zero.
  pub run_reset_delays :
      (l : Loop St U (ExponentialBackoffReconnect F)) (r : ExponentialBackoffReconnect F)
      (e : WebSocketError) (n : ℕ)
      → l.phase ≡ connecting
      → l.reconnect ≡ reset r
      → r.retry ≡ true
      → KeepsLimit floats r
      → 0 < r.base
      → r.base ≤ r.max
      → (d : ℕ) × ((run h
            (exponential floats)
            display
            l
            (failures e n ++ connects (err e) ∷ [])).phase
          ≡ waiting d)
        × (d ≡ nth_delay (grow floats r) r.base n)
        × (d ≤ r.max)
  unfolding reset
  run_reset_delays l r e n p q t k c b = (
    nth_delay (grow floats r) r.base n,
    run_delays l (reset r) e n p q t k.1 c,
    refl,
    nth_delay-le floats r n r.base k b,
  )
