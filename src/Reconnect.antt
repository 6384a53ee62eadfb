-- ===== src/Reconnect.antt =====
-- src/core/reconnect.rs: the exponential backoff. Its floating-point operations are parameters; that
-- `Duration::from_secs_f64` panics outside the range of a duration is not modelled.
pub mod Delays
mod Tests
use shared_ws.Prelude.{ℕ, Bool, true, false, ◌&&◌, if◌then◌else◌}
use shared_ws.Types.Strategy.{ReconnectStrategy}

-- `f64`, with `is_finite`, `> 1.0`, the literal 1.5, and the conversions of a duration.
pub record Floats (F : Type 0) : Type 0 where
  pub is_finite : F → Bool
  pub exceeds_one : F → Bool
  pub one_and_a_half : F
  pub mul : F → F → F
  pub min : F → F → F
  pub as_secs_f64 : ℕ → F
  pub from_secs_f64 : F → ℕ

pub record ExponentialBackoffReconnect (F : Type 0) : Type 0 where
  pub base : ℕ
  pub max : ℕ
  pub factor : F
  pub current : ℕ
  pub retry : Bool

module _ {F : Type 0} (floats : Floats F) where
  open floats use {is_finite, exceeds_one, one_and_a_half, mul, as_secs_f64, from_secs_f64}

  unfoldable pub new : ℕ → ℕ → F → ExponentialBackoffReconnect F
  new base max factor = record {
    base = base;
    max = max;
    factor = if is_finite factor && exceeds_one factor then factor else one_and_a_half;
    current = base;
    retry = true;
  }

  -- Durations of 1 and 30 seconds.
  unfoldable pub default_backoff : ExponentialBackoffReconnect F
  unfolding new
  default_backoff = new 1000000000 30000000000 one_and_a_half

  -- The delay after one of `current`.
  abbrev pub grow : ExponentialBackoffReconnect F → ℕ → ℕ
  grow r current =
      from_secs_f64 (floats.min (mul (as_secs_f64 current) r.factor) (as_secs_f64 r.max))

  unfoldable pub next_delay : ExponentialBackoffReconnect F → ℕ × ExponentialBackoffReconnect F
  next_delay r = (r.current, record r { current = grow r r.current })

module _ {F : Type 0} where
  unfoldable pub abort : ExponentialBackoffReconnect F → ExponentialBackoffReconnect F
  abort r = record r { retry = false }

  unfoldable pub reset : ExponentialBackoffReconnect F → ExponentialBackoffReconnect F
  reset r = record r { current = r.base }

  unfoldable pub should_retry : ExponentialBackoffReconnect F → Bool
  should_retry r = r.retry

-- The strategy that the managed loops take.
unfoldable pub exponential :
    {F : Type 0} → Floats F → ReconnectStrategy (ExponentialBackoffReconnect F)
unfolding next_delay reset should_retry
exponential floats = record {
  next_delay = next_delay floats;
  reset = reset;
  should_retry = should_retry;
}
