-- ===== src/Health/Samples.antt =====
-- What `record_rtt` puts into the latency histogram.
use shared_ws.Prelude.{
  ℕ, ◌+◌, ◌/◌, ◌≤◌, ◌≡◌, refl, ap, ◌∙◌, Bool, true, false, ◌&&◌, List, [], ◌∷◌, min, max, leb,
  if◌then◌else◌, arith, u64_max,
}
use shared_ws.Health.{Histogram, WsHealthMonitor, record_rtt, min_rtt_us, max_rtt_us}

-- Whole microseconds, brought into the bounds of the histogram.
abbrev pub clamp_us : ℕ → ℕ
clamp_us latency = max min_rtt_us (min max_rtt_us (latency / 1000))

abbrev pub in_bounds : ℕ → Bool
in_bounds latency = leb min_rtt_us (latency / 1000) && leb (latency / 1000) max_rtt_us

abbrev pub count_outside : List ℕ → ℕ
count_outside [] = 0
count_outside (latency ∷ rest) =
    let outside = count_outside rest in if in_bounds latency then outside else 1 + outside

-- A sample counted before the others or with them.
counted_sum :
    (c : ℕ) (inside : Bool) (others : ℕ)
    → min u64_max ((if inside then c else min u64_max (c + 1)) + others)
      ≡ min u64_max (c + (if inside then others else 1 + others))
counted_sum c true others = refl
counted_sum c false others = omega arith

module _ {H : Type 0} (histogram : Histogram H) where
  abbrev pub record_all : WsHealthMonitor H → List ℕ → WsHealthMonitor H
  record_all m [] = m
  record_all m (latency ∷ rest) = record_all (record_rtt histogram m latency) rest

  abbrev pub samples : H → List ℕ → H
  samples state [] = state
  samples state (latency ∷ rest) = samples (histogram.record_value state (clamp_us latency)) rest

  record_rtt_lem :
      (m : WsHealthMonitor H) (latency : ℕ)
      → record_rtt histogram m latency ≡ record m {
        latency_histogram = histogram.record_value m.latency_histogram (clamp_us latency);
        rtt_clamped_samples =
            if in_bounds latency
            then m.rtt_clamped_samples
            else min u64_max (m.rtt_clamped_samples + 1);
      }
  unfolding record_rtt
  record_rtt_lem m latency = ground arith

  -- Any round trips recorded one after another: the histogram gets each as whole microseconds brought
  -- into its bounds of 1 to 60,000,000, in order, and the clamped samples grow by the number of those
  -- out of bounds, up to `u64::MAX`; nothing else of the monitor changes.
  pub record_all_lem :
      (m : WsHealthMonitor H) (latencies : List ℕ)
      → m.rtt_clamped_samples ≤ u64_max
      → record_all m latencies ≡ record m {
        latency_histogram = samples m.latency_histogram latencies;
        rtt_clamped_samples = min u64_max (m.rtt_clamped_samples + count_outside latencies);
      }
  record_all_lem m [] h = ground arith
  record_all_lem m (latency ∷ rest) h =
      let m' : WsHealthMonitor H = record m {
        latency_histogram = histogram.record_value m.latency_histogram (clamp_us latency);
        rtt_clamped_samples =
            if in_bounds latency
            then m.rtt_clamped_samples
            else min u64_max (m.rtt_clamped_samples + 1);
      } in
      rw (record_rtt_lem m latency) (
        record_all_lem m' rest (ground arith)
        ∙ ap
            (λ n. record m {
              latency_histogram = samples m'.latency_histogram rest;
              rtt_clamped_samples = n;
            })
            (counted_sum m.rtt_clamped_samples (in_bounds latency) (count_outside rest)))
