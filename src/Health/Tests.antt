-- ===== src/Health/Tests.antt =====
-- The health monitor on small inputs.
use shared_ws.Prelude.{
  ℕ, zero, suc, ◌≤◌, ◌<◌, ◌≡◌, ◌⊎◌, refl, true, some, List, [], ◌∷◌, take, length,
}
use shared_ws.Frame.{Bytes}
use shared_ws.Frame.Utf8.{is_utf8}
use shared_ws.Types.Basic.{pos}
use shared_ws.Health.{Histogram, WsHealthMonitor, new, record_rtt, truncate_string}
use shared_ws.Health.Truncate.{truncate_string_lem}
use shared_ws.Health.Samples.{record_all}
use shared_ws.Health.Errors.{ErrorEvent, server, internal}

-- A histogram that keeps its samples, newest first; the percentile is the newest.
abbrev list_histogram : Histogram (List ℕ)
list_histogram = record {
  fresh = [];
  record_value = λ samples x. x ∷ samples;
  len = length;
  value_at_percentile = λ samples p. elim samples [ [] ↦ 0 | x ∷ _ ↦ x ];
}

-- Euro signs.
abbrev euros : ℕ → Bytes
euros zero = []
euros (suc n) = 0xe2 ∷ 0x82 ∷ 0xac ∷ euros n

euros-is_utf8 : is_utf8 (euros 350) ≡ true
unfolding is_utf8
euros-is_utf8 = refl

-- 1050 bytes, of which 1023 are kept.
truncate_string_lem_example :
    (is_utf8 (truncate_string (euros 350)) ≡ true)
    × (truncate_string (euros 350) ≡ take (length (truncate_string (euros 350))) (euros 350))
    × (length (truncate_string (euros 350)) ≤ 1024)
    × ((truncate_string (euros 350) ≡ euros 350)
        ⊎ ((1024 < length (euros 350)) × (1021 ≤ length (truncate_string (euros 350)))))
truncate_string_lem_example = truncate_string_lem (euros 350) euros-is_utf8

abbrev fresh_monitor : WsHealthMonitor (List ℕ)
fresh_monitor = new list_histogram 30 7

-- 500 ns, 2 ms and 2 min: the first and the last are clamped.
clamps_two :
    record_all list_histogram fresh_monitor (500 ∷ 2000000 ∷ 120000000000 ∷ [])
    ≡ record fresh_monitor { latency_histogram = 60000000 ∷ 2000 ∷ 1 ∷ []; rtt_clamped_samples = 2 }
unfolding new record_rtt
clamps_two = refl

abbrev errors : List ErrorEvent
errors = server 8 (some (pos 3)) (65 ∷ []) ∷ internal 9 (66 ∷ []) (67 ∷ []) ∷ []
