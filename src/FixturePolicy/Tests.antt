-- ===== src/FixturePolicy/Tests.antt =====
-- The gate on small inputs.
use Prim.Native.String.{String}
use text.Mathlib.Text.{◌==◌}
use shared_ws.Prelude.{◌≡◌, ◌≢◌, refl, ◌⊎◌, ◌↔◌, true, none, some, List, [], ◌∷◌, if◌then◌else◌}
use shared_ws.Types.Basic.{ok}
use shared_ws.Text.{trim, trim_start, trim_end, is_whitespace}
use shared_ws.FixturePolicy.{
  WsFixtureRequirement, Host, env_truthy, fixture_capture_mode_enabled,
  live_without_fixtures_allowed, ensure_live_ws_allowed, validate_required_ws_contracts, is_truthy,
}
use shared_ws.FixturePolicy.Gate.{AllCaptured, ensure_live_ws_allowed_lem}

-- Every file is one and the same fixture, whose values are named by their keys.
abbrev field_text : String → String
field_text key = if key == "source" then "live_capture" else "curl"

abbrev host : Host String
host = record {
  env_var = λ name. if name == "SHARED_WS_FIXTURE_CAPTURE_MODE" then some " yes\n" else none;
  read_file = λ path. ok [];
  path_exists = λ path. true;
  from_slice = λ bytes. ok "root";
  get = λ root key. some key;
  as_str = λ key. some (field_text key);
  as_u64 = λ key. some 5;
}

abbrev contracts : List WsFixtureRequirement
contracts =
    record { contract_id = "a"; success_path = "a.json"; error_path = some "a-error.json" }
    ∷ record { contract_id = "b"; success_path = "b.json"; error_path = none }
    ∷ []

capture_mode_is_trimmed : fixture_capture_mode_enabled host ≡ true
unfolding fixture_capture_mode_enabled env_truthy is_truthy trim trim_start trim_end is_whitespace
capture_mode_is_trimmed = refl

ensure_live_ws_allowed_lem_example :
    ((ensure_live_ws_allowed host contracts ≡ ok tt) ↔ (
      (fixture_capture_mode_enabled host ≡ true)
      ⊎ (live_without_fixtures_allowed host ≡ true)
      ⊎ ((contracts ≢ []) × AllCaptured host contracts)))
    × ((validate_required_ws_contracts host contracts ≡ ok tt)
        ↔ ((contracts ≢ []) × AllCaptured host contracts))
ensure_live_ws_allowed_lem_example = ensure_live_ws_allowed_lem host contracts
