-- ===== src/FixturePolicy.antt =====
-- src/fixture_policy.rs: the gate on live websockets. The environment, the file system and the JSON
-- parser are parameters; the registry, which is a global behind a mutex, is passed along.
pub mod Gate
mod Tests
use Prim.Native.String.{String, ◌++◌ as ◌<>◌}
use text.Mathlib.Text.{◌==◌}
use shared_ws.Prelude.{
  ℕ, zero, suc, Bool, true, false, not, ◌||◌, ◌&&◌, Option, none, some, List, [], ◌∷◌,
  if◌then◌else◌,
}
use shared_ws.Types.Basic.{Result, ok, err, WebSocketError}
use shared_ws.Frame.{Bytes}
use shared_ws.Text.{codes, trim, is_nil, same_text}

pub record WsFixtureRequirement : Type 0 where
  pub contract_id : String
  pub success_path : String
  pub error_path : Option String

-- `std::env::var`, `std::fs` and `sonic_rs`, whose values are the `Json`. Paths are their texts.
pub record Host (Json : Type 0) : Type 0 where
  pub env_var : String → Option String
  pub read_file : String → Result String Bytes
  pub path_exists : String → Bool
  pub from_slice : Bytes → Result String Json
  pub get : Json → String → Option Json
  pub as_str : Json → Option String
  pub as_u64 : Json → Option ℕ

abbrev pub Checked : Type 0
Checked = Result WebSocketError (Unit {0})

abbrev pub and_then : Checked → Checked → Checked
and_then (ok _) next = next
and_then (err e) next = err e

-- The three operations on the registry.
unfoldable pub register_required_ws_contracts :
    List WsFixtureRequirement → List WsFixtureRequirement → List WsFixtureRequirement
register_required_ws_contracts requirements registry = requirements

unfoldable pub clear_required_ws_contracts : List WsFixtureRequirement → List WsFixtureRequirement
clear_required_ws_contracts registry = []

abbrev pub str_or_empty : Option String → String
str_or_empty none = ""
str_or_empty (some s) = s

abbrev pub u64_or_zero : Option ℕ → ℕ
u64_or_zero none = 0
u64_or_zero (some n) = n

abbrev path_or_not_required : Option String → String
path_or_not_required none = "<not-required>"
path_or_not_required (some path) = path

-- "1" | "true" | "TRUE" | "yes" | "YES"
unfoldable pub is_truthy : List ℕ → Bool
is_truthy cs =
    same_text cs (codes "1")
    || same_text cs (codes "true")
    || same_text cs (codes "TRUE")
    || same_text cs (codes "yes")
    || same_text cs (codes "YES")

abbrev is_zero : ℕ → Bool
is_zero zero = true
is_zero (suc _) = false

module _ {Json : Type 0} (host : Host Json) where
  abbrev truthy_raw : Option String → Bool
  truthy_raw none = false
  truthy_raw (some raw) = is_truthy (trim (codes raw))

  unfoldable pub env_truthy : String → Bool
  env_truthy name = truthy_raw (host.env_var name)

  unfoldable pub fixture_capture_mode_enabled : Bool
  fixture_capture_mode_enabled = env_truthy "SHARED_WS_FIXTURE_CAPTURE_MODE"

  unfoldable pub live_without_fixtures_allowed : Bool
  live_without_fixtures_allowed = env_truthy "SHARED_WS_ALLOW_LIVE_WITHOUT_FIXTURES"

  -- `root.get(key).and_then(as_str).unwrap_or("")`, and the same for numbers.
  unfoldable pub str_field : Json → String → String
  str_field root key = elim (host.get root key) [
    | none ↦ ""
    | some value ↦ str_or_empty (host.as_str value)
  ]

  unfoldable pub u64_field : Json → String → ℕ
  u64_field root key = elim (host.get root key) [
    | none ↦ 0
    | some value ↦ u64_or_zero (host.as_u64 value)
  ]

  unfoldable pub is_compliant : Json → Bool
  is_compliant root = not (
      not (str_field root "source" == "live_capture")
      || is_zero (u64_field root "captured_at_ms")
      || is_nil (trim (codes (str_field root "capture_command")))
      || is_nil (trim (codes (str_field root "exchange_env"))))

  abbrev pub not_compliant : String → Checked
  not_compliant path = err (
      WebSocketError.invalid_state
        ("live websocket blocked: fixture " <> path <> " is not compliant live-capture provenance"))

  abbrev pub ensure_parsed : String → Result String Json → Checked
  ensure_parsed path (ok root) = if is_compliant root then ok tt else not_compliant path
  ensure_parsed path (err e) = err (
      WebSocketError.invalid_state
        ("live websocket blocked: failed to parse fixture " <> path <> ": " <> e))

  abbrev pub ensure_read : String → Result String Bytes → Checked
  ensure_read path (ok bytes) = ensure_parsed path (host.from_slice bytes)
  ensure_read path (err e) = err (
      WebSocketError.invalid_state
        ("live websocket blocked: failed to read fixture " <> path <> ": " <> e))

  unfoldable pub ensure_live_capture_fixture : String → Checked
  unfolding is_compliant
  ensure_live_capture_fixture path = ensure_read path (host.read_file path)

  abbrev pub exists_if_required : Option String → Bool
  exists_if_required none = true
  exists_if_required (some path) = host.path_exists path

  abbrev pub ensure_if_required : Option String → Checked
  ensure_if_required none = ok tt
  ensure_if_required (some path) = ensure_live_capture_fixture path

  -- The body of the loop of both checks; `blocked` opens its message.
  unfoldable pub check_requirement : String → WsFixtureRequirement → Checked
  unfolding ensure_live_capture_fixture
  check_requirement blocked item =
      if host.path_exists item.success_path && exists_if_required item.error_path
      then and_then (ensure_live_capture_fixture item.success_path)
          (ensure_if_required item.error_path)
      else err (
          WebSocketError.invalid_state (
            blocked
            <> ": missing fixture files for contract="
            <> item.contract_id
            <> " success="
            <> item.success_path
            <> " error="
            <> path_or_not_required item.error_path))

  unfoldable pub check_requirements : String → List WsFixtureRequirement → Checked
  unfolding check_requirement
  check_requirements blocked [] = ok tt
  check_requirements blocked (item ∷ items) =
      and_then (check_requirement blocked item) (check_requirements blocked items)

  unfoldable pub check_registry : List WsFixtureRequirement → Checked
  check_registry [] = err (
      WebSocketError.invalid_state
        "live websocket blocked: no required fixture contracts registered")
  check_registry (item ∷ items) = check_requirements "live websocket blocked" (item ∷ items)

  -- The registry is the last argument.
  unfoldable pub ensure_live_ws_allowed : List WsFixtureRequirement → Checked
  ensure_live_ws_allowed registry =
      if fixture_capture_mode_enabled || live_without_fixtures_allowed
      then ok tt
      else check_registry registry

  unfoldable pub validate_required_ws_contracts : List WsFixtureRequirement → Checked
  validate_required_ws_contracts [] = err (
      WebSocketError.invalid_state
        "required websocket fixture validation failed: no fixture contracts registered")
  validate_required_ws_contracts (item ∷ items) =
      check_requirements "required websocket fixture validation failed" (item ∷ items)
