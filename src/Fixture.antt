-- ===== src/Fixture.antt =====
-- src/fixture.rs: recorded websocket payloads with their provenance. The file system and the two
-- JSON libraries, `serde_json` that writes and `sonic_rs` that reads, are parameters.
pub mod RoundTrip
mod Tests
use Prim.Native.String.{String, ◌++◌ as ◌<>◌}
use text.Mathlib.Text.{◌==◌}
use shared_ws.Prelude.{
  ℕ, zero, suc, Bool, true, false, Option, none, some, List, [], ◌∷◌, if◌then◌else◌,
}
use shared_ws.Types.Basic.{Result, ok, err, WebSocketError}
use shared_ws.Frame.{Bytes}
use shared_ws.FixturePolicy.{Host, str_or_empty, u64_or_zero, str_field, u64_field}

pub record WsFixture : Type 0 where
  pub source : String
  pub captured_at_ms : ℕ
  pub capture_command : String
  pub exchange_env : String
  pub text : String

-- `serde_json::Value`, as far as the code tells its variants apart.
pub data Shape : Type 0 where
  container : Shape
  string : String → Shape
  other : Shape

-- The calls of the libraries that `Host` lacks: `serde_json` with the values `V`, and `sonic_rs`
-- with the values `J`.
pub record JsonLibs (V J : Type 0) : Type 0 where
  pub serde_from_str : String → Result String V
  pub shape : V → Shape
  pub string_value : String → V
  pub number_value : ℕ → V
  pub object_value : List (String × V) → V
  pub to_vec_pretty : V → Result String Bytes
  -- `is_array() || is_object()`
  pub is_container : J → Bool
  pub to_string : J → Result String String
  pub from_str : String → Result String J
  pub string_from_str : String → Result String String

module _ {V J : Type 0} (libs : JsonLibs V J) where
  abbrev pub unwrap_string : Shape → String → Option String
  unwrap_string container text = none
  unwrap_string (string inner) text = if inner == text then none else some inner
  unwrap_string other text = none

  abbrev unwrap_parsed : Result String V → String → Option String
  unwrap_parsed (ok value) text = unwrap_string (libs.shape value) text
  unwrap_parsed (err _) text = none

  -- A round of the loop of `decode_embedded_json_string`: the next text, or the end.
  unfoldable pub string_round : String → Option String
  string_round text = unwrap_parsed (libs.serde_from_str text) text

  unfoldable pub string_rounds : ℕ → String → String
  string_rounds zero text = text
  string_rounds (suc n) text = elim (string_round text) [
    | none ↦ text
    | some next ↦ string_rounds n next
  ]

  unfoldable pub decode_embedded_json_string : String → String
  decode_embedded_json_string raw = string_rounds 4 raw

  abbrev keep_container : String → V → V
  keep_container normalized value = elim (libs.shape value) [
    | container ↦ value
    | string _ ↦ libs.string_value normalized
    | other ↦ libs.string_value normalized
  ]

  abbrev encode_normalized : String → Result String V → Result String V
  encode_normalized normalized (ok value) = ok (keep_container normalized value)
  encode_normalized normalized (err e) = err e

  unfoldable pub encode_embedded_json_value : String → Result String V
  unfolding decode_embedded_json_string
  encode_embedded_json_value raw =
      let normalized = decode_embedded_json_string raw in
      encode_normalized normalized (libs.serde_from_str normalized)

  abbrev pub fixture_fields : WsFixture → V → List (String × V)
  fixture_fields fixture value =
      ("capture_command", libs.string_value fixture.capture_command)
      ∷ ("captured_at_ms", libs.number_value fixture.captured_at_ms)
      ∷ ("exchange_env", libs.string_value fixture.exchange_env)
      ∷ ("source", libs.string_value fixture.source)
      ∷ ("text", value)
      ∷ []

  module _ {F : Type 0} (write_file : F → String → Bytes → Result String F) where
    abbrev pub write_bytes : F → String → Result String Bytes → Result WebSocketError F
    write_bytes files path (err e) = err (WebSocketError.parse_failed e)
    write_bytes files path (ok bytes) = elim (write_file files path bytes) [
      | ok files' ↦ ok files'
      | err e ↦
          err (
            WebSocketError.invalid_state
              ("failed to write websocket fixture " <> path <> ": " <> e))
    ]

    abbrev pub write_value : F → String → WsFixture → Result String V → Result WebSocketError F
    write_value files path fixture (err e) = err (WebSocketError.invalid_state e)
    write_value files path fixture (ok value) =
        write_bytes files path
          (libs.to_vec_pretty (libs.object_value (fixture_fields fixture value)))

    unfoldable pub write : F → String → WsFixture → Result WebSocketError F
    unfolding encode_embedded_json_value
    write files path fixture =
        write_value files path fixture (encode_embedded_json_value fixture.text)

module _ {V J : Type 0} (libs : JsonLibs V J) (host : Host J) where
  -- The text between quotes, read as a JSON string.
  abbrev unescape : Result String String → String → Option String
  unescape (err _) text = none
  unescape (ok decoded) text = if decoded == text then none else some decoded

  abbrev unescaped : String → Option String
  unescaped text = unescape (libs.string_from_str ("\"" <> text <> "\"")) text

  abbrev unwrap_str : Option String → String → Option String
  unwrap_str (some inner) text = if inner == text then none else some inner
  unwrap_str none text = unescaped text

  abbrev unwrap_value : Result String J → String → Option String
  unwrap_value (err _) text = unescaped text
  unwrap_value (ok value) text =
      if libs.is_container value then none else unwrap_str (host.as_str value) text

  -- A round of the loop of `decode_embedded_json_value`: the next text, or the end.
  unfoldable pub decode_round : String → Option String
  decode_round text = unwrap_value (libs.from_str text) text

  unfoldable pub decode_rounds : ℕ → String → String
  decode_rounds zero text = text
  decode_rounds (suc n) text = elim (decode_round text) [
    | none ↦ text
    | some next ↦ decode_rounds n next
  ]

  abbrev decode_printed : Result String String → Result WebSocketError String
  decode_printed (ok text) = ok (decode_rounds 4 text)
  decode_printed (err e) = err (WebSocketError.parse_failed e)

  abbrev decode_str : String → Option String → Result WebSocketError String
  decode_str path (some text) = ok (decode_rounds 4 text)
  decode_str path none = err (
      WebSocketError.invalid_state
        ("websocket fixture " <> path <> " text must be a JSON string, object, or array"))

  unfoldable pub decode_embedded_json_value : J → String → Result WebSocketError String
  unfolding decode_rounds
  decode_embedded_json_value value path =
      if libs.is_container value
      then decode_printed (libs.to_string value)
      else decode_str path (host.as_str value)

  abbrev source_or_unknown : Option J → String
  source_or_unknown none = "unknown"
  source_or_unknown (some value) = elim (host.as_str value) [ none ↦ "unknown" | some s ↦ s ]

  abbrev read_text : J → Result WebSocketError String → Result WebSocketError WsFixture
  read_text root (err e) = err e
  read_text root (ok text) = ok (record {
    source = source_or_unknown (host.get root "source");
    captured_at_ms = u64_field host root "captured_at_ms";
    capture_command = str_field host root "capture_command";
    exchange_env = str_field host root "exchange_env";
    text = text;
  })

  abbrev read_value : String → J → Option J → Result WebSocketError WsFixture
  read_value path root none =
      err (WebSocketError.invalid_state ("websocket fixture " <> path <> " missing text"))
  read_value path root (some value) = read_text root (decode_embedded_json_value value path)

  abbrev read_root : String → Result String J → Result WebSocketError WsFixture
  read_root path (ok root) = read_value path root (host.get root "text")
  read_root path (err e) =
      err (WebSocketError.parse_failed ("failed to parse websocket fixture " <> path <> ": " <> e))

  abbrev read_bytes : String → Result String Bytes → Result WebSocketError WsFixture
  read_bytes path (ok bytes) = read_root path (host.from_slice bytes)
  read_bytes path (err e) =
      err (WebSocketError.invalid_state ("failed to read websocket fixture " <> path <> ": " <> e))

  unfoldable pub read : String → Result WebSocketError WsFixture
  unfolding decode_embedded_json_value
  read path = read_bytes path (host.read_file path)
