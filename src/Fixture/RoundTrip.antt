-- ===== src/Fixture/RoundTrip.antt =====
-- A fixture that is written is read again, and judged by the gate on live websockets.
use Prim.Native.String.{String}
use text.Mathlib.Text.{◌==◌}
use shared_ws.Prelude.{
  ℕ, ◌<◌, ◌≡◌, refl, sym, ap, ◌∙◌, ◌↔◌, true, false, Option, none, some, List, [], ◌∷◌, arith,
  if◌then◌else◌, u64_max, ◌≤◌,
}
use shared_ws.Types.Basic.{Result, ok, err}
use shared_ws.Frame.{Bytes}
use shared_ws.Text.{codes, is_blank}
use shared_ws.FixturePolicy.{Host, str_field, u64_field, ensure_live_capture_fixture}
use shared_ws.FixturePolicy.Gate.{is_compliant_lem}
use shared_ws.Fixture.{
  WsFixture, container, JsonLibs, string_round, string_rounds, decode_embedded_json_string,
  encode_embedded_json_value, fixture_fields, write_bytes, write_value, write, decode_round,
  decode_rounds, decode_embedded_json_value, read,
}

-- Of two fields with the same key the later one counts.
abbrev pub lookup : {V : Type 0} → String → List (String × V) → Option V
lookup key [] = none
lookup key ((k, v) ∷ rest) = elim (lookup key rest) [
  | some later ↦ some later
  | none ↦ if k == key then some v else none
]

-- The libraries keep what they write: a file that is written is read, and an object that is printed
-- is parsed into one with the same fields, of which the strings and the numbers are themselves.
pub record KeepsValues {V J F : Type 0} (libs : JsonLibs V J) (host : F → Host J)
    (write_file : F → String → Bytes → Result String F) (reparsed : V → J) : Type 0 where
  pub stored :
      (files files' : F) (path : String) (bytes : Bytes)
      → write_file files path bytes ≡ ok files'
      → (host files').read_file path ≡ ok bytes
  pub fields_kept :
      (files : F) (fields : List (String × V)) (bytes : Bytes)
      → libs.to_vec_pretty (libs.object_value fields) ≡ ok bytes
      → (root : J) × ((host files).from_slice bytes ≡ ok root)
        × ((key : String) (value : V)
            → lookup key fields ≡ some value
            → (host files).get root key ≡ some (reparsed value))
  pub strings_kept :
      (files : F) (s : String) → (host files).as_str (reparsed (libs.string_value s)) ≡ some s
  pub numbers_kept :
      (files : F) (n : ℕ)
      → n ≤ u64_max
      → (host files).as_u64 (reparsed (libs.number_value n)) ≡ some n

-- `text` is an array or an object, which is printed as `printed` once it has been parsed, stored in a
-- file and parsed again: its blanks may change, and the order of its keys.
abbrev pub IsPrintedAs : {V J : Type 0} → JsonLibs V J → (V → J) → String → String → Type 0
IsPrintedAs {V} {J} libs reparsed text printed =
    (value : V) × (again : J) × (libs.serde_from_str text ≡ ok value)
    × (libs.shape value ≡ container)
    × (libs.is_container (reparsed value) ≡ true)
    × (libs.to_string (reparsed value) ≡ ok printed)
    × (libs.from_str printed ≡ ok again)
    × (libs.is_container again ≡ true)

module _ {V J : Type 0} (libs : JsonLibs V J) where
  decode_embedded_json_string-container :
      (text : String) (value : V)
      → libs.serde_from_str text ≡ ok value
      → libs.shape value ≡ container
      → decode_embedded_json_string libs text ≡ text
  unfolding decode_embedded_json_string string_rounds string_round
  decode_embedded_json_string-container text value s c = ground (arith, s, c)

  encode-container :
      (text : String) (value : V)
      → libs.serde_from_str text ≡ ok value
      → libs.shape value ≡ container
      → encode_embedded_json_value libs text ≡ ok value
  unfolding encode_embedded_json_value
  encode-container text value s c =
      ground (arith, s, c, decode_embedded_json_string-container text value s c)

  -- A write that succeeds has handed the printed object to the file system.
  write_bytes-ok :
      {F : Type 0} (write_file : F → String → Bytes → Result String F) (files files' : F)
      (path : String) (r : Result String Bytes)
      → write_bytes libs write_file files path r ≡ ok files'
      → (bytes : Bytes) × (r ≡ ok bytes) × (write_file files path bytes ≡ ok files')
  write_bytes-ok write_file files files' path (err e) h = ground arith
  write_bytes-ok write_file files files' path (ok bytes) h = (bytes, refl, ground arith)

  decode_embedded_json_value-container :
      (host : Host J) (path text : String) (value again : J)
      → libs.is_container value ≡ true
      → libs.to_string value ≡ ok text
      → libs.from_str text ≡ ok again
      → libs.is_container again ≡ true
      → decode_embedded_json_value libs host value path ≡ ok text
  unfolding decode_embedded_json_value decode_rounds decode_round
  decode_embedded_json_value-container host path text value again c t a i =
      ground (arith, c, t, a, i)

-- The provenance that the gate asks for.
abbrev pub IsLive : WsFixture → Type 0
IsLive fixture =
    (fixture.source ≡ "live_capture")
    × (0 < fixture.captured_at_ms)
    × (is_blank (codes fixture.capture_command) ≡ false)
    × (is_blank (codes fixture.exchange_env) ≡ false)

-- The gate judges the fields that it reads.
gate_of_parts :
    {J : Type 0} (host : Host J) (path : String) (bytes : Bytes) (root : J) (fixture : WsFixture)
    → host.read_file path ≡ ok bytes
    → host.from_slice bytes ≡ ok root
    → str_field host root "source" ≡ fixture.source
    → u64_field host root "captured_at_ms" ≡ fixture.captured_at_ms
    → str_field host root "capture_command" ≡ fixture.capture_command
    → str_field host root "exchange_env" ≡ fixture.exchange_env
    → (ensure_live_capture_fixture host path ≡ ok tt) ↔ IsLive fixture
unfolding ensure_live_capture_fixture
gate_of_parts host path bytes root fixture r p s c m e =
    let judged = rw (s, c, m, e) at (is_compliant_lem host root) in
    (λ o. judged.0 (ground (arith, r, p)), λ live. ground (arith, r, p, judged.1 live))

module _ {V J F : Type 0} (libs : JsonLibs V J) (host : F → Host J)
    (write_file : F → String → Bytes → Result String F) where
  -- A file that holds the fixture's object.
  abbrev Holds : (V → J) → F → String → WsFixture → V → Type 0
  Holds reparsed files path fixture value =
      (bytes : Bytes) × (root : J) × ((host files).read_file path ≡ ok bytes)
      × ((host files).from_slice bytes ≡ ok root)
      × ((key : String) (v : V)
          → lookup key (fixture_fields libs fixture value) ≡ some v
          → (host files).get root key ≡ some (reparsed v))

  write-Holds :
      (reparsed : V → J) (keeps : KeepsValues libs host write_file reparsed) (files files' : F)
      (path : String) (fixture : WsFixture) (value : V)
      → encode_embedded_json_value libs fixture.text ≡ ok value
      → write libs write_file files path fixture ≡ ok files'
      → Holds reparsed files' path fixture value
  unfolding write
  write-Holds reparsed keeps files files' path fixture value e h =
      let printing = libs.to_vec_pretty (libs.object_value (fixture_fields libs fixture value)) in
      let h' : write_bytes libs write_file files path printing ≡ ok files' =
        ap (write_value libs write_file files path fixture) (sym e) ∙ h in
      let (bytes, printed, written) =
        write_bytes-ok libs write_file files files' path printing h' in
      let (root, parsed, kept) =
        keeps.fields_kept files' (fixture_fields libs fixture value) bytes printed in
      (bytes, root, keeps.stored files files' path bytes written, parsed, kept)

  -- A fixture with an instant within a `u64`, whose text is a JSON array or object, with any blanks
  -- and any order of its keys, written by a write that succeeds, is read back with every field as it
  -- was but for the text, which is the one that the JSON library prints for what was stored. This is
  -- over JSON libraries and a file system that keep what they write: the value of the text is still
  -- an array or an object when it is parsed again from the file, is printed, and its print is parsed
  -- as one. The gate on live websockets accepts the file exactly when its source is a live capture,
  -- its instant is not 0, and its command and environment are not blank.
  pub read-write :
      (reparsed : V → J) (keeps : KeepsValues libs host write_file reparsed) (files files' : F)
      (path : String) (fixture : WsFixture) (printed : String)
      → fixture.captured_at_ms ≤ u64_max
      → IsPrintedAs libs reparsed fixture.text printed
      → write libs write_file files path fixture ≡ ok files'
      → (read libs (host files') path ≡ ok (record fixture { text = printed }))
        × ((ensure_live_capture_fixture (host files') path ≡ ok tt) ↔ IsLive fixture)
  unfolding read ensure_live_capture_fixture str_field u64_field
  read-write reparsed keeps files files' path fixture printed b (value, again, s, c, rc, rt, ra, ri)
        h =
      let enc = encode-container libs fixture.text value s c in
      let (bytes, root, stored, parsed, kept) =
        write-Holds reparsed keeps files files' path fixture value enc h in
      let str = keeps.strings_kept files' in
      let text_kept =
        decode_embedded_json_value-container libs (host files') path printed (reparsed value) again
          rc rt ra ri in
      let source = kept "source" (libs.string_value fixture.source) refl in
      let at = kept "captured_at_ms" (libs.number_value fixture.captured_at_ms) refl in
      let command = kept "capture_command" (libs.string_value fixture.capture_command) refl in
      let env = kept "exchange_env" (libs.string_value fixture.exchange_env) refl in
      let text = kept "text" value refl in
      (
        ground (
          arith,
          stored,
          parsed,
          source,
          at,
          command,
          env,
          text,
          text_kept,
          str fixture.source,
          str fixture.capture_command,
          str fixture.exchange_env,
          keeps.numbers_kept files' fixture.captured_at_ms b,
        ),
        gate_of_parts (host files') path bytes root fixture stored parsed
            (ground (arith, source, str fixture.source))
            (ground (arith, at, keeps.numbers_kept files' fixture.captured_at_ms b))
            (ground (arith, command, str fixture.capture_command))
            (ground (arith, env, str fixture.exchange_env)),
      )
