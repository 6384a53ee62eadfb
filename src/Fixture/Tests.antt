-- ===== src/Fixture/Tests.antt =====
-- A fixture over libraries that know one document.
use Prim.Native.String.{String}
use text.Mathlib.Text.{◌==◌}
use text.Mathlib.TextEquality.{eq_iff}
use shared_ws.Prelude.{
  ℕ, ◌≡◌, refl, sym, ◌↔◌, ap, ◌∙◌, Bool, true, false, ◌&&◌, ◌||◌, Option, none, some, List, [], ◌∷◌,
  arith, if◌then◌else◌, leb,
}
use shared_ws.Types.Basic.{Result, ok, err}
use shared_ws.Frame.{Bytes}
use shared_ws.FixturePolicy.{Host, ensure_live_capture_fixture}
use shared_ws.Fixture.{
  WsFixture, Shape, container, string, other, JsonLibs, read, write, encode_embedded_json_value,
  decode_embedded_json_string, string_rounds, string_round,
}
use shared_ws.Fixture.RoundTrip.{KeepsValues, IsPrintedAs, IsLive, lookup, read-write}

data Value : Type 0 where
  str : String → Value
  num : ℕ → Value
  braces document unknown : Value

abbrev same_value : Value → Value → Bool
same_value (str a) (str b) = a == b
same_value (num a) (num b) = leb a b && leb b a
same_value braces braces = true
same_value document document = true
same_value unknown unknown = true
same_value _ _ = false

abbrev same_fields : List (String × Value) → List (String × Value) → Bool
same_fields [] [] = true
same_fields ((k, v) ∷ rest) ((j, w) ∷ more) = k == j && same_value v w && same_fields rest more
same_fields _ _ = false

same_value-eq : (v w : Value) → same_value v w ≡ true → v ≡ w
same_value-eq (str a) (str b) h = ground (arith, eq_iff a b)
same_value-eq (num a) (num b) h = ground arith
same_value-eq v w h = ground arith

same_fields-eq : (f g : List (String × Value)) → same_fields f g ≡ true → f ≡ g
same_fields-eq [] [] h = refl
same_fields-eq ((k, v) ∷ rest) ((j, w) ∷ more) h =
    ground (arith, eq_iff k j, same_value-eq v w, same_fields-eq rest more)
same_fields-eq [] (g ∷ gs) h = ground arith
same_fields-eq (f ∷ fs) [] h = ground arith

abbrev recorded : WsFixture
recorded = record {
  source = "live_capture";
  captured_at_ms = 1;
  capture_command = "capture";
  exchange_env = "testnet";
  text = "{ }";
}

abbrev document_fields : List (String × Value)
document_fields =
    ("capture_command", str "capture")
    ∷ ("captured_at_ms", num 1)
    ∷ ("exchange_env", str "testnet")
    ∷ ("source", str "live_capture")
    ∷ ("text", braces)
    ∷ []

abbrev object_of : List (String × Value) → Value
object_of fields = if same_fields fields document_fields then document else unknown

abbrev print : Value → Result String Bytes
print document = ok (1 ∷ [])
print _ = err "unknown"

abbrev shape_of : Value → Shape
shape_of (str s) = string s
shape_of (num n) = other
shape_of _ = container

abbrev is_object : Value → Bool
is_object braces = true
is_object document = true
is_object _ = false

abbrev value_text : Value → Option String
value_text (str s) = some s
value_text _ = none

abbrev value_number : Value → Option ℕ
value_number (num n) = some n
value_number _ = none

abbrev parse_text : String → Result String Value
parse_text text = if text == "{}" || text == "{ }" then ok braces else err "unknown"

abbrev libs : JsonLibs Value Value
libs = record {
  serde_from_str = parse_text;
  shape = shape_of;
  string_value = str;
  number_value = num;
  object_value = object_of;
  to_vec_pretty = print;
  is_container = is_object;
  to_string = λ v. ok "{}";
  from_str = parse_text;
  string_from_str = λ s. err "unknown";
}

-- A disk with one file.
abbrev contents : Option Bytes → Result String Bytes
contents none = err "no such file"
contents (some bytes) = ok bytes

abbrev host : Option Bytes → Host Value
host disk = record {
  env_var = λ name. none;
  read_file = λ path. contents disk;
  path_exists = λ path. true;
  from_slice = λ bytes. ok document;
  get = λ v key. lookup key document_fields;
  as_str = value_text;
  as_u64 = value_number;
}

abbrev write_file : Option Bytes → String → Bytes → Result String (Option Bytes)
write_file disk path bytes = ok (some bytes)

libs_keep : KeepsValues libs host write_file (λ v. v)
libs_keep = record {
  stored = λ disk disk' path bytes h. ground arith;
  fields_kept = λ disk fields bytes h.
      let same : same_fields fields document_fields ≡ true = ground arith in
      let e = same_fields-eq fields document_fields same in
      (document, refl, λ key v l. ap (lookup key) (sym e) ∙ l);
  strings_kept = λ disk s. refl;
  numbers_kept = λ disk n b. refl;
}

recorded-IsPrintedAs : IsPrintedAs libs (λ v. v) recorded.text "{}"
recorded-IsPrintedAs = (braces, braces, refl, refl, refl, refl, refl, refl)

recorded_is_written : write libs write_file none "f.json" recorded ≡ ok (some (1 ∷ []))
unfolding write encode_embedded_json_value decode_embedded_json_string string_rounds string_round
recorded_is_written = refl

read-write_example :
    (read libs (host (some (1 ∷ []))) "f.json" ≡ ok (record recorded { text = "{}" }))
    × ((ensure_live_capture_fixture (host (some (1 ∷ []))) "f.json" ≡ ok tt) ↔ IsLive recorded)
read-write_example =
    read-write libs host write_file (λ v. v) libs_keep none (some (1 ∷ [])) "f.json" recorded "{}"
      (omega arith) recorded-IsPrintedAs recorded_is_written
