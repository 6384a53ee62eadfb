-- ===== src/Testing.antt =====
-- src/testing.rs: how the JSON-RPC endpoint for tests matches a response to its request. An index
-- into the bytes is the list of the bytes from it on.
pub mod Search
pub mod JsonRpc
pub mod Channel
pub mod Mock
pub mod Doubles
mod Tests
use Prim.Native.String.{String}
use shared_ws.Prelude.{
  ℕ, zero, suc, ◌+◌, ◌-◌, ◌*◌, Bool, true, false, ◌&&◌, ◌||◌, Option, none, some, List, [], ◌∷◌,
  leb, ltb, ◌==◌, if◌then◌else◌, length, take, drop, u64_max,
}
use shared_ws.Types.Basic.{Result, ok, err}
use shared_ws.Types.Delegated.{WsRequestMatch}
use shared_ws.Frame.{Bytes, WsFrame, frame_bytes}
use shared_ws.Text.{codes, same_text, is_nil}

-- `slice::windows`, for a size that is not 0.
unfoldable pub windows : ℕ → Bytes → List Bytes
windows size [] = []
windows size (b ∷ bytes) =
    let rest = windows size bytes in
    if leb size (length (b ∷ bytes)) then take size (b ∷ bytes) ∷ rest else []

abbrev pub any_is : Bytes → List Bytes → Bool
any_is needle [] = false
any_is needle (window ∷ rest) = same_text window needle || any_is needle rest

unfoldable pub memmem : Bytes → Bytes → Bool
unfolding windows
memmem haystack needle =
    if is_nil needle
    then true
    else if ltb (length haystack) (length needle)
    then false
    else any_is needle (windows (length needle) haystack)

unfoldable pub is_ws : ℕ → Bool
is_ws b = b == 32 || b == 10 || b == 13 || b == 9

unfoldable pub is_ascii_digit : ℕ → Bool
is_ascii_digit b = leb 48 b && leb b 57

-- The two loops that move the index over white space, and the one over digits.
unfoldable pub count_ws : Bytes → ℕ
count_ws [] = 0
count_ws (b ∷ bytes) = let later = count_ws bytes in if is_ws b then suc later else 0

unfoldable pub digits_of : Bytes → Bytes
digits_of [] = []
digits_of (b ∷ bytes) = let later = digits_of bytes in if is_ascii_digit b then b ∷ later else []

abbrev pub decimal : ℕ → Bytes → ℕ
decimal n [] = n
decimal n (b ∷ bytes) = decimal (10 * n + (b - 48)) bytes

-- `str::parse::<u64>` of digits
unfoldable pub parse_u64 : Bytes → Option ℕ
parse_u64 digits = let n = decimal 0 digits in if leb n u64_max then some n else none

unfoldable pub number_at : Bytes → Option ℕ
number_at bytes = let digits = digits_of bytes in if is_nil digits then none else parse_u64 digits

abbrev pub starts_with_id : Bytes → Bool
starts_with_id (a ∷ b ∷ c ∷ d ∷ _) = a == 34 && b == 105 && c == 100 && d == 34
starts_with_id _ = false

abbrev pub starts_with_colon : Bytes → Bool
starts_with_colon (b ∷ _) = b == 58
starts_with_colon [] = false

-- The loop of `parse_jsonrpc_id`, which has moved `skip` bytes ahead.
unfoldable pub scan : ℕ → Bytes → Option ℕ
scan skip [] = none
scan (suc skip) (b ∷ bytes) = scan skip bytes
scan zero (b ∷ bytes) =
    let here = b ∷ bytes in
    let spaces = count_ws (drop 4 here) in
    let colon = drop spaces (drop 4 here) in
    let next = scan zero bytes in
    let past_key = scan (3 + spaces) bytes in
    let value = drop 1 colon in
    if ltb 4 (length here)
    then (if starts_with_id here
        then (if starts_with_colon colon then number_at (drop (count_ws value) value) else past_key)
        else next)
    else none

unfoldable pub parse_jsonrpc_id : Bytes → Option ℕ
parse_jsonrpc_id bytes = scan 0 bytes

abbrev id_of_bytes : Option Bytes → Option ℕ
id_of_bytes none = none
id_of_bytes (some bytes) = parse_jsonrpc_id bytes

unfoldable pub frame_jsonrpc_id : WsFrame → Option ℕ
frame_jsonrpc_id frame = id_of_bytes (frame_bytes frame)

abbrev pub id_key : Bytes
id_key = codes "\"id\""

abbrev pub error_key : Bytes
error_key = codes "\"error\""

abbrev pub result_key : Bytes
result_key = codes "\"result\""

unfoldable pub maybe_request_response : Bytes → Bool
maybe_request_response bytes =
    memmem bytes id_key && (memmem bytes result_key || memmem bytes error_key)

abbrev pub match_id : Option ℕ → Bytes → Option WsRequestMatch
match_id none bytes = none
match_id (some id) bytes =
    if memmem bytes error_key
    then some
        (record { request_id = id; result = err "endpoint rejected"; rate_limit_feedback = none })
    else if memmem bytes result_key
    then some (record { request_id = id; result = ok tt; rate_limit_feedback = none })
    else none

unfoldable pub match_request_response : Bytes → Option WsRequestMatch
unfolding memmem
match_request_response bytes = match_id (parse_jsonrpc_id bytes) bytes
