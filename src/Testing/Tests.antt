-- ===== src/Testing/Tests.antt =====
-- JSON-RPC responses of concrete bytes.
use shared_ws.Prelude.{none, ◌≡◌, refl, some}
use shared_ws.Types.Basic.{ok}
use shared_ws.Frame.{Bytes}
use shared_ws.Text.{codes}
use shared_ws.Testing.{
  memmem, windows, is_ws, is_ascii_digit, count_ws, digits_of, parse_u64, number_at, scan,
  parse_jsonrpc_id, match_request_response,
}

abbrev response : Bytes
response = codes "{\"jsonrpc\":\"2.0\",\"id\" : 17,\"result\":true}"

matches_seventeen :
    match_request_response response
    ≡ some (record { request_id = 17; result = ok tt; rate_limit_feedback = none })
unfolding match_request_response parse_jsonrpc_id scan count_ws digits_of number_at parse_u64 is_ws
    is_ascii_digit memmem windows
matches_seventeen = refl

-- The key without its colon is passed over.
a_value_is_no_key : parse_jsonrpc_id (codes "[\"id\" ,\"id\":5]") ≡ some 5
unfolding parse_jsonrpc_id scan count_ws digits_of number_at parse_u64 is_ws is_ascii_digit
a_value_is_no_key = refl
