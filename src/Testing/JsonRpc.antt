-- ===== src/Testing/JsonRpc.antt =====
-- Which request a JSON-RPC response is matched with.
use shared_ws.Prelude.{
  ℕ, zero, suc, ◌≤◌, ◌≡◌, ◌∙◌, refl, sym, ap, inl, inr, Bool, true, false, ◌||◌, ◌&&◌, Option, none,
  some, [], ◌∷◌, ◌++◌, leb, length, length-append, append_assoc, arith, Bool-cases, Option-cases,
  u64_max, if◌then◌else◌, drop-append,
}
use shared_ws.Frame.{Bytes}
use shared_ws.Text.{is_nil}
use shared_ws.Testing.Search.{Contains, memmem-Contains}
use shared_ws.Testing.{
  match_id, maybe_request_response, decimal, memmem, is_ws, is_ascii_digit, count_ws, digits_of,
  parse_u64, number_at, starts_with_id, scan, parse_jsonrpc_id, id_key, error_key, result_key,
  match_request_response,
}

abbrev pub all_ws : Bytes → Bool
all_ws [] = true
all_ws (b ∷ bytes) = is_ws b && all_ws bytes

abbrev pub all_digits : Bytes → Bool
all_digits [] = true
all_digits (b ∷ bytes) = is_ascii_digit b && all_digits bytes

abbrev pub starts_with_digit : Bytes → Bool
starts_with_digit [] = false
starts_with_digit (b ∷ _) = is_ascii_digit b

-- The key `"id"` starts among the bytes, when they are followed by it.
abbrev pub id_starts_in : Bytes → Bool
id_starts_in [] = false
id_starts_in (b ∷ bytes) = starts_with_id (b ∷ bytes ++ id_key) || id_starts_in bytes

count_ws-append :
    (spaces rest : Bytes) (b : ℕ)
    → all_ws spaces ≡ true
    → is_ws b ≡ false
    → count_ws (spaces ++ b ∷ rest) ≡ length spaces
unfolding count_ws
count_ws-append [] rest b a n = ground arith
count_ws-append (c ∷ spaces) rest b a n = ground (arith, count_ws-append spaces rest b)

digits_of-append :
    (digits rest : Bytes)
    → all_digits digits ≡ true
    → starts_with_digit rest ≡ false
    → digits_of (digits ++ rest) ≡ digits
unfolding digits_of
digits_of-append [] [] a n = refl
digits_of-append [] (b ∷ rest) a n = ground arith
digits_of-append (c ∷ digits) rest a n = ground (arith, digits_of-append digits rest)

digit_is_no_ws : (b : ℕ) → is_ascii_digit b ≡ true → is_ws b ≡ false
unfolding is_ascii_digit is_ws
digit_is_no_ws b h = ground arith

number_at-append :
    (digits rest : Bytes)
    → all_digits digits ≡ true
    → is_nil digits ≡ false
    → starts_with_digit rest ≡ false
    → number_at (digits ++ rest) ≡ parse_u64 digits
unfolding number_at
number_at-append digits rest a n s = ground (arith, digits_of-append digits rest)

starts_with_id-append :
    (bytes rest : Bytes) → 4 ≤ length bytes → starts_with_id (bytes ++ rest) ≡ starts_with_id bytes
starts_with_id-append (a ∷ b ∷ c ∷ d ∷ bytes) rest h = refl
starts_with_id-append [] rest h = absurd (omega arith)
starts_with_id-append (a ∷ []) rest h = absurd (omega arith)
starts_with_id-append (a ∷ b ∷ []) rest h = absurd (omega arith)
starts_with_id-append (a ∷ b ∷ c ∷ []) rest h = absurd (omega arith)

-- Past the key: the white space around the colon, and the digits.
after_key_lem :
    (spaces more_spaces : Bytes) (d : ℕ) (digits rest : Bytes)
    → all_ws spaces ≡ true
    → all_ws more_spaces ≡ true
    → all_digits (d ∷ digits) ≡ true
    → starts_with_digit rest ≡ false
    → scan 0 (id_key ++ (spaces ++ 58 ∷ (more_spaces ++ (d ∷ digits ++ rest))))
      ≡ parse_u64 (d ∷ digits)
unfolding scan is_ws
after_key_lem spaces more_spaces d digits rest a m g s =
    let value = more_spaces ++ (d ∷ digits ++ rest) in
    ground (
      arith,
      length-append spaces (58 ∷ value),
      count_ws-append spaces value 58 a refl,
      drop-append spaces (58 ∷ value),
      count_ws-append more_spaces (digits ++ rest) d m (digit_is_no_ws d (ground arith)),
      drop-append more_spaces (d ∷ digits ++ rest),
      number_at-append (d ∷ digits) rest g refl s,
    )

-- Before the key nothing is matched.
scan-append :
    (before after : Bytes)
    → id_starts_in before ≡ false
    → scan 0 (before ++ (id_key ++ after)) ≡ scan 0 (id_key ++ after)
unfolding scan
scan-append [] after n = refl
scan-append (b ∷ before) after n = ground (
  arith,
  append_assoc before id_key after,
  length-append before (id_key ++ after),
  length-append before id_key,
  starts_with_id-append (b ∷ before ++ id_key) after,
  scan-append before after,
)

starts_with_id-Contains : (bytes : Bytes) → starts_with_id bytes ≡ true → Contains bytes id_key
starts_with_id-Contains (a ∷ b ∷ c ∷ d ∷ bytes) h = ([], bytes, ground arith)
starts_with_id-Contains [] h = ground arith
starts_with_id-Contains (a ∷ []) h = ground arith
starts_with_id-Contains (a ∷ b ∷ []) h = ground arith
starts_with_id-Contains (a ∷ b ∷ c ∷ []) h = ground arith

Contains-cons : (b : ℕ) (bytes needle : Bytes) → Contains bytes needle → Contains (b ∷ bytes) needle
Contains-cons b bytes needle (before, after, e) = (b ∷ before, after, ap (◌∷◌ b) e)

-- An id is found only where the key stands.
scan-Contains :
    (skip : ℕ) (bytes : Bytes) (id : ℕ) → scan skip bytes ≡ some id → Contains bytes id_key
unfolding scan
scan-Contains skip [] id h = ground arith
scan-Contains (suc skip) (b ∷ bytes) id h =
    Contains-cons b bytes id_key (scan-Contains skip bytes id h)
scan-Contains zero (b ∷ bytes) id h = elim (Bool-cases (starts_with_id (b ∷ bytes))) [
  | inl e ↦ starts_with_id-Contains (b ∷ bytes) e
  | inr e ↦ Contains-cons b bytes id_key (scan-Contains zero bytes id (ground (arith, e)))
]

match_id-none :
    (id : Option ℕ) (bytes : Bytes)
    → memmem bytes error_key ≡ false
    → memmem bytes result_key ≡ false
    → match_id id bytes ≡ none
match_id-none none bytes e r = refl
match_id-none (some id) bytes e r = ground (arith, e, r)

-- The check that goes before the match loses none: bytes that it passes over match no request.
pub match_request_response_checked :
    (bytes : Bytes) → maybe_request_response bytes ≡ false → match_request_response bytes ≡ none
unfolding match_request_response maybe_request_response parse_jsonrpc_id
match_request_response_checked bytes h = elim (Option-cases (scan 0 bytes)) [
  | inl n ↦ ground (arith, n)
  | inr (id, e) ↦
      let found = (memmem-Contains bytes id_key).1 (scan-Contains 0 bytes id e) in
      match_id-none (scan 0 bytes) bytes (ground (arith, found)) (ground (arith, found))
]

-- A response whose first `"id"` is a key with a decimal number, with any white space around the
-- colon and no further digit after it, is matched with that number, and with none when it is no
-- `u64`; what is said of the request is decided by whether `"error"`, or else `"result"`, stands in
-- the bytes; and the check that goes before the match lets it through if one of them does.
pub match_request_response_lem :
    (before spaces more_spaces : Bytes) (d : ℕ) (digits rest bytes : Bytes)
    → id_starts_in before ≡ false
    → all_ws spaces ≡ true
    → all_ws more_spaces ≡ true
    → all_digits (d ∷ digits) ≡ true
    → starts_with_digit rest ≡ false
    → bytes ≡ before ++ (id_key ++ (spaces ++ 58 ∷ (more_spaces ++ (d ∷ digits ++ rest))))
    → (match_request_response bytes
        ≡ match_id
            (if leb (decimal 0 (d ∷ digits)) u64_max then some (decimal 0 (d ∷ digits)) else none)
            bytes)
      × (maybe_request_response bytes ≡ (memmem bytes result_key || memmem bytes error_key))
unfolding match_request_response maybe_request_response parse_jsonrpc_id parse_u64
match_request_response_lem before spaces more_spaces d digits rest bytes n a m g s e =
    let after = spaces ++ 58 ∷ (more_spaces ++ (d ∷ digits ++ rest)) in
    let found =
      (memmem-Contains bytes id_key).1
        (before, after, e ∙ sym (append_assoc before id_key after)) in
    let id =
      ap (scan 0) e
      ∙ scan-append before after n
      ∙ after_key_lem spaces more_spaces d digits rest a m g s in
    (ap (λ i. match_id i bytes) id, ground (arith, found))
