-- ===== src/Orders/Json.antt =====
-- internal/orders/json.go (internal/platform/json.go is a copy): `decodeJSONStrict`. encoding/json is
-- a parameter: `first` decodes a value, with unknown fields refused, and leaves the bytes behind it,
-- and `next` is the error of decoding one more value there, or nil.
pub mod Errors
pub mod Accepted
use Prim.Native.Char.{Char, code}
use Prim.Native.String
use oms_go.Prelude.{
  ℕ, suc, ◌+◌, ◌≡◌, refl, Bool, true, false, Option, none, some, String, List, [], ◌∷◌, length, leb,
  ltb, ◌==◌, str_eq, if◌then◌else◌,
}
use oms_go.Prelude.Sort.{take}
use oms_go.Prelude.Exec.{Result, ok, err}

-- A request body: its bytes, and the error with which it breaks off after them, if it does. The error
-- comes in a Read of its own.
pub record Body : Type 0 where
  pub content : List ℕ
  pub broken : Option String

-- The errors of encoding/json that the code tells apart; `other` has the text of the error.
pub data JsonError : Type 0 where
  eof : JsonError
  syntax : ℕ → JsonError
  unexpected_eof : JsonError
  unmarshal_type : String → ℕ → JsonError
  other : String → JsonError

pub data Malformed : Type 0 where
  empty_body : Malformed
  syntax_at : ℕ → Malformed
  cut_off : Malformed
  field_value : String → Malformed
  value_at : ℕ → Malformed
  multiple_values : Malformed
  because : String → Malformed

-- `ErrRequestBodyTooLarge`, `ErrMalformedJSON` and `ErrUnknownJSONField`, with what their texts show,
-- and an error of the body itself.
pub data BodyError : Type 0 where
  too_large : BodyError
  malformed : Malformed → BodyError
  unknown_field : String → BodyError
  unread : String → BodyError

-- `strings.HasPrefix` with `strings.TrimPrefix`: what follows the prefix.
unfoldable pub after_prefix : String → String → Option String
after_prefix s String.[] = some s
after_prefix String.[] (String.◌∷◌ p ps) = none
after_prefix (String.◌∷◌ c s) (String.◌∷◌ p ps) =
    let rest = after_prefix s ps in if code c == code p then rest else none

normalize_other : String → Option String → BodyError
normalize_other text none = malformed (because text)
normalize_other text (some field) = unknown_field field

unfoldable pub normalize_json_decode_error : JsonError → BodyError
unfolding normalize_other after_prefix
normalize_json_decode_error eof = malformed empty_body
normalize_json_decode_error (syntax offset) = malformed (syntax_at offset)
normalize_json_decode_error unexpected_eof = malformed cut_off
normalize_json_decode_error (unmarshal_type field offset) =
    if str_eq field "" then malformed (value_at offset) else malformed (field_value field)
normalize_json_decode_error (other text) =
    normalize_other text (after_prefix text "json: unknown field ")

-- `io.ReadAll(io.LimitReader(r, n))`: where n bytes are there, nothing more is read.
unfoldable pub read_limited : ℕ → Body → Result String (List ℕ)
unfolding take
read_limited n body =
    if leb n (length body.content)
    then ok (take n body.content)
    else elim body.broken [ none ↦ ok body.content | some e ↦ err e ]

module _ {A : Type 0} (first : List ℕ → Result JsonError (A × List ℕ))
    (next : List ℕ → Option JsonError) where
  -- Only the end of the input is right after the value.
  single : A → Option JsonError → Result BodyError A
  single value (some eof) = ok value
  single value _ = err (malformed multiple_values)

  decoded : Result JsonError (A × List ℕ) → Result BodyError A
  decoded (err e) = err (normalize_json_decode_error e)
  decoded (ok (value, rest)) = single value (next rest)

  payload : ℕ → Result String (List ℕ) → Result BodyError A
  payload max_bytes (err e) = err (unread e)
  payload max_bytes (ok bytes) =
      if ltb max_bytes (length bytes) then err too_large else decoded (first bytes)

  unfoldable pub decode_json_strict : ℕ → Body → Result BodyError A
  unfolding payload decoded single read_limited
  decode_json_strict max_bytes body = payload max_bytes (read_limited (max_bytes + 1) body)
