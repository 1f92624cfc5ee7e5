-- ===== src/Orders/Json/Errors.antt =====
-- internal/orders/json.go: the errors of `normalizeJSONDecodeError`, one by one.
use Prim.Native.Char.{code}
use oms_go.Prelude.{
  ℕ, ◌≡◌, ◌≢◌, ap, Bool-cases, Option-cases, inl, inr, none, some, String, ◌++◌, ◌==◌, ==_iff,
  str_eq, eq_iff,
}
use oms_go.Prelude.Text.{codes}
use oms_go.Orders.Json.{
  JsonError, eof, syntax, unexpected_eof, unmarshal_type, other, BodyError, malformed,
  unknown_field, empty_body, syntax_at, cut_off, field_value, value_at, because, after_prefix,
  normalize_json_decode_error,
}

-- What the client is told of an error of encoding/json.
pub data Reported : JsonError → BodyError → Type 0 where
  nothing : Reported eof (malformed empty_body)
  at_byte : (offset : ℕ) → Reported (syntax offset) (malformed (syntax_at offset))
  early_end : Reported unexpected_eof (malformed cut_off)
  in_field :
      (field : String) (offset : ℕ)
      → field ≢ ""
      → Reported (unmarshal_type field offset) (malformed (field_value field))
  in_value : (offset : ℕ) → Reported (unmarshal_type "" offset) (malformed (value_at offset))
  not_known :
      (text field : String)
      → codes text ≡ codes "json: unknown field " ++ codes field
      → Reported (other text) (unknown_field field)
  as_it_is :
      (text : String)
      → ((field : String) → codes text ≢ codes "json: unknown field " ++ codes field)
      → Reported (other text) (malformed (because text))

after_prefix-some :
    (s p : String) {field : String}
    → after_prefix s p ≡ some field
    → codes s ≡ codes p ++ codes field
unfolding after_prefix
after_prefix-some s String.[] {field} h = let same : s ≡ field = cc in ap codes same
after_prefix-some String.[] (String.◌∷◌ p ps) h = absurd (cc)
after_prefix-some (String.◌∷◌ c s) (String.◌∷◌ p ps) h = elim (Bool-cases (code c == code p)) [
  | inl same ↦ cc ((==_iff (code c) (code p)).0 same, after_prefix-some s ps (rw same at h))
  | inr unlike ↦ absurd (cc (rw unlike at h))
]

after_prefix-none :
    (s p field : String) → after_prefix s p ≡ none → codes s ≢ codes p ++ codes field
unfolding after_prefix
after_prefix-none s String.[] field h e = cc
after_prefix-none String.[] (String.◌∷◌ p ps) field h e = cc
after_prefix-none (String.◌∷◌ c s) (String.◌∷◌ p ps) field h e =
    let heads : code c ≡ code p = cc in
    let tails : codes s ≡ codes ps ++ codes field = cc in
    after_prefix-none s ps field (rw ((==_iff (code c) (code p)).1 heads) at h) tails

pub normalize_json_decode_error-Reported :
    (e : JsonError) → Reported e (normalize_json_decode_error e)
unfolding normalize_json_decode_error
normalize_json_decode_error-Reported eof = nothing
normalize_json_decode_error-Reported (syntax offset) = at_byte offset
normalize_json_decode_error-Reported unexpected_eof = early_end
normalize_json_decode_error-Reported (unmarshal_type field offset) =
    elim (Bool-cases (str_eq field "")) [
      | inl e ↦ rw (e, (eq_iff field "").0 e) (in_value offset)
      | inr f ↦ rw f (in_field field offset (λ k. cc ((eq_iff field "").1 k, f)))
    ]
normalize_json_decode_error-Reported (other text) =
    elim (Option-cases (after_prefix text "json: unknown field ")) [
      | inl e ↦
          rw e (as_it_is text (λ field. after_prefix-none text "json: unknown field " field e))
      | inr (field, e) ↦
          rw e (not_known text field (after_prefix-some text "json: unknown field " e))
    ]
