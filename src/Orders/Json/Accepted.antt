-- ===== src/Orders/Json/Accepted.antt =====
-- internal/orders/json.go: the bodies that `decodeJSONStrict` accepts.
use oms_go.Prelude.{
  ℕ, zero, suc, ◌+◌, ◌≤◌, ◌<◌, ◌≡◌, refl, sym, ap, subst, Bool-cases, inl, inr, true, false,
  Option-cases, Option, none, some, String, List, [], ◌∷◌, length, leb, ltb, arith,
}
use oms_go.Prelude.Sort.{take}
use oms_go.Prelude.Exec.{Result, ok, err}
use oms_go.Orders.Json.Errors.{Reported, normalize_json_decode_error-Reported}
use oms_go.Orders.Json.{
  Body, JsonError, eof, syntax, unexpected_eof, unmarshal_type, other, BodyError, too_large, unread,
  malformed, multiple_values, normalize_json_decode_error, single, decoded, decode_json_strict,
}

length-take : {A : Type 0} (n : ℕ) (xs : List A) → n ≤ length xs → length (take n xs) ≡ n
unfolding take
length-take zero xs h = refl
length-take (suc n) [] h = absurd (omega arith)
length-take (suc n) (x ∷ xs) h = ap suc (length-take n xs (omega arith))

over :
    (n : ℕ) (xs : List ℕ) → leb (n + 1) (length xs) ≡ true → ltb n (length (take (n + 1) xs)) ≡ true
over n xs h = ground (arith, length-take (n + 1) xs)

within : (n : ℕ) (xs : List ℕ) → leb (n + 1) (length xs) ≡ false → ltb n (length xs) ≡ false
within n xs h = ground arith

module _ {A : Type 0} (first : List ℕ → Result JsonError (A × List ℕ))
    (next : List ℕ → Option JsonError) where
  -- What became of a body.
  pub data Outcome (max_bytes : ℕ) (body : Body) (r : Result BodyError A) : Type 0 where
    oversized : max_bytes < length body.content → r ≡ err too_large → Outcome max_bytes body r
    broken_off :
        (e : String)
        → length body.content ≤ max_bytes
        → body.broken ≡ some e
        → r ≡ err (unread e)
        → Outcome max_bytes body r
    refused :
        (e : JsonError)
        → length body.content ≤ max_bytes
        → body.broken ≡ none
        → first body.content ≡ err e
        → Reported e (normalize_json_decode_error e)
        → r ≡ err (normalize_json_decode_error e)
        → Outcome max_bytes body r
    trailing :
        (value : A) (rest : List ℕ)
        → length body.content ≤ max_bytes
        → body.broken ≡ none
        → first body.content ≡ ok (value, rest)
        → ¬ (next rest ≡ some eof)
        → r ≡ err (malformed multiple_values)
        → Outcome max_bytes body r
    accepted :
        (value : A) (rest : List ℕ)
        → length body.content ≤ max_bytes
        → body.broken ≡ none
        → first body.content ≡ ok (value, rest)
        → next rest ≡ some eof
        → r ≡ ok value
        → Outcome max_bytes body r

  module _ (max_bytes : ℕ) (body : Body) (fits : length body.content ≤ max_bytes)
      (whole : body.broken ≡ none) where
    single-Outcome :
        (value : A) (rest : List ℕ) (o : Option JsonError)
        → first body.content ≡ ok (value, rest)
        → next rest ≡ o
        → Outcome max_bytes body (single first next value o)
    unfolding single
    single-Outcome value rest none f e = trailing value rest fits whole f (λ q. cc) refl
    single-Outcome value rest (some eof) f e = accepted value rest fits whole f e refl
    single-Outcome value rest (some (syntax n)) f e =
        trailing value rest fits whole f (λ q. cc) refl
    single-Outcome value rest (some unexpected_eof) f e =
        trailing value rest fits whole f (λ q. cc) refl
    single-Outcome value rest (some (unmarshal_type s n)) f e =
        trailing value rest fits whole f (λ q. cc) refl
    single-Outcome value rest (some (other s)) f e = trailing value rest fits whole f (λ q. cc) refl

    decoded-Outcome :
        (r : Result JsonError (A × List ℕ))
        → first body.content ≡ r
        → Outcome max_bytes body (decoded first next r)
    unfolding decoded
    decoded-Outcome (err e) f = refused e fits whole f (normalize_json_decode_error-Reported e) refl
    decoded-Outcome (ok (value, rest)) f = single-Outcome value rest (next rest) f refl

  decode-whole :
      (max_bytes : ℕ) (body : Body)
      → leb (max_bytes + 1) (length body.content) ≡ false
      → body.broken ≡ none
      → decode_json_strict first next max_bytes body ≡ decoded first next (first body.content)
  unfolding decode_json_strict
  decode-whole max_bytes body short whole = rw (short, whole, within max_bytes body.content short)

  -- `decodeJSONStrict` tells five cases apart: a body above the limit is too large, whatever it holds;
  -- one that breaks off is unread; one that does not decode is refused by the decoder's error, with its
  -- field or byte where it has one; one with something after its value is malformed; and any other is accepted as the value of all its bytes.
  pub decode_json_strict-Outcome :
      (max_bytes : ℕ) (body : Body)
      → Outcome max_bytes body (decode_json_strict first next max_bytes body)
  unfolding decode_json_strict
  decode_json_strict-Outcome max_bytes body =
      elim (Bool-cases (leb (max_bytes + 1) (length body.content))) [
        | inl long ↦ rw (long, over max_bytes body.content long) (oversized (ground arith) refl)
        | inr short ↦ elim (Option-cases body.broken) [
          | inr (e, broken) ↦ broken_off e (ground arith) broken (rw (short, broken))
          | inl whole ↦
              subst (Outcome max_bytes body) (sym (decode-whole max_bytes body short whole))
                (decoded-Outcome max_bytes body (ground arith) whole (first body.content) refl)
        ]
      ]
