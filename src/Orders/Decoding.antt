-- ===== src/Orders/Decoding.antt =====
-- internal/orders/validation.go: `DecodeCreateOrderRequest` and `DecodeUpdateOrderStatusRequest`, and the
-- errors that a handler may meet.
use oms_go.Prelude.{ℕ, ◌^◌, Option, List, [], ◌∷◌}
use oms_go.Prelude.Exec.{Result, ok, err}
use oms_go.Orders.Errors.{OrderStatus, FieldError, Error, validation_errors}
use oms_go.Orders.Validation.{
  CreateOrderRequest, validate_create_order_request, validate_update_order_status_request,
}
use oms_go.Orders.Json.{Body, JsonError, BodyError, decode_json_strict}

abbrev pub default_request_body_limit : ℕ
default_request_body_limit = 2 ^ 20

pub data RequestError : Type 0 where
  body_error : BodyError → RequestError
  failed : Error → RequestError

-- encoding/json for a type A, as in Orders.Json.
pub record Decoder (A : Type 0) : Type 0 where
  pub first : List ℕ → Result JsonError (A × List ℕ)
  pub next : List ℕ → Option JsonError

abbrev pub valid_or_errors : {A : Type 0} → A → List FieldError → Result RequestError A
valid_or_errors req [] = ok req
valid_or_errors req (e ∷ es) = err (failed (validation_errors (e ∷ es)))

abbrev pub validated :
    {A : Type 0} → (A → List FieldError) → Result BodyError A → Result RequestError A
validated validate (err e) = err (body_error e)
validated validate (ok req) = valid_or_errors req (validate req)

unfoldable pub decode_create_order_request :
    Decoder CreateOrderRequest → Body → ℕ → Result RequestError CreateOrderRequest
decode_create_order_request decoder body max_bytes =
    validated validate_create_order_request
      (decode_json_strict decoder.first decoder.next max_bytes body)

-- The request is its field `status`.
unfoldable pub decode_update_order_status_request :
    Decoder OrderStatus → Body → ℕ → Result RequestError OrderStatus
decode_update_order_status_request decoder body max_bytes =
    validated validate_update_order_status_request
      (decode_json_strict decoder.first decoder.next max_bytes body)
