-- ===== src/Orders/Handler/Endpoints.antt =====
-- internal/orders/handler.go: the five handlers over a `handlerService`, and the routes. A handler that
-- writes its answer and returns early is a call that fails with the answer. `net/http`'s router is left
-- out: a route is a value.
use oms_go.Prelude.{
  ℕ, Bool, false, Option, none, some, String, List, [], ◌∷◌, length, ◌==◌, map, if◌then◌else◌,
}
use oms_go.Prelude.Int.{ℤ, pos, negsuc}
use oms_go.Prelude.Exec.{Result, ok, err, Exec, pure, raise, handle, ◌>>=◌}
use oms_go.Db.Models.{Uuid}
use oms_go.Auth.{role_admin, role_system, Identity, customer_id_from_context, role_from_context}
use oms_go.Auth.Guards.{require_role}
use oms_go.Http.{Answer, write_json, unauthorized, Handler, status_ok, status_created}
use oms_go.Orders.Errors.{OrderStatus, Error}
use oms_go.Orders.Validation.{CreateOrderRequest}
use oms_go.Orders.Decoding.{
  RequestError, failed, Decoder, default_request_body_limit, decode_create_order_request,
  decode_update_order_status_request,
}
use oms_go.Orders.Commands.{CreateOrderResult}
use oms_go.Orders.Interface.{OrderDetails, CreateOrderInput, ListOrdersInput, CancelOrderInput}
use oms_go.Orders.Handler.{
  Texts, parse_list_limit, parse_status, parse_order_id, OrderListResponse, Payload, order_payload,
  list_payload, bad_request, internal_error, write_handler_error, privileged_actor_id,
  map_order_response, request_ip_address,
}
use oms_go.Orders.Handler.Cursor.{parse_cursor, encode_cursor}

-- The interface `handlerService`.
pub record HandlerService (S : Type 0) : Type 0 where
  pub create_order : CreateOrderInput → Exec S Error CreateOrderResult
  pub get_order : Uuid → Uuid → Exec S Error OrderDetails
  pub list_order_details : ListOrdersInput → Exec S Error (List OrderDetails)
  pub cancel_order_details : CancelOrderInput → Exec S Error OrderDetails
  pub update_order_status_by_target :
      Uuid
      → OrderStatus
      → String
      → Option Uuid
      → Option String
      → Option String
      → Exec S Error OrderDetails

pub record Decoders : Type 0 where
  pub create_order : Decoder CreateOrderRequest
  pub update_order_status : Decoder OrderStatus

pub data Route : Type 0 where
  post_order get_orders get_order_by_id post_cancel patch_status : Route

-- Until an answer is written.
abbrev pub Writes : Type 0 → Type 0 → Type 0
Writes S A = Exec S (Answer Payload) A

abbrev pub written : {P : Type 0} → Result (Answer P) (Answer P) → Answer P
written (ok answer) = answer
written (err answer) = answer

module _ {S : Type 0} where
  unfoldable pub finish : Writes S (Answer Payload) → S → Answer Payload × S
  finish m s = let (answer, s') = m s in (written answer, s')

  unfoldable pub or_bad_request : {A : Type 0} → Result String A → Writes S A
  or_bad_request (ok a) = pure a
  or_bad_request (err message) = raise (bad_request message)

  unfoldable pub or_handler_error : {A : Type 0} → Result RequestError A → Writes S A
  or_handler_error (ok a) = pure a
  or_handler_error (err e) = raise (write_handler_error e)

  unfoldable pub or_unauthorized : {A : Type 0} → Option A → Writes S A
  or_unauthorized none = raise unauthorized
  or_unauthorized (some a) = pure a

  unfoldable pub or_unavailable : {A : Type 0} → Option A → Writes S A
  or_unavailable none = raise (internal_error "service unavailable")
  or_unavailable (some a) = pure a

  -- A call of the service.
  unfoldable pub ask : {A : Type 0} → Exec S Error A → Writes S A
  ask call = handle call (λ e. raise (write_handler_error (failed e)))

-- `len(details) == int(limit)`.
abbrev pub is_full : ℤ → ℕ → Bool
is_full (pos n) count = count == n
is_full (negsuc n) count = false

abbrev pub last : List OrderDetails → Option OrderDetails
last [] = none
last (d ∷ []) = some d
last (d ∷ e ∷ ds) = last (e ∷ ds)

unfoldable pub actor_of : Option Identity → Option Uuid
actor_of none = none
actor_of (some identity) = privileged_actor_id identity

module _ (texts : Texts) where
  unfoldable pub cursor_of : Option OrderDetails → Option String
  cursor_of none = none
  cursor_of (some d) = some (encode_cursor texts d.order.created_at d.order.id)

  -- A limit is at least 1, so a full page has a last row.
  unfoldable pub list_response : ℤ → List OrderDetails → OrderListResponse
  unfolding cursor_of
  list_response limit details = record {
    orders = map (map_order_response texts) details;
    next_cursor = if is_full limit (length details) then cursor_of (last details) else none;
  }

  module _ (decoders : Decoders) {S : Type 0} (handler_service : Option (HandlerService S)) where
    unfoldable pub create_order : Handler S Payload
    unfolding finish or_unavailable or_unauthorized or_handler_error ask
    create_order r = finish do
      service ← or_unavailable handler_service
      customer_id ← or_unauthorized (customer_id_from_context r.identity)
      req ←
          or_handler_error
            (decode_create_order_request decoders.create_order r.body default_request_body_limit)
      result ← ask (
          service.create_order (record {
            customer_id = customer_id;
            idempotency_key = req.idempotency_key;
            currency = req.currency;
            items = req.items;
            actor_id = some customer_id;
            reason = none;
            ip_address = request_ip_address texts r;
          }))
      pure (
          write_json status_created (
            order_payload
              (map_order_response texts (record { order = result.order; items = result.items }))))

    unfoldable pub get_order : Handler S Payload
    unfolding finish or_unavailable or_unauthorized or_bad_request ask
    get_order r = finish do
      service ← or_unavailable handler_service
      customer_id ← or_unauthorized (customer_id_from_context r.identity)
      order_id ← or_bad_request (parse_order_id texts r)
      details ← ask (service.get_order order_id customer_id)
      pure (write_json status_ok (order_payload (map_order_response texts details)))

    unfoldable pub list_orders : Handler S Payload
    unfolding finish or_unavailable or_unauthorized or_bad_request ask
    list_orders r = finish do
      service ← or_unavailable handler_service
      customer_id ← or_unauthorized (customer_id_from_context r.identity)
      limit ← or_bad_request (parse_list_limit (r.query "limit"))
      status ← or_bad_request (parse_status (r.query "status"))
      key ← or_bad_request (parse_cursor texts (r.query "cursor"))
      details ← ask (
          service.list_order_details (record {
            customer_id = customer_id;
            limit = limit;
            status = status;
            cursor_created_at = key.0;
            cursor_id = key.1;
          }))
      pure (write_json status_ok (list_payload (list_response limit details)))

    unfoldable pub cancel_order : Handler S Payload
    unfolding finish or_unavailable or_unauthorized or_bad_request ask
    cancel_order r = finish do
      service ← or_unavailable handler_service
      customer_id ← or_unauthorized (customer_id_from_context r.identity)
      order_id ← or_bad_request (parse_order_id texts r)
      details ← ask (
          service.cancel_order_details (record {
            order_id = order_id;
            customer_id = customer_id;
            actor_id = some customer_id;
            reason = none;
            ip_address = request_ip_address texts r;
          }))
      pure (write_json status_ok (order_payload (map_order_response texts details)))

    unfoldable pub update_order_status : Handler S Payload
    unfolding finish or_unavailable or_unauthorized or_bad_request or_handler_error ask actor_of
    update_order_status r = finish do
      service ← or_unavailable handler_service
      order_id ← or_bad_request (parse_order_id texts r)
      status ← or_handler_error (
          decode_update_order_status_request decoders.update_order_status r.body
            default_request_body_limit)
      role ← or_unauthorized (role_from_context r.identity)
      details ← ask (
          service.update_order_status_by_target order_id status role (actor_of r.identity) none
            (request_ip_address texts r))
      pure (write_json status_ok (order_payload (map_order_response texts details)))

    -- `RegisterRoutes`.
    unfoldable pub serve_route : Route → Handler S Payload
    serve_route post_order = create_order
    serve_route get_orders = list_orders
    serve_route get_order_by_id = get_order
    serve_route post_cancel = cancel_order
    serve_route patch_status = require_role (role_admin ∷ role_system ∷ []) update_order_status
