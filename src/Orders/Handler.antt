-- ===== src/Orders/Handler.antt =====
-- internal/orders/handler.go: what the handlers read from a request, and what they write. `Texts` has
-- the functions of other packages on texts: `time.Parse` and `Format` with RFC3339Nano in UTC (a time
-- is rounded to microseconds, as PostgreSQL does), `uuid.Parse` and `String`, the base64 of the bytes of
-- a text (RawURLEncoding), the host of `net.SplitHostPort`, and `netip.ParseAddr` with `String`.
pub mod Cursor
pub mod Shows
pub mod Endpoints
pub mod Access
use oms_go.Prelude.{
  ℕ, ◌<◌, Bool, true, false, ◌||◌, not, Option, none, some, String, List, [], ◌∷◌, length, str_eq,
  ◌==◌, map, if◌then◌else◌,
}
use oms_go.Prelude.Int.{ℤ, pos, negsuc, ltb_ℤ}
use oms_go.Prelude.Numbers.{atoi}
use oms_go.Prelude.Exec.{Result, ok, err, some_or_fail}
use oms_go.Prelude.Text.{◌<>◌, trim_space, decimal}
use oms_go.Prelude.Text.Words.{split_on}
use oms_go.Db.Models.{Uuid, Timestamp, OrderItem}
use oms_go.Auth.{role_admin, role_system, Identity}
use oms_go.Http.{
  HttpRequest, text, error_text, Answer, write_json_error, status_bad_request, status_not_found,
  status_conflict, status_internal_server_error,
}
use oms_go.Orders.Errors.{
  OrderStatus, order_not_found, idempotency_conflict, invalid_transition, validation_errors,
}
use oms_go.Orders.StateMachine.{is_valid_status}
use oms_go.Orders.Json.{too_large, malformed, unknown_field, unread}
use oms_go.Orders.Decoding.{RequestError, body_error, failed}
use oms_go.Orders.Interface.{OrderDetails}

pub record Texts : Type 0 where
  pub format_time : Timestamp → String
  pub parse_time : String → Option Timestamp
  pub format_uuid : Uuid → String
  pub parse_uuid : String → Option Uuid
  pub encode : String → String
  pub decode : String → Option String
  pub split_host_port : String → Option String
  pub parse_addr : String → Option String

abbrev pub default_list_limit : ℕ
default_list_limit = 50

abbrev pub max_list_limit : ℕ
max_list_limit = 100

in_range : Option ℤ → Result String ℤ
in_range none = err "limit must be an integer"
in_range (some value) =
    if ltb_ℤ value (pos 1) || ltb_ℤ (pos max_list_limit) value
    then err ("limit must be between 1 and " <> decimal max_list_limit)
    else ok value

unfoldable pub parse_list_limit : String → Result String ℤ
unfolding in_range
parse_list_limit raw =
    if str_eq (trim_space raw) "" then ok (pos default_list_limit) else in_range (atoi raw)

unfoldable pub parse_status : String → Result String (Option OrderStatus)
parse_status raw =
    if str_eq (trim_space raw) ""
    then ok none
    else if not (is_valid_status (trim_space raw))
    then err "status must be a valid OMS status"
    else ok (some (trim_space raw))

pub record OrderItemResponse : Type 0 where
  pub product_id : String
  pub sku : String
  pub quantity : ℤ
  pub unit_price_cents : ℤ

pub record OrderResponse : Type 0 where
  pub id : String
  pub customer_id : String
  pub status : String
  pub currency : String
  pub total_cents : ℤ
  pub items : List OrderItemResponse
  pub created_at : Timestamp
  pub updated_at : Timestamp

pub record OrderListResponse : Type 0 where
  pub orders : List OrderResponse
  pub next_cursor : Option String

pub data Payload : Type 0 where
  order_payload : OrderResponse → Payload
  list_payload : OrderListResponse → Payload

abbrev pub bad_request : {P : Type 0} → String → Answer P
bad_request message = write_json_error status_bad_request "invalid_request" (text message)

abbrev pub internal_error : {P : Type 0} → String → Answer P
internal_error message =
    write_json_error status_internal_server_error "internal_error" (text message)

unfoldable pub write_handler_error : {P : Type 0} → RequestError → Answer P
write_handler_error (body_error (unread e)) = internal_error "Internal Server Error"
write_handler_error (body_error e) =
    write_json_error status_bad_request "invalid_request" (error_text (body_error e))
write_handler_error (failed (validation_errors es)) =
    write_json_error status_bad_request "invalid_request"
      (error_text (failed (validation_errors es)))
write_handler_error (failed order_not_found) =
    write_json_error status_not_found "not_found" (error_text (failed order_not_found))
write_handler_error (failed (invalid_transition change)) =
    write_json_error status_conflict "conflict" (error_text (failed (invalid_transition change)))
write_handler_error (failed idempotency_conflict) =
    write_json_error status_conflict "conflict" (text "idempotency conflict")
write_handler_error (failed e) = internal_error "Internal Server Error"

unfoldable pub privileged_actor_id : Identity → Option Uuid
privileged_actor_id identity =
    if str_eq identity.role role_admin || str_eq identity.role role_system
    then identity.subject_id
    else none

module _ (texts : Texts) where
  open texts use {format_uuid, parse_uuid, split_host_port, parse_addr}

  unfoldable pub map_item_response : OrderItem → OrderItemResponse
  map_item_response item = record {
    product_id = format_uuid item.product_id;
    sku = item.sku;
    quantity = item.quantity;
    unit_price_cents = item.unit_price_cents;
  }

  unfoldable pub map_order_response : OrderDetails → OrderResponse
  unfolding map_item_response
  map_order_response detail = record {
    id = format_uuid detail.order.id;
    customer_id = format_uuid detail.order.customer_id;
    status = detail.order.status;
    currency = detail.order.currency;
    total_cents = detail.order.total_cents;
    items = map map_item_response detail.items;
    created_at = detail.order.created_at;
    updated_at = detail.order.updated_at;
  }

  unfoldable pub parse_order_id : HttpRequest → Result String Uuid
  parse_order_id r = some_or_fail "order_id must be a valid UUID" (parse_uuid r.order_id)

  unfoldable pub parse_ip_address : String → Option String
  parse_ip_address raw = if str_eq (trim_space raw) "" then none else parse_addr (trim_space raw)

  host_address : String → Option String → Option String
  host_address remote_addr none = parse_ip_address remote_addr
  host_address remote_addr (some host) = parse_ip_address host

  unfoldable pub request_ip_address : HttpRequest → Option String
  unfolding host_address
  request_ip_address r =
      let remote_addr = trim_space r.remote_addr in
      if str_eq remote_addr "" then none else host_address remote_addr (split_host_port remote_addr)
