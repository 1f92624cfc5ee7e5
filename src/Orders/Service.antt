-- ===== src/Orders/Service.antt =====
-- internal/orders/service.go: the service over its `serviceRepository` interface. S is whatever the
-- repository and the source of uuids change; `parse_uuid` stands for `uuid.Parse`.
pub mod Targets
pub mod SafeCalls
pub mod Changes
pub mod Methods
use oms_go.Prelude.{
  ℕ, suc, Bool, true, false, ◌&&◌, ◌||◌, not, Option, none, some, String, List, [], ◌∷◌, str_eq,
  any, if◌then◌else◌,
}
use oms_go.Prelude.Exec.{Result, ok, err, Exec, pure, raise, lift, handle, ◌>>=◌, ◌>>◌}
use oms_go.Prelude.Int.{ℤ}
use oms_go.Prelude.Text.{◌<>◌, decimal}
use oms_go.Db.Models.{Uuid, Timestamp, Order, OrderItem, OrderEvent}
use oms_go.Db.Tables.{DbError, no_rows, pg_error, connection}
use oms_go.Db.Checks.{unique_violation}
use oms_go.Orders.Errors.{
  OrderStatus, Error, order_not_found, idempotency_conflict, invalid_actor_type, invalid_transition,
  validation_errors, db, FieldError,
}
use oms_go.Orders.StateMachine.{
  status_pending, status_processing, status_shipped, status_delivered, status_cancelled,
  validate_transition,
}
use oms_go.Orders.Money.{calculate_total_cents}
use oms_go.Orders.Validation.{CreateOrderItemRequest, validate_create_order_request}
use oms_go.Orders.Commands.{
  CreateOrderItemInput, CreateOrderCommand, CreateOrderResult, CancelOrderCommand,
  UpdateOrderStatusCommand, ProcessPendingOrdersBatchCommand, ListOrdersCommand,
}
use oms_go.Orders.Interface.{
  Service, OrderDetails, CreateOrderInput, ListOrdersInput, CancelOrderInput,
  UpdateOrderStatusInput, ProcessPendingOrdersBatchInput,
}

abbrev pub actor_type_admin : String
actor_type_admin = "ADMIN"

abbrev pub actor_type_system : String
actor_type_system = "SYSTEM"

abbrev pub idempotency_constraint_name : String
idempotency_constraint_name = "orders_customer_id_idempotency_key_key"

unfoldable pub is_idempotency_conflict_error : DbError → Bool
is_idempotency_conflict_error (pg_error code constraint_name) =
    str_eq code unique_violation && str_eq constraint_name idempotency_constraint_name
is_idempotency_conflict_error no_rows = false
is_idempotency_conflict_error connection = false

unfoldable pub is_allowed_actor_type : String → List String → Bool
is_allowed_actor_type actor_type allowed = any (λ candidate. str_eq actor_type candidate) allowed

-- The status that an order must have for the change, with `ValidateTransition` for the rest.
unfoldable pub refusal : Option Error → Result Error OrderStatus
refusal none = ok ""
refusal (some e) = err e

unfoldable pub expected_status_for_target : OrderStatus → Result Error OrderStatus
unfolding refusal
expected_status_for_target target =
    if str_eq target status_processing
    then ok status_pending
    else if str_eq target status_shipped
    then ok status_processing
    else if str_eq target status_delivered
    then ok status_shipped
    else if str_eq target status_cancelled
    then ok status_pending
    else refusal (validate_transition status_pending target)

-- `errors.Is(err, pgx.ErrNoRows)` tells a missing row from the other errors.
unfoldable pub or_not_found : {S A : Type 0} → DbError → Exec S Error A
or_not_found no_rows = raise order_not_found
or_not_found e = raise (db e)

-- `if err := ValidateTransition(…); err != nil { return err }`.
unfoldable pub check : {S : Type 0} → Option Error → Exec S Error (Unit {0})
check none = pure tt
check (some e) = raise e

abbrev pub from_db : {S A : Type 0} → Exec S DbError A → Exec S Error A
from_db m = handle m (λ e. raise (db e))

unfoldable pub or_conflict : {S A : Type 0} → DbError → Exec S Error A
unfolding is_idempotency_conflict_error
or_conflict e = if is_idempotency_conflict_error e then raise idempotency_conflict else raise (db e)

unfoldable pub no_events : List OrderEvent → Error
no_events [] = order_not_found
no_events (e ∷ es) = invalid_transition none

unfoldable pub invalid : {S : Type 0} → List FieldError → Exec S Error (Unit {0})
invalid [] = pure tt
invalid (e ∷ es) = raise (validation_errors (e ∷ es))

unfoldable pub reject_invalid : {S : Type 0} → CreateOrderInput → Exec S Error (Unit {0})
reject_invalid input = invalid (
    validate_create_order_request (record {
      idempotency_key = input.idempotency_key;
      currency = input.currency;
      items = input.items;
    }))

module _ {S : Type 0} (service : Service S) where
  open service use {repo, new_uuid}

  unfoldable pub draw : Exec S Error Uuid
  draw s = let (u, s') = new_uuid s in (ok u, s')

  unfoldable pub get_order : Uuid → Uuid → Exec S Error OrderDetails
  unfolding or_not_found
  get_order order_id customer_id = do
    order ← handle (repo.get_order_by_id_and_customer_id order_id customer_id) or_not_found
    items ← from_db (repo.get_order_items_by_order_id order_id)
    pure (record { order = order; items = items })

  unfoldable pub list_orders : ListOrdersInput → Exec S Error (List Order)
  list_orders input = from_db (
      repo.list_orders (record {
        customer_id = input.customer_id;
        limit = input.limit;
        status = input.status;
        cursor_created_at = input.cursor_created_at;
        cursor_id = input.cursor_id;
      }))

  unfoldable pub hydrate_order_details : List Order → Exec S Error (List OrderDetails)
  hydrate_order_details [] = pure []
  hydrate_order_details (order ∷ orders_list) = do
    items ← from_db (repo.get_order_items_by_order_id order.id)
    details ← hydrate_order_details orders_list
    pure (record { order = order; items = items } ∷ details)

  unfoldable pub list_order_details : ListOrdersInput → Exec S Error (List OrderDetails)
  list_order_details input = do orders_list ← list_orders input; hydrate_order_details orders_list

  unfoldable pub cancel_order : CancelOrderInput → Exec S Error Order
  cancel_order input = do
    order ←
        handle (repo.get_order_by_id_and_customer_id input.order_id input.customer_id) or_not_found
    check (validate_transition order.status status_cancelled)
    from_db (
        repo.cancel_order_with_audit (record {
          order_id = input.order_id;
          customer_id = input.customer_id;
          actor_id = input.actor_id;
          reason = input.reason;
          ip_address = input.ip_address;
        }))

  -- The order with its items, after a change.
  unfoldable pub with_items : Order → Exec S Error OrderDetails
  with_items order = do
    items ← from_db (repo.get_order_items_by_order_id order.id)
    pure (record { order = order; items = items })

  unfoldable pub cancel_order_details : CancelOrderInput → Exec S Error OrderDetails
  cancel_order_details input = do order ← cancel_order input; with_items order

  unfoldable pub resolve_status_update_no_rows : {A : Type 0} → Uuid → Exec S Error A
  resolve_status_update_no_rows order_id = do
    events ← from_db (repo.get_order_events_by_order_id order_id)
    raise (no_events events)

  unfoldable pub resolve : Uuid → DbError → Exec S Error Order
  resolve order_id no_rows = resolve_status_update_no_rows order_id
  resolve order_id e = raise (db e)

  unfoldable pub update_order_status : UpdateOrderStatusInput → Exec S Error Order
  update_order_status input =
      if not (is_allowed_actor_type input.actor_type (actor_type_admin ∷ actor_type_system ∷ []))
      then raise invalid_actor_type
      else do
        check (validate_transition input.expected_status input.new_status)
        handle
            (repo.update_order_status_with_audit (record {
              order_id = input.order_id;
              expected_status = input.expected_status;
              new_status = input.new_status;
              actor_type = input.actor_type;
              actor_id = input.actor_id;
              reason = input.reason;
              ip_address = input.ip_address;
            }))
            (resolve input.order_id)

  unfoldable pub update_order_status_details : UpdateOrderStatusInput → Exec S Error OrderDetails
  update_order_status_details input = do order ← update_order_status input; with_items order

  unfoldable pub update_order_status_by_target :
      Uuid
      → OrderStatus
      → String
      → Option Uuid
      → Option String
      → Option String
      → Exec S Error OrderDetails
  update_order_status_by_target order_id new_status actor_type actor_id reason ip_address = do
    expected_status ← lift (expected_status_for_target new_status)
    update_order_status_details (record {
      order_id = order_id;
      expected_status = expected_status;
      new_status = new_status;
      actor_type = actor_type;
      actor_id = actor_id;
      reason = reason;
      ip_address = ip_address;
    })

  unfoldable pub process_pending_orders_batch :
      ProcessPendingOrdersBatchInput → Exec S Error (List Order)
  process_pending_orders_batch input = do
    check (validate_transition status_pending status_processing)
    from_db (
        repo.process_pending_orders_batch_with_audit (record {
          limit = input.limit;
          actor_id = input.actor_id;
          reason = input.reason;
          ip_address = input.ip_address;
        }))

  module _ (parse_uuid : String → Option Uuid) where
    unfoldable pub product_id_error : ℕ → Error
    product_id_error index = validation_errors (
        record {
          field = "items[" <> decimal index <> "].product_id";
          message = "must be a valid UUID";
        }
        ∷ [])

    unfoldable pub parse_product : ℕ → Option Uuid → Exec S Error Uuid
    parse_product index none = raise (product_id_error index)
    parse_product index (some id) = pure id

    -- The loop over the items of the request.
    unfoldable pub command_items :
        ℕ → List CreateOrderItemRequest → Exec S Error (List CreateOrderItemInput)
    command_items index [] = pure []
    command_items index (item ∷ items) = do
      product_id ← parse_product index (parse_uuid item.product_id)
      id ← draw
      cmd_items ← command_items (suc index) items
      pure (
          record {
            id = id;
            product_id = product_id;
            sku = item.sku;
            quantity = item.quantity;
            unit_price_cents = item.unit_price_cents;
          }
          ∷ cmd_items)

    unfoldable pub create_order : CreateOrderInput → Exec S Error CreateOrderResult
    create_order input = do
      reject_invalid input
      total_cents ← lift (calculate_total_cents input.items)
      cmd_items ← command_items 0 input.items
      order_id ← draw
      handle
          (repo.create_order_with_items_and_audit (record {
            order_id = order_id;
            customer_id = input.customer_id;
            idempotency_key = input.idempotency_key;
            total_cents = total_cents;
            currency = input.currency;
            items = cmd_items;
            actor_id = input.actor_id;
            reason = input.reason;
            ip_address = input.ip_address;
          }))
          or_conflict
