-- ===== src/Orders/Repository.antt =====
-- internal/orders/repository.go: each method is the transaction or the query that it runs. `parse_addr`
-- stands for `netip.ParseAddr` with the text that PostgreSQL keeps of the address.
pub mod Bodies
pub mod Trails
pub mod Batches
pub mod Lives
pub mod Booked
pub mod Placing
use oms_go.Prelude.{Option, none, some, String, List, [], ◌∷◌, str_eq, if◌then◌else◌}
use oms_go.Prelude.Exec.{◌>>=◌, ◌>>◌, pure}
use oms_go.Db.Models.{Uuid, Order, OrderEvent, OrderItem}
use oms_go.Db.Inserts.{create_order, create_order_item, create_order_event}
use oms_go.Db.Selects.{
  get_order_by_id_and_customer_id, get_order_events_by_order_id, get_order_items_by_order_id,
  list_orders_by_customer_id, list_orders_by_customer_id_and_status,
}
use oms_go.Db.Updates.{
  cancel_pending_order, update_order_status_if_current_status_matches,
  worker_pick_and_move_pending_orders_to_processing,
}
use oms_go.Db.World.{Action, run_query}
use oms_go.Orders.Errors.{OrderStatus}
use oms_go.Orders.StateMachine.{status_pending, status_processing, status_cancelled}
use oms_go.Orders.Commands.{
  actor_type_customer, actor_type_system, action_created, action_cancelled, action_status_updated,
  action_worker_moved_to_processing, CreateOrderItemInput, CreateOrderCommand, CreateOrderResult,
  CancelOrderCommand, UpdateOrderStatusCommand, ProcessPendingOrdersBatchCommand, ListOrdersCommand,
}
use oms_go.Orders.Transaction.{with_tx, draw_uuid}

unfoldable pub null_status : OrderStatus → Option String
null_status status = if str_eq status "" then none else some status

unfoldable pub inet_value : (String → Option String) → Option String → Option String
inet_value parse_addr none = none
inet_value parse_addr (some value) = if str_eq value "" then none else parse_addr value

unfoldable pub get_order_by_id_and_customer_id_of : Uuid → Uuid → Action Order
get_order_by_id_and_customer_id_of order_id customer_id = run_query (λ now locked.
    get_order_by_id_and_customer_id (record { id = order_id; customer_id = customer_id }))

unfoldable pub list_orders : ListOrdersCommand → Action (List Order)
list_orders cmd = elim cmd.status [
  | none ↦ all_orders
  | some status ↦
      if str_eq status ""
      then all_orders
      else run_query (λ now locked. list_orders_by_customer_id_and_status (record {
        customer_id = cmd.customer_id;
        status = status;
        limit = cmd.limit;
        cursor_created_at = cmd.cursor_created_at;
        cursor_id = cmd.cursor_id;
      }))
]
  where
    all_orders : Action (List Order)
    all_orders = run_query (λ now locked. list_orders_by_customer_id (record {
      customer_id = cmd.customer_id;
      limit = cmd.limit;
      cursor_created_at = cmd.cursor_created_at;
      cursor_id = cmd.cursor_id;
    }))

unfoldable pub get_order_items_by_order_id_of : Uuid → Action (List OrderItem)
get_order_items_by_order_id_of order_id =
    run_query (λ now locked. get_order_items_by_order_id order_id)

unfoldable pub get_order_events_by_order_id_of : Uuid → Action (List OrderEvent)
get_order_events_by_order_id_of order_id =
    run_query (λ now locked. get_order_events_by_order_id order_id)

-- The loop over `cmd.Items`.
pub create_items : Uuid → List CreateOrderItemInput → Action (List OrderItem)
create_items order_id [] = pure []
create_items order_id (item ∷ items) = do
  created_item ← run_query (λ now locked. create_order_item now (record {
    id = item.id;
    order_id = order_id;
    product_id = item.product_id;
    sku = item.sku;
    quantity = item.quantity;
    unit_price_cents = item.unit_price_cents;
  }))
  created_items ← create_items order_id items
  pure (created_item ∷ created_items)

module _ (parse_addr : String → Option String) where
  -- The CreateOrderEvent of each method, with its fresh id.
  pub record_event :
      Uuid
      → String
      → Option Uuid
      → OrderStatus
      → OrderStatus
      → String
      → Option String
      → Option String
      → Action OrderEvent
  unfolding null_status inet_value
  record_event order_id actor_type actor_id from to action reason ip_address = do
    id ← draw_uuid
    run_query (λ now locked. create_order_event now (record {
      id = id;
      order_id = order_id;
      actor_type = actor_type;
      actor_id = actor_id;
      from_status = null_status from;
      to_status = null_status to;
      action = action;
      reason = reason;
      ip_address = inet_value parse_addr ip_address;
    }))

  pub create_order_body : CreateOrderCommand → Action CreateOrderResult
  create_order_body cmd = do
    created_order ← run_query (λ now locked. create_order now (record {
      id = cmd.order_id;
      customer_id = cmd.customer_id;
      status = status_pending;
      idempotency_key = cmd.idempotency_key;
      total_cents = cmd.total_cents;
      currency = cmd.currency;
    }))
    created_items ← create_items created_order.id cmd.items
    record_event created_order.id actor_type_customer cmd.actor_id "" status_pending action_created
        cmd.reason cmd.ip_address
    pure (record { order = created_order; items = created_items })

  unfoldable pub create_order_with_items_and_audit : CreateOrderCommand → Action CreateOrderResult
  unfolding create_order_body record_event create_items
  create_order_with_items_and_audit cmd = with_tx (create_order_body cmd)

  pub cancel_order_body : CancelOrderCommand → Action Order
  cancel_order_body cmd = do
    cancelled_order ← run_query (λ now locked.
        cancel_pending_order now (record { id = cmd.order_id; customer_id = cmd.customer_id }))
    record_event cancelled_order.id actor_type_customer cmd.actor_id status_pending status_cancelled
        action_cancelled cmd.reason cmd.ip_address
    pure cancelled_order

  unfoldable pub cancel_order_with_audit : CancelOrderCommand → Action Order
  unfolding cancel_order_body record_event
  cancel_order_with_audit cmd = with_tx (cancel_order_body cmd)

  pub update_order_status_body : UpdateOrderStatusCommand → Action Order
  update_order_status_body cmd = do
    order ← run_query (λ now locked.
        update_order_status_if_current_status_matches now
          (record { id = cmd.order_id; status = cmd.expected_status; status_2 = cmd.new_status }))
    record_event order.id cmd.actor_type cmd.actor_id cmd.expected_status cmd.new_status
        action_status_updated cmd.reason cmd.ip_address
    pure order

  unfoldable pub update_order_status_with_audit : UpdateOrderStatusCommand → Action Order
  unfolding update_order_status_body record_event
  update_order_status_with_audit cmd = with_tx (update_order_status_body cmd)

  -- The loop over the orders that the worker has moved.
  pub record_moves : ProcessPendingOrdersBatchCommand → List Order → Action (Unit {0})
  record_moves cmd [] = pure tt
  record_moves cmd (order ∷ orders) = do
    record_event order.id actor_type_system cmd.actor_id status_pending status_processing
        action_worker_moved_to_processing cmd.reason cmd.ip_address
    record_moves cmd orders

  pub process_pending_orders_body : ProcessPendingOrdersBatchCommand → Action (List Order)
  process_pending_orders_body cmd = do
    orders_to_process ←
        run_query
          (λ now locked. worker_pick_and_move_pending_orders_to_processing now locked cmd.limit)
    record_moves cmd orders_to_process
    pure orders_to_process

  unfoldable pub process_pending_orders_batch_with_audit :
      ProcessPendingOrdersBatchCommand → Action (List Order)
  unfolding process_pending_orders_body record_moves record_event
  process_pending_orders_batch_with_audit cmd = with_tx (process_pending_orders_body cmd)
