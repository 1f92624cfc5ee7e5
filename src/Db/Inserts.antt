-- ===== src/Db/Inserts.antt =====
-- internal/db/orders.sql.go: the INSERT statements, each its SQL over the tables, with the constraints of
-- the schema. The server tests CHECK before the keys, and the primary key first. `now` is the start of
-- the transaction.
pub mod Inserted
use oms_go.Prelude.{not, Option, String, ◌∷◌, any, ◌==◌, if◌then◌else◌}
use oms_go.Prelude.Exec.{ok}
use oms_go.Prelude.Int.{ℤ, pos, ltb_ℤ}
use oms_go.Db.Models.{Uuid, Timestamp, Order, OrderEvent, OrderItem}
use oms_go.Db.Tables.{pg_error, Statement, reject}
use oms_go.Db.Checks.{
  unique_violation, check_violation, foreign_key_violation, is_status, is_actor_type, has_order,
  has_idempotency_key,
}

pub record CreateOrderParams : Type 0 where
  pub id : Uuid
  pub customer_id : Uuid
  pub status : String
  pub idempotency_key : String
  pub total_cents : ℤ
  pub currency : String

-- The row that CreateOrder inserts.
abbrev pub order_row : Timestamp → CreateOrderParams → Order
order_row now arg = record {
  id = arg.id;
  customer_id = arg.customer_id;
  status = arg.status;
  idempotency_key = arg.idempotency_key;
  total_cents = arg.total_cents;
  currency = arg.currency;
  created_at = now;
  updated_at = now;
}

-- The currency is a text of three characters, as the service's validation leaves it: what CHAR(3)
-- does to other texts is not modelled.
unfoldable pub create_order : Timestamp → CreateOrderParams → Statement Order
create_order now arg t =
    if not (is_status arg.status)
    then reject (pg_error check_violation "orders_status_check") t
    else if ltb_ℤ arg.total_cents (pos 0)
    then reject (pg_error check_violation "orders_total_cents_check") t
    else if has_order arg.id t.orders
    then reject (pg_error unique_violation "orders_pkey") t
    else if has_idempotency_key arg.customer_id arg.idempotency_key t.orders
    then reject (pg_error unique_violation "orders_customer_id_idempotency_key_key") t
    else (ok (order_row now arg), record t { orders = order_row now arg ∷ t.orders })

pub record CreateOrderItemParams : Type 0 where
  pub id : Uuid
  pub order_id : Uuid
  pub product_id : Uuid
  pub sku : String
  pub quantity : ℤ
  pub unit_price_cents : ℤ

-- The row that CreateOrderItem inserts.
abbrev pub item_row : Timestamp → CreateOrderItemParams → OrderItem
item_row now arg = record {
  id = arg.id;
  order_id = arg.order_id;
  product_id = arg.product_id;
  sku = arg.sku;
  quantity = arg.quantity;
  unit_price_cents = arg.unit_price_cents;
  created_at = now;
}

unfoldable pub create_order_item : Timestamp → CreateOrderItemParams → Statement OrderItem
create_order_item now arg t =
    if not (ltb_ℤ (pos 0) arg.quantity)
    then reject (pg_error check_violation "order_items_quantity_check") t
    else if ltb_ℤ arg.unit_price_cents (pos 0)
    then reject (pg_error check_violation "order_items_unit_price_cents_check") t
    else if any (λ x. x.id == arg.id) t.order_items
    then reject (pg_error unique_violation "order_items_pkey") t
    else if not (has_order arg.order_id t.orders)
    then reject (pg_error foreign_key_violation "order_items_order_id_fkey") t
    else (ok (item_row now arg), record t { order_items = item_row now arg ∷ t.order_items })

pub record CreateOrderEventParams : Type 0 where
  pub id : Uuid
  pub order_id : Uuid
  pub actor_type : String
  pub actor_id : Option Uuid
  pub from_status : Option String
  pub to_status : Option String
  pub action : String
  pub reason : Option String
  pub ip_address : Option String

-- The row that CreateOrderEvent inserts.
abbrev pub event_row : Timestamp → CreateOrderEventParams → OrderEvent
event_row now arg = record {
  id = arg.id;
  order_id = arg.order_id;
  actor_type = arg.actor_type;
  actor_id = arg.actor_id;
  from_status = arg.from_status;
  to_status = arg.to_status;
  action = arg.action;
  reason = arg.reason;
  ip_address = arg.ip_address;
  created_at = now;
}

unfoldable pub create_order_event : Timestamp → CreateOrderEventParams → Statement OrderEvent
create_order_event now arg t =
    if not (is_actor_type arg.actor_type)
    then reject (pg_error check_violation "order_events_actor_type_check") t
    else if any (λ e. e.id == arg.id) t.order_events
    then reject (pg_error unique_violation "order_events_pkey") t
    else if not (has_order arg.order_id t.orders)
    then reject (pg_error foreign_key_violation "order_events_order_id_fkey") t
    else (ok (event_row now arg), record t { order_events = event_row now arg ∷ t.order_events })
