-- ===== src/Db/Inserts/Inserted.antt =====
-- What an INSERT that answered has found and done.
use oms_go.Prelude.{◌≡◌, false, true, ◌∷◌, arith}
use oms_go.Prelude.Exec.{ok}
use oms_go.Db.Models.{Timestamp, Order, OrderItem, OrderEvent}
use oms_go.Db.Tables.{Tables}
use oms_go.Db.Checks.{has_order, has_idempotency_key}
use oms_go.Db.Inserts.{
  CreateOrderParams, order_row, create_order, CreateOrderItemParams, item_row, create_order_item,
  CreateOrderEventParams, event_row, create_order_event,
}

pub create_order-ok :
    (now : Timestamp) (arg : CreateOrderParams) (t : Tables) {o : Order} {t' : Tables}
    → create_order now arg t ≡ (ok o, t')
    → (has_order arg.id t.orders ≡ false)
      × (o ≡ order_row now arg)
      × (t' ≡ record t { orders = order_row now arg ∷ t.orders })
unfolding create_order
create_order-ok now arg t h = ground arith

pub create_order-fresh_key :
    (now : Timestamp) (arg : CreateOrderParams) (t : Tables) {o : Order} {t' : Tables}
    → create_order now arg t ≡ (ok o, t')
    → has_idempotency_key arg.customer_id arg.idempotency_key t.orders ≡ false
unfolding create_order
create_order-fresh_key now arg t h = ground arith

pub create_order_item-ok :
    (now : Timestamp) (arg : CreateOrderItemParams) (t : Tables) {x : OrderItem} {t' : Tables}
    → create_order_item now arg t ≡ (ok x, t')
    → (x ≡ item_row now arg) × (t' ≡ record t { order_items = item_row now arg ∷ t.order_items })
unfolding create_order_item
create_order_item-ok now arg t h = ground arith

pub create_order_event-ok :
    (now : Timestamp) (arg : CreateOrderEventParams) (t : Tables) {e : OrderEvent} {t' : Tables}
    → create_order_event now arg t ≡ (ok e, t')
    → (has_order arg.order_id t.orders ≡ true)
      × (e ≡ event_row now arg)
      × (t' ≡ record t { order_events = event_row now arg ∷ t.order_events })
unfolding create_order_event
create_order_event-ok now arg t h = ground arith
