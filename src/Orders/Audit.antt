-- ===== src/Orders/Audit.antt =====
-- The audit trail as a specification: the events of an order, newest first, are a path through the
-- state machine that begins with the creation and ends at the status of the order's row.
pub mod Steps
use mathlib.Core.List.{Memᴰ}
use oms_go.Prelude.{◌≡◌, true, none, some, List, [], ◌∷◌, ◌==◌}
use oms_go.Prelude.Sort.{where_rows}
use oms_go.Db.Models.{Uuid, Order, OrderEvent}
use oms_go.Db.Checks.{has_order}
use oms_go.Db.Keys.{DistinctIds}
use oms_go.Db.Tables.{Tables}
use oms_go.Orders.Errors.{OrderStatus}
use oms_go.Orders.StateMachine.{status_pending}
use oms_go.Orders.StateMachine.Graph.{Transition}

pub data Trail : OrderStatus → List OrderEvent → Type 0 where
  created :
      {s : OrderStatus} {e : OrderEvent}
      → s ≡ status_pending
      → e.from_status ≡ none
      → e.to_status ≡ some status_pending
      → Trail s (e ∷ [])
  moved :
      {s t : OrderStatus} {e : OrderEvent} {es : List OrderEvent}
      → Trail s es
      → Transition s t
      → e.from_status ≡ some s
      → e.to_status ≡ some t
      → Trail t (e ∷ es)

-- The events of one order.
unfoldable pub history : Uuid → List OrderEvent → List OrderEvent
unfolding where_rows
history i es = where_rows (λ e. e.order_id == i) es

pub record Audited (t : Tables) : Type 0 where
  pub distinct : DistinctIds t.orders
  pub owned : (e : OrderEvent) → Memᴰ e t.order_events → has_order e.order_id t.orders ≡ true
  pub trails : (o : Order) → Memᴰ o t.orders → Trail o.status (history o.id t.order_events)
