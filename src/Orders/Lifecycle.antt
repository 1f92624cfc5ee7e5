-- ===== src/Orders/Lifecycle.antt =====
-- The life of the orders as a specification: which columns stay, where the status goes, and what
-- becomes of the events.
pub mod Steps
use mathlib.Core.List.{Memᴰ}
use oms_go.Prelude.{◌≡◌}
use oms_go.Db.Models.{Order, OrderEvent}
use oms_go.Db.Tables.{Tables}
use oms_go.Orders.Errors.{OrderStatus}
use oms_go.Orders.StateMachine.Graph.{Transition}

-- Some number of edges.
pub data Reaches : OrderStatus → OrderStatus → Type 0 where
  arrived : {s t : OrderStatus} → s ≡ t → Reaches s t
  onward : {s t u : OrderStatus} → Reaches s t → Transition t u → Reaches s u

pub record Follows (a b : Order) : Type 0 where
  pub same_id : b.id ≡ a.id
  pub same_customer : b.customer_id ≡ a.customer_id
  pub same_key : b.idempotency_key ≡ a.idempotency_key
  pub same_total : b.total_cents ≡ a.total_cents
  pub same_currency : b.currency ≡ a.currency
  pub same_creation : b.created_at ≡ a.created_at
  pub course : Reaches a.status b.status

pub record Evolves (t t' : Tables) : Type 0 where
  pub orders : (o : Order) → Memᴰ o t.orders → (o' : Order) × Memᴰ o' t'.orders × Follows o o'
  pub events : (e : OrderEvent) → Memᴰ e t.order_events → Memᴰ e t'.order_events
