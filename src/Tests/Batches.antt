-- ===== src/Tests/Batches.antt =====
-- The repository's transactions over a shop with one pending order.
use mathlib.Core.List.{Memᴰ}
use oms_go.Prelude.{List, ◌+◌, refl, none, some, false, String, Option, [], ◌∷◌}
use oms_go.Prelude.Int.{pos}
use oms_go.Db.Models.{Uuid, Order, OrderEvent}
use oms_go.Db.Checks.{has_order}
use oms_go.Db.Inserts.{CreateOrderParams, create_order}
use oms_go.Db.World.{World, Action, fine, run_query}
use oms_go.Orders.StateMachine.{status_pending}
use oms_go.Orders.Commands.{ProcessPendingOrdersBatchCommand}
use oms_go.Orders.Audit.{Audited, Trail, history}
use oms_go.Orders.Lifecycle.{Evolves}
use oms_go.Orders.Backend.{
  Request, cancel_order_details, update_order_status_by_target, process_pending_orders_batch,
  serve_all,
}
use oms_go.Orders.Backend.Lives.{serve_all-Evolves}
use oms_go.Orders.Transaction.{with_tx, begin_tx}
use oms_go.Orders.Transaction.Laws.{Atomic, with_tx-Atomic}

abbrev no_addr : String → Option String
no_addr s = none

abbrev waiting : Order
waiting = record {
  id = 1;
  customer_id = 9;
  status = status_pending;
  idempotency_key = "k";
  total_cents = pos 900;
  currency = "USD";
  created_at = 5;
  updated_at = 5;
}

abbrev made : OrderEvent
made = record {
  id = 2;
  order_id = 1;
  actor_type = "CUSTOMER";
  actor_id = some 9;
  from_status = none;
  to_status = some status_pending;
  action = "CREATED";
  reason = none;
  ip_address = none;
  created_at = 5;
}

abbrev shop : World
shop = record {
  tables = record { orders = waiting ∷ []; order_items = []; order_events = made ∷ [] };
  step = 0;
  now = 0;
  time_at = λ n. 10 + n;
  uuid_at = λ n. 100 + n;
  locked_at = λ n i. false;
  fault_at = λ n. fine;
}

Audited-shop : Audited shop.tables
unfolding history has_order
Audited-shop = record {
  distinct = (refl, tt);
  owned = λ e m. elim m [ Memᴰ.head p ↦ rw p refl | Memᴰ.tail n ↦ elim n [ ] ];
  trails = λ o m. elim m [
    | Memᴰ.head p ↦ rw p (Trail.created refl refl refl)
    | Memᴰ.tail n ↦ elim n [ ]
  ];
}

abbrev batch : ProcessPendingOrdersBatchCommand
batch = record { limit = pos 10; actor_id = none; reason = none; ip_address = none }

abbrev another : CreateOrderParams
another = record {
  id = 3;
  customer_id = 9;
  status = status_pending;
  idempotency_key = "k2";
  total_cents = pos 100;
  currency = "USD";
}

abbrev insert : Action Order
insert = run_query (λ now locked. create_order now another)

with_tx-Atomic_example : Atomic shop.tables (insert (begin_tx shop)) (with_tx insert shop)
with_tx-Atomic_example = with_tx-Atomic insert shop

abbrev uuid_of : String → Option Uuid
uuid_of s = some 7

-- The customer cancels, an administrator ships, and the worker runs.
abbrev requests : List Request
requests =
    cancel_order_details (record {
      order_id = 1;
      customer_id = 9;
      actor_id = some 9;
      reason = none;
      ip_address = none;
    })
    ∷ update_order_status_by_target 1 "SHIPPED" "ADMIN" none none none
    ∷ process_pending_orders_batch
        (record { limit = pos 10; actor_id = none; reason = none; ip_address = none })
    ∷ []

serve_all-Evolves_example : Evolves shop.tables (serve_all no_addr uuid_of shop requests).tables
serve_all-Evolves_example = serve_all-Evolves no_addr uuid_of shop requests Audited-shop
