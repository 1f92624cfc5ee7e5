-- ===== src/Orders/Repository/Trails/Parts.antt =====
-- The audit trail over a change of an order and its event.
use mathlib.Core.List.{Memᴰ}
use oms_go.Prelude.{◌≡◌, sym, ap, ◌∙◌, Bool, true, false, some, String, ◌∷◌}
use oms_go.Db.Models.{Timestamp, Order, OrderEvent}
use oms_go.Db.Tables.{Tables}
use oms_go.Db.Checks.{has_order}
use oms_go.Db.Inserts.{CreateOrderParams, order_row}
use oms_go.Db.Updates.{set_status, update_orders}
use oms_go.Db.Updates.Updated.{Updated}
use oms_go.Db.Keys.{row_unique, has_order_of_mem}
use oms_go.Db.World.{World}
use oms_go.Orders.Errors.{OrderStatus}
use oms_go.Orders.StateMachine.{status_pending}
use oms_go.Orders.StateMachine.Graph.{Transition, process, cancel, ship, deliver}
use oms_go.Orders.Audit.{Audited, history}
use oms_go.Orders.Audit.Steps.{
  insert-Audited, update-Audited, history-cons_same, history-cons_other,
}
use oms_go.Orders.Repository.{null_status}
use oms_go.Orders.Repository.Bodies.{OnlyItems, Recorded}

null_status-from : {s t : OrderStatus} → Transition s t → null_status s ≡ some s
unfolding null_status
null_status-from (process p q) = rw p
null_status-from (cancel p q) = rw p
null_status-from (ship p q) = rw p
null_status-from (deliver p q) = rw p

null_status-to : {s t : OrderStatus} → Transition s t → null_status t ≡ some t
unfolding null_status
null_status-to (process p q) = rw q
null_status-to (cancel p q) = rw q
null_status-to (ship p q) = rw q
null_status-to (deliver p q) = rw q

-- The update of one order, followed by its event.
pub move-Audited :
    {s s' : OrderStatus} {actor action : String} (p : Order → Bool) (now : Timestamp)
    (t t' : Tables) (o : Order)
    → Audited t
    → Transition s s'
    → Updated p (set_status now s') t o t'
    → ((a b : Order) → p a ≡ true → p b ≡ true → a.id ≡ b.id)
    → ((a : Order) → p a ≡ true → a.status ≡ s)
    → (w : World) (e : OrderEvent) (w' : World) → w.tables ≡ t'
    → Recorded o.id actor s s' action w e w'
    → Audited w'.tables
move-Audited {s} {s'} p now t t' o v edge u one from w e w' here r =
    rw final (update-Audited t v p now s s' (e ∷ t.order_events) edge moving staying owned)
  where
    final : w'.tables ≡ record t {
      orders = update_orders p (set_status now s') t.orders;
      order_events = e ∷ t.order_events;
    }
    final =
        r.added
        ∙ ap (λ (x : Tables). record x { order_events = e ∷ x.order_events }) (here ∙ u.changed)

    of_row : e.order_id ≡ u.row.id
    of_row = r.of_order ∙ ap (λ (x : Order). x.id) u.answer

    moving :
        (a : Order)
        → Memᴰ a t.orders
        → p a ≡ true
        → (x : OrderEvent) × (a.status ≡ s)
          × (history a.id (e ∷ t.order_events) ≡ x ∷ history a.id t.order_events)
          × (x.from_status ≡ some s)
          × (x.to_status ≡ some s')
    moving a m h = (
      e,
      from a h,
      history-cons_same a.id e t.order_events (of_row ∙ one u.row a u.fits h),
      r.from_it ∙ null_status-from edge,
      r.to_it ∙ null_status-to edge,
    )

    staying :
        (a : Order)
        → Memᴰ a t.orders
        → p a ≡ false
        → history a.id (e ∷ t.order_events) ≡ history a.id t.order_events
    staying a m h =
        history-cons_other a.id e t.order_events
          (λ q. cc (ap p (row_unique t.orders v.distinct m u.there (sym q ∙ of_row)), u.fits))

    owned : (x : OrderEvent) → Memᴰ x (e ∷ t.order_events) → has_order x.order_id t.orders ≡ true
    owned x (Memᴰ.head q) = rw (q, of_row) (has_order_of_mem t.orders u.there)
    owned x (Memᴰ.tail m) = v.owned x m

-- The insertion of an order, of its items and of its first event.
pub insert_parts-Audited :
    {actor action : String} (now : Timestamp) (arg : CreateOrderParams) (t t1 : Tables) (o : Order)
    → Audited t
    → arg.status ≡ status_pending
    → has_order arg.id t.orders ≡ false
    → o ≡ order_row now arg
    → t1 ≡ record t { orders = order_row now arg ∷ t.orders }
    → (w : World) (e : OrderEvent) (w' : World) → OnlyItems t1 w.tables
    → Recorded o.id actor "" status_pending action w e w'
    → Audited w'.tables
unfolding null_status
insert_parts-Audited now arg t t1 o v pending fresh row inserted w e w' only r = rw final (
    insert-Audited t v (order_row now arg) e w.tables.order_items fresh pending
      (r.of_order ∙ ap (λ (x : Order). x.id) row) r.from_it r.to_it)
  where
    orders : w.tables.orders ≡ order_row now arg ∷ t.orders
    orders = only.same_orders ∙ ap (λ (x : Tables). x.orders) inserted

    events : w.tables.order_events ≡ t.order_events
    events = only.same_events ∙ ap (λ (x : Tables). x.order_events) inserted

    final : w'.tables ≡ record {
      orders = order_row now arg ∷ t.orders;
      order_items = w.tables.order_items;
      order_events = e ∷ t.order_events;
    }
    final = r.added ∙ λ i. record {
      orders = orders i;
      order_items = w.tables.order_items;
      order_events = e ∷ events i;
    }
