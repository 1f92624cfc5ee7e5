-- ===== src/Orders/Repository/Bodies.antt =====
-- What the loops and the audit step of the transactions have done where they succeed.
use oms_go.Prelude.{◌≡◌, sym, ap, ◌∙◌, true, Option, String, List, [], ◌∷◌}
use oms_go.Prelude.Exec.{Result, ok, ◌>>=◌, >>=-eq-ok}
use oms_go.Db.Models.{Timestamp, Uuid, OrderItem, OrderEvent}
use oms_go.Db.Tables.{Tables, DbError}
use oms_go.Db.Checks.{has_order}
use oms_go.Db.Inserts.{CreateOrderItemParams, create_order_item}
use oms_go.Db.Inserts.Inserted.{create_order_item-ok, create_order_event-ok}
use oms_go.Db.World.{World, new_uuid}
use oms_go.Db.World.Answers.{run_query-ok}
use oms_go.Orders.Errors.{OrderStatus}
use oms_go.Orders.Commands.{CreateOrderItemInput}
use oms_go.Orders.Repository.{null_status, create_items, record_event}

-- Items are added, and nothing else changes.
pub record OnlyItems (t t' : Tables) : Type 0 where
  pub same_orders : t'.orders ≡ t.orders
  pub same_events : t'.order_events ≡ t.order_events

create_order_item-OnlyItems :
    (now : Timestamp) (arg : CreateOrderItemParams) (t : Tables) {x : OrderItem} {t' : Tables}
    → create_order_item now arg t ≡ (ok x, t')
    → OnlyItems t t'
create_order_item-OnlyItems now arg t h =
    let (_, e) = create_order_item-ok now arg t h in
    record {
      same_orders = ap (λ (u : Tables). u.orders) e;
      same_events = ap (λ (u : Tables). u.order_events) e;
    }

OnlyItems-trans : {t u v : Tables} → OnlyItems t u → OnlyItems u v → OnlyItems t v
OnlyItems-trans p q = record {
  same_orders = q.same_orders ∙ p.same_orders;
  same_events = q.same_events ∙ p.same_events;
}

OnlyItems-of_pure :
    {A : Type 0} {a b : A} (w : World) {w' : World}
    → ◌≡◌ {A = Result DbError A × World} (ok a, w) (ok b, w')
    → OnlyItems w.tables w'.tables
OnlyItems-of_pure {A} w h =
    let e = ap (λ (r : Result DbError A × World). r.1.tables) h in
    record {
      same_orders = ap (λ (u : Tables). u.orders) (sym e);
      same_events = ap (λ (u : Tables). u.order_events) (sym e);
    }

pub create_items-OnlyItems :
    (order_id : Uuid) (items : List CreateOrderItemInput) (w : World) {xs : List OrderItem}
    {w' : World}
    → create_items order_id items w ≡ (ok xs, w')
    → OnlyItems w.tables w'.tables
unfolding create_items
create_items-OnlyItems order_id [] w h = OnlyItems-of_pure w h
create_items-OnlyItems order_id (item ∷ items) w h =
    let (x, w1, first, rest) = >>=-eq-ok _ _ w h in
    let (ys, w2, more, done) = >>=-eq-ok _ _ w1 rest in
    OnlyItems-trans (create_order_item-OnlyItems _ _ _ (run_query-ok _ w first))
      (OnlyItems-trans (create_items-OnlyItems order_id items w1 more) (OnlyItems-of_pure w2 done))

-- One event was added, of the order and with the statuses that were asked for.
pub record Recorded (order_id : Uuid) (actor_type : String) (from to : OrderStatus)
    (action : String) (w : World) (e : OrderEvent) (w' : World) : Type 0 where
  pub known : has_order order_id w.tables.orders ≡ true
  pub of_order : e.order_id ≡ order_id
  pub by_actor : e.actor_type ≡ actor_type
  pub for_action : e.action ≡ action
  pub from_it : e.from_status ≡ null_status from
  pub to_it : e.to_status ≡ null_status to
  pub added : w'.tables ≡ record (w.tables) { order_events = e ∷ w.tables.order_events }

module _ (parse_addr : String → Option String) where
  pub record_event-ok :
      (order_id : Uuid) (actor_type : String) (actor_id : Option Uuid) (from to : OrderStatus)
      (action : String) (reason ip_address : Option String) (w : World) {e : OrderEvent}
      {w' : World}
      → record_event parse_addr order_id actor_type actor_id from to action reason ip_address w
        ≡ (ok e, w')
      → Recorded order_id actor_type from to action w e w'
  unfolding record_event new_uuid ◌>>=◌
  record_event-ok order_id actor_type actor_id from to action reason ip_address w h =
      let (known, row, added) = create_order_event-ok _ _ _ (run_query-ok _ _ h) in
      record {
        known = known;
        of_order = ap (λ (x : OrderEvent). x.order_id) row;
        by_actor = ap (λ (x : OrderEvent). x.actor_type) row;
        for_action = ap (λ (x : OrderEvent). x.action) row;
        from_it = ap (λ (x : OrderEvent). x.from_status) row;
        to_it = ap (λ (x : OrderEvent). x.to_status) row;
        added =
            added
            ∙ ap
                (λ (x : OrderEvent). record (w.tables) { order_events = x ∷ w.tables.order_events })
                (sym row);
      }
