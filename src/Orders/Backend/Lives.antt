-- ===== src/Orders/Backend/Lives.antt =====
-- The life of the orders over sequences of requests.
use oms_go.Prelude.{sym, subst, Option, String, List}
use oms_go.Db.Models.{Uuid}
use oms_go.Db.Tables.{Tables}
use oms_go.Db.World.{World, new_uuid}
use oms_go.Orders.Audit.{Audited}
use oms_go.Orders.Lifecycle.{Evolves}
use oms_go.Orders.Lifecycle.Steps.{Evolves-refl, Evolves-trans}
use oms_go.Orders.Interface.{Preserves}
use oms_go.Orders.Repository.Lives.{
  create_order-Evolves, cancel_order-Evolves, update_order_status-Evolves,
  process_pending_orders_batch-Evolves,
}
use oms_go.Orders.Backend.{
  Request, new_service, serve_all, serve_all-Safe, new_service-Preserves, get-reads, items-reads,
  events-reads, list-reads,
}

module _ (parse_addr : String → Option String) (parse_uuid : String → Option Uuid) where
  -- The audit trail holds, and the tables have come from `before`.
  abbrev Lived : Tables → World → Type 0
  Lived before w = Audited w.tables × Evolves before w.tables

  new_service-Lived :
      (before : Tables) → Preserves (Lived before) (new_service parse_addr parse_uuid)
  unfolding new_service new_uuid
  new_service-Lived before = record {
    create = λ cmd w v.
        (audit.create cmd w v.0, Evolves-trans v.1 (create_order-Evolves parse_addr cmd w));
    get = λ o c w v. subst (λ t. Audited t × Evolves before t) (sym (get-reads o c w)) v;
    items = λ o w v. subst (λ t. Audited t × Evolves before t) (sym (items-reads o w)) v;
    events = λ o w v. subst (λ t. Audited t × Evolves before t) (sym (events-reads o w)) v;
    list = λ cmd w v. subst (λ t. Audited t × Evolves before t) (sym (list-reads cmd w)) v;
    cancel = λ cmd w v.
        (audit.cancel cmd w v.0, Evolves-trans v.1 (cancel_order-Evolves parse_addr cmd w));
    update = λ cmd w edge v. (
      audit.update cmd w edge v.0,
      Evolves-trans v.1 (update_order_status-Evolves parse_addr cmd w edge),
    );
    process = λ cmd w v. (
      audit.process cmd w v.0,
      Evolves-trans v.1 (process_pending_orders_batch-Evolves parse_addr cmd w v.0),
    );
    uuid = λ w v. v;
  }
    where
      audit : Preserves (λ w. Audited w.tables) (new_service parse_addr parse_uuid)
      audit = new_service-Preserves parse_addr parse_uuid

  -- From tables whose events tell the history of each order, whatever requests the service is sent and
  -- whatever fails on the way: every order is still there, with the same customer, key, total, currency
  -- and time of creation, its status is reached from the former one along edges of the diagram, and
  -- every event is still there.
  pub serve_all-Evolves :
      (w : World) (rs : List Request)
      → Audited w.tables
      → Evolves w.tables (serve_all parse_addr parse_uuid w rs).tables
  serve_all-Evolves w rs v =
      (serve_all-Safe parse_addr parse_uuid (Lived w.tables) (new_service-Lived w.tables) w rs
        (v, Evolves-refl w.tables)).1
