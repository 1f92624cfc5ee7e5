-- ===== src/Orders/Backend/Spec/Refines.antt =====
-- internal/orders/service.go over repository.go: requests in sequence, over the book of orders.
use oms_go.Prelude.{refl, ap, Option, String, List, [], ◌∷◌}
use oms_go.Prelude.Exec.{Result}
use oms_go.Db.Models.{Uuid}
use oms_go.Db.Tables.{Tables}
use oms_go.Db.Keys.{DistinctIds}
use oms_go.Db.World.{World}
use oms_go.Orders.Audit.{Audited}
use oms_go.Orders.Book.{book}
use oms_go.Orders.Transaction.Outcomes.{Outcome, changed, nothing}
use oms_go.Orders.Backend.{
  Request, create_order, get_order, list_order_details, cancel_order_details,
  update_order_status_by_target, process_pending_orders_batch, serve, serve_all, serve-Safe,
  new_service-Preserves,
}
use oms_go.Orders.Backend.Spec.{
  gets, lists, Step, read, does, refuses, Runs, finished, onward, is_ok, acknowledges, observed,
}
use oms_go.Orders.Backend.Spec.Methods.{
  Makes, get_order-Reads, list_order_details-Reads, cancel_order_details-Changes,
  update_order_status_by_target-Changes, process_pending_orders_batch-Changes, create_order-Changes,
}

module _ (parse_addr : String → Option String) (parse_uuid : String → Option Uuid) where
  Outcome-Step :
      {E A : Type 0} (r : Request) (x : Result E A) {t t' : Tables}
      → Outcome (Makes r) x t t'
      → Step r (is_ok x) (book t) (book t')
  Outcome-Step r x (changed c) = does c
  Outcome-Step r x (nothing e failed same) = refuses (ap is_ok failed) (ap book same)

  -- From orders with distinct ids.
  serve-Step :
      (w : World) (r : Request)
      → DistinctIds w.tables.orders
      → Step r
          (acknowledges parse_addr parse_uuid w r)
          (book w.tables)
          (book (serve parse_addr parse_uuid w r).tables)
  unfolding serve acknowledges
  serve-Step w (create_order input) v =
      Outcome-Step _ _ ((create_order-Changes parse_addr parse_uuid input).outcome w v)
  serve-Step w (get_order o c) v =
      read (gets o c) (ap book ((get_order-Reads parse_addr parse_uuid o c).same w))
  serve-Step w (list_order_details input) v =
      read (lists input) (ap book ((list_order_details-Reads parse_addr parse_uuid input).same w))
  serve-Step w (cancel_order_details input) v =
      Outcome-Step _ _ ((cancel_order_details-Changes parse_addr parse_uuid input).outcome w v)
  serve-Step w (update_order_status_by_target o to actor id reason ip) v = Outcome-Step _ _ (
      (update_order_status_by_target-Changes parse_addr parse_uuid o to actor id reason ip).outcome
        w v)
  serve-Step w (process_pending_orders_batch input) v =
      Outcome-Step _ _
        ((process_pending_orders_batch-Changes parse_addr parse_uuid input).outcome w v)

  -- From tables whose events tell the history of each order, the requests of any sequence, each with whether
  -- it was answered without an error, are a run of the specification on the book of orders, whatever fails on
  -- the way. There, to show or list orders changes nothing. Any other request makes its one change, or
  -- changes nothing and is answered with an error: to create an order puts one pending entry at an id that
  -- was free, with the customer, key, currency and total of the request, where the customer had no entry
  -- with the key; to cancel one takes an entry of that id and customer from pending to cancelled; to update
  -- one takes the entry of that id along an edge of the diagram to the status that was asked for; to process
  -- takes some entries from pending to processing. All other entries stay as they are.
  pub serve_all-Runs :
      (w : World) (rs : List Request)
      → Audited w.tables
      → Runs
          (observed parse_addr parse_uuid w rs)
          (book w.tables)
          (book (serve_all parse_addr parse_uuid w rs).tables)
  unfolding serve_all observed
  serve_all-Runs w [] v = finished refl
  serve_all-Runs w (r ∷ rs) v =
      onward r (acknowledges parse_addr parse_uuid w r) _ (serve-Step w r v.distinct) (
        serve_all-Runs (serve parse_addr parse_uuid w r) rs (
          serve-Safe parse_addr parse_uuid (λ w. Audited w.tables)
            (new_service-Preserves parse_addr parse_uuid) w r v))
