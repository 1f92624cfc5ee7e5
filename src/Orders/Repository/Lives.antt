-- ===== src/Orders/Repository/Lives.antt =====
-- internal/orders/repository.go: the transactions and the life of the orders.
use mathlib.Core.List.{Memᴰ}
use oms_go.Prelude.{◌≡◌, refl, sym, subst, true, Option, String, List, [], ◌∷◌, eq_iff, arith}
use oms_go.Prelude.Exec.{ok, >>=-eq-ok}
use oms_go.Db.Models.{Uuid, Order, OrderEvent}
use oms_go.Db.Tables.{Tables}
use oms_go.Db.Inserts.Inserted.{create_order-ok}
use oms_go.Db.Updates.{
  CancelPendingOrderParams, UpdateOrderStatusIfCurrentStatusMatchesParams, is_cancellable,
  status_matches, cancel_pending_order,
}
use oms_go.Db.Updates.Updated.{
  update_one-ok, update_order_status_if_current_status_matches-ok, worker_pick-ok,
}
use oms_go.Db.World.{World}
use oms_go.Db.World.Answers.{run_query-ok}
use oms_go.Orders.Errors.{OrderStatus}
use oms_go.Orders.StateMachine.Graph.{Transition, process, cancel}
use oms_go.Orders.Commands.{
  CreateOrderCommand, CreateOrderResult, CancelOrderCommand, UpdateOrderStatusCommand,
  ProcessPendingOrdersBatchCommand,
}
use oms_go.Orders.Transaction.{begin_tx}
use oms_go.Orders.Transaction.Laws.{with_tx_keeps}
use oms_go.Orders.Audit.{Audited}
use oms_go.Orders.Lifecycle.{Evolves}
use oms_go.Orders.Lifecycle.Steps.{
  Evolves-refl, Evolves-trans, Evolves-of_same, Evolves-insert, Evolves-update,
}
use oms_go.Orders.Repository.{
  create_order_body, create_order_with_items_and_audit, cancel_order_body, cancel_order_with_audit,
  update_order_status_body, update_order_status_with_audit, record_moves,
  process_pending_orders_body, process_pending_orders_batch_with_audit,
}
use oms_go.Orders.Repository.Bodies.{OnlyItems, create_items-OnlyItems, Recorded, record_event-ok}
use oms_go.Orders.Repository.Trails.{pure-tables}
use oms_go.Orders.Repository.Batches.{is_picked-pending}

Evolves-eq : {t u v : Tables} → v ≡ u → Evolves t u → Evolves t v
Evolves-eq {t} e = subst (Evolves t) (sym e)

Recorded-Evolves :
    {i : Uuid} {actor action : String} {s s' : OrderStatus} {w w' : World} {e : OrderEvent}
    → Recorded i actor s s' action w e w'
    → Evolves w.tables w'.tables
Recorded-Evolves {w = w} {e = e} r = Evolves-eq r.added (Evolves-of_same refl (λ x m. Memᴰ.tail m))

OnlyItems-Evolves : {t t' : Tables} → OnlyItems t t' → Evolves t t'
OnlyItems-Evolves only = Evolves-of_same only.same_orders (λ e m. rw only.same_events m)

module _ (parse_addr : String → Option String) where
  create_order_body-Evolves :
      (cmd : CreateOrderCommand) (w : World) (a : CreateOrderResult) (w' : World)
      → create_order_body parse_addr cmd w ≡ (ok a, w')
      → Evolves w.tables w'.tables
  unfolding create_order_body
  create_order_body-Evolves cmd w a w' h =
      let (o, w1, made, rest1) = >>=-eq-ok _ _ w h in
      let (fresh, row, inserted) = create_order-ok _ _ _ (run_query-ok _ w made) in
      let (xs, w2, items, rest2) = >>=-eq-ok _ _ w1 rest1 in
      let only = create_items-OnlyItems o.id cmd.items w1 items in
      let (e, w3, event, done) = >>=-eq-ok _ _ w2 rest2 in
      let r = record_event-ok parse_addr o.id _ _ _ _ _ _ _ w2 event in
      pure-tables (Evolves w.tables) w3 w' done (
        Evolves-trans (Evolves-eq inserted (Evolves-insert w.tables _))
          (Evolves-trans (OnlyItems-Evolves only) (Recorded-Evolves r)))

  cancel_order_body-Evolves :
      (cmd : CancelOrderCommand) (w : World) (a : Order) (w' : World)
      → cancel_order_body parse_addr cmd w ≡ (ok a, w')
      → Evolves w.tables w'.tables
  unfolding cancel_order_body cancel_pending_order
  cancel_order_body-Evolves cmd w a w' h =
      let (o, w1, moved, rest) = >>=-eq-ok _ _ w h in
      let u =
        update_one-ok (is_cancellable arg) w.now "CANCELLED" w.tables (run_query-ok _ w moved) in
      let (e, w2, event, done) = >>=-eq-ok _ _ w1 rest in
      let r = record_event-ok parse_addr o.id _ _ _ _ _ _ _ w1 event in
      pure-tables (Evolves w.tables) w2 w' done (
        Evolves-trans
          (Evolves-eq u.changed (
            Evolves-update w.tables (is_cancellable arg) w.now "PENDING" "CANCELLED"
              (cancel refl refl) (λ x m. pending x)))
          (Recorded-Evolves r))
    where
      arg : CancelPendingOrderParams
      arg = record { id = cmd.order_id; customer_id = cmd.customer_id }

      pending : (x : Order) → is_cancellable arg x ≡ true → x.status ≡ "PENDING"
      pending x p = ground (arith, eq_iff x.status "PENDING")

  update_order_status_body-Evolves :
      (cmd : UpdateOrderStatusCommand)
      → Transition cmd.expected_status cmd.new_status
      → (w : World) (a : Order) (w' : World)
      → update_order_status_body parse_addr cmd w ≡ (ok a, w')
      → Evolves w.tables w'.tables
  unfolding update_order_status_body
  update_order_status_body-Evolves cmd edge w a w' h =
      let (o, w1, moved, rest) = >>=-eq-ok _ _ w h in
      let u = update_order_status_if_current_status_matches-ok _ _ _ (run_query-ok _ w moved) in
      let (e, w2, event, done) = >>=-eq-ok _ _ w1 rest in
      let r = record_event-ok parse_addr o.id _ _ _ _ _ _ _ w1 event in
      pure-tables (Evolves w.tables) w2 w' done (
        Evolves-trans
          (Evolves-eq u.changed (
            Evolves-update w.tables (status_matches arg) w.now cmd.expected_status cmd.new_status
              edge (λ x m. expected x)))
          (Recorded-Evolves r))
    where
      arg : UpdateOrderStatusIfCurrentStatusMatchesParams
      arg = record { id = cmd.order_id; status = cmd.expected_status; status_2 = cmd.new_status }

      expected : (x : Order) → status_matches arg x ≡ true → x.status ≡ cmd.expected_status
      expected x p = ground (arith, eq_iff x.status cmd.expected_status)

  record_moves-Evolves :
      (cmd : ProcessPendingOrdersBatchCommand) (os : List Order) (w w' : World)
      → record_moves parse_addr cmd os w ≡ (ok tt, w')
      → Evolves w.tables w'.tables
  unfolding record_moves
  record_moves-Evolves cmd [] w w' h = pure-tables (Evolves w.tables) w w' h (Evolves-refl w.tables)
  record_moves-Evolves cmd (o ∷ os) w w' h =
      let (e, w1, event, rest) = >>=-eq-ok _ _ w h in
      Evolves-trans (Recorded-Evolves (record_event-ok parse_addr o.id _ _ _ _ _ _ _ w event))
        (record_moves-Evolves cmd os w1 w' rest)

  process_pending_orders_body-Evolves :
      (cmd : ProcessPendingOrdersBatchCommand) (w : World)
      → Audited w.tables
      → (a : List Order) (w' : World) → process_pending_orders_body parse_addr cmd w ≡ (ok a, w')
      → Evolves w.tables w'.tables
  unfolding process_pending_orders_body
  process_pending_orders_body-Evolves cmd w v a w' h =
      let (os, w1, moved, rest) = >>=-eq-ok _ _ w h in
      let (n, answer, changed) = worker_pick-ok _ _ _ _ (run_query-ok _ w moved) in
      let (u, w2, events, done) = >>=-eq-ok _ _ w1 rest in
      pure-tables (Evolves w.tables) w2 w' done (
        Evolves-trans
          (Evolves-eq changed (
            Evolves-update w.tables _ w.now "PENDING" "PROCESSING" (process refl refl)
              (λ o m. is_picked-pending _ n w.tables.orders o v.distinct m)))
          (record_moves-Evolves cmd os w1 w2 events))

  pub create_order-Evolves :
      (cmd : CreateOrderCommand) (w : World)
      → Evolves w.tables (create_order_with_items_and_audit parse_addr cmd w).1.tables
  unfolding create_order_with_items_and_audit
  create_order-Evolves cmd w =
      with_tx_keeps (Evolves w.tables) (create_order_body parse_addr cmd) w (Evolves-refl w.tables)
        (create_order_body-Evolves cmd (begin_tx w))

  pub cancel_order-Evolves :
      (cmd : CancelOrderCommand) (w : World)
      → Evolves w.tables (cancel_order_with_audit parse_addr cmd w).1.tables
  unfolding cancel_order_with_audit
  cancel_order-Evolves cmd w =
      with_tx_keeps (Evolves w.tables) (cancel_order_body parse_addr cmd) w (Evolves-refl w.tables)
        (cancel_order_body-Evolves cmd (begin_tx w))

  pub update_order_status-Evolves :
      (cmd : UpdateOrderStatusCommand) (w : World)
      → Transition cmd.expected_status cmd.new_status
      → Evolves w.tables (update_order_status_with_audit parse_addr cmd w).1.tables
  unfolding update_order_status_with_audit
  update_order_status-Evolves cmd w edge =
      with_tx_keeps (Evolves w.tables) (update_order_status_body parse_addr cmd) w
        (Evolves-refl w.tables) (update_order_status_body-Evolves cmd edge (begin_tx w))

  pub process_pending_orders_batch-Evolves :
      (cmd : ProcessPendingOrdersBatchCommand) (w : World)
      → Audited w.tables
      → Evolves w.tables (process_pending_orders_batch_with_audit parse_addr cmd w).1.tables
  unfolding process_pending_orders_batch_with_audit
  process_pending_orders_batch-Evolves cmd w v =
      with_tx_keeps (Evolves w.tables) (process_pending_orders_body parse_addr cmd) w
        (Evolves-refl w.tables) (process_pending_orders_body-Evolves cmd (begin_tx w) v)
