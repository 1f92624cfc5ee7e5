-- ===== src/Orders/Repository/Trails.antt =====
-- internal/orders/repository.go: the transactions on one order and the audit trail.
mod Parts
use mathlib.Core.List.{Memᴰ}
use oms_go.Prelude.{
  ◌≡◌, ◌≢◌, refl, sym, ap, ◌∙◌, subst, Bool, true, false, ◌&&◌, Option, none, some, String, List,
  [], ◌∷◌, str_eq, eq_iff, ==_iff, ◌==◌, arith,
}
use oms_go.Prelude.Exec.{Result, ok, >>=-eq-ok}
use oms_go.Db.Models.{Uuid, Timestamp, Order, OrderEvent}
use oms_go.Db.Tables.{Tables, DbError}
use oms_go.Db.Checks.{has_order}
use oms_go.Db.Inserts.{CreateOrderParams, order_row}
use oms_go.Db.Inserts.Inserted.{create_order-ok}
use oms_go.Db.Updates.{
  CancelPendingOrderParams, UpdateOrderStatusIfCurrentStatusMatchesParams, set_status,
  update_orders, CancelPendingOrderParams, UpdateOrderStatusIfCurrentStatusMatchesParams,
  is_cancellable, status_matches, cancel_pending_order, is_picked,
}
use oms_go.Db.Updates.Updated.{
  Updated, update_one-ok, update_order_status_if_current_status_matches-ok, worker_pick-ok,
}
use oms_go.Db.Keys.{row_unique, has_order_of_mem}
use oms_go.Db.World.{World}
use oms_go.Db.World.Answers.{run_query-ok}
use oms_go.Orders.Errors.{OrderStatus}
use oms_go.Orders.StateMachine.{status_pending}
use oms_go.Orders.StateMachine.Graph.{Transition, process, cancel, ship, deliver}
use oms_go.Orders.Commands.{
  CreateOrderCommand, CreateOrderResult, CancelOrderCommand, UpdateOrderStatusCommand,
  ProcessPendingOrdersBatchCommand,
}
use oms_go.Orders.Transaction.{begin_tx}
use oms_go.Orders.Transaction.Laws.{with_tx_keeps}
use oms_go.Orders.Audit.{Audited, history}
use oms_go.Orders.Audit.Steps.{
  insert-Audited, update-Audited, history-cons_same, history-cons_other,
}
use oms_go.Orders.Repository.{
  null_status, create_order_body, create_order_with_items_and_audit, cancel_order_body,
  cancel_order_with_audit, update_order_status_body, update_order_status_with_audit,
}
use oms_go.Orders.Repository.Bodies.{OnlyItems, create_items-OnlyItems, Recorded, record_event-ok}
use oms_go.Orders.Repository.Trails.Parts.{move-Audited, insert_parts-Audited}

-- The end of a block.
pub pure-tables :
    {A : Type 0} {a b : A} (P : Tables → Type 0) (w w' : World)
    → ◌≡◌ {A = Result DbError A × World} (ok a, w) (ok b, w')
    → P w.tables
    → P w'.tables
pure-tables {A} P w w' h = subst P (ap (λ (r : Result DbError A × World). r.1.tables) h)

module _ (parse_addr : String → Option String) where
  create_order_body-Audited :
      (cmd : CreateOrderCommand) (w : World)
      → Audited w.tables
      → (a : CreateOrderResult) (w' : World) → create_order_body parse_addr cmd w ≡ (ok a, w')
      → Audited w'.tables
  unfolding create_order_body null_status
  create_order_body-Audited cmd w v a w' h =
      let (o, w1, made, rest1) = >>=-eq-ok _ _ w h in
      let (fresh, row, inserted) = create_order-ok _ _ _ (run_query-ok _ w made) in
      let (xs, w2, items, rest2) = >>=-eq-ok _ _ w1 rest1 in
      let only = create_items-OnlyItems o.id cmd.items w1 items in
      let (e, w3, event, done) = >>=-eq-ok _ _ w2 rest2 in
      let r = record_event-ok parse_addr o.id _ _ _ _ _ _ _ w2 event in
      pure-tables Audited w3 w' done
        (insert_parts-Audited _ _ _ _ o v refl fresh row inserted w2 e w3 only r)

  -- Whatever fails, creating an order keeps the audit trail.
  pub create_order-Audited :
      (cmd : CreateOrderCommand) (w : World)
      → Audited w.tables
      → Audited (create_order_with_items_and_audit parse_addr cmd w).1.tables
  unfolding create_order_with_items_and_audit
  create_order-Audited cmd w v =
      with_tx_keeps Audited (create_order_body parse_addr cmd) w v
        (create_order_body-Audited cmd (begin_tx w) v)

  cancel_order_body-Audited :
      (cmd : CancelOrderCommand) (w : World)
      → Audited w.tables
      → (a : Order) (w' : World) → cancel_order_body parse_addr cmd w ≡ (ok a, w')
      → Audited w'.tables
  unfolding cancel_order_body cancel_pending_order
  cancel_order_body-Audited cmd w v a w' h =
      let (o, w1, moved, rest) = >>=-eq-ok _ _ w h in
      let u =
        update_one-ok (is_cancellable arg) w.now "CANCELLED" w.tables (run_query-ok _ w moved) in
      let (e, w2, event, done) = >>=-eq-ok _ _ w1 rest in
      let r = record_event-ok parse_addr o.id _ _ _ _ _ _ _ w1 event in
      pure-tables Audited w2 w' done (
        move-Audited _ w.now w.tables w1.tables o v (cancel refl refl) u (λ a b. one a b)
          (λ a. pending a) w1 e w2 refl r)
    where
      arg : CancelPendingOrderParams
      arg = record { id = cmd.order_id; customer_id = cmd.customer_id }

      one : (a b : Order) → is_cancellable arg a ≡ true → is_cancellable arg b ≡ true → a.id ≡ b.id
      one a b p q = ground arith

      pending : (a : Order) → is_cancellable arg a ≡ true → a.status ≡ status_pending
      pending a p = ground (arith, eq_iff a.status "PENDING")

  update_order_status_body-Audited :
      (cmd : UpdateOrderStatusCommand) (w : World)
      → Transition cmd.expected_status cmd.new_status
      → Audited w.tables
      → (a : Order) (w' : World) → update_order_status_body parse_addr cmd w ≡ (ok a, w')
      → Audited w'.tables
  unfolding update_order_status_body
  update_order_status_body-Audited cmd w edge v a w' h =
      let (o, w1, moved, rest) = >>=-eq-ok _ _ w h in
      let u = update_order_status_if_current_status_matches-ok _ _ _ (run_query-ok _ w moved) in
      let (e, w2, event, done) = >>=-eq-ok _ _ w1 rest in
      let r = record_event-ok parse_addr o.id _ _ _ _ _ _ _ w1 event in
      pure-tables Audited w2 w' done (
        move-Audited _ w.now w.tables w1.tables o v edge u (λ a b. one a b) (λ a. expected a) w1 e
          w2 refl r)
    where
      arg : UpdateOrderStatusIfCurrentStatusMatchesParams
      arg = record { id = cmd.order_id; status = cmd.expected_status; status_2 = cmd.new_status }

      one : (a b : Order) → status_matches arg a ≡ true → status_matches arg b ≡ true → a.id ≡ b.id
      one a b p q = ground arith

      expected : (a : Order) → status_matches arg a ≡ true → a.status ≡ cmd.expected_status
      expected a p = ground (arith, eq_iff a.status cmd.expected_status)

  -- Whatever fails, cancelling an order keeps the audit trail.
  pub cancel_order-Audited :
      (cmd : CancelOrderCommand) (w : World)
      → Audited w.tables
      → Audited (cancel_order_with_audit parse_addr cmd w).1.tables
  unfolding cancel_order_with_audit
  cancel_order-Audited cmd w v =
      with_tx_keeps Audited (cancel_order_body parse_addr cmd) w v
        (cancel_order_body-Audited cmd (begin_tx w) v)

  -- Whatever fails, a status update along an edge of the diagram keeps the audit trail.
  pub update_order_status-Audited :
      (cmd : UpdateOrderStatusCommand) (w : World)
      → Transition cmd.expected_status cmd.new_status
      → Audited w.tables
      → Audited (update_order_status_with_audit parse_addr cmd w).1.tables
  unfolding update_order_status_with_audit
  update_order_status-Audited cmd w edge v =
      with_tx_keeps Audited (update_order_status_body parse_addr cmd) w v
        (update_order_status_body-Audited cmd (begin_tx w) edge v)
