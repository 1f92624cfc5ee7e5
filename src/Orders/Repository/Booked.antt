-- ===== src/Orders/Repository/Booked.antt =====
-- internal/orders/repository.go: what each transaction does to the book of orders.
use oms_go.Prelude.{
  ◌≡◌, refl, sym, ap, ◌∙◌, subst, true, Option, String, List, [], ◌∷◌, eq_iff, arith,
}
use oms_go.Prelude.Exec.{ok, >>=-eq-ok}
use oms_go.Db.Models.{Uuid, Order}
use oms_go.Db.Tables.{Tables}
use oms_go.Db.Inserts.{CreateOrderParams, order_row}
use oms_go.Db.Inserts.Inserted.{create_order-ok, create_order-fresh_key}
use oms_go.Db.Updates.{
  CancelPendingOrderParams, UpdateOrderStatusIfCurrentStatusMatchesParams, is_cancellable,
  set_status, status_matches, cancel_pending_order,
}
use oms_go.Db.Updates.Updated.{
  Updated, update_one-ok, update_order_status_if_current_status_matches-ok, worker_pick-ok,
}
use oms_go.Db.Keys.{DistinctIds}
use oms_go.Db.World.{World}
use oms_go.Db.World.Answers.{run_query-ok}
use oms_go.Orders.Errors.{OrderStatus}
use oms_go.Orders.StateMachine.{status_pending}
use oms_go.Orders.StateMachine.Graph.{Transition}
use oms_go.Orders.Commands.{
  CreateOrderCommand, CreateOrderResult, CancelOrderCommand, UpdateOrderStatusCommand,
  ProcessPendingOrdersBatchCommand,
}
use oms_go.Orders.Book.{Book, Entry, entry_of, book_of, book, Places, Cancels, Advances, Processes}
use oms_go.Orders.Book.Entries.{inserted-Places}
use oms_go.Orders.Transaction.{begin_tx}
use oms_go.Orders.Transaction.Outcomes.{Outcome, with_tx-Outcome}
use oms_go.Orders.Repository.{
  create_order_body, create_order_with_items_and_audit, cancel_order_body, cancel_order_with_audit,
  update_order_status_body, update_order_status_with_audit, record_moves,
  process_pending_orders_body, process_pending_orders_batch_with_audit,
}
use oms_go.Orders.Repository.Bodies.{create_items-OnlyItems, Recorded, record_event-ok}
use oms_go.Orders.Repository.Trails.{pure-tables}
use oms_go.Orders.Repository.Batches.{is_picked-pending}
use oms_go.Orders.Book.Updates.{update-Processes, Updated-Moves}

-- The entry of an order that the service's command places.
abbrev pub new_entry : CreateOrderCommand → Entry
new_entry cmd = record {
  customer_id = cmd.customer_id;
  idempotency_key = cmd.idempotency_key;
  status = status_pending;
  total_cents = cmd.total_cents;
  currency = cmd.currency;
}

Recorded-book :
    {i : Uuid} {actor action : String} {s s' : OrderStatus} {w w' : World} {e : _}
    → Recorded i actor s s' action w e w'
    → book w'.tables ≡ book w.tables
unfolding book
Recorded-book r = ap (λ (t : Tables). book_of t.orders) r.added

-- A change of the tables that the book shows.
abbrev pub Booked : (Book → Book → Type 0) → Tables → Tables → Type 0
Booked Change t t' = Change (book t) (book t')

module _ (parse_addr : String → Option String) where
  create_order_body-Places :
      (cmd : CreateOrderCommand) (w : World) (a : CreateOrderResult) (w' : World)
      → create_order_body parse_addr cmd w ≡ (ok a, w')
      → Places (new_entry cmd) (book w.tables) (book w'.tables)
  unfolding create_order_body book
  create_order_body-Places cmd w a w' h =
      let (o, w1, made, rest1) = >>=-eq-ok _ _ w h in
      let (fresh, _, inserted) = create_order-ok _ _ _ (run_query-ok _ w made) in
      let unused_key = create_order-fresh_key _ _ _ (run_query-ok _ w made) in
      let (xs, w2, items, rest2) = >>=-eq-ok _ _ w1 rest1 in
      let only = create_items-OnlyItems o.id cmd.items w1 items in
      let (e, w3, event, done) = >>=-eq-ok _ _ w2 rest2 in
      let r = record_event-ok parse_addr o.id _ _ _ _ _ _ _ w2 event in
      pure-tables (λ t. Places (new_entry cmd) (book w.tables) (book t)) w3 w' done
        (subst (Places (new_entry cmd) (book w.tables))
          (sym (
            Recorded-book r
            ∙ ap book_of (only.same_orders ∙ ap (λ (t : Tables). t.orders) inserted)))
          (inserted-Places (order_row w.now arg) w.tables.orders fresh unused_key))
    where
      arg : CreateOrderParams
      arg = record {
        id = cmd.order_id;
        customer_id = cmd.customer_id;
        status = status_pending;
        idempotency_key = cmd.idempotency_key;
        total_cents = cmd.total_cents;
        currency = cmd.currency;
      }

  cancel_order_body-Cancels :
      (cmd : CancelOrderCommand) (w : World)
      → DistinctIds w.tables.orders
      → (a : Order) (w' : World) → cancel_order_body parse_addr cmd w ≡ (ok a, w')
      → Cancels cmd.order_id cmd.customer_id (book w.tables) (book w'.tables)
  unfolding cancel_order_body cancel_pending_order
  cancel_order_body-Cancels cmd w d a w' h =
      let (o, w1, moved, rest) = >>=-eq-ok _ _ w h in
      let u : Updated (is_cancellable arg) (set_status w.now "CANCELLED") w.tables o w1.tables =
        update_one-ok (is_cancellable arg) w.now "CANCELLED" w.tables (run_query-ok _ w moved) in
      let (e, w2, event, done) = >>=-eq-ok _ _ w1 rest in
      let r = record_event-ok parse_addr o.id _ _ _ _ _ _ _ w1 event in
      pure-tables (λ t. Cancels cmd.order_id cmd.customer_id (book w.tables) (book t)) w2 w' done
        (subst (Cancels cmd.order_id cmd.customer_id (book w.tables)) (sym (Recorded-book r))
          (record {
            entry = entry_of u.row;
            owner = mine u.row u.fits;
            moves = Updated-Moves _ _ _ _ cmd.order_id _ d this pending u;
          }))
    where
      arg : CancelPendingOrderParams
      arg = record { id = cmd.order_id; customer_id = cmd.customer_id }

      this : (x : Order) → is_cancellable arg x ≡ true → x.id ≡ cmd.order_id
      this x p = ground (arith)

      mine : (x : Order) → is_cancellable arg x ≡ true → x.customer_id ≡ cmd.customer_id
      mine x p = ground (arith)

      pending : (x : Order) → is_cancellable arg x ≡ true → x.status ≡ "PENDING"
      pending x p = ground (arith, eq_iff x.status "PENDING")

  update_order_status_body-Advances :
      (cmd : UpdateOrderStatusCommand)
      → Transition cmd.expected_status cmd.new_status
      → (w : World) → DistinctIds w.tables.orders
      → (a : Order) (w' : World) → update_order_status_body parse_addr cmd w ≡ (ok a, w')
      → Advances cmd.order_id cmd.new_status (book w.tables) (book w'.tables)
  unfolding update_order_status_body
  update_order_status_body-Advances cmd edge w d a w' h =
      let (o, w1, moved, rest) = >>=-eq-ok _ _ w h in
      let u : Updated (status_matches arg) (set_status w.now cmd.new_status) w.tables o w1.tables =
        update_order_status_if_current_status_matches-ok w.now arg w.tables
          (run_query-ok _ w moved) in
      let (e, w2, event, done) = >>=-eq-ok _ _ w1 rest in
      let r = record_event-ok parse_addr o.id _ _ _ _ _ _ _ w1 event in
      pure-tables (λ t. Advances cmd.order_id cmd.new_status (book w.tables) (book t)) w2 w' done
        (subst (Advances cmd.order_id cmd.new_status (book w.tables)) (sym (Recorded-book r))
          (record {
            entry = entry_of u.row;
            from = cmd.expected_status;
            edge = edge;
            moves = Updated-Moves _ _ _ _ cmd.order_id _ d this expected u;
          }))
    where
      arg : UpdateOrderStatusIfCurrentStatusMatchesParams
      arg = record { id = cmd.order_id; status = cmd.expected_status; status_2 = cmd.new_status }

      this : (x : Order) → status_matches arg x ≡ true → x.id ≡ cmd.order_id
      this x p = ground (arith)

      expected : (x : Order) → status_matches arg x ≡ true → x.status ≡ cmd.expected_status
      expected x p = ground (arith, eq_iff x.status cmd.expected_status)

  record_moves-book :
      (cmd : ProcessPendingOrdersBatchCommand) (os : List Order) (w w' : World)
      → record_moves parse_addr cmd os w ≡ (ok tt, w')
      → book w'.tables ≡ book w.tables
  unfolding record_moves
  record_moves-book cmd [] w w' h = pure-tables (λ t. book t ≡ book w.tables) w w' h refl
  record_moves-book cmd (o ∷ os) w w' h =
      let (e, w1, event, rest) = >>=-eq-ok _ _ w h in
      record_moves-book cmd os w1 w' rest
      ∙ Recorded-book (record_event-ok parse_addr o.id _ _ _ _ _ _ _ w event)

  process_pending_orders_body-Processes :
      (cmd : ProcessPendingOrdersBatchCommand) (w : World)
      → DistinctIds w.tables.orders
      → (a : List Order) (w' : World) → process_pending_orders_body parse_addr cmd w ≡ (ok a, w')
      → Processes (book w.tables) (book w'.tables)
  unfolding process_pending_orders_body book
  process_pending_orders_body-Processes cmd w d a w' h =
      let (os, w1, moved, rest) = >>=-eq-ok _ _ w h in
      let (n, _, changed) = worker_pick-ok _ _ _ _ (run_query-ok _ w moved) in
      let (u, w2, events, done) = >>=-eq-ok _ _ w1 rest in
      pure-tables (λ t. Processes (book w.tables) (book t)) w2 w' done
        (subst (Processes (book w.tables))
          (sym (record_moves-book cmd os w1 w2 events ∙ ap book changed))
          (update-Processes _ w.now w.tables.orders
            (λ o m. is_picked-pending _ n w.tables.orders o d m)))

  pub create_order-Outcome :
      (cmd : CreateOrderCommand) (w : World)
      → let (x, w') = create_order_with_items_and_audit parse_addr cmd w in
        Outcome (Booked (Places (new_entry cmd))) x w.tables w'.tables
  unfolding create_order_with_items_and_audit
  create_order-Outcome cmd w =
      with_tx-Outcome _ (create_order_body parse_addr cmd) w
        (create_order_body-Places cmd (begin_tx w))

  pub cancel_order-Outcome :
      (cmd : CancelOrderCommand) (w : World)
      → DistinctIds w.tables.orders
      → let (x, w') = cancel_order_with_audit parse_addr cmd w in
        Outcome (Booked (Cancels cmd.order_id cmd.customer_id)) x w.tables w'.tables
  unfolding cancel_order_with_audit
  cancel_order-Outcome cmd w d =
      with_tx-Outcome _ (cancel_order_body parse_addr cmd) w
        (cancel_order_body-Cancels cmd (begin_tx w) d)

  pub update_order_status-Outcome :
      (cmd : UpdateOrderStatusCommand) (w : World)
      → Transition cmd.expected_status cmd.new_status
      → DistinctIds w.tables.orders
      → let (x, w') = update_order_status_with_audit parse_addr cmd w in
        Outcome (Booked (Advances cmd.order_id cmd.new_status)) x w.tables w'.tables
  unfolding update_order_status_with_audit
  update_order_status-Outcome cmd w edge d =
      with_tx-Outcome _ (update_order_status_body parse_addr cmd) w
        (update_order_status_body-Advances cmd edge (begin_tx w) d)

  pub process_pending_orders_batch-Outcome :
      (cmd : ProcessPendingOrdersBatchCommand) (w : World)
      → DistinctIds w.tables.orders
      → let (x, w') = process_pending_orders_batch_with_audit parse_addr cmd w in
        Outcome (Booked Processes) x w.tables w'.tables
  unfolding process_pending_orders_batch_with_audit
  process_pending_orders_batch-Outcome cmd w d =
      with_tx-Outcome _ (process_pending_orders_body parse_addr cmd) w
        (process_pending_orders_body-Processes cmd (begin_tx w) d)
