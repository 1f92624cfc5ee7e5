-- ===== src/Orders/Repository/Batches.antt =====
-- internal/orders/repository.go: the worker's transaction and the audit trail.
mod Moved
use mathlib.Core.List.{Memᴰ}
use oms_go.Prelude.{
  ◌≡◌, ◌≢◌, refl, sym, ap, ◌∙◌, subst, true, false, ◌&&◌, not, Bool-cases, ◌⊎◌, inl, inr, Option,
  some, String, List, [], ◌∷◌, str_eq, eq_iff, arith, Bool, ℕ,
}
use oms_go.Prelude.Exec.{Result, ok, >>=-eq-ok}
use oms_go.Prelude.Sort.{where_rows, order_by, take}
use oms_go.Prelude.Sort.Mem.{mem-where_rows, mem-order_by, mem-take, mem-cons_cases}
use oms_go.Db.Models.{Uuid, Order, OrderEvent}
use oms_go.Db.Tables.{Tables}
use oms_go.Db.Checks.{has_order}
use oms_go.Db.Updates.{set_status, update_orders, returning, picked_orders, is_picked}
use oms_go.Db.Updates.Updated.{worker_pick-ok}
use oms_go.Db.Keys.{
  DistinctIds, row_unique, has_order_of_mem, mem_of_has_order, apart, has_order-update,
  mem-returning, returning-mem, DistinctIds-returning,
}
use oms_go.Db.World.{World}
use oms_go.Db.World.Answers.{run_query-ok}
use oms_go.Orders.StateMachine.{status_pending, status_processing}
use oms_go.Orders.StateMachine.Graph.{process}
use oms_go.Orders.Commands.{ProcessPendingOrdersBatchCommand}
use oms_go.Orders.Transaction.{begin_tx}
use oms_go.Orders.Transaction.Laws.{with_tx_keeps}
use oms_go.Orders.Audit.{Audited, history}
use oms_go.Orders.Audit.Steps.{
  Audited-of_same, update-Audited, history-cons_same, history-cons_other,
}
use oms_go.Orders.Repository.{
  null_status, record_moves, process_pending_orders_body, process_pending_orders_batch_with_audit,
}
use oms_go.Orders.Repository.Bodies.{Recorded, record_event-ok}
use oms_go.Orders.Repository.Trails.{pure-tables}
use oms_go.Orders.Repository.Batches.Moved.{Moves, Moves-none, Moves-cons}

and-left : (a b : Bool) → (a && b) ≡ true → a ≡ true
and-left true b h = refl
and-left false b h = h

picked_orders-mem :
    (locked : Uuid → Bool) (n : ℕ) (os : List Order) {o : Order}
    → Memᴰ o (picked_orders locked n os)
    → Memᴰ o os × (o.status ≡ status_pending)
unfolding picked_orders
picked_orders-mem locked n os {o} m =
    let (k, h) = mem-where_rows _ os (mem-order_by _ _ (mem-take n _ m)) in
    (k, (eq_iff o.status "PENDING").0 (and-left _ _ h))

-- A row that the worker picks is pending.
pub is_picked-pending :
    (locked : Uuid → Bool) (n : ℕ) (os : List Order) (o : Order)
    → DistinctIds os
    → Memᴰ o os
    → is_picked locked n os o ≡ true
    → o.status ≡ status_pending
unfolding is_picked
is_picked-pending locked n os o d m h =
    let (x, there, same) = mem_of_has_order o.id (picked_orders locked n os) h in
    let (k, pending) = picked_orders-mem locked n os there in
    ap (λ (y : Order). y.status) (row_unique os d m k (sym same)) ∙ pending

module _ (parse_addr : String → Option String) (cmd : ProcessPendingOrdersBatchCommand) where
  record_moves-Moves :
      (os : List Order) (w w' : World)
      → DistinctIds os
      → record_moves parse_addr cmd os w ≡ (ok tt, w')
      → Moves os w.tables w'.tables
  unfolding record_moves
  record_moves-Moves [] w w' d h =
      pure-tables (λ t. Moves [] w.tables t) w w' h (Moves-none w.tables)
  record_moves-Moves (o ∷ os) w w' d h =
      let (e, w1, event, rest) = >>=-eq-ok _ _ w h in
      Moves-cons o os w w1 w' e (record_event-ok parse_addr o.id _ _ _ _ _ _ _ w event) d
        (record_moves-Moves os w1 w' d.1 rest)

  module _ (w : World) (v : Audited w.tables) (n : ℕ) where
    picked : Order → Bool
    picked = is_picked (w.locked_at w.step) n w.tables.orders

    batch-Audited :
        (t1 t2 : Tables)
        → t1 ≡ record (w.tables) {
          orders = update_orders picked (set_status w.now status_processing) w.tables.orders;
        }
        → Moves (returning picked (set_status w.now status_processing) w.tables.orders) t1 t2
        → Audited t2
    unfolding picked
    batch-Audited t1 t2 u ms =
        Audited-of_same (ms.same_orders ∙ ap (λ (t : Tables). t.orders) u) refl (
          update-Audited w.tables v picked w.now status_pending status_processing t2.order_events
            (process refl refl) moving staying owned)
      where
        before : t1.order_events ≡ w.tables.order_events
        before = ap (λ (t : Tables). t.order_events) u

        rows : List Order
        rows = returning picked (set_status w.now status_processing) w.tables.orders

        moving :
            (o : Order)
            → Memᴰ o w.tables.orders
            → picked o ≡ true
            → (e : OrderEvent) × (o.status ≡ status_pending)
              × (history o.id t2.order_events ≡ e ∷ history o.id w.tables.order_events)
              × (e.from_status ≡ some status_pending)
              × (e.to_status ≡ some status_processing)
        moving o m h =
            let (e, longer, from, to) =
              ms.moved_once (set_status w.now status_processing o)
                (returning-mem picked w.now status_processing w.tables.orders m h) in
            (
              e,
              is_picked-pending _ n w.tables.orders o v.distinct m h,
              longer ∙ ap (λ (l : List OrderEvent). e ∷ history o.id l) before,
              from,
              to,
            )

        unmoved :
            (o : Order)
            → Memᴰ o w.tables.orders
            → picked o ≡ false
            → (b : Bool) → has_order o.id rows ≡ b
            → b ≡ false
        unmoved o m h false e = refl
        unmoved o m h true e =
            let (x, there, same) = mem_of_has_order o.id rows e in
            let (y, k, q, image) =
              mem-returning picked w.now status_processing w.tables.orders there in
            absurd (
              cc (
                ap picked (
                    row_unique w.tables.orders v.distinct m k
                      (sym same ∙ ap (λ (z : Order). z.id) image)),
                q,
                h,
              ))

        staying :
            (o : Order)
            → Memᴰ o w.tables.orders
            → picked o ≡ false
            → history o.id t2.order_events ≡ history o.id w.tables.order_events
        staying o m h =
            ms.others o.id (unmoved o m h (has_order o.id rows) refl) ∙ ap (history o.id) before

        owned :
            (e : OrderEvent) → Memᴰ e t2.order_events → has_order e.order_id w.tables.orders ≡ true
        owned e m = known e (ms.owned e m)
          where
            known :
                (e : OrderEvent)
                → Memᴰ e t1.order_events ⊎ (has_order e.order_id t1.orders ≡ true)
                → has_order e.order_id w.tables.orders ≡ true
            known e (inl k) = v.owned e (rw before at k)
            known e (inr k) =
                sym (
                  ap (λ (t : Tables). has_order e.order_id t.orders) u
                  ∙ has_order-update picked w.now status_processing e.order_id w.tables.orders)
                ∙ k

  moves-Audited :
      (w : World)
      → Audited w.tables
      → (n : ℕ) (os : List Order) (w1 w2 : World)
      → os
        ≡ returning
            (is_picked (w.locked_at w.step) n w.tables.orders)
            (set_status w.now status_processing)
            w.tables.orders
      → w1.tables ≡ record (w.tables) {
        orders =
            update_orders
              (is_picked (w.locked_at w.step) n w.tables.orders)
              (set_status w.now status_processing)
              w.tables.orders;
      }
      → record_moves parse_addr cmd os w1 ≡ (ok tt, w2)
      → Audited w2.tables
  unfolding picked
  moves-Audited w v n os w1 w2 answer changed events =
      batch-Audited w v n w1.tables w2.tables changed (
        subst (λ l. Moves l w1.tables w2.tables) answer
          (record_moves-Moves os w1 w2
            (subst DistinctIds (sym answer)
              (DistinctIds-returning _ w.now status_processing w.tables.orders v.distinct))
            events))

  process_pending_orders_body-Audited :
      (w : World)
      → Audited w.tables
      → (a : List Order) (w' : World) → process_pending_orders_body parse_addr cmd w ≡ (ok a, w')
      → Audited w'.tables
  unfolding process_pending_orders_body
  process_pending_orders_body-Audited w v a w' h =
      let (os, w1, moved, rest) = >>=-eq-ok _ _ w h in
      let (n, answer, changed) = worker_pick-ok _ _ _ _ (run_query-ok _ w moved) in
      let (u, w2, events, done) = >>=-eq-ok _ _ w1 rest in
      pure-tables Audited w2 w' done (moves-Audited w v n os w1 w2 answer changed events)

  -- Whatever fails, a run of the worker keeps the audit trail.
  pub process_pending_orders_batch-Audited :
      (w : World)
      → Audited w.tables
      → Audited (process_pending_orders_batch_with_audit parse_addr cmd w).1.tables
  unfolding process_pending_orders_batch_with_audit
  process_pending_orders_batch-Audited w v =
      with_tx_keeps Audited (process_pending_orders_body parse_addr cmd) w v
        (process_pending_orders_body-Audited (begin_tx w) v)
