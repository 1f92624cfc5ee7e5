-- ===== src/Orders/Audit/Steps.antt =====
-- The audit trail over an insertion and over an update.
use mathlib.Core.List.{Memᴰ}
use oms_go.Prelude.{
  ◌≡◌, ◌≢◌, refl, sym, ◌∙◌, Bool, true, false, none, some, List, [], ◌∷◌, ◌==◌, ==_iff, Bool-cases,
  inl, inr, arith, if◌then◌else◌, ◌⊎◌,
}
use oms_go.Prelude.Sort.Mem.{mem-cons_cases}
use oms_go.Db.Models.{Uuid, Timestamp, Order, OrderEvent, OrderItem}
use oms_go.Db.Tables.{Tables}
use oms_go.Db.Checks.{has_order}
use oms_go.Db.Keys.{
  has_order_of_mem, has_order-cons, apart, has_order-update, DistinctIds-update, mem-update,
}
use oms_go.Db.Updates.{set_status, update_orders}
use oms_go.Orders.Errors.{OrderStatus}
use oms_go.Orders.StateMachine.{status_pending}
use oms_go.Orders.StateMachine.Graph.{Transition}
use oms_go.Orders.Audit.{Trail, created, moved, history, Audited}

pub history-cons_same :
    (i : Uuid) (e : OrderEvent) (es : List OrderEvent)
    → e.order_id ≡ i
    → history i (e ∷ es) ≡ e ∷ history i es
unfolding history
history-cons_same i e es h = ground arith

pub history-cons_other :
    (i : Uuid) (e : OrderEvent) (es : List OrderEvent)
    → e.order_id ≢ i
    → history i (e ∷ es) ≡ history i es
unfolding history
history-cons_other i e es h = ground arith

-- An id that no row has, has no history.
history-nil :
    (i : Uuid) (os : List Order) (es : List OrderEvent)
    → ((e : OrderEvent) → Memᴰ e es → has_order e.order_id os ≡ true)
    → has_order i os ≡ false
    → history i es ≡ []
unfolding history
history-nil i os [] owned h = refl
history-nil i os (e ∷ es) owned h =
    let rest = history-nil i os es (λ x m. owned x (Memᴰ.tail m)) h in
    let there = owned e (Memᴰ.head refl) in
    elim (Bool-cases (e.order_id == i)) [
      | inl same ↦ cc ((==_iff e.order_id i).0 same)
      | inr other ↦ rw other rest
    ]

-- The items play no part in the trail.
pub Audited-of_same :
    {t t' : Tables}
    → t'.orders ≡ t.orders
    → t'.order_events ≡ t.order_events
    → Audited t
    → Audited t'
Audited-of_same {t} {t'} os es v = record {
  distinct = rw os v.distinct;
  owned = λ e m. rw os (v.owned e (rw es at m));
  trails = λ o m. rw es (v.trails o (rw os at m));
}

module _ (t : Tables) (v : Audited t) where
  -- An order with a fresh id, and its first event.
  pub insert-Audited :
      (o : Order) (e : OrderEvent) (items : List OrderItem)
      → has_order o.id t.orders ≡ false
      → o.status ≡ status_pending
      → e.order_id ≡ o.id
      → e.from_status ≡ none
      → e.to_status ≡ some status_pending
      → Audited
          (record { orders = o ∷ t.orders; order_items = items; order_events = e ∷ t.order_events })
  insert-Audited o e items fresh pending same from to = record {
    distinct = (fresh, v.distinct);
    owned = λ x m. known x (mem-cons_cases m);
    trails = λ x m. trail x (mem-cons_cases m);
  }
    where
      known :
          (x : OrderEvent)
          → (x ≡ e) ⊎ Memᴰ x t.order_events
          → has_order x.order_id (o ∷ t.orders) ≡ true
      known x (inl p) = rw (p, same) (has_order_of_mem (o ∷ t.orders) (Memᴰ.head refl))
      known x (inr m) = has_order-cons x.order_id o t.orders (v.owned x m)

      trail :
          (x : Order)
          → (x ≡ o) ⊎ Memᴰ x t.orders
          → Trail x.status (history x.id (e ∷ t.order_events))
      trail x (inl p) = rw p (
          rw (history-cons_same o.id e t.order_events same)
            (rw (history-nil o.id t.orders t.order_events v.owned fresh) (created pending from to)))
      trail x (inr m) =
          rw (history-cons_other x.id e t.order_events (λ q. apart t.orders fresh m (sym same ∙ q)))
            (v.trails x m)

  module _ (p : Order → Bool) (now : Timestamp) (s s' : OrderStatus) (es : List OrderEvent) where
    -- The rows that fit `p` go from one status to the next, each with one event of its own.
    pub update-Audited :
        Transition s s'
        → ((o : Order)
            → Memᴰ o t.orders
            → p o ≡ true
            → (e : OrderEvent) × (o.status ≡ s)
              × (history o.id es ≡ e ∷ history o.id t.order_events)
              × (e.from_status ≡ some s)
              × (e.to_status ≡ some s'))
        → ((o : Order)
            → Memᴰ o t.orders
            → p o ≡ false
            → history o.id es ≡ history o.id t.order_events)
        → ((e : OrderEvent) → Memᴰ e es → has_order e.order_id t.orders ≡ true)
        → Audited
            (record t { orders = update_orders p (set_status now s') t.orders; order_events = es })
    update-Audited edge moving staying owned = record {
      distinct = DistinctIds-update p now s' t.orders v.distinct;
      owned = λ e m. has_order-update p now s' e.order_id t.orders ∙ owned e m;
      trails = λ o m. let (a, n, e) = mem-update p now s' t.orders m in trail o a n e (p a) refl;
    }
      where
        trail :
            (o a : Order)
            → Memᴰ a t.orders
            → o ≡ (if p a then set_status now s' a else a)
            → (b : Bool) → p a ≡ b
            → Trail o.status (history o.id es)
        trail o a n e true h =
            let (x, at, longer, from, to) = moving a n h in
            rw (e, h) (rw longer (moved (rw at at (v.trails a n)) edge from to))
        trail o a n e false h = rw (e, h) (rw (staying a n h) (v.trails a n))
