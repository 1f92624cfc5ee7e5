-- ===== src/Orders/Repository/Batches/Moved.antt =====
-- What the worker's transaction has recorded of the orders that it moved.
use mathlib.Core.List.{Memᴰ}
use oms_go.Prelude.{
  ◌≡◌, refl, sym, ap, ◌∙◌, true, false, ◌⊎◌, inl, inr, some, String, List, [], ◌∷◌,
}
use oms_go.Prelude.Sort.Mem.{mem-cons_cases}
use oms_go.Db.Models.{Uuid, Order, OrderEvent}
use oms_go.Db.Tables.{Tables}
use oms_go.Db.Checks.{has_order}
use oms_go.Db.Keys.{not-head, DistinctIds, apart}
use oms_go.Db.World.{World}
use oms_go.Orders.StateMachine.{status_pending, status_processing}
use oms_go.Orders.Audit.{history}
use oms_go.Orders.Audit.Steps.{history-cons_same, history-cons_other}
use oms_go.Orders.Repository.{null_status}
use oms_go.Orders.Repository.Bodies.{Recorded}

-- The event of a move, on top of an order's history.
abbrev pub MovedOnce : Uuid → List OrderEvent → List OrderEvent → Type 0
MovedOnce i es es' =
    (e : OrderEvent) × (history i es' ≡ e ∷ history i es)
    × (e.from_status ≡ some status_pending)
    × (e.to_status ≡ some status_processing)

pub record Moves (os : List Order) (t t' : Tables) : Type 0 where
  pub same_orders : t'.orders ≡ t.orders
  pub moved_once : (o : Order) → Memᴰ o os → MovedOnce o.id t.order_events t'.order_events
  pub others :
      (i : Uuid) → has_order i os ≡ false → history i t'.order_events ≡ history i t.order_events
  pub owned :
      (e : OrderEvent)
      → Memᴰ e t'.order_events
      → Memᴰ e t.order_events ⊎ (has_order e.order_id t.orders ≡ true)

pub Moves-none : (t : Tables) → Moves [] t t
Moves-none t = record {
  same_orders = refl;
  moved_once = λ o m. elim m [ ];
  others = λ i h. refl;
  owned = λ e m. inl m;
}

module _ {actor action : String} (o : Order) (os : List Order) (w w1 w2 : World)
    (e : OrderEvent) where
  pub Moves-cons :
      Recorded o.id actor status_pending status_processing action w e w1
      → DistinctIds (o ∷ os)
      → Moves os w1.tables w2.tables
      → Moves (o ∷ os) w.tables w2.tables
  unfolding null_status
  Moves-cons r d ms = record {
    same_orders = ms.same_orders ∙ ap (λ (t : Tables). t.orders) r.added;
    moved_once = λ x m. once x (mem-cons_cases m);
    others = λ i h.
        ms.others i (not-head i o os h).1
        ∙ (ap (history i) events
            ∙ history-cons_other i e w.tables.order_events
                (λ q. (not-head i o os h).0 (sym r.of_order ∙ q)));
    owned = λ x m. known x (ms.owned x m);
  }
    where
      events : w1.tables.order_events ≡ e ∷ w.tables.order_events
      events = ap (λ (t : Tables). t.order_events) r.added

      here : history o.id w2.tables.order_events ≡ e ∷ history o.id w.tables.order_events
      here =
          ms.others o.id d.0
          ∙ (ap (history o.id) events ∙ history-cons_same o.id e w.tables.order_events r.of_order)

      below :
          (x : Order)
          → Memᴰ x os
          → history x.id w1.tables.order_events ≡ history x.id w.tables.order_events
      below x m =
          ap (history x.id) events
          ∙ history-cons_other x.id e w.tables.order_events
              (λ q. apart os d.0 m (sym r.of_order ∙ q))

      once :
          (x : Order)
          → (x ≡ o) ⊎ Memᴰ x os
          → MovedOnce x.id w.tables.order_events w2.tables.order_events
      once x (inl p) = rw p (e, here, r.from_it, r.to_it)
      once x (inr m) =
          let (y, longer, from, to) = ms.moved_once x m in
          (y, longer ∙ ap (λ (l : List OrderEvent). y ∷ l) (below x m), from, to)

      first :
          (x : OrderEvent)
          → (x ≡ e) ⊎ Memᴰ x w.tables.order_events
          → Memᴰ x w.tables.order_events ⊎ (has_order x.order_id w.tables.orders ≡ true)
      first x (inl p) = inr (rw (p, r.of_order) r.known)
      first x (inr m) = inl m

      known :
          (x : OrderEvent)
          → Memᴰ x w1.tables.order_events ⊎ (has_order x.order_id w1.tables.orders ≡ true)
          → Memᴰ x w.tables.order_events ⊎ (has_order x.order_id w.tables.orders ≡ true)
      known x (inl m) = first x (mem-cons_cases (rw events at m))
      known x (inr h) = inr (sym (ap (λ (t : Tables). has_order x.order_id t.orders) r.added) ∙ h)
