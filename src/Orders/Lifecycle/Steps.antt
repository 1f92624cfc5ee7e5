-- ===== src/Orders/Lifecycle/Steps.antt =====
-- The changes that the statements make, as steps in the life of the orders.
use mathlib.Core.List.{Memᴰ}
use oms_go.Prelude.{◌≡◌, refl, sym, ◌∙◌, subst, Bool, true, false, ◌∷◌, if◌then◌else◌}
use oms_go.Prelude.Sort.Mem.{map-mem}
use oms_go.Db.Models.{Timestamp, Order, OrderEvent}
use oms_go.Db.Tables.{Tables}
use oms_go.Db.Updates.{set_status, update_orders}
use oms_go.Orders.Errors.{OrderStatus}
use oms_go.Orders.StateMachine.Graph.{Transition}
use oms_go.Orders.Lifecycle.{Reaches, arrived, onward, Follows, Evolves}

Reaches-trans : {s t u : OrderStatus} → Reaches s t → Reaches t u → Reaches s u
Reaches-trans {s} r (arrived e) = subst (Reaches s) e r
Reaches-trans r (onward q edge) = onward (Reaches-trans r q) edge

Follows-refl : (o : Order) → Follows o o
Follows-refl o = record {
  same_id = refl;
  same_customer = refl;
  same_key = refl;
  same_total = refl;
  same_currency = refl;
  same_creation = refl;
  course = arrived refl;
}

Follows-trans : {a b c : Order} → Follows a b → Follows b c → Follows a c
Follows-trans f g = record {
  same_id = g.same_id ∙ f.same_id;
  same_customer = g.same_customer ∙ f.same_customer;
  same_key = g.same_key ∙ f.same_key;
  same_total = g.same_total ∙ f.same_total;
  same_currency = g.same_currency ∙ f.same_currency;
  same_creation = g.same_creation ∙ f.same_creation;
  course = Reaches-trans f.course g.course;
}

Follows-set :
    (now : Timestamp) (s : OrderStatus) (o : Order)
    → Transition o.status s
    → Follows o (set_status now s o)
Follows-set now s o edge = record {
  same_id = refl;
  same_customer = refl;
  same_key = refl;
  same_total = refl;
  same_currency = refl;
  same_creation = refl;
  course = onward (arrived refl) edge;
}

pub Evolves-refl : (t : Tables) → Evolves t t
Evolves-refl t = record { orders = λ o m. (o, m, Follows-refl o); events = λ e m. m }

pub Evolves-trans : {t t' t'' : Tables} → Evolves t t' → Evolves t' t'' → Evolves t t''
Evolves-trans v w = record {
  orders = λ o m.
      let (a, n, f) = v.orders o m in let (b, k, g) = w.orders a n in (b, k, Follows-trans f g);
  events = λ e m. w.events e (v.events e m);
}

-- Tables with the same orders, and all of the events.
pub Evolves-of_same :
    {t t' : Tables}
    → t'.orders ≡ t.orders
    → ((e : OrderEvent) → Memᴰ e t.order_events → Memᴰ e t'.order_events)
    → Evolves t t'
Evolves-of_same os es = record { orders = λ o m. (o, rw os m, Follows-refl o); events = es }

pub Evolves-insert : (t : Tables) (o : Order) → Evolves t (record t { orders = o ∷ t.orders })
Evolves-insert t o = record { orders = λ a m. (a, Memᴰ.tail m, Follows-refl a); events = λ e m. m }

pub Evolves-update :
    (t : Tables) (p : Order → Bool) (now : Timestamp) (s s' : OrderStatus)
    → Transition s s'
    → ((o : Order) → Memᴰ o t.orders → p o ≡ true → o.status ≡ s)
    → Evolves t (record t { orders = update_orders p (set_status now s') t.orders })
unfolding update_orders
Evolves-update t p now s s' edge from = record {
  orders = λ o m. (_, map-mem _ t.orders m, course o m (p o) refl);
  events = λ e m. m;
}
  where
    course :
        (o : Order)
        → Memᴰ o t.orders
        → (b : Bool) → p o ≡ b
        → Follows o (if b then set_status now s' o else o)
    course o m true h = Follows-set now s' o (subst (λ x. Transition x s') (sym (from o m h)) edge)
    course o m false h = Follows-refl o
