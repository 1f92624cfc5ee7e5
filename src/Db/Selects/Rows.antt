-- ===== src/Db/Selects/Rows.antt =====
-- internal/db/orders.sql.go: the rows of `GetOrderByIDAndCustomerID` and `GetOrderItemsByOrderID`.
use mathlib.Core.List.{Memᴰ}
use oms_go.Prelude.{ℕ, ◌≡◌, refl, sym, ap, subst, ◌&&◌, List, [], ◌∷◌, ◌==◌, ==_iff, str_eq, arith}
use oms_go.Prelude.Int.{ℤ, pos, negsuc}
use oms_go.Prelude.Sort.{where_rows, order_by, take}
use oms_go.Prelude.Exec.{ok}
use oms_go.Prelude.Sort.Mem.{mem-where_rows, where_rows-mem, mem-order_by, order_by-mem}
use oms_go.Db.Models.{Uuid, Order, OrderItem}
use oms_go.Db.Tables.{Tables, Reply}
use oms_go.Db.Checks.{scan_one}
use oms_go.Db.Selects.{
  GetOrderByIdAndCustomerIdParams, get_order_by_id_and_customer_id, get_order_items_by_order_id,
  limited, past_cursor, newest_orders, ListOrdersByCustomerIdParams, list_orders_by_customer_id,
  ListOrdersByCustomerIdAndStatusParams, list_orders_by_customer_id_and_status,
}

scan_one-mem : (os : List Order) {o : Order} → scan_one os ≡ ok o → Memᴰ o os
scan_one-mem [] e = absurd (cc)
scan_one-mem (x ∷ os) {o} e = Memᴰ.head (cc)

pub get_order_by_id_and_customer_id-ok :
    (arg : GetOrderByIdAndCustomerIdParams) (t : Tables) {o : Order} {t' : Tables}
    → get_order_by_id_and_customer_id arg t ≡ (ok o, t')
    → Memᴰ o t.orders × (o.id ≡ arg.id) × (o.customer_id ≡ arg.customer_id) × (t ≡ t')
unfolding get_order_by_id_and_customer_id
get_order_by_id_and_customer_id-ok arg t {o} h =
    let row = ap (λ (r : Reply Order × Tables). r.0) h in
    let (m, fits) = mem-where_rows _ t.orders (scan_one-mem _ row) in
    (m, ground (arith), ground (arith), ap (λ (r : Reply Order × Tables). r.1) h)

answered :
    {A : Type 0} {a b : A} {t t' : Tables}
    → ◌≡◌ {A = Reply A × Tables} (ok a, t) (ok b, t')
    → (a ≡ b) × (t ≡ t')
answered {A} e =
    (let same = ap (λ (r : Reply A × Tables). r.0) e in cc, ap (λ (r : Reply A × Tables). r.1) e)

-- The items are those of the order, and all of them.
pub get_order_items_by_order_id-ok :
    (order_id : Uuid) (t : Tables) {xs : List OrderItem} {t' : Tables}
    → get_order_items_by_order_id order_id t ≡ (ok xs, t')
    → ((x : OrderItem) → Memᴰ x xs → Memᴰ x t.order_items × (x.order_id ≡ order_id))
      × ((x : OrderItem) → Memᴰ x t.order_items → x.order_id ≡ order_id → Memᴰ x xs)
      × (t ≡ t')
unfolding get_order_items_by_order_id
get_order_items_by_order_id-ok order_id t {xs} h = (
  λ x m.
      let (k, fits) =
        mem-where_rows _ t.order_items (mem-order_by _ _ (subst (Memᴰ x) (sym (answered h).0) m)) in
      (k, (==_iff x.order_id order_id).0 fits),
  λ x m e.
      subst (Memᴰ x) (answered h).0
        (order_by-mem _ _ (where_rows-mem _ t.order_items m ((==_iff x.order_id order_id).1 e))),
  (answered h).1,
)

limited-ok :
    (n : ℤ) (os : List Order) (t : Tables) {xs : List Order} {t' : Tables}
    → limited n os t ≡ (ok xs, t')
    → (k : ℕ) × (n ≡ pos k) × (xs ≡ take k os) × (t ≡ t')
unfolding limited
limited-ok (pos k) os t h = (k, refl, sym (answered h).0, (answered h).1)
limited-ok (negsuc k) os t h = absurd (cc)

pub list_orders_by_customer_id-ok :
    (arg : ListOrdersByCustomerIdParams) (t : Tables) {xs : List Order} {t' : Tables}
    → list_orders_by_customer_id arg t ≡ (ok xs, t')
    → (k : ℕ) × (arg.limit ≡ pos k)
      × (xs
          ≡ take k (
              order_by newest_orders (
                where_rows
                  (λ o.
                    o.customer_id == arg.customer_id
                    && past_cursor arg.cursor_created_at arg.cursor_id o)
                  t.orders)))
      × (t ≡ t')
unfolding list_orders_by_customer_id
list_orders_by_customer_id-ok arg t h = limited-ok arg.limit _ t h

pub list_orders_by_customer_id_and_status-ok :
    (arg : ListOrdersByCustomerIdAndStatusParams) (t : Tables) {xs : List Order} {t' : Tables}
    → list_orders_by_customer_id_and_status arg t ≡ (ok xs, t')
    → (k : ℕ) × (arg.limit ≡ pos k)
      × (xs
          ≡ take k (
              order_by newest_orders (
                where_rows
                  (λ o.
                    o.customer_id == arg.customer_id
                    && str_eq o.status arg.status
                    && past_cursor arg.cursor_created_at arg.cursor_id o)
                  t.orders)))
      × (t ≡ t')
unfolding list_orders_by_customer_id_and_status
list_orders_by_customer_id_and_status-ok arg t h = limited-ok arg.limit _ t h
