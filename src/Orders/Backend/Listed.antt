-- ===== src/Orders/Backend/Listed.antt =====
-- internal/orders/service.go: an answer of `ListOrderDetails` without an error.
use mathlib.Core.List.{Memᴰ}
use oms_go.Prelude.{
  ℕ, ◌≡◌, refl, sym, ap, ◌∙◌, subst, Bool, false, ◌&&◌, Option, none, some, String, List, [], ◌∷◌,
  map, All, str_eq, ◌==◌,
}
use oms_go.Prelude.Int.{ℤ, pos}
use oms_go.Prelude.Sort.{where_rows, order_by, take}
use oms_go.Prelude.Exec.{ok, >>=-eq-ok, handle-eq-ok}
use oms_go.Db.Models.{Uuid, Timestamp, Order, OrderItem}
use oms_go.Db.Tables.{Tables}
use oms_go.Db.Selects.{past_cursor, newest_orders}
use oms_go.Db.Selects.Rows.{
  get_order_items_by_order_id-ok, list_orders_by_customer_id-ok,
  list_orders_by_customer_id_and_status-ok,
}
use oms_go.Db.World.{World}
use oms_go.Db.World.Answers.{run_query-ok}
use oms_go.Orders.Errors.{db}
use oms_go.Orders.Interface.{OrderDetails, ListOrdersInput}
use oms_go.Orders.Repository.{get_order_items_by_order_id_of, list_orders}
use oms_go.Orders.Repository.Placing.{returned}
use oms_go.Orders.Service
use oms_go.Orders.Backend.{new_service}

-- The orders that a list may show.
unfoldable pub is_wanted : Uuid → Option String → Option Timestamp → Option Uuid → Order → Bool
is_wanted customer_id none at id o = o.customer_id == customer_id && past_cursor at id o
is_wanted customer_id (some status) at id o =
    o.customer_id == customer_id && str_eq o.status status && past_cursor at id o

-- An order's items, and all of them.
pub record WithItems (t : Tables) (d : OrderDetails) : Type 0 where
  pub its_items :
      (x : OrderItem) → Memᴰ x d.items → Memᴰ x t.order_items × (x.order_id ≡ d.order.id)
  pub all_items : (x : OrderItem) → Memᴰ x t.order_items → x.order_id ≡ d.order.id → Memᴰ x d.items

-- The newest of the wanted orders, as many as the limit says, each with its items.
pub record Listed (input : ListOrdersInput) (w : World) (listed : List OrderDetails) (w' : World)
    : Type 0 where
  pub limit : ℕ
  pub of_limit : input.limit ≡ pos limit
  pub page :
      map (λ (d : OrderDetails). d.order) listed
      ≡ take limit (
          order_by newest_orders (
            where_rows
              (is_wanted input.customer_id input.status input.cursor_created_at input.cursor_id)
              w.tables.orders))
  pub items : All (WithItems w.tables) listed
  pub untouched : w'.tables ≡ w.tables

abbrev Hydrated : List Order → Tables → List OrderDetails → Tables → Type 0
Hydrated orders t listed t' =
    (map (λ (d : OrderDetails). d.order) listed ≡ orders) × All (WithItems t) listed × (t' ≡ t)

-- A status that is given is not empty.
abbrev pub Filled : Option String → Type 0
Filled none = Unit
Filled (some status) = str_eq status "" ≡ false

-- The rows of the query that is chosen.
list_orders-page :
    (status : Option String)
    → Filled status
    → (customer_id : Uuid) (limit : ℤ) (at : Option Timestamp) (id : Option Uuid) (w : World)
      {os : List Order} {w' : World}
    → list_orders
        (record {
          customer_id = customer_id;
          limit = limit;
          status = status;
          cursor_created_at = at;
          cursor_id = id;
        })
        w
      ≡ (ok os, w')
    → (k : ℕ) × (limit ≡ pos k)
      × (os
          ≡ take k (
              order_by newest_orders
                (where_rows (is_wanted customer_id status at id) w.tables.orders)))
      × (w.tables ≡ w'.tables)
unfolding list_orders is_wanted
list_orders-page none filled customer_id limit at id w h =
    list_orders_by_customer_id-ok _ w.tables (run_query-ok _ w h)
list_orders-page (some status) filled customer_id limit at id w h =
    list_orders_by_customer_id_and_status-ok _ w.tables (run_query-ok _ w (rw filled at h))

module _ (parse_addr : String → Option String) (parse_uuid : String → Option Uuid) where
  hydrate-Hydrated :
      (orders : List Order) (w : World) {listed : List OrderDetails} {w' : World}
      → Service.hydrate_order_details (new_service parse_addr parse_uuid) orders w ≡ (ok listed, w')
      → Hydrated orders w.tables listed w'.tables
  unfolding Service.hydrate_order_details new_service get_order_items_by_order_id_of
  hydrate-Hydrated [] w {w' = w'} h =
      let (same, over) = returned h in
      subst (λ l. Hydrated [] w.tables l w'.tables) same (refl, tt, sym over)
  hydrate-Hydrated (o ∷ orders) w {w' = w'} h =
      let (items, w1, found, rest) = >>=-eq-ok _ _ w h in
      let (sound, complete, here) =
        get_order_items_by_order_id-ok o.id w.tables
          (run_query-ok _ w (handle-eq-ok _ _ w (λ e t. (db e, refl)) found)) in
      let (more, w2, others, done) = >>=-eq-ok _ _ w1 rest in
      let (same, all, kept) = hydrate-Hydrated orders w1 others in
      let (answer, over) = returned done in
      subst (λ l. Hydrated (o ∷ orders) w.tables l w'.tables) answer
        (
          ap (λ os. o ∷ os) same,
          (
            record { its_items = sound; all_items = complete },
            subst (λ t. All (WithItems t) more) (sym here) all,
          ),
          sym over ∙ (kept ∙ sym here),
        )

  -- A list with a status that is none or not empty.
  pub list_order_details-Listed :
      (input : ListOrdersInput) (w : World) {listed : List OrderDetails} {w' : World}
      → Filled input.status
      → Service.list_order_details (new_service parse_addr parse_uuid) input w ≡ (ok listed, w')
      → Listed input w listed w'
  unfolding Service.list_order_details Service.list_orders new_service
  list_order_details-Listed input w {listed} {w'} filled h =
      let (os, w1, found, rest) = >>=-eq-ok _ _ w h in
      let (k, limit, rows, here) =
        list_orders-page input.status filled input.customer_id input.limit input.cursor_created_at
          input.cursor_id w (handle-eq-ok _ _ w (λ e t. (db e, refl)) found) in
      let (same, all, kept) = hydrate-Hydrated os w1 rest in
      record {
        limit = k;
        of_limit = limit;
        page = same ∙ rows;
        items = subst (λ t. All (WithItems t) listed) (sym here) all;
        untouched = kept ∙ sym here;
      }
