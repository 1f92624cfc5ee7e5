-- ===== src/Orders/Backend/Shown.antt =====
-- internal/orders/service.go: an answer of `GetOrder` without an error.
use mathlib.Core.List.{Memᴰ}
use oms_go.Prelude.{◌≡◌, refl, sym, ◌∙◌, subst, Option, String}
use oms_go.Prelude.Exec.{ok, err, >>=-eq-ok, handle-eq-ok}
use oms_go.Db.Models.{Uuid, OrderItem}
use oms_go.Db.Tables.{Tables, DbError, no_rows, pg_error, connection}
use oms_go.Db.Selects.Rows.{get_order_by_id_and_customer_id-ok, get_order_items_by_order_id-ok}
use oms_go.Db.World.{World}
use oms_go.Db.World.Answers.{run_query-ok}
use oms_go.Orders.Errors.{Error, db, order_not_found}
use oms_go.Orders.Interface.{OrderDetails}
use oms_go.Orders.Repository.{get_order_by_id_and_customer_id_of, get_order_items_by_order_id_of}
use oms_go.Orders.Repository.Placing.{returned}
use oms_go.Orders.Service
use oms_go.Orders.Backend.{new_service}

pub record Shown (order_id customer_id : Uuid) (w : World) (shown : OrderDetails) (w' : World)
    : Type 0 where
  pub the_order : shown.order.id ≡ order_id
  pub of_customer : shown.order.customer_id ≡ customer_id
  pub stored : Memᴰ shown.order w.tables.orders
  pub its_items :
      (x : OrderItem) → Memᴰ x shown.items → Memᴰ x w.tables.order_items × (x.order_id ≡ order_id)
  pub all_items :
      (x : OrderItem) → Memᴰ x w.tables.order_items → x.order_id ≡ order_id → Memᴰ x shown.items
  pub untouched : w'.tables ≡ w.tables

or_not_found-fails :
    {A : Type 0} (e : DbError) (w : World)
    → (x : Error) × ((Service.or_not_found {S = World} {A = A} e w).0 ≡ err x)
unfolding Service.or_not_found
or_not_found-fails no_rows w = (order_not_found, refl)
or_not_found-fails (pg_error c n) w = (db (pg_error c n), refl)
or_not_found-fails connection w = (db connection, refl)

module _ (parse_addr : String → Option String) (parse_uuid : String → Option Uuid) where
  -- Where `GetOrder` answers without an error, it shows a stored order that has the id and belongs to
  -- the customer, with its items and all of them, and changes nothing.
  pub get_order-Shown :
      (order_id customer_id : Uuid) (w : World) {shown : OrderDetails} {w' : World}
      → Service.get_order (new_service parse_addr parse_uuid) order_id customer_id w
        ≡ (ok shown, w')
      → Shown order_id customer_id w shown w'
  unfolding Service.get_order new_service get_order_by_id_and_customer_id_of
      get_order_items_by_order_id_of
  get_order-Shown order_id customer_id w {shown} {w'} h =
      let (order, w1, found, rest) = >>=-eq-ok _ _ w h in
      let (m, id, customer, here1) =
        get_order_by_id_and_customer_id-ok _ w.tables
          (run_query-ok _ w (handle-eq-ok _ _ w or_not_found-fails found)) in
      let (items, w2, listed, done) = >>=-eq-ok _ _ w1 rest in
      let (sound, complete, here2) =
        get_order_items_by_order_id-ok order_id w1.tables
          (run_query-ok _ w1 (handle-eq-ok _ _ w1 (λ e t. (db e, refl)) listed)) in
      let (same, here3) = returned done in
      subst (λ d. Shown order_id customer_id w d w') same
        (record {
          the_order = id;
          of_customer = customer;
          stored = m;
          its_items = λ x k.
              let (there, its) = sound x k in
              (subst (λ (t : Tables). Memᴰ x t.order_items) (sym here1) there, its);
          all_items = λ x k. complete x (subst (λ (t : Tables). Memᴰ x t.order_items) here1 k);
          untouched = sym (here1 ∙ (here2 ∙ here3));
        })
