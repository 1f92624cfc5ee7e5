-- ===== src/Db/Selects.antt =====
-- internal/db/orders.sql.go: the SELECT statements over the tables.
pub mod Reads
pub mod Rows
pub mod Pages
use oms_go.Prelude.{
  Bool, true, ◌&&◌, ◌||◌, Option, none, some, String, List, str_eq, ◌==◌, ltb, leb,
}
use oms_go.Prelude.Exec.{ok}
use oms_go.Prelude.Int.{ℤ, pos, negsuc}
use oms_go.Prelude.Sort.{where_rows, order_by, take}
use oms_go.Db.Models.{Uuid, Timestamp, Order, OrderEvent, OrderItem}
use oms_go.Db.Tables.{Tables, pg_error, Statement, reject}
use oms_go.Db.Checks.{invalid_row_count_in_limit_clause, scan_one}

pub record GetOrderByIdAndCustomerIdParams : Type 0 where
  pub id : Uuid
  pub customer_id : Uuid

unfoldable pub get_order_by_id_and_customer_id : GetOrderByIdAndCustomerIdParams → Statement Order
get_order_by_id_and_customer_id arg t =
    (scan_one (where_rows (λ o. o.id == arg.id && o.customer_id == arg.customer_id) t.orders), t)

-- The orders of rows that the statements ask for.
abbrev pub older_first : Timestamp × Uuid → Timestamp × Uuid → Bool
older_first (a, i) (b, j) = ltb a b || (a == b && leb i j)

abbrev pub newer_first : Timestamp × Uuid → Timestamp × Uuid → Bool
newer_first (a, i) (b, j) = ltb b a || (a == b && leb j i)

unfoldable pub get_order_events_by_order_id : Uuid → Statement (List OrderEvent)
get_order_events_by_order_id order_id t = (
  ok (
      order_by (λ a b. newer_first (a.created_at, a.id) (b.created_at, b.id))
        (where_rows (λ e. e.order_id == order_id) t.order_events)),
  t,
)

unfoldable pub get_order_items_by_order_id : Uuid → Statement (List OrderItem)
get_order_items_by_order_id order_id t = (
  ok (
      order_by (λ a b. older_first (a.created_at, a.id) (b.created_at, b.id))
        (where_rows (λ x. x.order_id == order_id) t.order_items)),
  t,
)

-- `LIMIT n`; a negative n is an error.
limited : ℤ → List Order → Statement (List Order)
limited (pos n) os t = (ok (take n os), t)
limited (negsuc n) os t = reject (pg_error invalid_row_count_in_limit_clause "") t

-- The condition on the cursor: absent, or strictly after it in the order of the list. A comparison
-- with a NULL id is not true.
abbrev pub past_cursor : Option Timestamp → Option Uuid → Order → Bool
past_cursor none i o = true
past_cursor (some at) none o = ltb o.created_at at
past_cursor (some at) (some i) o = ltb o.created_at at || (o.created_at == at && ltb o.id i)

abbrev pub newest_orders : Order → Order → Bool
newest_orders a b = newer_first (a.created_at, a.id) (b.created_at, b.id)

pub record ListOrdersByCustomerIdParams : Type 0 where
  pub customer_id : Uuid
  pub limit : ℤ
  pub cursor_created_at : Option Timestamp
  pub cursor_id : Option Uuid

unfoldable pub list_orders_by_customer_id : ListOrdersByCustomerIdParams → Statement (List Order)
unfolding limited
list_orders_by_customer_id arg t =
    limited arg.limit
      (order_by newest_orders (
        where_rows
          (λ o.
            o.customer_id == arg.customer_id && past_cursor arg.cursor_created_at arg.cursor_id o)
          t.orders))
      t

pub record ListOrdersByCustomerIdAndStatusParams : Type 0 where
  pub customer_id : Uuid
  pub status : String
  pub limit : ℤ
  pub cursor_created_at : Option Timestamp
  pub cursor_id : Option Uuid

unfoldable pub list_orders_by_customer_id_and_status :
    ListOrdersByCustomerIdAndStatusParams → Statement (List Order)
unfolding limited
list_orders_by_customer_id_and_status arg t =
    limited arg.limit
      (order_by newest_orders (
        where_rows
          (λ o.
            o.customer_id == arg.customer_id
            && str_eq o.status arg.status
            && past_cursor arg.cursor_created_at arg.cursor_id o)
          t.orders))
      t
