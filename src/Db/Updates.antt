-- ===== src/Db/Updates.antt =====
-- internal/db/orders.sql.go: the UPDATE statements over the tables. Every row that matches changes;
-- RETURNING lists those rows as they are afterwards.
pub mod Updated
use oms_go.Prelude.{ℕ, Bool, ◌&&◌, not, String, List, map, str_eq, any, ◌==◌, if◌then◌else◌}
use oms_go.Prelude.Exec.{ok}
use oms_go.Prelude.Int.{ℤ, pos, negsuc}
use oms_go.Prelude.Sort.{where_rows, order_by, take}
use oms_go.Db.Models.{Uuid, Timestamp, Order}
use oms_go.Db.Tables.{pg_error, Statement, reject}
use oms_go.Db.Checks.{
  check_violation, invalid_row_count_in_limit_clause, is_status, has_order, scan_one,
}
use oms_go.Db.Selects.{older_first}

-- `UPDATE orders SET status = …, updated_at = now() WHERE … RETURNING …`: the rows that match, as
-- they are afterwards, and the table.
abbrev pub set_status : Timestamp → String → Order → Order
set_status now s o = record o { status = s; updated_at = now }

unfoldable pub update_orders : (Order → Bool) → (Order → Order) → List Order → List Order
update_orders p f os = map (λ o. if p o then f o else o) os

unfoldable pub returning : (Order → Bool) → (Order → Order) → List Order → List Order
unfolding where_rows
returning p f os = map f (where_rows p os)

-- An UPDATE for which `:one` was asked.
unfoldable pub update_one : (Order → Bool) → (Order → Order) → Statement Order
update_one p f t =
    (scan_one (returning p f t.orders), record t { orders = update_orders p f t.orders })

pub record CancelPendingOrderParams : Type 0 where
  pub id : Uuid
  pub customer_id : Uuid

abbrev pub is_cancellable : CancelPendingOrderParams → Order → Bool
is_cancellable arg o =
    o.id == arg.id && o.customer_id == arg.customer_id && str_eq o.status "PENDING"

unfoldable pub cancel_pending_order : Timestamp → CancelPendingOrderParams → Statement Order
unfolding update_one
cancel_pending_order now arg = update_one (is_cancellable arg) (set_status now "CANCELLED")

pub record UpdateOrderStatusIfCurrentStatusMatchesParams : Type 0 where
  pub id : Uuid
  pub status : String
  pub status_2 : String

abbrev pub status_matches : UpdateOrderStatusIfCurrentStatusMatchesParams → Order → Bool
status_matches arg o = o.id == arg.id && str_eq o.status arg.status

-- The CHECK on status is tested for the rows that change.
unfoldable pub update_order_status_if_current_status_matches :
    Timestamp → UpdateOrderStatusIfCurrentStatusMatchesParams → Statement Order
unfolding update_one
update_order_status_if_current_status_matches now arg t =
    if any (status_matches arg) t.orders && not (is_status arg.status_2)
    then reject (pg_error check_violation "orders_status_check") t
    else update_one (status_matches arg) (set_status now arg.status_2) t

-- The common table expression picks the oldest pending orders that no other transaction has locked;
-- the UPDATE moves those whose id was picked.
unfoldable pub picked_orders : (Uuid → Bool) → ℕ → List Order → List Order
picked_orders locked limit os = take limit (
    order_by (λ a b. older_first (a.created_at, a.id) (b.created_at, b.id))
      (where_rows (λ o. str_eq o.status "PENDING" && not (locked o.id)) os))

unfoldable pub is_picked : (Uuid → Bool) → ℕ → List Order → Order → Bool
is_picked locked limit os o = has_order o.id (picked_orders locked limit os)

unfoldable pub worker_pick_and_move_pending_orders_to_processing :
    Timestamp → (Uuid → Bool) → ℤ → Statement (List Order)
unfolding is_picked
worker_pick_and_move_pending_orders_to_processing now locked (negsuc n) t =
    reject (pg_error invalid_row_count_in_limit_clause "") t
worker_pick_and_move_pending_orders_to_processing now locked (pos limit) t = (
  ok (returning (is_picked locked limit t.orders) (set_status now "PROCESSING") t.orders),
  record t {
    orders = update_orders (is_picked locked limit t.orders) (set_status now "PROCESSING") t.orders;
  },
)
