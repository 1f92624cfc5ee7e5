-- ===== src/Db/Selects/Reads.antt =====
-- internal/db/orders.sql.go: the tables after the two lists of orders.
use oms_go.Prelude.{◌≡◌, refl, List}
use oms_go.Prelude.Int.{ℤ, pos, negsuc}
use oms_go.Db.Models.{Order}
use oms_go.Db.Tables.{Tables}
use oms_go.Db.Selects.{
  limited, ListOrdersByCustomerIdParams, list_orders_by_customer_id,
  ListOrdersByCustomerIdAndStatusParams, list_orders_by_customer_id_and_status,
}

limited-reads : (n : ℤ) (os : List Order) (t : Tables) → (limited n os t).1 ≡ t
unfolding limited
limited-reads (pos n) os t = refl
limited-reads (negsuc n) os t = refl

pub by_customer-reads :
    (arg : ListOrdersByCustomerIdParams) (t : Tables) → (list_orders_by_customer_id arg t).1 ≡ t
unfolding list_orders_by_customer_id
by_customer-reads arg t = limited-reads arg.limit _ t

pub by_status-reads :
    (arg : ListOrdersByCustomerIdAndStatusParams) (t : Tables)
    → (list_orders_by_customer_id_and_status arg t).1 ≡ t
unfolding list_orders_by_customer_id_and_status
by_status-reads arg t = limited-reads arg.limit _ t
