-- ===== src/Tests/Pages.antt =====
-- Two pages of one row each.
use oms_go.Prelude.{suc, ◌+◌, ◌≡◌, refl, none, some, List, [], ◌∷◌, ◌++◌, length}
use oms_go.Prelude.Exec.{ok}
use oms_go.Prelude.Int.{pos}
use oms_go.Prelude.Sort.{where_rows, insert_row, order_by, take}
use oms_go.Db.Models.{Uuid, Timestamp, Order}
use oms_go.Db.Tables.{Tables}
use oms_go.Db.Checks.{has_order}
use oms_go.Db.Keys.{DistinctIds}
use oms_go.Db.Selects.{list_orders_by_customer_id}
use oms_go.Db.Selects.Pages.Cursor.{page, list_orders_by_customer_id-continues}

abbrev bought_at : Uuid → Timestamp → Order
bought_at id at = record {
  id = id;
  customer_id = 9;
  status = "PENDING";
  idempotency_key = "k";
  total_cents = pos 900;
  currency = "USD";
  created_at = at;
  updated_at = at;
}

abbrev three : Tables
three = record {
  orders = bought_at 1 5 ∷ bought_at 2 7 ∷ bought_at 3 5 ∷ [];
  order_items = [];
  order_events = [];
}

three-DistinctIds : DistinctIds three.orders
unfolding has_order
three-DistinctIds = (refl, (refl, (refl, tt)))

full_page : page 9 1 none none three ≡ (ok (bought_at 2 7 ∷ []), three)
unfolding list_orders_by_customer_id where_rows insert_row order_by take
full_page = refl

-- Of two orders of the same time, the one with the larger id comes first.
next_page : page 9 1 (some 7) (some 2) three ≡ (ok (bought_at 3 5 ∷ []), three)
unfolding list_orders_by_customer_id where_rows insert_row order_by take
next_page = refl

list_orders_by_customer_id-continues_example :
    (rest : List Order) × (page 9 2 (some 7) (some 2) three ≡ (ok rest, three))
    × (page 9 (suc (length {A = Order} [] + 2)) none none three
        ≡ (ok ([] ++ bought_at 2 7 ∷ rest), three))
list_orders_by_customer_id-continues_example =
    list_orders_by_customer_id-continues 9 2 three [] (bought_at 2 7) three-DistinctIds full_page
