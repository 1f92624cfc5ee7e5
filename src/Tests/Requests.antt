-- ===== src/Tests/Requests.antt =====
-- The service over its repository: runs over empty tables.
use oms_go.Prelude.{◌+◌, none, some, false, String, Option, List, [], ◌∷◌, str_eq, if◌then◌else◌}
use oms_go.Prelude.Int.{pos}
use oms_go.Db.Models.{Uuid}
use oms_go.Db.Tables.{Tables}
use oms_go.Db.World.{World, fine}
use oms_go.Orders.Audit.{Audited}
use oms_go.Orders.Backend.{
  Request, create_order, update_order_status_by_target, process_pending_orders_batch, serve_all,
  serve_all-Audited,
}

abbrev pub no_addr : String → Option String
no_addr s = none

abbrev pub uuid_of : String → Option Uuid
uuid_of s = if str_eq s "product" then some 7 else none

abbrev pub no_rows_yet : Tables
no_rows_yet = record { orders = []; order_items = []; order_events = [] }

-- Each use of the outside gets the next number, and nothing fails.
abbrev pub calm : World
calm = record {
  tables = no_rows_yet;
  step = 0;
  now = 0;
  time_at = λ n. 1000 + n;
  uuid_at = λ n. 100 + n;
  locked_at = λ n i. false;
  fault_at = λ n. fine;
}

abbrev buy : Request
buy = create_order (record {
  customer_id = 1;
  idempotency_key = "k";
  currency = "USD";
  items =
      record { product_id = "product"; sku = "sku"; quantity = pos 2; unit_price_cents = pos 50 }
      ∷ [];
  actor_id = some 1;
  reason = none;
  ip_address = none;
})

-- The id of the first order.
abbrev first : Uuid
first = 101

abbrev ship : Request
ship = update_order_status_by_target first "SHIPPED" "ADMIN" none none none

abbrev work : Request
work =
    process_pending_orders_batch
      (record { limit = pos 10; actor_id = none; reason = none; ip_address = none })

abbrev pub life : List Request
life = buy ∷ buy ∷ ship ∷ work ∷ ship ∷ []

pub Audited-no_rows_yet : Audited no_rows_yet
Audited-no_rows_yet = record {
  distinct = tt;
  owned = λ e m. elim m [ ];
  trails = λ o m. elim m [ ];
}

serve_all-Audited_example : Audited (serve_all no_addr uuid_of calm life).tables
serve_all-Audited_example = serve_all-Audited no_addr uuid_of calm life Audited-no_rows_yet
