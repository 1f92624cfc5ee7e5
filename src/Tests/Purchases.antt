-- ===== src/Tests/Purchases.antt =====
-- A purchase, followed from the request to the rows.
use oms_go.Prelude.{◌+◌, ◌≡◌, refl, none, some, false, String, Option, [], ◌∷◌}
use oms_go.Prelude.Text.{trim_space, decimal}
use oms_go.Prelude.Exec.{ok, err, ◌>>=◌, handle}
use oms_go.Prelude.Int.{pos, wrap64}
use oms_go.Db.Models.{Uuid}
use oms_go.Db.Tables.{Tables}
use oms_go.Db.Checks.{is_status, is_actor_type, has_order, has_idempotency_key}
use oms_go.Db.Inserts
use oms_go.Db.World.{World, fine, run_query, new_uuid}
use oms_go.Orders.Money.{calculate_total_cents}
use oms_go.Orders.Validation.{
  validate_create_order_request, append_if, is_blank, matches_currency_code,
}
use oms_go.Orders.Commands.{CreateOrderResult}
use oms_go.Orders.Interface.{CreateOrderInput, OrderDetails}
use oms_go.Orders.Transaction.{with_tx}
use oms_go.Orders.Repository.{
  create_order_with_items_and_audit, null_status, inet_value, get_order_by_id_and_customer_id_of,
  get_order_items_by_order_id_of,
}
use oms_go.Orders.Service
use oms_go.Orders.Backend.{new_service}
use oms_go.Orders.Backend.Shown.{Shown, get_order-Shown}
use oms_go.Orders.Errors.{idempotency_conflict, order_not_found}
use oms_go.Db.Selects.{get_order_by_id_and_customer_id, get_order_items_by_order_id}
use oms_go.Prelude.Sort.{where_rows, order_by}
use oms_go.Orders.Backend.Placed.{Placed, create_order-Placed}

abbrev no_addr : String → Option String
no_addr s = none

abbrev uuid_of : String → Option Uuid
uuid_of s = some 7

abbrev empty : Tables
empty = record { orders = []; order_items = []; order_events = [] }

-- Each use of the outside gets the next number, and nothing fails.
abbrev calm : World
calm = record {
  tables = empty;
  step = 0;
  now = 0;
  time_at = λ n. 1000 + n;
  uuid_at = λ n. 100 + n;
  locked_at = λ n i. false;
  fault_at = λ n. fine;
}

abbrev order_form : CreateOrderInput
order_form = record {
  customer_id = 1;
  idempotency_key = "k";
  currency = "USD";
  items = record { product_id = "p"; sku = "s"; quantity = pos 2; unit_price_cents = pos 50 } ∷ [];
  actor_id = some 1;
  reason = none;
  ip_address = none;
}

abbrev receipt : CreateOrderResult
receipt = record {
  order = record {
    id = 101;
    customer_id = 1;
    status = "PENDING";
    idempotency_key = "k";
    total_cents = pos 100;
    currency = "USD";
    created_at = 1002;
    updated_at = 1002;
  };
  items =
      record {
        id = 100;
        order_id = 101;
        product_id = 7;
        sku = "s";
        quantity = pos 2;
        unit_price_cents = pos 50;
        created_at = 1002;
      }
      ∷ [];
}

abbrev sold : World
sold = record calm {
  tables = record {
    orders = receipt.order ∷ [];
    order_items = receipt.items;
    order_events =
        record {
          id = 105;
          order_id = 101;
          actor_type = "CUSTOMER";
          actor_id = some 1;
          from_status = none;
          to_status = some "PENDING";
          action = "CREATED";
          reason = none;
          ip_address = none;
          created_at = 1002;
        }
        ∷ [];
  };
  step = 8;
  now = 1002;
}

purchase :
    Service.create_order (new_service no_addr uuid_of) uuid_of order_form calm ≡ (ok receipt, sold)
unfolding Service.create_order Service.reject_invalid Service.invalid validate_create_order_request
    append_if is_blank matches_currency_code trim_space decimal calculate_total_cents wrap64
    Service.command_items Service.parse_product Service.draw new_service new_uuid ◌>>=◌ handle
    create_order_with_items_and_audit with_tx run_query Inserts.create_order
    Inserts.create_order_item Inserts.create_order_event is_status is_actor_type has_order
    has_idempotency_key null_status inet_value
purchase = refl

create_order-Placed_example : Placed uuid_of order_form calm receipt sold
create_order-Placed_example =
    create_order-Placed no_addr uuid_of order_form calm {res = receipt} {w' = sold} purchase

-- A second form with the same key is refused, and another customer does not see the order.
repeated :
    ((Service.create_order (new_service no_addr uuid_of) uuid_of order_form sold).0
      ≡ err idempotency_conflict)
    × ((Service.get_order (new_service no_addr uuid_of) 101 2 sold).0 ≡ err order_not_found)
unfolding Service.create_order Service.reject_invalid Service.invalid validate_create_order_request
    append_if is_blank matches_currency_code trim_space decimal calculate_total_cents wrap64
    Service.command_items Service.parse_product Service.draw new_service new_uuid ◌>>=◌ handle
    create_order_with_items_and_audit with_tx run_query Inserts.create_order is_status has_order
    has_idempotency_key Service.get_order Service.or_not_found Service.or_conflict
    get_order_by_id_and_customer_id_of get_order_by_id_and_customer_id where_rows
repeated = (refl, refl)

abbrev details : OrderDetails
details = record { order = receipt.order; items = receipt.items }

abbrev seen : World
seen = record sold { step = 10 }

look_up : Service.get_order (new_service no_addr uuid_of) 101 1 sold ≡ (ok details, seen)
unfolding Service.get_order new_service get_order_by_id_and_customer_id_of
    get_order_items_by_order_id_of run_query handle ◌>>=◌ get_order_by_id_and_customer_id
    get_order_items_by_order_id where_rows order_by
look_up = refl

get_order-Shown_example : Shown 101 1 sold details seen
get_order-Shown_example =
    get_order-Shown no_addr uuid_of 101 1 sold {shown = details} {w' = seen} look_up
