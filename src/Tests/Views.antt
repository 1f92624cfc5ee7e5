-- ===== src/Tests/Views.antt =====
-- An order that is shown to its customer, and a cancellation that comes too late.
use oms_go.Prelude.{ℕ, ◌≡◌, refl, none, some, [], ◌∷◌}
use oms_go.Prelude.Int.{pos}
use oms_go.Prelude.Exec.{ok, err, ◌>>=◌, handle}
use oms_go.Prelude.Sort.{where_rows, order_by}
use oms_go.Auth.{customer_id_from_context}
use oms_go.Db.Selects
use oms_go.Orders.Backend.{new_service}
use oms_go.Orders.Repository.{get_order_by_id_and_customer_id_of, get_order_items_by_order_id_of}
use oms_go.Orders.Handler.Endpoints
use oms_go.Db.Models.{Order}
use oms_go.Db.Tables.{no_rows}
use oms_go.Db.World.{World, run_query}
use oms_go.Http.{write_json}
use oms_go.Orders.Interface.{Service, CancelOrderInput}
use oms_go.Orders.Handler.{OrderResponse, order_payload, map_order_response, parse_order_id}
use oms_go.Orders.Handler.Endpoints.{get_order_by_id, serve_route}
use oms_go.Orders.Service as OrdersService
use oms_go.Orders.Service.{cancel_order_details}
use oms_go.Server.{handler_service}
use oms_go.Server.Views.{Viewed, serve_route-Viewed}
use oms_go.Tests.Requests.{calm, no_addr, uuid_of}
use oms_go.Tests.Bodies.{texts, decoders, cancel_request}

abbrev bought : Order
bought = record {
  id = 7;
  customer_id = 3;
  status = "PENDING";
  idempotency_key = "k";
  total_cents = pos 900;
  currency = "USD";
  created_at = 5;
  updated_at = 5;
}

abbrev one_order : World
one_order = record calm {
  tables = record { orders = bought ∷ []; order_items = []; order_events = [] };
}

abbrev two_reads_later : World
two_reads_later = record one_order { step = 2 }

abbrev shown : OrderResponse
shown = record {
  id = "uuid";
  customer_id = "uuid";
  status = "PENDING";
  currency = "USD";
  total_cents = pos 900;
  items = [];
  created_at = 5;
  updated_at = 5;
}

answer :
    serve_route texts decoders
      (some (handler_service no_addr uuid_of))
      get_order_by_id
      cancel_request
      one_order
    ≡ (write_json 200 (order_payload shown), two_reads_later)
unfolding serve_route Endpoints.get_order ◌>>=◌ handle customer_id_from_context parse_order_id
    handler_service OrdersService.get_order new_service get_order_by_id_and_customer_id_of run_query
    Selects.get_order_by_id_and_customer_id where_rows get_order_items_by_order_id_of
    Selects.get_order_items_by_order_id map_order_response order_by
answer = refl

serve_route-Viewed_example : Viewed texts cancel_request one_order 200 shown two_reads_later
serve_route-Viewed_example =
    serve_route-Viewed no_addr uuid_of texts decoders cancel_request one_order answer

-- The order is pending when it is read; the statement that cancels it finds no row.
abbrev too_late : Service ℕ
too_late = record {
  repo = record {
    create_order_with_items_and_audit = λ cmd s. (err no_rows, s);
    get_order_by_id_and_customer_id = λ o c s. (ok bought, s);
    get_order_items_by_order_id = λ o s. (ok [], s);
    get_order_events_by_order_id = λ o s. (ok [], s);
    list_orders = λ cmd s. (ok [], s);
    cancel_order_with_audit = λ cmd s. (err no_rows, s);
    update_order_status_with_audit = λ cmd s. (err no_rows, s);
    process_pending_orders_batch_with_audit = λ cmd s. (ok [], s);
  };
  new_uuid = λ s. (0, s);
}

abbrev cancel_bought : CancelOrderInput
cancel_bought = record {
  order_id = 7;
  customer_id = 3;
  actor_id = some 3;
  reason = none;
  ip_address = none;
}
