-- ===== src/Tests/Lists.antt =====
-- A list of one order, and the list that its cursor asks for.
use mathlib.Core.List.{Memᴰ}
use oms_go.Prelude.{◌≡◌, refl, some, none, String, [], ◌∷◌, str_eq, ◌==◌, if◌then◌else◌, subst, sym}
use oms_go.Prelude.Int.{pos}
use oms_go.Prelude.Numbers.{atoi}
use oms_go.Prelude.Text.{is_space, trim_space}
use oms_go.Prelude.Text.Words.{split_on}
use oms_go.Prelude.Exec.{◌>>=◌, handle}
use oms_go.Prelude.Sort.{where_rows, insert_row, order_by, take}
use oms_go.Auth.{customer_id_from_context}
use oms_go.Db.Models.{Uuid, Timestamp, Order}
use oms_go.Db.Checks.{has_order}
use oms_go.Db.Keys.{DistinctIds}
use oms_go.Db.Selects
use oms_go.Db.World.{World, run_query}
use oms_go.Http.{HttpRequest, write_json}
use oms_go.Orders.Backend.{new_service}
use oms_go.Orders.Repository
use oms_go.Orders.Service
use oms_go.Orders.Handler.{
  Texts, OrderResponse, OrderListResponse, list_payload, map_order_response, parse_list_limit,
  parse_status,
}
use oms_go.Orders.Handler.Cursor.{Reads, parse_cursor, encode_cursor}
use oms_go.Orders.Handler.Endpoints.{get_orders, list_orders, list_response, cursor_of, serve_route}
use oms_go.Server.{handler_service}
use oms_go.Server.Lists.{Paged, serve_route-Paged}
use oms_go.Server.Lists.Following.{Followed, with_cursor, serve_route-Followed}
use oms_go.Tests.Requests.{calm, no_addr, uuid_of}
use oms_go.Tests.Bodies.{decoders, cancel_request}

-- Two times and two uuids.
abbrev two_texts : Texts
two_texts = record {
  format_time = λ t. if t == 5 then "5" else "7";
  parse_time = λ s. if str_eq s "5" then some 5 else some 7;
  format_uuid = λ u. if u == 1 then "1" else "2";
  parse_uuid = λ s. if str_eq s "1" then some 1 else some 2;
  encode = λ s. s;
  decode = λ s. some s;
  split_host_port = λ s. none;
  parse_addr = λ s. none;
}

abbrev bought_at : Uuid → Timestamp → Order
bought_at id at = record {
  id = id;
  customer_id = 3;
  status = "PENDING";
  idempotency_key = "k";
  total_cents = pos 900;
  currency = "USD";
  created_at = at;
  updated_at = at;
}

abbrev two_orders : World
two_orders = record calm {
  tables = record {
    orders = bought_at 1 5 ∷ bought_at 2 7 ∷ [];
    order_items = [];
    order_events = [];
  };
}

abbrev one_at_a_time : HttpRequest
one_at_a_time = record cancel_request { query = λ name. if str_eq name "limit" then "1" else "" }

abbrev shown_at : String → Timestamp → OrderResponse
shown_at id at = record {
  id = id;
  customer_id = "2";
  status = "PENDING";
  currency = "USD";
  total_cents = pos 900;
  items = [];
  created_at = at;
  updated_at = at;
}

abbrev first_list : OrderListResponse
first_list = record { orders = shown_at "2" 7 ∷ []; next_cursor = some "7|2" }

abbrev second_list : OrderListResponse
second_list = record { orders = shown_at "1" 5 ∷ []; next_cursor = some "5|1" }

abbrev later : World
later = record two_orders { step = 2 }

abbrev even_later : World
even_later = record two_orders { step = 4 }

first_answer :
    serve_route two_texts decoders
      (some (handler_service no_addr uuid_of))
      get_orders
      one_at_a_time
      two_orders
    ≡ (write_json 200 (list_payload first_list), later)
unfolding serve_route list_orders ◌>>=◌ handle customer_id_from_context handler_service new_service
    Service.list_order_details Service.list_orders Service.hydrate_order_details
    Repository.list_orders Repository.get_order_items_by_order_id_of run_query
    Selects.list_orders_by_customer_id Selects.get_order_items_by_order_id where_rows order_by
    insert_row take map_order_response list_response cursor_of encode_cursor parse_cursor
    parse_list_limit parse_status trim_space atoi
first_answer = refl

second_answer :
    serve_route two_texts decoders
      (some (handler_service no_addr uuid_of))
      get_orders
      (with_cursor "7|2" one_at_a_time)
      later
    ≡ (write_json 200 (list_payload second_list), even_later)
unfolding serve_route list_orders ◌>>=◌ handle customer_id_from_context handler_service new_service
    Service.list_order_details Service.list_orders Service.hydrate_order_details
    Repository.list_orders Repository.get_order_items_by_order_id_of run_query
    Selects.list_orders_by_customer_id Selects.get_order_items_by_order_id where_rows order_by
    insert_row take map_order_response list_response cursor_of encode_cursor parse_cursor
    parse_list_limit parse_status trim_space atoi split_on
second_answer = refl

serve_route-Paged_example : Paged two_texts one_at_a_time two_orders 200 first_list later
serve_route-Paged_example =
    serve_route-Paged no_addr uuid_of two_texts decoders one_at_a_time two_orders first_answer

older : Reads two_texts 5 1
unfolding is_space
older = record {
  time_back = refl;
  id_back = refl;
  no_bar = ((refl, tt), (refl, tt));
  decoded = refl;
  solid = (refl, (refl, (refl, tt)));
  full = λ e. cc;
}

newer : Reads two_texts 7 2
unfolding is_space
newer = record {
  time_back = refl;
  id_back = refl;
  no_bar = ((refl, tt), (refl, tt));
  decoded = refl;
  solid = (refl, (refl, (refl, tt)));
  full = λ e. cc;
}

both-Reads : (o : Order) → Memᴰ o two_orders.tables.orders → Reads two_texts o.created_at o.id
both-Reads o (Memᴰ.head e) = subst (λ (x : Order). Reads two_texts x.created_at x.id) (sym e) older
both-Reads o (Memᴰ.tail (Memᴰ.head e)) =
    subst (λ (x : Order). Reads two_texts x.created_at x.id) (sym e) newer
both-Reads o (Memᴰ.tail (Memᴰ.tail m)) = elim m [ ]

two_orders-DistinctIds : DistinctIds two_orders.tables.orders
unfolding has_order
two_orders-DistinctIds = (refl, (refl, tt))

serve_route-Followed_example : Followed two_texts one_at_a_time two_orders first_list second_list
serve_route-Followed_example =
    serve_route-Followed no_addr uuid_of two_texts decoders one_at_a_time two_orders later
      both-Reads two_orders-DistinctIds first_answer refl refl second_answer
