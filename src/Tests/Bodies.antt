-- ===== src/Tests/Bodies.antt =====
-- Requests of the order routes: a body, a cursor, and a customer who lists orders.
use oms_go.Prelude.{ℕ, suc, ◌≡◌, refl, Option, none, some, List, [], ◌∷◌, str_eq, if◌then◌else◌}
use oms_go.Prelude.Exec.{Result, ok, err}
use oms_go.Prelude.Text.{is_space}
use oms_go.Auth.{role_customer}
use oms_go.Http.{HttpRequest}
use oms_go.Orders.Json.{Body, JsonError, eof, decode_json_strict}
use oms_go.Orders.Json.Accepted.{Outcome, decode_json_strict-Outcome}
use oms_go.Orders.Errors.{order_not_found}
use oms_go.Orders.Handler.{Texts}
use oms_go.Orders.Handler.Cursor.{Reads, parse_cursor, encode_cursor, parse_cursor-encode_cursor}
use oms_go.Orders.Handler.Endpoints.{HandlerService, Decoders, post_cancel, serve_route}
use oms_go.Orders.Handler.Access.{Asks}
use oms_go.Orders.Handler.Access.Served.{serve_route-Asks}

-- A value is one byte.
abbrev first_byte : List ℕ → Result JsonError (ℕ × List ℕ)
first_byte [] = err eof
first_byte (b ∷ bs) = ok (b, bs)

abbrev next_value : List ℕ → Option JsonError
next_value [] = some eof
next_value (b ∷ bs) = none

abbrev two_values : Body
two_values = record { content = 7 ∷ 8 ∷ []; broken = none }

decode_json_strict-Outcome_example :
    Outcome first_byte next_value 5 two_values
      (decode_json_strict first_byte next_value 5 two_values)
decode_json_strict-Outcome_example = decode_json_strict-Outcome first_byte next_value 5 two_values

-- The texts of one time and one uuid; nothing is encoded.
abbrev pub texts : Texts
texts = record {
  format_time = λ t. "2024";
  parse_time = λ s. if str_eq s "2024" then some 2024 else none;
  format_uuid = λ u. "uuid";
  parse_uuid = λ s. if str_eq s "uuid" then some 7 else none;
  encode = λ s. s;
  decode = λ s. some s;
  split_host_port = λ s. none;
  parse_addr = λ s. none;
}

one_cursor : Reads texts 2024 7
unfolding is_space
one_cursor = record {
  time_back = refl;
  id_back = refl;
  no_bar = ((refl, (refl, (refl, (refl, tt)))), (refl, (refl, (refl, (refl, tt)))));
  decoded = refl;
  solid = (refl, (refl, (refl, (refl, (refl, (refl, (refl, (refl, (refl, tt)))))))));
  full = λ e. cc;
}

parse_cursor-encode_cursor_example :
    parse_cursor texts (encode_cursor texts 2024 7) ≡ ok (some 2024, some 7)
parse_cursor-encode_cursor_example = parse_cursor-encode_cursor texts 2024 7 one_cursor

-- A service that counts its calls and finds nothing.
abbrev empty_service : HandlerService ℕ
empty_service = record {
  create_order = λ input s. (err order_not_found, suc s);
  get_order = λ o c s. (err order_not_found, suc s);
  list_order_details = λ input s. (ok [], suc s);
  cancel_order_details = λ input s. (err order_not_found, suc s);
  update_order_status_by_target =
      λ o status actor_type actor_id reason ip s. (err order_not_found, suc s);
}

abbrev pub decoders : Decoders
decoders = record {
  create_order = record { first = λ bytes. err eof; next = next_value };
  update_order_status = record { first = λ bytes. ok ("SHIPPED", []); next = next_value };
}

abbrev pub cancel_request : HttpRequest
cancel_request = record {
  headers = λ name. "";
  identity =
      some
        (record { role = role_customer; customer_id = some 3; subject = none; subject_id = none });
  order_id = "uuid";
  query = λ name. "";
  body = two_values;
  remote_addr = "";
}

serve_route-Asks_example :
    Asks texts decoders empty_service cancel_request 0 post_cancel
      (serve_route texts decoders (some empty_service) post_cancel cancel_request 0)
serve_route-Asks_example =
    serve_route-Asks texts decoders empty_service cancel_request 0 post_cancel
