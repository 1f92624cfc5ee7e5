-- ===== src/Server/Views.antt =====
-- internal/orders/handler.go over the service and the repository: what GET /api/v1/orders/{order_id} shows.
use oms_go.Prelude.{ℕ, subst, ◌≢◌, ◌≡◌, refl, ap, Option, some, String}
use oms_go.Prelude.Exec.{Result, ok, err}
use oms_go.Db.Models.{Uuid}
use oms_go.Db.World.{World}
use oms_go.Auth.{customer_id_from_context}
use oms_go.Http.{HttpRequest, Answer, Message, write_json, write_json_error, status_ok}
use oms_go.Orders.Errors.{
  Error, unknown_status, invalid_transition, order_not_found, idempotency_conflict,
  invalid_actor_type, total_cents_overflow, validation_errors, db,
}
use oms_go.Orders.Decoding.{failed}
use oms_go.Orders.Interface.{OrderDetails}
use oms_go.Orders.Backend.Shown.{Shown, get_order-Shown}
use oms_go.Orders.Handler.{
  Texts, OrderResponse, Payload, order_payload, write_handler_error, map_order_response,
}
use oms_go.Orders.Handler.Shows.{Shows, map_order_response-Shows}
use oms_go.Orders.Handler.Endpoints.{Decoders, Route, get_order_by_id, serve_route}
use oms_go.Orders.Handler.Access.{
  answered, Asks, no_customer, no_identity, no_privilege, bad_order_id, bad_limit, bad_status,
  bad_cursor, bad_order, bad_update, asks_create, asks_get, asks_list, asks_cancel, asks_update,
}
use oms_go.Orders.Handler.Access.Served.{serve_route-Asks}
use oms_go.Server.{handler_service}

pub is_error :
    {status code : ℕ} {kind : String} {message : Message} {payload : Payload} {w w' : World}
    → ◌≢◌ {A = Answer Payload × World}
        (write_json_error code kind message, w)
        (write_json status payload, w')
is_error {kind = kind} {message} {w = w} {w' = w'} h =
    let answers : ◌≡◌ {A = Answer Payload} _ _ = ap (λ (z : Answer Payload × World). z.0) h in cc

pub handler_is_error :
    (e : Error) {status : ℕ} {payload : Payload} {w w' : World}
    → ◌≢◌ {A = Answer Payload × World}
        (write_handler_error (failed e), w)
        (write_json status payload, w')
unfolding write_handler_error
handler_is_error (unknown_status s) h = is_error h
handler_is_error (invalid_transition c) h = is_error h
handler_is_error order_not_found h = is_error h
handler_is_error idempotency_conflict h = is_error h
handler_is_error invalid_actor_type h = is_error h
handler_is_error total_cents_overflow h = is_error h
handler_is_error (validation_errors es) h = is_error h
handler_is_error (db e) h = is_error h

module _ (texts : Texts) (r : HttpRequest) (w : World) where
  -- The order that the path names, of the customer of the identity, as it is stored.
  pub record Viewed (status : ℕ) (shown : OrderResponse) (w' : World) : Type 0 where
    pub customer_id : Uuid
    pub order_id : Uuid
    pub details : OrderDetails
    pub of_identity : customer_id_from_context r.identity ≡ some customer_id
    pub of_path : texts.parse_uuid r.order_id ≡ some order_id
    pub in_tables : Shown order_id customer_id w details w'
    pub is_ok : status ≡ status_ok
    pub shows : Shows texts shown details

module _ (parse_addr : String → Option String) (parse_uuid : String → Option Uuid) (texts : Texts)
    (decoders : Decoders) (r : HttpRequest) (w : World) where
  viewed :
      (c o : Uuid)
      → customer_id_from_context r.identity ≡ some c
      → texts.parse_uuid r.order_id ≡ some o
      → {status : ℕ} {shown : OrderResponse} {w' : World} → (x : Result Error OrderDetails × World)
      → (handler_service parse_addr parse_uuid).get_order o c w ≡ x
      → answered (λ d. write_json status_ok (order_payload (map_order_response texts d))) x
        ≡ (write_json status (order_payload shown), w')
      → Viewed texts r w status shown w'
  unfolding handler_service
  viewed c o customer order {status} {shown} {w'} (ok d, t) e h =
      let answer : ◌≡◌ {A = Answer Payload} _ _ = ap (λ (z : Answer Payload × World). z.0) h in
      let state : t ≡ w' = ap (λ (z : Answer Payload × World). z.1) h in
      record {
        customer_id = c;
        order_id = o;
        details = d;
        of_identity = customer;
        of_path = order;
        in_tables = subst (Shown o c w d) state (get_order-Shown parse_addr parse_uuid o c w e);
        is_ok = cc;
        shows =
            let written : map_order_response texts d ≡ shown = cc in
            subst (λ z. Shows texts z d) written (map_order_response-Shows texts d);
      }
  viewed c o customer order (err x, t) e h = absurd (handler_is_error x h)

  of_route :
      (route : Route) (a : Answer Payload × World)
      → Asks texts decoders (handler_service parse_addr parse_uuid) r w route a
      → route ≡ get_order_by_id
      → {status : ℕ} {shown : OrderResponse} {w' : World}
      → a ≡ (write_json status (order_payload shown), w')
      → Viewed texts r w status shown w'
  of_route _ _ (no_customer route h) e k = absurd (is_error k)
  of_route _ _ (no_identity h) e k = absurd (cc)
  of_route _ _ (no_privilege i h j) e k = absurd (cc)
  of_route _ _ (bad_order_id route h) e k = absurd (is_error k)
  of_route _ _ (bad_limit m h) e k = absurd (cc)
  of_route _ _ (bad_status m h) e k = absurd (cc)
  of_route _ _ (bad_cursor m h) e k = absurd (cc)
  of_route _ _ (bad_order x h) e k = absurd (cc)
  of_route _ _ (bad_update x h) e k = absurd (cc)
  of_route _ _ (asks_create c req input h i j) e k = absurd (cc)
  of_route _ _ (asks_get c o h i) e k =
      viewed c o h i ((handler_service parse_addr parse_uuid).get_order o c w) refl k
  of_route _ _ (asks_list c input h i j l m n p) e k = absurd (cc)
  of_route _ _ (asks_cancel c input h i j l m n) e k = absurd (cc)
  of_route _ _ (asks_update i o status h j l m) e k = absurd (cc)

  -- Whenever the route of a single order answers with an order, the request's identity has a customer id,
  -- the path names a uuid, and what is shown, with the status 200, is the stored order that has this id and
  -- belongs to this customer, field by field, with its items and all of them. The tables stay as
  -- they were.
  pub serve_route-Viewed :
      {status : ℕ} {shown : OrderResponse} {w' : World}
      → serve_route texts decoders
          (some (handler_service parse_addr parse_uuid))
          get_order_by_id
          r
          w
        ≡ (write_json status (order_payload shown), w')
      → Viewed texts r w status shown w'
  serve_route-Viewed h =
      of_route get_order_by_id _
        (serve_route-Asks texts decoders (handler_service parse_addr parse_uuid) r w
          get_order_by_id)
        refl h
