-- ===== src/Server/Lists.antt =====
-- internal/orders/handler.go over the service and the repository: what GET /api/v1/orders shows.
pub mod Joined
pub mod Following
use oms_go.Prelude.{
  ℕ, subst, ◌≢◌, ◌≡◌, refl, sym, ap, Option, none, some, String, List, Bool-cases, inl, inr, str_eq,
  eq_iff, false, not,
}
use oms_go.Prelude.Int.{pos, ◌≤ℤ◌}
use oms_go.Prelude.Text.{trim_space}
use oms_go.Prelude.Exec.{Result, ok, err}
use oms_go.Db.Models.{Uuid}
use oms_go.Db.World.{World}
use oms_go.Auth.{customer_id_from_context}
use oms_go.Http.{HttpRequest, Answer, write_json, status_ok}
use oms_go.Orders.Errors.{Error}
use oms_go.Orders.StateMachine.{is_valid_status}
use oms_go.Orders.Interface.{OrderDetails, ListOrdersInput}
use oms_go.Orders.Backend.Listed.{Filled, Listed, list_order_details-Listed}
use oms_go.Orders.Handler.{
  Texts, OrderListResponse, Payload, list_payload, parse_list_limit, parse_status,
}
use oms_go.Orders.Handler.Cursor.{parse_cursor}
use oms_go.Orders.Handler.Shows.{
  Pairwise, Shows, Continues, list_response-Pairwise, list_response-Continues,
}
use oms_go.Orders.Handler.Endpoints.{Decoders, Route, get_orders, list_response, serve_route}
use oms_go.Orders.Handler.Access.{
  answered, Asks, no_customer, no_identity, no_privilege, bad_order_id, bad_limit, bad_status,
  bad_cursor, bad_order, bad_update, asks_create, asks_get, asks_list, asks_cancel, asks_update,
}
use oms_go.Orders.Handler.Access.Served.{serve_route-Asks}
use oms_go.Server.{handler_service}
use oms_go.Server.Views.{is_error, handler_is_error}

module _ (texts : Texts) (r : HttpRequest) (w : World) where
  -- The page that the query asks for, of the customer of the identity, as it is stored.
  pub record Paged (status : ℕ) (shown : OrderListResponse) (w' : World) : Type 0 where
    pub input : ListOrdersInput
    pub listed : List OrderDetails
    pub of_identity : customer_id_from_context r.identity ≡ some input.customer_id
    pub of_limit : parse_list_limit (r.query "limit") ≡ ok input.limit
    pub bounds : (pos 1 ≤ℤ input.limit) × (input.limit ≤ℤ pos 100)
    pub of_status : parse_status (r.query "status") ≡ ok input.status
    pub of_cursor :
        parse_cursor texts (r.query "cursor") ≡ ok (input.cursor_created_at, input.cursor_id)
    pub in_tables : Listed input w listed w'
    pub is_ok : status ≡ status_ok
    pub shows : Pairwise (Shows texts) shown.orders listed
    pub continues : Continues texts input.limit listed shown.next_cursor
    pub written : shown ≡ list_response texts input.limit listed

parse_status-Filled :
    (raw : String) {status : Option String} → parse_status raw ≡ ok status → Filled status
unfolding parse_status
parse_status-Filled raw {status} h = elim (Bool-cases (str_eq (trim_space raw) "")) [
  | inl blank ↦ subst Filled (same (rw blank at h)) tt
  | inr full ↦ elim (Bool-cases (is_valid_status (trim_space raw))) [
    | inl valid ↦ subst Filled (same (rw (full, valid) at h)) full
    | inr bad ↦ absurd (no_answer (rw (full, bad) at h))
  ]
]
  where
    same : {a b : Option String} → ◌≡◌ {A = Result String (Option String)} (ok a) (ok b) → a ≡ b
    same e = cc

    no_answer :
        {m : String} {a : Option String}
        → ¬ (◌≡◌ {A = Result String (Option String)} (err m) (ok a))
    no_answer e = cc

module _ (parse_addr : String → Option String) (parse_uuid : String → Option Uuid) (texts : Texts)
    (decoders : Decoders) (r : HttpRequest) (w : World) where
  paged :
      (c : Uuid) (input : ListOrdersInput)
      → customer_id_from_context r.identity ≡ some c
      → input.customer_id ≡ c
      → parse_list_limit (r.query "limit") ≡ ok input.limit
      → (pos 1 ≤ℤ input.limit) × (input.limit ≤ℤ pos 100)
      → parse_status (r.query "status") ≡ ok input.status
      → parse_cursor texts (r.query "cursor") ≡ ok (input.cursor_created_at, input.cursor_id)
      → {status : ℕ} {shown : OrderListResponse} {w' : World}
      → (x : Result Error (List OrderDetails) × World)
      → (handler_service parse_addr parse_uuid).list_order_details input w ≡ x
      → answered
          (λ details. write_json status_ok (list_payload (list_response texts input.limit details)))
          x
        ≡ (write_json status (list_payload shown), w')
      → Paged texts r w status shown w'
  unfolding handler_service
  paged c input customer same limit bounds wanted cursor {status} {shown} {w'} (ok ds, t) e h =
      let answer : ◌≡◌ {A = Answer Payload} _ _ = ap (λ (z : Answer Payload × World). z.0) h in
      let written : list_response texts input.limit ds ≡ shown = cc in
      let state : t ≡ w' = ap (λ (z : Answer Payload × World). z.1) h in
      record {
        input = input;
        listed = ds;
        of_identity = subst (λ k. customer_id_from_context r.identity ≡ some k) (sym same) customer;
        of_limit = limit;
        bounds = bounds;
        of_status = wanted;
        of_cursor = cursor;
        in_tables = subst (Listed input w ds) state (
            list_order_details-Listed parse_addr parse_uuid input w
              (parse_status-Filled (r.query "status") wanted) e);
        is_ok = cc;
        shows =
            subst (λ (z : OrderListResponse). Pairwise (Shows texts) z.orders ds) written
              (list_response-Pairwise texts input.limit ds);
        continues =
            subst (λ (z : OrderListResponse). Continues texts input.limit ds z.next_cursor) written
              (list_response-Continues texts input.limit ds bounds.0);
        written = sym written;
      }
  paged c input customer same limit bounds wanted cursor (err x, t) e h =
      absurd (handler_is_error x h)

  of_route :
      (route : Route) (a : Answer Payload × World)
      → Asks texts decoders (handler_service parse_addr parse_uuid) r w route a
      → route ≡ get_orders
      → {status : ℕ} {shown : OrderListResponse} {w' : World}
      → a ≡ (write_json status (list_payload shown), w')
      → Paged texts r w status shown w'
  of_route _ _ (no_customer route h) e k = absurd (is_error k)
  of_route _ _ (no_identity h) e k = absurd (cc)
  of_route _ _ (no_privilege i h j) e k = absurd (cc)
  of_route _ _ (bad_order_id route h) e k = absurd (is_error k)
  of_route _ _ (bad_limit m h) e k = absurd (is_error k)
  of_route _ _ (bad_status m h) e k = absurd (is_error k)
  of_route _ _ (bad_cursor m h) e k = absurd (is_error k)
  of_route _ _ (bad_order x h) e k = absurd (cc)
  of_route _ _ (bad_update x h) e k = absurd (cc)
  of_route _ _ (asks_create c req input h i j) e k = absurd (cc)
  of_route _ _ (asks_get c o h i) e k = absurd (cc)
  of_route _ _ (asks_list c input h i j l m n p) e k =
      paged c input h i j (l, m) n p
        ((handler_service parse_addr parse_uuid).list_order_details input w) refl k
  of_route _ _ (asks_cancel c input h i j l m n) e k = absurd (cc)
  of_route _ _ (asks_update i o status h j l m) e k = absurd (cc)

  -- Whenever the route of the list answers with a list of orders, with the status 200, the request's
  -- identity has a customer id, the query gives a limit from 1 to 100, a status or none, and a cursor or
  -- none, and what is shown are the newest of the stored orders of this customer that have the status and
  -- come after the cursor, as many as the limit says, each field by field with its items and all of them,
  -- and with the cursor of the last one exactly if the page is full. The tables stay as they were.
  pub serve_route-Paged :
      {status : ℕ} {shown : OrderListResponse} {w' : World}
      → serve_route texts decoders (some (handler_service parse_addr parse_uuid)) get_orders r w
        ≡ (write_json status (list_payload shown), w')
      → Paged texts r w status shown w'
  serve_route-Paged h =
      of_route get_orders _
        (serve_route-Asks texts decoders (handler_service parse_addr parse_uuid) r w get_orders)
        refl h
