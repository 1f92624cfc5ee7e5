-- ===== src/Orders/Handler/Access.antt =====
-- internal/orders/handler.go: what each route asks of the service, and for whom.
pub mod Served
use oms_go.Prelude.{
  ℕ, ◌≡◌, ◌⊎◌, inl, inr, refl, sym, ap, subst, Bool, Bool-cases, Option-cases, true, false, ◌||◌,
  ltb, Option, none, some, String, List, [], ◌∷◌, str_eq, eq_iff, any, arith, if◌then◌else◌,
}
use oms_go.Prelude.Int.{ℤ, pos, negsuc, ltb_ℤ, ◌≤ℤ◌}
use oms_go.Prelude.Exec.{Result, ok, err, Exec, pure, ◌>>=◌, handle}
use oms_go.Db.Models.{Uuid}
use oms_go.Auth.{role_admin, role_system, Identity, customer_id_from_context, role_from_context}
use oms_go.Auth.Guards.{require_role, require_role_of}
use oms_go.Http.{
  HttpRequest, Answer, write_json, unauthorized, forbidden, status_ok, status_created,
}
use oms_go.Prelude.Text.{trim_space}
use oms_go.Prelude.Numbers.{atoi}
use oms_go.Orders.Errors.{OrderStatus, Error}
use oms_go.Orders.Validation.{CreateOrderRequest}
use oms_go.Orders.Decoding.{
  RequestError, failed, default_request_body_limit, decode_create_order_request,
  decode_update_order_status_request,
}
use oms_go.Orders.Commands.{CreateOrderResult}
use oms_go.Orders.Interface.{OrderDetails, CreateOrderInput, ListOrdersInput, CancelOrderInput}
use oms_go.Orders.Handler.{
  Texts, parse_list_limit, parse_status, parse_order_id, Payload, order_payload, list_payload,
  bad_request, write_handler_error, privileged_actor_id, map_order_response, request_ip_address,
  in_range,
}
use oms_go.Orders.Handler.Cursor.{parse_cursor}
use oms_go.Orders.Handler.Endpoints.{
  HandlerService, Decoders, Route, post_order, get_orders, get_order_by_id, post_cancel,
  patch_status, finish, or_bad_request, or_handler_error, or_unauthorized, or_unavailable, ask,
  actor_of, list_response, create_order, get_order, list_orders, cancel_order, update_order_status,
  serve_route,
}

-- The answer to a call that came back.
abbrev pub answered :
    {S A : Type 0} → (A → Answer Payload) → Result Error A × S → Answer Payload × S
answered f (ok a, s) = (f a, s)
answered f (err e, s) = (write_handler_error (failed e), s)

module _ (texts : Texts) (decoders : Decoders) {S : Type 0} (service : HandlerService S)
    (r : HttpRequest) (s : S) where
  abbrev shown : ℕ → OrderDetails → Answer Payload
  shown status details = write_json status (order_payload (map_order_response texts details))

  -- A refusal leaves the state as it was, and has its reason. Otherwise one method is called: for the
  -- customer of the request's identity, or, for a change of status, in the name of a role ADMIN or SYSTEM;
  -- and the answer is that of the method.
  pub data Asks : Route → Answer Payload × S → Type 0 where
    no_customer :
        (route : Route) → customer_id_from_context r.identity ≡ none → Asks route (unauthorized, s)
    no_identity : r.identity ≡ none → Asks patch_status (unauthorized, s)
    no_privilege :
        (i : Identity)
        → r.identity ≡ some i
        → ¬ ((i.role ≡ role_admin) ⊎ (i.role ≡ role_system))
        → Asks patch_status (forbidden, s)
    bad_order_id :
        (route : Route)
        → texts.parse_uuid r.order_id ≡ none
        → Asks route (bad_request "order_id must be a valid UUID", s)
    bad_limit :
        (m : String)
        → parse_list_limit (r.query "limit") ≡ err m
        → Asks get_orders (bad_request m, s)
    bad_status :
        (m : String) → parse_status (r.query "status") ≡ err m → Asks get_orders (bad_request m, s)
    bad_cursor :
        (m : String)
        → parse_cursor texts (r.query "cursor") ≡ err m
        → Asks get_orders (bad_request m, s)
    bad_order :
        (e : RequestError)
        → decode_create_order_request decoders.create_order r.body default_request_body_limit
          ≡ err e
        → Asks post_order (write_handler_error e, s)
    bad_update :
        (e : RequestError)
        → decode_update_order_status_request decoders.update_order_status r.body
            default_request_body_limit
          ≡ err e
        → Asks patch_status (write_handler_error e, s)
    asks_create :
        (c : Uuid) (req : CreateOrderRequest) (input : CreateOrderInput)
        → customer_id_from_context r.identity ≡ some c
        → decode_create_order_request decoders.create_order r.body default_request_body_limit
          ≡ ok req
        → input ≡ record {
          customer_id = c;
          idempotency_key = req.idempotency_key;
          currency = req.currency;
          items = req.items;
          actor_id = some c;
          reason = none;
          ip_address = request_ip_address texts r;
        }
        → Asks post_order (
            answered
              (λ result.
                shown status_created (record { order = result.order; items = result.items }))
              (service.create_order input s))
    asks_get :
        (c o : Uuid)
        → customer_id_from_context r.identity ≡ some c
        → texts.parse_uuid r.order_id ≡ some o
        → Asks get_order_by_id (answered (shown status_ok) (service.get_order o c s))
    asks_list :
        (c : Uuid) (input : ListOrdersInput)
        → customer_id_from_context r.identity ≡ some c
        → input.customer_id ≡ c
        → parse_list_limit (r.query "limit") ≡ ok input.limit
        → pos 1 ≤ℤ input.limit
        → input.limit ≤ℤ pos 100
        → parse_status (r.query "status") ≡ ok input.status
        → parse_cursor texts (r.query "cursor") ≡ ok (input.cursor_created_at, input.cursor_id)
        → Asks get_orders (
            answered
              (λ details.
                write_json status_ok (list_payload (list_response texts input.limit details)))
              (service.list_order_details input s))
    asks_cancel :
        (c : Uuid) (input : CancelOrderInput)
        → customer_id_from_context r.identity ≡ some c
        → texts.parse_uuid r.order_id ≡ some input.order_id
        → input.customer_id ≡ c
        → input.actor_id ≡ some c
        → input.reason ≡ none
        → input.ip_address ≡ request_ip_address texts r
        → Asks post_cancel (answered (shown status_ok) (service.cancel_order_details input s))
    asks_update :
        (i : Identity) (o : Uuid) (status : OrderStatus)
        → r.identity ≡ some i
        → (i.role ≡ role_admin) ⊎ (i.role ≡ role_system)
        → texts.parse_uuid r.order_id ≡ some o
        → decode_update_order_status_request decoders.update_order_status r.body
            default_request_body_limit
          ≡ ok status
        → Asks patch_status (
            answered (shown status_ok) (
              service.update_order_status_by_target o status i.role
                (privileged_actor_id i)
                none
                (request_ip_address texts r)
                s))

pub finish-ask :
    {S A : Type 0} (call : Exec S Error A) (f : A → Answer Payload) (s : S)
    → answered f (call s) ≡ finish (ask call >>= λ a. pure (f a)) s
unfolding finish ask ◌>>=◌ handle
finish-ask {S} {A} call f s = go (call s)
  where
    go : (x : Result Error A × S) → answered f x ≡ finish (ask (λ (_ : S). x) >>= λ a. pure (f a)) s
    go (ok a, t) = refl
    go (err e, t) = refl

pub Result-cases :
    {E A : Type 0} (x : Result E A) → ((e : E) × (x ≡ err e)) ⊎ ((a : A) × (x ≡ ok a))
Result-cases (ok a) = inr (a, refl)
Result-cases (err e) = inl (e, refl)
