-- ===== src/Server.antt =====
-- internal/platform/httpserver.go: the order routes behind the identity middleware, over the service and
-- the repository. Server.Listener has /healthz and the timeouts.
pub mod Views
pub mod Owners
pub mod Listener
pub mod Lists
use oms_go.Prelude.{◌≡◌, refl, sym, ap, subst, ◌∙◌, Option, none, some, String, List, [], ◌∷◌}
use oms_go.Prelude.Exec.{Result, ok, err}
use oms_go.Db.Models.{Uuid}
use oms_go.Db.World.{World}
use oms_go.Auth.{Identity}
use oms_go.Auth.Jwt.{Config}
use oms_go.Auth.Startup.{Client, new_identity_middleware}
use oms_go.Auth.Startup.Admits.{
  Admits, trusted, bearer, Refuses, unasked, asked, Verdict, served, refused,
}
use oms_go.Auth.Startup.Started.{Guards, new_identity_middleware-Guards}
use oms_go.Http.{HttpRequest, Answer, Handler, Middleware, with_identity}
use oms_go.Orders.Audit.{Audited}
use oms_go.Orders.Errors.{Error}
use oms_go.Orders.Service as OrdersService
use oms_go.Orders.Service.Methods
use oms_go.Orders.Backend.{new_service, new_service-Preserves}
use oms_go.Orders.Interface.{Service, Preserves}
use oms_go.Orders.Handler.{Texts, Payload, privileged_actor_id, request_ip_address}
use oms_go.Orders.Handler.Endpoints.{HandlerService, Decoders, Route, serve_route}
use oms_go.Orders.Handler.Access.{
  answered, Asks, no_customer, no_identity, no_privilege, bad_order_id, bad_limit, bad_status,
  bad_cursor, bad_order, bad_update, asks_create, asks_get, asks_list, asks_cancel, asks_update,
}
use oms_go.Orders.Handler.Access.Served.{serve_route-Asks}

module _ (parse_addr : String → Option String) (parse_uuid : String → Option Uuid) where
  -- `NewHandler(service)`.
  unfoldable pub handler_service : HandlerService World
  handler_service = record {
    create_order = OrdersService.create_order (new_service parse_addr parse_uuid) parse_uuid;
    get_order = OrdersService.get_order (new_service parse_addr parse_uuid);
    list_order_details = OrdersService.list_order_details (new_service parse_addr parse_uuid);
    cancel_order_details = OrdersService.cancel_order_details (new_service parse_addr parse_uuid);
    update_order_status_by_target =
        OrdersService.update_order_status_by_target (new_service parse_addr parse_uuid);
  }

  module _ (texts : Texts) (decoders : Decoders) where
    unfoldable pub serve_http : Middleware World Payload → Route → Handler World Payload
    serve_http identity_middleware route =
        identity_middleware (serve_route texts decoders (some handler_service) route)

    -- What requests leave behind, one after another.
    unfoldable pub serve_requests :
        Middleware World Payload → World → List (Route × HttpRequest) → World
    unfolding serve_http
    serve_requests m w [] = w
    serve_requests m w ((route, r) ∷ rs) = serve_requests m (serve_http m route r w).1 rs

    pub answered-after :
        {A : Type 0} (f : A → Answer Payload) (x : Result Error A × World) → x.1 ≡ (answered f x).1
    answered-after f (ok a, w) = refl
    answered-after f (err e, w) = refl

    abbrev Kept : World → Type 0
    Kept w = Audited w.tables

    abbrev service : Service World
    service = new_service parse_addr parse_uuid

    abbrev laws : Preserves Kept service
    laws = new_service-Preserves parse_addr parse_uuid

    Asks-Kept :
        (r : HttpRequest) (w : World) (route : Route) (a : Answer Payload × World)
        → Asks texts decoders handler_service r w route a
        → Kept w
        → Kept a.1
    unfolding handler_service
    Asks-Kept r w _ _ (no_customer route h) v = v
    Asks-Kept r w _ _ (no_identity h) v = v
    Asks-Kept r w _ _ (no_privilege i h k) v = v
    Asks-Kept r w _ _ (bad_order_id route h) v = v
    Asks-Kept r w _ _ (bad_limit m h) v = v
    Asks-Kept r w _ _ (bad_status m h) v = v
    Asks-Kept r w _ _ (bad_cursor m h) v = v
    Asks-Kept r w _ _ (bad_order e h) v = v
    Asks-Kept r w _ _ (bad_update e h) v = v
    Asks-Kept r w _ _ (asks_create c req input h i j) v =
        subst Kept (answered-after _ (handler_service.create_order input w))
          ((Methods.create_order-Safe Kept service laws parse_uuid input).after w v)
    Asks-Kept r w _ _ (asks_get c o h i) v =
        subst Kept (answered-after _ (handler_service.get_order o c w))
          ((Methods.get_order-Safe Kept service laws o c).after w v)
    Asks-Kept r w _ _ (asks_list c input h i j k l m n) v =
        subst Kept (answered-after _ (handler_service.list_order_details input w))
          ((Methods.list_order_details-Safe Kept service laws input).after w v)
    Asks-Kept r w _ _ (asks_cancel c input h i j k l m) v =
        subst Kept (answered-after _ (handler_service.cancel_order_details input w))
          ((Methods.cancel_order_details-Safe Kept service laws input).after w v)
    Asks-Kept r w _ _ (asks_update i o status h j k l) v =
        subst Kept
          (answered-after _ (
            handler_service.update_order_status_by_target o status i.role (privileged_actor_id i)
              none (request_ip_address texts r) w))
          ((Methods.update_order_status_by_target-Safe Kept service laws o status i.role
              (privileged_actor_id i) none (request_ip_address texts r)).after
            w v)

    module _ {R E Token : Type 0} (client : Client World R E Token) (cfg : Config)
        (m : Middleware World Payload)
        (verifies : (issuer url audience : String) (algorithms : List String) (raw : String)
            (w : World)
          → (client.verify issuer url audience algorithms raw w).1.tables ≡ w.tables) where
      Admits-Kept :
          (url : String) (r : HttpRequest) (w : World) (i : Identity) (t : World)
          → Admits client cfg url r w i t
          → Kept w
          → Kept t
      Admits-Kept url r w _ _ (trusted i d e) v = v
      Admits-Kept url r w _ _ (bearer i raw token claims t d h b e c g) v =
          subst Audited
            (sym (verifies cfg.issuer url cfg.audience cfg.allowed_algorithms raw w)
              ∙ ap (λ (z : Result E Token × World). z.1.tables) e)
            v

      Refuses-Kept : (url : String) (w t : World) → Refuses client cfg url w t → Kept w → Kept t
      Refuses-Kept url w _ unasked v = v
      Refuses-Kept url w _ (asked raw) v =
          subst Audited (sym (verifies cfg.issuer url cfg.audience cfg.allowed_algorithms raw w)) v

      Verdict-Kept :
          (url : String) (route : Route) (r : HttpRequest) (w : World) (a : Answer Payload × World)
          → Verdict client cfg url (serve_route texts decoders (some handler_service) route) r w a
          → Kept w
          → Kept a.1
      Verdict-Kept url route r w _ (served i t admits) v =
          Asks-Kept (with_identity i r) t route _
            (serve_route-Asks texts decoders handler_service (with_identity i r) t route)
            (Admits-Kept url r w i t admits v)
      Verdict-Kept url route r w _ (refused t refuses _) v = Refuses-Kept url w t refuses v

      requests-Kept :
          (url : String)
          → Guards client cfg url m
          → (w : World) (rs : List (Route × HttpRequest)) → Kept w
          → Kept (serve_requests m w rs)
      unfolding serve_requests serve_http
      requests-Kept url guards w [] v = v
      requests-Kept url guards w ((route, r) ∷ rs) v =
          requests-Kept url guards (serve_http m route r w).1 rs (
            Verdict-Kept url route r w _
              (guards (serve_route texts decoders (some handler_service) route) r w) v)

      -- From tables whose events tell the history of each order, behind the middleware that a start with
      -- any configuration has put in place, and with a verifier that leaves the tables alone: whatever
      -- requests come, on whatever routes and with whatever headers, and whatever fails on the way, the
      -- events still tell the history of each order.
      pub serve_requests-Audited :
          (w₀ w₁ : World)
          → new_identity_middleware client {P = Payload} cfg w₀ ≡ (ok m, w₁)
          → (w : World) (rs : List (Route × HttpRequest)) → Audited w.tables
          → Audited (serve_requests m w rs).tables
      serve_requests-Audited w₀ w₁ started w rs v =
          let (url, guards) = new_identity_middleware-Guards client cfg m w₀ w₁ started in
          requests-Kept url guards w rs v
