-- ===== src/Server/Owners.antt =====
-- internal/platform/httpserver.go: whose orders a request changes.
use oms_go.Prelude.{◌≡◌, ◌⊎◌, refl, sym, ap, subst, ◌∙◌, Option, some, String, List}
use oms_go.Prelude.Exec.{Result, ok}
use oms_go.Db.Models.{Uuid}
use oms_go.Db.Keys.{DistinctIds}
use oms_go.Db.World.{World}
use oms_go.Auth.{role_admin, role_system, Identity, customer_id_from_context}
use oms_go.Auth.Jwt.{Config}
use oms_go.Auth.Startup.{Client, new_identity_middleware}
use oms_go.Auth.Startup.Admits.{
  Admits, trusted, bearer, Refuses, unasked, asked, Verdict, served, refused,
}
use oms_go.Auth.Startup.Started.{new_identity_middleware-Guards}
use oms_go.Http.{HttpRequest, Answer, Middleware, with_identity}
use oms_go.Orders.Book.{Book, book, Cancels, Advances}
use oms_go.Orders.Book.Owners.{Own, Places-Own, Cancels-Own}
use oms_go.Orders.Errors.{OrderStatus, Error}
use oms_go.Orders.Transaction.Outcomes.{Outcome, changed, nothing}
use oms_go.Orders.Handler.{Texts, Payload}
use oms_go.Orders.Handler.Endpoints.{Decoders, Route, serve_route}
use oms_go.Orders.Handler.Access.{
  answered, Asks, no_customer, no_identity, no_privilege, bad_order_id, bad_limit, bad_status,
  bad_cursor, bad_order, bad_update, asks_create, asks_get, asks_list, asks_cancel, asks_update,
}
use oms_go.Orders.Handler.Access.Served.{serve_route-Asks}
use oms_go.Orders.Interface.{CreateOrderInput, CancelOrderInput}
use oms_go.Orders.Audit.{Audited}
use oms_go.Orders.Backend.{
  Request, create_order, cancel_order_details, update_order_status_by_target,
}
use oms_go.Orders.Backend.Spec.{Does, places, cancels, advances}
use oms_go.Orders.Backend.Spec.Methods.{
  Valid, Makes, get_order-Reads, list_order_details-Reads, cancel_order_details-Changes,
  update_order_status_by_target-Changes, create_order-Changes,
}
use oms_go.Server.{handler_service, serve_http, answered-after}

-- What the request of an identity may do to the book.
pub data Rightful (texts : Texts) (order_id : String) (identity : Option Identity) (b b' : Book)
    : Type 0 where
  nothing_done : b' ≡ b → Rightful texts order_id identity b b'
  own :
      (c : Uuid)
      → customer_id_from_context identity ≡ some c
      → ((j : Uuid) → Own c (b j) (b' j))
      → Rightful texts order_id identity b b'
  privileged :
      (i : Identity) (o : Uuid) (to : OrderStatus)
      → identity ≡ some i
      → (i.role ≡ role_admin) ⊎ (i.role ≡ role_system)
      → texts.parse_uuid order_id ≡ some o
      → Advances o to b b'
      → Rightful texts order_id identity b b'

module _ (parse_addr : String → Option String) (parse_uuid : String → Option Uuid) (texts : Texts)
    (decoders : Decoders) where
  of_outcome :
      {A : Type 0} (r : HttpRequest) (w : World) (request : Request) (f : A → Answer Payload)
      (x : Result Error A × World)
      → ((b b' : Book) → Does request b b' → Rightful texts r.order_id r.identity b b')
      → Outcome (Makes request) x.0 w.tables x.1.tables
      → Rightful texts r.order_id r.identity (book w.tables) (book (answered f x).1.tables)
  of_outcome r w request f x rightful (changed c) =
      subst (λ (v : World). Rightful texts r.order_id r.identity (book w.tables) (book v.tables))
        (answered-after parse_addr parse_uuid texts decoders f x) (rightful _ _ c)
  of_outcome r w request f x rightful (nothing e failed same) =
      subst (λ (v : World). Rightful texts r.order_id r.identity (book w.tables) (book v.tables))
        (answered-after parse_addr parse_uuid texts decoders f x) (nothing_done (ap book same))

  of_read :
      {A : Type 0} (r : HttpRequest) (w : World) (f : A → Answer Payload)
      (x : Result Error A × World)
      → x.1.tables ≡ w.tables
      → Rightful texts r.order_id r.identity (book w.tables) (book (answered f x).1.tables)
  of_read r w f x same =
      subst (λ (v : World). Rightful texts r.order_id r.identity (book w.tables) (book v.tables))
        (answered-after parse_addr parse_uuid texts decoders f x) (nothing_done (ap book same))

  of_create :
      (r : HttpRequest) (c : Uuid) (input : CreateOrderInput) {b b' : Book}
      → customer_id_from_context r.identity ≡ some c
      → input.customer_id ≡ c
      → Does (create_order input) b b'
      → Rightful texts r.order_id r.identity b b'
  of_create r c _ h same (places input e request p) =
      own c h (Places-Own c e (request.customer ∙ same) request.pending p)

  of_cancel :
      (r : HttpRequest) (c : Uuid) (input : CancelOrderInput) {b b' : Book}
      → customer_id_from_context r.identity ≡ some c
      → input.customer_id ≡ c
      → Does (cancel_order_details input) b b'
      → Rightful texts r.order_id r.identity b b'
  of_cancel r c _ h same (cancels input {b} {b'} x) =
      own c h (Cancels-Own input.order_id c (subst (λ k. Cancels input.order_id k b b') same x))

  of_update :
      (r : HttpRequest) (i : Identity) (o : Uuid) (to : OrderStatus) {actor : String}
      {id : Option Uuid} {reason ip : Option String} {b b' : Book}
      → r.identity ≡ some i
      → (i.role ≡ role_admin) ⊎ (i.role ≡ role_system)
      → texts.parse_uuid r.order_id ≡ some o
      → Does (update_order_status_by_target o to actor id reason ip) b b'
      → Rightful texts r.order_id r.identity b b'
  of_update r i o to h role order (advances _ _ _ _ _ _ x) = privileged i o to h role order x

  Asks-Rightful :
      (r : HttpRequest) (w : World) (route : Route) (a : Answer Payload × World)
      → Asks texts decoders (handler_service parse_addr parse_uuid) r w route a
      → DistinctIds w.tables.orders
      → Rightful texts r.order_id r.identity (book w.tables) (book a.1.tables)
  unfolding handler_service
  Asks-Rightful r w _ _ (no_customer route h) v = nothing_done refl
  Asks-Rightful r w _ _ (no_identity h) v = nothing_done refl
  Asks-Rightful r w _ _ (no_privilege i h k) v = nothing_done refl
  Asks-Rightful r w _ _ (bad_order_id route h) v = nothing_done refl
  Asks-Rightful r w _ _ (bad_limit m h) v = nothing_done refl
  Asks-Rightful r w _ _ (bad_status m h) v = nothing_done refl
  Asks-Rightful r w _ _ (bad_cursor m h) v = nothing_done refl
  Asks-Rightful r w _ _ (bad_order e h) v = nothing_done refl
  Asks-Rightful r w _ _ (bad_update e h) v = nothing_done refl
  Asks-Rightful r w _ _ (asks_create c req input h i j) v =
      of_outcome r w (create_order input) _ _
        (λ b b' d. of_create r c input h (ap (λ (x : CreateOrderInput). x.customer_id) j) d)
        ((create_order-Changes parse_addr parse_uuid input).outcome w v)
  Asks-Rightful r w _ _ (asks_get c o h i) v =
      of_read r w _ _ ((get_order-Reads parse_addr parse_uuid o c).same w)
  Asks-Rightful r w _ _ (asks_list c input h i j k l m n) v =
      of_read r w _ _ ((list_order_details-Reads parse_addr parse_uuid input).same w)
  Asks-Rightful r w _ _ (asks_cancel c input h i j k l m) v =
      of_outcome r w (cancel_order_details input) _ _ (λ b b' d. of_cancel r c input h j d)
        ((cancel_order_details-Changes parse_addr parse_uuid input).outcome w v)
  Asks-Rightful r w _ _ (asks_update i o status h j k l) v =
      of_outcome r w (update_order_status_by_target o status _ _ _ _) _ _
        (λ b b' d. of_update r i o status h j k d)
        ((update_order_status_by_target-Changes parse_addr parse_uuid o status _ _ _ _).outcome w v)

  module _ {R E Token : Type 0} (client : Client World R E Token) (cfg : Config) where
    -- Who the identity of a request that was served is, or that nothing was changed.
    pub data Permitted (url : String) (r : HttpRequest) (w : World) (b b' : Book) : Type 0 where
      unserved : b' ≡ b → Permitted url r w b b'
      by :
          (i : Identity) (t : World)
          → Admits client cfg url r w i t
          → Rightful texts r.order_id (some i) b b'
          → Permitted url r w b b'

    module _ (m : Middleware World Payload)
        (verifies : (issuer url audience : String) (algorithms : List String) (raw : String)
            (w : World)
          → (client.verify issuer url audience algorithms raw w).1.tables ≡ w.tables) where
      Admits-same :
          (url : String) (r : HttpRequest) (w : World) (i : Identity) (t : World)
          → Admits client cfg url r w i t
          → t.tables ≡ w.tables
      Admits-same url r w _ _ (trusted i d e) = refl
      Admits-same url r w _ _ (bearer i raw token claims t d h b e c g) =
          sym (ap (λ (z : Result E Token × World). z.1.tables) e)
          ∙ verifies cfg.issuer url cfg.audience cfg.allowed_algorithms raw w

      Refuses-same : (url : String) (w t : World) → Refuses client cfg url w t → t.tables ≡ w.tables
      Refuses-same url w _ unasked = refl
      Refuses-same url w _ (asked raw) =
          verifies cfg.issuer url cfg.audience cfg.allowed_algorithms raw w

      Verdict-Permitted :
          (url : String) (route : Route) (r : HttpRequest) (w : World) (a : Answer Payload × World)
          → Verdict client cfg url
              (serve_route texts decoders (some (handler_service parse_addr parse_uuid)) route)
              r
              w
              a
          → DistinctIds w.tables.orders
          → Permitted url r w (book w.tables) (book a.1.tables)
      Verdict-Permitted url route r w _ (served i t admits) v =
          let same = Admits-same url r w i t admits in
          by i t admits (
            subst
              (λ u. Rightful texts r.order_id (some i) (book u) (
                book
                  (serve_route texts decoders (some (handler_service parse_addr parse_uuid)) route
                    (with_identity i r) t).1.tables))
              same
              (Asks-Rightful (with_identity i r) t route _
                (serve_route-Asks texts decoders (handler_service parse_addr parse_uuid)
                  (with_identity i r) t route)
                (subst Valid (sym same) v)))
      Verdict-Permitted url route r w _ (refused t refuses _) v =
          unserved (ap book (Refuses-same url w t refuses))

      -- Behind the middleware that a start with any configuration has put in place, with a verifier that leaves
      -- the tables alone, and from tables whose events tell the history of each order: whatever request comes
      -- on whatever route, either the book of orders stays as it was, or the configuration admits the request
      -- for an identity, and the changes are this identity's to make. A customer's are a new pending entry of
      -- the customer, or the cancellation of a pending one of the customer; any other change is that of an
      -- identity with the role ADMIN or SYSTEM, which takes the entry of the path's id along an edge of the
      -- diagram.
      pub serve_http-Permitted :
          (w₀ w₁ : World)
          → new_identity_middleware client {P = Payload} cfg w₀ ≡ (ok m, w₁)
          → (url : String) × ((route : Route) (r : HttpRequest) (w : World)
              → Audited w.tables
              → Permitted url r w
                  (book w.tables)
                  (book (serve_http parse_addr parse_uuid texts decoders m route r w).1.tables))
      unfolding serve_http
      serve_http-Permitted w₀ w₁ started =
          let (url, guards) = new_identity_middleware-Guards client cfg m w₀ w₁ started in
          (
            url,
            λ route r w v.
                Verdict-Permitted url route r w _
                  (guards
                    (serve_route texts decoders (some (handler_service parse_addr parse_uuid))
                      route)
                    r w)
                  v.distinct,
          )
