-- ===== src/Orders/Handler/Access/Served.antt =====
-- internal/orders/handler.go: the handlers, one after another, and the routes.
use oms_go.Prelude.{
  ◌≡◌, ◌⊎◌, inl, inr, refl, ap, subst, Bool-cases, Option-cases, true, false, ◌||◌, Option, none,
  some, String, [], ◌∷◌, str_eq, eq_iff, any, arith,
}
use oms_go.Prelude.Int.{ℤ, pos, ltb_ℤ, ◌≤ℤ◌}
use oms_go.Prelude.Exec.{ok, ◌>>=◌}
use oms_go.Auth.{role_admin, role_system, Identity, customer_id_from_context, role_from_context}
use oms_go.Auth.Guards.{require_role, require_role_of}
use oms_go.Http.{HttpRequest, write_json, status_ok, status_created}
use oms_go.Prelude.Text.{trim_space}
use oms_go.Prelude.Numbers.{atoi}
use oms_go.Orders.Decoding.{
  default_request_body_limit, decode_create_order_request, decode_update_order_status_request,
}
use oms_go.Orders.Handler.{
  Texts, parse_list_limit, parse_status, parse_order_id, order_payload, list_payload,
  privileged_actor_id, map_order_response, request_ip_address, in_range,
}
use oms_go.Orders.Handler.Cursor.{parse_cursor}
use oms_go.Orders.Handler.Endpoints.{
  HandlerService, Decoders, Route, post_order, get_orders, get_order_by_id, post_cancel,
  patch_status, finish, or_bad_request, or_handler_error, or_unauthorized, or_unavailable, actor_of,
  list_response, create_order, get_order, list_orders, cancel_order, update_order_status,
  serve_route,
}
use oms_go.Orders.Handler.Access.{
  Asks, no_customer, no_identity, no_privilege, bad_order_id, bad_limit, bad_status, bad_cursor,
  bad_order, bad_update, asks_create, asks_get, asks_list, asks_cancel, asks_update, finish-ask,
  Result-cases,
}

in_range-bounds : (o : Option ℤ) (l : ℤ) → in_range o ≡ ok l → (pos 1 ≤ℤ l) × (l ≤ℤ pos 100)
unfolding in_range
in_range-bounds none l h = absurd (cc)
in_range-bounds (some v) l h = elim (Bool-cases (ltb_ℤ v (pos 1) || ltb_ℤ (pos 100) v)) [
  | inl out ↦ absurd (cc (rw out at h))
  | inr fits ↦
      let same : v ≡ l = cc (rw fits at h) in
      subst (λ l. (pos 1 ≤ℤ l) × (l ≤ℤ pos 100)) same (ground arith)
]

pub parse_list_limit-bounds :
    (raw : String) (l : ℤ) → parse_list_limit raw ≡ ok l → (pos 1 ≤ℤ l) × (l ≤ℤ pos 100)
unfolding parse_list_limit
parse_list_limit-bounds raw l h = elim (Bool-cases (str_eq (trim_space raw) "")) [
  | inl blank ↦
      let same : pos 50 ≡ l = cc (rw blank at h) in
      subst (λ l. (pos 1 ≤ℤ l) × (l ≤ℤ pos 100)) same (omega arith)
  | inr given ↦ in_range-bounds (atoi raw) l (rw given at h)
]

module _ (texts : Texts) (decoders : Decoders) {S : Type 0} (service : HandlerService S)
    (r : HttpRequest) (s : S) where
  get_order-Asks :
      Asks texts decoders service r s get_order_by_id (get_order texts decoders (some service) r s)
  unfolding get_order finish or_unavailable or_unauthorized or_bad_request ◌>>=◌ parse_order_id
  get_order-Asks = elim (Option-cases (customer_id_from_context r.identity)) [
    | inl nobody ↦ rw nobody (no_customer get_order_by_id nobody)
    | inr (c, customer) ↦ elim (Option-cases (texts.parse_uuid r.order_id)) [
      | inl bad ↦ rw (customer, bad) (bad_order_id get_order_by_id bad)
      | inr (o, order) ↦
          rw (customer, order)
            (subst (Asks texts decoders service r s get_order_by_id)
              (finish-ask (service.get_order o c)
                (λ details. write_json status_ok (order_payload (map_order_response texts details)))
                s)
              (asks_get c o customer order))
    ]
  ]

  cancel_order-Asks :
      Asks texts decoders service r s post_cancel (cancel_order texts decoders (some service) r s)
  unfolding cancel_order finish or_unavailable or_unauthorized or_bad_request ◌>>=◌ parse_order_id
  cancel_order-Asks = elim (Option-cases (customer_id_from_context r.identity)) [
    | inl nobody ↦ rw nobody (no_customer post_cancel nobody)
    | inr (c, customer) ↦ elim (Option-cases (texts.parse_uuid r.order_id)) [
      | inl bad ↦ rw (customer, bad) (bad_order_id post_cancel bad)
      | inr (o, order) ↦
          rw (customer, order)
            (subst (Asks texts decoders service r s post_cancel)
              (finish-ask (service.cancel_order_details _)
                (λ details. write_json status_ok (order_payload (map_order_response texts details)))
                s)
              (asks_cancel c _ customer order refl refl refl refl))
    ]
  ]

  create_order-Asks :
      Asks texts decoders service r s post_order (create_order texts decoders (some service) r s)
  unfolding create_order finish or_unavailable or_unauthorized or_handler_error ◌>>=◌
  create_order-Asks = elim (Option-cases (customer_id_from_context r.identity)) [
    | inl nobody ↦ rw nobody (no_customer post_order nobody)
    | inr (c, customer) ↦
        elim (Result-cases
          (decode_create_order_request decoders.create_order r.body default_request_body_limit)) [
            | inl (e, bad) ↦ rw (customer, bad) (bad_order e bad)
            | inr (req, good) ↦
                rw (customer, good)
                  (subst (Asks texts decoders service r s post_order)
                    (finish-ask (service.create_order _)
                      (λ result. write_json status_created (
                        order_payload (
                          map_order_response texts
                            (record { order = result.order; items = result.items }))))
                      s)
                    (asks_create c req _ customer good refl))
          ]
  ]

  list_orders-Asks :
      Asks texts decoders service r s get_orders (list_orders texts decoders (some service) r s)
  unfolding list_orders finish or_unavailable or_unauthorized or_bad_request ◌>>=◌
  list_orders-Asks = elim (Option-cases (customer_id_from_context r.identity)) [
    | inl nobody ↦ rw nobody (no_customer get_orders nobody)
    | inr (c, customer) ↦ elim (Result-cases (parse_list_limit (r.query "limit"))) [
      | inl (m, bad) ↦ rw (customer, bad) (bad_limit m bad)
      | inr (l, limit) ↦ elim (Result-cases (parse_status (r.query "status"))) [
        | inl (m, bad) ↦ rw (customer, limit, bad) (bad_status m bad)
        | inr (status, known) ↦ elim (Result-cases (parse_cursor texts (r.query "cursor"))) [
          | inl (m, bad) ↦ rw (customer, limit, known, bad) (bad_cursor m bad)
          | inr (key, cursor) ↦
              let (low, high) = parse_list_limit-bounds (r.query "limit") l limit in
              rw (customer, limit, known, cursor)
                (subst (Asks texts decoders service r s get_orders)
                  (finish-ask (service.list_order_details _)
                    (λ details. write_json status_ok (list_payload (list_response texts l details)))
                    s)
                  (asks_list c _ customer refl limit low high known cursor))
        ]
      ]
    ]
  ]

  update_order_status-Asks :
      (i : Identity)
      → r.identity ≡ some i
      → (i.role ≡ role_admin) ⊎ (i.role ≡ role_system)
      → Asks texts decoders service r s patch_status
          (update_order_status texts decoders (some service) r s)
  unfolding update_order_status finish or_unavailable or_unauthorized or_bad_request
      or_handler_error ◌>>=◌ parse_order_id role_from_context actor_of
  update_order_status-Asks i who privileged = elim (Option-cases (texts.parse_uuid r.order_id)) [
    | inl bad ↦ rw bad (bad_order_id patch_status bad)
    | inr (o, order) ↦
        elim (Result-cases (
          decode_update_order_status_request decoders.update_order_status r.body
            default_request_body_limit)) [
              | inl (e, bad) ↦ rw (order, bad) (bad_update e bad)
              | inr (status, good) ↦
                  rw (order, good, ap role_from_context who, ap actor_of who)
                    (subst (Asks texts decoders service r s patch_status)
                      (finish-ask
                        (service.update_order_status_by_target o status i.role
                          (privileged_actor_id i) none (request_ip_address texts r))
                        (λ details.
                          write_json status_ok (order_payload (map_order_response texts details)))
                        s)
                      (asks_update i o status who privileged order good))
            ]
  ]

  -- `RequireRole` for an identity.
  privileged-Asks :
      (o : Option Identity)
      → r.identity ≡ o
      → Asks texts decoders service r s patch_status (
          require_role_of o
            (role_admin ∷ role_system ∷ [])
            (update_order_status texts decoders (some service))
            r
            s)
  unfolding require_role_of
  privileged-Asks none who = no_identity who
  privileged-Asks (some i) who =
      elim (Bool-cases (any (λ role. str_eq i.role role) (role_admin ∷ role_system ∷ []))) [
        | inl allowed ↦ rw allowed (update_order_status-Asks i who (one_of i.role allowed))
        | inr refused ↦ rw refused (no_privilege i who (none_of i.role refused))
      ]
    where
      one_of :
          (role : String)
          → any (λ allowed. str_eq role allowed) (role_admin ∷ role_system ∷ []) ≡ true
          → (role ≡ role_admin) ⊎ (role ≡ role_system)
      one_of role h = elim (Bool-cases (str_eq role role_admin)) [
        | inl e ↦ inl ((eq_iff role role_admin).0 e)
        | inr f ↦ inr ((eq_iff role role_system).0 (ground arith))
      ]

      none_of :
          (role : String)
          → any (λ allowed. str_eq role allowed) (role_admin ∷ role_system ∷ []) ≡ false
          → ¬ ((role ≡ role_admin) ⊎ (role ≡ role_system))
      none_of role h (inl e) = let same = (eq_iff role role_admin).1 e in absurd (cc (rw same at h))
      none_of role h (inr e) = let same = (eq_iff role role_system).1 e in ground arith

  -- For every request on every route: a refusal leaves the state as it was, and has its reason; otherwise
  -- exactly one method of the service is called, in the state as it was. The methods of customers are
  -- called for the customer of the request's identity, who is also the actor of a change: to create what
  -- the body decodes to, to show or cancel the order that the path names, or to list with the limit, from 1
  -- to 100, the status and the key that the query says. A change of status, to the one that the body
  -- decodes to, is asked for only in the name of an identity with the role ADMIN or SYSTEM. The answer is
  -- the one that belongs to what the method returns.
  pub serve_route-Asks :
      (route : Route)
      → Asks texts decoders service r s route (serve_route texts decoders (some service) route r s)
  unfolding serve_route require_role
  serve_route-Asks post_order = create_order-Asks
  serve_route-Asks get_orders = list_orders-Asks
  serve_route-Asks get_order_by_id = get_order-Asks
  serve_route-Asks post_cancel = cancel_order-Asks
  serve_route-Asks patch_status = privileged-Asks r.identity refl
