-- ===== src/Orders/Service/Methods.antt =====
-- internal/orders/service.go: each method under an invariant of the repository's calls.
use oms_go.Prelude.{ℕ, suc, Option, none, some, String, List, [], ◌∷◌, Bool-cases, inl, inr}
use oms_go.Db.Models.{Uuid, Order}
use oms_go.Db.Tables.{DbError, no_rows, pg_error, connection}
use oms_go.Orders.Errors.{OrderStatus}
use oms_go.Orders.StateMachine.Graph.{validate_transition-Verdict}
use oms_go.Orders.Validation.{CreateOrderItemRequest}
use oms_go.Orders.Interface.{
  Service, Preserves, CreateOrderInput, ListOrdersInput, CancelOrderInput, UpdateOrderStatusInput,
  ProcessPendingOrdersBatchInput,
}
use oms_go.Orders.Service.{
  from_db, is_allowed_actor_type, actor_type_admin, actor_type_system, expected_status_for_target,
  reject_invalid, draw, get_order, list_orders, hydrate_order_details, list_order_details,
  cancel_order, with_items, cancel_order_details, resolve, resolve_status_update_no_rows,
  update_order_status, update_order_status_details, update_order_status_by_target,
  process_pending_orders_batch, parse_product, command_items, create_order,
}
use oms_go.Orders.Service.SafeCalls.{
  Safe, Safe-lift, Safe-bind, Safe-handle, Safe-check, Safe-validated, Safe-invalid,
  Safe-or_not_found, Safe-or_conflict, Safe-from_db,
}

module _ {S : Type 0} (P : S → Type 0) (service : Service S) (laws : Preserves P service) where
  open service use {repo}

  items-Safe : (o : Uuid) → Safe P (from_db (repo.get_order_items_by_order_id o))
  items-Safe o = Safe-from_db P _ (record { after = laws.items o })

  pub get_order-Safe : (o c : Uuid) → Safe P (get_order service o c)
  unfolding get_order
  get_order-Safe o c =
      Safe-bind P _ _ (Safe-handle P _ _ (record { after = laws.get o c }) (Safe-or_not_found P))
        (λ order. Safe-bind P _ _ (items-Safe o) (λ items. Safe-lift P _))

  pub list_orders-Safe : (input : ListOrdersInput) → Safe P (list_orders service input)
  unfolding list_orders
  list_orders-Safe input = Safe-from_db P _ (record { after = laws.list _ })

  hydrate-Safe : (orders : List Order) → Safe P (hydrate_order_details service orders)
  unfolding hydrate_order_details
  hydrate-Safe [] = Safe-lift P _
  hydrate-Safe (o ∷ orders) =
      Safe-bind P _ _ (items-Safe o.id)
        (λ items. Safe-bind P _ _ (hydrate-Safe orders) (λ rest. Safe-lift P _))

  pub list_order_details-Safe :
      (input : ListOrdersInput) → Safe P (list_order_details service input)
  unfolding list_order_details
  list_order_details-Safe input = Safe-bind P _ _ (list_orders-Safe input) hydrate-Safe

  cancel_order-Safe : (input : CancelOrderInput) → Safe P (cancel_order service input)
  unfolding cancel_order
  cancel_order-Safe input =
      Safe-bind P _ _ (Safe-handle P _ _ (record { after = laws.get _ _ }) (Safe-or_not_found P))
        (λ order.
          Safe-bind P _ _ (Safe-check P _)
            (λ _. Safe-from_db P _ (record { after = laws.cancel _ })))

  with_items-Safe : (o : Order) → Safe P (with_items service o)
  unfolding with_items
  with_items-Safe o = Safe-bind P _ _ (items-Safe o.id) (λ items. Safe-lift P _)

  pub cancel_order_details-Safe :
      (input : CancelOrderInput) → Safe P (cancel_order_details service input)
  unfolding cancel_order_details
  cancel_order_details-Safe input = Safe-bind P _ _ (cancel_order-Safe input) with_items-Safe

  resolve-Safe : (o : Uuid) (e : DbError) → Safe P (resolve service o e)
  unfolding resolve resolve_status_update_no_rows
  resolve-Safe o no_rows =
      Safe-bind P _ _ (Safe-from_db P _ (record { after = laws.events o })) (λ es. Safe-lift P _)
  resolve-Safe o (pg_error c n) = Safe-lift P _
  resolve-Safe o connection = Safe-lift P _

  update_order_status-Safe :
      (input : UpdateOrderStatusInput) → Safe P (update_order_status service input)
  unfolding update_order_status
  update_order_status-Safe input =
      elim (Bool-cases
        (is_allowed_actor_type input.actor_type (actor_type_admin ∷ actor_type_system ∷ []))) [
          | inr denied ↦ rw denied (Safe-lift P _)
          | inl allowed ↦ rw allowed (
              Safe-validated P input.expected_status input.new_status _ _
                (validate_transition-Verdict input.expected_status input.new_status)
                (λ edge.
                  Safe-handle P _ _ (record { after = λ s h. laws.update _ s edge h })
                    (resolve-Safe input.order_id)))
        ]

  pub update_order_status_details-Safe :
      (input : UpdateOrderStatusInput) → Safe P (update_order_status_details service input)
  unfolding update_order_status_details
  update_order_status_details-Safe input =
      Safe-bind P _ _ (update_order_status-Safe input) with_items-Safe

  pub update_order_status_by_target-Safe :
      (order_id : Uuid) (new_status : OrderStatus) (actor_type : String) (actor_id : Option Uuid)
      (reason ip_address : Option String)
      → Safe P (
          update_order_status_by_target service order_id new_status actor_type actor_id reason
            ip_address)
  unfolding update_order_status_by_target
  update_order_status_by_target-Safe order_id new_status actor_type actor_id reason ip_address =
      Safe-bind P _ _ (Safe-lift P (expected_status_for_target new_status))
        (λ expected. update_order_status_details-Safe _)

  pub process_pending_orders_batch-Safe :
      (input : ProcessPendingOrdersBatchInput) → Safe P (process_pending_orders_batch service input)
  unfolding process_pending_orders_batch
  process_pending_orders_batch-Safe input =
      Safe-bind P _ _ (Safe-check P _) (λ _. Safe-from_db P _ (record { after = laws.process _ }))

  draw-Safe : Safe P (draw service)
  unfolding draw
  draw-Safe = record { after = laws.uuid }

  module _ (parse_uuid : String → Option Uuid) where
    parse_product-Safe : (i : ℕ) (o : Option Uuid) → Safe P (parse_product service parse_uuid i o)
    unfolding parse_product
    parse_product-Safe i none = Safe-lift P _
    parse_product-Safe i (some id) = Safe-lift P _

    command_items-Safe :
        (i : ℕ) (items : List CreateOrderItemRequest)
        → Safe P (command_items service parse_uuid i items)
    unfolding command_items
    command_items-Safe i [] = Safe-lift P _
    command_items-Safe i (x ∷ xs) =
        Safe-bind P _ _ (parse_product-Safe i (parse_uuid x.product_id)) (λ p.
          Safe-bind P _ _ draw-Safe
            (λ id. Safe-bind P _ _ (command_items-Safe (suc i) xs) (λ rest. Safe-lift P _)))

    pub create_order-Safe :
        (input : CreateOrderInput) → Safe P (create_order service parse_uuid input)
    unfolding create_order reject_invalid
    create_order-Safe input = Safe-bind P _ _ (Safe-invalid P _) (λ _.
        Safe-bind P _ _ (Safe-lift P _) (λ total.
          Safe-bind P _ _ (command_items-Safe 0 input.items) (λ items.
            Safe-bind P _ _ draw-Safe
              (λ id. Safe-handle P _ _ (record { after = laws.create _ }) (Safe-or_conflict P)))))
