-- ===== src/Orders/Backend/Spec/Methods.antt =====
-- internal/orders/service.go over repository.go: the methods one by one, over the book of orders.
use oms_go.Prelude.{refl, ℕ, suc, Bool-cases, inl, inr, Option, none, some, String, List, [], ◌∷◌}
use oms_go.Db.Models.{Uuid, Order}
use oms_go.Db.Tables.{Tables, DbError, no_rows, pg_error, connection}
use oms_go.Db.Keys.{DistinctIds}
use oms_go.Db.World.{new_uuid}
use oms_go.Orders.Errors.{OrderStatus}
use oms_go.Orders.StateMachine.Graph.{validate_transition-Verdict}
use oms_go.Orders.Money.{calculate_total_cents}
use oms_go.Orders.Validation.{CreateOrderItemRequest}
use oms_go.Orders.Book.{Advances}
use oms_go.Orders.Interface.{
  CreateOrderInput, ListOrdersInput, CancelOrderInput, UpdateOrderStatusInput,
  ProcessPendingOrdersBatchInput,
}
use oms_go.Orders.Transaction.Outcomes.{nothing, Outcome-map}
use oms_go.Orders.Repository.Booked.{
  Booked, create_order-Outcome, cancel_order-Outcome, update_order_status-Outcome,
  process_pending_orders_batch-Outcome,
}
use oms_go.Orders.Service
use oms_go.Orders.Service.{
  from_db, is_allowed_actor_type, actor_type_admin, actor_type_system, expected_status_for_target,
}
use oms_go.Orders.Service.Changes.{
  Reads, Fails, Changes, Reads-lift, Reads-bind, Reads-handle, Fails-bind, Changes-after,
  Changes-before, Changes-handle, Changes-lift, Fails-raise, Reads-check, Reads-invalid,
  Reads-or_not_found, Fails-or_conflict, Reads-from_db, Changes-from_db, Changes-validated,
}
use oms_go.Orders.Backend.{
  Request, create_order, cancel_order_details, update_order_status_by_target,
  process_pending_orders_batch, new_service, get-reads, items-reads, events-reads, list-reads,
}
use oms_go.Orders.Backend.Spec.{Does, places, cancels, advances, processes}

abbrev pub Valid : Tables → Type 0
Valid t = DistinctIds t.orders

abbrev pub Makes : Request → Tables → Tables → Type 0
Makes r = Booked (Does r)

module _ (parse_addr : String → Option String) (parse_uuid : String → Option Uuid) where
  items-Reads :
      (o : Uuid)
      → Reads (from_db ((new_service parse_addr parse_uuid).repo.get_order_items_by_order_id o))
  unfolding new_service
  items-Reads o = Reads-from_db _ (record { same = items-reads o })

  pub get_order-Reads :
      (o c : Uuid) → Reads (Service.get_order (new_service parse_addr parse_uuid) o c)
  unfolding Service.get_order new_service
  get_order-Reads o c =
      Reads-bind _ _ (Reads-handle _ _ (record { same = get-reads o c }) Reads-or_not_found)
        (λ order. Reads-bind _ _ (items-Reads o) (λ items. Reads-lift _))

  hydrate-Reads :
      (orders : List Order)
      → Reads (Service.hydrate_order_details (new_service parse_addr parse_uuid) orders)
  unfolding Service.hydrate_order_details
  hydrate-Reads [] = Reads-lift _
  hydrate-Reads (o ∷ orders) =
      Reads-bind _ _ (items-Reads o.id)
        (λ items. Reads-bind _ _ (hydrate-Reads orders) (λ rest. Reads-lift _))

  pub list_order_details-Reads :
      (input : ListOrdersInput)
      → Reads (Service.list_order_details (new_service parse_addr parse_uuid) input)
  unfolding Service.list_order_details Service.list_orders new_service
  list_order_details-Reads input =
      Reads-bind _ _ (Reads-from_db _ (record { same = list-reads _ })) hydrate-Reads

  with_items-Reads : (o : Order) → Reads (Service.with_items (new_service parse_addr parse_uuid) o)
  unfolding Service.with_items
  with_items-Reads o = Reads-bind _ _ (items-Reads o.id) (λ items. Reads-lift _)

  pub cancel_order_details-Changes :
      (input : CancelOrderInput)
      → Changes Valid
          (Makes (cancel_order_details input))
          (Service.cancel_order_details (new_service parse_addr parse_uuid) input)
  unfolding Service.cancel_order_details Service.cancel_order new_service
  cancel_order_details-Changes input =
      Changes-before _ _ _ _
        (Changes-after _ _ _ _
          (Reads-handle _ _ (record { same = get-reads _ _ }) Reads-or_not_found)
          (λ order. Changes-after _ _ _ _ (Reads-check _) (λ _. Changes-from_db _ _ _ (record {
            outcome = λ w v. Outcome-map (cancels input) (cancel_order-Outcome parse_addr _ w v);
          }))))
        with_items-Reads

  resolve-Fails :
      (o : Uuid) (e : DbError) → Fails (Service.resolve (new_service parse_addr parse_uuid) o e)
  unfolding Service.resolve Service.resolve_status_update_no_rows new_service
  resolve-Fails o no_rows =
      Fails-bind _ _ (Reads-from_db _ (record { same = events-reads o })) (λ es. Fails-raise _)
  resolve-Fails o (pg_error c n) = Fails-raise _
  resolve-Fails o connection = Fails-raise _

  -- The method that update_order_status_by_target calls with the predecessor of the target.
  update_order_status-Changes :
      (input : UpdateOrderStatusInput)
      → Changes Valid
          (Booked (Advances input.order_id input.new_status))
          (Service.update_order_status (new_service parse_addr parse_uuid) input)
  unfolding Service.update_order_status new_service
  update_order_status-Changes input =
      elim (Bool-cases
        (is_allowed_actor_type input.actor_type (actor_type_admin ∷ actor_type_system ∷ []))) [
          | inr denied ↦ rw denied (record { outcome = λ w v. nothing _ refl refl })
          | inl allowed ↦ rw allowed (
              Changes-validated _ _ input.expected_status input.new_status _ _
                (validate_transition-Verdict input.expected_status input.new_status)
                (λ edge.
                  Changes-handle _ _ _ _
                    (record { outcome = λ w v. update_order_status-Outcome parse_addr _ w edge v })
                    (resolve-Fails input.order_id)))
        ]

  pub update_order_status_by_target-Changes :
      (o : Uuid) (to : OrderStatus) (actor : String) (id : Option Uuid) (reason ip : Option String)
      → Changes Valid (Makes (update_order_status_by_target o to actor id reason ip)) (
          Service.update_order_status_by_target
            (new_service parse_addr parse_uuid)
            o
            to
            actor
            id
            reason
            ip)
  unfolding Service.update_order_status_by_target Service.update_order_status_details
  update_order_status_by_target-Changes o to actor id reason ip =
      Changes-lift _ _ (expected_status_for_target to) _ (λ from _.
        Changes-before _ _ _ _
          (record {
            outcome = λ w v.
                Outcome-map (advances o to actor id reason ip)
                  ((update_order_status-Changes _).outcome w v);
          })
          with_items-Reads)

  pub process_pending_orders_batch-Changes :
      (input : ProcessPendingOrdersBatchInput)
      → Changes Valid
          (Makes (process_pending_orders_batch input))
          (Service.process_pending_orders_batch (new_service parse_addr parse_uuid) input)
  unfolding Service.process_pending_orders_batch new_service
  process_pending_orders_batch-Changes input = Changes-after _ _ _ _ (Reads-check _) (λ _.
      Changes-from_db _ _ _ (record {
        outcome = λ w v.
            Outcome-map (processes input) (process_pending_orders_batch-Outcome parse_addr _ w v);
      }))

  draw-Reads : Reads (Service.draw (new_service parse_addr parse_uuid))
  unfolding Service.draw new_service new_uuid
  draw-Reads = record { same = λ w. refl }

  parse_product-Reads :
      (i : ℕ) (o : Option Uuid)
      → Reads (Service.parse_product (new_service parse_addr parse_uuid) parse_uuid i o)
  unfolding Service.parse_product
  parse_product-Reads i none = Reads-lift _
  parse_product-Reads i (some id) = Reads-lift _

  command_items-Reads :
      (i : ℕ) (items : List CreateOrderItemRequest)
      → Reads (Service.command_items (new_service parse_addr parse_uuid) parse_uuid i items)
  unfolding Service.command_items
  command_items-Reads i [] = Reads-lift _
  command_items-Reads i (x ∷ xs) =
      Reads-bind _ _ (parse_product-Reads i (parse_uuid x.product_id)) (λ p.
        Reads-bind _ _ draw-Reads
          (λ id. Reads-bind _ _ (command_items-Reads (suc i) xs) (λ rest. Reads-lift _)))

  pub create_order-Changes :
      (input : CreateOrderInput)
      → Changes Valid
          (Makes (create_order input))
          (Service.create_order (new_service parse_addr parse_uuid) parse_uuid input)
  unfolding Service.create_order Service.reject_invalid new_service
  create_order-Changes input = Changes-after _ _ _ _ (Reads-invalid _) (λ _.
      Changes-lift _ _ (calculate_total_cents input.items) _ (λ total sum.
        Changes-after _ _ _ _ (command_items-Reads 0 input.items) (λ items.
          Changes-after _ _ _ _ draw-Reads (λ id.
            Changes-handle _ _ _ _
              (record {
                outcome = λ w v.
                    Outcome-map
                      (places input _ (record {
                        customer = refl;
                        key = refl;
                        pending = refl;
                        total = sum;
                        currency = refl;
                      }))
                      (create_order-Outcome parse_addr _ w);
              })
              Fails-or_conflict))))
