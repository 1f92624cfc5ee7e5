-- ===== src/Orders/Interface.antt =====
-- internal/orders/service.go: the interface `serviceRepository`, what a repository owes to an invariant
-- of its state, and the inputs and outputs of the service.
use oms_go.Prelude.{Option, String, List}
use oms_go.Prelude.Exec.{Exec}
use oms_go.Prelude.Int.{ℤ}
use oms_go.Db.Models.{Uuid, Timestamp, Order, OrderItem, OrderEvent}
use oms_go.Db.Tables.{DbError}
use oms_go.Orders.Errors.{OrderStatus}
use oms_go.Orders.StateMachine.Graph.{Transition}
use oms_go.Orders.Validation.{CreateOrderItemRequest}
use oms_go.Orders.Commands.{
  CreateOrderCommand, CreateOrderResult, CancelOrderCommand, UpdateOrderStatusCommand,
  ProcessPendingOrdersBatchCommand, ListOrdersCommand,
}

pub record ServiceRepository (S : Type 0) : Type 0 where
  pub create_order_with_items_and_audit : CreateOrderCommand → Exec S DbError CreateOrderResult
  pub get_order_by_id_and_customer_id : Uuid → Uuid → Exec S DbError Order
  pub get_order_items_by_order_id : Uuid → Exec S DbError (List OrderItem)
  pub get_order_events_by_order_id : Uuid → Exec S DbError (List OrderEvent)
  pub list_orders : ListOrdersCommand → Exec S DbError (List Order)
  pub cancel_order_with_audit : CancelOrderCommand → Exec S DbError Order
  pub update_order_status_with_audit : UpdateOrderStatusCommand → Exec S DbError Order
  pub process_pending_orders_batch_with_audit :
      ProcessPendingOrdersBatchCommand → Exec S DbError (List Order)

pub record Service (S : Type 0) : Type 0 where
  pub repo : ServiceRepository S
  pub new_uuid : S → Uuid × S

-- `P` holds after every call, if a status update goes along an edge of the diagram.
pub record Preserves {S : Type 0} (P : S → Type 0) (service : Service S) : Type 0 where
  pub create :
      (cmd : CreateOrderCommand) (s : S)
      → P s
      → P (service.repo.create_order_with_items_and_audit cmd s).1
  pub get : (o c : Uuid) (s : S) → P s → P (service.repo.get_order_by_id_and_customer_id o c s).1
  pub items : (o : Uuid) (s : S) → P s → P (service.repo.get_order_items_by_order_id o s).1
  pub events : (o : Uuid) (s : S) → P s → P (service.repo.get_order_events_by_order_id o s).1
  pub list : (cmd : ListOrdersCommand) (s : S) → P s → P (service.repo.list_orders cmd s).1
  pub cancel :
      (cmd : CancelOrderCommand) (s : S) → P s → P (service.repo.cancel_order_with_audit cmd s).1
  pub update :
      (cmd : UpdateOrderStatusCommand) (s : S)
      → Transition cmd.expected_status cmd.new_status
      → P s
      → P (service.repo.update_order_status_with_audit cmd s).1
  pub process :
      (cmd : ProcessPendingOrdersBatchCommand) (s : S)
      → P s
      → P (service.repo.process_pending_orders_batch_with_audit cmd s).1
  pub uuid : (s : S) → P s → P (service.new_uuid s).1

pub record OrderDetails : Type 0 where
  pub order : Order
  pub items : List OrderItem

pub record CreateOrderInput : Type 0 where
  pub customer_id : Uuid
  pub idempotency_key : String
  pub currency : String
  pub items : List CreateOrderItemRequest
  pub actor_id : Option Uuid
  pub reason : Option String
  pub ip_address : Option String

pub record ListOrdersInput : Type 0 where
  pub customer_id : Uuid
  pub limit : ℤ
  pub status : Option OrderStatus
  pub cursor_created_at : Option Timestamp
  pub cursor_id : Option Uuid

pub record CancelOrderInput : Type 0 where
  pub order_id : Uuid
  pub customer_id : Uuid
  pub actor_id : Option Uuid
  pub reason : Option String
  pub ip_address : Option String

pub record UpdateOrderStatusInput : Type 0 where
  pub order_id : Uuid
  pub expected_status : OrderStatus
  pub new_status : OrderStatus
  pub actor_type : String
  pub actor_id : Option Uuid
  pub reason : Option String
  pub ip_address : Option String

pub record ProcessPendingOrdersBatchInput : Type 0 where
  pub limit : ℤ
  pub actor_id : Option Uuid
  pub reason : Option String
  pub ip_address : Option String
