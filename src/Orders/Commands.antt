-- ===== src/Orders/Commands.antt =====
-- internal/orders/repository.go: the actions and actors of the audit trail, and the repository's
-- commands. `pgtype.UUID`, `pgtype.Text` and `pgtype.Timestamptz` are options, and so are pointers.
use oms_go.Prelude.{Option, String, List}
use oms_go.Prelude.Int.{ℤ}
use oms_go.Db.Models.{Uuid, Timestamp, Order, OrderItem}
use oms_go.Orders.Errors.{OrderStatus}

abbrev pub actor_type_customer : String
actor_type_customer = "CUSTOMER"

abbrev pub actor_type_system : String
actor_type_system = "SYSTEM"

abbrev pub action_created : String
action_created = "CREATED"

abbrev pub action_cancelled : String
action_cancelled = "CANCELLED"

abbrev pub action_status_updated : String
action_status_updated = "STATUS_UPDATED"

abbrev pub action_worker_moved_to_processing : String
action_worker_moved_to_processing = "WORKER_MOVED_TO_PROCESSING"

pub record CreateOrderItemInput : Type 0 where
  pub id : Uuid
  pub product_id : Uuid
  pub sku : String
  pub quantity : ℤ
  pub unit_price_cents : ℤ

pub record CreateOrderCommand : Type 0 where
  pub order_id : Uuid
  pub customer_id : Uuid
  pub idempotency_key : String
  pub total_cents : ℤ
  pub currency : String
  pub items : List CreateOrderItemInput
  pub actor_id : Option Uuid
  pub reason : Option String
  pub ip_address : Option String

pub record CreateOrderResult : Type 0 where
  pub order : Order
  pub items : List OrderItem

pub record CancelOrderCommand : Type 0 where
  pub order_id : Uuid
  pub customer_id : Uuid
  pub actor_id : Option Uuid
  pub reason : Option String
  pub ip_address : Option String

pub record UpdateOrderStatusCommand : Type 0 where
  pub order_id : Uuid
  pub expected_status : OrderStatus
  pub new_status : OrderStatus
  pub actor_type : String
  pub actor_id : Option Uuid
  pub reason : Option String
  pub ip_address : Option String

pub record ProcessPendingOrdersBatchCommand : Type 0 where
  pub limit : ℤ
  pub actor_id : Option Uuid
  pub reason : Option String
  pub ip_address : Option String

pub record ListOrdersCommand : Type 0 where
  pub customer_id : Uuid
  pub limit : ℤ
  pub status : Option OrderStatus
  pub cursor_created_at : Option Timestamp
  pub cursor_id : Option Uuid
