-- ===== src/Orders/Backend/Spec.antt =====
-- The service as its clients see it: what a request may do to the book of orders, and whether it was
-- acknowledged, that is, answered without an error.
pub mod Methods
pub mod Refines
use oms_go.Prelude.{◌≡◌, Bool, true, false, Option, String, List, [], ◌∷◌}
use oms_go.Prelude.Exec.{Result, ok, err}
use oms_go.Db.World.{World}
use oms_go.Db.Models.{Uuid}
use oms_go.Orders.Errors.{OrderStatus}
use oms_go.Orders.StateMachine.{status_pending}
use oms_go.Orders.Money.{calculate_total_cents}
use oms_go.Orders.Interface.{
  CreateOrderInput, ListOrdersInput, CancelOrderInput, ProcessPendingOrdersBatchInput,
}
use oms_go.Orders.Book.{Book, Entry, Places, Cancels, Advances, Processes}
use oms_go.Orders.Service
use oms_go.Orders.Backend.{
  Request, create_order, get_order, list_order_details, cancel_order_details,
  update_order_status_by_target, process_pending_orders_batch, new_service, serve,
}

-- The entry that the input asks for, with the sum of its lines.
pub record Asked (input : CreateOrderInput) (e : Entry) : Type 0 where
  pub customer : e.customer_id ≡ input.customer_id
  pub key : e.idempotency_key ≡ input.idempotency_key
  pub pending : e.status ≡ status_pending
  pub total : calculate_total_cents input.items ≡ ok e.total_cents
  pub currency : e.currency ≡ input.currency

-- What a request does, if it does anything.
pub data Does : Request → Book → Book → Type 0 where
  places :
      (input : CreateOrderInput) (e : Entry) {b b' : Book}
      → Asked input e
      → Places e b b'
      → Does (create_order input) b b'
  cancels :
      (input : CancelOrderInput) {b b' : Book}
      → Cancels input.order_id input.customer_id b b'
      → Does (cancel_order_details input) b b'
  advances :
      (o : Uuid) (to : OrderStatus) (actor : String) (id : Option Uuid) (reason ip : Option String)
      {b b' : Book}
      → Advances o to b b'
      → Does (update_order_status_by_target o to actor id reason ip) b b'
  processes :
      (input : ProcessPendingOrdersBatchInput) {b b' : Book}
      → Processes b b'
      → Does (process_pending_orders_batch input) b b'

pub data IsRead : Request → Type 0 where
  gets : (o c : Uuid) → IsRead (get_order o c)
  lists : (input : ListOrdersInput) → IsRead (list_order_details input)

-- One request, with its acknowledgement: a read changes nothing; any other request makes its change, or
-- changes nothing and is answered with an error. A change may go unacknowledged.
pub data Step (r : Request) (acknowledged : Bool) (b b' : Book) : Type 0 where
  read : IsRead r → b' ≡ b → Step r acknowledged b b'
  does : Does r b b' → Step r acknowledged b b'
  refuses : acknowledged ≡ false → b' ≡ b → Step r acknowledged b b'

pub data Runs : List (Request × Bool) → Book → Book → Type 0 where
  finished : {b b' : Book} → b' ≡ b → Runs [] b b'
  onward :
      (r : Request) (acknowledged : Bool) (rest : List (Request × Bool)) {b b' b'' : Book}
      → Step r acknowledged b b'
      → Runs rest b' b''
      → Runs ((r, acknowledged) ∷ rest) b b''

abbrev pub is_ok : {E A : Type 0} → Result E A → Bool
is_ok (ok a) = true
is_ok (err e) = false

module _ (parse_addr : String → Option String) (parse_uuid : String → Option Uuid) where
  unfoldable pub acknowledges : World → Request → Bool
  acknowledges w (create_order input) =
      is_ok (Service.create_order (new_service parse_addr parse_uuid) parse_uuid input w).0
  acknowledges w (get_order o c) =
      is_ok (Service.get_order (new_service parse_addr parse_uuid) o c w).0
  acknowledges w (list_order_details input) =
      is_ok (Service.list_order_details (new_service parse_addr parse_uuid) input w).0
  acknowledges w (cancel_order_details input) =
      is_ok (Service.cancel_order_details (new_service parse_addr parse_uuid) input w).0
  acknowledges w (update_order_status_by_target o s actor id reason ip) =
      is_ok
        (Service.update_order_status_by_target (new_service parse_addr parse_uuid) o s actor id
          reason ip w).0
  acknowledges w (process_pending_orders_batch input) =
      is_ok (Service.process_pending_orders_batch (new_service parse_addr parse_uuid) input w).0

  -- The requests, each with its acknowledgement.
  unfoldable pub observed : World → List Request → List (Request × Bool)
  unfolding acknowledges
  observed w [] = []
  observed w (r ∷ rs) = (r, acknowledges w r) ∷ observed (serve parse_addr parse_uuid w r) rs
