-- ===== src/Orders/Backend.antt =====
-- The service over the repository, as cmd/api/main.go puts them together, and its requests one after
-- another.
pub mod Lives
pub mod Spec
pub mod Placed
pub mod Shown
pub mod Listed
use oms_go.Prelude.{
  ◌≡◌, refl, sym, subst, Option, Option-cases, Bool-cases, inl, inr, str_eq, String, List, [], ◌∷◌,
}
use oms_go.Db.Models.{Uuid}
use oms_go.Db.Selects.{
  get_order_by_id_and_customer_id, get_order_items_by_order_id, get_order_events_by_order_id,
}
use oms_go.Db.Selects.Reads.{by_customer-reads, by_status-reads}
use oms_go.Db.World.{World, new_uuid}
use oms_go.Db.World.Answers.{run_query-reads}
use oms_go.Orders.Errors.{OrderStatus}
use oms_go.Orders.Audit.{Audited}
use oms_go.Orders.Commands.{ListOrdersCommand}
use oms_go.Orders.Interface.{
  Service, Preserves, CreateOrderInput, ListOrdersInput, CancelOrderInput,
  ProcessPendingOrdersBatchInput,
}
use oms_go.Orders.Repository
use oms_go.Orders.Repository.Trails.{
  create_order-Audited, cancel_order-Audited, update_order_status-Audited,
}
use oms_go.Orders.Repository.Batches.{process_pending_orders_batch-Audited}
use oms_go.Orders.Service
use oms_go.Orders.Service.Methods

pub get-reads :
    (o c : Uuid) (w : World)
    → (Repository.get_order_by_id_and_customer_id_of o c w).1.tables ≡ w.tables
unfolding Repository.get_order_by_id_and_customer_id_of get_order_by_id_and_customer_id
get-reads o c w = run_query-reads _ w (λ now locked t. refl)

pub items-reads :
    (o : Uuid) (w : World) → (Repository.get_order_items_by_order_id_of o w).1.tables ≡ w.tables
unfolding Repository.get_order_items_by_order_id_of get_order_items_by_order_id
items-reads o w = run_query-reads _ w (λ now locked t. refl)

pub events-reads :
    (o : Uuid) (w : World) → (Repository.get_order_events_by_order_id_of o w).1.tables ≡ w.tables
unfolding Repository.get_order_events_by_order_id_of get_order_events_by_order_id
events-reads o w = run_query-reads _ w (λ now locked t. refl)

pub list-reads :
    (cmd : ListOrdersCommand) (w : World) → (Repository.list_orders cmd w).1.tables ≡ w.tables
unfolding Repository.list_orders
list-reads cmd w = elim (Option-cases cmd.status) [
  | inl none_given ↦
      rw (none_given, Repository.list_orders)
        (run_query-reads _ w (λ now locked t. by_customer-reads _ t))
  | inr (status, given) ↦ elim (Bool-cases (str_eq status "")) [
    | inl empty ↦
        rw (given, Repository.list_orders)
          (rw empty (run_query-reads _ w (λ now locked t. by_customer-reads _ t)))
    | inr full ↦
        rw (given, Repository.list_orders)
          (rw full (run_query-reads _ w (λ now locked t. by_status-reads _ t)))
  ]
]

-- A method of `handlerService` or `workerService`, with its arguments.
pub data Request : Type 0 where
  create_order : CreateOrderInput → Request
  get_order : Uuid → Uuid → Request
  list_order_details : ListOrdersInput → Request
  cancel_order_details : CancelOrderInput → Request
  update_order_status_by_target :
      Uuid → OrderStatus → String → Option Uuid → Option String → Option String → Request
  process_pending_orders_batch : ProcessPendingOrdersBatchInput → Request

module _ (parse_addr : String → Option String) (parse_uuid : String → Option Uuid) where
  -- `NewRepository` and `NewService`.
  unfoldable pub new_service : Service World
  new_service = record {
    repo = record {
      create_order_with_items_and_audit = Repository.create_order_with_items_and_audit parse_addr;
      get_order_by_id_and_customer_id = Repository.get_order_by_id_and_customer_id_of;
      get_order_items_by_order_id = Repository.get_order_items_by_order_id_of;
      get_order_events_by_order_id = Repository.get_order_events_by_order_id_of;
      list_orders = Repository.list_orders;
      cancel_order_with_audit = Repository.cancel_order_with_audit parse_addr;
      update_order_status_with_audit = Repository.update_order_status_with_audit parse_addr;
      process_pending_orders_batch_with_audit =
          Repository.process_pending_orders_batch_with_audit parse_addr;
    };
    new_uuid = new_uuid;
  }

  -- What a request leaves behind, whatever it answers.
  unfoldable pub serve : World → Request → World
  serve w (create_order input) = (Service.create_order new_service parse_uuid input w).1
  serve w (get_order o c) = (Service.get_order new_service o c w).1
  serve w (list_order_details input) = (Service.list_order_details new_service input w).1
  serve w (cancel_order_details input) = (Service.cancel_order_details new_service input w).1
  serve w (update_order_status_by_target o s actor_type actor_id reason ip) =
      (Service.update_order_status_by_target new_service o s actor_type actor_id reason ip w).1
  serve w (process_pending_orders_batch input) =
      (Service.process_pending_orders_batch new_service input w).1

  unfoldable pub serve_all : World → List Request → World
  unfolding serve
  serve_all w [] = w
  serve_all w (r ∷ rs) = serve_all (serve w r) rs

  abbrev Trailed : World → Type 0
  Trailed w = Audited w.tables

  module _ (P : World → Type 0) (laws : Preserves P new_service) where
    pub serve-Safe : (w : World) (r : Request) → P w → P (serve w r)
    unfolding serve
    serve-Safe w (create_order input) =
        (Methods.create_order-Safe P new_service laws parse_uuid input).after w
    serve-Safe w (get_order o c) = (Methods.get_order-Safe P new_service laws o c).after w
    serve-Safe w (list_order_details input) =
        (Methods.list_order_details-Safe P new_service laws input).after w
    serve-Safe w (cancel_order_details input) =
        (Methods.cancel_order_details-Safe P new_service laws input).after w
    serve-Safe w (update_order_status_by_target o s actor_type actor_id reason ip) =
        (Methods.update_order_status_by_target-Safe P new_service laws o s actor_type actor_id
            reason ip).after
          w
    serve-Safe w (process_pending_orders_batch input) =
        (Methods.process_pending_orders_batch-Safe P new_service laws input).after w

    -- What the calls of the repository keep, requests keep.
    pub serve_all-Safe : (w : World) (rs : List Request) → P w → P (serve_all w rs)
    unfolding serve_all
    serve_all-Safe w [] v = v
    serve_all-Safe w (r ∷ rs) v = serve_all-Safe (serve w r) rs (serve-Safe w r v)

  pub new_service-Preserves : Preserves Trailed new_service
  unfolding new_service new_uuid
  new_service-Preserves = record {
    create = create_order-Audited parse_addr;
    get = λ o c w v. subst Audited (sym (get-reads o c w)) v;
    items = λ o w v. subst Audited (sym (items-reads o w)) v;
    events = λ o w v. subst Audited (sym (events-reads o w)) v;
    list = λ cmd w v. subst Audited (sym (list-reads cmd w)) v;
    cancel = cancel_order-Audited parse_addr;
    update = update_order_status-Audited parse_addr;
    process = process_pending_orders_batch-Audited parse_addr;
    uuid = λ w v. v;
  }

  -- From tables whose events tell the history of each order, whatever requests the service is sent and
  -- whatever fails on the way, they still do: the ids of the orders are distinct, every event belongs to
  -- an order, and the events of each order are a path of the state machine from its creation to its
  -- status.
  pub serve_all-Audited :
      (w : World) (rs : List Request) → Audited w.tables → Audited (serve_all w rs).tables
  serve_all-Audited w rs = serve_all-Safe Trailed new_service-Preserves w rs
