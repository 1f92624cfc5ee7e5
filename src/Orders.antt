-- ===== src/Orders.antt =====
-- internal/orders: the state machine, the money, the validation, the repository, the service, the
-- HTTP handler and the worker.
pub mod Errors
pub mod StateMachine
pub mod Money
pub mod Validation
pub mod Json
pub mod Decoding
pub mod Commands
pub mod Transaction
pub mod Audit
pub mod Lifecycle
pub mod Book
pub mod Repository
pub mod Interface
pub mod Service
pub mod Backend
pub mod Handler
pub mod Worker
