-- ===== src/Orders/Errors.antt =====
-- internal/orders/errors.go and the other errors that the package returns. A sentinel that the code
-- wraps (`%w: …`) keeps the values that its text shows; `errors.Is` and `errors.As` look at the
-- constructor alone.
use oms_go.Prelude.{String, Option, List}
use oms_go.Db.Tables.{DbError}

abbrev pub OrderStatus : Type 0
OrderStatus = String

pub record FieldError : Type 0 where
  pub field : String
  pub message : String

pub data Error : Type 0 where
  unknown_status : OrderStatus → Error
  invalid_transition : Option (OrderStatus × OrderStatus) → Error
  order_not_found : Error
  idempotency_conflict : Error
  invalid_actor_type : Error
  total_cents_overflow : Error
  validation_errors : List FieldError → Error
  db : DbError → Error
