-- ===== src/Orders/StateMachine.antt =====
-- internal/orders/state_machine.go: the order statuses, which Go keeps as plain strings, and the
-- transitions between them. An `error` is a constructor with the values that its text shows.
pub mod Graph
use oms_go.Prelude.{
  String, Bool, false, ◌||◌, not, Option, none, some, List, [], ◌∷◌, str_eq, any, if◌then◌else◌,
}
use oms_go.Orders.Errors.{OrderStatus, Error, unknown_status, invalid_transition}

abbrev pub status_pending : OrderStatus
status_pending = "PENDING"

abbrev pub status_processing : OrderStatus
status_processing = "PROCESSING"

abbrev pub status_shipped : OrderStatus
status_shipped = "SHIPPED"

abbrev pub status_delivered : OrderStatus
status_delivered = "DELIVERED"

abbrev pub status_cancelled : OrderStatus
status_cancelled = "CANCELLED"

abbrev pub valid_statuses : List OrderStatus
valid_statuses =
    status_pending ∷ status_processing ∷ status_shipped ∷ status_delivered ∷ status_cancelled ∷ []

abbrev pub allowed_transitions : List (OrderStatus × List OrderStatus)
allowed_transitions =
    (status_pending, status_processing ∷ status_cancelled ∷ [])
    ∷ (status_processing, status_shipped ∷ [])
    ∷ (status_shipped, status_delivered ∷ [])
    ∷ []

-- A key of a Go map.
has_key : OrderStatus → List OrderStatus → Bool
has_key k = any (λ s. str_eq s k)

next_of : OrderStatus → List (OrderStatus × List OrderStatus) → Option (List OrderStatus)
next_of k [] = none
next_of k ((s, next) ∷ rest) = if str_eq s k then some next else next_of k rest

unfoldable pub is_valid_status : OrderStatus → Bool
unfolding has_key
is_valid_status status = has_key status valid_statuses

unfoldable pub can_transition : OrderStatus → OrderStatus → Bool
unfolding is_valid_status next_of
can_transition from to =
    if not (is_valid_status from) || not (is_valid_status to)
    then false
    else elim (next_of from allowed_transitions) [ none ↦ false | some next ↦ has_key to next ]

-- `none` is the error nil.
unfoldable pub validate_transition : OrderStatus → OrderStatus → Option Error
validate_transition from to =
    if not (is_valid_status from)
    then some (unknown_status from)
    else if not (is_valid_status to)
    then some (unknown_status to)
    else if not (can_transition from to)
    then some (invalid_transition (some (from, to)))
    else none
