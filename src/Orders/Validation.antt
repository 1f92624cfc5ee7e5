-- ===== src/Orders/Validation.antt =====
-- internal/orders/validation.go: the requests and the field errors that they get. A text is its code
-- points; the bytes of an invalid encoding are not modelled.
pub mod Rules
use oms_go.Prelude.{
  ℕ, suc, ◌+◌, Bool, true, false, ◌&&◌, not, Option, none, some, String, List, [], ◌∷◌, ◌++◌,
  str_eq, leb, if◌then◌else◌,
}
use oms_go.Prelude.Int.{ℤ, pos, ltb_ℤ}
use oms_go.Prelude.Text.{◌<>◌, codes, trim_space, decimal}
use oms_go.Orders.Errors.{OrderStatus, FieldError}
use oms_go.Orders.StateMachine.{is_valid_status}

pub record CreateOrderItemRequest : Type 0 where
  pub product_id : String
  pub sku : String
  pub quantity : ℤ
  pub unit_price_cents : ℤ

pub record CreateOrderRequest : Type 0 where
  pub idempotency_key : String
  pub currency : String
  pub items : List CreateOrderItemRequest

-- `strings.TrimSpace(s) == ""`.
unfoldable pub is_blank : String → Bool
is_blank s = str_eq (trim_space s) ""

is_upper : ℕ → Bool
is_upper c = leb b'A' c && leb c b'Z'

-- The pattern `^[A-Z]{3}$`.
matches_codes : List ℕ → Bool
matches_codes (a ∷ b ∷ c ∷ []) = is_upper a && is_upper b && is_upper c
matches_codes _ = false

unfoldable pub matches_currency_code : String → Bool
unfolding is_upper matches_codes
matches_currency_code s = matches_codes (codes s)

-- `if failed { errs = append(errs, …) }`.
unfoldable pub append_if : Bool → String → String → List FieldError → List FieldError
append_if test field message errs =
    if test then errs ++ record { field = field; message = message } ∷ [] else errs

is_empty_list : List CreateOrderItemRequest → Bool
is_empty_list [] = true
is_empty_list (x ∷ xs) = false

check_item : ℕ → CreateOrderItemRequest → List FieldError → List FieldError
check_item i item errs =
    let prefix = "items[" <> decimal i <> "]" in
    append_if (ltb_ℤ item.unit_price_cents (pos 0)) (prefix <> ".unit_price_cents")
      "must be greater than or equal to 0"
      (append_if (not (ltb_ℤ (pos 0) item.quantity)) (prefix <> ".quantity")
        "must be greater than 0"
        (append_if (is_blank item.sku) (prefix <> ".sku") "is required"
          (append_if (is_blank item.product_id) (prefix <> ".product_id") "is required" errs)))

-- The loop over the items.
check_items : ℕ → List CreateOrderItemRequest → List FieldError → List FieldError
unfolding check_item
check_items i [] errs = errs
check_items i (item ∷ items) errs = check_items (suc i) items (check_item i item errs)

-- The errors, none of them for nil.
unfoldable pub validate_create_order_request : CreateOrderRequest → List FieldError
unfolding check_items is_empty_list
validate_create_order_request req = check_items 0 req.items (
    append_if (is_empty_list req.items) "items" "must contain at least one item" (
      append_if (not (matches_currency_code req.currency)) "currency"
        "must be a 3-letter uppercase code"
        (append_if (is_blank req.idempotency_key) "idempotency_key" "is required" [])))

unfoldable pub validate_update_order_status_request : OrderStatus → List FieldError
validate_update_order_status_request status =
    if str_eq status ""
    then record { field = "status"; message = "is required" } ∷ []
    else if not (is_valid_status status)
    then record { field = "status"; message = "must be a valid OMS status" } ∷ []
    else []
