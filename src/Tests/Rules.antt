-- ===== src/Tests/Rules.antt =====
-- Statuses, money and validation at concrete inputs.
use oms_go.Prelude.{◌≡◌, refl, ◌↔◌, some, true, false, [], ◌∷◌, arith, leb, if◌then◌else◌}
use oms_go.Prelude.Exec.{ok, err}
use oms_go.Prelude.Int.{pos, negsuc, max_int64, wrap64}
use oms_go.Prelude.Text.{trim_space, decimal}
use oms_go.Orders.Errors.{unknown_status, invalid_transition, total_cents_overflow}
use oms_go.Orders.StateMachine.{can_transition, validate_transition}
use oms_go.Orders.StateMachine.Graph.{
  Transition, Verdict, can_transition_iff, validate_transition-Verdict,
}
use oms_go.Orders.Validation.{
  CreateOrderItemRequest, CreateOrderRequest, append_if, is_blank, matches_currency_code,
  validate_create_order_request,
}
use oms_go.Orders.Validation.Rules.{IsValidRequest, validate_create_order_request-nil_iff}
use oms_go.Orders.Money.{multiply_cents, calculate_total_cents}
use oms_go.Orders.Money.Totals.{exact_total, calculate_total_cents-exact}
use oms_go.Orders.Service.{expected_status_for_target}
use oms_go.Orders.Service.Targets.{expected_status_for_target_iff}

transitions :
    (can_transition "PENDING" "CANCELLED" ≡ true)
    × (can_transition "PROCESSING" "CANCELLED" ≡ false)
    × (validate_transition "PENDING" "PAID" ≡ some (unknown_status "PAID"))
    × (validate_transition "SHIPPED" "PENDING"
        ≡ some (invalid_transition (some ("SHIPPED", "PENDING"))))
unfolding can_transition validate_transition
transitions = (refl, refl, refl, refl)

can_transition_iff_example :
    (can_transition "SHIPPED" "DELIVERED" ≡ true) ↔ Transition "SHIPPED" "DELIVERED"
can_transition_iff_example = can_transition_iff "SHIPPED" "DELIVERED"

validate_transition-Verdict_example :
    Verdict "DELIVERED" "PENDING" (validate_transition "DELIVERED" "PENDING")
validate_transition-Verdict_example = validate_transition-Verdict "DELIVERED" "PENDING"

expected_status_for_target_iff_example :
    (expected_status_for_target "SHIPPED" ≡ ok "PROCESSING") ↔ Transition "PROCESSING" "SHIPPED"
expected_status_for_target_iff_example = expected_status_for_target_iff "PROCESSING" "SHIPPED"

abbrev coffee : CreateOrderItemRequest
coffee = record {
  product_id = "22222222-2222-2222-2222-222222222222";
  sku = "SKU-COFFEE-001";
  quantity = pos 2;
  unit_price_cents = pos 1250;
}

abbrev mug : CreateOrderItemRequest
mug = record {
  product_id = "33333333-3333-3333-3333-333333333333";
  sku = "SKU-MUG-001";
  quantity = pos 1;
  unit_price_cents = pos 900;
}

abbrev gold : CreateOrderItemRequest
gold = record coffee { unit_price_cents = pos max_int64 }

totals :
    (calculate_total_cents (coffee ∷ mug ∷ []) ≡ ok (pos 3400))
    × (calculate_total_cents (mug ∷ gold ∷ []) ≡ err total_cents_overflow)
    × (multiply_cents (negsuc 1) (pos 3) ≡ ok (negsuc 5))
unfolding calculate_total_cents wrap64
totals = (refl, refl, refl)

calculate_total_cents-exact_example : calculate_total_cents (coffee ∷ mug ∷ []) ≡ (
    if leb (exact_total (coffee ∷ mug ∷ [])) max_int64
    then ok (pos (exact_total (coffee ∷ mug ∷ [])))
    else err total_cents_overflow)
calculate_total_cents-exact_example = calculate_total_cents-exact (coffee ∷ mug ∷ []) (
  record {
    price = 1250;
    quantity = 2;
    price_is = refl;
    quantity_is = refl;
    price_fits = omega arith;
    quantity_pos = omega arith;
  },
  (
    record {
      price = 900;
      quantity = 1;
      price_is = refl;
      quantity_is = refl;
      price_fits = omega arith;
      quantity_pos = omega arith;
    },
    tt,
  ),
)

abbrev checkout : CreateOrderRequest
checkout = record {
  idempotency_key = "checkout-2026-0001";
  currency = "USD";
  items = coffee ∷ mug ∷ [];
}

abbrev sloppy : CreateOrderRequest
sloppy = record {
  idempotency_key = " ";
  currency = "usd";
  items = record coffee { sku = ""; quantity = pos 0; unit_price_cents = negsuc 0 } ∷ [];
}

validation :
    (validate_create_order_request checkout ≡ [])
    × (validate_create_order_request sloppy
        ≡ record { field = "idempotency_key"; message = "is required" }
          ∷ record { field = "currency"; message = "must be a 3-letter uppercase code" }
          ∷ record { field = "items[0].sku"; message = "is required" }
          ∷ record { field = "items[0].quantity"; message = "must be greater than 0" }
          ∷ record {
            field = "items[0].unit_price_cents";
            message = "must be greater than or equal to 0";
          }
          ∷ [])
unfolding validate_create_order_request append_if is_blank trim_space matches_currency_code decimal
validation = (refl, refl)

validate_create_order_request-nil_iff_example :
    (validate_create_order_request checkout ≡ []) ↔ IsValidRequest checkout
validate_create_order_request-nil_iff_example = validate_create_order_request-nil_iff checkout
