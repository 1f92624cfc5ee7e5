-- ===== src/Orders/Money.antt =====
-- internal/orders/service.go: `calculateTotalCents` and `multiplyCents`, in `int64` arithmetic with its
-- wrap-around.
pub mod Totals
use oms_go.Prelude.{◌-◌, ◌/◌, Bool, ◌&&◌, ◌||◌, List, [], ◌∷◌, if◌then◌else◌}
use oms_go.Prelude.Exec.{Result, ok, err}
use oms_go.Prelude.Int.{ℤ, pos, pos_part, ◌+ℤ◌, ◌*ℤ◌, ltb_ℤ, is_zero_ℤ, wrap64, max_int64}
use oms_go.Orders.Errors.{Error, total_cents_overflow}
use oms_go.Orders.Validation.{CreateOrderItemRequest}

-- The division is reached only where the quantity is positive.
unfoldable pub multiply_cents : ℤ → ℤ → Result Error ℤ
multiply_cents price quantity =
    if is_zero_ℤ price || is_zero_ℤ quantity
    then ok (pos 0)
    else if ltb_ℤ (pos 0) price
        && ltb_ℤ (pos 0) quantity
        && ltb_ℤ (pos (max_int64 / pos_part quantity)) price
    then err total_cents_overflow
    else ok (wrap64 (price *ℤ quantity))

-- One round of the loop, from the total so far.
add_line : ℤ → ℤ → Result Error ℤ
add_line total line_total =
    let next_total = wrap64 (total +ℤ line_total) in
    if (ltb_ℤ (pos 0) line_total && ltb_ℤ next_total total)
      || (ltb_ℤ line_total (pos 0) && ltb_ℤ total next_total)
    then err total_cents_overflow
    else ok next_total

abbrev next : {A B : Type 0} → Result Error A → (A → Result Error B) → Result Error B
next (ok a) f = f a
next (err e) f = err e

add_lines : ℤ → List CreateOrderItemRequest → Result Error ℤ
add_lines total [] = ok total
add_lines total (item ∷ items) =
    next (multiply_cents item.unit_price_cents item.quantity)
      (λ line_total. next (add_line total line_total) (λ next_total. add_lines next_total items))

unfoldable pub calculate_total_cents : List CreateOrderItemRequest → Result Error ℤ
unfolding add_lines add_line multiply_cents
calculate_total_cents items = add_lines (pos 0) items
