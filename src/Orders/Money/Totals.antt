-- ===== src/Orders/Money/Totals.antt =====
-- internal/orders/service.go: `calculateTotalCents` and the sum over the naturals.
use native.Mathlib.Nat.{le-div_iff_mul-le, add_assoc}
use native.Mathlib.Decide.{dec_le}
use oms_go.Prelude.{
  ℕ, ◌+◌, ◌*◌, ◌≤◌, ◌<◌, ◌≡◌, sym, ap, ◌∙◌, List, [], ◌∷◌, arith, leb, if◌then◌else◌, All,
}
use oms_go.Prelude.Exec.{Result, ok, err}
use oms_go.Prelude.Int.{ℤ, pos, pos_part, wrap64, max_int64, wrap64-eq_of_IsInt64}
use oms_go.Orders.Errors.{Error, total_cents_overflow}
use oms_go.Orders.Validation.{CreateOrderItemRequest}
use oms_go.Orders.Money.{next, multiply_cents, add_line, add_lines, calculate_total_cents}

-- What the total should be, in numbers without bound.
abbrev pub exact_total : List CreateOrderItemRequest → ℕ
exact_total [] = 0
exact_total (item ∷ items) =
    pos_part item.unit_price_cents * pos_part item.quantity + exact_total items

-- An item whose price is an `int64` not below 0 and whose quantity is positive.
pub record IsPriced (item : CreateOrderItemRequest) : Type 0 where
  pub price : ℕ
  pub quantity : ℕ
  pub price_is : item.unit_price_cents ≡ pos price
  pub quantity_is : item.quantity ≡ pos quantity
  pub price_fits : price ≤ max_int64
  pub quantity_pos : 0 < quantity

-- A number, or the overflow error where it does not fit.
abbrev pub fitting : ℕ → Result Error ℤ
fitting n = if leb n max_int64 then ok (pos n) else err total_cents_overflow

multiply_cents-eq :
    (p q : ℕ) → p ≤ max_int64 → 0 < q → multiply_cents (pos p) (pos q) ≡ fitting (p * q)
unfolding multiply_cents
multiply_cents-eq p q hp hq = ground (
  arith,
  le-div_iff_mul-le {k = q} {x = p} {y = max_int64} hq,
  wrap64-eq_of_IsInt64 (pos (p * q)),
)

add_line-eq : (t n : ℕ) → t ≤ max_int64 → n ≤ max_int64 → add_line (pos t) (pos n) ≡ fitting (t + n)
unfolding add_line wrap64
add_line-eq t n ht hn = ground arith

fitting-small : (n : ℕ) → n ≤ max_int64 → fitting n ≡ ok (pos n)
fitting-small n h = ground arith

fitting-large : (n : ℕ) → max_int64 < n → fitting n ≡ err total_cents_overflow
fitting-large n h = ground arith

-- One round from a total that fits: the product may be too large, or the sum.
line-eq :
    (item : CreateOrderItemRequest)
    → IsPriced item
    → multiply_cents item.unit_price_cents item.quantity
      ≡ fitting (pos_part item.unit_price_cents * pos_part item.quantity)
line-eq item i =
    rw (i.price_is, i.quantity_is)
      (multiply_cents-eq i.price i.quantity i.price_fits i.quantity_pos)

-- The rest of the loop, after a product that fits.
round-eq :
    (t n : ℕ) (items : List CreateOrderItemRequest) (rest : ℕ)
    → t ≤ max_int64
    → n ≤ max_int64
    → (t + n ≤ max_int64 → add_lines (pos (t + n)) items ≡ fitting (t + n + rest))
    → next (add_line (pos t) (pos n)) (λ k. add_lines k items) ≡ fitting (t + (n + rest))
round-eq t n items rest ht hn ih = elim (dec_le (t + n) max_int64) [
  | yes small ↦
      rw (add_line-eq t n ht hn, fitting-small (t + n) small)
        (ih small ∙ ap fitting (add_assoc t n rest))
  | no large ↦
      rw (add_line-eq t n ht hn, fitting-large (t + n) (omega arith))
        (sym (fitting-large (t + (n + rest)) (omega arith)))
]

add_lines-eq :
    (t : ℕ) (items : List CreateOrderItemRequest)
    → t ≤ max_int64
    → All IsPriced items
    → add_lines (pos t) items ≡ fitting (t + exact_total items)
unfolding add_lines
add_lines-eq t [] h a = ground arith
add_lines-eq t (item ∷ items) h a = elim (dec_le n max_int64) [
  | yes small ↦
      rw (line-eq item a.0, fitting-small n small)
        (round-eq t n items (exact_total items) h small
          (λ fits. add_lines-eq (t + n) items fits a.1))
  | no large ↦
      rw (line-eq item a.0, fitting-large n (omega arith))
        (sym (fitting-large (t + (n + exact_total items)) (omega arith)))
]
  where
    n : ℕ
    n = pos_part item.unit_price_cents * pos_part item.quantity

-- For items with a positive quantity and a price from 0 that an int64 holds, `calculateTotalCents`
-- answers the exact sum of price times quantity if an int64 holds it, and the overflow error otherwise.
pub calculate_total_cents-exact :
    (items : List CreateOrderItemRequest)
    → All IsPriced items
    → calculate_total_cents items ≡ (
        if leb (exact_total items) max_int64
        then ok (pos (exact_total items))
        else err total_cents_overflow)
unfolding calculate_total_cents
calculate_total_cents-exact items a =
    add_lines-eq 0 items (omega arith) a ∙ ap fitting (omega arith)
