-- ===== src/Orders/Validation/Rules.antt =====
-- internal/orders/validation.go: the rules behind the field errors of a new order.
use oms_go.Prelude.{
  ℕ, suc, ◌≤◌, ◌≡◌, ◌≢◌, refl, ◌↔◌, Bool, true, false, not, String, List, [], ◌∷◌, arith, eq_iff,
  All,
}
use oms_go.Prelude.Int.{ℤ, pos, ◌≤ℤ◌, ltb_ℤ}
use oms_go.Prelude.Text.{codes, trim_space}
use oms_go.Prelude.Text.Blank.{IsBlank, trim_space-empty_iff}
use oms_go.Orders.Errors.{FieldError}
use oms_go.Orders.Validation.{
  CreateOrderItemRequest, CreateOrderRequest, is_blank, is_upper, matches_codes,
  matches_currency_code, append_if, is_empty_list, check_item, check_items,
  validate_create_order_request,
}

-- Three code points, each from A to Z.
abbrev pub IsUpper : ℕ → Type 0
IsUpper c = (b'A' ≤ c) × (c ≤ b'Z')

abbrev pub IsCurrency : List ℕ → Type 0
IsCurrency (a ∷ b ∷ c ∷ []) = IsUpper a × IsUpper b × IsUpper c
IsCurrency _ = ⊥

pub record IsValidItem (item : CreateOrderItemRequest) : Type 0 where
  pub product : ¬ IsBlank item.product_id
  pub sku : ¬ IsBlank item.sku
  pub quantity : pos 1 ≤ℤ item.quantity
  pub price : pos 0 ≤ℤ item.unit_price_cents

pub record IsValidRequest (req : CreateOrderRequest) : Type 0 where
  pub key : ¬ IsBlank req.idempotency_key
  pub currency : IsCurrency (codes req.currency)
  pub some_item : req.items ≢ []
  pub each_item : All IsValidItem req.items

is_blank_iff : (s : String) → (is_blank s ≡ true) ↔ IsBlank s
unfolding is_blank
is_blank_iff s =
    let (to, from) = eq_iff (trim_space s) "" in
    let (blank, empty) = trim_space-empty_iff s in (λ h. blank (to h), λ h. from (empty h))

not-IsBlank_iff : (s : String) → (is_blank s ≡ false) ↔ (¬ IsBlank s)
not-IsBlank_iff s = ground (arith, is_blank_iff s)

matches_codes_iff : (cs : List ℕ) → (matches_codes cs ≡ true) ↔ IsCurrency cs
unfolding matches_codes is_upper
matches_codes_iff (a ∷ b ∷ c ∷ []) = ground arith
matches_codes_iff cs = ground arith

append_if-nil :
    (test : Bool) (field message : String) (errs : List FieldError)
    → (append_if test field message errs ≡ []) ↔ ((test ≡ false) × (errs ≡ []))
unfolding append_if
append_if-nil true field message [] = ground arith
append_if-nil true field message (e ∷ errs) = ground arith
append_if-nil false field message errs = ground arith

positive_iff : (q : ℤ) → (not (ltb_ℤ (pos 0) q) ≡ false) ↔ (pos 1 ≤ℤ q)
positive_iff q = ground arith

not_negative_iff : (p : ℤ) → (ltb_ℤ p (pos 0) ≡ false) ↔ (pos 0 ≤ℤ p)
not_negative_iff p = ground arith

check_item-nil :
    (i : ℕ) (item : CreateOrderItemRequest) (errs : List FieldError)
    → (check_item i item errs ≡ []) ↔ (IsValidItem item × (errs ≡ []))
unfolding check_item
check_item-nil i item errs = (
  λ h.
      let a = (append_if-nil _ _ _ _).0 h in
      let b = (append_if-nil _ _ _ _).0 a.1 in
      let c = (append_if-nil _ _ _ _).0 b.1 in
      let d = (append_if-nil _ _ _ _).0 c.1 in
      let valid : IsValidItem item = record {
        product = (not-IsBlank_iff item.product_id).0 d.0;
        sku = (not-IsBlank_iff item.sku).0 c.0;
        quantity = (positive_iff item.quantity).0 b.0;
        price = (not_negative_iff item.unit_price_cents).0 a.0;
      } in
      (valid, d.1),
  λ (v, none). (append_if-nil _ _ _ _).1 (
    (not_negative_iff item.unit_price_cents).1 v.price,
    (append_if-nil _ _ _ _).1 (
      (positive_iff item.quantity).1 v.quantity,
      (append_if-nil _ _ _ _).1 (
        (not-IsBlank_iff item.sku).1 v.sku,
        (append_if-nil _ _ _ _).1 ((not-IsBlank_iff item.product_id).1 v.product, none),
      ),
    ),
  ),
)

check_items-nil :
    (i : ℕ) (items : List CreateOrderItemRequest) (errs : List FieldError)
    → (check_items i items errs ≡ []) ↔ (All IsValidItem items × (errs ≡ []))
unfolding check_items
check_items-nil i [] errs = (λ h. (tt, h), λ h. h.1)
check_items-nil i (item ∷ items) errs =
    let (to, from) = check_items-nil (suc i) items (check_item i item errs) in
    let (to_item, from_item) = check_item-nil i item errs in
    (
      λ h. let (rest, one) = to h in let (good, none) = to_item one in ((good, rest), none),
      λ h. from (h.0.1, from_item (h.0.0, h.1)),
    )

is_empty_list_iff :
    (items : List CreateOrderItemRequest) → (is_empty_list items ≡ false) ↔ (items ≢ [])
unfolding is_empty_list
is_empty_list_iff [] = ground arith
is_empty_list_iff (x ∷ xs) = ground arith

not-IsCurrency_iff : (s : String) → (not (matches_currency_code s) ≡ false) ↔ IsCurrency (codes s)
unfolding matches_currency_code
not-IsCurrency_iff s = ground (arith, matches_codes_iff (codes s))

-- `ValidateCreateOrderRequest` reports no error exactly of a request with a key that is not blank, a
-- currency of three letters from A to Z and at least one item, where each item has a product and a SKU
-- that are not blank, a quantity above 0 and a price from 0.
pub validate_create_order_request-nil_iff :
    (req : CreateOrderRequest) → (validate_create_order_request req ≡ []) ↔ IsValidRequest req
unfolding validate_create_order_request
validate_create_order_request-nil_iff req = (
  λ h.
      let (items, a) = (check_items-nil 0 req.items _).0 h in
      let b = (append_if-nil _ _ _ _).0 a in
      let c = (append_if-nil _ _ _ _).0 b.1 in
      let d = (append_if-nil _ _ _ _).0 c.1 in
      record {
        key = (not-IsBlank_iff req.idempotency_key).0 d.0;
        currency = (not-IsCurrency_iff req.currency).0 c.0;
        some_item = (is_empty_list_iff req.items).0 b.0;
        each_item = items;
      },
  λ v. (check_items-nil 0 req.items _).1 (
    v.each_item,
    (append_if-nil _ _ _ _).1 (
      (is_empty_list_iff req.items).1 v.some_item,
      (append_if-nil _ _ _ _).1 (
        (not-IsCurrency_iff req.currency).1 v.currency,
        (append_if-nil _ _ _ _).1 ((not-IsBlank_iff req.idempotency_key).1 v.key, refl),
      ),
    ),
  ),
)
