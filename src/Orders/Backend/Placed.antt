-- ===== src/Orders/Backend/Placed.antt =====
-- internal/orders/service.go: an answer of `CreateOrder` without an error.
use oms_go.Prelude.{
  All, ℕ, suc, ◌≡◌, refl, sym, ap, ◌∙◌, Bool-cases, false, Option, none, some, inl, inr, String,
  List, [], ◌∷◌, map,
}
use oms_go.Prelude.Exec.{Result, ok, err, lift, >>=-eq-ok, handle-eq-ok}
use oms_go.Db.Models.{Uuid}
use oms_go.Db.Tables.{Tables, DbError}
use oms_go.Db.Checks.{has_idempotency_key}
use oms_go.Db.World.{World, new_uuid}
use oms_go.Orders.Errors.{Error, FieldError, idempotency_conflict, db}
use oms_go.Orders.StateMachine.{status_pending}
use oms_go.Orders.Money.{calculate_total_cents}
use oms_go.Orders.Validation.{CreateOrderItemRequest}
use oms_go.Orders.Validation.Rules.{IsValidRequest, validate_create_order_request-nil_iff}
use oms_go.Orders.Commands.{CreateOrderItemInput, CreateOrderResult}
use oms_go.Orders.Interface
use oms_go.Orders.Interface.{CreateOrderInput}
use oms_go.Orders.Repository.Placing.{
  onto, line_of_request, line_of_item, line_of_input, create_order-Stored, returned,
}
use oms_go.Orders.Service
use oms_go.Orders.Backend.{new_service}

pub record Placed (parse_uuid : String → Option Uuid) (input : CreateOrderInput) (w : World)
    (res : CreateOrderResult) (w' : World) : Type 0 where
  pub valid : IsValidRequest (record {
    idempotency_key = input.idempotency_key;
    currency = input.currency;
    items = input.items;
  })
  pub total : calculate_total_cents input.items ≡ ok res.order.total_cents
  pub of_customer : res.order.customer_id ≡ input.customer_id
  pub with_key : res.order.idempotency_key ≡ input.idempotency_key
  pub in_currency : res.order.currency ≡ input.currency
  pub pending : res.order.status ≡ status_pending
  pub lines : map line_of_item res.items ≡ map (line_of_request parse_uuid) input.items
  pub of_order : All (λ x. x.order_id ≡ res.order.id) res.items
  pub stored_items : w'.tables.order_items ≡ onto res.items w.tables.order_items
  pub first_use :
      has_idempotency_key input.customer_id input.idempotency_key w.tables.orders ≡ false
  pub stored : w'.tables.orders ≡ res.order ∷ w.tables.orders

lift-ok :
    {A : Type 0} (r : Result Error A) (w : World) {a : A} {w' : World}
    → lift r w ≡ (ok a, w')
    → (r ≡ ok a) × (w.tables ≡ w'.tables)
lift-ok {A} r w e =
    (ap (λ (r : Result Error A × World). r.0) e, ap (λ (r : Result Error A × World). r.1.tables) e)

invalid-ok :
    (es : List FieldError) (w : World) {w' : World}
    → Service.invalid es w ≡ (ok tt, w')
    → (es ≡ []) × (w.tables ≡ w'.tables)
unfolding Service.invalid
invalid-ok [] w e = (refl, (returned e).1)
invalid-ok (x ∷ es) w e = absurd (cc)

or_conflict-fails :
    {A : Type 0} (e : DbError) (w : World)
    → (x : Error) × ((Service.or_conflict {S = World} {A = A} e w).0 ≡ err x)
unfolding Service.or_conflict
or_conflict-fails e w = elim (Bool-cases (Service.is_idempotency_conflict_error e)) [
  | inl c ↦ (idempotency_conflict, rw c refl)
  | inr c ↦ (db e, rw c refl)
]

module _ (parse_uuid : String → Option Uuid) (service : Interface.Service World)
    (draws : (w : World) → (service.new_uuid w).1.tables ≡ w.tables) where
  draw-ok :
      (w : World) {u : Uuid} {w' : World}
      → Service.draw service w ≡ (ok u, w')
      → w.tables ≡ w'.tables
  unfolding Service.draw
  draw-ok w h = sym (draws w) ∙ (returned h).1

  parse_product-ok :
      (i : ℕ) (o : Option Uuid) (w : World) {u : Uuid} {w' : World}
      → Service.parse_product service parse_uuid i o w ≡ (ok u, w')
      → (o ≡ some u) × (w.tables ≡ w'.tables)
  unfolding Service.parse_product
  parse_product-ok i none w h = absurd (cc)
  parse_product-ok i (some id) w h = let (same, here) = returned h in (ap some same, here)

  -- The loop keeps the lines, and leaves the tables alone.
  command_items-ok :
      (i : ℕ) (items : List CreateOrderItemRequest) (w : World) {xs : List CreateOrderItemInput}
      {w' : World}
      → Service.command_items service parse_uuid i items w ≡ (ok xs, w')
      → (map line_of_input xs ≡ map (line_of_request parse_uuid) items) × (w.tables ≡ w'.tables)
  unfolding Service.command_items
  command_items-ok i [] w h =
      let (same, here) = returned h in (ap (map line_of_input) (sym same), here)
  command_items-ok i (item ∷ items) w h =
      let (p, w1, parsed, rest1) = >>=-eq-ok _ _ w h in
      let (u, w2, drawn, rest2) = >>=-eq-ok _ _ w1 rest1 in
      let (xs, w3, more, done) = >>=-eq-ok _ _ w2 rest2 in
      let (same, there) = returned done in
      let (product, before) = parse_product-ok i (parse_uuid item.product_id) w parsed in
      let (lines, here) = command_items-ok (suc i) items w2 more in
      (
        ap (map line_of_input) (sym same)
            ∙ (λ j. (sym product j, item.sku, item.quantity, item.unit_price_cents) ∷ lines j),
        before ∙ (draw-ok w1 drawn ∙ (here ∙ there)),
      )

module _ (parse_addr : String → Option String) (parse_uuid : String → Option Uuid) where
  new_uuid-tables :
      (w : World) → ((new_service parse_addr parse_uuid).new_uuid w).1.tables ≡ w.tables
  unfolding new_service new_uuid
  new_uuid-tables w = refl

  -- Where `CreateOrder` answers without an error, whatever may have failed: the request was valid, no
  -- order of the customer had its idempotency key, and one order was added, which is pending and has the
  -- customer, the key, the currency and the total of the request. To the rows of items, those of the order
  -- were added, with its id, and no other: one for each item of the request, in its order, with the product,
  -- the SKU, the quantity and the price. All other orders and items are still there.
  pub create_order-Placed :
      (input : CreateOrderInput) (w : World) {res : CreateOrderResult} {w' : World}
      → Service.create_order (new_service parse_addr parse_uuid) parse_uuid input w ≡ (ok res, w')
      → Placed parse_uuid input w res w'
  unfolding Service.create_order Service.reject_invalid new_service
  create_order-Placed input w {res = res} h =
      let (u, w1, checked, rest1) = >>=-eq-ok _ _ w h in
      let (no_errors, here1) = invalid-ok _ w checked in
      let (total_cents, w2, added, rest2) = >>=-eq-ok _ _ w1 rest1 in
      let (total, here2) = lift-ok _ w1 added in
      let (items, w3, looped, rest3) = >>=-eq-ok _ _ w2 rest2 in
      let (lines, here3) = command_items-ok parse_uuid _ new_uuid-tables 0 input.items w2 looped in
      let (order_id, w4, drawn, rest4) = >>=-eq-ok _ _ w3 rest3 in
      let here4 = draw-ok parse_uuid _ new_uuid-tables w3 drawn in
      let here : w.tables ≡ w4.tables = here1 ∙ (here2 ∙ (here3 ∙ here4)) in
      let s = create_order-Stored parse_addr _ w4 (handle-eq-ok _ _ w4 or_conflict-fails rest4) in
      record {
        valid = (validate_create_order_request-nil_iff _).0 no_errors;
        total = total ∙ ap ok (sym s.with_total);
        of_customer = s.of_customer;
        with_key = s.with_key;
        in_currency = s.in_currency;
        pending = s.pending;
        lines = s.lines ∙ lines;
        of_order = s.of_order;
        stored_items = s.stored_items ∙ λ i. onto res.items (sym here i).order_items;
        first_use =
            ap
              (λ (t : Tables). has_idempotency_key input.customer_id input.idempotency_key t.orders)
              here
            ∙ s.first_use;
        stored = s.stored ∙ λ i. res.order ∷ (sym here i).orders;
      }
