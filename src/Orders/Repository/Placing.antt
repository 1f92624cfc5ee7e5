-- ===== src/Orders/Repository/Placing.antt =====
-- What the transaction that creates an order has stored where it succeeds.
use oms_go.Prelude.{
  All, some, subst, refl, ◌≡◌, sym, ap, ◌∙◌, false, Option, String, List, [], ◌∷◌, map,
}
use oms_go.Prelude.Exec.{Result, ok, >>=-eq-ok}
use oms_go.Prelude.Int.{ℤ}
use oms_go.Db.Models.{Uuid, Order, OrderItem}
use oms_go.Db.Tables.{Tables}
use oms_go.Db.Checks.{has_idempotency_key}
use oms_go.Db.Inserts.Inserted.{create_order-ok, create_order-fresh_key, create_order_item-ok}
use oms_go.Db.World.{World}
use oms_go.Db.World.Answers.{run_query-ok}
use oms_go.Orders.StateMachine.{status_pending}
use oms_go.Orders.Validation.{CreateOrderItemRequest}
use oms_go.Orders.Commands.{CreateOrderItemInput, CreateOrderCommand, CreateOrderResult}
use oms_go.Orders.Transaction.{begin_tx}
use oms_go.Orders.Transaction.Laws.{with_tx-ok}
use oms_go.Orders.Repository.{create_items, create_order_body, create_order_with_items_and_audit}
use oms_go.Orders.Repository.Bodies.{create_items-OnlyItems, record_event-ok}

-- What was asked of a line: the product, the SKU, the quantity and the price.
abbrev pub Line : Type 0
Line = Option Uuid × String × ℤ × ℤ

abbrev pub line_of_request : (String → Option Uuid) → CreateOrderItemRequest → Line
line_of_request parse_uuid x = (parse_uuid x.product_id, x.sku, x.quantity, x.unit_price_cents)

abbrev pub line_of_item : OrderItem → Line
line_of_item x = (some x.product_id, x.sku, x.quantity, x.unit_price_cents)

abbrev pub line_of_input : CreateOrderItemInput → Line
line_of_input x = (some x.product_id, x.sku, x.quantity, x.unit_price_cents)

-- A table to which rows were added one after the other, the last one first.
abbrev pub onto : {A : Type 0} → List A → List A → List A
onto [] ys = ys
onto (x ∷ xs) ys = onto xs (x ∷ ys)

pub record Stored (cmd : CreateOrderCommand) (w : World) (res : CreateOrderResult) (w' : World)
    : Type 0 where
  pub of_customer : res.order.customer_id ≡ cmd.customer_id
  pub with_key : res.order.idempotency_key ≡ cmd.idempotency_key
  pub with_total : res.order.total_cents ≡ cmd.total_cents
  pub in_currency : res.order.currency ≡ cmd.currency
  pub pending : res.order.status ≡ status_pending
  pub lines : map line_of_item res.items ≡ map line_of_input cmd.items
  pub of_order : All (λ x. x.order_id ≡ res.order.id) res.items
  pub stored_items : w'.tables.order_items ≡ onto res.items w.tables.order_items
  pub first_use : has_idempotency_key cmd.customer_id cmd.idempotency_key w.tables.orders ≡ false
  pub stored : w'.tables.orders ≡ res.order ∷ w.tables.orders

pub returned :
    {E A : Type 0} {a b : A} {w w' : World}
    → ◌≡◌ {A = Result E A × World} (ok a, w) (ok b, w')
    → (a ≡ b) × (w.tables ≡ w'.tables)
returned {E} {A} e = (
  let same = ap (λ (r : Result E A × World). r.0) e in cc,
  ap (λ (r : Result E A × World). r.1.tables) e,
)

-- What the items' loop stores: the lines as they are, for the order, and nothing is lost.
record Lines (order_id : Uuid) (items : List CreateOrderItemInput) (xs : List OrderItem)
    (w w' : World) : Type 0 where
  same : map line_of_item xs ≡ map line_of_input items
  of_order : All (λ x. x.order_id ≡ order_id) xs
  rows : w'.tables.order_items ≡ onto xs w.tables.order_items

create_items-Lines :
    (order_id : Uuid) (items : List CreateOrderItemInput) (w : World) {xs : List OrderItem}
    {w' : World}
    → create_items order_id items w ≡ (ok xs, w')
    → Lines order_id items xs w w'
unfolding create_items
create_items-Lines order_id [] w {w' = w'} h =
    let (none, here) = returned h in
    subst (λ xs. Lines order_id [] xs w w') none
      (record { same = refl; of_order = tt; rows = ap (λ (t : Tables). t.order_items) (sym here) })
create_items-Lines order_id (item ∷ items) w {w' = w'} h =
    let (x, w1, first, rest) = >>=-eq-ok _ _ w h in
    let (ys, w2, more, done) = >>=-eq-ok _ _ w1 rest in
    let (row, inserted) = create_order_item-ok _ _ _ (run_query-ok _ w first) in
    let later = create_items-Lines order_id items w1 more in
    let (all, here) = returned done in
    subst (λ xs. Lines order_id (item ∷ items) xs w w') all
      (record {
        same = λ i. line_of_item (row i) ∷ later.same i;
        of_order = (ap (λ (x : OrderItem). x.order_id) row, later.of_order);
        rows =
            ap (λ (t : Tables). t.order_items) (sym here)
            ∙ (later.rows
                ∙ (ap (λ (t : Tables). onto ys t.order_items) inserted ∙ λ i.
                    onto ys (sym row i ∷ w.tables.order_items)));
      })

module _ (parse_addr : String → Option String) (cmd : CreateOrderCommand) where
  body-Stored :
      (w : World) {res : CreateOrderResult} {w' : World}
      → create_order_body parse_addr cmd w ≡ (ok res, w')
      → Stored cmd w res w'
  unfolding create_order_body
  body-Stored w {res} {w'} h =
      let (o, w1, made, rest1) = >>=-eq-ok _ _ w h in
      let (fresh, row, inserted) = create_order-ok _ _ _ (run_query-ok _ w made) in
      let unused = create_order-fresh_key _ _ _ (run_query-ok _ w made) in
      let (xs, w2, items, rest2) = >>=-eq-ok _ _ w1 rest1 in
      let l = create_items-Lines o.id cmd.items w1 items in
      let only = create_items-OnlyItems o.id cmd.items w1 items in
      let (e, w3, event, done) = >>=-eq-ok _ _ w2 rest2 in
      let r = record_event-ok parse_addr o.id _ _ _ _ _ _ _ w2 event in
      let (same, here) = returned done in
      let order : res.order ≡ o = ap (λ (x : CreateOrderResult). x.order) (sym same) in
      record {
        of_customer = ap (λ (x : Order). x.customer_id) (order ∙ row);
        with_key = ap (λ (x : Order). x.idempotency_key) (order ∙ row);
        with_total = ap (λ (x : Order). x.total_cents) (order ∙ row);
        in_currency = ap (λ (x : Order). x.currency) (order ∙ row);
        pending = ap (λ (x : Order). x.status) (order ∙ row);
        lines = ap (λ (x : CreateOrderResult). map line_of_item x.items) (sym same) ∙ l.same;
        of_order =
            subst (λ (x : CreateOrderResult). All (λ y. y.order_id ≡ x.order.id) x.items) same
              l.of_order;
        stored_items =
            ap (λ (t : Tables). t.order_items) (sym here ∙ r.added)
            ∙ (l.rows
                ∙ ((λ i. onto xs (inserted i).order_items) ∙ λ i.
                    onto (same i).items w.tables.order_items));
        first_use = unused;
        stored =
            ap (λ (t : Tables). t.orders) (sym here ∙ r.added)
            ∙ (only.same_orders
                ∙ (ap (λ (t : Tables). t.orders) inserted ∙ λ i.
                    sym (order ∙ row) i ∷ w.tables.orders));
      }

  pub create_order-Stored :
      (w : World) {res : CreateOrderResult} {w' : World}
      → create_order_with_items_and_audit parse_addr cmd w ≡ (ok res, w')
      → Stored cmd w res w'
  unfolding create_order_with_items_and_audit
  create_order-Stored w h =
      let (w1, done, same) = with_tx-ok (create_order_body parse_addr cmd) w h in
      let s = body-Stored (begin_tx w) done in
      record {
        of_customer = s.of_customer;
        with_key = s.with_key;
        with_total = s.with_total;
        in_currency = s.in_currency;
        pending = s.pending;
        lines = s.lines;
        of_order = s.of_order;
        stored_items = ap (λ (t : Tables). t.order_items) same ∙ s.stored_items;
        first_use = s.first_use;
        stored = ap (λ (t : Tables). t.orders) same ∙ s.stored;
      }
