-- ===== src/Orders/Handler/Shows.antt =====
-- internal/orders/handler.go: what a client reads in an answer, against the rows that it stands for.
use oms_go.Prelude.{
  ◌≡◌, ◌≢◌, refl, sym, ap, Bool-cases, inl, inr, Option, none, some, String, List, [], ◌∷◌, ◌++◌,
  map, length, ◌==◌, ==_iff, arith,
}
use oms_go.Prelude.Int.{ℤ, pos, negsuc, ◌≤ℤ◌}
use oms_go.Db.Models.{OrderItem}
use oms_go.Orders.Interface.{OrderDetails}
use oms_go.Orders.Handler.{
  Texts, OrderItemResponse, OrderResponse, map_item_response, map_order_response,
}
use oms_go.Orders.Handler.Cursor.{encode_cursor}
use oms_go.Orders.Handler.Endpoints.{last, cursor_of, list_response}

-- The same length, and each with the one at its place.
abbrev pub Pairwise : {A B : Type 0} → (A → B → Type 0) → List A → List B → Type 0
Pairwise R [] [] = Unit
Pairwise R (a ∷ as') (b ∷ bs) = R a b × Pairwise R as' bs
Pairwise R _ _ = ⊥

module _ (texts : Texts) where
  pub record ShowsItem (shown : OrderItemResponse) (item : OrderItem) : Type 0 where
    pub product_id : shown.product_id ≡ texts.format_uuid item.product_id
    pub sku : shown.sku ≡ item.sku
    pub quantity : shown.quantity ≡ item.quantity
    pub unit_price_cents : shown.unit_price_cents ≡ item.unit_price_cents

  pub record Shows (shown : OrderResponse) (d : OrderDetails) : Type 0 where
    pub id : shown.id ≡ texts.format_uuid d.order.id
    pub customer_id : shown.customer_id ≡ texts.format_uuid d.order.customer_id
    pub status : shown.status ≡ d.order.status
    pub currency : shown.currency ≡ d.order.currency
    pub total_cents : shown.total_cents ≡ d.order.total_cents
    pub created_at : shown.created_at ≡ d.order.created_at
    pub updated_at : shown.updated_at ≡ d.order.updated_at
    pub items : Pairwise ShowsItem shown.items d.items

  -- A full page has the cursor of its last order, any other has none.
  pub data Continues (limit : ℤ) (listed : List OrderDetails) : Option String → Type 0 where
    full_page :
        (before : List OrderDetails) (d : OrderDetails)
        → listed ≡ before ++ d ∷ []
        → limit ≡ pos (length listed)
        → Continues limit listed (some (encode_cursor texts d.order.created_at d.order.id))
    last_page : limit ≢ pos (length listed) → Continues limit listed none

  items-Pairwise :
      (items : List OrderItem) → Pairwise ShowsItem (map (map_item_response texts) items) items
  unfolding map_item_response
  items-Pairwise [] = tt
  items-Pairwise (x ∷ items) = (
    record { product_id = refl; sku = refl; quantity = refl; unit_price_cents = refl },
    items-Pairwise items,
  )

  pub map_order_response-Shows : (d : OrderDetails) → Shows (map_order_response texts d) d
  unfolding map_order_response
  map_order_response-Shows d = record {
    id = refl;
    customer_id = refl;
    status = refl;
    currency = refl;
    total_cents = refl;
    created_at = refl;
    updated_at = refl;
    items = items-Pairwise d.items;
  }

  orders-Pairwise : (ds : List OrderDetails) → Pairwise Shows (map (map_order_response texts) ds) ds
  orders-Pairwise [] = tt
  orders-Pairwise (d ∷ ds) = (map_order_response-Shows d, orders-Pairwise ds)

  pub list_response-Pairwise :
      (limit : ℤ) (ds : List OrderDetails) → Pairwise Shows (list_response texts limit ds).orders ds
  unfolding list_response
  list_response-Pairwise limit ds = orders-Pairwise ds

  last-split :
      (d : OrderDetails) (ds : List OrderDetails)
      → (before : List OrderDetails) × (e : OrderDetails) × (d ∷ ds ≡ before ++ e ∷ [])
        × (last (d ∷ ds) ≡ some e)
  last-split d [] = ([], d, refl, refl)
  last-split d (e ∷ ds) =
      let (before, x, split, ends) = last-split e ds in
      (d ∷ before, x, ap (λ xs. d ∷ xs) split, ends)

  pub list_response-Continues :
      (limit : ℤ) (ds : List OrderDetails)
      → pos 1 ≤ℤ limit
      → Continues limit ds (list_response texts limit ds).next_cursor
  unfolding list_response cursor_of
  list_response-Continues (negsuc n) ds h = last_page (λ e. cc)
  list_response-Continues (pos n) [] h = elim (Bool-cases (0 == n)) [
    | inl e ↦ absurd (ground (arith, (==_iff 0 n).0 e))
    | inr f ↦ rw f (last_page (λ e. ground arith))
  ]
  list_response-Continues (pos n) (d ∷ ds) h = elim (Bool-cases (length (d ∷ ds) == n)) [
    | inl e ↦
        let (before, x, split, ends) = last-split d ds in
        rw (e, ends) (full_page before x split (ap pos (sym ((==_iff (length (d ∷ ds)) n).0 e))))
    | inr f ↦ rw f (last_page (λ e. ground arith))
  ]
