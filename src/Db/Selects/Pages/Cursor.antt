-- ===== src/Db/Selects/Pages/Cursor.antt =====
-- internal/db/orders.sql.go: `ListOrdersByCustomerID`, page after page.
use oms_go.Prelude.{
  ℕ, zero, suc, ◌+◌, ◌≡◌, refl, sym, ap, subst, ◌∙◌, Bool, true, Option, none, some, List, [], ◌∷◌,
  ◌++◌, length, All, ◌==◌, arith,
}
use oms_go.Prelude.Exec.{ok}
use oms_go.Prelude.Int.{pos}
use oms_go.Prelude.Sort.{where_rows, order_by, take}
use oms_go.Prelude.Sort.Order.{Sorted, order_by-Sorted, order_by-where, where-and, where-All}
use oms_go.Db.Models.{Uuid, Timestamp, Order}
use oms_go.Db.Tables.{Tables, Statement, Reply}
use oms_go.Db.Keys.{DistinctIds}
use oms_go.Db.Selects.{limited, newest_orders, list_orders_by_customer_id}
use oms_go.Db.Selects.Pages.{
  newest-TotalOrder, DistinctIds-where, DistinctIds-order_by, past, past-split,
}

take-split :
    (pre : List Order) (c : Order) (os : List Order)
    → take (suc (length pre)) os ≡ pre ++ c ∷ []
    → (post : List Order) × (os ≡ pre ++ c ∷ post)
unfolding take
take-split [] c [] h = absurd (cc)
take-split [] c (x ∷ os) h = (os, let same : x ≡ c = cc in ap (λ y. y ∷ os) same)
take-split (y ∷ pre) c [] h = absurd (cc)
take-split (y ∷ pre) c (x ∷ os) h =
    let same : x ≡ y = cc in
    let tails : take (suc (length pre)) os ≡ pre ++ c ∷ [] = cc in
    let (post, e) = take-split pre c os tails in (post, λ i. same i ∷ e i)

take-more :
    (pre : List Order) (c : Order) (post : List Order) (m n : ℕ)
    → n ≡ length pre + m
    → take (suc n) (pre ++ c ∷ post) ≡ pre ++ c ∷ take m post
unfolding take
take-more [] c post m n e = ap (λ k. c ∷ take k post) (omega arith)
take-more (x ∷ pre) c post m zero e = absurd (omega arith)
take-more (x ∷ pre) c post m (suc n) e = ap (λ os. x ∷ os) (take-more pre c post m n (omega arith))

-- All rows of a customer, newest first.
listing : Uuid → Tables → List Order
listing customer_id t =
    order_by newest_orders (where_rows (λ o. o.customer_id == customer_id) t.orders)

listing-Sorted : (customer_id : Uuid) (t : Tables) → Sorted newest_orders (listing customer_id t)
unfolding listing
listing-Sorted customer_id t = order_by-Sorted newest_orders newest-TotalOrder _

listing-DistinctIds :
    (customer_id : Uuid) (t : Tables) → DistinctIds t.orders → DistinctIds (listing customer_id t)
unfolding listing
listing-DistinctIds customer_id t d =
    DistinctIds-order_by newest_orders _ (DistinctIds-where _ t.orders d)

abbrev pub page : Uuid → ℕ → Option Timestamp → Option Uuid → Statement (List Order)
page customer_id limit cursor_created_at cursor_id = list_orders_by_customer_id (record {
  customer_id = customer_id;
  limit = pos limit;
  cursor_created_at = cursor_created_at;
  cursor_id = cursor_id;
})

All-true : {A : Type 0} (xs : List A) → All (λ x. ◌≡◌ {A = Bool} true true) xs
All-true [] = tt
All-true (x ∷ xs) = (refl, All-true xs)

page-first :
    (customer_id : Uuid) (n : ℕ) (t : Tables)
    → page customer_id n none none t ≡ (ok (take n (listing customer_id t)), t)
unfolding list_orders_by_customer_id limited listing
page-first customer_id n t =
    ap (λ os. (ok (take n (order_by newest_orders os)), t))
      (where-and (λ o. o.customer_id == customer_id) (λ o. true) t.orders
        ∙ where-All (λ o. true) _ (All-true _))

page-next :
    (customer_id : Uuid) (n : ℕ) (c : Order) (t : Tables)
    → page customer_id n (some c.created_at) (some c.id) t
      ≡ (ok (take n (where_rows (past c) (listing customer_id t))), t)
unfolding list_orders_by_customer_id limited listing
page-next customer_id n c t =
    ap (λ os. (ok (take n os), t))
      (ap (order_by newest_orders) (where-and (λ o. o.customer_id == customer_id) (past c) t.orders)
        ∙ order_by-where newest_orders newest-TotalOrder (past c) _)

-- In a table with distinct ids, where a page is full: the page that the cursor of its last row asks for
-- answers with the rows that follow, so that the two together are the page of both lengths.
pub list_orders_by_customer_id-continues :
    (customer_id : Uuid) (m : ℕ) (t : Tables) (pre : List Order) (c : Order)
    → DistinctIds t.orders
    → page customer_id (suc (length pre)) none none t ≡ (ok (pre ++ c ∷ []), t)
    → (rest : List Order) × (page customer_id m (some c.created_at) (some c.id) t ≡ (ok rest, t))
      × (page customer_id (suc (length pre + m)) none none t ≡ (ok (pre ++ c ∷ rest), t))
list_orders_by_customer_id-continues customer_id m t pre c d h =
    go (take-split pre c (listing customer_id t) first)
  where
    first : take (suc (length pre)) (listing customer_id t) ≡ pre ++ c ∷ []
    first =
        let same =
          ap (λ (r : Reply (List Order) × Tables). r.0)
            (sym (page-first customer_id (suc (length pre)) t) ∙ h) in
        cc

    go :
        (post : List Order) × (listing customer_id t ≡ pre ++ c ∷ post)
        → (rest : List Order) × (page customer_id m (some c.created_at) (some c.id) t
            ≡ (ok rest, t))
          × (page customer_id (suc (length pre + m)) none none t ≡ (ok (pre ++ c ∷ rest), t))
    go (post, e) = (
      take m post,
      page-next customer_id m c t
          ∙ ap (λ os. (ok (take m os), t))
              (ap (where_rows (past c)) e
                ∙ past-split c pre post
                    (subst (Sorted newest_orders) e (listing-Sorted customer_id t))
                    (subst DistinctIds e (listing-DistinctIds customer_id t d))),
      page-first customer_id (suc (length pre + m)) t
          ∙ ap (λ os. (ok os, t))
              (ap (take (suc (length pre + m))) e ∙ take-more pre c post m (length pre + m) refl),
    )

-- The rows of any filter: where the page of one length ends with a row, the rows past it continue it.
pub page-continues :
    (p : Order → Bool) (os : List Order) (m : ℕ) (pre : List Order) (c : Order)
    → DistinctIds os
    → take (suc (length pre)) (order_by newest_orders (where_rows p os)) ≡ pre ++ c ∷ []
    → take (suc (length pre + m)) (order_by newest_orders (where_rows p os))
      ≡ pre ++ c ∷ take m (order_by newest_orders (where_rows (past c) (where_rows p os)))
page-continues p os m pre c d h =
    let (post, e) = take-split pre c rows h in
    let past_it : order_by newest_orders (where_rows (past c) (where_rows p os)) ≡ post =
      order_by-where newest_orders newest-TotalOrder (past c) (where_rows p os)
      ∙ (ap (where_rows (past c)) e
          ∙ past-split c pre post
              (subst (Sorted newest_orders) e (order_by-Sorted newest_orders newest-TotalOrder _))
              (subst DistinctIds e
                (DistinctIds-order_by newest_orders _ (DistinctIds-where p os d)))) in
    ap (take (suc (length pre + m))) e
    ∙ (take-more pre c post m (length pre + m) refl ∙ ap (λ l. pre ++ c ∷ take m l) (sym past_it))
  where
    rows : List Order
    rows = order_by newest_orders (where_rows p os)
