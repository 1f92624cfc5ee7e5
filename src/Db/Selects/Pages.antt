-- ===== src/Db/Selects/Pages.antt =====
-- internal/db/orders.sql.go: the rows on either side of a cursor.
pub mod Cursor
use oms_go.Prelude.{
  ℕ, suc, ◌+◌, ◌≡◌, ◌≢◌, refl, sym, ap, ◌∙◌, subst, Bool, true, false, ◌&&◌, Option, none, some,
  List, [], ◌∷◌, ◌++◌, length, All, ◌==◌, ltb, leb, arith, Bool-cases, inl, inr, if◌then◌else◌,
}
use oms_go.Prelude.Exec.{ok}
use oms_go.Prelude.Int.{pos}
use oms_go.Prelude.Sort.{where_rows, insert_row, order_by, take}
use oms_go.Prelude.Sort.Order.{
  TotalOrder, Below, Sorted, order_by-Sorted, order_by-where, Sorted-split, where-and, where-none,
  where-All,
}
use oms_go.Db.Models.{Uuid, Timestamp, Order}
use oms_go.Db.Tables.{Tables, Statement}
use oms_go.Db.Checks.{has_order}
use oms_go.Db.Keys.{DistinctIds, not-head, cons_fresh}
use oms_go.Db.Selects.{
  limited, past_cursor, newest_orders, ListOrdersByCustomerIdParams, list_orders_by_customer_id,
}

pub newest-TotalOrder : TotalOrder newest_orders
newest-TotalOrder = record { either = λ a b h. ground arith; trans = λ a b c h k. ground arith }

has_order-where-false :
    (p : Order → Bool) (i : Uuid) (os : List Order)
    → has_order i os ≡ false
    → has_order i (where_rows p os) ≡ false
unfolding has_order where_rows
has_order-where-false p i [] h = refl
has_order-where-false p i (o ∷ os) h = ground (arith, has_order-where-false p i os)

pub DistinctIds-where :
    (p : Order → Bool) (os : List Order) → DistinctIds os → DistinctIds (where_rows p os)
unfolding where_rows
DistinctIds-where p [] d = tt
DistinctIds-where p (o ∷ os) d =
    ground (arith, has_order-where-false p o.id os, DistinctIds-where p os d.1)

has_order-insert :
    (le : Order → Order → Bool) (i : Uuid) (o : Order) (os : List Order)
    → has_order i (insert_row le o os) ≡ has_order i (o ∷ os)
unfolding has_order insert_row
has_order-insert le i o [] = refl
has_order-insert le i o (x ∷ os) = ground (arith, has_order-insert le i o os)

has_order-order_by :
    (le : Order → Order → Bool) (i : Uuid) (os : List Order)
    → has_order i (order_by le os) ≡ has_order i os
unfolding has_order order_by
has_order-order_by le i [] = refl
has_order-order_by le i (o ∷ os) =
    has_order-insert le i o (order_by le os) ∙ ground (arith, has_order-order_by le i os)

DistinctIds-insert :
    (le : Order → Order → Bool) (o : Order) (os : List Order)
    → has_order o.id os ≡ false
    → DistinctIds os
    → DistinctIds (insert_row le o os)
unfolding insert_row
DistinctIds-insert le o [] h d = (h, tt)
DistinctIds-insert le o (x ∷ os) h d = elim (Bool-cases (le o x)) [
  | inl here ↦ rw here (h, d)
  | inr later ↦
      let (other, fresh) = not-head o.id x os h in
      rw later (
        has_order-insert le x.id o os ∙ cons_fresh x.id o os (λ e. other (sym e)) d.0,
        DistinctIds-insert le o os fresh d.1,
      )
]

pub DistinctIds-order_by :
    (le : Order → Order → Bool) (os : List Order) → DistinctIds os → DistinctIds (order_by le os)
unfolding order_by
DistinctIds-order_by le [] d = tt
DistinctIds-order_by le (o ∷ os) d =
    DistinctIds-insert le o (order_by le os) (has_order-order_by le o.id os ∙ d.0)
      (DistinctIds-order_by le os d.1)

DistinctIds-split :
    (pre : List Order) (c : Order) (post : List Order)
    → DistinctIds (pre ++ c ∷ post)
    → has_order c.id post ≡ false
DistinctIds-split [] c post d = d.0
DistinctIds-split (x ∷ pre) c post d = DistinctIds-split pre c post d.1

-- The cursor of a row leaves out what stands before it and the row itself, and keeps the rest.
module _ (c : Order) where
  abbrev pub past : Order → Bool
  past = past_cursor (some c.created_at) (some c.id)

  past-before :
      (os : List Order) → All (λ b. newest_orders b c ≡ true) os → All (λ b. past b ≡ false) os
  past-before [] a = tt
  past-before (o ∷ os) a = (ground arith, past-before os a.1)

  past_self : past c ≡ false
  past_self = ground arith

  past-after :
      (os : List Order)
      → Below newest_orders c os
      → has_order c.id os ≡ false
      → All (λ b. past b ≡ true) os
  unfolding has_order
  past-after [] a h = tt
  past-after (o ∷ os) a h = (ground arith, past-after os a.1 (ground arith))

  pub past-split :
      (pre post : List Order)
      → Sorted newest_orders (pre ++ c ∷ post)
      → DistinctIds (pre ++ c ∷ post)
      → where_rows past (pre ++ c ∷ post) ≡ post
  past-split pre post s d =
      let (before, after) = Sorted-split newest_orders newest-TotalOrder pre c post s in
      where-none past pre (c ∷ post) (past-before pre before)
      ∙ (where-none past (c ∷ []) post (past_self, tt)
          ∙ where-All past post (past-after post after (DistinctIds-split pre c post d)))
