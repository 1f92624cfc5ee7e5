-- ===== src/Orders/Book/Updates.antt =====
-- What an UPDATE does to the book.
use mathlib.Core.List.{Memᴰ}
use oms_go.Prelude.{
  ◌≡◌, sym, ap, ◌∙◌, subst, ◌⊎◌, Bool, Bool-cases, inl, inr, true, Option, some, String, List, ◌==◌,
  ==_iff,
}
use oms_go.Db.Models.{Uuid, Timestamp, Order}
use oms_go.Db.Tables.{Tables}
use oms_go.Db.Updates.{set_status, update_orders}
use oms_go.Db.Updates.Updated.{Updated}
use oms_go.Db.Keys.{DistinctIds, row_unique}
use oms_go.Orders.Errors.{OrderStatus}
use oms_go.Orders.StateMachine.{status_pending, status_processing}
use oms_go.Orders.Book.{Entry, entry_of, book_of, book, with_status, put, Moves, Processes}
use oms_go.Orders.Book.Entries.{Seen, nowhere, row, update_orders-Seen, book_of-row}

pub update-Processes :
    (p : Order → Bool) (now : Timestamp) (os : List Order)
    → ((o : Order) → Memᴰ o os → p o ≡ true → o.status ≡ status_pending)
    → Processes (book_of os) (book_of (update_orders p (set_status now status_processing) os))
update-Processes p now os pending = record {
  each = λ j. go j (update_orders-Seen p now status_processing j os);
}
  where
    go :
        (j : Uuid) {before after : Option Entry}
        → Seen p now status_processing j os before after
        → (after ≡ before)
          ⊎ ((e : Entry) × (before ≡ some e)
              × (e.status ≡ status_pending)
              × (after ≡ some (with_status status_processing e)))
    go j (nowhere e h) = inl (h ∙ sym e)
    go j (row x m i e h) = elim (Bool-cases (p x)) [
      | inl fits ↦ inr (entry_of x, e, pending x m fits, rw fits at h)
      | inr unfit ↦ inl (rw unfit at h ∙ sym e)
    ]

-- An UPDATE by id of the one order that fits.
module _ (p : Order → Bool) (now : Timestamp) (s : String) (t : Tables) {o : Order}
    {t' : Tables} where
  module _ (k : Uuid) (from : OrderStatus) (d : DistinctIds t.orders)
      (of_id : (x : Order) → p x ≡ true → x.id ≡ k)
      (at : (x : Order) → p x ≡ true → x.status ≡ from)
      (u : Updated p (set_status now s) t o t') where
    found : book_of t.orders k ≡ some (entry_of u.row)
    found =
        subst (λ j. book_of t.orders j ≡ some (entry_of u.row)) (of_id u.row u.fits)
          (book_of-row t.orders d u.there)

    -- The row at k is the one that fits.
    at_key : (x : Order) → Memᴰ x t.orders → x.id ≡ k → u.row ≡ x
    at_key x m e = row_unique t.orders d u.there m (of_id u.row u.fits ∙ sym e)

    moved_at :
        (j : Uuid) {after : Option Entry}
        → Seen p now s j t.orders (book_of t.orders j) after
        → after ≡ put k (with_status s (entry_of u.row)) (book_of t.orders) j
    unfolding put
    moved_at j (nowhere e h) = elim (Bool-cases (j == k)) [
      | inl same ↦ absurd (cc (found, e, ap (book_of t.orders) ((==_iff j k).0 same)))
      | inr other ↦ rw other (h ∙ sym e)
    ]
    moved_at j (row x m i e h) = elim (Bool-cases (p x)) [
      | inl fits ↦
          let same : j ≡ k = sym i ∙ of_id x fits in
          rw ((==_iff j k).1 same) (
            rw fits at h
            ∙ ap (λ (y : Order). some (entry_of (set_status now s y)))
                (sym (at_key x m (i ∙ same))))
      | inr unfit ↦ elim (Bool-cases (j == k)) [
        | inl same ↦ absurd (cc (u.fits, unfit, ap p (at_key x m (i ∙ (==_iff j k).0 same))))
        | inr other ↦ rw other (rw unfit at h ∙ sym e)
      ]
    ]

    pub Updated-Moves : Moves k (entry_of u.row) from s (book t) (book t')
    unfolding book
    Updated-Moves = record {
      there = found;
      at = at u.row u.fits;
      moved = λ j.
          rw (ap (λ (z : Tables). z.orders) u.changed)
            (moved_at j (update_orders-Seen p now s j t.orders));
    }
