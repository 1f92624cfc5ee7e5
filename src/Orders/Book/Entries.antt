-- ===== src/Orders/Book/Entries.antt =====
-- What INSERT and UPDATE do to the book.
use mathlib.Core.List.{Memᴰ}
use oms_go.Prelude.{
  ◌≡◌, inl, inr, refl, sym, ap, ◌∙◌, subst, Bool, Bool-cases, false, Option, none, some, String,
  List, [], ◌∷◌, ◌==◌, ==_iff, eq_iff, arith, if◌then◌else◌,
}
use oms_go.Db.Models.{Uuid, Timestamp, Order}
use oms_go.Db.Checks.{has_order, has_idempotency_key}
use oms_go.Db.Keys.{DistinctIds, apart}
use oms_go.Db.Updates.{set_status, update_orders}
use oms_go.Orders.Book.{Entry, entry_of, book_of, put, Places}

-- What the book has at k, before and after an UPDATE.
pub data Seen (p : Order → Bool) (now : Timestamp) (s : String) (k : Uuid) (os : List Order)
    (before after : Option Entry) : Type 0 where
  nowhere : before ≡ none → after ≡ none → Seen p now s k os before after
  row :
      (o : Order)
      → Memᴰ o os
      → o.id ≡ k
      → before ≡ some (entry_of o)
      → after ≡ some (entry_of (if p o then set_status now s o else o))
      → Seen p now s k os before after

module _ (p : Order → Bool) (now : Timestamp) (s : String) (k : Uuid) where
  further :
      (o : Order) (os : List Order) {before after : Option Entry}
      → Seen p now s k os before after
      → Seen p now s k (o ∷ os) before after
  further o os (nowhere e h) = nowhere e h
  further o os (row x m i e h) = row x (Memᴰ.tail m) i e h

  kept_id : (o : Order) → (if p o then set_status now s o else o).id ≡ o.id
  kept_id o = ground arith

  pub update_orders-Seen :
      (os : List Order)
      → Seen p now s k os (book_of os k) (book_of (update_orders p (set_status now s) os) k)
  unfolding book_of update_orders
  update_orders-Seen [] = nowhere refl refl
  update_orders-Seen (o ∷ os) = elim (Bool-cases (o.id == k)) [
    | inl same ↦
        row o (Memᴰ.head refl) ((==_iff o.id k).0 same) (rw same refl) (rw (kept_id o, same) refl)
    | inr other ↦ rw (kept_id o, other) (further o os (update_orders-Seen os))
  ]

pub book_of-found :
    (os : List Order) (k : Uuid) {e : Entry}
    → book_of os k ≡ some e
    → (o : Order) × Memᴰ o os × (o.id ≡ k) × (e ≡ entry_of o)
unfolding book_of
book_of-found [] k h = absurd (cc)
book_of-found (o ∷ os) k {e} h = elim (Bool-cases (o.id == k)) [
  | inl same ↦ (o, Memᴰ.head refl, (==_iff o.id k).0 same, this (rw same at h))
  | inr other ↦ let (x, m, i, q) = book_of-found os k (rw other at h) in (x, Memᴰ.tail m, i, q)
]
  where
    this : ◌≡◌ {A = Option Entry} (some (entry_of o)) (some e) → e ≡ entry_of o
    this q = cc

pub book_of-absent : (os : List Order) (k : Uuid) → has_order k os ≡ false → book_of os k ≡ none
unfolding book_of has_order
book_of-absent [] k h = refl
book_of-absent (o ∷ os) k h = ground (arith, book_of-absent os k)

pub new_key :
    (os : List Order) (c : Uuid) (key : String) {o : Order}
    → has_idempotency_key c key os ≡ false
    → Memᴰ o os
    → o.customer_id ≡ c
    → ¬ (o.idempotency_key ≡ key)
unfolding has_idempotency_key
new_key [] c key h m i q = elim m [ ]
new_key (x ∷ os) c key {o} h (Memᴰ.head e) i q = absurd (
    ground (
      arith,
      e,
      eq_iff x.idempotency_key key,
      ap (λ (y : Order). y.customer_id) e,
      ap (λ (y : Order). y.idempotency_key) e,
    ))
new_key (x ∷ os) c key h (Memᴰ.tail m) i q = new_key os c key (ground arith) m i q

pub book_of-row :
    (os : List Order) {o : Order} → DistinctIds os → Memᴰ o os → book_of os o.id ≡ some (entry_of o)
unfolding book_of
book_of-row [] d m = elim m [ ]
book_of-row (x ∷ os) d (Memᴰ.head e) =
    subst (λ (z : Order). book_of (x ∷ os) z.id ≡ some (entry_of z)) (sym e)
      (rw ((==_iff x.id x.id).1 refl) refl)
book_of-row (x ∷ os) {o} d (Memᴰ.tail n) = elim (Bool-cases (x.id == o.id)) [
  | inl same ↦ absurd (apart os d.0 n ((==_iff x.id o.id).0 same))
  | inr other ↦ rw other (book_of-row os d.1 n)
]

pub book_of-insert :
    (o : Order) (os : List Order) (j : Uuid)
    → book_of (o ∷ os) j ≡ put o.id (entry_of o) (book_of os) j
unfolding book_of put
book_of-insert o os j = ground arith

-- A row with a new id and a key that its customer has not used.
pub inserted-Places :
    (o : Order) (os : List Order)
    → has_order o.id os ≡ false
    → has_idempotency_key o.customer_id o.idempotency_key os ≡ false
    → Places (entry_of o) (book_of os) (book_of (o ∷ os))
inserted-Places o os fresh unused_key = record {
  id = o.id;
  unused = book_of-absent os o.id fresh;
  new_key = λ j x h c q.
      let (y, m, i, e) = book_of-found os j h in
      new_key os o.customer_id o.idempotency_key unused_key m
        (sym (ap (λ (z : Entry). z.customer_id) e) ∙ c)
        (sym (ap (λ (z : Entry). z.idempotency_key) e) ∙ q);
  placed = book_of-insert o os;
}
