-- ===== src/Db/Keys.antt =====
-- The primary key of orders: what the UPDATE statements leave of it, and the rows they touch.
use mathlib.Core.List.{Memᴰ}
use oms_go.Prelude.{
  ◌≡◌, refl, sym, ap, ◌∙◌, Bool, true, false, List, [], ◌∷◌, String, ◌≢◌, ◌==◌, ==_iff,
  if◌then◌else◌, arith, Bool-cases, inl, inr,
}
use oms_go.Prelude.Sort.{where_rows}
use oms_go.Prelude.Sort.Mem.{mem-map, map-mem, mem-where_rows, where_rows-mem}
use oms_go.Db.Models.{Uuid, Timestamp, Order}
use oms_go.Db.Checks.{has_order}
use oms_go.Db.Updates.{set_status, update_orders, returning}

abbrev pub DistinctIds : List Order → Type 0
DistinctIds [] = Unit
DistinctIds (o ∷ os) = (has_order o.id os ≡ false) × DistinctIds os

pub has_order_of_mem : {o : Order} (os : List Order) → Memᴰ o os → has_order o.id os ≡ true
unfolding has_order
has_order_of_mem [] m = elim m [ ]
has_order_of_mem {o} (x ∷ os) (Memᴰ.head e) = ground (arith, ap (λ (y : Order). y.id) e)
has_order_of_mem {o} (x ∷ os) (Memᴰ.tail m) = ground (arith, has_order_of_mem os m)

pub has_order-cons :
    (i : Uuid) (o : Order) (os : List Order) → has_order i os ≡ true → has_order i (o ∷ os) ≡ true
unfolding has_order
has_order-cons i o os h = ground arith

pub not-head :
    (i : Uuid) (o : Order) (os : List Order)
    → has_order i (o ∷ os) ≡ false
    → (o.id ≢ i) × (has_order i os ≡ false)
unfolding has_order
not-head i o os h = (λ e. ground arith, ground arith)

pub cons_fresh :
    (i : Uuid) (o : Order) (os : List Order)
    → o.id ≢ i
    → has_order i os ≡ false
    → has_order i (o ∷ os) ≡ false
unfolding has_order
cons_fresh i o os n h = ground arith

pub mem_of_has_order :
    (i : Uuid) (os : List Order) → has_order i os ≡ true → (o : Order) × Memᴰ o os × (o.id ≡ i)
unfolding has_order
mem_of_has_order i [] h = cc
mem_of_has_order i (x ∷ os) h = elim (Bool-cases (x.id == i)) [
  | inl same ↦ (x, Memᴰ.head refl, (==_iff x.id i).0 same)
  | inr other ↦ let (o, m, e) = mem_of_has_order i os (rw other at h) in (o, Memᴰ.tail m, e)
]

pub apart : {i : Uuid} {b : Order} (os : List Order) → has_order i os ≡ false → Memᴰ b os → i ≢ b.id
apart os h m e = let there = has_order_of_mem os m in cc (e)

-- One id, one row.
pub row_unique :
    {a b : Order} (os : List Order) → DistinctIds os → Memᴰ a os → Memᴰ b os → a.id ≡ b.id → a ≡ b
row_unique [] d m n e = elim m [ ]
row_unique (x ∷ os) d (Memᴰ.head p) (Memᴰ.head q) e = p ∙ sym q
row_unique (x ∷ os) d (Memᴰ.head p) (Memᴰ.tail n) e =
    absurd (apart os d.0 n (sym (ap (λ (y : Order). y.id) p) ∙ e))
row_unique (x ∷ os) d (Memᴰ.tail m) (Memᴰ.head q) e =
    absurd (apart os d.0 m (sym (ap (λ (y : Order). y.id) q) ∙ sym e))
row_unique (x ∷ os) d (Memᴰ.tail m) (Memᴰ.tail n) e = row_unique os d.1 m n e

module _ (p : Order → Bool) (now : Timestamp) (s : String) where
  pub has_order-update :
      (i : Uuid) (os : List Order)
      → has_order i (update_orders p (set_status now s) os) ≡ has_order i os
  unfolding has_order update_orders
  has_order-update i [] = refl
  has_order-update i (o ∷ os) = ground (arith, has_order-update i os)

  pub DistinctIds-update :
      (os : List Order) → DistinctIds os → DistinctIds (update_orders p (set_status now s) os)
  unfolding update_orders
  DistinctIds-update [] d = tt
  DistinctIds-update (o ∷ os) d =
      (ground (arith, has_order-update o.id os), DistinctIds-update os d.1)

  pub mem-update :
      {o : Order} (os : List Order)
      → Memᴰ o (update_orders p (set_status now s) os)
      → (a : Order) × Memᴰ a os × (o ≡ (if p a then set_status now s a else a))
  unfolding update_orders
  mem-update os m = mem-map _ os m

  pub mem-returning :
      {o : Order} (os : List Order)
      → Memᴰ o (returning p (set_status now s) os)
      → (a : Order) × Memᴰ a os × (p a ≡ true) × (o ≡ set_status now s a)
  unfolding returning
  mem-returning os m =
      let (a, n, e) = mem-map (set_status now s) (where_rows p os) m in
      let (k, h) = mem-where_rows p os n in (a, k, h, e)

  has_order-returning-false :
      (i : Uuid) (os : List Order)
      → has_order i os ≡ false
      → has_order i (returning p (set_status now s) os) ≡ false
  unfolding has_order returning
  has_order-returning-false i [] h = refl
  has_order-returning-false i (o ∷ os) h = ground (arith, has_order-returning-false i os)

  pub DistinctIds-returning :
      (os : List Order) → DistinctIds os → DistinctIds (returning p (set_status now s) os)
  unfolding returning
  DistinctIds-returning [] d = tt
  DistinctIds-returning (o ∷ os) d =
      ground (arith, has_order-returning-false o.id os, DistinctIds-returning os d.1)

  pub returning-mem :
      {a : Order} (os : List Order)
      → Memᴰ a os
      → p a ≡ true
      → Memᴰ (set_status now s a) (returning p (set_status now s) os)
  unfolding returning
  returning-mem os m h = map-mem (set_status now s) (where_rows p os) (where_rows-mem p os m h)
