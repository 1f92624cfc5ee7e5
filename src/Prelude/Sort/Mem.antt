-- ===== src/Prelude/Sort/Mem.antt =====
-- The members of what WHERE, ORDER BY and LIMIT leave.
use Prim.Native.Nat.{ℕ, zero, suc}
use mathlib.Core.Path.{◌≡◌, refl, ◌∙◌, sym, ap}
use mathlib.Core.Bool.{Bool, true, false}
use mathlib.Core.Logic.{◌⊎◌, inl, inr}
use mathlib.Core.List.{List, [], ◌∷◌, Memᴰ, map}
use oms_go.Prelude.Tests.{if◌then◌else◌, Bool-cases}
use oms_go.Prelude.Sort.{where_rows, insert_row, order_by, take}

module _ {ℓ} {A : Type ℓ} where
  pub mem-cons_cases : {a x : A} {xs : List A} → Memᴰ a (x ∷ xs) → (a ≡ x) ⊎ Memᴰ a xs
  mem-cons_cases (Memᴰ.head e) = inl e
  mem-cons_cases (Memᴰ.tail m) = inr m

  mem-if :
      (b : Bool) {a x : A} {xs : List A}
      → Memᴰ a (if b then x ∷ xs else xs)
      → ((b ≡ true) × (a ≡ x)) ⊎ Memᴰ a xs
  mem-if true (Memᴰ.head e) = inl (refl, e)
  mem-if true (Memᴰ.tail m) = inr m
  mem-if false m = inr m

  pub mem-where_rows :
      (p : A → Bool) {a : A} (xs : List A) → Memᴰ a (where_rows p xs) → Memᴰ a xs × (p a ≡ true)
  unfolding where_rows
  mem-where_rows p [] m = elim m [ ]
  mem-where_rows p (x ∷ xs) m = elim (mem-if (p x) m) [
    | inl (h, e) ↦ (Memᴰ.head e, ap p e ∙ h)
    | inr n ↦ let (k, q) = mem-where_rows p xs n in (Memᴰ.tail k, q)
  ]

  pub where_rows-mem :
      (p : A → Bool) {a : A} (xs : List A) → Memᴰ a xs → p a ≡ true → Memᴰ a (where_rows p xs)
  unfolding where_rows
  where_rows-mem p [] m h = elim m [ ]
  where_rows-mem p (x ∷ xs) (Memᴰ.head e) h = rw ((sym (ap p e)) ∙ h) (Memᴰ.head e)
  where_rows-mem p (x ∷ xs) (Memᴰ.tail m) h = keep (p x) (where_rows-mem p xs m h)
    where
      keep : (b : Bool) {a : A} {ys : List A} → Memᴰ a ys → Memᴰ a (if b then x ∷ ys else ys)
      keep true n = Memᴰ.tail n
      keep false n = n

  mem-insert_if :
      (b : Bool) {a x y : A} {xs zs : List A}
      → Memᴰ a (if b then y ∷ x ∷ xs else x ∷ zs)
      → (Memᴰ a zs → (a ≡ y) ⊎ Memᴰ a xs)
      → (a ≡ y) ⊎ Memᴰ a (x ∷ xs)
  mem-insert_if true (Memᴰ.head e) k = inl e
  mem-insert_if true (Memᴰ.tail m) k = inr m
  mem-insert_if false (Memᴰ.head e) k = inr (Memᴰ.head e)
  mem-insert_if false (Memᴰ.tail m) k = elim (k m) [ inl e ↦ inl e | inr n ↦ inr (Memᴰ.tail n) ]

  mem-insert_row :
      (le : A → A → Bool) {a y : A} (xs : List A)
      → Memᴰ a (insert_row le y xs)
      → (a ≡ y) ⊎ Memᴰ a xs
  unfolding insert_row
  mem-insert_row le [] m = mem-cons_cases m
  mem-insert_row le {a} {y} (x ∷ xs) m = mem-insert_if (le y x) m (mem-insert_row le xs)

  pub mem-order_by : (le : A → A → Bool) {a : A} (xs : List A) → Memᴰ a (order_by le xs) → Memᴰ a xs
  unfolding order_by
  mem-order_by le [] m = m
  mem-order_by le (x ∷ xs) m = elim (mem-insert_row le (order_by le xs) m) [
    | inl e ↦ Memᴰ.head e
    | inr n ↦ Memᴰ.tail (mem-order_by le xs n)
  ]

  insert_row-mem :
      (le : A → A → Bool) {a y : A} (xs : List A)
      → (a ≡ y) ⊎ Memᴰ a xs
      → Memᴰ a (insert_row le y xs)
  unfolding insert_row
  insert_row-mem le [] (inl e) = Memᴰ.head e
  insert_row-mem le [] (inr m) = elim m [ ]
  insert_row-mem le {a} {y} (x ∷ xs) m = elim (Bool-cases (le y x)) [
    | inl here ↦ rw here (elim m [ inl e ↦ Memᴰ.head e | inr n ↦ Memᴰ.tail n ])
    | inr later ↦ rw later (elim m [
      | inl e ↦ Memᴰ.tail (insert_row-mem le xs (inl e))
      | inr (Memᴰ.head e) ↦ Memᴰ.head e
      | inr (Memᴰ.tail n) ↦ Memᴰ.tail (insert_row-mem le xs (inr n))
    ])
  ]

  pub order_by-mem : (le : A → A → Bool) {a : A} (xs : List A) → Memᴰ a xs → Memᴰ a (order_by le xs)
  unfolding order_by
  order_by-mem le [] m = m
  order_by-mem le (x ∷ xs) (Memᴰ.head e) = insert_row-mem le (order_by le xs) (inl e)
  order_by-mem le (x ∷ xs) (Memᴰ.tail m) =
      insert_row-mem le (order_by le xs) (inr (order_by-mem le xs m))

  pub mem-take : (n : ℕ) {a : A} (xs : List A) → Memᴰ a (take n xs) → Memᴰ a xs
  unfolding take
  mem-take zero xs m = elim m [ ]
  mem-take (suc n) [] m = m
  mem-take (suc n) (x ∷ xs) (Memᴰ.head e) = Memᴰ.head e
  mem-take (suc n) (x ∷ xs) (Memᴰ.tail m) = Memᴰ.tail (mem-take n xs m)

  pub mem-map {κ} :
      {B : Type κ} (f : A → B) {b : B} (xs : List A)
      → Memᴰ b (map f xs)
      → (a : A) × Memᴰ a xs × (b ≡ f a)
  mem-map f [] m = elim m [ ]
  mem-map f (x ∷ xs) (Memᴰ.head e) = (x, Memᴰ.head refl, e)
  mem-map f (x ∷ xs) (Memᴰ.tail m) = let (a, n, e) = mem-map f xs m in (a, Memᴰ.tail n, e)

  pub map-mem {κ} :
      {B : Type κ} (f : A → B) {a : A} (xs : List A) → Memᴰ a xs → Memᴰ (f a) (map f xs)
  map-mem f [] m = elim m [ ]
  map-mem f (x ∷ xs) (Memᴰ.head e) = Memᴰ.head (ap f e)
  map-mem f (x ∷ xs) (Memᴰ.tail m) = Memᴰ.tail (map-mem f xs m)
