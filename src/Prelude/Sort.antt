-- ===== src/Prelude/Sort.antt =====
-- What a SELECT does with the rows of a table: WHERE, ORDER BY and LIMIT.
pub mod Mem
pub mod Order
use Prim.Native.Nat.{ℕ, zero, suc}
use mathlib.Core.Bool.{Bool}
use mathlib.Core.List.{List, [], ◌∷◌}
use oms_go.Prelude.Tests.{if◌then◌else◌}

module _ {ℓ} {A : Type ℓ} where
  unfoldable pub where_rows : (A → Bool) → List A → List A
  where_rows p [] = []
  where_rows p (x ∷ xs) = let rest = where_rows p xs in if p x then x ∷ rest else rest

  -- `le a b`: a may stand before b.
  unfoldable pub insert_row : (A → A → Bool) → A → List A → List A
  insert_row le a [] = a ∷ []
  insert_row le a (x ∷ xs) = if le a x then a ∷ x ∷ xs else x ∷ insert_row le a xs

  unfoldable pub order_by : (A → A → Bool) → List A → List A
  unfolding insert_row
  order_by le [] = []
  order_by le (x ∷ xs) = insert_row le x (order_by le xs)

  unfoldable pub take : ℕ → List A → List A
  take zero xs = []
  take (suc n) [] = []
  take (suc n) (x ∷ xs) = x ∷ take n xs
