-- ===== src/Prelude/Sort/Order.antt =====
-- ORDER BY under a total preorder, and WHERE before or after it.
use mathlib.Core.Path.{◌≡◌, refl, ◌∙◌, sym, ap}
use mathlib.Core.Bool.{Bool, true, false, ◌&&◌}
use mathlib.Core.Logic.{inl, inr}
use mathlib.Core.List.{List, [], ◌∷◌, ◌++◌}
use oms_go.Prelude.Tests.{Bool-cases}
use oms_go.Prelude.Lists.{All}
use oms_go.Prelude.Sort.{where_rows, insert_row, order_by}

pub record TotalOrder {ℓ} {A : Type ℓ} (le : A → A → Bool) : Type ℓ where
  pub either : (a b : A) → le a b ≡ false → le b a ≡ true
  pub trans : (a b c : A) → le a b ≡ true → le b c ≡ true → le a c ≡ true

module _ {ℓ} {A : Type ℓ} (le : A → A → Bool) where
  abbrev pub Below : A → List A → Type 0
  Below a xs = All (λ b. le a b ≡ true) xs

  abbrev pub Sorted : List A → Type 0
  Sorted [] = Unit
  Sorted (x ∷ xs) = Below x xs × Sorted xs

module _ {ℓ} {A : Type ℓ} (le : A → A → Bool) (laws : TotalOrder le) where
  Below-trans : {a b : A} (xs : List A) → le a b ≡ true → Below le b xs → Below le a xs
  Below-trans [] h bs = tt
  Below-trans {a} {b} (x ∷ xs) h bs = (laws.trans a b x h bs.0, Below-trans xs h bs.1)

  Below-insert :
      {a x : A} (xs : List A) → le a x ≡ true → Below le a xs → Below le a (insert_row le x xs)
  unfolding insert_row
  Below-insert [] h bs = (h, tt)
  Below-insert {a} {x} (y ∷ ys) h bs = elim (Bool-cases (le x y)) [
    | inl here ↦ rw here (h, bs)
    | inr later ↦ rw later (bs.0, Below-insert ys h bs.1)
  ]

  insert-Sorted : (x : A) (xs : List A) → Sorted le xs → Sorted le (insert_row le x xs)
  unfolding insert_row
  insert-Sorted x [] s = (tt, tt)
  insert-Sorted x (y ∷ ys) s = elim (Bool-cases (le x y)) [
    | inl here ↦ rw here ((here, Below-trans ys here s.0), s)
    | inr later ↦ rw later (Below-insert ys (laws.either x y later) s.0, insert-Sorted x ys s.1)
  ]

  pub order_by-Sorted : (xs : List A) → Sorted le (order_by le xs)
  unfolding order_by
  order_by-Sorted [] = tt
  order_by-Sorted (x ∷ xs) = insert-Sorted x (order_by le xs) (order_by-Sorted xs)

  Below-where : (a : A) (p : A → Bool) (xs : List A) → Below le a xs → Below le a (where_rows p xs)
  unfolding where_rows
  Below-where a p [] bs = tt
  Below-where a p (x ∷ xs) bs = elim (Bool-cases (p x)) [
    | inl inside ↦ rw inside (bs.0, Below-where a p xs bs.1)
    | inr outside ↦ rw outside (Below-where a p xs bs.1)
  ]

  insert_first : (x : A) (xs : List A) → Below le x xs → insert_row le x xs ≡ x ∷ xs
  unfolding insert_row
  insert_first x [] bs = refl
  insert_first x (y ∷ ys) bs = rw bs.0

  -- A row that is left out leaves no trace.
  where-insert_out :
      (p : A → Bool) (x : A) (xs : List A)
      → p x ≡ false
      → where_rows p (insert_row le x xs) ≡ where_rows p xs
  unfolding where_rows insert_row
  where-insert_out p x [] h = rw h
  where-insert_out p x (y ∷ ys) h = elim (Bool-cases (le x y)) [
    | inl here ↦ rw (here, h)
    | inr later ↦ rw (later, where-insert_out p x ys h)
  ]

  where-insert_in :
      (p : A → Bool) (x : A) (xs : List A)
      → p x ≡ true
      → Sorted le xs
      → where_rows p (insert_row le x xs) ≡ insert_row le x (where_rows p xs)
  unfolding where_rows insert_row
  where-insert_in p x [] h s = rw h
  where-insert_in p x (y ∷ ys) h s = elim (Bool-cases (le x y)) [
    | inl here ↦
        rw (here, h)
          (sym (
            insert_first x (where_rows p (y ∷ ys))
              (Below-where x p (y ∷ ys) (here, Below-trans ys here s.0))))
    | inr later ↦ elim (Bool-cases (p y)) [
      | inl inside ↦ rw (later, inside, later) (ap (λ zs. y ∷ zs) (where-insert_in p x ys h s.1))
      | inr outside ↦ rw (later, outside) (where-insert_in p x ys h s.1)
    ]
  ]

  pub order_by-where :
      (p : A → Bool) (xs : List A) → order_by le (where_rows p xs) ≡ where_rows p (order_by le xs)
  unfolding order_by where_rows
  order_by-where p [] = refl
  order_by-where p (x ∷ xs) = elim (Bool-cases (p x)) [
    | inl inside ↦ rw inside (
        ap (insert_row le x) (order_by-where p xs)
        ∙ sym (where-insert_in p x (order_by le xs) inside (order_by-Sorted xs)))
    | inr outside ↦
        rw outside (order_by-where p xs ∙ sym (where-insert_out p x (order_by le xs) outside))
  ]

  -- What stands before a row, and what stands after it.
  pub Sorted-split :
      (pre : List A) (c : A) (post : List A)
      → Sorted le (pre ++ c ∷ post)
      → All (λ b. le b c ≡ true) pre × Below le c post
  Sorted-split [] c post s = (tt, s.0)
  Sorted-split (x ∷ pre) c post s =
      let (before, after) = Sorted-split pre c post s.1 in ((head_of pre s.0, before), after)
    where
      head_of : (xs : List A) → Below le x (xs ++ c ∷ post) → le x c ≡ true
      head_of [] bs = bs.0
      head_of (y ∷ ys) bs = head_of ys bs.1

module _ {ℓ} {A : Type ℓ} where
  pub where-and :
      (p q : A → Bool) (xs : List A)
      → where_rows (λ x. p x && q x) xs ≡ where_rows q (where_rows p xs)
  unfolding where_rows
  where-and p q [] = refl
  where-and p q (x ∷ xs) = elim (Bool-cases (p x)) [
    | inl inside ↦ elim (Bool-cases (q x)) [
      | inl too ↦ rw (inside, too) (ap (λ zs. x ∷ zs) (where-and p q xs))
      | inr not_too ↦ rw (inside, not_too) (where-and p q xs)
    ]
    | inr outside ↦ rw outside (where-and p q xs)
  ]

  pub where-none :
      (p : A → Bool) (xs ys : List A)
      → All (λ x. p x ≡ false) xs
      → where_rows p (xs ++ ys) ≡ where_rows p ys
  unfolding where_rows
  where-none p [] ys a = refl
  where-none p (x ∷ xs) ys a = rw a.0 (where-none p xs ys a.1)

  pub where-All : (p : A → Bool) (xs : List A) → All (λ x. p x ≡ true) xs → where_rows p xs ≡ xs
  unfolding where_rows
  where-All p [] a = refl
  where-All p (x ∷ xs) a = rw a.0 (ap (λ zs. x ∷ zs) (where-All p xs a.1))
