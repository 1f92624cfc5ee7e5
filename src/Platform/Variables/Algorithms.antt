-- ===== src/Platform/Variables/Algorithms.antt =====
-- internal/platform/config.go: what the list of algorithms holds.
use mathlib.Core.List.Memᴰ as MemberD
use mathlib.Core.List.{Memᴰ}
use oms_go.Prelude.{
  ℕ, ◌+◌, refl, ◌⊎◌, ◌↔◌, map, true, ◌≡◌, ◌≢◌, sym, Bool-cases, inl, inr, false, String, List, [],
  ◌∷◌, ◌++◌, str_eq, eq_iff, any, arith,
}
use oms_go.Prelude.{All, subst}
use oms_go.Prelude.Exec.{ok, and_then-eq-ok}
use oms_go.Prelude.Text.{codes, trim_space}
use oms_go.Prelude.Text.Words.{split_on, upper}
use oms_go.Platform.Variables.{
  is_unsupported, add_algorithm, add_algorithms, parse_allowed_algorithms,
}

-- A capital letter or its small one, by their code points.
abbrev IsLetter : ℕ → ℕ → Type 0
IsLetter capital c = (c ≡ capital) ⊎ (c ≡ capital + 32)

-- S, s, and the long s, whose capital is S.
abbrev IsLetterS : ℕ → Type 0
IsLetterS c = IsLetter b'S' c ⊎ (c ≡ 0x17f)

-- HS and anything after it, in any case of letters.
pub data IsSymmetric (cs : List ℕ) : Type 0 where
  hs :
      (h s : ℕ) (rest : List ℕ) → IsLetter b'H' h → IsLetterS s → cs ≡ h ∷ s ∷ rest → IsSymmetric cs

-- "none" in any case of letters.
pub data IsNone (cs : List ℕ) : Type 0 where
  spelled :
      (n o m e : ℕ)
      → IsLetter b'N' n
      → IsLetter b'O' o
      → IsLetter b'N' m
      → IsLetter b'E' e
      → cs ≡ n ∷ o ∷ m ∷ e ∷ []
      → IsNone cs

-- Not empty, not "none" and not symmetric.
pub record IsSupported (algorithm : String) : Type 0 where
  pub full : algorithm ≢ ""
  pub signs : ¬ IsNone (codes algorithm)
  pub asymmetric : ¬ IsSymmetric (codes algorithm)

upper_h : (c : ℕ) → IsLetter b'H' c → upper c ≡ b'H'
unfolding upper
upper_h c (inl k) = rw k refl
upper_h c (inr k) = rw k refl

upper_n : (c : ℕ) → IsLetter b'N' c → upper c ≡ b'N'
unfolding upper
upper_n c (inl k) = rw k refl
upper_n c (inr k) = rw k refl

upper_o : (c : ℕ) → IsLetter b'O' c → upper c ≡ b'O'
unfolding upper
upper_o c (inl k) = rw k refl
upper_o c (inr k) = rw k refl

upper_e : (c : ℕ) → IsLetter b'E' c → upper c ≡ b'E'
unfolding upper
upper_e c (inl k) = rw k refl
upper_e c (inr k) = rw k refl

upper_s : (c : ℕ) → IsLetterS c → upper c ≡ b'S'
unfolding upper
upper_s c (inl (inl k)) = rw k refl
upper_s c (inl (inr k)) = rw k refl
upper_s c (inr k) = rw k refl

module _ (algorithm : String) where
  symmetric-unsupported : IsSymmetric (codes algorithm) → is_unsupported algorithm ≡ true
  unfolding is_unsupported
  symmetric-unsupported (hs h s rest is_h is_s e) = rw (e, upper_h h is_h, upper_s s is_s) refl

  none-unsupported : IsNone (codes algorithm) → is_unsupported algorithm ≡ true
  unfolding is_unsupported
  none-unsupported (spelled n o m e is_n is_o is_m is_e k) =
      rw (k, upper_n n is_n, upper_o o is_o, upper_n m is_m, upper_e e is_e) refl

  supported : str_eq algorithm "" ≡ false → is_unsupported algorithm ≡ false → IsSupported algorithm
  supported given good = record {
    full = λ k. cc ((eq_iff algorithm "").1 k, given);
    signs = λ h. cc (none-unsupported h, good);
    asymmetric = λ h. cc (symmetric-unsupported h, good);
  }

abbrev pub Distinct : List String → Type 0
Distinct [] = Unit
Distinct (a ∷ as') = All (λ b. a ≢ b) as' × Distinct as'

abbrev pub AreSupported : List String → Type 0
AreSupported algorithms = All IsSupported algorithms × Distinct algorithms

All-snoc :
    (P : String → Type 0) (xs : List String) (x : String) → All P xs → P x → All P (xs ++ x ∷ [])
All-snoc P [] x h p = (p, tt)
All-snoc P (y ∷ ys) x h p = (h.0, All-snoc P ys x h.1 p)

Distinct-snoc :
    (xs : List String) (x : String)
    → Distinct xs
    → any (λ seen. str_eq x seen) xs ≡ false
    → Distinct (xs ++ x ∷ [])
Distinct-snoc [] x h n = (tt, tt)
Distinct-snoc (y ∷ ys) x h n = (
  All-snoc (λ b. y ≢ b) ys x h.0 (λ e. cc ((eq_iff x y).1 (sym e), n)),
  Distinct-snoc ys x h.1 (ground arith),
)

add-AreSupported :
    (xs : List String) (x : String) (ys : List String)
    → AreSupported xs
    → add_algorithm xs x ≡ ok ys
    → AreSupported ys
unfolding add_algorithm
add-AreSupported xs x ys h e = elim (Bool-cases (str_eq x "")) [
  | inl empty ↦ absurd (cc (rw empty at e))
  | inr full ↦ elim (Bool-cases (is_unsupported x)) [
    | inl bad ↦ absurd (cc (rw (full, bad) at e))
    | inr good ↦ elim (Bool-cases (any (λ seen. str_eq x seen) xs)) [
      | inl seen ↦ let same : xs ≡ ys = cc (rw (full, good, seen) at e) in subst AreSupported same h
      | inr new ↦
          let same : xs ++ x ∷ [] ≡ ys = cc (rw (full, good, new) at e) in
          subst AreSupported same
            (All-snoc IsSupported xs x h.0 (supported x full good), Distinct-snoc xs x h.1 new)
    ]
  ]
]

adds-AreSupported :
    (xs parts ys : List String)
    → AreSupported xs
    → add_algorithms xs parts ≡ ok ys
    → AreSupported ys
unfolding add_algorithms
adds-AreSupported xs [] ys h e = let same : xs ≡ ys = cc in subst AreSupported same h
adds-AreSupported xs (part ∷ parts) ys h e =
    let (more, first, rest) =
      and_then-eq-ok (add_algorithm xs (trim_space part)) (λ more. add_algorithms more parts) e in
    adds-AreSupported more parts ys (add-AreSupported xs (trim_space part) more h first) rest

any-Memᴰ : (x : String) (xs : List String) → any (λ seen. str_eq x seen) xs ≡ true → Memᴰ x xs
any-Memᴰ x (y ∷ ys) h = elim (Bool-cases (str_eq x y)) [
  | inl e ↦ Memᴰ.head ((eq_iff x y).0 e)
  | inr f ↦ Memᴰ.tail (any-Memᴰ x ys (rw f at h))
]
any-Memᴰ x [] h = absurd (cc)

-- The names of a list after one round.
add_algorithm-adds :
    (xs : List String) (x : String) (ys : List String)
    → add_algorithm xs x ≡ ok ys
    → (a : String) → Memᴰ a ys ↔ (Memᴰ a xs ⊎ (a ≡ x))
unfolding add_algorithm
add_algorithm-adds xs x ys e a = elim (Bool-cases (str_eq x "")) [
  | inl empty ↦ absurd (cc (rw empty at e))
  | inr full ↦ elim (Bool-cases (is_unsupported x)) [
    | inl bad ↦ absurd (cc (rw (full, bad) at e))
    | inr good ↦ elim (Bool-cases (any (λ seen. str_eq x seen) xs)) [
      | inl seen ↦
          let same : xs ≡ ys = cc (rw (full, good, seen) at e) in
          subst (λ (zs : List String). Memᴰ a zs ↔ (Memᴰ a xs ⊎ (a ≡ x))) same
            (
              (λ m. inl m),
              λ m. elim m [
                | inl k ↦ k
                | inr k ↦ subst (λ b. Memᴰ b xs) (sym k) (any-Memᴰ x xs seen)
              ],
            )
      | inr new ↦
          let same : xs ++ x ∷ [] ≡ ys = cc (rw (full, good, new) at e) in
          subst (λ (zs : List String). Memᴰ a zs ↔ (Memᴰ a xs ⊎ (a ≡ x))) same (added, kept)
    ]
  ]
]
  where
    last : Memᴰ a xs ⊎ Memᴰ a (x ∷ []) → Memᴰ a xs ⊎ (a ≡ x)
    last (inl m) = inl m
    last (inr (Memᴰ.head k)) = inr k
    last (inr (Memᴰ.tail m)) = elim m [ ]

    added : Memᴰ a (xs ++ x ∷ []) → Memᴰ a xs ⊎ (a ≡ x)
    added m = last (MemberD.append_cases xs m)

    kept : Memᴰ a xs ⊎ (a ≡ x) → Memᴰ a (xs ++ x ∷ [])
    kept (inl m) = MemberD.append_left (x ∷ []) m
    kept (inr k) = MemberD.append_right xs (Memᴰ.head k)

add_algorithms-adds :
    (xs parts ys : List String)
    → add_algorithms xs parts ≡ ok ys
    → (a : String) → Memᴰ a ys ↔ (Memᴰ a xs ⊎ Memᴰ a (map trim_space parts))
unfolding add_algorithms
add_algorithms-adds xs [] ys e a =
    let same : xs ≡ ys = cc in
    subst (λ (zs : List String). Memᴰ a zs ↔ (Memᴰ a xs ⊎ Memᴰ a [])) same
      ((λ m. inl m), λ m. elim m [ inl k ↦ k | inr k ↦ elim k [ ] ])
add_algorithms-adds xs (part ∷ parts) ys e a =
    let (more, first, rest) =
      and_then-eq-ok (add_algorithm xs (trim_space part)) (λ more. add_algorithms more parts) e in
    join (add_algorithm-adds xs (trim_space part) more first a)
      (add_algorithms-adds more parts ys rest a)
  where
    join :
        {more : List String}
        → (Memᴰ a more ↔ (Memᴰ a xs ⊎ (a ≡ trim_space part)))
        → (Memᴰ a ys ↔ (Memᴰ a more ⊎ Memᴰ a (map trim_space parts)))
        → Memᴰ a ys ↔ (Memᴰ a xs ⊎ Memᴰ a (trim_space part ∷ map trim_space parts))
    join {more} (one, back) (others, return) = (forth, home)
      where
        near :
            Memᴰ a xs ⊎ (a ≡ trim_space part)
            → Memᴰ a xs ⊎ Memᴰ a (trim_space part ∷ map trim_space parts)
        near (inl m) = inl m
        near (inr k) = inr (Memᴰ.head k)

        split :
            Memᴰ a more ⊎ Memᴰ a (map trim_space parts)
            → Memᴰ a xs ⊎ Memᴰ a (trim_space part ∷ map trim_space parts)
        split (inl m) = near (one m)
        split (inr m) = inr (Memᴰ.tail m)

        forth : Memᴰ a ys → Memᴰ a xs ⊎ Memᴰ a (trim_space part ∷ map trim_space parts)
        forth m = split (others m)

        home : Memᴰ a xs ⊎ Memᴰ a (trim_space part ∷ map trim_space parts) → Memᴰ a ys
        home (inl m) = return (inl (back (inl m)))
        home (inr (Memᴰ.head k)) = return (inl (back (inr k)))
        home (inr (Memᴰ.tail m)) = return (inr m)

abbrev pub Accepted : String → List String → Type 0
Accepted value algorithms =
    AreSupported algorithms
    × ((a : String) → Memᴰ a algorithms ↔ Memᴰ a (map trim_space (split_on b',' value)))

-- What `parseAllowedAlgorithms` accepts: the names between the commas, trimmed, all of them and no others;
-- none of them is empty, is "none" or begins with HS in any case of letters, and none is there twice.
pub parse_allowed_algorithms-Accepted :
    (value : String) (algorithms : List String)
    → parse_allowed_algorithms value ≡ ok algorithms
    → Accepted value algorithms
unfolding parse_allowed_algorithms
parse_allowed_algorithms-Accepted value algorithms h =
    elim (Bool-cases (str_eq (trim_space value) "")) [
      | inl blank ↦ absurd (cc (rw blank at h))
      | inr given ↦ (
        adds-AreSupported [] (split_on b',' value) algorithms (tt, tt) (rw given at h),
        λ a.
            from_none a (add_algorithms-adds [] (split_on b',' value) algorithms (rw given at h) a),
      )
    ]
  where
    from_none :
        (a : String)
        → (Memᴰ a algorithms ↔ (Memᴰ a [] ⊎ Memᴰ a (map trim_space (split_on b',' value))))
        → Memᴰ a algorithms ↔ Memᴰ a (map trim_space (split_on b',' value))
    from_none a (there, back) = (λ m. right (there m), λ m. back (inr m))
      where
        right :
            Memᴰ a [] ⊎ Memᴰ a (map trim_space (split_on b',' value))
            → Memᴰ a (map trim_space (split_on b',' value))
        right (inl m) = elim m [ ]
        right (inr m) = m
