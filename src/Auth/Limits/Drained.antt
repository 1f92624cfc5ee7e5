-- ===== src/Auth/Limits/Drained.antt =====
-- internal/auth/jwt.go: what a consumer gets from a `maxBytesReadCloser`.
use mathlib.Core.List.{append_assoc}
use oms_go.Prelude.{
  ℕ, zero, suc, ◌+◌, ◌<◌, ◌≡◌, refl, sym, ap, ◌∙◌, Bool-cases, inl, inr, Option, none, some, List,
  [], ◌∷◌, ◌++◌, length, ltb, ◌==◌, arith, subst, ==_iff,
}
use oms_go.Prelude.Sort.{take}
use oms_go.Auth.Limits.{
  Read, too_large, Limited, Answer, passed, at_limit, below_limit, clipped, read_limited,
  continue_with, drain,
}

-- Of the bytes that were there, those that were delivered, and those that are left. Within the limit
-- nothing is lost; and only where there are more bytes is the limit reported, after exactly as many.
pub data Verdict {S E : Type 0} (content : S → List ℕ) (bytes : List ℕ) (limit : ℕ)
    : Answer S E → Type 0 where
  within :
      (bs : List ℕ) (e : Option E) (r : Limited S)
      → bytes ≡ bs ++ content r.inner
      → length bs + r.remaining ≡ limit
      → Verdict content bytes limit (bs, passed e, r)
  over :
      (bs rest : List ℕ) (b : ℕ) (r : Limited S)
      → bytes ≡ bs ++ b ∷ rest
      → length bs ≡ limit
      → Verdict content bytes limit (bs, some too_large, r)

pub length-append : (xs ys : List ℕ) → length (xs ++ ys) ≡ length xs + length ys
length-append [] ys = omega arith
length-append (x ∷ xs) ys = omega (arith, length-append xs ys)

take-split :
    (n : ℕ) (xs : List ℕ)
    → n < length xs
    → (b : ℕ) × (rest : List ℕ) × (xs ≡ take n xs ++ b ∷ rest) × (length (take n xs) ≡ n)
unfolding take
take-split n [] h = absurd (omega arith)
take-split zero (x ∷ xs) h = (x, xs, refl, refl)
take-split (suc n) (x ∷ xs) h =
    let (b, rest, e, l) = take-split n xs (omega arith) in (b, rest, ap (λ ys. x ∷ ys) e, ap suc l)

module _ {S E : Type 0} (read : Read S E) (content : S → List ℕ)
    (splits : (s : S) (size : ℕ) → content s ≡ (read s size).0 ++ content (read s size).2) where
  at_limit-Verdict :
      (bytes : List ℕ) (a : List ℕ × Option E × S)
      → bytes ≡ a.0 ++ content a.2
      → Verdict {E = E} content bytes 0 (at_limit a)
  unfolding at_limit
  at_limit-Verdict bytes ([], e, s) h = within [] e _ h refl
  at_limit-Verdict bytes (b ∷ bs, e, s) h = over [] (bs ++ content s) b _ h refl

  below_limit-Verdict :
      (bytes : List ℕ) (n : ℕ) (a : List ℕ × Option E × S)
      → bytes ≡ a.0 ++ content a.2
      → Verdict {E = E} content bytes n (below_limit n a)
  unfolding below_limit
  below_limit-Verdict bytes n (bs, e, s) h = elim (Bool-cases (ltb n (length bs))) [
    | inl more ↦
        let (b, rest, split, l) = take-split n bs (ground arith) in
        rw more (
          over (take n bs) (rest ++ content s) b _
            (h
              ∙ (ap (λ xs. xs ++ content s) split
                  ∙ append_assoc (take n bs) (b ∷ rest) (content s)))
            l)
    | inr fits ↦ rw fits (within bs e _ h (ground arith))
  ]

  read_limited-Verdict :
      (r : Limited S) (size : ℕ)
      → Verdict content (content r.inner) r.remaining (read_limited read r size)
  unfolding read_limited
  read_limited-Verdict r size = elim (Bool-cases (r.remaining == 0)) [
    | inl none_left ↦
        let none : 0 ≡ r.remaining = sym ((==_iff r.remaining 0).0 none_left) in
        rw none_left (
          subst (λ n. Verdict content (content r.inner) n (at_limit (read r.inner 1))) none
            (at_limit-Verdict (content r.inner) (read r.inner 1) (splits r.inner 1)))
    | inr some_left ↦
        let size' = clipped r.remaining size in
        rw some_left (
          below_limit-Verdict (content r.inner) r.remaining (read r.inner size')
            (splits r.inner size'))
  ]

  -- What is delivered before adds up.
  continue-Verdict :
      (bytes : List ℕ) (n : ℕ) (a : Answer S E) (more : Limited S → Answer S E)
      → Verdict content bytes n a
      → ((r : Limited S) → Verdict content (content r.inner) r.remaining (more r))
      → Verdict content bytes n (continue_with a more)
  continue-Verdict bytes n _ more (over bs rest b r e l) _ = over bs rest b r e l
  continue-Verdict bytes n _ more (within bs (some x) r e l) _ = within bs (some x) r e l
  continue-Verdict bytes n _ more (within bs none r e l) verdict =
      append bs r e l (more r) (verdict r)
    where
      append :
          (bs : List ℕ) (r : Limited S)
          → bytes ≡ bs ++ content r.inner
          → length bs + r.remaining ≡ n
          → (a : Answer S E) → Verdict content (content r.inner) r.remaining a
          → Verdict content bytes n (bs ++ a.0, a.1, a.2)
      append bs r e l _ (within cs x t e' l') =
          within (bs ++ cs) x t
            (e ∙ (ap (λ xs. bs ++ xs) e' ∙ sym (append_assoc bs cs (content t.inner))))
            (omega (arith, length-append bs cs))
      append bs r e l _ (over cs rest b t e' l') =
          over (bs ++ cs) rest b t
            (e ∙ (ap (λ xs. bs ++ xs) e' ∙ sym (append_assoc bs cs (b ∷ rest))))
            (omega (arith, length-append bs cs))

  -- A consumer of a limited reader gets, with buffers of any lengths and whatever the reader's errors
  -- are, a prefix of the content that is no longer than the limit. The reader reports that the limit
  -- is exceeded only after exactly as many bytes, where the content has at least one more; otherwise
  -- what is delivered and what is left are the whole content.
  pub drain-Verdict :
      (r : Limited S) (sizes : List ℕ)
      → Verdict content (content r.inner) r.remaining (drain read r sizes)
  unfolding drain
  drain-Verdict r [] = within [] none r refl (omega arith)
  drain-Verdict r (size ∷ sizes) =
      continue-Verdict (content r.inner) r.remaining (read_limited read r size)
        (λ r'. drain read r' sizes) (read_limited-Verdict r size) (λ r'. drain-Verdict r' sizes)
