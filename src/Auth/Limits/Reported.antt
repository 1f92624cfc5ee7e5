-- ===== src/Auth/Limits/Reported.antt =====
-- internal/auth/jwt.go: when a `maxBytesReadCloser` reports that its limit is exceeded.
use oms_go.Prelude.{
  ℕ, zero, suc, ◌+◌, ◌-◌, ◌<◌, ◌≡◌, ◌≢◌, ◌↔◌, refl, sym, ap, Bool-cases, inl, inr, Option, none,
  some, List, [], ◌∷◌, ◌++◌, length, ltb, ◌==◌, arith, subst, All,
}
use oms_go.Auth.Limits.{
  Read, too_large, Limited, Answer, at_limit, below_limit, clipped, read_limited, continue_with,
  drain,
}
use oms_go.Auth.Limits.Drained.{Verdict, within, over, length-append, drain-Verdict}

-- A reader as io.Reader asks for: as long as there are bytes, a buffer that is not empty gets some, and
-- an error comes only with the last of them or after it.
pub record Steady {S E : Type 0} (read : Read S E) (content : S → List ℕ) : Type 0 where
  pub moves : (s : S) (n : ℕ) → content s ≢ [] → (read s (suc n)).0 ≢ []
  pub ends : (s : S) (n : ℕ) → content (read s n).2 ≢ [] → (read s n).1 ≡ none

-- What was delivered and what is left, and whether the limit is reported.
pub record Bounded {S E : Type 0} (content : S → List ℕ) (bytes : List ℕ) (limit : ℕ)
    (a : Answer S E) : Type 0 where
  pub delivered : Verdict content bytes limit a
  pub reported : (a.1 ≡ some too_large) ↔ (limit < length bytes)

at_limit-reports :
    {S E : Type 0} (a : List ℕ × Option E × S) (more : Limited S → Answer S E)
    → a.0 ≢ []
    → (continue_with (at_limit a) more).1 ≡ some too_large
unfolding at_limit
at_limit-reports ([], e, s) more h = absurd (h refl)
at_limit-reports (b ∷ bs, e, s) more h = refl

clipped-suc : (n size : ℕ) → 0 < size → (k : ℕ) × (clipped n size ≡ suc k)
clipped-suc n zero h = absurd (omega (arith, h))
clipped-suc n (suc size) h = elim (Bool-cases (ltb (n + 1) (suc size))) [
  | inl cut ↦ (n, rw cut (omega arith))
  | inr kept ↦ (size, rw kept refl)
]

longer : (xs : List ℕ) (n : ℕ) → n < length xs → xs ≢ []
longer xs n h e = omega (arith, ap length e, h)

some_length : (xs : List ℕ) → xs ≢ [] → 0 < length xs
some_length [] h = absurd (h refl)
some_length (x ∷ xs) h = omega arith

Verdict-more :
    {S E : Type 0} (content : S → List ℕ) (bytes : List ℕ) (n : ℕ) (a : Answer S E)
    → Verdict content bytes n a
    → a.1 ≡ some too_large
    → n < length bytes
Verdict-more content bytes n _ (within bs none r e l) h = absurd (cc)
Verdict-more content bytes n _ (within bs (some x) r e l) h = absurd (cc)
Verdict-more content bytes n _ (over bs rest b r e l) h =
    omega (arith, ap length e, length-append bs (b ∷ rest), l)

module _ {S E : Type 0} (read : Read S E) (content : S → List ℕ)
    (splits : (s : S) (size : ℕ) → content s ≡ (read s size).0 ++ content (read s size).2)
    (steady : Steady read content) where
  below_limit-reports :
      (n : ℕ) (a : List ℕ × Option E × S) (more : Limited S → Answer S E)
      → (content a.2 ≢ [] → a.1 ≡ none)
      → n < length a.0 + length (content a.2)
      → ((r : Limited S)
          → r.inner ≡ a.2
          → r.remaining + length a.0 ≡ n
          → r.remaining < length (content r.inner)
          → (more r).1 ≡ some too_large)
      → (continue_with (below_limit n a) more).1 ≡ some too_large
  unfolding below_limit
  below_limit-reports n (bs, e, s) more ends h later = elim (Bool-cases (ltb n (length bs))) [
    | inl above ↦ rw above refl
    | inr fits ↦
        rw (fits, ends (longer (content s) (n - length bs) (ground arith)))
          (later (record { inner = s; remaining = n - length bs }) refl (ground arith)
            (ground arith))
  ]

  drain-reports :
      (r : Limited S) (sizes : List ℕ)
      → All (λ n. 0 < n) sizes
      → r.remaining < length sizes
      → r.remaining < length (content r.inner)
      → (drain read r sizes).1 ≡ some too_large
  unfolding drain read_limited
  drain-reports r [] positive enough h = absurd (omega (arith, enough))
  drain-reports r (size ∷ sizes) positive enough h = elim (Bool-cases (r.remaining == 0)) [
    | inl none_left ↦ rw none_left (
        at_limit-reports (read r.inner 1) (λ r'. drain read r' sizes)
          (steady.moves r.inner 0 (longer (content r.inner) r.remaining h)))
    | inr some_left ↦
        let size' = clipped r.remaining size in
        let (k, same) = clipped-suc r.remaining size positive.0 in
        let full : (read r.inner size').0 ≢ [] =
          subst (λ n. (read r.inner n).0 ≢ []) (sym same)
            (steady.moves r.inner k (longer (content r.inner) r.remaining h)) in
        let some_bytes = some_length (read r.inner size').0 full in
        rw some_left (
          below_limit-reports r.remaining (read r.inner size') (λ r'. drain read r' sizes)
            (steady.ends r.inner size')
            (omega (
              arith,
              h,
              ap length (splits r.inner size'),
              length-append (read r.inner size').0 (content (read r.inner size').2),
            ))
            (λ r' e l more.
              drain-reports r' sizes positive.1 (omega (arith, l, enough, some_bytes)) more))
  ]

  -- A consumer that reads with enough buffers, none of them empty, from a steady reader through a limited
  -- one gets a prefix of the content that is no longer than the limit. That the limit is exceeded is
  -- reported exactly where the content has more bytes, and then after exactly as many as the limit;
  -- otherwise what is delivered and what is left are the whole content.
  pub drain-Bounded :
      (r : Limited S) (sizes : List ℕ)
      → All (λ n. 0 < n) sizes
      → r.remaining < length sizes
      → Bounded content (content r.inner) r.remaining (drain read r sizes)
  drain-Bounded r sizes positive enough = record {
    delivered = drain-Verdict read content splits r sizes;
    reported = (
      Verdict-more content (content r.inner) r.remaining (drain read r sizes)
          (drain-Verdict read content splits r sizes),
      drain-reports r sizes positive enough,
    );
  }
