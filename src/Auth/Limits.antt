-- ===== src/Auth/Limits.antt =====
-- internal/auth/jwt.go: `maxBytesReadCloser`, over any reader. A reader is its state with `Read`, which
-- is given the length of the buffer; E is the type of its errors, io.EOF among them. `remaining` never
-- falls below 0, so it is a natural number.
pub mod Drained
pub mod Reported
use oms_go.Prelude.{
  ℕ, ◌+◌, ◌-◌, Option, none, some, List, [], ◌∷◌, ◌++◌, length, ltb, ◌==◌, if◌then◌else◌,
}
use oms_go.Prelude.Sort.{take}

abbrev pub Read : Type 0 → Type 0 → Type 0
Read S E = S → ℕ → List ℕ × Option E × S

pub data LimitError (E : Type 0) : Type 0 where
  too_large : LimitError E
  passed_on : E → LimitError E

abbrev pub max_jwt_metadata_response_bytes : ℕ
max_jwt_metadata_response_bytes = 1048576

pub record Limited (S : Type 0) : Type 0 where
  pub inner : S
  pub remaining : ℕ

abbrev pub Answer : Type 0 → Type 0 → Type 0
Answer S E = List ℕ × Option (LimitError E) × Limited S

abbrev pub passed : {E : Type 0} → Option E → Option (LimitError E)
passed none = none
passed (some e) = some (passed_on e)

-- Nothing remains: one byte more is looked for.
at_limit : {S E : Type 0} → List ℕ × Option E × S → Answer S E
at_limit ([], e, s) = ([], passed e, record { inner = s; remaining = 0 })
at_limit (b ∷ bs, e, s) = ([], some too_large, record { inner = s; remaining = 0 })

below_limit : {S E : Type 0} → ℕ → List ℕ × Option E × S → Answer S E
below_limit remaining (bs, e, s) =
    if ltb remaining (length bs)
    then (take remaining bs, some too_large, record { inner = s; remaining = 0 })
    else (bs, passed e, record { inner = s; remaining = remaining - length bs })

-- The buffer is cut to one byte more than remains.
abbrev pub clipped : ℕ → ℕ → ℕ
clipped remaining size = if ltb (remaining + 1) size then remaining + 1 else size

abbrev pub continue_with : {S E : Type 0} → Answer S E → (Limited S → Answer S E) → Answer S E
continue_with (bs, some e, r) more = (bs, some e, r)
continue_with (bs, none, r) more = let (cs, e, r') = more r in (bs ++ cs, e, r')

module _ {S E : Type 0} (read : Read S E) where
  unfoldable pub read_limited : Limited S → ℕ → Answer S E
  unfolding at_limit below_limit take
  read_limited r size =
      if r.remaining == 0
      then at_limit (read r.inner 1)
      else below_limit r.remaining (read r.inner (clipped r.remaining size))

  -- A consumer that reads with buffers of the given lengths, until an error.
  unfoldable pub drain : Limited S → List ℕ → Answer S E
  unfolding read_limited
  drain r [] = ([], none, r)
  drain r (size ∷ sizes) = continue_with (read_limited r size) (λ r'. drain r' sizes)
