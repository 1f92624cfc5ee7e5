-- ===== src/Prelude/Text/Blank.antt =====
-- `strings.TrimSpace` and white space.
use Prim.Native.Char.{code}
use Prim.Native.String.{String}
use mathlib.Core.Path.{◌≡◌, refl}
use mathlib.Core.Bool.{true, ◌&&◌}
use mathlib.Core.Logic.{◌↔◌, inl, inr}
use native.Mathlib.Omega.{arith}
use oms_go.Prelude.Tests.{Bool-cases}
use oms_go.Prelude.Lists.{All}
use oms_go.Prelude.Text.{codes, is_empty, is_space, trim_left, trim_right, trim_space}

abbrev pub IsBlank : String → Type 0
IsBlank s = All (λ c. is_space c ≡ true) (codes s)

trim_right-IsBlank : (s : String) → is_empty (trim_right s) ≡ true → IsBlank s
unfolding trim_right
trim_right-IsBlank String.[] h = tt
trim_right-IsBlank (String.◌∷◌ c s) h =
    elim (Bool-cases (is_empty (trim_right s) && is_space (code c))) [
      | inl b ↦ (ground arith, trim_right-IsBlank s (ground arith))
      | inr b ↦ absurd (cc (rw b at h))
    ]

blank-trim_right : (s : String) → IsBlank s → is_empty (trim_right s) ≡ true
unfolding trim_right
blank-trim_right String.[] h = refl
blank-trim_right (String.◌∷◌ c s) h = rw (blank-trim_right s h.1, h.0)

trim_left-IsBlank : (s : String) → IsBlank s → IsBlank (trim_left s)
unfolding trim_left
trim_left-IsBlank String.[] h = tt
trim_left-IsBlank (String.◌∷◌ c s) h = rw h.0 (trim_left-IsBlank s h.1)

IsBlank-trim_left : (s : String) → IsBlank (trim_left s) → IsBlank s
unfolding trim_left
IsBlank-trim_left String.[] h = tt
IsBlank-trim_left (String.◌∷◌ c s) h = elim (Bool-cases (is_space (code c))) [
  | inl b ↦ (b, IsBlank-trim_left s (rw b at h))
  | inr b ↦ rw b at h
]

eq-nil_of_is_empty : (s : String) → is_empty s ≡ true → s ≡ ""
eq-nil_of_is_empty String.[] h = refl
eq-nil_of_is_empty (String.◌∷◌ c s) h = cc

-- `strings.TrimSpace(s) == ""` says that every code point of s is white space.
pub trim_space-empty_iff : (s : String) → (trim_space s ≡ "") ↔ IsBlank s
unfolding trim_space
trim_space-empty_iff s = (
  λ h. IsBlank-trim_left s (trim_right-IsBlank (trim_left s) (rw h)),
  λ h. eq-nil_of_is_empty _ (blank-trim_right (trim_left s) (trim_left-IsBlank s h)),
)
