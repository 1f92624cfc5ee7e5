-- ===== src/Prelude/Numbers.antt =====
-- `strconv.Atoi`, where int has 64 bits.
use Prim.Native.Nat.{ℕ, ◌+◌, ◌*◌, ◌-◌, ◌^◌}
use Prim.Native.String.{String}
use mathlib.Core.Path.{◌≡◌, refl}
use mathlib.Core.Bool.{◌&&◌}
use mathlib.Core.List.{List, [], ◌∷◌}
use mathlib.Core.Option.{Option, none, some}
use oms_go.Prelude.Tests.{ltb, leb, ◌==◌, if◌then◌else◌}
use oms_go.Prelude.Text.{codes}
use oms_go.Prelude.Int.{ℤ, pos, negsuc}

digits_from : ℕ → List ℕ → Option ℕ
digits_from acc [] = some acc
digits_from acc (c ∷ cs) =
    let rest = digits_from (acc * 10 + (c - b'0')) cs in
    if leb b'0' c && leb c b'9' then rest else none

-- At least one digit, and nothing else.
digits : List ℕ → Option ℕ
digits [] = none
digits (c ∷ cs) = digits_from 0 (c ∷ cs)

abbrev positive : Option ℕ → Option ℤ
positive none = none
positive (some n) = if ltb n (2 ^ 63) then some (pos n) else none

abbrev negative : Option ℕ → Option ℤ
negative none = none
negative (some n) =
    if n == 0 then some (pos 0) else if leb n (2 ^ 63) then some (negsuc (n - 1)) else none

signed : List ℕ → Option ℤ
unfolding digits digits_from
signed [] = none
signed (c ∷ cs) =
    if c == b'+'
    then positive (digits cs)
    else if c == b'-'
    then negative (digits cs)
    else positive (digits (c ∷ cs))

-- `none` is an error: no number, or one that does not fit.
unfoldable pub atoi : String → Option ℤ
unfolding signed
atoi s = signed (codes s)

atoi_test :
    (atoi "100" ≡ some (pos 100))
    × (atoi "-7" ≡ some (negsuc 6))
    × (atoi " 7" ≡ none)
    × (atoi "" ≡ none)
    × (atoi "9223372036854775808" ≡ none)
unfolding atoi
atoi_test = (refl, refl, refl, refl, refl)
