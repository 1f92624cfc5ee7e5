-- ===== src/Prelude/Text/Words.antt =====
-- `strings.Fields`, `strings.Split` at one character, `strings.ToUpper` and `strings.HasPrefix`.
use Prim.Native.Char.{Char, code}
use Prim.Native.Nat.{ℕ, ◌-◌}
use Prim.Native.String.{String}
use mathlib.Core.Path.{◌≡◌, refl, ap}
use mathlib.Core.Logic.{◌≢◌}
use mathlib.Core.Bool.{Bool, true, false, ◌&&◌}
use mathlib.Core.List.{List, [], ◌∷◌, map}
use oms_go.Prelude.Tests.{leb, ◌==◌, if◌then◌else◌, ==_iff}
use oms_go.Prelude.Lists.{All}
use oms_go.Prelude.Text.{codes, is_space, ◌<>◌}

abbrev cons_first : Char → List String → List String
cons_first c [] = String.◌∷◌ c "" ∷ []
cons_first c (w ∷ ws) = String.◌∷◌ c w ∷ ws

-- `strings.Split(s, sep)`, for a separator of one character.
unfoldable pub split_on : ℕ → String → List String
split_on sep String.[] = "" ∷ []
split_on sep (String.◌∷◌ c s) =
    let rest = split_on sep s in if code c == sep then "" ∷ rest else cons_first c rest

abbrev starts_word : String → Bool
starts_word String.[] = false
starts_word (String.◌∷◌ c s) = if is_space (code c) then false else true

-- `strings.Fields`: the words between white space.
unfoldable pub fields : String → List String
unfolding is_space
fields String.[] = []
fields (String.◌∷◌ c s) =
    let rest = fields s in
    if is_space (code c)
    then rest
    else if starts_word s
    then cons_first c rest
    else String.◌∷◌ c "" ∷ rest

-- `unicode.ToUpper` as far as its result is ASCII: besides a to z, the dotless i and the long s have
-- capitals there. What it does to other letters is never ASCII, and they are kept.
unfoldable pub upper : ℕ → ℕ
upper c =
    if leb b'a' c && leb c b'z'
    then c - 32
    else if c == 0x131
    then b'I'
    else if c == 0x17f
    then b'S'
    else c

-- The code points of `strings.ToUpper(s)`, to be compared with ASCII texts.
abbrev pub upper_codes : String → List ℕ
upper_codes s = map upper (codes s)

abbrev pub codes_eq : List ℕ → List ℕ → Bool
codes_eq [] [] = true
codes_eq (a ∷ as') (b ∷ bs) = a == b && codes_eq as' bs
codes_eq _ _ = false

abbrev pub has_prefix : List ℕ → List ℕ → Bool
has_prefix cs [] = true
has_prefix [] (p ∷ ps) = false
has_prefix (c ∷ cs) (p ∷ ps) = c == p && has_prefix cs ps

-- No character of s is `sep`.
abbrev pub Lacks : ℕ → String → Type 0
Lacks sep s = All (λ c. (c == sep) ≡ false) (codes s)

pub split_on-Lacks : (sep : ℕ) (s : String) → Lacks sep s → split_on sep s ≡ s ∷ []
unfolding split_on
split_on-Lacks sep String.[] h = refl
split_on-Lacks sep (String.◌∷◌ c s) h = rw (h.0, split_on-Lacks sep s h.1)

-- A text without the separator, before a separator and the rest.
pub split_on-first :
    (sep : ℕ) (a : String) (c : Char) (s : String)
    → Lacks sep a
    → code c ≡ sep
    → split_on sep (a <> String.◌∷◌ c s) ≡ a ∷ split_on sep s
unfolding split_on
split_on-first sep String.[] c s h e = rw ((==_iff (code c) sep).1 e)
split_on-first sep (String.◌∷◌ d a) c s h e = rw (h.0, split_on-first sep a c s h.1 e)

-- No character of s is white space.
abbrev pub IsSolid : String → Type 0
IsSolid s = All (λ c. is_space c ≡ false) (codes s)

pub fields-solid : (s : String) → IsSolid s → s ≢ "" → fields s ≡ s ∷ []
unfolding fields
fields-solid String.[] h n = absurd (n refl)
fields-solid (String.◌∷◌ c String.[]) h n = rw h.0
fields-solid (String.◌∷◌ c (String.◌∷◌ d s)) h n =
    let rest = fields-solid (String.◌∷◌ d s) h.1 (λ e. cc) in
    rw (h.0, h.1.0) (ap (cons_first c) (rw h.1.0 at rest))

split_test :
    (split_on b'|' "a|b|" ≡ "a" ∷ "b" ∷ "" ∷ [])
    × (fields " Bearer  x\t" ≡ "Bearer" ∷ "x" ∷ [])
    × (upper_codes "Admin" ≡ codes "ADMIN")
unfolding split_on fields upper
split_test = (refl, refl, refl)
