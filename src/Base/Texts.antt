-- ===== src/Base/Texts.antt =====
-- Texts as lists of code units: equality, and the JavaScript string functions the services call.
use Prim.Native.Nat.{ℕ, zero, suc, ◌+◌}
use Prim.Native.Char.{code}
use Prim.Native.String.{String}
use mathlib.Core.Path.{◌≡◌, refl}
use mathlib.Core.Logic.{◌↔◌}
use mathlib.Core.Bool.{Bool, true, false, ◌&&◌, ◌||◌}
use mathlib.Core.Option.{Option, none, some}
use mathlib.Core.List.{List, [], ◌∷◌, map, reverse}
use native.Mathlib.Omega.{arith}
use openseat.Base.Tests.{leb, ◌==◌, if◌then◌else◌}

-- The code units of a literal in the source.
abbrev pub codes : String → List ℕ
codes String.[] = []
codes (String.◌∷◌ c s) = code c ∷ codes s

unfoldable pub text_eq : List ℕ → List ℕ → Bool
text_eq [] [] = true
text_eq [] (b ∷ t) = false
text_eq (a ∷ s) [] = false
text_eq (a ∷ s) (b ∷ t) = a == b && text_eq s t

pub text_eq_iff : (s t : List ℕ) → (text_eq s t ≡ true) ↔ (s ≡ t)
unfolding text_eq
text_eq_iff [] [] = ground arith
text_eq_iff [] (b ∷ t) = ground arith
text_eq_iff (a ∷ s) [] = ground arith
text_eq_iff (a ∷ s) (b ∷ t) = ground (arith, text_eq_iff s t)

pub text_eq_refl : (s : List ℕ) → text_eq s s ≡ true
text_eq_refl s = (text_eq_iff s s).1 refl

-- `column = value` for a text column that may be null.
unfoldable pub is_text : Option (List ℕ) → List ℕ → Bool
is_text none t = false
is_text (some s) t = text_eq s t

-- A header that is absent or empty is falsy.
unfoldable pub truthy : Option (List ℕ) → Bool
truthy none = false
truthy (some []) = false
truthy (some (c ∷ s)) = true

-- The white space and line terminators that `trim` removes.
unfoldable pub is_space : ℕ → Bool
is_space c =
    (leb 9 c && leb c 13)
    || c == 32
    || c == 0xa0
    || c == 0x1680
    || (leb 0x2000 c && leb c 0x200a)
    || c == 0x2028
    || c == 0x2029
    || c == 0x202f
    || c == 0x205f
    || c == 0x3000
    || c == 0xfeff

unfoldable pub trim_start : List ℕ → List ℕ
unfolding is_space
trim_start [] = []
trim_start (c ∷ s) = if is_space c then trim_start s else c ∷ s

unfoldable pub trim : List ℕ → List ℕ
unfolding trim_start
trim s = reverse (trim_start (reverse (trim_start s)))

-- `toLowerCase` on ASCII; other code units stay.
unfoldable pub lower_code : ℕ → ℕ
lower_code c = if leb b'A' c && leb c b'Z' then c + 32 else c

abbrev pub to_lower_case : List ℕ → List ℕ
to_lower_case = map lower_code

-- `slice(0, n)`
unfoldable pub slice : ℕ → List ℕ → List ℕ
slice zero s = []
slice (suc n) [] = []
slice (suc n) (c ∷ s) = c ∷ slice n s

-- `split('@')[0]`, for any separator
unfoldable pub before : ℕ → List ℕ → List ℕ
before sep [] = []
before sep (c ∷ s) = if c == sep then [] else c ∷ before sep s
