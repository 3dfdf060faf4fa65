-- ===== src/Prelude/Texts.antt =====
-- Text: native strings, compared by `str_eq`, and read through their code points.
use Prim.Native.Nat.{ℕ, ◌+◌}
use Prim.Native.Char.{code}
use Prim.Native.String.{String}
use mathlib.Core.Bool.{Bool, false, ◌||◌}
use mathlib.Core.List.{List, [], ◌∷◌}
use text.Mathlib.Text.{◌==◌}
use servidor_drive.Prelude.Tests.{leb, if◌then◌else◌}

infix 50 ◌===◌
abbrev pub ◌===◌ : String → String → Bool
s === t = s == t

-- The code points of a text. `String` has its own `[]` and `∷`.
abbrev pub codes : String → List ℕ
codes String.[] = []
codes (String.◌∷◌ c s) = code c ∷ codes s

-- The `length` of a JavaScript string counts UTF-16 units: two for a code point past 0xffff.
abbrev pub utf16_length : List ℕ → ℕ
utf16_length [] = 0
utf16_length (c ∷ cs) = (if leb 0x10000 c then 2 else 1) + utf16_length cs

abbrev pub is_empty : String → Bool
is_empty s = s === ""

-- `Array.prototype.includes` and `Set.prototype.has` on texts
abbrev pub includes : String → List String → Bool
includes k [] = false
includes k (x ∷ xs) = (x === k) || includes k xs
