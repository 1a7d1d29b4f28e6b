-- ===== src/Prelude/Text.antt =====
-- Texts: JavaScript's length, in UTF-16 code units, beside the number of characters, and its `trim`.
use Prim.Native.Char.{Char, code}
use Prim.Native.Nat.{ℕ, ◌+◌, ◌≤◌}
use Prim.Native.String.{String, count, [], ◌∷◌}
use mathlib.Core.Bool.{Bool, true, ◌&&◌, ◌||◌}
use mathlib.Core.Option.{Option, none, some}
use mathlib.Core.Path.{◌≡◌, refl}
use text.Mathlib.Text.{◌==◌ as str_eq}
use text.Mathlib.TextLemmas.{length-nil, length-cons}
use native.Mathlib.Omega.{arith}
use jito_india_game.Prelude.Tests.{ltb, leb, ◌==◌, if◌then◌else◌}

-- A character outside the basic plane takes two code units.
abbrev code_units : ℕ → ℕ
code_units c = if ltb c 0x10000 then 1 else 2

-- `s.length` in JavaScript.
unfoldable pub js_length : String → ℕ
js_length [] = 0
js_length (c ∷ s) = code_units (code c) + js_length s

pub count-le-js_length : (s : String) → count s ≤ js_length s
unfolding js_length
count-le-js_length [] = omega (arith, length-nil)
count-le-js_length (c ∷ s) = ground (arith, length-cons c s, count-le-js_length s)

-- White space and line terminators, which `trim` removes.
abbrev is_space : ℕ → Bool
is_space c =
    leb 9 c && leb c 13
    || c == 0x20
    || c == 0xa0
    || c == 0x1680
    || leb 0x2000 c && leb c 0x200a
    || c == 0x2028
    || c == 0x2029
    || c == 0x202f
    || c == 0x205f
    || c == 0x3000
    || c == 0xfeff

unfoldable pub trim_start : String → String
trim_start [] = []
trim_start (c ∷ s) = if is_space (code c) then trim_start s else c ∷ s

abbrev append_unless_space : Bool → Char → String → String
append_unless_space space c [] = if space then [] else c ∷ []
append_unless_space space c (d ∷ s) = c ∷ d ∷ s

unfoldable pub trim_end : String → String
trim_end [] = []
trim_end (c ∷ s) = append_unless_space (is_space (code c)) c (trim_end s)

-- `s.trim()`
unfoldable pub trim : String → String
trim s = trim_end (trim_start s)

-- A value that is `null`, `undefined` or the empty text counts as false.
unfoldable pub is_blank : Option String → Bool
is_blank none = true
is_blank (some s) = str_eq s ""

trims : (trim "  a b " ≡ "a b") × (trim " " ≡ "")
unfolding trim trim_start trim_end
trims = (refl, refl)
