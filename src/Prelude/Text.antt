-- ===== src/Prelude/Text.antt =====
-- Text as the source uses it: `${n}` for a number, truthiness, trimmed emptiness.
use Prim.Native.Nat.{ℕ, zero, suc, ◌+◌, ◌/◌, ◌%◌}
use Prim.Native.String.{String, ◌++◌}
use mathlib.Core.Path.{◌≡◌, refl}
use mathlib.Core.Bool.{Bool, true, false, not, ◌&&◌, ◌||◌}
use Prim.Native.Char.{code}
use luma_line.Prelude.Tests.{ltb, leb, ◌==◌, if◌then◌else◌}

-- A string is truthy unless it is empty.
abbrev pub truthy : String → Bool
truthy String.[] = false
truthy (String.◌∷◌ c s) = true

digit : ℕ → String
digit n =
    if n == 0
    then "0"
    else if n == 1
    then "1"
    else if n == 2
    then "2"
    else if n == 3
    then "3"
    else if n == 4
    then "4"
    else if n == 5
    then "5"
    else if n == 6
    then "6"
    else if n == 7
    then "7"
    else if n == 8
    then "8"
    else "9"

-- Each round drops a digit, so `n + 1` rounds are enough.
show_from : ℕ → ℕ → String
show_from zero n = ""
show_from (suc f) n =
    let rest = show_from f (n / 10) in if ltb n 10 then digit n else rest ++ digit (n % 10)

-- A natural number in a template literal.
unfoldable pub show : ℕ → String
unfolding digit show_from
show n = show_from (n + 1) n

show_runs : show 1207 ≡ "1207"
unfolding show
show_runs = refl

-- Template literals are chains of these.
infixr 64 ◌&◌
abbrev pub ◌&◌ : String → String → String
s & t = s ++ t

-- `s.startsWith(p)`
abbrev pub starts_with : String → String → Bool
starts_with s String.[] = true
starts_with String.[] (String.◌∷◌ d p) = false
starts_with (String.◌∷◌ c s) (String.◌∷◌ d p) = (code c == code d) && starts_with s p

-- The white space and line ends of ECMAScript.
unfoldable pub is_space : ℕ → Bool
is_space c =
    (leb 9 c && leb c 13)
    || c == 32
    || c == 0xa0
    || c == 0x1680
    || (leb 0x2000 c && leb c 0x200a)
    || c == 0x2028
    || c == 0x2029
    || c == 0x202f
    || c == 0x205f
    || c == 0x3000
    || c == 0xfeff

unfoldable pub trim_start : String → String
trim_start String.[] = ""
trim_start (String.◌∷◌ c s) = if is_space (code c) then trim_start s else String.◌∷◌ c s

unfoldable pub trim_end : String → String
trim_end String.[] = ""
trim_end (String.◌∷◌ c s) =
    let rest = trim_end s in
    if is_space (code c) && not (truthy rest) then "" else String.◌∷◌ c rest

-- `s.trim()`
unfoldable pub trim : String → String
unfolding trim_start trim_end is_space
trim s = trim_end (trim_start s)
