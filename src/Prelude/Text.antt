-- ===== src/Prelude/Text.antt =====
-- Text two ways. A text that the program only compares is a `String`, a sequence of Unicode
-- scalar values; a text that it builds, cuts or walks is its UTF-8 encoding, a list of bytes.
use Prim.Native.Nat.{ℕ, ◌+◌, ◌/◌, ◌%◌}
use Prim.Native.Char.{Char, code}
use Prim.Native.String.{String}
use mathlib.Core.Bool.{Bool, ◌&&◌, ◌||◌}
use text.Mathlib.Text.{◌==◌}
use mathlib.Core.List.{List, [], ◌∷◌, ◌++◌}
use continuum_plugin_bookwar.Prelude.Tests.{ltb, leb, eqb, if◌then◌else◌}

abbrev pub Bytes : Type 0
Bytes = List ℕ

-- The scalar values of a text; these are its bytes when the text is ASCII.
abbrev pub codes : String → List ℕ
codes String.[] = []
codes (String.◌∷◌ c s) = code c ∷ codes s

-- The UTF-8 encoding of one scalar value.
pub utf8_rune : ℕ → Bytes
utf8_rune c =
    if ltb c 0x80
    then c ∷ []
    else if ltb c 0x800
    then (0xC0 + c / 0x40) ∷ (0x80 + c % 0x40) ∷ []
    else if ltb c 0x10000
    then (0xE0 + c / 0x1000) ∷ (0x80 + c / 0x40 % 0x40) ∷ (0x80 + c % 0x40) ∷ []
    else (0xF0 + c / 0x40000)
      ∷ (0x80 + c / 0x1000 % 0x40)
      ∷ (0x80 + c / 0x40 % 0x40)
      ∷ (0x80 + c % 0x40)
      ∷ []

pub utf8_runes : List ℕ → Bytes
utf8_runes [] = []
utf8_runes (c ∷ cs) = utf8_rune c ++ utf8_runes cs

-- The bytes of a Go string.
unfoldable pub utf8 : String → Bytes
unfolding utf8_rune utf8_runes
utf8 s = utf8_runes (codes s)

-- unicode.IsSpace
is_space : ℕ → Bool
is_space c =
    leb 0x09 c && leb c 0x0D
    || eqb c 0x20
    || eqb c 0x85
    || eqb c 0xA0
    || eqb c 0x1680
    || leb 0x2000 c && leb c 0x200A
    || eqb c 0x2028
    || eqb c 0x2029
    || eqb c 0x202F
    || eqb c 0x205F
    || eqb c 0x3000

trim_left : String → String
unfolding is_space
trim_left String.[] = ""
trim_left (String.◌∷◌ c s) =
    let rest = trim_left s in if is_space (code c) then rest else String.◌∷◌ c s

trim_right : String → String
unfolding is_space
trim_right String.[] = ""
trim_right (String.◌∷◌ c s) =
    let rest = trim_right s in if rest == "" && is_space (code c) then "" else String.◌∷◌ c rest

-- strings.TrimSpace
unfoldable pub trim_space : String → String
unfolding trim_left trim_right
trim_space s = trim_right (trim_left s)

-- the letter that stands in `lower` where `upper` has `c`
swap_case : String → String → Char → Char
swap_case (String.◌∷◌ u us) (String.◌∷◌ l ls) c =
    let rest = swap_case us ls c in if eqb (code u) (code c) then l else rest
swap_case _ _ c = c

-- unicode.ToLower on the letters whose lower case is in ASCII: A–Z, İ (U+0130) and K (U+212A). The
-- others have a lower case outside ASCII; they are left as they are, which no caller can tell,
-- since each compares the result with words in ASCII alone.
lower_char : Char → Char
unfolding swap_case
lower_char c = swap_case "ABCDEFGHIJKLMNOPQRSTUVWXYZİK" "abcdefghijklmnopqrstuvwxyzik" c

-- strings.ToLower
unfoldable pub to_lower : String → String
unfolding lower_char
to_lower String.[] = ""
to_lower (String.◌∷◌ c s) = String.◌∷◌ (lower_char c) (to_lower s)
