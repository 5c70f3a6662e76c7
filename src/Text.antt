-- ===== src/Text.antt =====
-- The Go strings that the program handles, as lists of code points, and what it uses of the
-- packages strings, unicode and encoding/hex. A string that is not valid UTF-8 is not modelled.
pub mod Laws
pub mod Blank
use Prim.Native.Char.{code}
use Prim.Native.String.{String}
use provider_infrastructure.Prelude.{
  ℕ, ◌+◌, ◌-◌, ◌%◌, Bool, true, false, ◌&&◌, ◌||◌, List, [], ◌∷◌, ◌++◌, Option, none, some, reverse,
  length, all, ltb, leb, ◌==◌, if◌then◌else◌,
}

abbrev pub Text : Type 0
Text = List ℕ

-- The code points of a literal.
abbrev pub codes : String → Text
codes String.[] = []
codes (String.◌∷◌ c s) = code c ∷ codes s

-- `a == b` on strings.
unfoldable pub text_eq : Text → Text → Bool
text_eq [] [] = true
text_eq (a ∷ s) (b ∷ t) = a == b && text_eq s t
text_eq _ _ = false

-- `a < b` on strings: bytewise, which is the order of the code points.
unfoldable pub text_lt : Text → Text → Bool
text_lt [] [] = false
text_lt [] (b ∷ t) = true
text_lt (a ∷ s) [] = false
text_lt (a ∷ s) (b ∷ t) = ltb a b || (a == b && text_lt s t)

abbrev pub is_empty : Text → Bool
is_empty [] = true
is_empty (c ∷ s) = false

-- `len(s)`: the bytes of the UTF-8 encoding.
abbrev pub rune_len : ℕ → ℕ
rune_len c = if ltb c 0x80 then 1 else if ltb c 0x800 then 2 else if ltb c 0x1_0000 then 3 else 4

unfoldable pub byte_len : Text → ℕ
byte_len [] = 0
byte_len (c ∷ s) = rune_len c + byte_len s

-- unicode.IsSpace
unfoldable pub is_space : ℕ → Bool
is_space c =
    (leb 0x09 c && leb c 0x0d)
    || c == 0x20
    || c == 0x85
    || c == 0xa0
    || c == 0x1680
    || (leb 0x2000 c && leb c 0x200a)
    || c == 0x2028
    || c == 0x2029
    || c == 0x202f
    || c == 0x205f
    || c == 0x3000

unfoldable pub trim_left : Text → Text
unfolding is_space
trim_left [] = []
trim_left (c ∷ s) = if is_space c then trim_left s else c ∷ s

-- strings.TrimSpace
unfoldable pub trim_space : Text → Text
unfolding trim_left
trim_space s = reverse (trim_left (reverse (trim_left s)))

-- strings.ContainsRune
unfoldable pub contains_rune : Text → ℕ → Bool
contains_rune [] c = false
contains_rune (d ∷ s) c = d == c || contains_rune s c

-- strings.HasPrefix, with what follows the prefix.
unfoldable pub cut_prefix : Text → Text → Option Text
cut_prefix s [] = some s
cut_prefix [] (c ∷ p) = none
cut_prefix (d ∷ s) (c ∷ p) = if d == c then cut_prefix s p else none

-- strings.TrimPrefix
unfoldable pub trim_prefix : Text → Text → Text
unfolding cut_prefix
trim_prefix s p = elim (cut_prefix s p) [ none ↦ s | some rest ↦ rest ]

-- strings.CutSuffix
unfoldable pub cut_suffix : Text → Text → Option Text
unfolding cut_prefix
cut_suffix s suffix = elim (cut_prefix (reverse s) (reverse suffix)) [
  | none ↦ none
  | some front ↦ some (reverse front)
]

-- `strings.Split(s, sep)` at a separator of one character, over the part read so far.
unfoldable pub split_from : Text → Text → ℕ → List Text
split_from part [] sep = part ∷ []
split_from part (c ∷ s) sep =
    let cut = part ∷ split_from [] s sep in
    let longer = split_from (part ++ c ∷ []) s sep in if c == sep then cut else longer

unfoldable pub split : Text → ℕ → List Text
unfolding split_from
split s sep = split_from [] s sep

-- `strings.Join(parts, sep)` at a separator of one character.
unfoldable pub join : List Text → ℕ → Text
join [] sep = []
join (part ∷ []) sep = part
join (part ∷ next ∷ parts) sep = part ++ (sep ∷ join (next ∷ parts) sep)

-- unicode.ToLower on the code points whose lower case is an ASCII letter; any other stays as it
-- is, which is exact where the result is compared with ASCII text.
unfoldable pub rune_lower : ℕ → ℕ
rune_lower c =
    if leb b'A' c && leb c b'Z'
    then c + 32
    else if c == 0x130
    then b'i'
    else if c == 0x212a
    then b'k'
    else c

unfoldable pub to_lower : Text → Text
unfolding rune_lower
to_lower [] = []
to_lower (c ∷ s) = rune_lower c ∷ to_lower s

abbrev pub is_lower_hex : ℕ → Bool
is_lower_hex c = (leb b'0' c && leb c b'9') || (leb b'a' c && leb c b'f')

-- A digit that encoding/hex reads.
abbrev pub is_hex : ℕ → Bool
is_hex c = is_lower_hex c || (leb b'A' c && leb c b'F')

-- `hex.DecodeString(s)` returns no error.
unfoldable pub hex_decodes : Text → Bool
hex_decodes s = length s % 2 == 0 && all is_hex s

-- `strings.Trim(s, "0123456789abcdef") != ""` does not hold.
unfoldable pub only_lower_hex : Text → Bool
only_lower_hex s = all is_lower_hex s
