-- ===== src/Text.antt =====
-- Go strings. A text is the sequence that `range` walks: a code point below 0x110000, or a byte b
-- that is not part of valid UTF-8, written as 0x110000 + b and one byte wide. Every Go string is
-- exactly one such sequence. The functions are those that the source calls of `strings`,
-- `unicode` and `unicode/utf8`; the lower case of a letter outside ASCII is a parameter.
pub mod Laws
use Prim.Native.Char.{code}
use Prim.Native.String.{String}
use project_progress_registe.Base.{
  ℕ, zero, suc, ◌+◌, ◌-◌, Bool, true, false, not, ◌&&◌, ◌||◌, List, [], ◌∷◌, map, ltb, leb, ◌==◌,
  if◌then◌else◌,
}

abbrev pub Text : Type 0
Text = List ℕ

-- A literal of the source.
abbrev pub codes : String → Text
codes String.[] = []
codes (String.◌∷◌ c s) = code c ∷ codes s

abbrev pub text_eq : Text → Text → Bool
text_eq [] [] = true
text_eq [] (d ∷ t) = false
text_eq (c ∷ s) [] = false
text_eq (c ∷ s) (d ∷ t) = if c == d then text_eq s t else false

abbrev pub is_blank : Text → Bool
is_blank [] = true
is_blank (c ∷ s) = false

abbrev pub bad_byte : ℕ
bad_byte = 0x110000

-- The bytes that a rune takes in UTF-8; a stray byte takes one.
abbrev pub rune_len : ℕ → ℕ
rune_len c =
    if ltb c 0x80
    then 1
    else if ltb c 0x800
    then 2
    else if ltb c 0x10000
    then 3
    else if ltb c bad_byte
    then 4
    else 1

-- `len(s)`
unfoldable pub byte_len : Text → ℕ
byte_len [] = 0
byte_len (c ∷ s) = rune_len c + byte_len s

-- `utf8.RuneCountInString`
unfoldable pub rune_count : Text → ℕ
rune_count [] = 0
rune_count (c ∷ s) = suc (rune_count s)

-- `utf8.ValidString`
unfoldable pub valid_string : Text → Bool
valid_string [] = true
valid_string (c ∷ s) = ltb c bad_byte && valid_string s

-- `unicode.IsSpace`
unfoldable pub is_space : ℕ → Bool
is_space c =
    (leb 9 c && leb c 13)
    || c == 0x20
    || c == 0x85
    || c == 0xa0
    || c == 0x1680
    || (leb 0x2000 c && leb c 0x200a)
    || c == 0x2028
    || c == 0x2029
    || c == 0x202f
    || c == 0x205f
    || c == 0x3000

unfoldable pub trim_left : Text → Text
unfolding is_space
trim_left [] = []
trim_left (c ∷ s) = if is_space c then trim_left s else c ∷ s

-- A text of spaces alone leaves nothing.
unfoldable pub trim_right : Text → Text
unfolding is_space
trim_right [] = []
trim_right (c ∷ s) = let rest = trim_right s in if is_space c && is_blank rest then [] else c ∷ rest

-- `strings.TrimSpace`
unfoldable pub trim_space : Text → Text
unfolding trim_left trim_right
trim_space s = trim_right (trim_left s)

-- `unicode.ToLower`: `lower` is its table beyond ASCII. A stray byte is read as U+FFFD.
unfoldable pub to_lower_rune : (ℕ → ℕ) → ℕ → ℕ
to_lower_rune lower c =
    if ltb c 0x80
    then if leb b'A' c && leb c b'Z' then c + 32 else c
    else lower (if ltb c bad_byte then c else 0xfffd)

-- `strings.ToLower`
unfoldable pub to_lower : (ℕ → ℕ) → Text → Text
unfolding to_lower_rune
to_lower lower s = map (to_lower_rune lower) s

-- `strings.ContainsAny`, and a test of every rune by a character class.
unfoldable pub contains_rune : ℕ → Text → Bool
contains_rune c [] = false
contains_rune c (d ∷ t) = c == d || contains_rune c t

unfoldable pub contains_any : Text → Text → Bool
unfolding contains_rune
contains_any [] set = false
contains_any (c ∷ s) set = contains_rune c set || contains_any s set

unfoldable pub every : (ℕ → Bool) → Text → Bool
every p [] = true
every p (c ∷ s) = p c && every p s
