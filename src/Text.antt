-- ===== src/Text.antt =====
-- The functions of Go's strings, bytes and unicode/utf8 packages that the program calls, on the
-- bytes of a text. `code` of an ASCII literal is its byte.
pub mod Laws
pub mod Decimal
pub mod Replace
use Prim.Native.Char.{code}
use Prim.Native.String.{String}
use mathlib.Core.List.{reverse}
use vela_dns.Base.{
  ℕ, zero, suc, ◌+◌, ◌-◌, Bool, true, false, ◌&&◌, ◌||◌, not, ltb, leb, ◌==◌, if◌then◌else◌, Option,
  none, some, List, [], ◌∷◌, ◌++◌, map, get_or,
}

abbrev pub Bytes : Type 0
Bytes = List ℕ

abbrev pub codes : String → Bytes
codes String.[] = []
codes (String.◌∷◌ c s) = code c ∷ codes s

abbrev pub is_empty : Bytes → Bool
is_empty [] = true
is_empty (c ∷ cs) = false

abbrev pub all_bytes : (ℕ → Bool) → Bytes → Bool
all_bytes p [] = true
all_bytes p (c ∷ cs) = p c && all_bytes p cs

unfoldable pub equal : Bytes → Bytes → Bool
equal [] [] = true
equal (x ∷ xs) (y ∷ ys) = x == y && equal xs ys
equal _ _ = false

unfoldable pub has_prefix : Bytes → Bytes → Bool
has_prefix [] s = true
has_prefix (p ∷ ps) [] = false
has_prefix (p ∷ ps) (c ∷ cs) = p == c && has_prefix ps cs

-- strings.Contains, the part that is sought first
unfoldable pub contains : Bytes → Bytes → Bool
unfolding has_prefix
contains part [] = has_prefix part []
contains part (c ∷ cs) = has_prefix part (c ∷ cs) || contains part cs

abbrev within : ℕ → ℕ → ℕ → Bool
within lo hi c = leb lo c && leb c hi

abbrev pub is_ascii_space : ℕ → Bool
is_ascii_space c = within 9 13 c || c == 32

abbrev pub is_wide_space : ℕ → ℕ → ℕ → Bool
is_wide_space a b c =
    (a == 0xe1 && b == 0x9a && c == 0x80)
    || (a == 0xe2 && b == 0x80 && (within 0x80 0x8a c || c == 0xa8 || c == 0xa9 || c == 0xaf))
    || (a == 0xe2 && b == 0x81 && c == 0x9f)
    || (a == 0xe3 && b == 0x80 && c == 0x80)

abbrev pub is_latin_space : ℕ → ℕ → Bool
is_latin_space a b = a == 0xc2 && (b == 0x85 || b == 0xa0)

-- The number of bytes of the white space character (unicode.IsSpace) that a text begins with, or 0.
-- A missing byte reads as 0, which is no part of one.
unfoldable pub space_width : Bytes → ℕ
space_width s =
    let a = get_or s 0 0 in
    let b = get_or s 1 0 in
    if is_ascii_space a
    then 1
    else if is_latin_space a b
    then 2
    else if is_wide_space a b (get_or s 2 0)
    then 3
    else 0

-- The same for the end of a text, by its bytes from the last one on.
unfoldable pub space_width_end : Bytes → ℕ
space_width_end r =
    let a = get_or r 0 0 in
    let b = get_or r 1 0 in
    if is_ascii_space a
    then 1
    else if is_latin_space b a
    then 2
    else if is_wide_space (get_or r 2 0) b a
    then 3
    else 0

-- Drops characters that `width` measures, the first of them after as many bytes as are counted.
unfoldable pub drop_spaces : (Bytes → ℕ) → ℕ → Bytes → Bytes
drop_spaces width (suc k) [] = []
drop_spaces width zero [] = []
drop_spaces width (suc k) (c ∷ cs) = drop_spaces width k cs
drop_spaces width zero (c ∷ cs) =
    let w = width (c ∷ cs) in
    let rest = drop_spaces width (w - 1) cs in if w == 0 then c ∷ cs else rest

-- strings.TrimSpace
unfoldable pub trim_space : Bytes → Bytes
unfolding drop_spaces space_width space_width_end
trim_space s = reverse (drop_spaces space_width_end 0 (reverse (drop_spaces space_width 0 s)))

-- strings.IndexFunc(s, unicode.IsSpace) >= 0, on valid UTF-8, where a character begins at each byte
-- that can begin one
unfoldable pub any_space : Bytes → Bool
unfolding space_width
any_space [] = false
any_space (c ∷ cs) = not (space_width (c ∷ cs) == 0) || any_space cs

-- What must follow a byte that begins a character: how many bytes, and the range of the first.
abbrev expects : ℕ → Option (ℕ × ℕ × ℕ)
expects c =
    if ltb c 0x80
    then some (0, 0x80, 0xbf)
    else if within 0xc2 0xdf c
    then some (1, 0x80, 0xbf)
    else if c == 0xe0
    then some (2, 0xa0, 0xbf)
    else if c == 0xed
    then some (2, 0x80, 0x9f)
    else if within 0xe1 0xef c
    then some (2, 0x80, 0xbf)
    else if c == 0xf0
    then some (3, 0x90, 0xbf)
    else if c == 0xf4
    then some (3, 0x80, 0x8f)
    else if within 0xf1 0xf3 c
    then some (3, 0x80, 0xbf)
    else none

unfoldable pub valid_from : ℕ → ℕ → ℕ → Bytes → Bool
valid_from zero lo hi [] = true
valid_from (suc n) lo hi [] = false
valid_from (suc n) lo hi (c ∷ cs) = within lo hi c && valid_from n 0x80 0xbf cs
valid_from zero lo hi (c ∷ cs) = elim (expects c) [
  | some (n, lo', hi') ↦ valid_from n lo' hi' cs
  | none ↦ false
]

-- utf8.ValidString
unfoldable pub valid_utf8 : Bytes → Bool
unfolding valid_from
valid_utf8 s = valid_from 0 0x80 0xbf s

abbrev pub lower_byte : ℕ → ℕ
lower_byte c = if within b'A' b'Z' c then c + 32 else c

unfoldable pub is_ascii : Bytes → Bool
is_ascii [] = true
is_ascii (c ∷ cs) = ltb c 0x80 && is_ascii cs

-- strings.ToLower; `other` is its result on a text with a character outside of ASCII, which takes
-- the tables of Unicode
unfoldable pub to_lower : (Bytes → Bytes) → Bytes → Bytes
unfolding is_ascii
to_lower other s = if is_ascii s then map lower_byte s else other s

abbrev pub prepend : ℕ → List Bytes → List Bytes
prepend c [] = (c ∷ []) ∷ []
prepend c (l ∷ ls) = (c ∷ l) ∷ ls

-- strings.Split at one byte
unfoldable pub split : ℕ → Bytes → List Bytes
split sep [] = [] ∷ []
split sep (c ∷ cs) = let rest = split sep cs in if c == sep then [] ∷ rest else prepend c rest

-- strings.Join by one byte
unfoldable pub join : ℕ → List Bytes → Bytes
join sep [] = []
join sep (l ∷ []) = l
join sep (l ∷ m ∷ ls) = l ++ (sep ∷ join sep (m ∷ ls))

-- strings.Cut at one byte; none where the byte is not found
unfoldable pub cut : ℕ → Bytes → Option (Bytes × Bytes)
cut sep [] = none
cut sep (c ∷ cs) =
    let rest = cut sep cs in
    if c == sep then some ([], cs) else elim rest [ some (a, b) ↦ some (c ∷ a, b) | none ↦ none ]

-- strings.TrimSuffix of one byte
unfoldable pub trim_suffix : ℕ → Bytes → Bytes
trim_suffix b [] = []
trim_suffix b (c ∷ []) = if c == b then [] else c ∷ []
trim_suffix b (c ∷ d ∷ r) = c ∷ trim_suffix b (d ∷ r)
