-- ===== src/Text.antt =====
-- The methods of Rust's `str` that the code calls, over the native texts: `trim`, `split`,
-- `split_once`, `replace`, `starts_with` and `to_ascii_uppercase`. `len` counts bytes of UTF-8.
pub mod Escape
pub mod Number
pub mod Display
pub mod Bytes
use Prim.Native.Nat.{compare, Ordering}
use Prim.Native.Char.{Char, code, char, nul}
use Prim.Native.String.{◌++◌ as append}
use lumina_analytics.Prelude.{
  ℕ, ◌-◌, ◌<◌, String, ◌≡◌, refl, Bool, true, false, ◌&&◌, ◌||◌, Option, none, some, List, [], ◌∷◌,
  arith, leb, ◌==◌, if◌then◌else◌, str_eq,
}

scalar_from : (n : ℕ) (o : Ordering) → compare n 55296 ≡ o → Char
scalar_from n Ordering.lt e = char n (rw e tt)
scalar_from n Ordering.eq e = nul
scalar_from n Ordering.gt e = nul

-- The character of a code below the surrogates.
unfoldable pub char_of : ℕ → Char
unfolding scalar_from
char_of n = scalar_from n (compare n 55296) refl

pub code-char_of : (n : ℕ) → n < 55296 → code (char_of n) ≡ n
unfolding char_of
code-char_of n h = ground arith

abbrev pub char_eq : Char → Char → Bool
char_eq c d = code c == code d

abbrev pub is_empty : String → Bool
is_empty s = str_eq s ""

-- `char::is_whitespace`: the code points with the property White_Space.
unfoldable pub is_whitespace : Char → Bool
is_whitespace c =
    let n = code c in
    (leb 0x9 n && leb n 0xd)
    || n == 0x20
    || n == 0x85
    || n == 0xa0
    || n == 0x1680
    || (leb 0x2000 n && leb n 0x200a)
    || n == 0x2028
    || n == 0x2029
    || n == 0x202f
    || n == 0x205f
    || n == 0x3000

unfoldable pub trim_start : String → String
trim_start String.[] = ""
trim_start (String.◌∷◌ c s) = if is_whitespace c then trim_start s else String.◌∷◌ c s

unfoldable pub trim_end : String → String
trim_end String.[] = ""
trim_end (String.◌∷◌ c s) =
    let rest = trim_end s in if is_empty rest && is_whitespace c then "" else String.◌∷◌ c rest

unfoldable pub trim : String → String
unfolding trim_start trim_end is_whitespace
trim s = trim_end (trim_start s)

-- `split_once` at a character.
unfoldable pub split_once : ℕ → String → Option (String × String)
split_once k String.[] = none
split_once k (String.◌∷◌ c s) =
    let rest = split_once k s in
    if code c == k
    then some ("", s)
    else elim rest [ none ↦ none | some (a, b) ↦ some (String.◌∷◌ c a, b) ]

abbrev cons_first : Char → List String → List String
cons_first c [] = String.◌∷◌ c "" ∷ []
cons_first c (s ∷ rest) = String.◌∷◌ c s ∷ rest

-- `split` at a character: always at least one piece.
unfoldable pub split : ℕ → String → List String
split k String.[] = "" ∷ []
split k (String.◌∷◌ c s) =
    let rest = split k s in if code c == k then "" ∷ rest else cons_first c rest

-- `replace` of a character by a text.
unfoldable pub replace : ℕ → String → String → String
replace k r String.[] = ""
replace k r (String.◌∷◌ c s) =
    let rest = replace k r s in if code c == k then append r rest else String.◌∷◌ c rest

unfoldable pub upper : Char → Char
upper c = if leb b'a' (code c) && leb (code c) b'z' then char_of (code c - 32) else c

unfoldable pub to_ascii_uppercase : String → String
unfolding upper char_of
to_ascii_uppercase String.[] = ""
to_ascii_uppercase (String.◌∷◌ c s) = String.◌∷◌ (upper c) (to_ascii_uppercase s)

trim_runs : trim "  USDC \t " ≡ "USDC"
unfolding trim
trim_runs = refl

upper_runs : to_ascii_uppercase "Medium" ≡ "MEDIUM"
unfolding to_ascii_uppercase
upper_runs = refl

split_runs : split b',' "a,,b" ≡ "a" ∷ "" ∷ "b" ∷ []
unfolding split
split_runs = refl

split_once_runs : split_once b':' "USDC:G:X" ≡ some ("USDC", "G:X")
unfolding split_once
split_once_runs = refl

-- `starts_with`: the second text is a prefix of the first one.
unfoldable pub starts_with : String → String → Bool
starts_with s String.[] = true
starts_with String.[] (String.◌∷◌ p prefix) = false
starts_with (String.◌∷◌ c s) (String.◌∷◌ p prefix) = char_eq c p && starts_with s prefix
