-- ===== src/Text/Escape.antt =====
-- Three replacements in a row escape each character of a text once.
use lumina_analytics.Prelude.{
  String, ◌≡◌, refl, inl, inr, Bool, ◌||◌, ◌==◌, if◌then◌else◌, ==_iff, Bool-cases,
}
use Prim.Native.Char.{Char, code}
use Prim.Native.String.{◌++◌ as append}
use text.Mathlib.TextEquality.{Char-path}
use text.Mathlib.TextLemmas.{cons-append, nil-append}
use lumina_analytics.Text.{replace, char_of}

abbrev pub backslash : Char
backslash = Prim.Native.Char.char 0x5c tt

-- A backslash in front of a character, the three `replace` calls of `search_like_pattern`.
abbrev pub escape_wildcards : String → String
escape_wildcards s = replace b'_' "\\_" (replace b'%' "\\%" (replace 0x5c "\\\\" s))

abbrev pub is_special : Char → Bool
is_special c = code c == 0x5c || code c == b'%' || code c == b'_'

pair-append :
    (c d : Char) (s : String)
    → append (String.◌∷◌ c (String.◌∷◌ d "")) s ≡ String.◌∷◌ c (String.◌∷◌ d s)
pair-append c d s = rw (cons-append, cons-append, nil-append)

pub escape_wildcards-cons :
    (c : Char) (s : String)
    → escape_wildcards (String.◌∷◌ c s) ≡ (
        if is_special c
        then String.◌∷◌ backslash (String.◌∷◌ c (escape_wildcards s))
        else String.◌∷◌ c (escape_wildcards s))
unfolding replace char_of
escape_wildcards-cons c s = elim (Bool-cases (code c == 0x5c)) [
  | inl e ↦ let p : c ≡ backslash = Char-path _ _ ((==_iff _ _).0 e) in rw (p, pair-append) refl
  | inr e ↦ elim (Bool-cases (code c == b'%')) [
    | inl f ↦
        let p : c ≡ char_of b'%' = Char-path _ _ ((==_iff _ _).0 f) in rw (p, pair-append) refl
    | inr f ↦ elim (Bool-cases (code c == b'_')) [
      | inl g ↦
          let p : c ≡ char_of b'_' = Char-path _ _ ((==_iff _ _).0 g) in rw (p, pair-append) refl
      | inr g ↦ rw e (rw f (rw g refl))
    ]
  ]
]
