-- ===== src/Logic/Search.antt =====
-- `search_like_pattern` of src/logic.rs against the language of patterns that it targets.
use lumina_analytics.Prelude.{
  ◌⊎◌, inl, inr, ltb, Bool-cases, ◌≤◌, ◌<◌, arith, String, ◌≡◌, refl, ap, ◌∙◌, Bool, false, none,
  some, ◌∷◌,
}
use Prim.Native.Char.{Char}
use Prim.Native.String.{len, ◌++◌ as append}
use text.Mathlib.TextLemmas.{cons-append, nil-append}
use lumina_analytics.Text.{trim, replace, char_of}
use lumina_analytics.Text.Escape.{is_special, escape_wildcards, escape_wildcards-cons}
use lumina_analytics.Logic.{search_like_pattern}
use lumina_analytics.Logic.Like.{
  Token, tokens_from, lits, matches, like, contains, matches-lits_between,
}

-- An escaped text is read back as its own characters.
tokens-escape_wildcards :
    (t : String) → tokens_from false (append (escape_wildcards t) "%") ≡ lits t
unfolding replace
tokens-escape_wildcards String.[] = refl
tokens-escape_wildcards (String.◌∷◌ c t) =
    rw escape_wildcards-cons (elim (Bool-cases (is_special c)) [
      | inl e ↦
          rw (e, cons-append, cons-append) (ap (λ ts. Token.lit c ∷ ts) (tokens-escape_wildcards t))
      | inr e ↦ rw (e, cons-append) (ground (arith, tokens-escape_wildcards t))
    ])

percent-append : (s : String) → append "%" s ≡ String.◌∷◌ (char_of b'%') s
unfolding char_of
percent-append s = rw (cons-append, nil-append)

-- `search_like_pattern` gives no pattern for a query that has less than two bytes when trimmed, and
-- a pattern for any other one. The pattern matches, under `LIKE` with the escape character and
-- whatever the comparison of characters, just the texts that contain the trimmed query: its `%`, `_`
-- and `\` are taken literally.
pub search_like_pattern-contains :
    (raw : String)
    → ((search_like_pattern raw ≡ none) × (len (trim raw) < 2))
      ⊎ ((p : String) × (search_like_pattern raw ≡ some p)
          × (2 ≤ len (trim raw))
          × ((same : Char → Char → Bool) (s : String) → like same p s ≡ contains same (trim raw) s))
unfolding search_like_pattern char_of
search_like_pattern-contains raw = elim (Bool-cases (ltb (len (trim raw)) 2)) [
  | inl short ↦ inl (rw (short, search_like_pattern) refl, ground arith)
  | inr long ↦ inr (
    append "%" (append (escape_wildcards (trim raw)) "%"),
    ground arith,
    ground arith,
    λ same s. rw percent-append (
        ap (λ ts. matches same (Token.any ∷ ts) s) (tokens-escape_wildcards (trim raw))
        ∙ matches-lits_between same (trim raw) s),
  )
]
