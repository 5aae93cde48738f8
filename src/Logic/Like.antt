-- ===== src/Logic/Like.antt =====
-- The patterns of SQL's `LIKE ... ESCAPE '\'` (the language that src/db/search.rs hands the pattern
-- to), and containment of a text in another, both up to a comparison of characters: equality for
-- `LIKE`, equality without case for `ILIKE`.
use lumina_analytics.Prelude.{
  String, ◌≡◌, refl, Bool, true, false, ◌&&◌, ◌||◌, List, [], ◌∷◌, ◌==◌, if◌then◌else◌,
}
use Prim.Native.Char.{Char, code}

pub data Token : Type 0 where
  any one : Token
  lit : Char → Token

-- The flag says that the last character was the escape.
abbrev pub tokens_from : Bool → String → List Token
tokens_from escaped String.[] = []
tokens_from true (String.◌∷◌ c s) = lit c ∷ tokens_from false s
tokens_from false (String.◌∷◌ c s) =
    let literal = tokens_from true s in
    let plain = tokens_from false s in
    if code c == 0x5c
    then literal
    else if code c == b'%'
    then any ∷ plain
    else if code c == b'_'
    then one ∷ plain
    else lit c ∷ plain

module _ (same : Char → Char → Bool) where
  abbrev pub matches : List Token → String → Bool
  matches [] String.[] = true
  matches [] (String.◌∷◌ c s) = false
  matches (any ∷ ts) String.[] = matches ts String.[]
  matches (any ∷ ts) (String.◌∷◌ c s) =
      let skip = matches (any ∷ ts) s in matches ts (String.◌∷◌ c s) || skip
  matches (one ∷ ts) String.[] = false
  matches (one ∷ ts) (String.◌∷◌ c s) = matches ts s
  matches (lit p ∷ ts) String.[] = false
  matches (lit p ∷ ts) (String.◌∷◌ c s) = same p c && matches ts s

  abbrev pub like : String → String → Bool
  like pattern_text s = matches (tokens_from false pattern_text) s

  abbrev pub has_prefix : String → String → Bool
  has_prefix String.[] s = true
  has_prefix (String.◌∷◌ p t) String.[] = false
  has_prefix (String.◌∷◌ p t) (String.◌∷◌ c s) = same p c && has_prefix t s

  -- The first text occurs in the second one.
  abbrev pub contains : String → String → Bool
  contains t String.[] = has_prefix t String.[]
  contains t (String.◌∷◌ c s) = has_prefix t (String.◌∷◌ c s) || contains t s

abbrev pub lits : String → List Token
lits String.[] = any ∷ []
lits (String.◌∷◌ c s) = lit c ∷ lits s

module _ (same : Char → Char → Bool) where
  matches-any : (s : String) → matches same (any ∷ []) s ≡ true
  matches-any String.[] = refl
  matches-any (String.◌∷◌ c s) = matches-any s

  matches-lits : (t s : String) → matches same (lits t) s ≡ has_prefix same t s
  matches-lits String.[] s = matches-any s
  matches-lits (String.◌∷◌ p t) String.[] = refl
  matches-lits (String.◌∷◌ p t) (String.◌∷◌ c s) = rw (matches-lits t s)

  -- Between two `%`, literal characters match just the texts that contain them.
  pub matches-lits_between : (t s : String) → matches same (any ∷ lits t) s ≡ contains same t s
  matches-lits_between t String.[] = matches-lits t String.[]
  matches-lits_between t (String.◌∷◌ c s) =
      rw (matches-lits t (String.◌∷◌ c s), matches-lits_between t s)
