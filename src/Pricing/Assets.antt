-- ===== src/Pricing/Assets.antt =====
-- `parse_pool_asset`: the names of assets as Horizon writes them, and their identities.
use lumina_analytics.Prelude.{
  ◌⊎◌, inl, inr, Bool-cases, ◌≢◌, arith, eq_iff, String, ◌≡◌, refl, Bool, true, false, ◌||◌, Option,
  none, some, str_eq, ◌==◌, ==_iff, Option-cases,
}
use Prim.Native.Char.{Char, code}
use Prim.Native.String.{◌++◌ as append}
use text.Mathlib.TextEquality.{Char-path}
use text.Mathlib.TextLemmas.{cons-append, nil-append}
use lumina_analytics.Text.{split_once}
use lumina_analytics.Pricing.{AssetId, native, parse_pool_asset}

abbrev pub colon : Char
colon = Prim.Native.Char.char b':' tt

-- A colon occurs in the text.
abbrev pub has_colon : String → Bool
has_colon String.[] = false
has_colon (String.◌∷◌ c s) = code c == b':' || has_colon s

abbrev pub join_colon : String → String → String
join_colon code issuer = append code (String.◌∷◌ colon issuer)

pub split_once-join :
    (a b : String) → has_colon a ≡ false → split_once b':' (join_colon a b) ≡ some (a, b)
unfolding split_once
split_once-join String.[] b h = rw nil-append refl
split_once-join (String.◌∷◌ c a) b h = rw (cons-append) (ground (arith, split_once-join a b))

pub has_colon-join : (a b : String) → has_colon (join_colon a b) ≡ true
has_colon-join String.[] b = rw nil-append refl
has_colon-join (String.◌∷◌ c a) b = rw cons-append (ground (arith, has_colon-join a b))

-- What a split at the first colon says of the text.
abbrev pub IsSplit : String → Option (String × String) → Type 0
IsSplit s none = has_colon s ≡ false
IsSplit s (some (a, b)) = (has_colon a ≡ false) × (s ≡ join_colon a b)

pub IsSplit-split_once : (s : String) → IsSplit s (split_once b':' s)
unfolding split_once
IsSplit-split_once String.[] = refl
IsSplit-split_once (String.◌∷◌ c s) = elim (Bool-cases (code c == b':')) [
  | inl e ↦
      let p : c ≡ colon = Char-path c colon ((==_iff _ _).0 e) in
      rw e (refl, rw (p, nil-append) refl)
  | inr e ↦
      let ih = IsSplit-split_once s in
      elim (Option-cases (split_once b':' s)) [
        | inl q ↦ rw (e, q) (rw e (rw q at ih))
        | inr ((a, b), q) ↦
            let found : IsSplit s (some (a, b)) = rw q at ih in
            rw (e, q) (rw e found.0, rw (found.1, cons-append) refl)
      ]
]

not_native : (code issuer : String) → str_eq (join_colon code issuer) "native" ≡ false
not_native code issuer = elim (Bool-cases (str_eq (join_colon code issuer) "native")) [
  | inl e ↦
      let same : join_colon code issuer ≡ "native" = (eq_iff _ _).0 e in
      let none_there : has_colon (join_colon code issuer) ≡ false = rw same refl in
      cc (has_colon-join code issuer)
  | inr e ↦ e
]

-- What `parse_pool_asset` reads from a text: XLM from "native", a code without an issuer from any
-- other text without a colon, and else the parts before and after the first colon.
abbrev pub Reads : String → AssetId → Type 0
Reads asset id =
    ((asset ≡ "native") × (id ≡ native))
    ⊎ ((asset ≢ "native") × (has_colon asset ≡ false) × (id ≡ (asset, "")))
    ⊎ ((has_colon id.0 ≡ false) × (asset ≡ join_colon id.0 id.1))

parse_pool_asset-Reads : (asset : String) → Reads asset (parse_pool_asset asset)
unfolding parse_pool_asset
parse_pool_asset-Reads asset = elim (Bool-cases (str_eq asset "native")) [
  | inl e ↦ inl ((eq_iff asset "native").0 e, rw (e, parse_pool_asset) refl)
  | inr e ↦
      let split = IsSplit-split_once asset in
      elim (Option-cases (split_once b':' asset)) [
        | inl q ↦ inr (
            inl (
              (λ same. cc ((eq_iff asset "native").1 same)),
              rw q at split,
              rw (e, q, parse_pool_asset) refl,
            ))
        | inr ((a, b), q) ↦
            let found : IsSplit asset (some (a, b)) = rw q at split in
            inr (inr (rw (e, q, parse_pool_asset) (found.0, found.1)))
      ]
]

-- `parse_pool_asset` reads "native" as XLM, a text without a colon as a code without an issuer, and
-- any other text as its parts before and after the first colon, which join to the text again; and
-- joining a code without a colon and an issuer and reading the result gives the two back.
pub parse_pool_asset-join :
    (asset code issuer : String)
    → has_colon code ≡ false
    → Reads asset (parse_pool_asset asset)
      × (parse_pool_asset (join_colon code issuer) ≡ (code, issuer))
unfolding parse_pool_asset
parse_pool_asset-join asset code issuer h =
    (parse_pool_asset-Reads asset, rw (not_native code issuer, split_once-join code issuer h) refl)
