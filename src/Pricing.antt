-- ===== src/Pricing.antt =====
-- src/pricing.rs and `ingest_prices` of src/bin/ingest.rs: USD prices from the reserves of pools.
pub mod Assets
pub mod Legs
pub mod Hops
use lumina_analytics.Prelude.{
  ℕ, zero, suc, ◌+◌, ◌-◌, ◌*◌, ◌/◌, ◌%◌, ◌^◌, ◌≤◌, ◌<◌, String, ◌≡◌, refl, sym, ap, ◌∙◌, ◌≢◌, ◌↔◌,
  ◌⊎◌, inl, inr, Bool, true, false, not, ◌&&◌, ◌||◌, Option, none, some, List, [], ◌∷◌, ◌++◌, map,
  arith, str_eq, eq_iff, eq_refl, ltb, leb, ◌==◌, if◌then◌else◌, ltb→lt, lt→ltb, leb→le, ==_iff,
  Bool-cases, Option-cases, length, get_elem?, filter, All, Holds, length-append, All-append,
}
use lumina_analytics.Prelude.Assoc.{Eq, string_eq, pair_eq, pair_beq, lookup, insert}
use lumina_analytics.Text.{split_once}
use lumina_analytics.Decimal.{DecimalOps, dec_lt}
use lumina_analytics.Decimal.Checked.{◌>>=◌}

-- Code and issuer; native XLM is ("XLM", "").
abbrev pub AssetId : Type 0
AssetId = String × String

abbrev pub native : AssetId
native = ("XLM", "")

unfoldable pub asset_eq : AssetId → AssetId → Bool
asset_eq = pair_beq string_eq string_eq

unfoldable pub parse_pool_asset : String → AssetId
parse_pool_asset asset =
    if str_eq asset "native"
    then native
    else elim (split_once b':' asset) [ none ↦ (asset, "") | some (code, issuer) ↦ (code, issuer) ]

-- The asset that a pool prices, its price, and the reserve of the known leg.
abbrev pub Priced : Type 0 → Type 0
Priced D = AssetId × D × D

module _ {D : Type 0} ⦃d : DecimalOps D⦄ where
  -- The outer `none` is a panic of the arithmetic.
  abbrev pub price_leg : AssetId → D → D → D → Option (Option (Priced D))
  price_leg other known_reserve other_reserve known_price = do
    ratio ← d.div known_reserve other_reserve
    price ← d.mul ratio known_price
    some (some (other, price, known_reserve))

  unfoldable pub price_from_known_leg :
      String → D → String → D → AssetId → D → Option (Option (Priced D))
  price_from_known_leg asset_a reserve_a asset_b reserve_b known known_price =
      let id_a = parse_pool_asset asset_a in
      let id_b = parse_pool_asset asset_b in
      if asset_eq id_a id_b
      then some none
      else if asset_eq id_a known
      then (if d.is_zero reserve_b
          then some none
          else price_leg id_b reserve_a reserve_b known_price)
      else if asset_eq id_b known
      then (if d.is_zero reserve_a
          then some none
          else price_leg id_a reserve_b reserve_a known_price)
      else some none

  unfoldable pub price_from_native_pair : String → D → String → D → D → Option (Option (Priced D))
  unfolding price_from_known_leg
  price_from_native_pair asset_a reserve_a asset_b reserve_b xlm_usd =
      price_from_known_leg asset_a reserve_a asset_b reserve_b native xlm_usd
