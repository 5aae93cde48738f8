-- ===== src/AlertRules/Select.antt =====
-- Which rule the three `resolve_*` functions follow.
use lumina_analytics.Prelude.{
  String, ◌≡◌, ◌↔◌, Bool, true, ◌&&◌, Option, some, List, arith, str_eq, eq_iff,
}
use lumina_analytics.Models.{AlertRuleRow}
use lumina_analytics.AlertRules.{
  opt_eq, resolve_whale_threshold, resolve_holder_drop_threshold_pct,
  resolve_liquidity_drop_threshold_pct,
}
use lumina_analytics.AlertRules.Choice.{opt_eq_iff, filter-filter, IsChosen, IsChosen-max_by_key}

-- An enabled rule of the type, for the asset.
abbrev pub IsForAsset : {D : Type 0} → String → String → Option String → AlertRuleRow D → Type 0
IsForAsset rule_type code issuer r =
    (r.enabled ≡ true)
    × (r.rule_type ≡ rule_type)
    × (r.asset_code ≡ some code)
    × (r.asset_issuer ≡ issuer)

-- An enabled `liquidity_drop_pct` rule whose `asset_code` is the pool's id; its issuer is ignored.
abbrev pub IsForPool : {D : Type 0} → String → AlertRuleRow D → Type 0
IsForPool pool_id r =
    (r.enabled ≡ true) × (r.rule_type ≡ "liquidity_drop_pct") × (r.asset_code ≡ some pool_id)

module _ {D : Type 0} where
  asset_test : String → String → Option String → AlertRuleRow D → Bool
  asset_test rule_type code issuer r =
      ((r.enabled && str_eq r.rule_type rule_type) && opt_eq r.asset_code (some code))
      && opt_eq r.asset_issuer issuer

  asset_test_iff :
      (rule_type code : String) (issuer : Option String) (r : AlertRuleRow D)
      → (asset_test rule_type code issuer r ≡ true) ↔ IsForAsset rule_type code issuer r
  unfolding asset_test
  asset_test_iff rule_type code issuer r = ground (
    arith,
    eq_iff r.rule_type rule_type,
    opt_eq_iff r.asset_code (some code),
    opt_eq_iff r.asset_issuer issuer,
  )

  -- Whatever the rules, the whale threshold of an asset and its holder-drop threshold are each that
  -- of the greatest-id rule among the enabled rules of the right type whose code and issuer are the
  -- asset's, and the default exactly where no such rule is listed.
  pub resolve_asset_threshold-IsChosen :
      (rules : List (AlertRuleRow D)) (code : String) (issuer : Option String) (default : D)
      → IsChosen
          (IsForAsset "whale_threshold" code issuer)
          rules
          default
          (resolve_whale_threshold rules code issuer default)
        × IsChosen
            (IsForAsset "holder_drop_pct" code issuer)
            rules
            default
            (resolve_holder_drop_threshold_pct rules code issuer default)
  unfolding resolve_whale_threshold resolve_holder_drop_threshold_pct asset_test
  resolve_asset_threshold-IsChosen rules code issuer default = (
    simp filter-filter
        (IsChosen-max_by_key _ _ (asset_test_iff "whale_threshold" code issuer) rules default),
    simp filter-filter
        (IsChosen-max_by_key _ _ (asset_test_iff "holder_drop_pct" code issuer) rules default),
  )

  pool_test_iff :
      (pool_id : String) (r : AlertRuleRow D)
      → (((r.enabled && str_eq r.rule_type "liquidity_drop_pct")
            && opt_eq r.asset_code (some pool_id))
          ≡ true)
        ↔ IsForPool pool_id r
  pool_test_iff pool_id r =
      ground
        (arith, eq_iff r.rule_type "liquidity_drop_pct", opt_eq_iff r.asset_code (some pool_id))

  -- Whatever the rules, the liquidity-drop threshold of a pool is that of the greatest-id rule among
  -- the enabled `liquidity_drop_pct` rules that name the pool, whatever their issuer, and the default
  -- exactly where no such rule is listed.
  pub resolve_liquidity_threshold-IsChosen :
      (rules : List (AlertRuleRow D)) (pool_id : String) (default : D)
      → IsChosen
          (IsForPool pool_id)
          rules
          default
          (resolve_liquidity_drop_threshold_pct rules pool_id default)
  unfolding resolve_liquidity_drop_threshold_pct
  resolve_liquidity_threshold-IsChosen rules pool_id default =
      simp filter-filter (IsChosen-max_by_key _ _ (pool_test_iff pool_id) rules default)
