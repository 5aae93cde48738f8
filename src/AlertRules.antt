-- ===== src/AlertRules.antt =====
-- src/alert_rules.rs: threshold overrides for one asset or pool, the risk bands and their levels.
pub mod Choice
pub mod Select
pub mod Bands
use lumina_analytics.Prelude.{
  ℕ, ◌≡◌, refl, String, Bool, true, false, ◌&&◌, Option, none, some, List, [], ◌∷◌, filter,
  if◌then◌else◌, str_eq,
}
use lumina_analytics.Prelude.Int.{ℤ, pos, ltb_ℤ}
use lumina_analytics.Text.{to_ascii_uppercase}
use lumina_analytics.Decimal.{DecimalOps, from}
use lumina_analytics.Models.{AlertRuleRow}

-- `==` on `Option<&str>`
abbrev pub opt_eq : Option String → Option String → Bool
opt_eq none none = true
opt_eq none (some t) = false
opt_eq (some s) none = false
opt_eq (some s) (some t) = str_eq s t

module _ {A : Type 0} where
  pub max_from : (A → ℤ) → A → List A → A
  max_from key best [] = best
  max_from key best (x ∷ xs) = max_from key (if ltb_ℤ (key x) (key best) then best else x) xs

  -- `Iterator::max_by_key`: of several maxima the last one.
  unfoldable pub max_by_key : (A → ℤ) → List A → Option A
  unfolding max_from
  max_by_key key [] = none
  max_by_key key (x ∷ xs) = some (max_from key x xs)

abbrev pub threshold_or : {D : Type 0} → Option (AlertRuleRow D) → D → D
threshold_or none default = default
threshold_or (some r) default = r.threshold

module _ {D : Type 0} where
  unfoldable pub resolve_whale_threshold : List (AlertRuleRow D) → String → Option String → D → D
  resolve_whale_threshold rules asset_code asset_issuer default =
      let of_type = filter (λ r. r.enabled && str_eq r.rule_type "whale_threshold") rules in
      let of_code = filter (λ r. opt_eq r.asset_code (some asset_code)) of_type in
      let of_asset = filter (λ r. opt_eq r.asset_issuer asset_issuer) of_code in
      threshold_or (max_by_key (λ r. r.id) of_asset) default

  unfoldable pub resolve_holder_drop_threshold_pct :
      List (AlertRuleRow D) → String → Option String → D → D
  resolve_holder_drop_threshold_pct rules asset_code asset_issuer default =
      let of_type = filter (λ r. r.enabled && str_eq r.rule_type "holder_drop_pct") rules in
      let of_code = filter (λ r. opt_eq r.asset_code (some asset_code)) of_type in
      let of_asset = filter (λ r. opt_eq r.asset_issuer asset_issuer) of_code in
      threshold_or (max_by_key (λ r. r.id) of_asset) default

  unfoldable pub resolve_liquidity_drop_threshold_pct : List (AlertRuleRow D) → String → D → D
  resolve_liquidity_drop_threshold_pct rules pool_id default =
      let of_type = filter (λ r. r.enabled && str_eq r.rule_type "liquidity_drop_pct") rules in
      let of_pool = filter (λ r. opt_eq r.asset_code (some pool_id)) of_type in
      threshold_or (max_by_key (λ r. r.id) of_pool) default

pub record LtvBands (D : Type 0) : Type 0 where
  pub medium : D
  pub high : D
  pub critical : D

module _ {D : Type 0} ⦃d : DecimalOps D⦄ where
  -- `LtvBands::default`
  abbrev pub default_bands : LtvBands D
  default_bands = record { medium = from (pos 70); high = from (pos 85); critical = from (pos 95) }

  -- The body of the loop of `resolve_ltv_bands`.
  unfoldable pub apply_band : LtvBands D → AlertRuleRow D → LtvBands D
  apply_band bands r =
      let name = to_ascii_uppercase r.name in
      if str_eq name "MEDIUM"
      then record bands { medium = r.threshold }
      else if str_eq name "HIGH"
      then record bands { high = r.threshold }
      else if str_eq name "CRITICAL"
      then record bands { critical = r.threshold }
      else bands

  unfoldable pub apply_bands : LtvBands D → List (AlertRuleRow D) → LtvBands D
  unfolding apply_band
  apply_bands bands [] = bands
  apply_bands bands (r ∷ rules) = apply_bands (apply_band bands r) rules

  unfoldable pub resolve_ltv_bands : List (AlertRuleRow D) → LtvBands D
  unfolding apply_bands
  resolve_ltv_bands rules =
      apply_bands default_bands (filter (λ r. r.enabled && str_eq r.rule_type "ltv_band") rules)

  unfoldable pub risk_level_with_bands : D → LtvBands D → String
  risk_level_with_bands ltv bands =
      if d.le bands.critical ltv
      then "CRITICAL"
      else if d.le bands.high ltv
      then "HIGH"
      else if d.le bands.medium ltv
      then "MEDIUM"
      else "LOW"
