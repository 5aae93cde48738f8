-- ===== src/Logic/Risk.antt =====
-- The risk levels of src/logic.rs and src/alert_rules.rs as an order.
use lumina_analytics.Prelude.{
  ℕ, ◌≤◌, ◌≡◌, refl, ◌↔◌, Bool, true, false, List, arith, if◌then◌else◌, All,
}
use lumina_analytics.Prelude.{All-map}
use lumina_analytics.Decimal.{DecimalOps, DecimalLaws, ◌≼◌}
use lumina_analytics.Models.{AlertRuleRow}
use lumina_analytics.AlertRules.{LtvBands, risk_level_with_bands, resolve_ltv_bands}
use lumina_analytics.AlertRules.Bands.{names_band, last_threshold-default, resolve_ltv_bands_lem}
use lumina_analytics.Logic.{risk_level, risk_rank}

abbrev pub rank_of : {D : Type 0} ⦃d : DecimalOps D⦄ → D → LtvBands D → ℕ
rank_of ltv bands = risk_rank (risk_level_with_bands ltv bands)

pub record IsOrdered {D : Type 0} ⦃d : DecimalOps D⦄ (bands : LtvBands D) : Type 0 where
  pub medium_le : bands.medium ≼ bands.high
  pub high_le : bands.high ≼ bands.critical

risk_rank-if :
    (c h m : Bool)
    → risk_rank (if c then "CRITICAL" else if h then "HIGH" else if m then "MEDIUM" else "LOW")
      ≡ (if c then 3 else if h then 2 else if m then 1 else 0)
unfolding risk_rank
risk_rank-if true h m = refl
risk_rank-if false true m = refl
risk_rank-if false false true = refl
risk_rank-if false false false = refl

module _ {D : Type 0} ⦃d : DecimalOps D⦄ where
  -- The level is never another text than the four, and its rank counts the bands from the top.
  pub risk_rank-levels :
      (ltv : D) (bands : LtvBands D)
      → rank_of ltv bands ≡ (
          if d.le bands.critical ltv
          then 3
          else if d.le bands.high ltv
          then 2
          else if d.le bands.medium ltv
          then 1
          else 0)
  unfolding risk_level_with_bands
  risk_rank-levels ltv bands =
      risk_rank-if (d.le bands.critical ltv) (d.le bands.high ltv) (d.le bands.medium ltv)

  module _ (laws : DecimalLaws D) where
    open laws use {le_trans}

    -- For any bands, in order or not, a larger LTV never has a lower risk rank.
    pub rank_of_mono :
        (bands : LtvBands D) (ltv ltv' : D) → ltv ≼ ltv' → rank_of ltv bands ≤ rank_of ltv' bands
    rank_of_mono bands ltv ltv' h = ground (
      arith,
      risk_rank-levels ltv bands,
      risk_rank-levels ltv' bands,
      le_trans bands.critical ltv ltv',
      le_trans bands.high ltv ltv',
      le_trans bands.medium ltv ltv',
    )

    -- With cutoffs in order, the rank of a level reaches 1, 2 and 3 exactly where the LTV reaches the
    -- medium, the high and the critical cutoff.
    pub rank_of_iff :
        (bands : LtvBands D) (ltv : D)
        → IsOrdered bands
        → ((1 ≤ rank_of ltv bands) ↔ (bands.medium ≼ ltv))
          × ((2 ≤ rank_of ltv bands) ↔ (bands.high ≼ ltv))
          × ((3 ≤ rank_of ltv bands) ↔ (bands.critical ≼ ltv))
    rank_of_iff bands ltv o = ground (
      arith,
      risk_rank-levels ltv bands,
      o.medium_le,
      o.high_le,
      le_trans bands.medium bands.high ltv,
      le_trans bands.high bands.critical ltv,
    )

  -- With no enabled `ltv_band` rule that names a band, the configurable levels are those of
  -- `risk_level`, at every LTV.
  pub risk_level-no_overrides :
      (rules : List (AlertRuleRow D)) (ltv : D)
      → All
          (λ r.
            (names_band "MEDIUM" r ≡ false)
            × (names_band "HIGH" r ≡ false)
            × (names_band "CRITICAL" r ≡ false))
          rules
      → risk_level_with_bands ltv (resolve_ltv_bands rules) ≡ risk_level ltv
  unfolding risk_level_with_bands risk_level
  risk_level-no_overrides rules ltv none_named = rw (
    resolve_ltv_bands_lem rules,
    last_threshold-default "MEDIUM" _ rules (All-map rules (λ r h. h.0) none_named),
    last_threshold-default "HIGH" _ rules (All-map rules (λ r h. h.1) none_named),
    last_threshold-default "CRITICAL" _ rules (All-map rules (λ r h. h.2) none_named),
  )
