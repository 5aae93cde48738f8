-- ===== src/Api/Liquidations.antt =====
-- src/api/routes/liquidations.rs: the lending positions, and how many are at which risk. `reads` is
-- whether the database answers the three queries.
pub mod Levels
pub mod Positions
use lumina_analytics.Prelude.{
  String, Bool, true, false, not, Option, none, some, List, [], ◌∷◌, if◌then◌else◌,
}
use lumina_analytics.Prelude.Outcome.{Outcome, ok, err, panic}
use lumina_analytics.Prelude.Sort.{sort_by}
use lumina_analytics.Decimal.{DecimalOps}
use lumina_analytics.Models.{LiquidationRiskBucket}
use lumina_analytics.AlertRules.{LtvBands, resolve_ltv_bands}
use lumina_analytics.RuleRoutes.{RuleTable, list_alert_rules}
use lumina_analytics.Soroban.Position.{LendingPosition}
use lumina_analytics.Db.Lending.{list_lending_positions, liquidation_risk_summary}
use lumina_analytics.Db.Pools.{desc_nulls_last}
use lumina_analytics.Api.{Reply, json, internal_error}

-- The object of the response.
pub record Liquidations (D : Type 0) : Type 0 where
  pub summary : List (LiquidationRiskBucket D)
  pub positions : List (LendingPosition D)
  pub note : String

abbrev no_positions : String
no_positions =
    "No lending positions ingested yet. Set BLEND_POOL_IDS to real Blend pool contract addresses to turn on the Soroban event ingester."

abbrev no_levels : String
no_levels =
    "Positions below are tracked from real on-chain Blend events (collateral/debt amounts are live). Risk bucketing (LTV/health factor) isn't computed yet — that needs a USD price per Soroban asset-contract address, which isn't wired up, so those columns show no invented numbers rather than a guess."

unfoldable pub note_for :
    {D : Type 0} → List (LendingPosition D) → List (LiquidationRiskBucket D) → String
note_for [] summary = no_positions
note_for (p ∷ positions) [] = no_levels
note_for (p ∷ positions) (b ∷ summary) = "Live data."

module _ {D : Type 0} ⦃d : DecimalOps D⦄ (text_le : String → String → Bool) where
  -- `sort_by_key(|p| Reverse(p.ltv))`
  unfoldable pub sorted_positions : List (LendingPosition D) → List (LendingPosition D)
  unfolding list_lending_positions sort_by
  sorted_positions rows =
      sort_by (λ (a : LendingPosition D) (b : LendingPosition D). desc_nulls_last d.le a.ltv b.ltv)
        (list_lending_positions text_le rows)

  unfoldable pub liquidations :
      (reads : Bool) → RuleTable D → List (LendingPosition D) → Reply (Liquidations D)
  unfolding list_alert_rules resolve_ltv_bands liquidation_risk_summary sorted_positions note_for
  liquidations reads rules rows =
      let bands = resolve_ltv_bands (list_alert_rules rules) in
      if not reads
      then internal_error
      else elim (liquidation_risk_summary bands.medium bands.high bands.critical rows) [
        | ok summary ↦
            let positions = sorted_positions rows in
            json (record {
              summary = summary;
              positions = positions;
              note = note_for positions summary;
            })
        | err ↦ internal_error
        | panic ↦ internal_error
      ]
