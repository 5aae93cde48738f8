-- ===== src/Api/Liquidations/Positions.antt =====
-- The positions that src/api/routes/liquidations.rs shows.
use lumina_analytics.Prelude.{
  String, ◌≡◌, sym, inl, inr, Bool, true, false, List, All, All-map, Pairwise, arith,
}
use mathlib.Core.Path.{subst}
use lumina_analytics.Prelude.Outcome.{Outcome-cases}
use lumina_analytics.Prelude.Sort.{
  sort_by, IsSorted, sort_by-IsSorted, All-sort_by, Pairwise-sort_by, sort_by-Holds,
}
use lumina_analytics.Decimal.{DecimalOps, DecimalLaws}
use lumina_analytics.AlertRules.{resolve_ltv_bands}
use lumina_analytics.RuleRoutes.{RuleTable, list_alert_rules}
use lumina_analytics.Soroban.Position.{LendingPosition}
use lumina_analytics.Db.Pools.{desc_nulls_last}
use lumina_analytics.Db.Lending.{latest_positions, list_lending_positions, liquidation_risk_summary}
use lumina_analytics.Db.Lending.Latest.{IsLatest, OtherAccount, IsShown, latest_positions-IsLatest}
use lumina_analytics.Api.{json}
use lumina_analytics.Api.Liquidations.{Liquidations, sorted_positions, liquidations}
use lumina_analytics.Api.Trending.Growth.{nulls_last-order}

module _ {D : Type 0} where
  -- The newest row of each account, once.
  abbrev pub Complete : List (LendingPosition D) → List (LendingPosition D) → Type 0
  Complete rows shown =
      All (IsLatest rows) shown × Pairwise OtherAccount shown × All (IsShown shown) rows

  sort_by-Complete :
      (le : LendingPosition D → LendingPosition D → Bool) (rows shown : List (LendingPosition D))
      → Complete rows shown
      → Complete rows (sort_by le shown)
  sort_by-Complete le rows shown (latest, apart, all_shown) = (
    All-sort_by (IsLatest rows) le shown latest,
    Pairwise-sort_by OtherAccount (λ a b h (pools, accounts). h (sym pools, sym accounts)) le shown
        apart,
    All-map rows (λ r (p, m, same). (p, sort_by-Holds le p shown m, same)) all_shown,
  )

module _ {D : Type 0} ⦃d : DecimalOps D⦄ where
  -- The risky ones first; a position without an LTV last.
  abbrev pub by_ltv : LendingPosition D → LendingPosition D → Bool
  by_ltv a b = desc_nulls_last d.le a.ltv b.ltv

module _ {D : Type 0} ⦃d : DecimalOps D⦄ (laws : DecimalLaws D) where
  sorted_positions-Complete :
      (text_le : String → String → Bool) (rows : List (LendingPosition D))
      → Complete rows (sorted_positions text_le rows)
        × IsSorted by_ltv (sorted_positions text_le rows)
  unfolding sorted_positions list_lending_positions
  sorted_positions-Complete text_le rows = (
    sort_by-Complete by_ltv rows (list_lending_positions text_le rows)
        (sort_by-Complete _ rows (latest_positions rows) (latest_positions-IsLatest rows)),
    sort_by-IsSorted by_ltv (nulls_last-order laws (λ (p : LendingPosition D). p.ltv))
        (list_lending_positions text_le rows),
  )

  -- When the list of positions is answered, whatever the order of texts: it shows, for each account of
  -- a pool that has a row in the table, just one, which is a row of the table that no row of this
  -- account in this pool is newer than; it shows no others; and the larger LTV comes first, positions
  -- without one last.
  pub liquidations-IsLatest :
      (text_le : String → String → Bool) (reads : Bool) (rules : RuleTable D)
      (rows : List (LendingPosition D)) {v : Liquidations D}
      → liquidations text_le reads rules rows ≡ json v
      → Complete rows v.positions × IsSorted by_ltv v.positions
  unfolding liquidations
  liquidations-IsLatest text_le false rules rows h = cc
  liquidations-IsLatest text_le true rules rows {v} h =
      let bands = resolve_ltv_bands (list_alert_rules rules) in
      elim (Outcome-cases (liquidation_risk_summary bands.medium bands.high bands.critical rows)) [
        | inr (inl e) ↦ absurd (ground (arith, e))
        | inr (inr e) ↦ absurd (ground (arith, e))
        | inl (buckets, e) ↦
            let same : sorted_positions text_le rows ≡ v.positions = ground (arith, e) in
            subst (λ shown. Complete rows shown × IsSorted by_ltv shown) same
              (sorted_positions-Complete text_le rows)
      ]
