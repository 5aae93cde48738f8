-- ===== src/Db/Lending.antt =====
-- src/db/lending.rs: the queries of the API on lending positions. `text_le` is the order of texts in the
-- database. Every stored position has the protocol `blend`, which is left out.
pub mod Latest
use lumina_analytics.Prelude.{
  ℕ, String, Bool, false, not, ◌&&◌, Option, none, some, List, [], ◌∷◌, ◌++◌, filter, length,
  str_eq, ltb, if◌then◌else◌,
}
use lumina_analytics.Prelude.Outcome.{Outcome, ok, ◌>>=◌, parsed}
use lumina_analytics.Prelude.Sort.{sort_by}
use lumina_analytics.Decimal.{DecimalOps, dec_zero}
use lumina_analytics.Decimal.Checked.{◌>>=◌ as and_then}
use lumina_analytics.Models.{LiquidationRiskBucket}
use lumina_analytics.Soroban.Position.{LendingPosition}
use lumina_analytics.Db.Pools.{first_by, newest_first, filter_map}

-- The levels, as `ORDER BY risk_level` has them.
abbrev pub levels : List String
levels = "CRITICAL" ∷ "HIGH" ∷ "LOW" ∷ "MEDIUM" ∷ []

module _ {D : Type 0} where
  unfoldable pub insert_lending_position :
      LendingPosition D → List (LendingPosition D) → List (LendingPosition D)
  insert_lending_position row rows = rows ++ (row ∷ [])

  abbrev pub same_account : LendingPosition D → LendingPosition D → Bool
  same_account a b = str_eq a.pool_contract b.pool_contract && str_eq a.account b.account

  abbrev pub position_time : LendingPosition D → ℕ
  position_time r = r.time

  -- One row for each account of a pool.
  unfoldable pub representatives : List (LendingPosition D) → List (LendingPosition D)
  representatives [] = []
  representatives (r ∷ rows) =
      r ∷ filter (λ (q : LendingPosition D). not (same_account r q)) (representatives rows)

  -- `DISTINCT ON (protocol, pool_contract, account) ... time DESC`
  unfoldable pub latest_positions : List (LendingPosition D) → List (LendingPosition D)
  unfolding representatives sort_by
  latest_positions rows =
      filter_map
        (λ (r : LendingPosition D).
          first_by (newest_first position_time) (filter (same_account r) rows))
        (representatives rows)

  unfoldable pub list_lending_positions :
      (text_le : String → String → Bool) → List (LendingPosition D) → List (LendingPosition D)
  unfolding latest_positions sort_by
  list_lending_positions text_le rows =
      sort_by
        (λ (a : LendingPosition D) (b : LendingPosition D).
          if str_eq a.pool_contract b.pool_contract
          then text_le a.account b.account
          else text_le a.pool_contract b.pool_contract)
        (latest_positions rows)

module _ {D : Type 0} ⦃d : DecimalOps D⦄ where
  unfoldable pub total_debt : List (LendingPosition D) → Option D
  total_debt [] = some dec_zero
  total_debt (r ∷ rows) = and_then (total_debt rows) (d.add r.debt_amount)

module _ {D : Type 0} ⦃d : DecimalOps D⦄ (medium high critical : D) where
  -- The `CASE` of the query
  unfoldable pub case_level : D → String
  case_level ltv =
      if d.le critical ltv
      then "CRITICAL"
      else if d.le high ltv
      then "HIGH"
      else if d.le medium ltv
      then "MEDIUM"
      else "LOW"

  -- `ltv IS NOT NULL`, and the group of the row
  abbrev pub in_level : String → LendingPosition D → Bool
  in_level level r = elim r.ltv [ none ↦ false | some ltv ↦ str_eq (case_level ltv) level ]

  -- The groups of these levels, in this order; a group without rows is not there.
  unfoldable pub risk_buckets :
      List String → List (LendingPosition D) → Outcome (List (LiquidationRiskBucket D))
  unfolding case_level total_debt
  risk_buckets [] rows = ok []
  risk_buckets (level ∷ levels) rows =
      let group = filter (in_level level) rows in
      let rest = risk_buckets levels rows in
      if not (ltb 0 (length group)) then rest else do
        debt ← parsed (total_debt group)
        buckets ← rest
        ok (
            record { risk_level = level; position_count = length group; total_debt = debt }
            ∷ buckets)

  unfoldable pub liquidation_risk_summary :
      List (LendingPosition D) → Outcome (List (LiquidationRiskBucket D))
  unfolding risk_buckets latest_positions
  liquidation_risk_summary rows = risk_buckets levels (latest_positions rows)
