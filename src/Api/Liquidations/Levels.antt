-- ===== src/Api/Liquidations/Levels.antt =====
-- The risk levels that src/api/routes/liquidations.rs counts are those that the alerts on positions
-- escalate on.
use lumina_analytics.Prelude.{
  ℕ, ◌+◌, ◌<◌, String, ◌≡◌, refl, ap, ◌∙◌, ◌⊎◌, inl, inr, Bool, true, false, none, some, List, [],
  ◌∷◌, filter, length, All, arith, Bool-cases, Option-cases, ltb, ltb→lt, str_eq, if◌then◌else◌,
}
use lumina_analytics.Prelude.Outcome.{ok, parsed, >>=-eq-ok, ok-injective, Outcome-cases}
use lumina_analytics.Decimal.{DecimalOps}
use lumina_analytics.Models.{LiquidationRiskBucket}
use lumina_analytics.AlertRules.{LtvBands, resolve_ltv_bands, risk_level_with_bands}
use lumina_analytics.RuleRoutes.{RuleTable, list_alert_rules}
use lumina_analytics.Soroban.Position.{LendingPosition}
use lumina_analytics.Db.Lending.{
  latest_positions, case_level, in_level, total_debt, risk_buckets, levels,
  liquidation_risk_summary,
}
use lumina_analytics.Api.{json}
use lumina_analytics.Api.Liquidations.{Liquidations, liquidations}

nothing : (n : ℕ) → ltb 0 n ≡ false → n ≡ 0
nothing n h = ground arith

module _ {D : Type 0} ⦃d : DecimalOps D⦄ where
  -- The position has an LTV, at this level of the bands.
  abbrev pub at_level : LtvBands D → String → LendingPosition D → Bool
  at_level bands level r = elim r.ltv [
    | none ↦ false
    | some ltv ↦ str_eq (risk_level_with_bands ltv bands) level
  ]

  abbrev pub has_ltv : LendingPosition D → Bool
  has_ltv r = elim r.ltv [ none ↦ false | some ltv ↦ true ]

  abbrev pub sum_counts : List (LiquidationRiskBucket D) → ℕ
  sum_counts [] = 0
  sum_counts (b ∷ buckets) = b.position_count + sum_counts buckets

  -- A bucket that counts the positions at its level, of which there are some.
  abbrev pub Counts : LtvBands D → List (LendingPosition D) → LiquidationRiskBucket D → Type 0
  Counts bands rows b =
      (b.position_count ≡ length (filter (at_level bands b.risk_level) rows))
      × (0 < b.position_count)

  level_cases :
      (ltv : D) (bands : LtvBands D)
      → let level = risk_level_with_bands ltv bands in
        (level ≡ "CRITICAL") ⊎ ((level ≡ "HIGH") ⊎ ((level ≡ "LOW") ⊎ (level ≡ "MEDIUM")))
  unfolding risk_level_with_bands
  level_cases ltv bands = ground arith

  in_level-eq :
      (bands : LtvBands D) (level : String) (r : LendingPosition D)
      → in_level bands.medium bands.high bands.critical level r ≡ at_level bands level r
  unfolding case_level risk_level_with_bands
  in_level-eq bands level r = refl

  module _ (bands : LtvBands D) (rows : List (LendingPosition D)) where
    -- How many positions are at one of the levels.
    sum_levels : List String → ℕ
    sum_levels [] = 0
    sum_levels (level ∷ more) = length (filter (at_level bands level) rows) + sum_levels more

    risk_buckets-Counts :
        (some_levels : List String) {buckets : List (LiquidationRiskBucket D)}
        → risk_buckets bands.medium bands.high bands.critical some_levels rows ≡ ok buckets
        → All (Counts bands rows) buckets × (sum_counts buckets ≡ sum_levels some_levels)
    unfolding risk_buckets sum_levels case_level risk_level_with_bands
    risk_buckets-Counts [] {buckets} e = rw (← ok-injective e) (tt, refl)
    risk_buckets-Counts (level ∷ more) {buckets} e =
        let group = filter (in_level bands.medium bands.high bands.critical level) rows in
        let rest = risk_buckets bands.medium bands.high bands.critical more rows in
        elim (Bool-cases (ltb 0 (length group))) [
          | inr empty ↦
              let (counts, sum) = risk_buckets-Counts more (rw (empty, risk_buckets) at e) in
              (counts, omega (arith, sum, nothing (length group) empty))
          | inl full ↦
              let (debt, computed, e') =
                >>=-eq-ok (parsed (total_debt group)) _ (rw (full, risk_buckets) at e) in
              let (others, made, same) = >>=-eq-ok rest _ e' in
              let (counts, sum) = risk_buckets-Counts more made in
              rw (← ok-injective same)
                (((refl, ltb→lt _ _ full), counts), ap (λ n. length group + n) sum)
        ]

    -- A position with an LTV is at just one of the four levels.
    one_level :
        (r : LendingPosition D) (c h l m : ℕ)
        → (if at_level bands "CRITICAL" r then c + 1 else c)
            + ((if at_level bands "HIGH" r then h + 1 else h)
                + ((if at_level bands "LOW" r then l + 1 else l)
                    + ((if at_level bands "MEDIUM" r then m + 1 else m) + 0)))
          ≡ (if has_ltv r then c + (h + (l + (m + 0))) + 1 else c + (h + (l + (m + 0))))
    one_level r c h l m = elim (Option-cases r.ltv) [
      | inl missing ↦ rw missing refl
      | inr (ltv, known) ↦ elim (level_cases ltv bands) [
        | inl e ↦ rw (known, e) (omega arith)
        | inr (inl e) ↦ rw (known, e) (omega arith)
        | inr (inr (inl e)) ↦ rw (known, e) (omega arith)
        | inr (inr (inr e)) ↦ rw (known, e) (omega arith)
      ]
    ]

  sum_all_levels :
      (bands : LtvBands D) (rows : List (LendingPosition D))
      → sum_levels bands rows levels ≡ length (filter has_ltv rows)
  unfolding sum_levels
  sum_all_levels bands [] = refl
  sum_all_levels bands (r ∷ rows) = ground (
    arith,
    sum_all_levels bands rows,
    one_level bands rows r (length (filter (at_level bands "CRITICAL") rows))
        (length (filter (at_level bands "HIGH") rows)) (length (filter (at_level bands "LOW") rows))
        (length (filter (at_level bands "MEDIUM") rows)),
  )

-- When the list of positions is answered: each bucket of the summary counts the accounts whose latest
-- position is at its level, and counts at least one; and the counts add up to the number of accounts
-- whose latest position has an LTV, none left out and none counted twice. The level of a position is
-- the one that the alerts use, under the operator's rules for the bands.
pub liquidations-Counts :
    {D : Type 0} ⦃d : DecimalOps D⦄ (text_le : String → String → Bool) (reads : Bool)
    (rules : RuleTable D) (rows : List (LendingPosition D)) {v : Liquidations D}
    → liquidations text_le reads rules rows ≡ json v
    → let bands = resolve_ltv_bands (list_alert_rules rules) in
      All (Counts bands (latest_positions rows)) v.summary
      × (sum_counts v.summary ≡ length (filter has_ltv (latest_positions rows)))
unfolding liquidations liquidation_risk_summary
liquidations-Counts text_le false rules rows h = cc
liquidations-Counts ⦃d⦄ text_le true rules rows {v} h =
    let bands = resolve_ltv_bands (list_alert_rules rules) in
    let summary = liquidation_risk_summary bands.medium bands.high bands.critical rows in
    elim (Outcome-cases summary) [
      | inr (inl e) ↦ absurd (ground (arith, e))
      | inr (inr e) ↦ absurd (ground (arith, e))
      | inl (buckets, e) ↦
          let (counts, sum) = risk_buckets-Counts bands (latest_positions rows) levels e in
          let same : buckets ≡ v.summary = ground (arith, e) in
          rw (← same) (counts, sum ∙ sum_all_levels bands (latest_positions rows))
    ]
