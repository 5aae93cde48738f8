-- ===== src/Soroban/Position/Escalation.antt =====
-- When `process_event` of src/soroban.rs raises an alert of a higher risk.
use lumina_analytics.Prelude.{
  ◌≤◌, ◌<◌, String, ◌≡◌, refl, sym, ap, ◌∙◌, ◌↔◌, inl, inr, true, false, ◌&&◌, ◌||◌, Option, none,
  some, str_eq, ltb, if◌then◌else◌, arith, ltb→lt, Option-cases, Bool-cases,
}
use mathlib.Core.Path.{subst}
use mathlib.Core.Option.{some-injective}
use lumina_analytics.Decimal.{DecimalOps}
use lumina_analytics.AlertRules.{LtvBands, risk_level_with_bands}
use lumina_analytics.Logic.{risk_rank}
use lumina_analytics.Logic.Risk.{rank_of}
use lumina_analytics.Soroban.Position.{
  LendingPosition, RiskAlert, rises, escalated, risk_alert, previous_level,
}

-- HIGH and CRITICAL are the levels of rank two and more.
high_levels :
    (level : String)
    → (str_eq level "HIGH" || str_eq level "CRITICAL")
      ≡ (if ltb 1 (risk_rank level) then true else false)
unfolding risk_rank
high_levels level = elim (Bool-cases (str_eq level "CRITICAL")) [
  | inl c ↦ rw (c, risk_rank) (ground arith)
  | inr c ↦ elim (Bool-cases (str_eq level "HIGH")) [
    | inl h ↦ rw (c, h, risk_rank) refl
    | inr h ↦ elim (Bool-cases (str_eq level "MEDIUM")) [
      | inl m ↦ rw (c, h, m, risk_rank) refl
      | inr m ↦ rw (c, h, m, risk_rank) refl
    ]
  ]
]

module _ {D : Type 0} ⦃d : DecimalOps D⦄ (bands : LtvBands D) where
  -- The position was assessed before, at a rank that is not lower than that of `ltv`.
  abbrev pub AlreadyAt : Option (LendingPosition D) → D → Type 0
  AlreadyAt latest ltv =
      (l : LendingPosition D) × (u : D) × (latest ≡ some l)
      × (l.ltv ≡ some u)
      × (rank_of ltv bands ≤ rank_of u bands)

  abbrev pub Escalates : Option (LendingPosition D) → LendingPosition D → Type 0
  Escalates latest row =
      (ltv : D) × (row.ltv ≡ some ltv) × (2 ≤ rank_of ltv bands) × (AlreadyAt latest ltv → ⊥)

  rises-lem :
      (latest : Option (LendingPosition D)) (ltv : D)
      → (rises (risk_level_with_bands ltv bands) (previous_level bands latest) ≡ true)
        ↔ (AlreadyAt latest ltv → ⊥)
  rises-lem none ltv = ((λ h (l, u, e, f, le). cc), (λ h. refl))
  rises-lem (some l) ltv = elim (Option-cases l.ltv) [
    | inl e ↦
        ((λ h (l', u, f, g, le). let same : l ≡ l' = some-injective _ _ f in cc), (λ h. rw e refl))
    | inr (u, e) ↦ (
      (λ h (l', u', f, g, le).
          let same : l ≡ l' = some-injective _ _ f in
          let same_ltv : u ≡ u' =
            some-injective _ _ (sym e ∙ (ap (λ (z : LendingPosition D). z.ltv) same ∙ g)) in
          let lower : rank_of u bands < rank_of ltv bands = ltb→lt _ _ (rw e at h) in
          let le' : rank_of ltv bands ≤ rank_of u bands =
            subst (λ x. rank_of ltv bands ≤ rank_of x bands) (sym same_ltv) le in
          omega arith),
      (λ h. elim (Bool-cases (ltb (rank_of u bands) (rank_of ltv bands))) [
        | inl t ↦ rw e t
        | inr t ↦ absurd (h (l, u, refl, e, ground arith))
      ]),
    )
  ]

  escalated-lem :
      (latest : Option (LendingPosition D)) (ltv : D)
      → (escalated (risk_level_with_bands ltv bands) (previous_level bands latest) ≡ true)
        ↔ ((2 ≤ rank_of ltv bands) × (AlreadyAt latest ltv → ⊥))
  unfolding escalated
  escalated-lem latest ltv =
      let level = risk_level_with_bands ltv bands in
      let up = rises level (previous_level bands latest) in
      let cond : escalated level (previous_level bands latest)
          ≡ ((if ltb 1 (risk_rank level) then true else false) && up) =
        ap (λ x. x && up) (high_levels level) in
      let (there, back) = rises-lem latest ltv in
      (
        (λ h.
            let both : ((if ltb 1 (risk_rank level) then true else false) && up) ≡ true =
              sym cond ∙ h in
            let rises_too : up ≡ true = ground (arith, both) in
            let high : 2 ≤ risk_rank level = ground (arith, both) in (high, there rises_too)),
        (λ (high, fresh).
            let rises_too : up ≡ true = back fresh in
            let both : ((if ltb 1 (risk_rank level) then true else false) && up) ≡ true =
              ground (arith, rises_too, high) in
            cond ∙ both),
      )

  -- An alert follows a new row exactly if the row has an LTV at a level of HIGH or CRITICAL, and the
  -- position's last row, if it has an LTV, stands at a lower level under the same bands.
  pub risk_alert-Escalates :
      (latest : Option (LendingPosition D)) (row : LendingPosition D)
      → ((a : RiskAlert D) × (risk_alert bands (previous_level bands latest) row ≡ some a))
        ↔ Escalates latest row
  unfolding risk_alert escalated
  risk_alert-Escalates latest row = elim (Option-cases row.ltv) [
    | inl e ↦
        ((λ (a, h). absurd (ground (arith, rw (e, risk_alert) at h))), (λ (v, f, high, fresh). cc))
    | inr (v, e) ↦
        let (there, back) = escalated-lem latest v in
        elim (Bool-cases
          (escalated (risk_level_with_bands v bands) (previous_level bands latest))) [
            | inl t ↦ (
              (λ (a, h). let (high, fresh) = there t in (v, e, high, fresh)),
              (λ up. rw (e, t, risk_alert) (_, refl)),
            )
            | inr t ↦ (
              (λ (a, h). absurd (ground (arith, rw (e, t, risk_alert) at h))),
              (λ (v', f, high, fresh).
                  let same : v ≡ v' = some-injective _ _ (sym e ∙ f) in
                  let other : escalated (risk_level_with_bands v bands)
                        (previous_level bands latest)
                      ≡ true =
                    back (
                      subst (λ x. (2 ≤ rank_of x bands) × (AlreadyAt latest x → ⊥)) (sym same)
                        (high, fresh)) in
                  absurd (ground (arith, t, other))),
            )
          ]
  ]
