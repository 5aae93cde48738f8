-- ===== src/RuleRoutes/Errors.antt =====
-- The handlers of rules in src/api/routes/alert_config.rs, where they answer with an error.
use lumina_analytics.Prelude.{
  ℕ, ◌≤◌, ◌≡◌, refl, Bool, true, inl, inr, arith, Bool-cases, Option-cases,
}
use lumina_analytics.Decimal.{DecimalOps}
use lumina_analytics.RuleRoutes.{
  NewAlertRule, RuleTable, rule_error, create_alert_rule, update_alert_rule, delete_alert_rule,
}
use lumina_analytics.Prelude.Int.{ℤ}

module _ {D : Type 0} ⦃d : DecimalOps D⦄ where
  pub create_alert_rule-error :
      (accepts : Bool) (now : ℕ) (body : NewAlertRule D) (t : RuleTable D)
      → 400 ≤ (create_alert_rule true accepts now body t).0
      → (create_alert_rule true accepts now body t).1 ≡ t
  unfolding create_alert_rule
  create_alert_rule-error accepts now body t e = elim (Option-cases (rule_error body)) [
    | inr (message, bad) ↦ rw (bad, create_alert_rule) refl
    | inl fine ↦ elim (Bool-cases accepts) [
      | inr down ↦ rw (fine, down, create_alert_rule) refl
      | inl up ↦ absurd (ground (arith, fine, up))
    ]
  ]

  pub update_alert_rule-error :
      (accepts : Bool) (id : ℤ) (threshold : D) (enabled : Bool) (t : RuleTable D)
      → 400 ≤ (update_alert_rule true accepts id threshold enabled t).0
      → (update_alert_rule true accepts id threshold enabled t).1 ≡ t
  unfolding update_alert_rule
  update_alert_rule-error accepts id threshold enabled t e = ground arith

  pub delete_alert_rule-error :
      (accepts : Bool) (id : ℤ) (t : RuleTable D)
      → 400 ≤ (delete_alert_rule true accepts id t).0
      → (delete_alert_rule true accepts id t).1 ≡ t
  unfolding delete_alert_rule
  delete_alert_rule-error accepts id t e = ground arith
