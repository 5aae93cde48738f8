-- ===== src/AlertRules/Bands.antt =====
-- How `resolve_ltv_bands` composes the overrides: for each band the last one wins.
use lumina_analytics.Prelude.{
  String, ◌≡◌, refl, ◌∙◌, inl, inr, Bool, false, ◌&&◌, List, [], ◌∷◌, arith, str_eq, eq_iff,
  if◌then◌else◌, Bool-cases, filter, All,
}
use lumina_analytics.Text.{to_ascii_uppercase}
use lumina_analytics.Decimal.{DecimalOps, from}
use lumina_analytics.Prelude.Int.{pos}
use lumina_analytics.Models.{AlertRuleRow}
use lumina_analytics.AlertRules.{
  LtvBands, default_bands, apply_band, apply_bands, resolve_ltv_bands,
}

-- An enabled `ltv_band` rule whose name is the band's in some mixture of cases.
abbrev pub names_band : {D : Type 0} → String → AlertRuleRow D → Bool
names_band band r =
    (r.enabled && str_eq r.rule_type "ltv_band") && str_eq (to_ascii_uppercase r.name) band

-- The threshold of the last rule of the list that names the band, or the default.
abbrev pub last_threshold : {D : Type 0} → String → D → List (AlertRuleRow D) → D
last_threshold band default [] = default
last_threshold band default (r ∷ rules) =
    last_threshold band (if names_band band r then r.threshold else default) rules

pub last_threshold-default :
    {D : Type 0} (band : String) (default : D) (rules : List (AlertRuleRow D))
    → All (λ r. names_band band r ≡ false) rules
    → last_threshold band default rules ≡ default
last_threshold-default band default [] h = refl
last_threshold-default band default (r ∷ rules) h =
    rw h.0 (last_threshold-default band default rules h.1)

module _ {D : Type 0} ⦃d : DecimalOps D⦄ where
  apply_band-eq :
      (bands : LtvBands D) (r : AlertRuleRow D)
      → let name = to_ascii_uppercase r.name in
        apply_band bands r ≡ record {
          medium = if str_eq name "MEDIUM" then r.threshold else bands.medium;
          high = if str_eq name "HIGH" then r.threshold else bands.high;
          critical = if str_eq name "CRITICAL" then r.threshold else bands.critical;
        }
  unfolding apply_band
  apply_band-eq bands r =
      let name = to_ascii_uppercase r.name in
      ground (
        arith,
        eq_iff name "MEDIUM",
        eq_iff name "HIGH",
        eq_iff name "CRITICAL",
        eq_iff "MEDIUM" "HIGH",
        eq_iff "MEDIUM" "CRITICAL",
        eq_iff "HIGH" "CRITICAL",
      )

  apply_bands-filter :
      (bands : LtvBands D) (rules : List (AlertRuleRow D))
      → apply_bands bands (filter (λ r. r.enabled && str_eq r.rule_type "ltv_band") rules)
        ≡ record {
          medium = last_threshold "MEDIUM" bands.medium rules;
          high = last_threshold "HIGH" bands.high rules;
          critical = last_threshold "CRITICAL" bands.critical rules;
        }
  unfolding apply_bands
  apply_bands-filter bands [] = refl
  apply_bands-filter bands (r ∷ rules) =
      elim (Bool-cases (r.enabled && str_eq r.rule_type "ltv_band")) [
        | inl e ↦ rw e (apply_bands-filter (apply_band bands r) rules ∙ rw apply_band-eq)
        | inr e ↦ rw e (apply_bands-filter bands rules)
      ]

  -- Each cutoff that `resolve_ltv_bands` returns is the threshold of the last rule of the list that
  -- is enabled, is of type `ltv_band` and has the band's name up to the case of ASCII letters, and is
  -- 70, 85 or 95 where there is no such rule; rules with other names change nothing.
  pub resolve_ltv_bands_lem :
      (rules : List (AlertRuleRow D))
      → resolve_ltv_bands rules ≡ record {
        medium = last_threshold "MEDIUM" (from (pos 70)) rules;
        high = last_threshold "HIGH" (from (pos 85)) rules;
        critical = last_threshold "CRITICAL" (from (pos 95)) rules;
      }
  unfolding resolve_ltv_bands
  resolve_ltv_bands_lem rules = apply_bands-filter default_bands rules
