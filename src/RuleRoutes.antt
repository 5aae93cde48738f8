-- ===== src/RuleRoutes.antt =====
-- src/api/routes/alert_config.rs and src/db/alert_config.rs: the handlers that change the alert rules,
-- and the table. `authorized` is whether `auth::guard` lets the request pass, and `accepts` whether
-- the database accepts the statement.
pub mod Errors
pub mod Valid
use lumina_analytics.Prelude.{
  ℕ, ◌+◌, String, ◌≡◌, refl, Bool, true, false, not, ◌&&◌, ◌||◌, Option, none, some, List, [], ◌∷◌,
  ◌++◌, map, filter, str_eq, if◌then◌else◌,
}
use Prim.Native.String.{◌++◌ as append}
use lumina_analytics.Prelude.Int.{ℤ, pos, leb_ℤ}
use lumina_analytics.Prelude.Sort.{sort_by}
use lumina_analytics.Text.{trim, is_empty, to_ascii_uppercase}
use lumina_analytics.Decimal.{DecimalOps, dec_le, dec_zero}
use lumina_analytics.Models.{AlertRuleRow}
use lumina_analytics.Api.{Reply, json, internal_error}

pub record NewAlertRule (D : Type 0) : Type 0 where
  pub name : String
  pub rule_type : String
  pub asset_code : Option String
  pub asset_issuer : Option String
  pub threshold : D
  pub enabled : Bool

-- The table `alert_rules`, with the next id of its sequence.
pub record RuleTable (D : Type 0) : Type 0 where
  pub rules : List (AlertRuleRow D)
  pub next_id : ℕ

abbrev pub id_eq : ℤ → ℤ → Bool
id_eq a b = leb_ℤ a b && leb_ℤ b a

abbrev pub is_none : Option String → Bool
is_none none = true
is_none (some s) = false

module _ {D : Type 0} where
  -- The row of a new rule, created at a time.
  abbrev pub row_of : ℕ → ℕ → NewAlertRule D → AlertRuleRow D
  row_of id now body = record {
    id = pos id;
    name = body.name;
    rule_type = body.rule_type;
    asset_code = body.asset_code;
    asset_issuer = body.asset_issuer;
    threshold = body.threshold;
    enabled = body.enabled;
    created_at = now;
  }

  unfoldable pub insert_alert_rule : ℕ → NewAlertRule D → RuleTable D → RuleTable D
  insert_alert_rule now body t = record {
    rules = t.rules ++ (row_of t.next_id now body ∷ []);
    next_id = t.next_id + 1;
  }

  -- `ORDER BY id`
  unfoldable pub list_alert_rules : RuleTable D → List (AlertRuleRow D)
  unfolding sort_by
  list_alert_rules t =
      sort_by (λ (a : AlertRuleRow D) (b : AlertRuleRow D). leb_ℤ a.id b.id) t.rules

  abbrev pub has_id : ℤ → List (AlertRuleRow D) → Bool
  has_id id [] = false
  has_id id (r ∷ rules) = id_eq r.id id || has_id id rules

  -- Whether a row was changed, and the rows after.
  unfoldable pub update_rows : ℤ → D → Bool → List (AlertRuleRow D) → List (AlertRuleRow D)
  update_rows id threshold enabled [] = []
  update_rows id threshold enabled (r ∷ rules) =
      let rest = update_rows id threshold enabled rules in
      if id_eq r.id id
      then record r { threshold = threshold; enabled = enabled } ∷ rest
      else r ∷ rest

  unfoldable pub delete_rows : ℤ → List (AlertRuleRow D) → List (AlertRuleRow D)
  delete_rows id rules = filter (λ (r : AlertRuleRow D). not (id_eq r.id id)) rules

module _ {D : Type 0} ⦃d : DecimalOps D⦄ where
  abbrev pub without_code : NewAlertRule D → String → Option String
  without_code body message = if is_none body.asset_code then some message else none

  -- The message of the first check that fails.
  unfoldable pub rule_error : NewAlertRule D → Option String
  unfolding trim to_ascii_uppercase
  rule_error body =
      if is_empty (trim body.name)
      then some "name must not be empty"
      else if dec_le body.threshold dec_zero
      then some "threshold must be greater than zero"
      else if str_eq body.rule_type "whale_threshold" || str_eq body.rule_type "holder_drop_pct"
      then without_code body (append body.rule_type " rules require asset_code")
      else if str_eq body.rule_type "liquidity_drop_pct"
      then without_code body "liquidity_drop_pct rules require asset_code (the pool ID)"
      else if str_eq body.rule_type "ltv_band"
      then (if str_eq (to_ascii_uppercase body.name) "MEDIUM"
            || str_eq (to_ascii_uppercase body.name) "HIGH"
            || str_eq (to_ascii_uppercase body.name) "CRITICAL"
          then none
          else some "ltv_band rules must be named MEDIUM, HIGH, or CRITICAL")
      else some
          "rule_type must be one of: whale_threshold, holder_drop_pct, liquidity_drop_pct, ltv_band"

  -- The status of the response, and the table after.
  unfoldable pub create_alert_rule :
      (authorized accepts : Bool) → ℕ → NewAlertRule D → RuleTable D → ℕ × RuleTable D
  unfolding rule_error insert_alert_rule
  create_alert_rule authorized accepts now body t =
      if not authorized then (401, t) else elim (rule_error body) [
        | some message ↦ (400, t)
        | none ↦ if accepts then (201, insert_alert_rule now body t) else (500, t)
      ]

  unfoldable pub update_alert_rule :
      (authorized accepts : Bool) → ℤ → D → Bool → RuleTable D → ℕ × RuleTable D
  unfolding update_rows
  update_alert_rule authorized accepts id threshold enabled t =
      if not authorized
      then (401, t)
      else if dec_le threshold dec_zero
      then (400, t)
      else if not accepts
      then (500, t)
      else if has_id id t.rules
      then (200, record t { rules = update_rows id threshold enabled t.rules })
      else (404, t)

  unfoldable pub delete_alert_rule : (authorized accepts : Bool) → ℤ → RuleTable D → ℕ × RuleTable D
  unfolding delete_rows
  delete_alert_rule authorized accepts id t =
      if not authorized
      then (401, t)
      else if not accepts
      then (500, t)
      else if has_id id t.rules
      then (204, record t { rules = delete_rows id t.rules })
      else (404, t)

unfoldable pub list_rules_route :
    {D : Type 0} → (accepts : Bool) → RuleTable D → Reply (List (AlertRuleRow D))
unfolding list_alert_rules
list_rules_route accepts t = if accepts then json (list_alert_rules t) else internal_error
