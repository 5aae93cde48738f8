-- ===== src/RuleRoutes/Valid.antt =====
-- The rules that the handlers of src/api/routes/alert_config.rs let into the table.
use lumina_analytics.Prelude.{
  ℕ, String, ◌≡◌, ◌≢◌, ◌⊎◌, inl, inr, Bool, true, false, Option, none, List, [], ◌∷◌, All,
  All-append, arith, Bool-cases, Option-cases, eq_iff,
}
use lumina_analytics.Prelude.Int.{ℤ}
use lumina_analytics.Text.{trim, is_empty, to_ascii_uppercase}
use lumina_analytics.Decimal.{DecimalOps, dec_zero}
use lumina_analytics.Models.{AlertRuleRow}
use lumina_analytics.RuleRoutes.{
  NewAlertRule, RuleTable, id_eq, row_of, has_id, insert_alert_rule, update_rows, delete_rows,
  rule_error, create_alert_rule, update_alert_rule, delete_alert_rule,
}

-- A type that the resolution of thresholds knows, with what it looks a rule up by.
abbrev pub HasTarget : String → String → Option String → Type 0
HasTarget name rule_type asset_code =
    (((rule_type ≡ "whale_threshold")
        ⊎ ((rule_type ≡ "holder_drop_pct") ⊎ (rule_type ≡ "liquidity_drop_pct")))
      × (asset_code ≢ none))
    ⊎ ((rule_type ≡ "ltv_band")
        × ((to_ascii_uppercase name ≡ "MEDIUM")
            ⊎ ((to_ascii_uppercase name ≡ "HIGH") ⊎ (to_ascii_uppercase name ≡ "CRITICAL"))))

-- A change of the table, as the handlers are called.
pub data RuleRequest (D : Type 0) : Type 0 where
  create : (authorized accepts : Bool) (now : ℕ) → NewAlertRule D → RuleRequest D
  update : (authorized accepts : Bool) → ℤ → D → Bool → RuleRequest D
  remove : (authorized accepts : Bool) → ℤ → RuleRequest D

module _ {D : Type 0} ⦃d : DecimalOps D⦄ where
  pub record IsValid (r : AlertRuleRow D) : Type 0 where
    pub named : is_empty (trim r.name) ≡ false
    pub positive : d.le r.threshold dec_zero ≡ false
    pub target : HasTarget r.name r.rule_type r.asset_code

  rule_error-HasTarget :
      (body : NewAlertRule D)
      → rule_error body ≡ none
      → HasTarget body.name body.rule_type body.asset_code
  unfolding rule_error
  rule_error-HasTarget body h = ground (
    arith,
    eq_iff body.rule_type "whale_threshold",
    eq_iff body.rule_type "holder_drop_pct",
    eq_iff body.rule_type "liquidity_drop_pct",
    eq_iff body.rule_type "ltv_band",
    eq_iff (to_ascii_uppercase body.name) "MEDIUM",
    eq_iff (to_ascii_uppercase body.name) "HIGH",
    eq_iff (to_ascii_uppercase body.name) "CRITICAL",
  )

  rule_error-IsValid :
      (id now : ℕ) (body : NewAlertRule D) → rule_error body ≡ none → IsValid (row_of id now body)
  unfolding rule_error
  rule_error-IsValid id now body h = record {
    named = ground arith;
    positive = ground arith;
    target = rule_error-HasTarget body h;
  }

  AllValid-update :
      (id : ℤ) (threshold : D) (enabled : Bool) (rules : List (AlertRuleRow D))
      → d.le threshold dec_zero ≡ false
      → All IsValid rules
      → All IsValid (update_rows id threshold enabled rules)
  unfolding update_rows
  AllValid-update id threshold enabled [] h v = tt
  AllValid-update id threshold enabled (r ∷ rules) h (v, vs) =
      let rest = AllValid-update id threshold enabled rules h vs in
      elim (Bool-cases (id_eq r.id id)) [
        | inl e ↦
            rw (e, update_rows) (record { named = v.named; positive = h; target = v.target }, rest)
        | inr e ↦ rw (e, update_rows) (v, rest)
      ]

  AllValid-delete :
      (id : ℤ) (rules : List (AlertRuleRow D))
      → All IsValid rules
      → All IsValid (delete_rows id rules)
  unfolding delete_rows
  AllValid-delete id [] v = tt
  AllValid-delete id (r ∷ rules) (v, vs) =
      let rest = AllValid-delete id rules vs in
      elim (Bool-cases (id_eq r.id id)) [
        | inl e ↦ rw (e, delete_rows) rest
        | inr e ↦ rw (e, delete_rows) (v, rest)
      ]

  pub handle : RuleRequest D → RuleTable D → ℕ × RuleTable D
  handle (create authorized accepts now body) t = create_alert_rule authorized accepts now body t
  handle (update authorized accepts id threshold enabled) t =
      update_alert_rule authorized accepts id threshold enabled t
  handle (remove authorized accepts id) t = delete_alert_rule authorized accepts id t

  pub handle_all : List (RuleRequest D) → RuleTable D → RuleTable D
  handle_all [] t = t
  handle_all (r ∷ requests) t = handle_all requests (handle r t).1

  handle-AllValid :
      (r : RuleRequest D) (t : RuleTable D) → All IsValid t.rules → All IsValid (handle r t).1.rules
  unfolding handle create_alert_rule update_alert_rule delete_alert_rule insert_alert_rule
  handle-AllValid (create false accepts now body) t v = v
  handle-AllValid (create true accepts now body) t v = elim (Option-cases (rule_error body)) [
    | inl ok_body ↦ elim (Bool-cases accepts) [
      | inl a ↦
          rw (ok_body, a)
            (All-append IsValid t.rules (row_of t.next_id now body ∷ []) v
              (rule_error-IsValid t.next_id now body ok_body, tt))
      | inr a ↦ rw (ok_body, a) v
    ]
    | inr (message, bad) ↦ rw bad v
  ]
  handle-AllValid (update false accepts id threshold enabled) t v = v
  handle-AllValid (update true accepts id threshold enabled) t v =
      elim (Bool-cases (d.le threshold dec_zero)) [
        | inl low ↦ rw low v
        | inr fits ↦ elim (Bool-cases accepts) [
          | inr a ↦ rw (fits, a) v
          | inl a ↦ elim (Bool-cases (has_id id t.rules)) [
            | inl there ↦ rw (fits, a, there) (AllValid-update id threshold enabled t.rules fits v)
            | inr missing ↦ rw (fits, a, missing) v
          ]
        ]
      ]
  handle-AllValid (remove false accepts id) t v = v
  handle-AllValid (remove true accepts id) t v = elim (Bool-cases accepts) [
    | inr a ↦ rw a v
    | inl a ↦ elim (Bool-cases (has_id id t.rules)) [
      | inl there ↦ rw (a, there) (AllValid-delete id t.rules v)
      | inr missing ↦ rw (a, missing) v
    ]
  ]

  -- Whatever requests to create, change or delete rules come, from whomever, and whatever the database
  -- answers: if every rule of the table has a name and a positive threshold, and a known type with the
  -- asset, the pool or the band that the type asks for, then so has every rule afterwards.
  pub handle_all-IsValid :
      (requests : List (RuleRequest D)) (t : RuleTable D)
      → All IsValid t.rules
      → All IsValid (handle_all requests t).rules
  unfolding handle_all
  handle_all-IsValid [] t v = v
  handle_all-IsValid (r ∷ requests) t v =
      handle_all-IsValid requests (handle r t).1 (handle-AllValid r t v)
