-- ===== src/Ingest/Drops.antt =====
-- When a snapshot raises an alert: `ingest_pool` and `ingest_token` of src/bin/ingest.rs.
use lumina_analytics.Prelude.{
  String, ◌≡◌, refl, ap, sym, ◌∙◌, ◌⊎◌, inl, inr, true, false, not, Option, none, some,
  if◌then◌else◌, arith, Bool-cases, Option-cases,
}
use mathlib.Core.Path.{subst}
use mathlib.Core.Option.{some-injective}
use lumina_analytics.Prelude.Int.{ℤ}
use lumina_analytics.Prelude.Outcome.{Outcome, ok, panic}
use lumina_analytics.Decimal.{DecimalOps, ◌≼◌, dec_lt, from}
use lumina_analytics.Logic.{percent_change}
use lumina_analytics.Alerts.{Severity, severity_for_liquidity_drop, severity_for_holder_drop}
use lumina_analytics.Horizon.{LiquidityPool, AssetRecord}
use lumina_analytics.Ingest.{
  Facts, PendingAlert, liquidity_drop, holder_drop, liquidity_alert, holder_alert,
}

module _ {D : Type 0} ⦃d : DecimalOps D⦄ where
  -- The change from `before` to `now` is a fall by `drop` percent, of at least the threshold.
  abbrev pub Falls : D → D → D → D → Type 0
  Falls before now threshold drop =
      (pct : D) × (percent_change before now ≡ some (some pct))
      × (d.is_sign_negative pct ≡ true)
      × (drop ≡ d.neg pct)
      × (threshold ≼ drop)

  abbrev pub NoFall : D → D → D → Type 0
  NoFall before now threshold = (drop : D) → Falls before now threshold drop → ⊥

  no_change-NoFall :
      (before now threshold : D)
      → percent_change before now ≡ some none
      → NoFall before now threshold
  no_change-NoFall before now threshold e drop (pct, f, negative, g, above) = cc

  other_change-NoFall :
      (before now threshold pct : D)
      → percent_change before now ≡ some (some pct)
      → (d.is_sign_negative pct ≡ false) ⊎ (d.le threshold (d.neg pct) ≡ false)
      → NoFall before now threshold
  other_change-NoFall before now threshold pct e (inl h) drop (pct', f, negative, g, above) =
      let same : pct ≡ pct' = some-injective _ _ (some-injective _ _ (sym e ∙ f)) in cc
  other_change-NoFall before now threshold pct e (inr h) drop (pct', f, negative, g, above) =
      let same : pct ≡ pct' = some-injective _ _ (some-injective _ _ (sym e ∙ f)) in cc

  -- The alert of a handler, `previous` being the last snapshot's value, `shown drop` its facts.
  abbrev pub Judged :
      Option D
      → D
      → D
      → (D → D → Option Severity)
      → (D → D → Facts D)
      → Option (PendingAlert D)
      → Type 0
  Judged previous now threshold severity_of shown alert =
      ((alert ≡ none) × ((before : D) → previous ≡ some before → NoFall before now threshold))
      ⊎ ((before : D) × (drop : D) × (a : PendingAlert D) × (previous ≡ some before)
          × Falls before now threshold drop
          × (alert ≡ some a)
          × (a.facts ≡ shown before drop)
          × (severity_of drop threshold ≡ some a.severity))

  -- The shape that the ends of the two handlers share.
  unfoldable drop_outcome :
      (D → D → Option Severity)
      → (D → Severity → PendingAlert D)
      → D
      → D
      → D
      → Outcome (Option (PendingAlert D))
  drop_outcome severity_of alert_of before now threshold = elim (percent_change before now) [
    | none ↦ panic
    | some change ↦ elim change [
      | none ↦ ok none
      | some pct_change ↦
          let drop_pct = d.neg pct_change in
          if not (d.is_sign_negative pct_change)
          then ok none
          else if dec_lt drop_pct threshold
          then ok none
          else elim (severity_of drop_pct threshold) [
            | none ↦ panic
            | some severity ↦ ok (some (alert_of drop_pct severity))
          ]
    ]
  ]

  module _ (severity_of : D → D → Option Severity) (alert_of : D → Severity → PendingAlert D)
      (shown : D → D → Facts D) where
    drop_outcome-Judged :
        (before now threshold : D) (alert : Option (PendingAlert D))
        → ((drop : D) (severity : Severity)
            → ((alert_of drop severity).facts ≡ shown before drop)
              × ((alert_of drop severity).severity ≡ severity))
        → drop_outcome severity_of alert_of before now threshold ≡ ok alert
        → Judged (some before) now threshold severity_of shown alert
    unfolding drop_outcome
    drop_outcome-Judged before now threshold alert fits h =
        elim (Option-cases (percent_change before now)) [
          | inl e ↦ absurd (ground (arith, rw (e, drop_outcome) at h))
          | inr (change, e) ↦ elim (Option-cases change) [
            | inl f ↦
                let quiet : percent_change before now ≡ some none = e ∙ ap some f in
                inl (
                  ground (arith, rw (quiet, drop_outcome) at h),
                  λ b g.
                      subst (λ x. NoFall x now threshold) (some-injective _ _ g)
                        (no_change-NoFall before now threshold quiet),
                )
            | inr (pct, f) ↦
                let changed : percent_change before now ≡ some (some pct) = e ∙ ap some f in
                let h' = rw (changed, drop_outcome) at h in
                let quiet = other_change-NoFall before now threshold pct changed in
                elim (Bool-cases (d.is_sign_negative pct)) [
                  | inr positive ↦ inl (
                    ground (arith, rw positive at h'),
                    λ b g.
                        subst (λ x. NoFall x now threshold) (some-injective _ _ g)
                          (quiet (inl positive)),
                  )
                  | inl negative ↦ elim (Bool-cases (d.le threshold (d.neg pct))) [
                    | inr below ↦ inl (
                      ground (arith, rw (negative, below) at h'),
                      λ b g.
                          subst (λ x. NoFall x now threshold) (some-injective _ _ g)
                            (quiet (inr below)),
                    )
                    | inl above ↦ elim (Option-cases (severity_of (d.neg pct) threshold)) [
                      | inl q ↦ absurd (ground (arith, rw (negative, above, q) at h'))
                      | inr (severity, q) ↦
                          let (facts_fit, severity_fits) = fits (d.neg pct) severity in
                          inr (
                            before,
                            d.neg pct,
                            alert_of (d.neg pct) severity,
                            refl,
                            (pct, changed, negative, refl, above),
                            ground (arith, rw (negative, above, q) at h'),
                            facts_fit,
                            q ∙ ap some (sym severity_fits),
                          )
                    ]
                  ]
                ]
          ]
        ]

  pub liquidity_alert-Judged :
      (lp : LiquidityPool) (asset_a asset_b : String) (threshold : D) (previous : Option D)
      (now : D) (alert : Option (PendingAlert D))
      → liquidity_alert lp asset_a asset_b threshold previous now ≡ ok alert
      → Judged previous now threshold severity_for_liquidity_drop
          (λ before drop. liquidity_drop lp.id asset_a asset_b before now drop)
          alert
  unfolding liquidity_alert drop_outcome
  liquidity_alert-Judged lp asset_a asset_b threshold none now alert h = inl (cc, λ before e. cc)
  liquidity_alert-Judged lp asset_a asset_b threshold (some before) now alert h =
      drop_outcome-Judged severity_for_liquidity_drop
        (λ drop severity. record {
          kind = "liquidity_drop";
          severity = severity;
          facts = liquidity_drop lp.id asset_a asset_b before now drop;
        })
        (λ before drop. liquidity_drop lp.id asset_a asset_b before now drop) before now threshold
        alert (λ drop severity. (refl, refl)) h

  holder_alert-Judged :
      (a : AssetRecord) (threshold : D) (previous : ℤ) (alert : Option (PendingAlert D))
      → holder_alert a threshold (some previous) ≡ ok alert
      → Judged
          (some (from previous))
          (from a.accounts_authorized)
          threshold
          severity_for_holder_drop
          (λ before drop.
            holder_drop a.asset_code a.asset_issuer previous a.accounts_authorized drop)
          alert
  unfolding holder_alert drop_outcome
  holder_alert-Judged a threshold previous alert h =
      drop_outcome-Judged severity_for_holder_drop
        (λ drop severity. record {
          kind = "holder_drop";
          severity = severity;
          facts = holder_drop a.asset_code a.asset_issuer previous a.accounts_authorized drop;
        })
        (λ before drop. holder_drop a.asset_code a.asset_issuer previous a.accounts_authorized drop)
        (from previous) (from a.accounts_authorized) threshold alert (λ drop severity. (refl, refl))
        h
