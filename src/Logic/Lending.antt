-- ===== src/Logic/Lending.antt =====
-- The outcomes of `compute_lending_risk`: which figures it gives, and when it panics.
use lumina_analytics.Prelude.{
  ◌≡◌, ◌∙◌, ◌↔◌, ◌⊎◌, inl, inr, true, false, Option, none, some, arith, Option-cases, Bool-cases,
  if◌then◌else◌,
}
use mathlib.Core.Path.{subst}
use mathlib.Core.Option.{some-injective}
use lumina_analytics.Decimal.{DecimalOps, from}
use lumina_analytics.Decimal.Checked.{◌>>=◌, >>=-eq-some}
use lumina_analytics.Prelude.Int.{pos}
use lumina_analytics.Logic.{compute_lending_risk, percent_change}

module _ {D : Type 0} ⦃d : DecimalOps D⦄ where
  -- The LTV is the debt over the collateral, in percent, and the health factor the collateral over the
  -- debt.
  abbrev pub IsLtv : D → D → D → Type 0
  IsLtv collateral_usd debt_usd ltv =
      (ratio : D) × (d.div debt_usd collateral_usd ≡ some ratio)
      × (d.mul ratio (from (pos 100)) ≡ some ltv)

  -- What the pair of figures says of the values in USD: an LTV exactly where there is collateral, and
  -- a health factor exactly where there is collateral and debt.
  pub record IsAssessed (collateral_usd debt_usd : D) (figures : Option D × Option D) : Type 0 where
    pub ltv_iff : (figures.0 ≡ none) ↔ (d.is_zero collateral_usd ≡ true)
    pub health_iff :
        (figures.1 ≡ none) ↔ ((d.is_zero collateral_usd ≡ true) ⊎ (d.is_zero debt_usd ≡ true))
    pub ltv_value : (ltv : D) → figures.0 ≡ some ltv → IsLtv collateral_usd debt_usd ltv
    pub health_value :
        (health_factor : D)
        → figures.1 ≡ some health_factor
        → d.div collateral_usd debt_usd ≡ some health_factor

  -- The figures behind the two products.
  figures_of : D → D → Option (Option D × Option D)
  figures_of cu du = if d.is_zero cu then some (none, none) else do
    ratio ← d.div du cu
    ltv ← d.mul ratio (from (pos 100))
    if d.is_zero du
        then some (some ltv, none)
        else do health_factor ← d.div cu du; some (some ltv, some health_factor)

  figures_of-IsAssessed :
      (cu du : D) {figures : Option D × Option D}
      → figures_of cu du ≡ some figures
      → IsAssessed cu du figures
  unfolding figures_of
  figures_of-IsAssessed cu du {figures} h = elim (Bool-cases (d.is_zero cu)) [
    | inl z ↦ subst (IsAssessed cu du) (some-injective _ _ (rw (z, figures_of) at h)) (record {
      ltv_iff = ground arith;
      health_iff = ground arith;
      ltv_value = λ ltv e. cc;
      health_value = λ health e. cc;
    })
    | inr z ↦
        let (ratio, e, h1) = >>=-eq-some (d.div du cu) _ (rw (z, figures_of) at h) in
        let (ltv, f, h2) = >>=-eq-some (d.mul ratio (from (pos 100))) _ h1 in
        let known : (x : D) → some ltv ≡ some x → IsLtv cu du x =
          λ x g. subst (IsLtv cu du) (some-injective _ _ g) (ratio, e, f) in
        elim (Bool-cases (d.is_zero du)) [
          | inl zd ↦ subst (IsAssessed cu du) (some-injective _ _ (rw zd at h2)) (record {
            ltv_iff = ground arith;
            health_iff = ground arith;
            ltv_value = known;
            health_value = λ health g. cc;
          })
          | inr zd ↦
              let (health, e', h3) = >>=-eq-some (d.div cu du) _ (rw zd at h2) in
              subst (IsAssessed cu du) (some-injective _ _ h3) (record {
                ltv_iff = ground arith;
                health_iff = ground arith;
                ltv_value = known;
                health_value = λ x g. e' ∙ g;
              })
        ]
  ]

  -- A return of `compute_lending_risk` with both prices known: the two values in USD are the products;
  -- the LTV is missing exactly where the collateral is worth zero, and is else the debt over the
  -- collateral in percent; and the health factor is missing exactly where the collateral or the debt
  -- is worth zero, and is else the collateral over the debt.
  pub lending_risk-IsAssessed :
      (collateral price debt price' : D) {figures : Option D × Option D}
      → compute_lending_risk collateral (some price) debt (some price') ≡ some figures
      → (collateral_usd debt_usd : D) × (d.mul collateral price ≡ some collateral_usd)
        × (d.mul debt price' ≡ some debt_usd)
        × IsAssessed collateral_usd debt_usd figures
  unfolding compute_lending_risk figures_of
  lending_risk-IsAssessed collateral price debt price' h =
      let (cu, e, h') = >>=-eq-some (d.mul collateral price) _ h in
      let (du, e', h'') = >>=-eq-some (d.mul debt price') _ h' in
      (cu, du, e, e', figures_of-IsAssessed cu du h'')

  -- A division whose divisor is not zero overflows.
  abbrev DivOverflows : D → D → Type 0
  DivOverflows a b = (d.is_zero b ≡ false) × (d.div a b ≡ none)

  -- With both prices known `compute_lending_risk` panics only by overflow: of a product with a price,
  -- of a division by a value that is not zero, or of the factor 100. It never divides by zero.
  pub lending_risk-overflow :
      (collateral price debt price' : D)
      → compute_lending_risk collateral (some price) debt (some price') ≡ none
      → (d.mul collateral price ≡ none)
        ⊎ (d.mul debt price' ≡ none)
        ⊎ ((cu du : D) × (DivOverflows du cu ⊎ DivOverflows cu du))
        ⊎ ((ratio : D) × (d.mul ratio (from (pos 100)) ≡ none))
  unfolding compute_lending_risk
  lending_risk-overflow collateral price debt price' h =
      elim (Option-cases (d.mul collateral price)) [
        | inl e ↦ inl e
        | inr (cu, e) ↦ elim (Option-cases (d.mul debt price')) [
          | inl e' ↦ inr (inl e')
          | inr (du, e') ↦ elim (Option-cases (d.div du cu)) [
            | inl f ↦ inr (inr (inl (cu, du, ground arith)))
            | inr (r, f) ↦ elim (Option-cases (d.mul r (from (pos 100)))) [
              | inl g ↦ inr (inr (inr (r, g)))
              | inr (l, g) ↦ inr (inr (inl (cu, du, ground arith)))
            ]
          ]
        ]
      ]

  -- Over any two values, `percent_change` is undefined exactly for a start at zero, and a panic of it
  -- is an overflow: of the difference, of a division by a start that is not zero, or of the factor 100.
  pub percent_change-overflow :
      (before now : D)
      → ((percent_change before now ≡ some none) ↔ (d.is_zero before ≡ true))
        × (percent_change before now ≡ none
            → (d.sub now before ≡ none)
              ⊎ ((change : D) × DivOverflows change before)
              ⊎ ((ratio : D) × (d.mul ratio (from (pos 100)) ≡ none)))
  unfolding percent_change
  percent_change-overflow before now = (
    ground arith,
    λ h. elim (Option-cases (d.sub now before)) [
      | inl e ↦ inl e
      | inr (c, e) ↦ elim (Option-cases (d.div c before)) [
        | inl f ↦ inr (inl (c, ground arith))
        | inr (r, f) ↦ inr (inr (r, ground arith))
      ]
    ],
  )
