-- ===== src/AlertRules/Choice.antt =====
-- What `max_by_key` after filters picks: a listed element that passes and has the greatest key.
use lumina_analytics.Prelude.{
  String, ◌≡◌, refl, sym, ◌∙◌, ◌↔◌, ◌⊎◌, inl, inr, Bool, true, false, ◌&&◌, Option, none, some,
  List, [], ◌∷◌, arith, eq_iff, Bool-cases, filter, All, Holds,
}
use lumina_analytics.Prelude.Int.{ℤ, ltb_ℤ, ◌≤ℤ◌}
use mathlib.Core.Bool.{false≢true}
use lumina_analytics.Prelude.{All-map}
use lumina_analytics.Models.{AlertRuleRow}
use lumina_analytics.AlertRules.{max_from, max_by_key, opt_eq, threshold_or}

pub opt_eq_iff : (s t : Option String) → (opt_eq s t ≡ true) ↔ (s ≡ t)
opt_eq_iff none none = ground arith
opt_eq_iff none (some t) = ground arith
opt_eq_iff (some s) none = ground arith
opt_eq_iff (some s) (some t) = ground (arith, eq_iff s t)

module _ {A : Type 0} where
  -- Filters in a row are one filter.
  pub filter-filter :
      (p q : A → Bool) (xs : List A) → filter q (filter p xs) ≡ filter (λ x. p x && q x) xs
  filter-filter p q [] = refl
  filter-filter p q (x ∷ xs) = ground (arith, filter-filter p q xs)

  module _ (key : A → ℤ) where
    -- `best` is listed, and no listed element has a greater key.
    pub record IsGreatest (best : A) (xs : List A) : Type 0 where
      pub listed : Holds best xs
      pub greatest : All (λ x. key x ≤ℤ key best) xs

    All-le_mono :
        (a b : A) (xs : List A)
        → key a ≤ℤ key b
        → All (λ x. key x ≤ℤ key a) xs
        → All (λ x. key x ≤ℤ key b) xs
    All-le_mono a b [] h all = tt
    All-le_mono a b (x ∷ xs) h (hx, all) = (omega arith, All-le_mono a b xs h all)

    pub max_from-IsGreatest :
        (best : A) (xs : List A) → IsGreatest (max_from key best xs) (best ∷ xs)
    unfolding max_from
    max_from-IsGreatest best [] = record { listed = inl refl; greatest = omega arith }
    max_from-IsGreatest best (x ∷ xs) = elim (Bool-cases (ltb_ℤ (key x) (key best))) [
      | inl less ↦
          let ih = max_from-IsGreatest best xs in
          rw less (record {
            listed = elim ih.listed [ inl e ↦ inl e | inr h ↦ inr (inr h) ];
            greatest = (ih.greatest.0, (ground arith, ih.greatest.1));
          })
      | inr more ↦
          let ih = max_from-IsGreatest x xs in
          rw more (record { listed = inr ih.listed; greatest = (ground arith, ih.greatest) })
    ]

module _ {A : Type 0} (p : A → Bool) where
  pub Holds-filter : (a : A) (xs : List A) → Holds a (filter p xs) → Holds a xs × (p a ≡ true)
  Holds-filter a [] h = absurd h
  Holds-filter a (x ∷ xs) h = elim (Bool-cases (p x)) [
    | inl e ↦ elim (rw e at h) [
      | inl q ↦ (inl q, rw (← q) e)
      | inr h' ↦ let (there, t) = Holds-filter a xs h' in (inr there, t)
    ]
    | inr e ↦ let (there, t) = Holds-filter a xs (rw e at h) in (inr there, t)
  ]

  All-filter {κ} :
      (Q : A → Type κ) (xs : List A) → All Q (filter p xs) → All (λ x. p x ≡ true → Q x) xs
  All-filter Q [] h = tt
  All-filter Q (x ∷ xs) h = elim (Bool-cases (p x)) [
    | inl e ↦ let h' = rw e at h in (λ _. h'.0, All-filter Q xs h'.1)
    | inr e ↦ (λ e'. absurd (false≢true (sym e ∙ e')), All-filter Q xs (rw e at h))
  ]

  All-of_filter-nil : (xs : List A) → filter p xs ≡ [] → All (λ x. p x ≡ false) xs
  All-of_filter-nil [] h = tt
  All-of_filter-nil (x ∷ xs) h = elim (Bool-cases (p x)) [
    | inl e ↦ cc (rw e at h)
    | inr e ↦ (e, All-of_filter-nil xs (rw e at h))
  ]

-- The threshold of the matching rule with the greatest id, or the default where no rule matches.
abbrev pub IsChosen :
    {D : Type 0} → (AlertRuleRow D → Type 0) → List (AlertRuleRow D) → D → D → Type 0
IsChosen {D} Matches rules default result =
    (All (λ r. ¬ Matches r) rules × (result ≡ default))
    ⊎ ((r : AlertRuleRow D) × Holds r rules
        × Matches r
        × All (λ x. Matches x → x.id ≤ℤ r.id) rules
        × (result ≡ r.threshold))

module _ {D : Type 0} (p : AlertRuleRow D → Bool) (Matches : AlertRuleRow D → Type 0)
    (decides : (r : AlertRuleRow D) → (p r ≡ true) ↔ Matches r) where
  pub IsChosen-max_by_key :
      (rules : List (AlertRuleRow D)) (default : D)
      → IsChosen Matches rules default
          (threshold_or (max_by_key (λ r. r.id) (filter p rules)) default)
  unfolding max_by_key
  IsChosen-max_by_key rules default = cases (filter p rules) refl
    where
      cases :
          (l : List (AlertRuleRow D))
          → filter p rules ≡ l
          → IsChosen Matches rules default (threshold_or (max_by_key (λ r. r.id) l) default)
      cases [] e = inl (
        All-map rules (λ r f m. false≢true (sym f ∙ (decides r).1 m)) (All-of_filter-nil p rules e),
        refl,
      )
      cases (x ∷ xs) e =
          let best = max_from (λ r. r.id) x xs in
          let top = max_from-IsGreatest (λ (r : AlertRuleRow D). r.id) x xs in
          let (there, passes) = Holds-filter p best rules (rw e top.listed) in
          inr (
            best,
            there,
            (decides best).0 passes,
            All-map rules (λ r f m. f ((decides r).1 m)) (All-filter p _ rules (rw e top.greatest)),
            refl,
          )
