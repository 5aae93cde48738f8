-- ===== src/Alerts/Severities.antt =====
-- The severities of src/alerts.rs: their texts, and how they follow risk levels and drops.
use lumina_analytics.Prelude.{
  ◌-◌, ◌≤◌, String, ◌≡◌, refl, ◌↔◌, inl, inr, Bool, true, false, ◌&&◌, some, arith, eq_iff, leb,
  if◌then◌else◌, Bool-cases, Option-cases,
}
use Prim.Native.Char.{Char, code}
use lumina_analytics.Text.{to_ascii_uppercase, upper, char_of, code-char_of}
use lumina_analytics.Prelude.Int.{pos}
use lumina_analytics.Decimal.{DecimalOps, DecimalLaws, ◌≼◌, from}
use lumina_analytics.AlertRules.{LtvBands, risk_level_with_bands}
use lumina_analytics.Logic.{risk_rank}
use lumina_analytics.Logic.Risk.{rank_of}
use lumina_analytics.Alerts.{
  Severity, info, warning, critical, severity_rank, as_str, parse, severity_for_risk_level,
  severity_for_liquidity_drop, severity_for_holder_drop,
}

-- Upper case is reached in one step.
upper-upper : (c : Char) → upper (upper c) ≡ upper c
unfolding upper
upper-upper c = elim (Bool-cases (leb b'a' (code c) && leb (code c) b'z')) [
  | inl e ↦
      let upper_code : code (char_of (code c - 32)) ≡ code c - 32 =
        code-char_of (code c - 32) (ground arith) in
      let above : (leb b'a' (code c - 32) && leb (code c - 32) b'z') ≡ false = ground arith in
      rw e (rw upper_code (rw above refl))
  | inr e ↦ rw e (rw e refl)
]

uppercase-uppercase :
    (s : String) → to_ascii_uppercase (to_ascii_uppercase s) ≡ to_ascii_uppercase s
unfolding to_ascii_uppercase
uppercase-uppercase String.[] = refl
uppercase-uppercase (String.◌∷◌ c s) = rw (upper-upper c, uppercase-uppercase s)

parse_iff : (s : Severity) (t : String) → (parse t ≡ some s) ↔ (to_ascii_uppercase t ≡ as_str s)
unfolding parse as_str
parse_iff s t =
    let name = to_ascii_uppercase t in
    ground (
      arith,
      eq_iff name "INFO",
      eq_iff name "WARNING",
      eq_iff name "CRITICAL",
      eq_iff "INFO" "WARNING",
      eq_iff "INFO" "CRITICAL",
      eq_iff "WARNING" "CRITICAL",
    )

uppercase-as_str : (s : Severity) → to_ascii_uppercase (as_str s) ≡ as_str s
unfolding as_str to_ascii_uppercase
uppercase-as_str info = refl
uppercase-as_str warning = refl
uppercase-as_str critical = refl

parse_case : (t : String) → parse (to_ascii_uppercase t) ≡ parse t
unfolding parse
parse_case t = rw (uppercase-uppercase t)

-- A severity is read back from its text, and whether a text is read, and as what, does not depend on
-- the case of its ASCII letters; only the three names are read.
pub parse-as_str :
    (s : Severity) (t : String)
    → (parse (as_str s) ≡ some s)
      × (parse (to_ascii_uppercase t) ≡ parse t)
      × ((parse t ≡ some s) ↔ (to_ascii_uppercase t ≡ as_str s))
parse-as_str s t = ((parse_iff s (as_str s)).1 (uppercase-as_str s), parse_case t, parse_iff s t)

-- The severity of a risk level is critical at the highest rank, a warning at the one below, and
-- informational at the others, so that it never falls as the LTV rises.
pub severity_for_risk_level-rank_of :
    {D : Type 0} ⦃d : DecimalOps D⦄ (ltv : D) (bands : LtvBands D)
    → severity_rank (severity_for_risk_level (risk_level_with_bands ltv bands))
      ≡ rank_of ltv bands - 1
unfolding severity_for_risk_level risk_rank risk_level_with_bands
severity_for_risk_level-rank_of ⦃d⦄ ltv bands =
    levels (d.le bands.critical ltv) (d.le bands.high ltv) (d.le bands.medium ltv)
  where
    levels :
        (c h m : Bool)
        → let level : String =
            (if c then "CRITICAL" else if h then "HIGH" else if m then "MEDIUM" else "LOW") in
          severity_rank (severity_for_risk_level level) ≡ risk_rank level - 1
    levels true h m = refl
    levels false true m = refl
    levels false false true = refl
    levels false false false = refl

module _ {D : Type 0} ⦃d : DecimalOps D⦄ (laws : DecimalLaws D) where
  open laws use {le_trans}

  -- Of two drops that clear a threshold, the larger one never has the lower severity, for pools and
  -- for holders, and neither is merely informational.
  pub severity_for_drop_mono :
      (drop drop' threshold : D) {s s' t t' : Severity}
      → drop ≼ drop'
      → severity_for_liquidity_drop drop threshold ≡ some s
      → severity_for_liquidity_drop drop' threshold ≡ some s'
      → severity_for_holder_drop drop threshold ≡ some t
      → severity_for_holder_drop drop' threshold ≡ some t'
      → (1 ≤ severity_rank s)
        × (severity_rank s ≤ severity_rank s')
        × (1 ≤ severity_rank t)
        × (severity_rank t ≤ severity_rank t')
  unfolding severity_for_liquidity_drop severity_for_holder_drop
  severity_for_drop_mono drop drop' threshold h e e' f f' =
      elim (Option-cases (d.mul threshold (from (pos 2)))) [
        | inl x ↦ ground arith
        | inr (double, x) ↦ ground (arith, le_trans double drop drop')
      ]
