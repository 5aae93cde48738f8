-- ===== src/Logic.antt =====
-- src/logic.rs: the decisions of ingestion and of the API that need no database. `none` outside the
-- result is a panic of `Decimal` arithmetic.
pub mod Risk
pub mod Lending
pub mod Like
pub mod Search
use lumina_analytics.Prelude.{
  ℕ, zero, suc, ◌+◌, ◌-◌, ◌*◌, ◌/◌, ◌%◌, ◌^◌, ◌≤◌, ◌<◌, String, ◌≡◌, refl, sym, ap, ◌∙◌, ◌≢◌, ◌↔◌,
  ◌⊎◌, inl, inr, Bool, true, false, not, ◌&&◌, ◌||◌, Option, none, some, List, [], ◌∷◌, ◌++◌, map,
  arith, str_eq, eq_iff, eq_refl, ltb, leb, ◌==◌, if◌then◌else◌, ltb→lt, lt→ltb, leb→le, ==_iff,
  Bool-cases, Option-cases, length, get_elem?, filter, All, Holds, length-append, All-append,
}
use Prim.Native.String.{len, ◌++◌ as append}
use lumina_analytics.Prelude.Int.{pos}
use lumina_analytics.Text.{trim, replace}
use lumina_analytics.Decimal.{DecimalOps, dec_lt, from}
use lumina_analytics.Decimal.Checked.{◌>>=◌}
use lumina_analytics.AlertRules.{opt_eq}

abbrev pub unwrap_or : Option String → String → String
unwrap_or none default = default
unwrap_or (some s) default = s

unfoldable pub resolve_payment_asset :
    Option String → Option String → Option String → String × Option String
resolve_payment_asset asset_type asset_code asset_issuer =
    if opt_eq asset_type (some "native")
    then ("XLM", none)
    else (unwrap_or asset_code "UNKNOWN", asset_issuer)

module _ {D : Type 0} ⦃d : DecimalOps D⦄ where
  unfoldable pub whale_amount : String → Option D → D → Option D
  whale_amount op_type amount threshold =
      if not (str_eq op_type "payment")
      then none
      else elim amount [ none ↦ none | some a ↦ if dec_lt a threshold then none else some a ]

  unfoldable pub percent_change : D → D → Option (Option D)
  percent_change before now = if d.is_zero before then some none else do
    change ← d.sub now before
    ratio ← d.div change before
    percent ← d.mul ratio (from (pos 100))
    some (some percent)

  -- The part of `compute_lending_risk` behind the prices.
  unfoldable pub lending_risk_of : D → D → D → D → Option (Option D × Option D)
  lending_risk_of collateral_amount collateral_price debt_amount debt_price = do
    collateral_usd ← d.mul collateral_amount collateral_price
    debt_usd ← d.mul debt_amount debt_price
    if d.is_zero collateral_usd then some (none, none) else do
      ratio ← d.div debt_usd collateral_usd
      ltv ← d.mul ratio (from (pos 100))
      if d.is_zero debt_usd
          then some (some ltv, none)
          else do health_factor ← d.div collateral_usd debt_usd; some (some ltv, some health_factor)

  unfoldable pub compute_lending_risk : D → Option D → D → Option D → Option (Option D × Option D)
  unfolding lending_risk_of
  compute_lending_risk collateral_amount (some collateral_price) debt_amount (some debt_price) =
      lending_risk_of collateral_amount collateral_price debt_amount debt_price
  compute_lending_risk collateral_amount _ debt_amount _ = some (none, none)

  unfoldable pub risk_level : D → String
  risk_level ltv =
      if d.le (from (pos 95)) ltv
      then "CRITICAL"
      else if d.le (from (pos 85)) ltv
      then "HIGH"
      else if d.le (from (pos 70)) ltv
      then "MEDIUM"
      else "LOW"

unfoldable pub risk_rank : String → ℕ
risk_rank level =
    if str_eq level "CRITICAL"
    then 3
    else if str_eq level "HIGH"
    then 2
    else if str_eq level "MEDIUM"
    then 1
    else 0

unfoldable pub search_like_pattern : String → Option String
unfolding trim replace
search_like_pattern raw =
    let trimmed = trim raw in
    if ltb (len trimmed) 2
    then none
    else let escaped = replace b'_' "\\_" (replace b'%' "\\%" (replace 0x5c "\\\\" trimmed)) in
      some (append "%" (append escaped "%"))

search_runs : search_like_pattern "50%_off" ≡ some "%50\\%\\_off%"
unfolding search_like_pattern
search_runs = refl
