-- ===== src/Tests/Decisions.antt =====
-- Concrete inputs for the theorems on thresholds, risks, severities, prices and texts.
use lumina_analytics.Prelude.{
  ℕ, ◌≤◌, ◌<◌, String, ◌≡◌, refl, ◌↔◌, ◌⊎◌, Bool, true, Option, none, some, List, [], ◌∷◌, ◌*◌,
}
use Prim.Native.Char.{Char}
use Prim.Native.String.{len}
use lumina_analytics.Prelude.Int.{ℤ, pos, ◌+ℤ◌, ◌-ℤ◌, ◌*ℤ◌, quot}
use lumina_analytics.Text.{split_once, trim, to_ascii_uppercase}
use lumina_analytics.Decimal.{◌≼◌, from}
use lumina_analytics.Decimal.Micro.{micro_ops, micro_laws}
use lumina_analytics.Models.{AlertRuleRow}
use lumina_analytics.AlertRules.{
  LtvBands, resolve_ltv_bands, resolve_whale_threshold, resolve_holder_drop_threshold_pct,
  resolve_liquidity_drop_threshold_pct,
}
use lumina_analytics.AlertRules.Choice.{IsChosen}
use lumina_analytics.AlertRules.Select.{
  IsForAsset, IsForPool, resolve_asset_threshold-IsChosen, resolve_liquidity_threshold-IsChosen,
}
use lumina_analytics.AlertRules.Bands.{last_threshold, resolve_ltv_bands_lem}
use lumina_analytics.Logic.{search_like_pattern, compute_lending_risk}
use lumina_analytics.Logic.Like.{like, contains}
use lumina_analytics.Logic.Search.{search_like_pattern-contains}
use lumina_analytics.Logic.Risk.{rank_of, rank_of_iff}
use lumina_analytics.Logic.Lending.{IsAssessed, lending_risk-IsAssessed}
use lumina_analytics.Alerts.{critical, as_str, parse}
use lumina_analytics.Alerts.Severities.{parse-as_str}
use lumina_analytics.Pricing.{asset_eq, parse_pool_asset, native, price_from_known_leg}
use lumina_analytics.Pricing.Assets.{join_colon, Reads, parse_pool_asset-join}
use lumina_analytics.Prelude.{false, All}
use lumina_analytics.Prelude.Assoc.{string_eq, lookup}
use lumina_analytics.Text.{split}
use lumina_analytics.Metrics.Counts.{Request, Adds, stats_of, record_all, record_all-Adds}
use lumina_analytics.RuleRoutes.{NewAlertRule, RuleTable}
use lumina_analytics.RuleRoutes.Valid.{
  RuleRequest, create, update, IsValid, handle_all, handle_all-IsValid,
}
use lumina_analytics.Config.{blend_asset_prices_usd}
use lumina_analytics.Config.Prices.{IsLastPrice, IsPriceless, blend_asset_prices_usd_lem}
use lumina_analytics.Pricing.Legs.{
  IsLegPrice, price_from_known_leg_comm, price_from_known_leg-IsLegPrice,
}

abbrev rule : ℤ → String → String → Option String → Option String → ℕ → AlertRuleRow ℤ
rule id name rule_type code issuer threshold = record {
  id = id;
  name = name;
  rule_type = rule_type;
  asset_code = code;
  asset_issuer = issuer;
  threshold = pos (threshold * 1_000_000);
  enabled = true;
  created_at = 0;
}

abbrev rules : List (AlertRuleRow ℤ)
rules =
    rule (pos 1) "usdc" "whale_threshold" (some "USDC") (some "GA5") 500
    ∷ rule (pos 2) "pool" "liquidity_drop_pct" (some "p1") none 15
    ∷ rule (pos 3) "high" "ltv_band" none none 80
    ∷ []

search_like_pattern-contains_example :
    ((search_like_pattern "50%" ≡ none) × (len (trim "50%") < 2))
    ⊎ ((p : String) × (search_like_pattern "50%" ≡ some p)
        × (2 ≤ len (trim "50%"))
        × ((same : Char → Char → Bool) (s : String) → like same p s ≡ contains same (trim "50%") s))
search_like_pattern-contains_example = search_like_pattern-contains "50%"

resolve_asset_threshold-IsChosen_example :
    IsChosen
      (IsForAsset "whale_threshold" "USDC" (some "GA5"))
      rules
      (pos 7)
      (resolve_whale_threshold rules "USDC" (some "GA5") (pos 7))
    × IsChosen
        (IsForAsset "holder_drop_pct" "USDC" (some "GA5"))
        rules
        (pos 7)
        (resolve_holder_drop_threshold_pct rules "USDC" (some "GA5") (pos 7))
resolve_asset_threshold-IsChosen_example =
    resolve_asset_threshold-IsChosen rules "USDC" (some "GA5") (pos 7)

resolve_liquidity_threshold-IsChosen_example :
    IsChosen
      (IsForPool "p1")
      rules
      (pos 7)
      (resolve_liquidity_drop_threshold_pct rules "p1" (pos 7))
resolve_liquidity_threshold-IsChosen_example =
    resolve_liquidity_threshold-IsChosen rules "p1" (pos 7)

resolve_ltv_bands_lem_example : resolve_ltv_bands rules ≡ record {
  medium = last_threshold "MEDIUM" (from (pos 70)) rules;
  high = last_threshold "HIGH" (from (pos 85)) rules;
  critical = last_threshold "CRITICAL" (from (pos 95)) rules;
}
resolve_ltv_bands_lem_example = resolve_ltv_bands_lem rules

abbrev pool_asset : String
pool_asset = "USDC:GA5"

abbrev bands : LtvBands ℤ
bands = record { medium = pos 70_000_000; high = pos 80_000_000; critical = pos 95_000_000 }

rank_of_iff_example :
    ((1 ≤ rank_of (pos 81_000_000) bands) ↔ (bands.medium ≼ pos 81_000_000))
    × ((2 ≤ rank_of (pos 81_000_000) bands) ↔ (bands.high ≼ pos 81_000_000))
    × ((3 ≤ rank_of (pos 81_000_000) bands) ↔ (bands.critical ≼ pos 81_000_000))
unfolding micro_ops ◌+ℤ◌ ◌-ℤ◌ ◌*ℤ◌ quot
rank_of_iff_example =
    rank_of_iff micro_laws bands (pos 81_000_000) (record { medium_le = refl; high_le = refl })

abbrev whale_only : List (AlertRuleRow ℤ)
whale_only = rule (pos 1) "usdc" "whale_threshold" (some "USDC") (some "GA5") 500 ∷ []

lending_risk-IsAssessed_example :
    (collateral_usd debt_usd : ℤ) × (micro_ops.mul (pos 2_000_000) (pos 3_000_000)
      ≡ some collateral_usd)
    × (micro_ops.mul (pos 1_000_000) (pos 3_000_000) ≡ some debt_usd)
    × IsAssessed collateral_usd debt_usd (some (pos 50_000_000), some (pos 2_000_000))
unfolding compute_lending_risk micro_ops ◌+ℤ◌ ◌-ℤ◌ ◌*ℤ◌ quot
lending_risk-IsAssessed_example =
    lending_risk-IsAssessed (pos 2_000_000) (pos 3_000_000) (pos 1_000_000) (pos 3_000_000) refl

parse-as_str_example :
    (parse (as_str critical) ≡ some critical)
    × (parse (to_ascii_uppercase "Critical") ≡ parse "Critical")
    × ((parse "Critical" ≡ some critical) ↔ (to_ascii_uppercase "Critical" ≡ as_str critical))
parse-as_str_example = parse-as_str critical "Critical"

parse_pool_asset-join_example :
    Reads pool_asset (parse_pool_asset pool_asset)
    × (parse_pool_asset (join_colon "USDC" "GA5") ≡ ("USDC", "GA5"))
parse_pool_asset-join_example = parse_pool_asset-join pool_asset "USDC" "GA5" refl

price_from_known_leg_comm_example :
    price_from_known_leg "native" (pos 5_000_000) "USDC:GA5" (pos 2_000_000) native (pos 100_000)
    ≡ price_from_known_leg "USDC:GA5" (pos 2_000_000) "native" (pos 5_000_000) native (pos 100_000)
price_from_known_leg_comm_example =
    price_from_known_leg_comm "native" (pos 5_000_000) "USDC:GA5" (pos 2_000_000) native
      (pos 100_000)

price_from_known_leg-IsLegPrice_example :
    IsLegPrice "native"
      (pos 5_000_000)
      "USDC:GA5"
      (pos 2_000_000)
      native
      (pos 100_000)
      (("USDC", "GA5"), pos 250_000, pos 5_000_000)
    ⊎ IsLegPrice "USDC:GA5"
        (pos 2_000_000)
        "native"
        (pos 5_000_000)
        native
        (pos 100_000)
        (("USDC", "GA5"), pos 250_000, pos 5_000_000)
unfolding price_from_known_leg parse_pool_asset micro_ops ◌+ℤ◌ ◌-ℤ◌ ◌*ℤ◌ quot asset_eq split_once
price_from_known_leg-IsLegPrice_example =
    price_from_known_leg-IsLegPrice "native" (pos 5_000_000) "USDC:GA5" (pos 2_000_000) native
      (pos 100_000) refl

abbrev raw_prices : String
raw_prices = "CABC:1.00, CABC : 2 ,CABC:much,not-a-pair"

blend_asset_prices_usd_lem_example :
    ((price : ℤ)
      → (lookup "CABC" (blend_asset_prices_usd raw_prices) ≡ some price)
        ↔ IsLastPrice micro_ops.from_str "CABC" price (split b',' raw_prices))
    × ((lookup {V = ℤ} "CABC" (blend_asset_prices_usd raw_prices) ≡ none)
        ↔ All (IsPriceless micro_ops.from_str "CABC") (split b',' raw_prices))
blend_asset_prices_usd_lem_example = blend_asset_prices_usd_lem raw_prices "CABC"

abbrev requests : List Request
requests =
    record { route = "/pools"; status = 200; latency_ms = 10 }
    ∷ record { route = "/tokens"; status = 404; latency_ms = 3 }
    ∷ record { route = "/pools"; status = 503; latency_ms = 7 }
    ∷ []

record_all-Adds_example :
    Adds requests "/pools" (stats_of "/pools" []) (stats_of "/pools" (record_all requests []))
record_all-Adds_example = record_all-Adds requests "/pools" []

-- A rule is created, changed and removed again, and a second one is refused.
abbrev new_rule : NewAlertRule ℤ
new_rule = record {
  name = "usdc";
  rule_type = "whale_threshold";
  asset_code = some "USDC";
  asset_issuer = some "GA5";
  threshold = pos 5;
  enabled = true;
}

abbrev rule_requests : List (RuleRequest ℤ)
rule_requests =
    create true true 3 new_rule
    ∷ create true true 4 (record new_rule { asset_code = none })
    ∷ update true true (pos 1) (pos 9) false
    ∷ []

abbrev no_rules : RuleTable ℤ
no_rules = record { rules = []; next_id = 1 }

handle_all-IsValid_example : All IsValid (handle_all rule_requests no_rules).rules
handle_all-IsValid_example = handle_all-IsValid rule_requests no_rules tt
