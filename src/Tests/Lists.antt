-- ===== src/Tests/Lists.antt =====
-- Concrete inputs for the theorems on the lists of the API.
use lumina_analytics.Prelude.{
  ℕ, ◌≤◌, ◌<◌, String, ◌≡◌, refl, ◌⊎◌, Bool, true, Option, none, some, List, [], ◌∷◌, All, Holds,
  length, filter, arith, ◌==◌,
}
use Prim.Native.Char.{code}
use Prim.Native.String.{len}
use lumina_analytics.Prelude.Assoc.{string_eq}
use lumina_analytics.Prelude.Outcome.{ok}
use lumina_analytics.Prelude.Int.{ℤ, pos, ◌+ℤ◌, ◌-ℤ◌, ◌*ℤ◌, quot}
use lumina_analytics.Prelude.Sort.{IsSorted}
use lumina_analytics.Text.{trim}
use lumina_analytics.Decimal.Micro.{micro_ops, micro_laws}
use lumina_analytics.Models.{PoolTrend, TvlPoint, SearchResultRow}
use lumina_analytics.AlertRules.{resolve_ltv_bands}
use lumina_analytics.RuleRoutes.{RuleTable, list_alert_rules}
use lumina_analytics.Soroban.Position.{LendingPosition}
use lumina_analytics.Cache.Computed.{RoundTrips}
use lumina_analytics.Db.{PoolRow, PoolSnapshot, Store}
use lumina_analytics.Db.Pools.{snapshot_time, window, first_and_last, trend_of}
use lumina_analytics.Db.Tvl.{tvl_series, find_pool, bucket_of}
use lumina_analytics.Db.Tvl.Repeats.{IsFrom, sum_over, tvl_series-repeats}
use lumina_analytics.Db.Lending.{latest_positions}
use lumina_analytics.Api.{json, unwrap_or}
use lumina_analytics.Api.Lists.Pages.{PageRequest, PoolPage, AllRight, pools-AllRight}
use lumina_analytics.Api.Liquidations.{Liquidations, liquidations}
use lumina_analytics.Api.Liquidations.Positions.{Complete, by_ltv, liquidations-IsLatest}
use lumina_analytics.Api.Liquidations.Levels.{Counts, sum_counts, has_ltv, liquidations-Counts}
use lumina_analytics.Api.Search.{search_route}
use lumina_analytics.Api.Search.Found.{Found, search_route-Found}
use lumina_analytics.Api.Trending.{pool_trend, by_growth, trending_pools}
use lumina_analytics.Api.Trending.Growth.{IsTrend, trending_pools-IsTrend}

abbrev pool : PoolRow
pool = record { pool_id = "p"; asset_a = "native"; asset_b = "USDC:G"; fee_bp = pos 30 }

-- Amounts in millionths.
abbrev snapshot : (time shares : ℕ) → PoolSnapshot ℤ
snapshot time shares = record {
  time = time;
  pool_id = "p";
  reserve_a = pos shares;
  reserve_b = pos 4;
  total_shares = pos shares;
  trustline_count = pos 2;
}

abbrev store : Store ℤ
store = record {
  pools = pool ∷ [];
  pool_snapshots = snapshot 10 100 ∷ snapshot 20 150 ∷ [];
  tokens = [];
  token_snapshots = [];
  whale_transactions = [];
  asset_prices = [];
  ingest_state = [];
}

trending : List (PoolTrend ℤ)
trending =
    record {
      pool_id = "p";
      asset_a = "native";
      asset_b = "USDC:G";
      fee_bp = pos 30;
      first_time = 10;
      last_time = 20;
      shares_before = pos 100;
      shares_now = pos 150;
      reserve_a_now = pos 150;
      reserve_b_now = pos 4;
      shares_change_pct = some (pos 50000000);
    }
    ∷ []

trending_runs : trending_pools true 5 store ≡ ok trending
unfolding trending_pools trending micro_ops ◌+ℤ◌ ◌-ℤ◌ ◌*ℤ◌ quot
trending_runs = refl

trending_pools-IsTrend_example :
    All (IsTrend store 5) trending
    × IsSorted by_growth trending
    × ((p : PoolRow) (e l : PoolSnapshot ℤ)
        → Holds p store.pools
        → first_and_last snapshot_time (window p.pool_id 5 store) ≡ some (e, l)
        → (t : PoolTrend ℤ) × Holds t trending × (pool_trend (trend_of p (e, l)) ≡ some t))
trending_pools-IsTrend_example = trending_pools-IsTrend micro_laws store 5 trending_runs

point : TvlPoint ℤ
point = record {
  bucket = 0;
  pool_count = 1;
  total_reserve_native = pos 250;
  total_reserve_usd = none;
}

tvl_runs : tvl_series 5 store ≡ ok (point ∷ [])
unfolding tvl_series point micro_ops ◌+ℤ◌ ◌-ℤ◌ ◌*ℤ◌ quot
tvl_runs = refl

snapshots-IsFrom : All (IsFrom "p" 5 0) store.pool_snapshots
unfolding bucket_of
snapshots-IsFrom = ((refl, refl, refl), ((refl, refl, refl), tt))

there : find_pool "p" store.pools ≡ some pool
unfolding find_pool
there = refl

tvl_series-repeats_example :
    (q : TvlPoint ℤ) × (q ∷ [] ≡ point ∷ [])
    × (q.bucket ≡ 0)
    × (q.pool_count ≡ 1)
    × (sum_over pool store.pool_snapshots ≡ some q.total_reserve_native)
tvl_series-repeats_example =
    tvl_series-repeats store pool "p" 5 0 (snapshot 10 100) (snapshot 20 150 ∷ []) refl there
      snapshots-IsFrom tvl_runs

-- A cache that writes only the empty page.
abbrev to_string : PoolPage ℤ → Option String
to_string [] = some "[]"
to_string (p ∷ rows) = none

abbrev from_str : String → Option (PoolPage ℤ)
from_str s = some []

to_string-RoundTrips : RoundTrips to_string from_str
to_string-RoundTrips [] [] raw e f = refl
to_string-RoundTrips [] (p ∷ rows) raw e f = ground arith
to_string-RoundTrips (p ∷ rows) w raw e f = cc

abbrev request : Option ℤ → PageRequest ℤ
request limit = record {
  connected = true;
  gets = true;
  sets = true;
  accepts = true;
  store = store;
  query = record { limit = limit; offset = none };
}

pools-AllRight_example :
    AllRight to_string from_str (request (some (pos 7)) ∷ request none ∷ []) [] []
pools-AllRight_example =
    pools-AllRight to_string from_str (request (some (pos 7)) ∷ request none ∷ [])
      to_string-RoundTrips

search_route-Found_example :
    ((len (trim (unwrap_or (some "usd") "")) < 2)
      × ((accepts : Bool)
          → search_route (λ a b. code a == code b) (λ a b. true) accepts (some "usd") none store
            ≡ json []))
    ⊎ ((rows : List SearchResultRow) × (2 ≤ len (trim (unwrap_or (some "usd") "")))
        × (search_route (λ a b. code a == code b) (λ a b. true) true (some "usd") none store
            ≡ json rows)
        × Found (λ a b. code a == code b) (trim (unwrap_or (some "usd") "")) store rows)
search_route-Found_example =
    search_route-Found (λ a b. code a == code b) (λ a b. true) (some "usd") none store

abbrev position : LendingPosition ℤ
position = record {
  time = 8;
  pool_contract = "C";
  account = "G";
  collateral_asset = "a";
  collateral_amount = pos 10;
  debt_asset = "b";
  debt_amount = pos 9;
  ltv = some (pos 90000000);
  health_factor = none;
}

-- The account's row before this one, which is not shown.
abbrev positions_table : List (LendingPosition ℤ)
positions_table = record position { time = 3; ltv = none } ∷ position ∷ []

abbrev no_rules : RuleTable ℤ
no_rules = record { rules = []; next_id = 1 }

shown : Liquidations ℤ
shown = record {
  summary = record { risk_level = "HIGH"; position_count = 1; total_debt = pos 9 } ∷ [];
  positions = position ∷ [];
  note = "Live data.";
}

liquidations_runs : liquidations (λ a b. true) true no_rules positions_table ≡ json shown
unfolding liquidations shown micro_ops ◌+ℤ◌ ◌-ℤ◌ ◌*ℤ◌ quot
liquidations_runs = refl

liquidations-Counts_example :
    let bands = resolve_ltv_bands (list_alert_rules no_rules) in
    All (Counts bands (latest_positions positions_table)) shown.summary
    × (sum_counts shown.summary ≡ length (filter has_ltv (latest_positions positions_table)))
liquidations-Counts_example =
    liquidations-Counts (λ a b. true) true no_rules positions_table liquidations_runs

liquidations-IsLatest_example :
    Complete positions_table shown.positions × IsSorted by_ltv shown.positions
liquidations-IsLatest_example =
    liquidations-IsLatest micro_laws (λ a b. true) true no_rules positions_table liquidations_runs
