-- ===== src/Api/Trending.antt =====
-- `pools_trending` and `tokens_trending` of src/api/routes/{pools,tokens}.rs: what has grown the most.
pub mod Growth
use lumina_analytics.Prelude.{
  ℕ, String, Bool, true, false, Option, none, some, List, [], ◌∷◌, if◌then◌else◌,
}
use Prim.Native.Char.{Char}
use Prim.Native.String.{◌++◌ as append}
use lumina_analytics.Prelude.Outcome.{Outcome, ok, err, panic, ◌>>=◌, checked}
use lumina_analytics.Prelude.Int.{ℤ, pos, pos_part}
use lumina_analytics.Prelude.Sort.{sort_by}
use lumina_analytics.Text.Display.{display_ℤ}
use lumina_analytics.Decimal.{DecimalOps, from, dec_zero}
use lumina_analytics.Decimal.Checked.{◌>>=◌ as and_then}
use lumina_analytics.Logic.{percent_change, search_like_pattern}
use lumina_analytics.Cache.{Call, get_or_compute}
use lumina_analytics.Models.{
  PoolWithLatest, PoolSnapshotRow, PoolTrendRaw, PoolTrend, TokenWithLatest, TokenSnapshotRow,
  TokenTrendRaw, TokenTrend, TvlPoint, WhaleTransactionRow, SearchResultRow,
}
use lumina_analytics.Db.{Store}
use lumina_analytics.Db.Pools.{desc_nulls_last, list_pools_with_latest, pool_history, pool_trends}
use lumina_analytics.Db.Tvl.{tvl_series}
use lumina_analytics.Db.Tokens.{list_tokens_with_latest, token_trends, token_history}
use lumina_analytics.Db.Whales.{list_whale_transactions}
use lumina_analytics.Db.Search.{search}
use lumina_analytics.Api.{
  Reply, json, internal_error, service_unavailable, PageQuery, page_limit, page_offset, clamp,
  unwrap_or,
}
use lumina_analytics.Api.Lists.{answered, hours_of, hours_key, Redis, through_cache, since_of}

-- `map` with a closure that may panic
abbrev pub map_all : {A B : Type 0} → (A → Option B) → List A → Option (List B)
map_all f [] = some []
map_all f (a ∷ rest) =
    let more = map_all f rest in and_then (f a) λ b. and_then more λ bs. some (b ∷ bs)

module _ {D : Type 0} ⦃d : DecimalOps D⦄ where
  -- The closure of `map` in `pools_trending`
  unfoldable pub pool_trend : PoolTrendRaw D → Option (PoolTrend D)
  unfolding percent_change
  pool_trend r = and_then (percent_change r.shares_before r.shares_now) λ pct. some (record {
    pool_id = r.pool_id;
    asset_a = r.asset_a;
    asset_b = r.asset_b;
    fee_bp = r.fee_bp;
    first_time = r.first_time;
    last_time = r.last_time;
    shares_before = r.shares_before;
    shares_now = r.shares_now;
    reserve_a_now = r.reserve_a_now;
    reserve_b_now = r.reserve_b_now;
    shares_change_pct = pct;
  })

  unfoldable pub token_trend : TokenTrendRaw D → Option (TokenTrend D)
  unfolding percent_change
  token_trend r = and_then (percent_change (from r.holders_before) (from r.holders_now)) λ pct.
      some (record {
        asset_code = r.asset_code;
        asset_issuer = r.asset_issuer;
        first_time = r.first_time;
        last_time = r.last_time;
        amount_before = r.amount_before;
        amount_now = r.amount_now;
        holders_before = r.holders_before;
        holders_now = r.holders_now;
        holders_change_pct = pct;
      })

  abbrev pub by_growth : PoolTrend D → PoolTrend D → Bool
  by_growth a b = desc_nulls_last d.le a.shares_change_pct b.shares_change_pct

  -- The closure `compute` of `pools_trending`
  unfoldable pub trending_pools : Bool → ℕ → Store D → Outcome (List (PoolTrend D))
  unfolding pool_trend pool_trends sort_by
  trending_pools accepts since s = do
    raw ← answered accepts (pool_trends since s)
    trends ← checked (map_all pool_trend raw)
    ok (sort_by by_growth trends)

  unfoldable pub trending_tokens : Bool → ℕ → Store D → Outcome (List (TokenTrend D))
  unfolding token_trend token_trends sort_by
  trending_tokens accepts since s = do
    raw ← answered accepts (token_trends since s)
    trends ← checked (map_all token_trend raw)
    ok (
        sort_by
          (λ (a : TokenTrend D) (b : TokenTrend D).
            desc_nulls_last d.le a.holders_change_pct b.holders_change_pct)
          trends)

module _ {D : Type 0} ⦃d : DecimalOps D⦄ (accepts : Bool) (s : Store D) where
  unfoldable pub pools_trending :
      Redis (List (PoolTrend D))
      → (ℤ → Option ℕ)
      → Option ℤ
      → List (String × String)
      → Outcome (Reply (List (PoolTrend D))) × List (String × String)
  unfolding hours_key trending_pools get_or_compute
  pools_trending redis ago hours entries = since_of ago (hours_of hours) entries λ since.
      through_cache redis (hours_key "pools_trending" (hours_of hours))
        (trending_pools accepts since s) entries

  unfoldable pub tokens_trending :
      Redis (List (TokenTrend D))
      → (ℤ → Option ℕ)
      → Option ℤ
      → List (String × String)
      → Outcome (Reply (List (TokenTrend D))) × List (String × String)
  unfolding hours_key trending_tokens get_or_compute
  tokens_trending redis ago hours entries = since_of ago (hours_of hours) entries λ since.
      through_cache redis (hours_key "tokens_trending" (hours_of hours))
        (trending_tokens accepts since s) entries
