-- ===== src/Api/Lists.antt =====
-- src/api/routes/{pools,tokens,whales,health}.rs: the handlers that read. `accepts` is whether
-- the database answers, and `ago` what `Utc::now() - Duration::hours(hours)` of the crate `chrono`
-- gives, which panics where the result is out of its range.
pub mod Keys
pub mod Pages
use lumina_analytics.Prelude.{
  ℕ, String, Bool, true, false, Option, none, some, List, [], ◌∷◌, if◌then◌else◌,
}
use Prim.Native.Char.{Char}
use Prim.Native.String.{◌++◌ as append}
use lumina_analytics.Prelude.Outcome.{Outcome, ok, err, panic, ◌>>=◌, checked}
use lumina_analytics.Prelude.Int.{ℤ, pos, pos_part}
use lumina_analytics.Prelude.Sort.{sort_by}
use lumina_analytics.Text.Display.{display_ℤ}
use lumina_analytics.Decimal.{DecimalOps, from, dec_zero}
use lumina_analytics.Decimal.Checked.{◌>>=◌ as and_then}
use lumina_analytics.Logic.{percent_change, search_like_pattern}
use lumina_analytics.Cache.{Call, get_or_compute}
use lumina_analytics.Models.{
  PoolWithLatest, PoolSnapshotRow, PoolTrendRaw, PoolTrend, TokenWithLatest, TokenSnapshotRow,
  TokenTrendRaw, TokenTrend, TvlPoint, WhaleTransactionRow, SearchResultRow,
}
use lumina_analytics.Db.{Store}
use lumina_analytics.Db.Pools.{desc_nulls_last, list_pools_with_latest, pool_history, pool_trends}
use lumina_analytics.Db.Tvl.{tvl_series}
use lumina_analytics.Db.Tokens.{list_tokens_with_latest, token_trends, token_history}
use lumina_analytics.Db.Whales.{list_whale_transactions}
use lumina_analytics.Db.Search.{search}
use lumina_analytics.Api.{
  Reply, json, internal_error, service_unavailable, PageQuery, page_limit, page_offset, clamp,
  unwrap_or,
}

-- What becomes of a result; a panic ends the request without a response.
abbrev pub answer : {A : Type 0} → Outcome A → Outcome (Reply A)
answer (ok a) = ok (json a)
answer err = ok internal_error
answer panic = panic

abbrev pub answered : {A : Type 0} → Bool → A → Outcome A
answered accepts a = if accepts then ok a else err

-- `q.hours.unwrap_or(24)`
abbrev pub hours_of : Option ℤ → ℤ
hours_of hours = unwrap_or hours (pos 24)

unfoldable pub page_key : String → (limit offset : ℤ) → String
unfolding display_ℤ
page_key name limit offset =
    append name (append ":" (append (display_ℤ limit) (append ":" (display_ℤ offset))))

unfoldable pub hours_key : String → ℤ → String
unfolding display_ℤ
hours_key name hours = append name (append ":" (display_ℤ hours))

-- One call of the cache: whether there is a connection, and what Redis does with its two commands.
pub record Redis (T : Type 0) : Type 0 where
  pub connected : Bool
  pub gets : Bool
  pub sets : Bool
  pub to_string : T → Option String
  pub from_str : String → Option T

-- The handlers that look into the cache: the response, and the entries after.
abbrev pub through_cache :
    {T : Type 0}
    → Redis T
    → String
    → Outcome T
    → List (String × String)
    → Outcome (Reply T) × List (String × String)
through_cache {T} redis key compute entries =
    let call : Call T = record {
      connected = redis.connected;
      gets = redis.gets;
      sets = redis.sets;
      key = key;
      compute = compute;
    } in
    let (result, after) = get_or_compute redis.to_string redis.from_str call entries in
    (answer result, after)

abbrev pub since_of :
    {T : Type 0}
    → (ℤ → Option ℕ)
    → ℤ
    → List (String × String)
    → (ℕ → Outcome (Reply T) × List (String × String))
    → Outcome (Reply T) × List (String × String)
since_of ago hours entries rest = elim (ago hours) [
  | none ↦ (panic, entries)
  | some since ↦ rest since
]

module _ {D : Type 0} ⦃d : DecimalOps D⦄ (accepts : Bool) (s : Store D) where
  unfoldable pub pools :
      Redis (List (PoolWithLatest D))
      → PageQuery
      → List (String × String)
      → Outcome (Reply (List (PoolWithLatest D))) × List (String × String)
  unfolding page_limit page_offset page_key list_pools_with_latest get_or_compute
  pools redis q entries =
      let limit = page_limit q in
      let offset = page_offset q in
      through_cache redis (page_key "pools" limit offset)
        (answered accepts (list_pools_with_latest (pos_part limit) (pos_part offset) s)) entries

  unfoldable pub tokens :
      Redis (List (TokenWithLatest D))
      → PageQuery
      → List (String × String)
      → Outcome (Reply (List (TokenWithLatest D))) × List (String × String)
  unfolding page_limit page_offset page_key list_tokens_with_latest get_or_compute
  tokens redis q entries =
      let limit = page_limit q in
      let offset = page_offset q in
      through_cache redis (page_key "tokens" limit offset)
        (answered accepts (list_tokens_with_latest (pos_part limit) (pos_part offset) s)) entries

  unfoldable pub tvl :
      Redis (List (TvlPoint D))
      → (ℤ → Option ℕ)
      → Option ℤ
      → List (String × String)
      → Outcome (Reply (List (TvlPoint D))) × List (String × String)
  unfolding hours_key tvl_series get_or_compute
  tvl redis ago hours entries = since_of ago (hours_of hours) entries λ since.
      through_cache redis (hours_key "tvl" (hours_of hours))
        (answered accepts tt >>= λ done. tvl_series since s) entries

  unfoldable pub pool_history_route :
      (ℤ → Option ℕ) → String → Option ℤ → Outcome (Reply (List (PoolSnapshotRow D)))
  unfolding pool_history
  pool_history_route ago pool_id hours = checked (ago (hours_of hours)) >>= λ since.
      answer (answered accepts (pool_history pool_id since s))

  unfoldable pub token_history_route :
      (ℤ → Option ℕ)
      → (asset_code asset_issuer : String) → Option ℤ
      → Outcome (Reply (List (TokenSnapshotRow D)))
  unfolding token_history
  token_history_route ago asset_code asset_issuer hours =
      checked (ago (hours_of hours)) >>= λ since.
      answer (answered accepts (token_history asset_code asset_issuer since s))

  -- `try_from` is the crate's conversion of an `f64`, of type `F`.
  unfoldable pub whale_transactions :
      {F : Type 0}
      → (ten_thousand : F) (try_from : F → Option D) (min_amount : Option F) (limit : Option ℤ)
        (account : Option String)
      → Outcome (Reply (List (WhaleTransactionRow D)))
  unfolding list_whale_transactions
  whale_transactions ten_thousand try_from min_amount limit account =
      let least = unwrap_or (try_from (unwrap_or min_amount ten_thousand)) dec_zero in
      let most = pos_part (clamp (unwrap_or limit (pos 100)) (pos 1) (pos 1000)) in
      answer (answered accepts tt >>= λ done. list_whale_transactions least most account s)

-- The status of the service, where `ping` answers or not.
unfoldable pub health : Bool → Reply String
health pings = if pings then json "ok" else service_unavailable
