-- ===== src/Api/Search.antt =====
-- src/api/routes/search.rs: the search of the dashboard. `same` compares characters as `ILIKE` does, and
-- `text_le` is the order of texts in the database.
pub mod Found
use lumina_analytics.Prelude.{
  ℕ, String, Bool, true, false, Option, none, some, List, [], ◌∷◌, if◌then◌else◌,
}
use Prim.Native.Char.{Char}
use Prim.Native.String.{◌++◌ as append}
use lumina_analytics.Prelude.Outcome.{Outcome, ok, err, panic, ◌>>=◌, checked}
use lumina_analytics.Prelude.Int.{ℤ, pos, pos_part}
use lumina_analytics.Prelude.Sort.{sort_by}
use lumina_analytics.Text.Display.{display_ℤ}
use lumina_analytics.Decimal.{DecimalOps, from, dec_zero}
use lumina_analytics.Decimal.Checked.{◌>>=◌ as and_then}
use lumina_analytics.Logic.{percent_change, search_like_pattern}
use lumina_analytics.Cache.{Call, get_or_compute}
use lumina_analytics.Models.{
  PoolWithLatest, PoolSnapshotRow, PoolTrendRaw, PoolTrend, TokenWithLatest, TokenSnapshotRow,
  TokenTrendRaw, TokenTrend, TvlPoint, WhaleTransactionRow, SearchResultRow,
}
use lumina_analytics.Db.{Store}
use lumina_analytics.Db.Pools.{desc_nulls_last, list_pools_with_latest, pool_history, pool_trends}
use lumina_analytics.Db.Tvl.{tvl_series}
use lumina_analytics.Db.Tokens.{list_tokens_with_latest, token_trends, token_history}
use lumina_analytics.Db.Whales.{list_whale_transactions}
use lumina_analytics.Db.Search.{search}
use lumina_analytics.Api.{
  Reply, json, internal_error, service_unavailable, PageQuery, page_limit, page_offset, clamp,
  unwrap_or,
}

unfoldable pub search_route :
    {D : Type 0}
    → (same : Char → Char → Bool) (text_le : String → String → Bool) (accepts : Bool)
      (q : Option String) (limit : Option ℤ)
    → Store D
    → Reply (List SearchResultRow)
unfolding search_like_pattern search
search_route same text_le accepts q limit s = elim (search_like_pattern (unwrap_or q "")) [
  | none ↦ json []
  | some query_pattern ↦
      let most = pos_part (clamp (unwrap_or limit (pos 8)) (pos 1) (pos 25)) in
      if accepts then json (search same text_le query_pattern most s) else internal_error
]
