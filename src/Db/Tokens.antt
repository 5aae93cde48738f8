-- ===== src/Db/Tokens.antt =====
-- src/db/tokens.rs: the queries of the API on tokens and their snapshots.
use lumina_analytics.Prelude.{ℕ, String, not, ◌&&◌, List, [], ◌∷◌, map, filter, length, str_eq, leb}
use lumina_analytics.Prelude.Int.{leb_ℤ}
use lumina_analytics.Prelude.Sort.{sort_by, page}
use lumina_analytics.Models.{TokenWithLatest, TokenSnapshotRow, TokenTrendRaw}
use lumina_analytics.Db.{TokenSnapshot, Store}
use lumina_analytics.Db.Pools.{
  first_by, oldest_first, newest_first, desc_nulls_last, option_map, first_and_last, filter_map,
}

module _ {D : Type 0} where
  abbrev pub token_time : TokenSnapshot D → ℕ
  token_time r = r.time

  abbrev pub token_snapshots_of : String → String → Store D → List (TokenSnapshot D)
  token_snapshots_of asset_code asset_issuer s =
      filter
        (λ (r : TokenSnapshot D).
          str_eq r.asset_code asset_code && str_eq r.asset_issuer asset_issuer)
        s.token_snapshots

  unfoldable pub token_with_latest : Store D → String × String → TokenWithLatest D
  token_with_latest s (asset_code, asset_issuer) =
      let latest =
        first_by (newest_first token_time) (token_snapshots_of asset_code asset_issuer s) in
      record {
        asset_code = asset_code;
        asset_issuer = asset_issuer;
        time = option_map (λ (r : TokenSnapshot D). r.time) latest;
        amount = option_map (λ (r : TokenSnapshot D). r.amount) latest;
        num_accounts = option_map (λ (r : TokenSnapshot D). r.num_accounts) latest;
        num_claimable_balances =
            option_map (λ (r : TokenSnapshot D). r.num_claimable_balances) latest;
      }

  unfoldable pub list_tokens_with_latest : (limit offset : ℕ) → Store D → List (TokenWithLatest D)
  unfolding token_with_latest sort_by
  list_tokens_with_latest limit offset s =
      page
        (λ (a : TokenWithLatest D) (b : TokenWithLatest D).
          desc_nulls_last leb_ℤ a.num_accounts b.num_accounts)
        limit offset (map (token_with_latest s) s.tokens)

  unfoldable pub count_tokens : Store D → ℕ
  count_tokens s = length s.tokens

  abbrev pub token_window : String → String → ℕ → Store D → List (TokenSnapshot D)
  token_window asset_code asset_issuer since s =
      filter (λ (r : TokenSnapshot D). leb since r.time)
        (token_snapshots_of asset_code asset_issuer s)

  unfoldable pub token_trend_of :
      String × String → TokenSnapshot D × TokenSnapshot D → TokenTrendRaw D
  token_trend_of (asset_code, asset_issuer) (e, l) = record {
    asset_code = asset_code;
    asset_issuer = asset_issuer;
    first_time = e.time;
    last_time = l.time;
    amount_before = e.amount;
    amount_now = l.amount;
    holders_before = e.num_accounts;
    holders_now = l.num_accounts;
  }

  -- The groups of the two common tables
  unfoldable pub token_groups : List (TokenSnapshot D) → List (String × String)
  token_groups [] = []
  token_groups (r ∷ rows) =
      let same = λ (t : String × String). str_eq t.0 r.asset_code && str_eq t.1 r.asset_issuer in
      (r.asset_code, r.asset_issuer)
      ∷ filter (λ (t : String × String). not (same t)) (token_groups rows)

  unfoldable pub token_trends : ℕ → Store D → List (TokenTrendRaw D)
  unfolding token_groups token_trend_of sort_by
  token_trends since s =
      filter_map
        (λ (t : String × String).
          option_map (token_trend_of t) (first_and_last token_time (token_window t.0 t.1 since s)))
        (token_groups s.token_snapshots)

  unfoldable pub token_history : String → String → ℕ → Store D → List (TokenSnapshotRow D)
  unfolding sort_by
  token_history asset_code asset_issuer since s =
      map
        (λ (r : TokenSnapshot D). record {
          time = r.time;
          amount = r.amount;
          num_accounts = r.num_accounts;
          num_claimable_balances = r.num_claimable_balances;
        })
        (sort_by (oldest_first token_time) (token_window asset_code asset_issuer since s))
