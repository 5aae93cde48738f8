-- ===== src/Db/Search.antt =====
-- src/db/search.rs: the search over pools, tokens and accounts. `same` compares characters as `ILIKE`
-- does, and `text_le` is the order of texts in the database.
use lumina_analytics.Prelude.{
  ℕ, String, Bool, not, ◌||◌, none, some, List, [], ◌∷◌, ◌++◌, map, filter, str_eq,
}
use Prim.Native.Char.{Char}
use Prim.Native.String.{◌++◌ as append}
use lumina_analytics.Prelude.Sort.{sort_by, take}
use lumina_analytics.Logic.Like.{like}
use lumina_analytics.Models.{SearchResultRow}
use lumina_analytics.Db.{PoolRow, WhaleTransaction, Store}
use lumina_analytics.Db.Pools.{filter_map}

-- `UNION` and `SELECT DISTINCT`
unfoldable pub distinct : List String → List String
distinct [] = []
distinct (s ∷ texts) = s ∷ filter (λ t. not (str_eq s t)) (distinct texts)

abbrev pub pool_hit : PoolRow → SearchResultRow
pool_hit p = record {
  result_type = "pool";
  title = append p.asset_a (append "/" p.asset_b);
  subtitle = some p.pool_id;
  key = p.pool_id;
}

abbrev pub token_hit : String × String → SearchResultRow
token_hit t = record {
  result_type = "token";
  title = t.0;
  subtitle = some t.1;
  key = append t.0 (append ":" t.1);
}

abbrev pub account_hit : String → SearchResultRow
account_hit account = record {
  result_type = "account";
  title = account;
  subtitle = none;
  key = account;
}

abbrev pub accounts : {D : Type 0} → List (WhaleTransaction D) → List String
accounts {D} rows =
    map (λ (r : WhaleTransaction D). r.source_account) rows
    ++ filter_map (λ (r : WhaleTransaction D). r.dest_account) rows

module _ (same : Char → Char → Bool) (text_le : String → String → Bool)
    (query_pattern : String) where
  abbrev pub ilike : String → Bool
  ilike s = like same query_pattern s

  -- `ORDER BY ... LIMIT $2`
  abbrev pub first_texts : {A : Type 0} → (A → String) → ℕ → List A → List A
  first_texts text limit rows = take limit (sort_by (λ a b. text_le (text a) (text b)) rows)

  abbrev pub pool_matches : PoolRow → Bool
  pool_matches p = ilike p.asset_a || ilike p.asset_b || ilike p.pool_id

  abbrev pub token_matches : String × String → Bool
  token_matches t = ilike t.0 || ilike t.1

  unfoldable pub search : {D : Type 0} → (limit : ℕ) → Store D → List SearchResultRow
  unfolding distinct sort_by
  search limit s =
      map pool_hit (first_texts (λ (p : PoolRow). p.pool_id) limit (filter pool_matches s.pools))
      ++ (map token_hit
            (first_texts (λ (t : String × String). t.0) limit (filter token_matches s.tokens))
          ++ map account_hit (
              first_texts (λ (a : String). a) limit
                (distinct (filter ilike (accounts s.whale_transactions)))))
