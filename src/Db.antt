-- ===== src/Db.antt =====
-- src/db/{pools,tokens,whales,pricing,mod}.rs: the tables that ingestion writes, the statements as
-- functions on them, and transactions. A time is a number of microseconds. The server may refuse any
-- statement; a refused statement fails the transaction, whose later statements are then refused too,
-- as PostgreSQL documents.
pub mod Transaction
pub mod Pools
pub mod Tvl
pub mod Lending
pub mod Tokens
pub mod Whales
pub mod Search
use lumina_analytics.Prelude.{
  ℕ, String, Bool, true, false, not, ◌&&◌, ◌||◌, Option, none, some, List, [], ◌∷◌, ◌++◌, map,
  str_eq, ◌==◌, if◌then◌else◌, filter,
}
use lumina_analytics.Prelude.Int.{ℤ, pos}
use lumina_analytics.Prelude.Assoc.{string_eq, lookup, insert}
use lumina_analytics.AlertRules.{max_by_key}
use lumina_analytics.Pricing.Hops.{PriceRow}

pub record PoolRow : Type 0 where
  pub pool_id : String
  pub asset_a : String
  pub asset_b : String
  pub fee_bp : ℤ

pub record PoolSnapshot (D : Type 0) : Type 0 where
  pub time : ℕ
  pub pool_id : String
  pub reserve_a : D
  pub reserve_b : D
  pub total_shares : D
  pub trustline_count : ℤ

pub record TokenSnapshot (D : Type 0) : Type 0 where
  pub time : ℕ
  pub asset_code : String
  pub asset_issuer : String
  pub amount : D
  pub num_accounts : ℤ
  pub num_claimable_balances : ℤ

pub record WhaleTransaction (D : Type 0) : Type 0 where
  pub time : ℕ
  pub op_id : String
  pub tx_hash : String
  pub source_account : String
  pub dest_account : Option String
  pub asset_code : String
  pub asset_issuer : Option String
  pub amount : D

-- The tables. A price row carries its time.
pub record Store (D : Type 0) : Type 0 where
  pub pools : List PoolRow
  pub pool_snapshots : List (PoolSnapshot D)
  pub tokens : List (String × String)
  pub token_snapshots : List (TokenSnapshot D)
  pub whale_transactions : List (WhaleTransaction D)
  pub asset_prices : List (ℕ × PriceRow D)
  pub ingest_state : List (String × String)

-- `EXISTS`, for the conflicts
abbrev pub any : {A : Type 0} → (A → Bool) → List A → Bool
any p [] = false
any p (x ∷ xs) = p x || any p xs

-- The row that the first of `ORDER BY time DESC LIMIT 1` is, when times differ.
abbrev pub newest : {A : Type 0} → (A → ℕ) → List A → Option A
newest time rows = max_by_key (λ r. pos (time r)) rows

module _ {D : Type 0} where
  unfoldable pub upsert_pool : PoolRow → Store D → Store D
  upsert_pool row s =
      if any (λ (r : PoolRow). str_eq r.pool_id row.pool_id) s.pools
      then s
      else record s { pools = s.pools ++ (row ∷ []) }

  unfoldable pub insert_pool_snapshot : PoolSnapshot D → Store D → Store D
  insert_pool_snapshot row s = record s { pool_snapshots = s.pool_snapshots ++ (row ∷ []) }

  unfoldable pub latest_pool_total_shares : String → Store D → Option D
  latest_pool_total_shares pool_id s =
      elim (newest (λ (r : PoolSnapshot D). r.time)
        (filter (λ (r : PoolSnapshot D). str_eq r.pool_id pool_id) s.pool_snapshots)) [
          | none ↦ none
          | some r ↦ some r.total_shares
        ]

  unfoldable pub upsert_token : String → String → Store D → Store D
  upsert_token asset_code asset_issuer s =
      if any (λ (r : String × String). str_eq r.0 asset_code && str_eq r.1 asset_issuer) s.tokens
      then s
      else record s { tokens = s.tokens ++ ((asset_code, asset_issuer) ∷ []) }

  unfoldable pub latest_token_num_accounts : String → String → Store D → Option ℤ
  latest_token_num_accounts asset_code asset_issuer s =
      elim (newest (λ (r : TokenSnapshot D). r.time)
        (filter
          (λ (r : TokenSnapshot D).
            str_eq r.asset_code asset_code && str_eq r.asset_issuer asset_issuer)
          s.token_snapshots)) [ none ↦ none | some r ↦ some r.num_accounts ]

  unfoldable pub insert_token_snapshot : TokenSnapshot D → Store D → Store D
  insert_token_snapshot row s = record s { token_snapshots = s.token_snapshots ++ (row ∷ []) }

  -- `ON CONFLICT (op_id, time)`
  unfoldable pub same_whale : WhaleTransaction D → WhaleTransaction D → Bool
  same_whale row r = str_eq r.op_id row.op_id && r.time == row.time

  -- Whether the row is new, and the tables after.
  unfoldable pub insert_whale_transaction : WhaleTransaction D → Store D → Bool × Store D
  unfolding same_whale
  insert_whale_transaction row s =
      if any (same_whale row) s.whale_transactions
      then (false, s)
      else (true, record s { whale_transactions = s.whale_transactions ++ (row ∷ []) })

  unfoldable pub insert_asset_price : ℕ → PriceRow D → Store D → Store D
  insert_asset_price time row s = record s { asset_prices = s.asset_prices ++ ((time, row) ∷ []) }

  unfoldable pub get_ingest_cursor : String → Store D → Option String
  unfolding lookup
  get_ingest_cursor key s = lookup key s.ingest_state

  unfoldable pub set_ingest_cursor : String → String → Store D → Store D
  unfolding insert
  set_ingest_cursor key value s = record s { ingest_state = insert key value s.ingest_state }
