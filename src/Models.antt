-- ===== src/Models.antt =====
-- Rows of the tables and of the queries, src/models. A time is a number of microseconds.
use lumina_analytics.Prelude.{ℕ, String, Bool, true, false, List, Option, none, some}
use lumina_analytics.Prelude.Int.{ℤ}

pub record AlertRuleRow (D : Type 0) : Type 0 where
  pub id : ℤ
  pub name : String
  pub rule_type : String
  pub asset_code : Option String
  pub asset_issuer : Option String
  pub threshold : D
  pub enabled : Bool
  pub created_at : ℕ

pub record AlertChannelRow : Type 0 where
  pub id : ℤ
  pub name : String
  pub kind : String
  pub url : String
  pub min_severity : String
  pub enabled : Bool
  pub created_at : ℕ

pub record WatchlistItemRow : Type 0 where
  pub id : ℤ
  pub item_type : String
  pub item_key : String
  pub label : String
  pub created_at : ℕ

-- `details` is the object of a JSON value, with the texts of its fields that are texts.
pub record AlertRow : Type 0 where
  pub id : ℤ
  pub time : ℕ
  pub kind : String
  pub severity : String
  pub message : String
  pub details : List (String × String)
  pub acknowledged_at : Option ℕ

pub record PoolWithLatest (D : Type 0) : Type 0 where
  pub pool_id : String
  pub asset_a : String
  pub asset_b : String
  pub fee_bp : ℤ
  pub time : Option ℕ
  pub reserve_a : Option D
  pub reserve_b : Option D
  pub total_shares : Option D
  pub trustline_count : Option ℤ

pub record PoolSnapshotRow (D : Type 0) : Type 0 where
  pub time : ℕ
  pub reserve_a : D
  pub reserve_b : D
  pub total_shares : D
  pub trustline_count : ℤ

pub record PoolTrendRaw (D : Type 0) : Type 0 where
  pub pool_id : String
  pub asset_a : String
  pub asset_b : String
  pub fee_bp : ℤ
  pub first_time : ℕ
  pub last_time : ℕ
  pub shares_before : D
  pub shares_now : D
  pub reserve_a_now : D
  pub reserve_b_now : D

pub record PoolTrend (D : Type 0) : Type 0 where
  pub pool_id : String
  pub asset_a : String
  pub asset_b : String
  pub fee_bp : ℤ
  pub first_time : ℕ
  pub last_time : ℕ
  pub shares_before : D
  pub shares_now : D
  pub reserve_a_now : D
  pub reserve_b_now : D
  pub shares_change_pct : Option D

pub record TokenWithLatest (D : Type 0) : Type 0 where
  pub asset_code : String
  pub asset_issuer : String
  pub time : Option ℕ
  pub amount : Option D
  pub num_accounts : Option ℤ
  pub num_claimable_balances : Option ℤ

pub record TokenSnapshotRow (D : Type 0) : Type 0 where
  pub time : ℕ
  pub amount : D
  pub num_accounts : ℤ
  pub num_claimable_balances : ℤ

pub record TokenTrendRaw (D : Type 0) : Type 0 where
  pub asset_code : String
  pub asset_issuer : String
  pub first_time : ℕ
  pub last_time : ℕ
  pub amount_before : D
  pub amount_now : D
  pub holders_before : ℤ
  pub holders_now : ℤ

pub record TokenTrend (D : Type 0) : Type 0 where
  pub asset_code : String
  pub asset_issuer : String
  pub first_time : ℕ
  pub last_time : ℕ
  pub amount_before : D
  pub amount_now : D
  pub holders_before : ℤ
  pub holders_now : ℤ
  pub holders_change_pct : Option D

-- A row of the query of `tvl_series`, and a point of the series.
pub record TvlPointRaw (D : Type 0) : Type 0 where
  pub bucket : ℕ
  pub pool_count : ℕ
  pub total_reserve_native : D
  pub total_reserve_usd_raw : D
  pub has_price : Bool

pub record TvlPoint (D : Type 0) : Type 0 where
  pub bucket : ℕ
  pub pool_count : ℕ
  pub total_reserve_native : D
  pub total_reserve_usd : Option D

abbrev then_some : {A : Type 0} → Bool → A → Option A
then_some true a = some a
then_some false a = none

-- `TvlPoint::from`
unfoldable pub point_from : {D : Type 0} → TvlPointRaw D → TvlPoint D
point_from r = record {
  bucket = r.bucket;
  pool_count = r.pool_count;
  total_reserve_native = r.total_reserve_native;
  total_reserve_usd = then_some r.has_price r.total_reserve_usd_raw;
}

pub record WhaleTransactionRow (D : Type 0) : Type 0 where
  pub time : ℕ
  pub tx_hash : String
  pub source_account : String
  pub dest_account : Option String
  pub asset_code : String
  pub asset_issuer : Option String
  pub amount : D
  pub amount_usd : Option D

pub record SearchResultRow : Type 0 where
  pub result_type : String
  pub title : String
  pub subtitle : Option String
  pub key : String

pub record LiquidationRiskBucket (D : Type 0) : Type 0 where
  pub risk_level : String
  pub position_count : ℕ
  pub total_debt : D
