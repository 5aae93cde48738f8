-- ===== src/Db/Pools.antt =====
-- src/db/pools.rs and src/db/tokens.rs: the queries of the API on snapshots of pools and tokens. Rows
-- that an order does not tell apart, and rows that no order is asked for, come in that of the table.
pub mod Groups
use lumina_analytics.Prelude.{
  ℕ, String, Bool, true, false, Option, none, some, List, [], ◌∷◌, map, filter, length, str_eq, ltb,
  leb, if◌then◌else◌,
}
use lumina_analytics.Prelude.Sort.{sort_by, page}
use lumina_analytics.Decimal.{DecimalOps}
use lumina_analytics.Models.{PoolWithLatest, PoolSnapshotRow, PoolTrendRaw}
use lumina_analytics.Db.{PoolRow, PoolSnapshot, Store}

-- The row of `ORDER BY ... LIMIT 1`, and of `DISTINCT ON` within its group.
abbrev pub head : {A : Type 0} → List A → Option A
head [] = none
head (x ∷ xs) = some x

abbrev pub first_by : {A : Type 0} → (A → A → Bool) → List A → Option A
first_by le rows = head (sort_by le rows)

-- `ORDER BY time ASC` and `ORDER BY time DESC`
abbrev pub oldest_first : {A : Type 0} → (A → ℕ) → A → A → Bool
oldest_first time a b = leb (time a) (time b)

abbrev pub newest_first : {A : Type 0} → (A → ℕ) → A → A → Bool
newest_first time a b = leb (time b) (time a)

-- `DESC NULLS LAST`, and `Reverse` of an `Option`
abbrev pub desc_nulls_last : {A : Type 0} → (A → A → Bool) → Option A → Option A → Bool
desc_nulls_last le a none = true
desc_nulls_last le none (some b) = false
desc_nulls_last le (some a) (some b) = le b a

abbrev pub option_map : {A B : Type 0} → (A → B) → Option A → Option B
option_map f none = none
option_map f (some a) = some (f a)

-- The first and the last row of a group, where the last one is later.
abbrev pub first_and_last : {A : Type 0} → (A → ℕ) → List A → Option (A × A)
first_and_last time rows = elim (first_by (oldest_first time) rows) [
  | none ↦ none
  | some e ↦ elim (first_by (newest_first time) rows) [
    | none ↦ none
    | some l ↦ if ltb (time e) (time l) then some (e, l) else none
  ]
]

abbrev pub filter_map : {A B : Type 0} → (A → Option B) → List A → List B
filter_map f [] = []
filter_map f (x ∷ xs) = let rest = filter_map f xs in elim (f x) [ none ↦ rest | some b ↦ b ∷ rest ]

module _ {D : Type 0} where
  abbrev pub snapshot_time : PoolSnapshot D → ℕ
  snapshot_time r = r.time

  abbrev pub snapshots_of : String → Store D → List (PoolSnapshot D)
  snapshots_of pool_id s =
      filter (λ (r : PoolSnapshot D). str_eq r.pool_id pool_id) s.pool_snapshots

  unfoldable pub with_latest : Store D → PoolRow → PoolWithLatest D
  with_latest s p =
      let latest = first_by (newest_first snapshot_time) (snapshots_of p.pool_id s) in
      record {
        pool_id = p.pool_id;
        asset_a = p.asset_a;
        asset_b = p.asset_b;
        fee_bp = p.fee_bp;
        time = option_map (λ (r : PoolSnapshot D). r.time) latest;
        reserve_a = option_map (λ (r : PoolSnapshot D). r.reserve_a) latest;
        reserve_b = option_map (λ (r : PoolSnapshot D). r.reserve_b) latest;
        total_shares = option_map (λ (r : PoolSnapshot D). r.total_shares) latest;
        trustline_count = option_map (λ (r : PoolSnapshot D). r.trustline_count) latest;
      }

  unfoldable pub count_pools : Store D → ℕ
  count_pools s = length s.pools

  -- The snapshots that the two common tables of `pool_trends` choose from.
  abbrev pub window : String → ℕ → Store D → List (PoolSnapshot D)
  window pool_id since s =
      filter (λ (r : PoolSnapshot D). leb since r.time) (snapshots_of pool_id s)

  unfoldable pub pool_history : String → ℕ → Store D → List (PoolSnapshotRow D)
  unfolding sort_by
  pool_history pool_id since s =
      map
        (λ (r : PoolSnapshot D). record {
          time = r.time;
          reserve_a = r.reserve_a;
          reserve_b = r.reserve_b;
          total_shares = r.total_shares;
          trustline_count = r.trustline_count;
        })
        (sort_by (oldest_first snapshot_time) (window pool_id since s))

  unfoldable pub trend_of : PoolRow → PoolSnapshot D × PoolSnapshot D → PoolTrendRaw D
  trend_of p (e, l) = record {
    pool_id = p.pool_id;
    asset_a = p.asset_a;
    asset_b = p.asset_b;
    fee_bp = p.fee_bp;
    first_time = e.time;
    last_time = l.time;
    shares_before = e.total_shares;
    shares_now = l.total_shares;
    reserve_a_now = l.reserve_a;
    reserve_b_now = l.reserve_b;
  }

  unfoldable pub pool_trends : ℕ → Store D → List (PoolTrendRaw D)
  unfolding trend_of sort_by
  pool_trends since s =
      filter_map
        (λ (p : PoolRow).
          option_map (trend_of p) (first_and_last snapshot_time (window p.pool_id since s)))
        s.pools

module _ {D : Type 0} ⦃d : DecimalOps D⦄ where
  unfoldable pub list_pools_with_latest : (limit offset : ℕ) → Store D → List (PoolWithLatest D)
  unfolding with_latest sort_by
  list_pools_with_latest limit offset s =
      page
        (λ (a : PoolWithLatest D) (b : PoolWithLatest D).
          desc_nulls_last d.le a.total_shares b.total_shares)
        limit offset (map (with_latest s) s.pools)
