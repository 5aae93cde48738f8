-- ===== src/Db/Tvl.antt =====
-- `tvl_series` of src/db/pools.rs: the XLM that the pools lock, hour by hour. A sum or a product that a
-- `Decimal` cannot hold makes the query fail.
pub mod Repeats
use lumina_analytics.Prelude.{
  ℕ, ◌+◌, ◌*◌, ◌/◌, String, Bool, true, false, not, ◌&&◌, ◌||◌, Option, none, some, List, [], ◌∷◌,
  filter, length, map, str_eq, ltb, leb, ◌==◌, if◌then◌else◌,
}
use lumina_analytics.Prelude.Outcome.{Outcome, ok, err, panic, ◌>>=◌, parsed}
use lumina_analytics.Prelude.Sort.{sort_by}
use lumina_analytics.Decimal.{DecimalOps, dec_zero}
use lumina_analytics.Decimal.Checked.{◌>>=◌ as and_then}
use lumina_analytics.Models.{TvlPointRaw, TvlPoint, point_from}
use lumina_analytics.Pricing.Hops.{PriceRow}
use lumina_analytics.Db.{PoolRow, PoolSnapshot, Store}
use lumina_analytics.Db.Pools.{first_by, newest_first, option_map}

-- A row of the inner query.
pub record TvlRow (D : Type 0) : Type 0 where
  pub time : ℕ
  pub pool_id : String
  pub native_amount : D
  pub price_usd : Option D

-- `time_bucket('1 hour', time)`, in microseconds
abbrev pub hour : ℕ
hour = 3_600_000_000

unfoldable pub bucket_of : ℕ → ℕ
bucket_of time = time / hour * hour

-- `COUNT(DISTINCT pool_id)`
abbrev pub occurs : {D : Type 0} → String → List (TvlRow D) → Bool
occurs pool_id [] = false
occurs pool_id (r ∷ rows) = str_eq r.pool_id pool_id || occurs pool_id rows

unfoldable pub count_distinct : {D : Type 0} → List (TvlRow D) → ℕ
count_distinct [] = 0
count_distinct (r ∷ rows) = (if occurs r.pool_id rows then 0 else 1) + count_distinct rows

-- The groups of `GROUP BY bucket`
abbrev pub insert_bucket : ℕ → List ℕ → List ℕ
insert_bucket b [] = b ∷ []
insert_bucket b (c ∷ cs) =
    if ltb b c then b ∷ c ∷ cs else if b == c then c ∷ cs else c ∷ insert_bucket b cs

unfoldable pub buckets : {D : Type 0} → List (TvlRow D) → List ℕ
unfolding bucket_of
buckets [] = []
buckets (r ∷ rows) = insert_bucket (bucket_of r.time) (buckets rows)

abbrev pub in_bucket : {D : Type 0} → ℕ → List (TvlRow D) → List (TvlRow D)
in_bucket {D} b rows = filter (λ (r : TvlRow D). bucket_of r.time == b) rows

unfoldable pub find_pool : String → List PoolRow → Option PoolRow
find_pool pool_id [] = none
find_pool pool_id (p ∷ pools) = if str_eq p.pool_id pool_id then some p else find_pool pool_id pools

module _ {D : Type 0} ⦃d : DecimalOps D⦄ where
  unfoldable pub xlm_price : ℕ → Store D → Option D
  unfolding sort_by
  xlm_price time s =
      option_map (λ (r : ℕ × PriceRow D). r.1.price_usd)
        (first_by (newest_first (λ (r : ℕ × PriceRow D). r.0)) (
          filter
            (λ (r : ℕ × PriceRow D).
              str_eq r.1.asset.0 "XLM" && str_eq r.1.asset.1 "" && leb r.0 time)
            s.asset_prices))

  unfoldable pub native_amount : PoolRow → PoolSnapshot D → Option D
  native_amount p r =
      d.add (if str_eq p.asset_a "native" then r.reserve_a else dec_zero)
        (if str_eq p.asset_b "native" then r.reserve_b else dec_zero)

  -- The inner query. A snapshot whose pool is not there is left out by the join.
  unfoldable pub tvl_rows : ℕ → Store D → List (PoolSnapshot D) → Outcome (List (TvlRow D))
  unfolding find_pool native_amount xlm_price
  tvl_rows since s [] = ok []
  tvl_rows since s (r ∷ snapshots) =
      let rest = tvl_rows since s snapshots in
      if not (leb since r.time) then rest else elim (find_pool r.pool_id s.pools) [
        | none ↦ rest
        | some p ↦ do
          amount ← parsed (native_amount p r)
          rows ← rest
          ok (
              record {
                time = r.time;
                pool_id = r.pool_id;
                native_amount = amount;
                price_usd = xlm_price r.time s;
              }
              ∷ rows)
      ]

  unfoldable pub sum_native : List (TvlRow D) → Option D
  sum_native [] = some dec_zero
  sum_native (r ∷ rows) = and_then (sum_native rows) (d.add r.native_amount)

  abbrev pub or_zero : Option D → D
  or_zero none = dec_zero
  or_zero (some p) = p

  unfoldable pub sum_usd : List (TvlRow D) → Option D
  sum_usd [] = some dec_zero
  sum_usd (r ∷ rows) =
      and_then (d.mul r.native_amount (or_zero r.price_usd))
        λ usd. and_then (sum_usd rows) (d.add usd)

  -- `BOOL_OR(price_usd IS NOT NULL)`
  unfoldable pub has_price : List (TvlRow D) → Bool
  has_price [] = false
  has_price (r ∷ rows) = elim r.price_usd [ none ↦ has_price rows | some p ↦ true ]

  unfoldable pub tvl_point : ℕ → List (TvlRow D) → Outcome (TvlPointRaw D)
  unfolding count_distinct sum_native sum_usd has_price
  tvl_point b group = do
    native ← parsed (sum_native group)
    usd ← parsed (sum_usd group)
    ok (record {
      bucket = b;
      pool_count = count_distinct group;
      total_reserve_native = native;
      total_reserve_usd_raw = usd;
      has_price = has_price group;
    })

  unfoldable pub tvl_points : List ℕ → List (TvlRow D) → Outcome (List (TvlPoint D))
  unfolding tvl_point point_from bucket_of
  tvl_points [] rows = ok []
  tvl_points (b ∷ bs) rows = do
    point ← tvl_point b (in_bucket b rows)
    points ← tvl_points bs rows
    ok (point_from point ∷ points)

  unfoldable pub tvl_series : ℕ → Store D → Outcome (List (TvlPoint D))
  unfolding tvl_rows buckets tvl_points
  tvl_series since s = tvl_rows since s s.pool_snapshots >>= λ rows. tvl_points (buckets rows) rows
