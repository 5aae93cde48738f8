-- ===== src/Db/Tvl/Repeats.antt =====
-- What `tvl_series` of src/db/pools.rs makes of several snapshots of one pool in one hour.
use lumina_analytics.Prelude.{
  ℕ, String, ◌≡◌, refl, sym, ap, ◌∙◌, true, Option, some, List, [], ◌∷◌, All, All-map, filter_keeps,
  arith, inl, inr, Option-cases, eq_iff, leb, ◌==◌, ==_iff,
}
use mathlib.Core.Path.{subst}
use lumina_analytics.Prelude.Outcome.{ok, ◌>>=◌, parsed, >>=-eq-ok, ok-injective, parsed-is_some}
use lumina_analytics.Decimal.{DecimalOps, dec_zero}
use lumina_analytics.Decimal.Checked.{◌>>=◌ as and_then}
use lumina_analytics.Models.{TvlPointRaw, TvlPoint, point_from}
use lumina_analytics.Db.{PoolRow, PoolSnapshot, Store}
use lumina_analytics.Db.Tvl.{
  TvlRow, bucket_of, count_distinct, buckets, find_pool, native_amount, xlm_price, tvl_rows,
  sum_native, sum_usd, in_bucket, tvl_point, tvl_points, tvl_series,
}

-- A snapshot of a pool from within an hour, which the query looks at.
abbrev pub IsFrom : {D : Type 0} → String → ℕ → ℕ → PoolSnapshot D → Type 0
IsFrom pool_id since b r =
    (r.pool_id ≡ pool_id) × (bucket_of r.time ≡ b) × (leb since r.time ≡ true)

abbrev RowFrom : {D : Type 0} → String → ℕ → TvlRow D → Type 0
RowFrom pool_id b r = (r.pool_id ≡ pool_id) × (bucket_of r.time ≡ b)

module _ {D : Type 0} (pool_id : String) (b : ℕ) where
  buckets_one :
      (r : TvlRow D) (rows : List (TvlRow D))
      → All (RowFrom pool_id b) (r ∷ rows)
      → buckets (r ∷ rows) ≡ b ∷ []
  unfolding buckets
  buckets_one r [] (here, h) = rw here.1 refl
  buckets_one r (q ∷ rows) (here, h) = rw (here.1, buckets_one q rows h) (ground arith)

  in_bucket_whole :
      (rows : List (TvlRow D)) → All (RowFrom pool_id b) rows → in_bucket b rows ≡ rows
  in_bucket_whole rows h =
      filter_keeps (λ (r : TvlRow D). bucket_of r.time == b) rows
        (All-map rows (λ r from. (==_iff (bucket_of r.time) b).1 from.1) h)

  count_one :
      (r : TvlRow D) (rows : List (TvlRow D))
      → All (RowFrom pool_id b) (r ∷ rows)
      → count_distinct (r ∷ rows) ≡ 1
  unfolding count_distinct
  count_one r [] h = refl
  count_one r (q ∷ rows) (here, h) =
      ground (arith, count_one q rows h, eq_iff q.pool_id r.pool_id, here.0, h.0.0)

module _ {D : Type 0} ⦃d : DecimalOps D⦄ where
  -- The XLM of a pool, added up over snapshots.
  pub sum_over : PoolRow → List (PoolSnapshot D) → Option D
  sum_over p [] = some dec_zero
  sum_over p (r ∷ snapshots) =
      and_then (sum_over p snapshots)
        λ total. and_then (native_amount p r) λ amount. d.add amount total

  row_of : Store D → PoolSnapshot D → D → TvlRow D
  row_of s r amount = record {
    time = r.time;
    pool_id = r.pool_id;
    native_amount = amount;
    price_usd = xlm_price r.time s;
  }

  module _ (s : Store D) (p : PoolRow) (pool_id : String) (since b : ℕ)
      (there : find_pool pool_id s.pools ≡ some p) where
    tvl_rows_step :
        (r : PoolSnapshot D) (snapshots : List (PoolSnapshot D)) {rows : List (TvlRow D)}
        → IsFrom pool_id since b r
        → tvl_rows since s (r ∷ snapshots) ≡ ok rows
        → (amount : D) × (rest : List (TvlRow D)) × (native_amount p r ≡ some amount)
          × (tvl_rows since s snapshots ≡ ok rest)
          × (row_of s r amount ∷ rest ≡ rows)
    unfolding tvl_rows row_of
    tvl_rows_step r snapshots {rows} (own, bucket, late) h =
        let found : find_pool r.pool_id s.pools ≡ some p = rw own there in
        let (amount, computed, h') =
          >>=-eq-ok (parsed (native_amount p r))
            (λ amount. tvl_rows since s snapshots >>= λ rest. ok (row_of s r amount ∷ rest))
            (rw (late, found, tvl_rows) at h) in
        let (rest, e, same) =
          >>=-eq-ok (tvl_rows since s snapshots) (λ rest. ok (row_of s r amount ∷ rest)) h' in
        (amount, rest, parsed-is_some (native_amount p r) computed, e, ok-injective same)

    tvl_rows-RowFrom :
        (snapshots : List (PoolSnapshot D)) {rows : List (TvlRow D)}
        → All (IsFrom pool_id since b) snapshots
        → tvl_rows since s snapshots ≡ ok rows
        → All (RowFrom pool_id b) rows × (sum_native rows ≡ sum_over p snapshots)
    unfolding tvl_rows sum_native sum_over row_of
    tvl_rows-RowFrom [] {rows} h e = rw (← ok-injective e) (tt, refl)
    tvl_rows-RowFrom (r ∷ snapshots) {rows} (from, h) e =
        let (amount, rest, computed, e', same) = tvl_rows_step r snapshots from e in
        let (rows_from, total) = tvl_rows-RowFrom snapshots h e' in
        rw (← same, total, computed, sum_over) (((from.0, from.1), rows_from), refl)

  tvl_point-eq_ok :
      (b : ℕ) (rows : List (TvlRow D)) {raw : TvlPointRaw D}
      → tvl_point b rows ≡ ok raw
      → (raw.bucket ≡ b)
        × (raw.pool_count ≡ count_distinct rows)
        × (sum_native rows ≡ some raw.total_reserve_native)
  unfolding tvl_point
  tvl_point-eq_ok b rows {raw} e = elim (Option-cases (sum_native rows)) [
    | inl none_native ↦ absurd (ground (arith, none_native))
    | inr (native, f) ↦ elim (Option-cases (sum_usd rows)) [
      | inl none_usd ↦ absurd (ground (arith, f, none_usd))
      | inr (usd, g) ↦
          let made = rw (f, g, tvl_point) at e in
          let same = ok-injective made in
          (
            ap (λ (x : TvlPointRaw D). x.bucket) (sym same),
            ap (λ (x : TvlPointRaw D). x.pool_count) (sym same),
            f ∙ ap (λ (x : TvlPointRaw D). some x.total_reserve_native) same,
          )
    ]
  ]

  -- The point that one hour of one pool gives.
  tvl_points_one :
      (pool_id : String) (b : ℕ) (r : TvlRow D) (rows : List (TvlRow D))
      {points : List (TvlPoint D)}
      → All (RowFrom pool_id b) (r ∷ rows)
      → tvl_points (buckets (r ∷ rows)) (r ∷ rows) ≡ ok points
      → (q : TvlPoint D) × (q ∷ [] ≡ points)
        × (q.bucket ≡ b)
        × (q.pool_count ≡ 1)
        × (sum_native (r ∷ rows) ≡ some q.total_reserve_native)
  unfolding tvl_points point_from
  tvl_points_one pool_id b r rows {points} h e =
      let one : tvl_points (b ∷ []) (r ∷ rows) ≡ ok points =
        subst (λ bs. tvl_points bs (r ∷ rows) ≡ ok points) (buckets_one pool_id b r rows h) e in
      let (raw, point, more) =
        >>=-eq-ok (tvl_point b (in_bucket b (r ∷ rows))) (λ point. ok (point_from point ∷ []))
          one in
      let whole : tvl_point b (r ∷ rows) ≡ ok raw =
        subst (λ group. tvl_point b group ≡ ok raw) (in_bucket_whole pool_id b (r ∷ rows) h)
          point in
      let (bucket, count, total) = tvl_point-eq_ok b (r ∷ rows) whole in
      (point_from raw, ok-injective more, bucket, count ∙ count_one pool_id b r rows h, total)

  -- A table whose snapshots, at least one, are all of one pool and from one hour of those that are asked
  -- for: if the query succeeds, the series is a single point of that hour, which counts one pool, and
  -- whose total is the sum of what every snapshot gives as the XLM of the pool.
  pub tvl_series-repeats :
      (s : Store D) (p : PoolRow) (pool_id : String) (since b : ℕ) (r : PoolSnapshot D)
      (snapshots : List (PoolSnapshot D)) {points : List (TvlPoint D)}
      → s.pool_snapshots ≡ r ∷ snapshots
      → find_pool pool_id s.pools ≡ some p
      → All (IsFrom pool_id since b) (r ∷ snapshots)
      → tvl_series since s ≡ ok points
      → (q : TvlPoint D) × (q ∷ [] ≡ points)
        × (q.bucket ≡ b)
        × (q.pool_count ≡ 1)
        × (sum_over p (r ∷ snapshots) ≡ some q.total_reserve_native)
  unfolding tvl_series
  tvl_series-repeats s p pool_id since b r snapshots {points} listed there from e =
      let (all_rows, found, made) =
        >>=-eq-ok (tvl_rows since s s.pool_snapshots) (λ rows. tvl_points (buckets rows) rows) e in
      let found' : tvl_rows since s (r ∷ snapshots) ≡ ok all_rows =
        subst (λ list. tvl_rows since s list ≡ ok all_rows) listed found in
      let (amount, rest, computed, others, same) =
        tvl_rows_step s p pool_id since b there r snapshots from.0 found' in
      let (rows_from, total) =
        tvl_rows-RowFrom s p pool_id since b there (r ∷ snapshots) from found' in
      let first = row_of s r amount in
      let (q, only, bucket, count, sum) =
        tvl_points_one pool_id b first rest (subst (All (RowFrom pool_id b)) (sym same) rows_from)
          (subst (λ rows. tvl_points (buckets rows) rows ≡ ok points) (sym same) made) in
      (q, only, bucket, count, sym total ∙ (ap sum_native (sym same) ∙ sum))
