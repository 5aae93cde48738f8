-- ===== src/Api/Trending/Growth.antt =====
-- What `pools_trending` of src/api/routes/pools.rs shows, computed by `trending_pools`.
use lumina_analytics.Prelude.{
  ℕ, ◌≡◌, refl, sym, ap, ◌∙◌, inl, inr, true, false, Option, none, some, List, [], ◌∷◌, All,
  All-of_at, Holds, arith, Option-cases,
}
use mathlib.Core.Path.{subst}
use mathlib.Core.Option.{some-injective}
use lumina_analytics.Prelude.Outcome.{ok, checked, >>=-eq-ok, ok-injective, checked-eq-ok}
use lumina_analytics.Prelude.Sort.{
  sort_by, IsSorted, sort_by-IsSorted, TotalPreorder, All-sort_by, sort_by-Holds,
}
use lumina_analytics.Decimal.{DecimalOps, DecimalLaws}
use lumina_analytics.Decimal.Checked.{>>=-eq-some}
use lumina_analytics.Logic.{percent_change}
use lumina_analytics.Models.{PoolTrendRaw, PoolTrend}
use lumina_analytics.Db.{PoolRow, PoolSnapshot, Store}
use lumina_analytics.Db.Pools.{
  desc_nulls_last, first_and_last, snapshot_time, window, trend_of, pool_trends,
}
use lumina_analytics.Db.Pools.Groups.{
  Spans, first_and_last-Spans, filter_map-Holds, Holds-filter_map,
}
use lumina_analytics.Api.Trending.{map_all, pool_trend, by_growth, trending_pools}

map_all-Holds :
    {A B : Type 0} (f : A → Option B) (xs : List A) {bs : List B}
    → map_all f xs ≡ some bs
    → (b : B) → Holds b bs
    → (a : A) × Holds a xs × (f a ≡ some b)
map_all-Holds f [] {bs} e b m = absurd (subst (Holds b) (sym (some-injective [] bs e)) m)
map_all-Holds f (x ∷ xs) {bs} e b m =
    let (c, here, e') = >>=-eq-some (f x) _ e in
    let (cs, later, e'') = >>=-eq-some (map_all f xs) _ e' in
    elim (subst (Holds b) (sym (some-injective _ _ e'')) m) [
      | inl own ↦ (x, inl refl, here ∙ ap some own)
      | inr more ↦ let (a, there, found) = map_all-Holds f xs later b more in (a, inr there, found)
    ]

Holds-map_all :
    {A B : Type 0} (f : A → Option B) (xs : List A) {bs : List B}
    → map_all f xs ≡ some bs
    → (a : A) → Holds a xs
    → (b : B) × Holds b bs × (f a ≡ some b)
Holds-map_all f [] {bs} e a m = absurd m
Holds-map_all f (x ∷ xs) {bs} e a m =
    let (c, here, e') = >>=-eq-some (f x) _ e in
    let (cs, later, e'') = >>=-eq-some (map_all f xs) _ e' in
    let own : c ∷ cs ≡ bs = some-injective _ _ e'' in
    elim m [
      | inl same ↦ (c, subst (Holds c) own (inl refl), subst (λ y. f y ≡ some c) same here)
      | inr more ↦
          let (b, there, found) = Holds-map_all f xs later a more in
          (b, subst (Holds b) own (inr there), found)
    ]

module _ {D : Type 0} ⦃d : DecimalOps D⦄ where
  -- The growth of a pool over a window of time, from its first to its last snapshot there.
  pub record IsTrend (s : Store D) (since : ℕ) (t : PoolTrend D) : Type 0 where
    pub pool : PoolRow
    pub first : PoolSnapshot D
    pub last : PoolSnapshot D
    pub listed : Holds pool s.pools
    pub spans : Spans snapshot_time (window pool.pool_id since s) first last
    pub of_pool :
        (t.pool_id ≡ pool.pool_id) × (t.asset_a ≡ pool.asset_a) × (t.asset_b ≡ pool.asset_b)
    pub from_first : (t.first_time ≡ first.time) × (t.shares_before ≡ first.total_shares)
    pub from_last : (t.last_time ≡ last.time) × (t.shares_now ≡ last.total_shares)
    pub change : percent_change first.total_shares last.total_shares ≡ some t.shares_change_pct

  pool_trend-IsTrend :
      (s : Store D) (since : ℕ) (p : PoolRow) (e l : PoolSnapshot D) (t : PoolTrend D)
      → Holds p s.pools
      → Spans snapshot_time (window p.pool_id since s) e l
      → pool_trend (trend_of p (e, l)) ≡ some t
      → IsTrend s since t
  unfolding pool_trend trend_of
  pool_trend-IsTrend s since p e l t there spans made =
      let (pct, change, same) = >>=-eq-some (percent_change e.total_shares l.total_shares) _ made in
      let own = some-injective _ _ same in
      subst (IsTrend s since) own (record {
        pool = p;
        first = e;
        last = l;
        listed = there;
        spans = spans;
        of_pool = (refl, refl, refl);
        from_first = (refl, refl);
        from_last = (refl, refl);
        change = change;
      })

  raw-IsTrend :
      (s : Store D) (since : ℕ) (r : PoolTrendRaw D) (t : PoolTrend D)
      → Holds r (pool_trends since s)
      → pool_trend r ≡ some t
      → IsTrend s since t
  unfolding pool_trends
  raw-IsTrend s since r t m made =
      let (p, there, found) = Holds-filter_map _ r s.pools m in
      elim (Option-cases (first_and_last snapshot_time (window p.pool_id since s))) [
        | inl missing ↦ absurd (ground (arith, missing))
        | inr ((e, l), ends) ↦
            let own : trend_of p (e, l) ≡ r = some-injective _ _ (rw ends at found) in
            pool_trend-IsTrend s since p e l t there
              (first_and_last-Spans snapshot_time (window p.pool_id since s) ends)
              (subst (λ x. pool_trend x ≡ some t) (sym own) made)
      ]

module _ {D : Type 0} ⦃d : DecimalOps D⦄ (laws : DecimalLaws D) where
  nulls_last_trans :
      (a b c : Option D)
      → desc_nulls_last d.le a b ≡ true
      → desc_nulls_last d.le b c ≡ true
      → desc_nulls_last d.le a c ≡ true
  nulls_last_trans a b none p q = refl
  nulls_last_trans a none (some z) p q = cc
  nulls_last_trans none (some y) (some z) p q = cc
  nulls_last_trans (some x) (some y) (some z) p q = laws.le_trans z y x q p

  nulls_last_total :
      (a b : Option D) → desc_nulls_last d.le a b ≡ false → desc_nulls_last d.le b a ≡ true
  nulls_last_total a none h = cc
  nulls_last_total none (some y) h = refl
  nulls_last_total (some x) (some y) h = elim (laws.le_total x y) [ inl e ↦ e | inr e ↦ cc ]

  pub nulls_last-order :
      {A : Type 0} (key : A → Option D)
      → TotalPreorder (λ (x : A) (y : A). desc_nulls_last d.le (key x) (key y))
  nulls_last-order key = record {
    trans = λ a b c p q. nulls_last_trans (key a) (key b) (key c) p q;
    total = λ a b h. nulls_last_total (key a) (key b) h;
  }

  by_growth-order : TotalPreorder (by_growth {D = D})
  by_growth-order = nulls_last-order (λ (t : PoolTrend D). t.shares_change_pct)

  trend_listed :
      (s : Store D) (since : ℕ) {trends : List (PoolTrend D)} (p : PoolRow) {e l : PoolSnapshot D}
      → map_all pool_trend (pool_trends since s) ≡ some trends
      → Holds p s.pools
      → first_and_last snapshot_time (window p.pool_id since s) ≡ some (e, l)
      → (t : PoolTrend D) × Holds t trends × (pool_trend (trend_of p (e, l)) ≡ some t)
  unfolding pool_trends
  trend_listed s since p {e} {l} made there ends =
      Holds-map_all pool_trend _ made (trend_of p (e, l))
        (filter_map-Holds _ p s.pools there (rw ends refl))

  -- Where the list of trending pools can be computed: it holds, for each pool whose first and last
  -- snapshot of the window have different times, a row with the shares of these two and their change in
  -- percent; every row of it is such a one; and the rows go from the largest growth to the smallest, those
  -- without a rate of growth, which started from nothing, last.
  pub trending_pools-IsTrend :
      (s : Store D) (since : ℕ) {trends : List (PoolTrend D)}
      → trending_pools true since s ≡ ok trends
      → All (IsTrend s since) trends
        × IsSorted by_growth trends
        × ((p : PoolRow) (e l : PoolSnapshot D)
            → Holds p s.pools
            → first_and_last snapshot_time (window p.pool_id since s) ≡ some (e, l)
            → (t : PoolTrend D) × Holds t trends × (pool_trend (trend_of p (e, l)) ≡ some t))
  unfolding trending_pools
  trending_pools-IsTrend s since {trends} h =
      let (found, made, same) =
        >>=-eq-ok (checked (map_all pool_trend (pool_trends since s))) _ h in
      let computed = checked-eq-ok (map_all pool_trend (pool_trends since s)) made in
      let own : sort_by by_growth found ≡ trends = ok-injective same in
      let rows : All (IsTrend s since) found = All-of_at (IsTrend s since) found (λ t m.
        let (r, there, e) = map_all-Holds pool_trend (pool_trends since s) computed t m in
        raw-IsTrend s since r t there e) in
      (
        subst (All (IsTrend s since)) own (All-sort_by (IsTrend s since) by_growth found rows),
        subst (IsSorted by_growth) own (sort_by-IsSorted by_growth by_growth-order found),
        λ p e l there ends.
            let (t, m, row) = trend_listed s since p computed there ends in
            (t, subst (Holds t) own (sort_by-Holds by_growth t found m), row),
      )
