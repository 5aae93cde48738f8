-- ===== src/Pricing/Hops.antt =====
-- `ingest_prices` of src/bin/ingest.rs: prices found hop by hop from XLM. A `HashMap` is an
-- association list, and `iter` is the order in which one is read, which Rust leaves open.
pub mod Derived
use lumina_analytics.Prelude.{
  ℕ, zero, suc, ◌+◌, ◌-◌, ◌*◌, ◌/◌, ◌%◌, ◌^◌, ◌≤◌, ◌<◌, String, ◌≡◌, refl, sym, ap, ◌∙◌, ◌≢◌, ◌↔◌,
  ◌⊎◌, inl, inr, Bool, true, false, not, ◌&&◌, ◌||◌, Option, none, some, List, [], ◌∷◌, ◌++◌, map,
  arith, str_eq, eq_iff, eq_refl, ltb, leb, ◌==◌, if◌then◌else◌, ltb→lt, lt→ltb, leb→le, ==_iff,
  Bool-cases, Option-cases, length, get_elem?, filter, All, Holds, length-append, All-append,
}
use lumina_analytics.Prelude.Assoc.{pair_eq, string_eq, lookup, insert}
use lumina_analytics.Prelude.Outcome.{Outcome, ok, err, panic, ◌>>=◌, ◌>>◌, checked, require}
use lumina_analytics.Decimal.{DecimalOps, dec_lt}
use lumina_analytics.Horizon.{LiquidityPool, PoolReserve}
use lumina_analytics.Pricing.{AssetId, native, Priced, price_from_known_leg}

abbrev pub max_price_hops : ℕ
max_price_hops = 4

-- The two legs of a pool: asset and reserve, twice.
pub record Reserves (D : Type 0) : Type 0 where
  pub asset_a : String
  pub reserve_a : D
  pub asset_b : String
  pub reserve_b : D

-- A row of `asset_prices`, without its time.
pub record PriceRow (D : Type 0) : Type 0 where
  pub asset : AssetId
  pub price_usd : D
  pub price_source : String

abbrev pub Prices : Type 0 → Type 0
Prices D = List (AssetId × D)

-- For each asset that a hop reaches, the weight and the price of the best pool so far.
abbrev pub Newly : Type 0 → Type 0
Newly D = List (AssetId × (D × D))

module _ {D : Type 0} ⦃d : DecimalOps D⦄ where
  abbrev legs_of : List PoolReserve → Option (Reserves D)
  legs_of (a ∷ b ∷ rest) = elim (d.from_str a.amount) [
    | none ↦ none
    | some reserve_a ↦ elim (d.from_str b.amount) [
      | none ↦ none
      | some reserve_b ↦ some (record {
        asset_a = a.asset;
        reserve_a = reserve_a;
        asset_b = b.asset;
        reserve_b = reserve_b;
      })
    ]
  ]
  legs_of _ = none

  abbrev cons_some : Option (Reserves D) → List (Reserves D) → List (Reserves D)
  cons_some none rest = rest
  cons_some (some r) rest = r ∷ rest

  -- The `filter_map` over the pools.
  unfoldable pub reserves_of : List LiquidityPool → List (Reserves D)
  reserves_of [] = []
  reserves_of (lp ∷ pools) = cons_some (legs_of lp.reserves) (reserves_of pools)

  -- `entry(asset).and_modify(..).or_insert(..)`
  unfoldable pub offer : Priced D → Newly D → Newly D
  offer (asset, price, weight) newly = elim (lookup asset newly) [
    | none ↦ insert asset (weight, price) newly
    | some (best_weight, best_price) ↦
        if dec_lt best_weight weight then insert asset (weight, price) newly else newly
  ]

  abbrev pub offer_new : Prices D → Option (Priced D) → Newly D → Newly D
  offer_new priced none newly = newly
  offer_new priced (some (asset, price, weight)) newly = elim (lookup asset priced) [
    | some p ↦ newly
    | none ↦ offer (asset, price, weight) newly
  ]

  -- The inner loop, over the assets that are priced already.
  unfoldable pub scan_known : Reserves D → Prices D → Prices D → Newly D → Option (Newly D)
  unfolding offer
  scan_known r priced [] newly = some newly
  scan_known r priced ((known, known_price) ∷ rest) newly =
      elim (price_from_known_leg r.asset_a r.reserve_a r.asset_b r.reserve_b known known_price) [
        | none ↦ none
        | some found ↦ scan_known r priced rest (offer_new priced found newly)
      ]

  -- The loop over the pools, `known` being `priced` in the order of its iteration.
  unfoldable pub scan_pools : List (Reserves D) → Prices D → Prices D → Newly D → Option (Newly D)
  unfolding scan_known
  scan_pools [] priced known newly = some newly
  scan_pools (r ∷ reserves) priced known newly = elim (scan_known r priced known newly) [
    | none ↦ none
    | some newly' ↦ scan_pools reserves priced known newly'
  ]

  -- The rows and the prices after the assets of one hop are stored; `stores` tells which statements
  -- the database accepts.
  unfoldable pub store_newly :
      (PriceRow D → Bool)
      → String
      → Newly D
      → List (PriceRow D)
      → Prices D
      → Outcome (List (PriceRow D) × Prices D)
  store_newly stores source [] rows priced = ok (rows, priced)
  store_newly stores source ((asset, (weight, price)) ∷ newly) rows priced =
      let row : PriceRow D = record { asset = asset; price_usd = price; price_source = source } in
      let rest = store_newly stores source newly (rows ++ (row ∷ [])) (insert asset price priced) in
      if stores row then rest else err

  unfoldable pub hops :
      (PriceRow D → Bool)
      → ((V : Type 0) → List (AssetId × V) → List (AssetId × V))
      → List (Reserves D)
      → (left hop : ℕ) → List (PriceRow D)
      → Prices D
      → Outcome (List (PriceRow D) × Prices D)
  unfolding scan_pools store_newly
  hops stores iter reserves zero hop rows priced = ok (rows, priced)
  hops stores iter reserves (suc left) hop rows priced = do
    newly ← checked (scan_pools reserves priced (iter D priced) [])
    elim newly [
      | [] ↦ ok (rows, priced)
      | n ∷ ns ↦ do
        let source = if hop == 0 then "xlm_pool_ratio" else "multi_hop_pool_ratio"
        stored ← store_newly stores source (iter (D × D) (n ∷ ns)) rows priced
        hops stores iter reserves left (hop + 1) stored.0 stored.1
    ]

  -- `fetched` is the XLM/USD price or the failure to fetch it. The rows come in the order of the
  -- statements, with the prices known at the end.
  unfoldable pub ingest_prices :
      (PriceRow D → Bool)
      → ((V : Type 0) → List (AssetId × V) → List (AssetId × V))
      → Outcome D
      → List LiquidityPool
      → Outcome (List (PriceRow D) × Prices D)
  unfolding hops reserves_of
  ingest_prices stores iter fetched pools = do
    xlm_usd ← fetched
    let row : PriceRow D = record {
      asset = native;
      price_usd = xlm_usd;
      price_source = "coingecko";
    }
    require (stores row)
    hops stores iter (reserves_of pools) max_price_hops 0 (row ∷ []) (insert native xlm_usd [])
