-- ===== src/Ingest/Accepted.antt =====
-- One cycle of src/bin/ingest.rs against a database that accepts every statement.
use lumina_analytics.Prelude.{
  ℕ, zero, suc, ◌+◌, String, ◌≡◌, refl, inl, inr, Bool, true, false, not, ◌&&◌, Option, some, List,
  [], ◌∷◌, ◌++◌, arith, Option-cases, ◌==◌, if◌then◌else◌,
}
use lumina_analytics.Prelude.Outcome.{Outcome, ok, err, panic, Outcome-cases, >>=-no_err}
use lumina_analytics.Prelude.Assoc.{pair_eq, string_eq, insert}
use lumina_analytics.Decimal.{DecimalOps}
use lumina_analytics.Models.{AlertRuleRow}
use lumina_analytics.Horizon.{LiquidityPool, AssetRecord}
use lumina_analytics.Pricing.{AssetId, native}
use lumina_analytics.Pricing.Hops.{
  Reserves, PriceRow, Prices, Newly, store_newly, hops, scan_pools, ingest_prices, reserves_of,
  max_price_hops,
}
use lumina_analytics.Db.Transaction.{Statement, Session, insert_price, and_then-eq-err}
use lumina_analytics.Ingest.{PendingAlert, ingest_pool, ingest_token}
use lumina_analytics.Ingest.Cycle.{
  World, Settings, or_skip, ingest_each_pool, ingest_each_token, prices_tx, snapshots_tx,
}
use lumina_analytics.Ingest.Steps.{StaysOpen, Steps, and_then-Steps, StaysOpen-Kept}
use lumina_analytics.Ingest.Loops.{ingest_each_pool-Steps, ingest_each_token-Steps}

module _ {D : Type 0} ⦃d : DecimalOps D⦄ (stores : PriceRow D → Bool)
    (stored : (row : PriceRow D) → stores row ≡ true) where
  store_newly-no_err :
      (source : String) (newly : Newly D) (rows : List (PriceRow D)) (priced : Prices D)
      → store_newly stores source newly rows priced ≡ err
      → ⊥
  unfolding store_newly
  store_newly-no_err source [] rows priced h = cc
  store_newly-no_err source ((asset, (weight, price)) ∷ newly) rows priced h =
      let row : PriceRow D = record { asset = asset; price_usd = price; price_source = source } in
      store_newly-no_err source newly (rows ++ (row ∷ [])) (insert asset price priced)
        (rw (stored row, store_newly) at h)

  one_hop-no_err :
      (iter : (V : Type 0) → List (AssetId × V) → List (AssetId × V)) (reserves : List (Reserves D))
      (left hop : ℕ) (rows : List (PriceRow D)) (priced : Prices D) (newly : Newly D)
      → scan_pools reserves priced (iter D priced) [] ≡ some newly
      → ((next : ℕ) (rows' : List (PriceRow D)) (priced' : Prices D)
          → hops stores iter reserves left next rows' priced' ≡ err
          → ⊥)
      → hops stores iter reserves (suc left) hop rows priced ≡ err
      → ⊥
  unfolding hops
  one_hop-no_err iter reserves left hop rows priced [] e f h =
      absurd (ground (arith, rw (e, hops) at h))
  one_hop-no_err iter reserves left hop rows priced (n ∷ ns) e f h =
      let source = if hop == 0 then "xlm_pool_ratio" else "multi_hop_pool_ratio" in
      >>=-no_err (store_newly stores source (iter (D × D) (n ∷ ns)) rows priced)
        (λ (r : List (PriceRow D) × Prices D). hops stores iter reserves left (hop + 1) r.0 r.1)
        (store_newly-no_err source (iter (D × D) (n ∷ ns)) rows priced) (λ r. f (hop + 1) r.0 r.1)
        (rw (e, hops) at h)

  hops-no_err :
      (iter : (V : Type 0) → List (AssetId × V) → List (AssetId × V)) (reserves : List (Reserves D))
      (left hop : ℕ) (rows : List (PriceRow D)) (priced : Prices D)
      → hops stores iter reserves left hop rows priced ≡ err
      → ⊥
  unfolding hops
  hops-no_err iter reserves zero hop rows priced h = cc
  hops-no_err iter reserves (suc left) hop rows priced h =
      elim (Option-cases (scan_pools reserves priced (iter D priced) [])) [
        | inl e ↦ absurd (ground (arith, rw (e, hops) at h))
        | inr (newly, e) ↦
            one_hop-no_err iter reserves left hop rows priced newly e
              (hops-no_err iter reserves left) h
      ]

  ingest_prices-no_err :
      (iter : (V : Type 0) → List (AssetId × V) → List (AssetId × V)) (usd : D)
      (pools : List LiquidityPool)
      → ingest_prices stores iter (ok usd) pools ≡ err
      → ⊥
  unfolding ingest_prices
  ingest_prices-no_err iter usd pools h =
      let row : PriceRow D = record {
        asset = native;
        price_usd = usd;
        price_source = "coingecko";
      } in
      hops-no_err iter (reserves_of pools) max_price_hops 0 (row ∷ []) (insert native usd [])
        (rw (stored row, ingest_prices) at h)

or_skip-no_err :
    {D : Type 0} ⦃d : DecimalOps D⦄ (alerts : List (PendingAlert D))
    (r : Outcome (Option (PendingAlert D)) × Session D) {s' : Session D}
    → or_skip alerts r ≡ (err, s')
    → ⊥
or_skip-no_err alerts (ok alert, s) h = cc
or_skip-no_err alerts (err, s) h = cc
or_skip-no_err alerts (panic, s) h = cc

module _ {D : Type 0} ⦃d : DecimalOps D⦄ (w : World D) (rules : List (AlertRuleRow D)) where
  -- Errors of one pool, one asset or the prices do not end the transaction's body.
  pools-no_err :
      (dt : D) (pools : List LiquidityPool) (alerts : List (PendingAlert D)) (s s' : Session D)
      → ingest_each_pool w dt rules pools alerts s ≡ (err, s')
      → ⊥
  unfolding ingest_each_pool
  pools-no_err dt [] alerts s s' h = cc
  pools-no_err dt (lp ∷ pools) alerts s s' h =
      elim (and_then-eq-err (or_skip alerts (ingest_pool w.accepts w.now lp dt rules s)) _ h) [
        | inl x ↦ or_skip-no_err alerts (ingest_pool w.accepts w.now lp dt rules s) x
        | inr (alerts', mid, x, h') ↦ pools-no_err dt pools alerts' mid s' h'
      ]

  tokens-no_err :
      (dt : D) (assets : List AssetRecord) (alerts : List (PendingAlert D)) (s s' : Session D)
      → ingest_each_token w dt rules assets alerts s ≡ (err, s')
      → ⊥
  unfolding ingest_each_token
  tokens-no_err dt [] alerts s s' h = cc
  tokens-no_err dt (a ∷ assets) alerts s s' h =
      elim (and_then-eq-err (or_skip alerts (ingest_token w.accepts w.now a dt rules s)) _ h) [
        | inl x ↦ or_skip-no_err alerts (ingest_token w.accepts w.now a dt rules s) x
        | inr (alerts', mid, x, h') ↦ tokens-no_err dt assets alerts' mid s' h'
      ]

  -- Neither the failure to fetch the price of XLM, nor one to store a price.
  prices_tx-no_err :
      (enabled : Bool) (pools : List LiquidityPool) (s s' : Session D)
      → prices_tx w enabled pools s ≡ (err, s')
      → ⊥
  unfolding prices_tx
  prices_tx-no_err false pools s s' h = cc
  prices_tx-no_err true pools s s' h =
      elim (Outcome-cases (
        ingest_prices (λ row. not s.failed && w.accepts (insert_price w.now row)) w.iter w.xlm_usd
          pools)) [
            | inl (stored, e) ↦ absurd (ground (arith, rw (e, prices_tx) at h))
            | inr (inl e) ↦ elim (Outcome-cases w.xlm_usd) [
              | inl (usd, x) ↦ absurd (ground (arith, rw (e, x, prices_tx) at h))
              | inr (inl x) ↦ absurd (ground (arith, rw (e, x, prices_tx) at h))
              | inr (inr x) ↦ absurd (ground (arith, rw (e, x, prices_tx) at h))
            ]
            | inr (inr e) ↦ absurd (ground (arith, rw (e, prices_tx) at h))
          ]

  pub snapshots_tx-no_err :
      (settings : Settings D) (pools : List LiquidityPool) (assets : List AssetRecord)
      (s s' : Session D)
      → snapshots_tx w settings rules pools assets s ≡ (err, s')
      → ⊥
  unfolding snapshots_tx
  snapshots_tx-no_err settings pools assets s s' h =
      elim (and_then-eq-err
        (ingest_each_pool w settings.liquidity_drop_threshold_pct rules pools [] s) _ h) [
          | inl x ↦ pools-no_err settings.liquidity_drop_threshold_pct pools [] s s' x
          | inr (alerts, s1, x1, h1) ↦
              elim (and_then-eq-err (prices_tx w settings.price_feed_enabled pools s1) _ h1) [
                | inl x ↦ prices_tx-no_err settings.price_feed_enabled pools s1 s' x
                | inr (u, s2, x2, h2) ↦
                    tokens-no_err settings.holder_drop_threshold_pct assets alerts s2 s' h2
              ]
        ]

  module _ (accepted : (statement : Statement D) → w.accepts statement ≡ true) where
    prices_tx-StaysOpen :
        (enabled : Bool) (pools : List LiquidityPool) → Steps StaysOpen (prices_tx w enabled pools)
    unfolding prices_tx
    prices_tx-StaysOpen false pools s open_ = open_
    prices_tx-StaysOpen true pools s open_ =
        elim (Outcome-cases (
          ingest_prices (λ row. not s.failed && w.accepts (insert_price w.now row)) w.iter w.xlm_usd
            pools)) [
              | inl (stored, e) ↦ rw (e, prices_tx) open_
              | inr (inl e) ↦ elim (Outcome-cases w.xlm_usd) [
                | inl (usd, x) ↦ absurd (
                    ingest_prices-no_err (λ row. not s.failed && w.accepts (insert_price w.now row))
                      (λ row. rw (open_, accepted (insert_price w.now row)) refl) w.iter usd pools
                      (rw x at e))
                | inr (inl x) ↦ rw (e, x, prices_tx) open_
                | inr (inr x) ↦ rw (e, x, prices_tx) open_
              ]
              | inr (inr e) ↦ rw (e, prices_tx) open_
            ]

    pub snapshots_tx-StaysOpen :
        (settings : Settings D) (pools : List LiquidityPool) (assets : List AssetRecord)
        → Steps StaysOpen (snapshots_tx w settings rules pools assets)
    unfolding snapshots_tx
    snapshots_tx-StaysOpen settings pools assets s =
        let kept = StaysOpen-Kept w.accepts accepted in
        and_then-Steps kept s
          (ingest_each_pool w settings.liquidity_drop_threshold_pct rules pools [] s) _
          (ingest_each_pool-Steps w kept rules (λ row z. tt) (λ row z. tt)
            settings.liquidity_drop_threshold_pct pools [] s)
          (λ alerts s1.
            and_then-Steps kept s1 (prices_tx w settings.price_feed_enabled pools s1) _
              (prices_tx-StaysOpen settings.price_feed_enabled pools s1)
              (λ u.
                ingest_each_token-Steps w kept rules (λ code issuer z. tt) (λ row z. tt)
                  settings.holder_drop_threshold_pct assets alerts))
