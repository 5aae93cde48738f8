-- ===== src/Pricing/Hops/Derived.antt =====
-- Every price that `ingest_prices` stores comes from XLM through pools, in four hops at most.
use lumina_analytics.Prelude.{
  ℕ, zero, suc, ◌+◌, ◌≤◌, String, ◌≡◌, refl, ap, ◌∙◌, inl, inr, Bool, Option, none, some, List, [],
  ◌∷◌, ◌++◌, arith, ◌==◌, if◌then◌else◌, Bool-cases, Option-cases, All, Holds, All-append,
}
use mathlib.Core.Path.{subst}
use mathlib.Core.Option.{some-injective}
use lumina_analytics.Prelude.{All-map, All-sub, All-of_at, List-cases}
use lumina_analytics.Prelude.Assoc.{pair_eq, string_eq, lookup, insert, All-insert}
use lumina_analytics.Prelude.Outcome.{Outcome, ok, ◌>>=◌, require, >>=-eq-ok}
use lumina_analytics.Decimal.{DecimalOps, dec_lt}
use lumina_analytics.Horizon.{LiquidityPool}
use lumina_analytics.Pricing.{AssetId, native, Priced, price_from_known_leg}
use lumina_analytics.Pricing.Hops.{
  max_price_hops, Reserves, PriceRow, Prices, Newly, offer, offer_new, scan_known, scan_pools,
  store_newly, hops, reserves_of, ingest_prices,
}

module _ {D : Type 0} ⦃d : DecimalOps D⦄ (xlm_usd : D) (reserves : List (Reserves D)) where
  -- A price that is the one of XLM, or comes by one pool from a derived price of its other leg.
  pub data Derived : ℕ → AssetId → D → Type 0 where
    base : Derived zero native xlm_usd
    step :
        {n : ℕ} (known : AssetId) (known_price : D) (r : Reserves D) (asset : AssetId)
        (price weight : D)
        → Derived n known known_price
        → Holds r reserves
        → price_from_known_leg r.asset_a r.reserve_a r.asset_b r.reserve_b known known_price
          ≡ some (some (asset, price, weight))
        → Derived (suc n) asset price

  -- Derived in at most `k` hops.
  abbrev pub Within : ℕ → AssetId → D → Type 0
  Within k asset price = (n : ℕ) × (n ≤ k) × Derived n asset price

  abbrev KnownWithin : ℕ → Prices D → Type 0
  KnownWithin k priced = All (λ (x : AssetId × D). Within k x.0 x.1) priced

  abbrev NewlyWithin : ℕ → Newly D → Type 0
  NewlyWithin k newly = All (λ (x : AssetId × (D × D)). Within k x.0 x.1.1) newly

  abbrev RowsWithin : ℕ → List (PriceRow D) → Type 0
  RowsWithin k rows = All (λ (row : PriceRow D). Within k row.asset row.price_usd) rows

  offer-Within :
      (k : ℕ) (asset : AssetId) (price weight : D) (newly : Newly D)
      → Within k asset price
      → NewlyWithin k newly
      → NewlyWithin k (offer (asset, price, weight) newly)
  unfolding offer
  offer-Within k asset price weight newly w h =
      let added : NewlyWithin k (insert asset (weight, price) newly) =
        All-insert _ asset (weight, price) newly w h in
      elim (Option-cases (lookup asset newly)) [
        | inl e ↦ rw (e, offer) added
        | inr ((bw, bp), e) ↦ elim (Bool-cases (dec_lt bw weight)) [
          | inl t ↦ rw (e, offer) (rw t added)
          | inr t ↦ rw (e, offer) (rw t h)
        ]
      ]

  offer_new-Within :
      (k : ℕ) (priced : Prices D) (found : Option (Priced D)) (newly : Newly D)
      → ((asset : AssetId) (price weight : D)
          → found ≡ some (asset, price, weight)
          → Within k asset price)
      → NewlyWithin k newly
      → NewlyWithin k (offer_new priced found newly)
  offer_new-Within k priced none newly w h = h
  offer_new-Within k priced (some (asset, price, weight)) newly w h =
      elim (Option-cases (lookup asset priced)) [
        | inl e ↦
            rw (e, offer_new)
              (offer-Within k asset price weight newly (w asset price weight refl) h)
        | inr (p, e) ↦ rw (e, offer_new) h
      ]

  scan_known-Within :
      (k : ℕ) (r : Reserves D) (priced known : Prices D) (newly newly' : Newly D)
      → Holds r reserves
      → KnownWithin k known
      → NewlyWithin (suc k) newly
      → scan_known r priced known newly ≡ some newly'
      → NewlyWithin (suc k) newly'
  unfolding scan_known
  scan_known-Within k r priced [] newly newly' m hk hn e =
      subst (NewlyWithin (suc k)) (some-injective _ _ e) hn
  scan_known-Within k r priced ((known, kp) ∷ rest) newly newly' m hk hn e =
      elim (Option-cases
        (price_from_known_leg r.asset_a r.reserve_a r.asset_b r.reserve_b known kp)) [
          | inl q ↦ ground arith
          | inr (found, q) ↦
              let e' : scan_known r priced rest (offer_new priced found newly) ≡ some newly' =
                ground arith in
              let (n, below, source) = hk.0 in
              scan_known-Within k r priced rest (offer_new priced found newly) newly' m hk.1
                (offer_new-Within (suc k) priced found newly
                  (λ asset price weight f. (
                    suc n,
                    omega arith,
                    step known kp r asset price weight source m (q ∙ ap some f),
                  ))
                  hn)
                e'
        ]

  scan_pools-Within :
      (k : ℕ) (some_reserves : List (Reserves D)) (priced known : Prices D) (newly newly' : Newly D)
      → All (λ r. Holds r reserves) some_reserves
      → KnownWithin k known
      → NewlyWithin (suc k) newly
      → scan_pools some_reserves priced known newly ≡ some newly'
      → NewlyWithin (suc k) newly'
  unfolding scan_pools
  scan_pools-Within k [] priced known newly newly' m hk hn e =
      subst (NewlyWithin (suc k)) (some-injective _ _ e) hn
  scan_pools-Within k (r ∷ rs) priced known newly newly' m hk hn e =
      elim (Option-cases (scan_known r priced known newly)) [
        | inl q ↦ ground arith
        | inr (mid, q) ↦
            let e' : scan_pools rs priced known mid ≡ some newly' = ground arith in
            scan_pools-Within k rs priced known mid newly' m.1 hk
              (scan_known-Within k r priced known newly mid m.0 hk hn q) e'
      ]

  store_newly-Within :
      (k : ℕ) (stores : PriceRow D → Bool) (source : String) (newly : Newly D)
      (rows rows' : List (PriceRow D)) (priced priced' : Prices D)
      → NewlyWithin k newly
      → RowsWithin k rows
      → KnownWithin k priced
      → store_newly stores source newly rows priced ≡ ok (rows', priced')
      → RowsWithin k rows' × KnownWithin k priced'
  unfolding store_newly
  store_newly-Within k stores source [] rows rows' priced priced' hn hr hk e =
      (subst (RowsWithin k) (cc) hr, subst (KnownWithin k) (cc) hk)
  store_newly-Within k stores source ((asset, (weight, price)) ∷ newly) rows rows' priced priced' hn
        hr hk e =
      let row : PriceRow D = record { asset = asset; price_usd = price; price_source = source } in
      elim (Bool-cases (stores row)) [
        | inl t ↦
            let e' : store_newly stores source newly (rows ++ row ∷ []) (insert asset price priced)
                ≡ ok (rows', priced') =
              ground arith in
            store_newly-Within k stores source newly (rows ++ row ∷ []) rows'
              (insert asset price priced) priced' hn.1 (All-append _ rows (row ∷ []) hr (hn.0, tt))
              (All-insert _ asset price priced hn.0 hk) e'
        | inr t ↦ ground arith
      ]

  Within-weaken :
      (k k' : ℕ) (asset : AssetId) (price : D)
      → k ≤ k'
      → Within k asset price
      → Within k' asset price
  Within-weaken k k' asset price h (n, below, source) = (n, omega arith, source)

  module _ (stores : PriceRow D → Bool)
      (iter : (V : Type 0) → List (AssetId × V) → List (AssetId × V))
      (iter_holds : (V : Type 0) (m : List (AssetId × V)) (x : AssetId × V)
        → Holds x (iter V m)
        → Holds x m) where
    hops-Within :
        (left hop k : ℕ) (rows rows' : List (PriceRow D)) (priced priced' : Prices D)
        → RowsWithin k rows
        → KnownWithin k priced
        → hops stores iter reserves left hop rows priced ≡ ok (rows', priced')
        → RowsWithin (k + left) rows'
    unfolding hops
    hops-Within zero hop k rows rows' priced priced' hr hk e =
        let same : rows ≡ rows' = cc in
        subst (RowsWithin (k + 0)) same
          (All-map rows (λ row. Within-weaken k (k + 0) row.asset row.price_usd (omega arith)) hr)
    hops-Within (suc left) hop k rows rows' priced priced' hr hk e =
        elim (Option-cases (scan_pools reserves priced (iter D priced) [])) [
          | inl q ↦ ground arith
          | inr (newly, q) ↦
              let within : NewlyWithin (suc k) newly =
                scan_pools-Within k reserves priced (iter D priced) [] newly
                  (All-of_at _ reserves (λ r m. m))
                  (All-sub _ priced (iter D priced) (iter_holds D priced) hk) tt q in
              elim (List-cases newly) [
                | inl none_new ↦
                    let same : rows ≡ rows' = ground arith in
                    subst (RowsWithin (k + suc left)) same (
                      All-map rows
                        (λ row.
                          Within-weaken k (k + suc left) row.asset row.price_usd (omega arith))
                        hr)
                | inr (n, ns, some_new) ↦
                    let up : k ≤ suc k = omega arith in
                    let regroup : suc k + left ≡ k + suc left = omega arith in
                    let source = if hop == 0 then "xlm_pool_ratio" else "multi_hop_pool_ratio" in
                    let e' : (store_newly stores source (iter (D × D) (n ∷ ns)) rows priced
                          >>= λ stored. hops stores iter reserves left (hop + 1) stored.0 stored.1)
                        ≡ ok (rows', priced') =
                      rw (q, some_new) at e in
                    let ((mid_rows, mid_priced), s, e'') =
                      >>=-eq-ok (store_newly stores source (iter (D × D) (n ∷ ns)) rows priced) _
                        e' in
                    let within' : NewlyWithin (suc k) (n ∷ ns) = rw some_new at within in
                    let (hr', hk') =
                      store_newly-Within (suc k) stores source (iter (D × D) (n ∷ ns)) rows mid_rows
                        priced mid_priced
                        (All-sub _ (n ∷ ns) (iter (D × D) (n ∷ ns)) (iter_holds (D × D) (n ∷ ns))
                          within')
                        (All-map rows (λ row. Within-weaken k (suc k) row.asset row.price_usd up)
                          hr)
                        (All-map priced (λ x. Within-weaken k (suc k) x.0 x.1 up) hk) s in
                    rw regroup at (
                      hops-Within left (hop + 1) (suc k) mid_rows rows' mid_priced priced' hr' hk'
                        e'')
              ]
        ]

-- Whatever the order in which maps are read, and whichever statements the database accepts: if
-- `ingest_prices` returns, every row that it stores holds the fetched price of XLM, or a price that
-- at most four steps derive from it, each step by `price_from_known_leg` on one of the pools and an
-- asset that is derived already.
pub ingest_prices-Derived :
    {D : Type 0} ⦃d : DecimalOps D⦄ (stores : PriceRow D → Bool)
    (iter : (V : Type 0) → List (AssetId × V) → List (AssetId × V)) (fetched : Outcome D)
    (pools : List LiquidityPool) {rows : List (PriceRow D)} {priced : Prices D}
    → ((V : Type 0) (m : List (AssetId × V)) (x : AssetId × V) → Holds x (iter V m) → Holds x m)
    → ingest_prices stores iter fetched pools ≡ ok (rows, priced)
    → (xlm_usd : D) × (fetched ≡ ok xlm_usd)
      × All (λ row. Within xlm_usd (reserves_of pools) max_price_hops row.asset row.price_usd) rows
unfolding ingest_prices
ingest_prices-Derived {D} stores iter fetched pools {rows} {priced} iter_holds e =
    let (xlm_usd, f, e') = >>=-eq-ok fetched _ e in
    let row : PriceRow D = record {
      asset = native;
      price_usd = xlm_usd;
      price_source = "coingecko";
    } in
    let (u, stored, e'') = >>=-eq-ok (require (stores row)) _ e' in
    let start : Within xlm_usd (reserves_of pools) 0 native xlm_usd =
      (0, omega arith, Derived.base) in
    (
      xlm_usd,
      f,
      hops-Within xlm_usd (reserves_of pools) stores iter iter_holds max_price_hops 0 0 (row ∷ [])
          rows (insert native xlm_usd []) priced (start, tt)
          (All-insert _ native xlm_usd [] start tt) e'',
    )
