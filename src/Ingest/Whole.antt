-- ===== src/Ingest/Whole.antt =====
-- The snapshots of one cycle, `run_once` of src/bin/ingest.rs: all of them are stored, or none.
use lumina_analytics.Prelude.{
  String, ◌≡◌, ap, sym, ◌⊎◌, inl, inr, false, Option, List, [], ◌∷◌, Holds, All, arith, Bool-cases,
}
use mathlib.Core.Path.{subst}
use lumina_analytics.Prelude.Outcome.{Outcome, ok, err, panic}
use lumina_analytics.Decimal.{DecimalOps}
use lumina_analytics.Models.{AlertRuleRow}
use lumina_analytics.Horizon.{LiquidityPool, AssetRecord}
use lumina_analytics.Db.{
  Store, PoolRow, PoolSnapshot, TokenSnapshot, upsert_pool, insert_pool_snapshot, upsert_token,
  insert_token_snapshot,
}
use lumina_analytics.Db.Transaction.{Session, and_then-eq-ok}
use lumina_analytics.Ingest.{PendingAlert, ingest_pool, ingest_token}
use lumina_analytics.Ingest.Cycle.{World, or_skip, ingest_each_pool, ingest_each_token}
use lumina_analytics.Ingest.Payments.{Holds-append_left}
use lumina_analytics.Ingest.Steps.{Extends, SameSnapshots, Onward, Steps, Kept, Onward-Kept}
use lumina_analytics.Ingest.Loops.{ingest_each_pool-Steps, ingest_each_token-Steps}
use lumina_analytics.Ingest.Refused.{
  ReadablePool, PoolStored, TokenStored, ingest_pool-Stored, ingest_pool-refused,
  ingest_token-Stored, ingest_token-refused,
}

-- What has the same snapshots has no fewer.
pub SameSnapshots-Extends : {D : Type 0} (s s' : Store D) → SameSnapshots s s' → Extends s s'
SameSnapshots-Extends s s' (pools, tokens) =
    (λ row m. subst (Holds row) (sym pools) m, λ row m. subst (Holds row) (sym tokens) m)

or_skip-eq-ok :
    {D : Type 0} ⦃d : DecimalOps D⦄ (alerts : List (PendingAlert D))
    (r : Outcome (Option (PendingAlert D)) × Session D) {alerts' : List (PendingAlert D)}
    {s : Session D}
    → or_skip alerts r ≡ (ok alerts', s)
    → ((alert : Option (PendingAlert D)) × (r ≡ (ok alert, s))) ⊎ (r ≡ (err, s))
or_skip-eq-ok alerts (ok alert, mid) h = inl (alert, ap (λ r. (ok alert, r.1)) h)
or_skip-eq-ok alerts (err, mid) h = inr (ap (λ r. (err, r.1)) h)
or_skip-eq-ok alerts (panic, mid) h = cc

module _ {D : Type 0} where
  Extends-refl : (s : Store D) → Extends s s
  Extends-refl s = (λ row m. m, λ row m. m)

  pub Extends-trans : (a b c : Store D) → Extends a b → Extends b c → Extends a c
  Extends-trans a b c (f, g) (f', g') = (λ row m. f' row (f row m), λ row m. g' row (g row m))

  upsert_pool-Extends : (row : PoolRow) (s : Store D) → Extends s (upsert_pool row s)
  unfolding upsert_pool
  upsert_pool-Extends row s =
      SameSnapshots-Extends s (upsert_pool row s) (ground arith, ground arith)

  insert_pool_snapshot-Extends :
      (row : PoolSnapshot D) (s : Store D) → Extends s (insert_pool_snapshot row s)
  unfolding insert_pool_snapshot
  insert_pool_snapshot-Extends row s =
      (λ r m. Holds-append_left r s.pool_snapshots (row ∷ []) m, λ r m. m)

  upsert_token-Extends :
      (asset_code asset_issuer : String) (s : Store D)
      → Extends s (upsert_token asset_code asset_issuer s)
  unfolding upsert_token
  upsert_token-Extends asset_code asset_issuer s =
      SameSnapshots-Extends s (upsert_token asset_code asset_issuer s) (ground arith, ground arith)

  insert_token_snapshot-Extends :
      (row : TokenSnapshot D) (s : Store D) → Extends s (insert_token_snapshot row s)
  unfolding insert_token_snapshot
  insert_token_snapshot-Extends row s =
      (λ r m. m, λ r m. Holds-append_left r s.token_snapshots (row ∷ []) m)

  -- What a later step leaves of a transaction that is still open at its end.
  pub was_open : (s s' : Session D) → Onward Extends s s' → s'.failed ≡ false → s.failed ≡ false
  was_open s s' (still, kept) h = elim (Bool-cases s.failed) [
    | inl f ↦ let g = still f in cc
    | inr f ↦ f
  ]

module _ {D : Type 0} ⦃d : DecimalOps D⦄ (w : World D) (dt : D)
    (rules : List (AlertRuleRow D)) where
  extends : Kept w.accepts Extends (Onward Extends)
  extends = Onward-Kept w.accepts Extends Extends-refl Extends-trans

  pub pools-Extends :
      (pools : List LiquidityPool) (alerts : List (PendingAlert D))
      → Steps (Onward Extends) (ingest_each_pool w dt rules pools alerts)
  pools-Extends =
      ingest_each_pool-Steps w extends rules upsert_pool-Extends insert_pool_snapshot-Extends dt

  pub tokens-Extends :
      (assets : List AssetRecord) (alerts : List (PendingAlert D))
      → Steps (Onward Extends) (ingest_each_token w dt rules assets alerts)
  tokens-Extends =
      ingest_each_token-Steps w extends rules upsert_token-Extends insert_token_snapshot-Extends dt

  pool_step :
      (lp : LiquidityPool) (alerts : List (PendingAlert D)) (s mid : Session D)
      {alerts' : List (PendingAlert D)}
      → or_skip alerts (ingest_pool w.accepts w.now lp dt rules s) ≡ (ok alerts', mid)
      → mid.failed ≡ false
      → ReadablePool d.from_str lp
      → PoolStored w.accepts w.now lp mid.store
  pool_step lp alerts s mid h open_ readable =
      elim (or_skip-eq-ok alerts (ingest_pool w.accepts w.now lp dt rules s) h) [
        | inl (alert, x) ↦ ingest_pool-Stored w.accepts w.now lp dt rules s mid x
        | inr x ↦ let f = ingest_pool-refused w.accepts w.now lp dt rules s mid readable x in cc
      ]

  token_step :
      (a : AssetRecord) (alerts : List (PendingAlert D)) (s mid : Session D)
      {alerts' : List (PendingAlert D)}
      → or_skip alerts (ingest_token w.accepts w.now a dt rules s) ≡ (ok alerts', mid)
      → mid.failed ≡ false
      → TokenStored w.accepts w.now a mid.store
  token_step a alerts s mid h open_ =
      elim (or_skip-eq-ok alerts (ingest_token w.accepts w.now a dt rules s) h) [
        | inl (alert, x) ↦ ingest_token-Stored w.accepts w.now a dt rules s mid x
        | inr x ↦ let f = ingest_token-refused w.accepts w.now a dt rules s mid x in cc
      ]

  pub pools-Stored :
      (pools : List LiquidityPool) (alerts : List (PendingAlert D)) (s s' : Session D)
      {alerts' : List (PendingAlert D)}
      → ingest_each_pool w dt rules pools alerts s ≡ (ok alerts', s')
      → s'.failed ≡ false
      → All (λ lp. ReadablePool d.from_str lp → PoolStored w.accepts w.now lp s'.store) pools
  unfolding ingest_each_pool
  pools-Stored [] alerts s s' h open_ = tt
  pools-Stored (lp ∷ pools) alerts s s' h open_ =
      let (alerts1, mid, x, h1) =
        and_then-eq-ok (or_skip alerts (ingest_pool w.accepts w.now lp dt rules s)) _ h in
      let later : Onward Extends mid s' =
        subst (λ r. Onward Extends mid r.1) h1 (pools-Extends pools alerts1 mid) in
      (
        λ readable.
            let (row, id, time, shares, accepted, held) =
              pool_step lp alerts s mid x (was_open mid s' later open_) readable in
            (row, id, time, shares, accepted, later.1.0 row held),
        pools-Stored pools alerts1 mid s' h1 open_,
      )

  pub tokens-Stored :
      (assets : List AssetRecord) (alerts : List (PendingAlert D)) (s s' : Session D)
      {alerts' : List (PendingAlert D)}
      → ingest_each_token w dt rules assets alerts s ≡ (ok alerts', s')
      → s'.failed ≡ false
      → All (λ a. TokenStored w.accepts w.now a s'.store) assets
  unfolding ingest_each_token
  tokens-Stored [] alerts s s' h open_ = tt
  tokens-Stored (a ∷ assets) alerts s s' h open_ =
      let (alerts1, mid, x, h1) =
        and_then-eq-ok (or_skip alerts (ingest_token w.accepts w.now a dt rules s)) _ h in
      let later : Onward Extends mid s' =
        subst (λ r. Onward Extends mid r.1) h1 (tokens-Extends assets alerts1 mid) in
      let (accepted, held) = token_step a alerts s mid x (was_open mid s' later open_) in
      ((accepted, later.1.1 _ held), tokens-Stored assets alerts1 mid s' h1 open_)
