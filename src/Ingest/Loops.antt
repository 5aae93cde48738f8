-- ===== src/Ingest/Loops.antt =====
-- The loops of src/bin/ingest.rs over pools, assets and payments, for a relation that each of their
-- statements is in.
use lumina_analytics.Prelude.{String, Option, List, [], ◌∷◌}
use lumina_analytics.Prelude.Outcome.{Outcome, ok, err, panic}
use lumina_analytics.Decimal.{DecimalOps}
use lumina_analytics.Models.{AlertRuleRow}
use lumina_analytics.Horizon.{LiquidityPool, AssetRecord, PaymentRecord}
use lumina_analytics.Db.{
  Store, PoolRow, PoolSnapshot, TokenSnapshot, WhaleTransaction, upsert_pool, insert_pool_snapshot,
  upsert_token, insert_token_snapshot, insert_whale_transaction, set_ingest_cursor,
}
use lumina_analytics.Db.Transaction.{Session, upsert_cursor, update}
use lumina_analytics.Ingest.{
  PendingAlert, payments_cursor_key, ingest_pool, ingest_token, ingest_each_payment,
}
use lumina_analytics.Ingest.Cycle.{
  World, Settings, or_skip, ingest_each_pool, ingest_each_token, payments_tx,
}
use lumina_analytics.Ingest.Steps.{
  Kept, Steps, and_then-Steps, ingest_pool-Steps, ingest_token-Steps, ingest_each_payment-Steps,
}

module _ {D : Type 0} ⦃d : DecimalOps D⦄ (w : World D) {K : Store D → Store D → Type 0}
    {R : Session D → Session D → Type 0} (kept : Kept w.accepts K R)
    (rules : List (AlertRuleRow D)) where
  or_skip-Steps :
      (alerts : List (PendingAlert D)) (s : Session D)
      (r : Outcome (Option (PendingAlert D)) × Session D)
      → R s r.1
      → R s (or_skip alerts r).1
  or_skip-Steps alerts s (ok alert, mid) h = h
  or_skip-Steps alerts s (err, mid) h = h
  or_skip-Steps alerts s (panic, mid) h = h

  pub ingest_each_pool-Steps :
      ((row : PoolRow) (s : Store D) → K s (upsert_pool row s))
      → ((row : PoolSnapshot D) (s : Store D) → K s (insert_pool_snapshot row s))
      → (dt : D) (pools : List LiquidityPool) (alerts : List (PendingAlert D))
      → Steps R (ingest_each_pool w dt rules pools alerts)
  unfolding ingest_each_pool
  ingest_each_pool-Steps pool_kept snapshot_kept dt [] alerts s = kept.stays s
  ingest_each_pool-Steps pool_kept snapshot_kept dt (lp ∷ pools) alerts s =
      and_then-Steps kept s (or_skip alerts (ingest_pool w.accepts w.now lp dt rules s)) _
        (or_skip-Steps alerts s (ingest_pool w.accepts w.now lp dt rules s)
          (ingest_pool-Steps kept pool_kept snapshot_kept w.now lp dt rules s))
        (λ alerts'. ingest_each_pool-Steps pool_kept snapshot_kept dt pools alerts')

  pub ingest_each_token-Steps :
      ((asset_code asset_issuer : String) (s : Store D)
        → K s (upsert_token asset_code asset_issuer s))
      → ((row : TokenSnapshot D) (s : Store D) → K s (insert_token_snapshot row s))
      → (dt : D) (assets : List AssetRecord) (alerts : List (PendingAlert D))
      → Steps R (ingest_each_token w dt rules assets alerts)
  unfolding ingest_each_token
  ingest_each_token-Steps token_kept snapshot_kept dt [] alerts s = kept.stays s
  ingest_each_token-Steps token_kept snapshot_kept dt (a ∷ assets) alerts s =
      and_then-Steps kept s (or_skip alerts (ingest_token w.accepts w.now a dt rules s)) _
        (or_skip-Steps alerts s (ingest_token w.accepts w.now a dt rules s)
          (ingest_token-Steps kept token_kept snapshot_kept w.now a dt rules s))
        (λ alerts'. ingest_each_token-Steps token_kept snapshot_kept dt assets alerts')

  pub payments_tx-Steps :
      ((row : WhaleTransaction D) (s : Store D) → K s (insert_whale_transaction row s).1)
      → ((key value : String) (s : Store D) → K s (set_ingest_cursor key value s))
      → (settings : Settings D) (cursor : String) (payments : List PaymentRecord)
      → Steps R (payments_tx w settings rules cursor payments)
  unfolding payments_tx
  payments_tx-Steps whale_kept cursor_kept settings cursor payments s =
      and_then-Steps kept s
        (ingest_each_payment w.accepts w.clock 0 payments settings.whale_threshold rules [] cursor
          s)
        _
        (ingest_each_payment-Steps kept whale_kept w.clock 0 payments settings.whale_threshold rules
          [] cursor s)
        (λ done mid.
          and_then-Steps kept mid
            (update w.accepts (upsert_cursor payments_cursor_key done.1)
              (set_ingest_cursor payments_cursor_key done.1) mid)
            _ (kept.executes _ _ (cursor_kept payments_cursor_key done.1) mid)
            (λ u last. kept.stays last))
