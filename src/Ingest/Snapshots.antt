-- ===== src/Ingest/Snapshots.antt =====
-- What `ingest_pool` of src/bin/ingest.rs stores and when it raises an alert.
use lumina_analytics.Prelude.{
  ℕ, String, ◌≡◌, refl, ap, sym, ◌∙◌, Bool, Option, some, List, [], ◌∷◌, ◌++◌, arith,
}
use mathlib.Core.Path.{subst}
use lumina_analytics.Prelude.Outcome.{ok}
use lumina_analytics.Decimal.{DecimalOps}
use lumina_analytics.Models.{AlertRuleRow}
use lumina_analytics.AlertRules.{resolve_liquidity_drop_threshold_pct}
use lumina_analytics.Alerts.{severity_for_liquidity_drop}
use lumina_analytics.Horizon.{LiquidityPool}
use lumina_analytics.Db.{
  Store, PoolRow, PoolSnapshot, upsert_pool, insert_pool_snapshot, latest_pool_total_shares,
}
use lumina_analytics.Db.Transaction.{
  Statement, Session, query, update, select_pool_shares, upsert_pool_row, insert_snapshot,
  and_then-eq-ok, parsed-eq-ok, lift-eq-ok, execute-eq-ok,
}
use lumina_analytics.Ingest.{
  pool_row, two_reserves, PendingAlert, liquidity_drop, liquidity_alert, ingest_snapshot,
  ingest_pool,
}
use lumina_analytics.Ingest.Drops.{Judged, liquidity_alert-Judged}

module _ {D : Type 0} ⦃d : DecimalOps D⦄ (accepts : Statement D → Bool) (lp : LiquidityPool) where
  abbrev pub SnapshotJudged :
      D → PoolSnapshot D → Option (PendingAlert D) → Store D → Store D → Type 0
  SnapshotJudged threshold snapshot alert before after =
      (after.pool_snapshots ≡ before.pool_snapshots ++ (snapshot ∷ []))
      × ((asset_a : String) × (asset_b : String) × Judged (latest_pool_total_shares lp.id before)
            snapshot.total_shares threshold severity_for_liquidity_drop
            (λ shares drop. liquidity_drop lp.id asset_a asset_b shares snapshot.total_shares drop)
            alert)

  upsert_pool-snapshots :
      (row : PoolRow) (s : Store D) → (upsert_pool row s).pool_snapshots ≡ s.pool_snapshots
  unfolding upsert_pool
  upsert_pool-snapshots row s = ground arith

  ingest_snapshot-Judged :
      (asset_a asset_b : String) (threshold : D) (snapshot : PoolSnapshot D) (s s' : Session D)
      {alert : Option (PendingAlert D)}
      → ingest_snapshot accepts lp asset_a asset_b threshold snapshot s ≡ (ok alert, s')
      → SnapshotJudged threshold snapshot alert s.store s'.store
  unfolding ingest_snapshot insert_pool_snapshot
  ingest_snapshot-Judged asset_a asset_b threshold snapshot s s' {alert} h =
      let row = pool_row lp asset_a asset_b in
      let (previous, s1, x1, h1) =
        and_then-eq-ok (query accepts (select_pool_shares lp.id) (latest_pool_total_shares lp.id) s)
          _ h in
      let (u2, s2, x2, h2) =
        and_then-eq-ok (update accepts (upsert_pool_row row) (upsert_pool row) s1) _ h1 in
      let (u3, s3, x3, h3) =
        and_then-eq-ok
          (update accepts (insert_snapshot snapshot) (insert_pool_snapshot snapshot) s2) _ h2 in
      let (read, open1, accepted1) =
        execute-eq-ok accepts (select_pool_shares lp.id)
          (λ store. (latest_pool_total_shares lp.id store, store)) s x1 in
      let (upserted, open2, accepted2) =
        execute-eq-ok accepts (upsert_pool_row row) (λ store. (tt, upsert_pool row store)) s1 x2 in
      let (added, open3, accepted3) =
        execute-eq-ok accepts (insert_snapshot snapshot)
          (λ store. (tt, insert_pool_snapshot snapshot store)) s2 x3 in
      let (judged, same) =
        lift-eq-ok (liquidity_alert lp asset_a asset_b threshold previous snapshot.total_shares) s3
          h3 in
      let before : s1.store.pool_snapshots ≡ s.store.pool_snapshots =
        ap (λ (z : Store D). z.pool_snapshots) (sym (ap (λ r. r.1) read)) in
      let middle : s2.store.pool_snapshots ≡ s1.store.pool_snapshots =
        ap (λ (z : Store D). z.pool_snapshots) (sym (ap (λ r. r.1) upserted))
        ∙ upsert_pool-snapshots row s1.store in
      let after : s3.store.pool_snapshots ≡ s2.store.pool_snapshots ++ (snapshot ∷ []) =
        ap (λ (z : Store D). z.pool_snapshots) (sym (ap (λ r. r.1) added)) in
      let all : s'.store.pool_snapshots ≡ s.store.pool_snapshots ++ (snapshot ∷ []) =
        ap (λ (z : Session D). z.store.pool_snapshots) (sym same)
        ∙ (after ∙ ap (λ rows. rows ++ (snapshot ∷ [])) (middle ∙ before)) in
      (
        all,
        (
          asset_a,
          asset_b,
          subst
              (λ x.
                Judged x snapshot.total_shares threshold severity_for_liquidity_drop
                  (λ shares drop.
                    liquidity_drop lp.id asset_a asset_b shares snapshot.total_shares drop)
                  alert)
              (sym (ap (λ r. r.0) read))
              (liquidity_alert-Judged lp asset_a asset_b threshold previous snapshot.total_shares
                alert judged),
        ),
      )

  -- Whenever `ingest_pool` returns, it has added one snapshot, with the pool's id, the time and the
  -- parsed total of the shares; and it has raised an alert exactly if the pool had a snapshot before
  -- and the total fell since then by at least the threshold of the rules, in percent. The alert names
  -- the two totals and the drop, with the severity that `severity_for_liquidity_drop` gives.
  pub ingest_pool-Judged :
      (now : ℕ) (default_threshold : D) (rules : List (AlertRuleRow D)) (s s' : Session D)
      {alert : Option (PendingAlert D)}
      → ingest_pool accepts now lp default_threshold rules s ≡ (ok alert, s')
      → (snapshot : PoolSnapshot D) × (snapshot.pool_id ≡ lp.id)
        × (snapshot.time ≡ now)
        × (d.from_str lp.total_shares ≡ some snapshot.total_shares)
        × SnapshotJudged
            (resolve_liquidity_drop_threshold_pct rules lp.id default_threshold)
            snapshot
            alert
            s.store
            s'.store
  unfolding ingest_pool
  ingest_pool-Judged now default_threshold rules s s' h =
      let (both, e, h1) = parsed-eq-ok (two_reserves lp.reserves) s _ h in
      let (reserve_a, e_a, h2) = parsed-eq-ok (d.from_str both.0.amount) s _ h1 in
      let (reserve_b, e_b, h3) = parsed-eq-ok (d.from_str both.1.amount) s _ h2 in
      let (total_shares, e_t, h4) = parsed-eq-ok (d.from_str lp.total_shares) s _ h3 in
      let threshold = resolve_liquidity_drop_threshold_pct rules lp.id default_threshold in
      (_, refl, refl, e_t, ingest_snapshot-Judged both.0.asset both.1.asset threshold _ s s' h4)
