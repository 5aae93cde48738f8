-- ===== src/Ingest/Refused.antt =====
-- A statement of src/bin/ingest.rs that the database refuses: what `ingest_pool` and `ingest_token`
-- store, and when they end in an error.
use lumina_analytics.Prelude.{
  ℕ, String, ◌≡◌, refl, ap, inl, inr, Bool, true, Option, none, some, List, Holds, arith,
}
use mathlib.Core.Path.{subst}
use lumina_analytics.Prelude.Int.{ℤ}
use lumina_analytics.Prelude.Outcome.{ok, err}
use lumina_analytics.Decimal.{DecimalOps}
use lumina_analytics.Models.{AlertRuleRow}
use lumina_analytics.Horizon.{LiquidityPool, PoolReserve, AssetRecord}
use lumina_analytics.Db.{
  Store, PoolSnapshot, TokenSnapshot, upsert_pool, insert_pool_snapshot, upsert_token,
  insert_token_snapshot, latest_pool_total_shares, latest_token_num_accounts,
}
use lumina_analytics.Db.Transaction.{
  Statement, Session, query, update, select_token_accounts, upsert_token_row, insert_token_row,
  insert_snapshot, upsert_pool_row, select_pool_shares, and_then-eq-ok, and_then-eq-err,
  execute-eq-ok, execute-eq-err, lift-eq-ok, parsed-eq-ok,
}
use lumina_analytics.Ingest.{
  pool_row, PendingAlert, two_reserves, liquidity_alert, holder_alert, ingest_snapshot, ingest_pool,
  ingest_token,
}
use lumina_analytics.Ingest.Payments.{Holds-append_last}
use lumina_analytics.Ingest.Steps.{token_snapshot}

-- The numbers of the pool are numbers.
abbrev pub ReadablePool : {D : Type 0} → (String → Option D) → LiquidityPool → Type 0
ReadablePool {D} from_str lp =
    (both : PoolReserve × PoolReserve) × (a : D) × (b : D) × (shares : D) × (two_reserves
        lp.reserves
      ≡ some both)
    × (from_str both.0.amount ≡ some a)
    × (from_str both.1.amount ≡ some b)
    × (from_str lp.total_shares ≡ some shares)

module _ {D : Type 0} ⦃d : DecimalOps D⦄ where
  liquidity_alert-no_err :
      (lp : LiquidityPool) (asset_a asset_b : String) (threshold : D) (previous : Option D)
      (shares : D)
      → liquidity_alert lp asset_a asset_b threshold previous shares ≡ err
      → ⊥
  unfolding liquidity_alert
  liquidity_alert-no_err lp asset_a asset_b threshold none shares h = cc
  liquidity_alert-no_err lp asset_a asset_b threshold (some previous) shares h = ground arith

  holder_alert-no_err :
      (a : AssetRecord) (threshold : D) (previous : Option ℤ)
      → holder_alert a threshold previous ≡ err
      → ⊥
  unfolding holder_alert
  holder_alert-no_err a threshold none h = cc
  holder_alert-no_err a threshold (some previous) h = ground arith

  module _ (accepts : Statement D → Bool) where
    -- The pool's snapshot of this cycle is in the table, by a statement that was accepted.
    abbrev pub PoolStored : ℕ → LiquidityPool → Store D → Type 0
    PoolStored now lp s =
        (row : PoolSnapshot D) × (row.pool_id ≡ lp.id)
        × (row.time ≡ now)
        × (d.from_str lp.total_shares ≡ some row.total_shares)
        × (accepts (insert_snapshot row) ≡ true)
        × Holds row s.pool_snapshots

    abbrev pub TokenStored : ℕ → AssetRecord → Store D → Type 0
    TokenStored now a s =
        (accepts (insert_token_row (token_snapshot now a)) ≡ true)
        × Holds (token_snapshot now a) s.token_snapshots

    ingest_snapshot-Stored :
        (lp : LiquidityPool) (asset_a asset_b : String) (threshold : D) (snapshot : PoolSnapshot D)
        (s s' : Session D) {alert : Option (PendingAlert D)}
        → ingest_snapshot accepts lp asset_a asset_b threshold snapshot s ≡ (ok alert, s')
        → (accepts (insert_snapshot snapshot) ≡ true) × Holds snapshot s'.store.pool_snapshots
    unfolding ingest_snapshot insert_pool_snapshot
    ingest_snapshot-Stored lp asset_a asset_b threshold snapshot s s' h =
        let row = pool_row lp asset_a asset_b in
        let (previous, s1, x1, h1) =
          and_then-eq-ok
            (query accepts (select_pool_shares lp.id) (latest_pool_total_shares lp.id) s) _ h in
        let (u2, s2, x2, h2) =
          and_then-eq-ok (update accepts (upsert_pool_row row) (upsert_pool row) s1) _ h1 in
        let (u3, s3, x3, h3) =
          and_then-eq-ok
            (update accepts (insert_snapshot snapshot) (insert_pool_snapshot snapshot) s2) _ h2 in
        let (added, still_open, accepted) =
          execute-eq-ok accepts (insert_snapshot snapshot)
            (λ store. (tt, insert_pool_snapshot snapshot store)) s2 x3 in
        let (judged, same) =
          lift-eq-ok (liquidity_alert lp asset_a asset_b threshold previous snapshot.total_shares)
            s3 h3 in
        (
          accepted,
          subst (λ (z : Session D). Holds snapshot z.store.pool_snapshots) same
              (subst (λ (z : Store D). Holds snapshot z.pool_snapshots) (ap (λ r. r.1) added)
                (Holds-append_last snapshot s2.store.pool_snapshots)),
        )

    ingest_snapshot-refused :
        (lp : LiquidityPool) (asset_a asset_b : String) (threshold : D) (snapshot : PoolSnapshot D)
        (s s' : Session D)
        → ingest_snapshot accepts lp asset_a asset_b threshold snapshot s ≡ (err, s')
        → s'.failed ≡ true
    unfolding ingest_snapshot
    ingest_snapshot-refused lp asset_a asset_b threshold snapshot s s' h =
        let row = pool_row lp asset_a asset_b in
        elim (and_then-eq-err
          (query accepts (select_pool_shares lp.id) (latest_pool_total_shares lp.id) s) _ h) [
            | inl x ↦ execute-eq-err accepts _ _ s x
            | inr (previous, s1, x1, h1) ↦
                elim (and_then-eq-err (update accepts (upsert_pool_row row) (upsert_pool row) s1) _
                  h1) [
                    | inl x ↦ execute-eq-err accepts _ _ s1 x
                    | inr (u2, s2, x2, h2) ↦
                        elim (and_then-eq-err
                          (update accepts (insert_snapshot snapshot) (insert_pool_snapshot snapshot)
                            s2)
                          _ h2) [
                            | inl x ↦ execute-eq-err accepts _ _ s2 x
                            | inr (u3, s3, x3, h3) ↦ absurd (
                                liquidity_alert-no_err lp asset_a asset_b threshold previous
                                  snapshot.total_shares (ap (λ r. r.0) h3))
                          ]
                  ]
          ]

    pub ingest_pool-Stored :
        (now : ℕ) (lp : LiquidityPool) (dt : D) (rules : List (AlertRuleRow D)) (s s' : Session D)
        {alert : Option (PendingAlert D)}
        → ingest_pool accepts now lp dt rules s ≡ (ok alert, s')
        → PoolStored now lp s'.store
    unfolding ingest_pool
    ingest_pool-Stored now lp dt rules s s' h =
        let (both, e, h1) = parsed-eq-ok (two_reserves lp.reserves) s _ h in
        let (reserve_a, e_a, h2) = parsed-eq-ok (d.from_str both.0.amount) s _ h1 in
        let (reserve_b, e_b, h3) = parsed-eq-ok (d.from_str both.1.amount) s _ h2 in
        let (total_shares, e_t, h4) = parsed-eq-ok (d.from_str lp.total_shares) s _ h3 in
        let (accepted, held) = ingest_snapshot-Stored lp both.0.asset both.1.asset _ _ s s' h4 in
        (_, refl, refl, e_t, accepted, held)

    -- A pool whose numbers can be read ends in an error only if a statement was refused.
    pub ingest_pool-refused :
        (now : ℕ) (lp : LiquidityPool) (dt : D) (rules : List (AlertRuleRow D)) (s s' : Session D)
        → ReadablePool d.from_str lp
        → ingest_pool accepts now lp dt rules s ≡ (err, s')
        → s'.failed ≡ true
    unfolding ingest_pool
    ingest_pool-refused now lp dt rules s s' (both, a, b, shares, e, e_a, e_b, e_t) h =
        ingest_snapshot-refused lp both.0.asset both.1.asset _ _ s s'
          (rw (e, e_a, e_b, e_t, ingest_pool) at h)

    pub ingest_token-Stored :
        (now : ℕ) (a : AssetRecord) (dt : D) (rules : List (AlertRuleRow D)) (s s' : Session D)
        {alert : Option (PendingAlert D)}
        → ingest_token accepts now a dt rules s ≡ (ok alert, s')
        → TokenStored now a s'.store
    unfolding ingest_token insert_token_snapshot
    ingest_token-Stored now a dt rules s s' h =
        let snapshot : TokenSnapshot D = token_snapshot now a in
        let (previous, s1, x1, h1) =
          and_then-eq-ok
            (query accepts (select_token_accounts a.asset_code a.asset_issuer)
              (latest_token_num_accounts a.asset_code a.asset_issuer) s)
            _ h in
        let (u2, s2, x2, h2) =
          and_then-eq-ok
            (update accepts (upsert_token_row a.asset_code a.asset_issuer)
              (upsert_token a.asset_code a.asset_issuer) s1)
            _ h1 in
        let (u3, s3, x3, h3) =
          and_then-eq-ok
            (update accepts (insert_token_row snapshot) (insert_token_snapshot snapshot) s2) _ h2 in
        let (added, still_open, accepted) =
          execute-eq-ok accepts (insert_token_row snapshot)
            (λ store. (tt, insert_token_snapshot snapshot store)) s2 x3 in
        (
          accepted,
          subst (λ (z : Session D). Holds snapshot z.store.token_snapshots) (ap (λ r. r.1) h3)
              (subst (λ (z : Store D). Holds snapshot z.token_snapshots) (ap (λ r. r.1) added)
                (Holds-append_last snapshot s2.store.token_snapshots)),
        )

    pub ingest_token-refused :
        (now : ℕ) (a : AssetRecord) (dt : D) (rules : List (AlertRuleRow D)) (s s' : Session D)
        → ingest_token accepts now a dt rules s ≡ (err, s')
        → s'.failed ≡ true
    unfolding ingest_token
    ingest_token-refused now a dt rules s s' h =
        let snapshot : TokenSnapshot D = token_snapshot now a in
        elim (and_then-eq-err
          (query accepts (select_token_accounts a.asset_code a.asset_issuer)
            (latest_token_num_accounts a.asset_code a.asset_issuer) s)
          _ h) [
            | inl x ↦ execute-eq-err accepts _ _ s x
            | inr (previous, s1, x1, h1) ↦
                elim (and_then-eq-err
                  (update accepts (upsert_token_row a.asset_code a.asset_issuer)
                    (upsert_token a.asset_code a.asset_issuer) s1)
                  _ h1) [
                    | inl x ↦ execute-eq-err accepts _ _ s1 x
                    | inr (u2, s2, x2, h2) ↦
                        elim (and_then-eq-err
                          (update accepts (insert_token_row snapshot)
                            (insert_token_snapshot snapshot) s2)
                          _ h2) [
                            | inl x ↦ execute-eq-err accepts _ _ s2 x
                            | inr (u3, s3, x3, h3) ↦
                                absurd (holder_alert-no_err a _ previous (ap (λ r. r.0) h3))
                          ]
                  ]
          ]
