-- ===== src/Ingest/AllOrNone.antt =====
-- `run_once` of src/bin/ingest.rs, for one cycle whose requests were answered: its transaction of
-- snapshots, and the payments that follow.
use lumina_analytics.Prelude.{
  ◌≡◌, refl, ◌⊎◌, inl, inr, Bool, true, false, List, [], All, All-map, Bool-cases, length,
}
use mathlib.Core.Path.{subst}
use lumina_analytics.Prelude.Outcome.{Outcome, ok, err, panic}
use lumina_analytics.Decimal.{DecimalOps}
use lumina_analytics.Models.{AlertRuleRow}
use lumina_analytics.Horizon.{LiquidityPool, AssetRecord}
use lumina_analytics.Db.{Store}
use lumina_analytics.Db.Transaction.{Statement, Session, and_then-eq-ok}
use lumina_analytics.Ingest.{PendingAlert}
use lumina_analytics.Ingest.Cycle.{
  World, Settings, finish, transact, ingest_each_pool, prices_tx, snapshots_tx, and_payments,
  rules_or_empty, run_once,
}
use lumina_analytics.Ingest.Steps.{Extends, SameSnapshots, Onward}
use lumina_analytics.Ingest.Refused.{ReadablePool, PoolStored, TokenStored}
use lumina_analytics.Ingest.Accepted.{snapshots_tx-no_err, snapshots_tx-StaysOpen}
use lumina_analytics.Ingest.Frame.{
  same_refl, same_trans, prices_tx-SameSnapshots, ingest_payments-SameSnapshots,
}
use lumina_analytics.Ingest.Whole.{
  SameSnapshots-Extends, Extends-trans, pools-Extends, tokens-Extends, was_open, pools-Stored,
  tokens-Stored,
}

module _ {D : Type 0} ⦃d : DecimalOps D⦄ (w : World D) (settings : Settings D)
    (rules : List (AlertRuleRow D)) where
  -- The pools and the assets of a cycle have their snapshots, each by a statement that was accepted.
  abbrev pub Stored : List LiquidityPool → List AssetRecord → Store D → Type 0
  Stored pools assets s =
      All (λ lp. ReadablePool d.from_str lp → PoolStored w.accepts w.now lp s) pools
      × All (λ a. TokenStored w.accepts w.now a s) assets

  snapshots_tx-Stored :
      (pools : List LiquidityPool) (assets : List AssetRecord) (s s' : Session D)
      {alerts : List (PendingAlert D)}
      → snapshots_tx w settings rules pools assets s ≡ (ok alerts, s')
      → s'.failed ≡ false
      → Extends s.store s'.store × Stored pools assets s'.store
  unfolding snapshots_tx
  snapshots_tx-Stored pools assets s s' h open_ =
      let pools_dt = settings.liquidity_drop_threshold_pct in
      let tokens_dt = settings.holder_drop_threshold_pct in
      let (alerts1, s1, x1, h1) =
        and_then-eq-ok (ingest_each_pool w pools_dt rules pools [] s) _ h in
      let (u, s2, x2, h2) =
        and_then-eq-ok (prices_tx w settings.price_feed_enabled pools s1) _ h1 in
      let first : Onward Extends s s1 =
        subst (λ r. Onward Extends s r.1) x1 (pools-Extends w pools_dt rules pools [] s) in
      let (still, priced) : Onward SameSnapshots s1 s2 =
        subst (λ r. Onward SameSnapshots s1 r.1) x2
          (prices_tx-SameSnapshots w settings rules settings.price_feed_enabled pools s1) in
      let second : Onward Extends s1 s2 = (still, SameSnapshots-Extends s1.store s2.store priced) in
      let third : Onward Extends s2 s' =
        subst (λ r. Onward Extends s2 r.1) h2
          (tokens-Extends w tokens_dt rules assets alerts1 s2) in
      let open2 = was_open s2 s' third open_ in
      let open1 = was_open s1 s2 second open2 in
      let after = Extends-trans s1.store s2.store s'.store second.1 third.1 in
      (
        Extends-trans s.store s1.store s'.store first.1 after,
        (
          All-map pools
              (λ lp stored readable.
                let (row, id, time, shares, accepted, held) = stored readable in
                (row, id, time, shares, accepted, after.0 row held))
              (pools-Stored w pools_dt rules pools [] s s1 x1 open1),
          tokens-Stored w tokens_dt rules assets alerts1 s2 s' h2 open_,
        ),
      )

  -- The snapshots are as before, or all of the cycle's are stored and none is lost.
  abbrev pub AllOrNone : List LiquidityPool → List AssetRecord → Store D → Store D → Type 0
  AllOrNone pools assets before after =
      SameSnapshots before after ⊎ (Extends before after × Stored pools assets after)

  finish-AllOrNone :
      (pools : List LiquidityPool) (assets : List AssetRecord) (commits : Bool) (before : Store D)
      (r : Outcome (List (PendingAlert D)) × Session D)
      → ((alerts : List (PendingAlert D)) (s : Session D)
          → r ≡ (ok alerts, s)
          → s.failed ≡ false
          → Extends before s.store × Stored pools assets s.store)
      → AllOrNone pools assets before (finish commits before r).1
  finish-AllOrNone pools assets true before (ok alerts, s) f = elim (Bool-cases s.failed) [
    | inl e ↦ rw e (inl (same_refl before))
    | inr e ↦ rw e (inr (f alerts s refl e))
  ]
  finish-AllOrNone pools assets false before (ok alerts, s) f = inl (same_refl before)
  finish-AllOrNone pools assets commits before (err, s) f = inl (same_refl before)
  finish-AllOrNone pools assets commits before (panic, s) f = inl (same_refl before)

  and_payments-SameSnapshots :
      (r : Outcome (List (PendingAlert D)) × Store D)
      → SameSnapshots r.1 (and_payments w settings rules r).store
  and_payments-SameSnapshots (ok alerts, store) =
      ingest_payments-SameSnapshots w settings rules (length alerts) store
  and_payments-SameSnapshots (err, store) = same_refl store
  and_payments-SameSnapshots (panic, store) = same_refl store

  -- The cycle's snapshots are stored, and none is lost.
  abbrev pub AllStored : List LiquidityPool → List AssetRecord → Store D → Store D → Type 0
  AllStored pools assets before after = Extends before after × Stored pools assets after

  AllStored-same :
      (pools : List LiquidityPool) (assets : List AssetRecord) (before mid after : Store D)
      → SameSnapshots mid after
      → AllStored pools assets before mid
      → AllStored pools assets before after
  AllStored-same pools assets before mid after unchanged (more, (pools_stored, tokens_stored)) =
      let (keep_pools, keep_tokens) = SameSnapshots-Extends mid after unchanged in
      (
        (λ row m. keep_pools row (more.0 row m), λ row m. keep_tokens row (more.1 row m)),
        (
          All-map pools
              (λ lp stored readable.
                let (row, id, time, shares, accepted, held) = stored readable in
                (row, id, time, shares, accepted, keep_pools row held))
              pools_stored,
          All-map assets (λ a (accepted, held). (accepted, keep_tokens _ held)) tokens_stored,
        ),
      )

  AllOrNone-same :
      (pools : List LiquidityPool) (assets : List AssetRecord) (before mid after : Store D)
      → SameSnapshots mid after
      → AllOrNone pools assets before mid
      → AllOrNone pools assets before after
  AllOrNone-same pools assets before mid after unchanged (inl h) =
      inl (same_trans before mid after h unchanged)
  AllOrNone-same pools assets before mid after unchanged (inr h) =
      inr (AllStored-same pools assets before mid after unchanged h)

  finish-AllStored :
      (pools : List LiquidityPool) (assets : List AssetRecord) (commits : Bool) (before : Store D)
      (r : Outcome (List (PendingAlert D)) × Session D)
      → commits ≡ true
      → ((s : Session D) → r ≡ (err, s) → ⊥)
      → r.1.failed ≡ false
      → ((alerts : List (PendingAlert D)) (s : Session D)
          → r ≡ (ok alerts, s)
          → s.failed ≡ false
          → AllStored pools assets before s.store)
      → ((and_payments w settings rules (finish commits before r)).outcome ≡ panic)
        ⊎ AllStored pools assets before (finish commits before r).1
  finish-AllStored pools assets commits before (ok alerts, s) c e open_ f =
      inr (rw (c, open_) (f alerts s refl open_))
  finish-AllStored pools assets commits before (err, s) c e open_ f = absurd (e s refl)
  finish-AllStored pools assets commits before (panic, s) c e open_ f = inl refl

-- When Horizon has returned pools and assets: after a cycle, whatever the database accepts, either
-- the snapshots of pools and of tokens are exactly those from before, or no earlier one is lost,
-- every asset returned has its snapshot of this cycle, and so has every pool returned whose amounts
-- and shares are numbers, with that total of shares, each inserted by a statement that the database
-- accepted.
pub run_once-AllOrNone :
    {D : Type 0} ⦃d : DecimalOps D⦄ (w : World D) (settings : Settings D)
    (pools : List LiquidityPool) (assets : List AssetRecord) (before : Store D)
    → w.pools ≡ ok pools
    → w.assets ≡ ok assets
    → AllOrNone w settings
        (rules_or_empty w.rules)
        pools
        assets
        before
        (run_once w settings before).store
unfolding run_once transact
run_once-AllOrNone {D} w settings pools assets before p a =
    let rules = rules_or_empty w.rules in
    let start : Session D = record { store = before; failed = false } in
    let body = snapshots_tx w settings rules pools assets start in
    rw (p, a, run_once)
      (AllOrNone-same w settings rules pools assets before (finish w.commits before body).1
        (and_payments w settings rules (finish w.commits before body)).store
        (and_payments-SameSnapshots w settings rules (finish w.commits before body))
        (finish-AllOrNone w settings rules pools assets w.commits before body
          (λ alerts s e open_. snapshots_tx-Stored w settings rules pools assets start s e open_)))

-- When Horizon has returned pools and assets, and the database accepts every statement and the
-- commits: a cycle that does not panic stores a snapshot of every asset returned and of every pool
-- returned whose amounts and shares are numbers, with that total of shares, and loses no earlier
-- one, whatever becomes of other pools, of the prices and of the payments.
pub run_once-AllStored :
    {D : Type 0} ⦃d : DecimalOps D⦄ (w : World D) (settings : Settings D)
    (pools : List LiquidityPool) (assets : List AssetRecord) (before : Store D)
    → w.pools ≡ ok pools
    → w.assets ≡ ok assets
    → ((statement : Statement D) → w.accepts statement ≡ true)
    → w.commits ≡ true
    → ((run_once w settings before).outcome ≡ panic)
      ⊎ AllStored w settings
          (rules_or_empty w.rules)
          pools
          assets
          before
          (run_once w settings before).store
unfolding run_once transact
run_once-AllStored {D} w settings pools assets before p a accepted c =
    let rules = rules_or_empty w.rules in
    let start : Session D = record { store = before; failed = false } in
    let body = snapshots_tx w settings rules pools assets start in
    rw (p, a, run_once)
      (elim (finish-AllStored w settings rules pools assets w.commits before body c
        (λ s e. snapshots_tx-no_err w rules settings pools assets start s e)
        (snapshots_tx-StaysOpen w rules accepted settings pools assets start refl)
        (λ alerts s e open_. snapshots_tx-Stored w settings rules pools assets start s e open_)) [
          | inl e ↦ inl e
          | inr h ↦ inr (
              AllStored-same w settings rules pools assets before (finish w.commits before body).1
                (and_payments w settings rules (finish w.commits before body)).store
                (and_payments-SameSnapshots w settings rules (finish w.commits before body)) h)
        ])
