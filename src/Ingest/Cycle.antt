-- ===== src/Ingest/Cycle.antt =====
-- src/bin/ingest.rs, `ingest_payments` and `run_once`: a transaction that commits or leaves the
-- tables as they were, and the alerts after it.
use lumina_analytics.Prelude.{
  ℕ, ◌+◌, String, Bool, true, false, not, ◌&&◌, Option, none, some, List, [], ◌∷◌, ◌++◌,
  if◌then◌else◌, length,
}
use lumina_analytics.Prelude.Outcome.{Outcome, ok, err, panic}
use lumina_analytics.Decimal.{DecimalOps}
use lumina_analytics.Models.{AlertRuleRow}
use lumina_analytics.Alerts.{Answers, Event, record_alert}
use lumina_analytics.Horizon.{
  LiquidityPool, AssetRecord, PaymentRecord, Page, latest_payments_page, payments_since,
}
use lumina_analytics.Pricing.{AssetId}
use lumina_analytics.Pricing.Hops.{PriceRow, Prices, ingest_prices}
use lumina_analytics.Db.{Store, get_ingest_cursor, set_ingest_cursor, insert_asset_price}
use lumina_analytics.Db.Transaction.{
  Statement, select_cursor, upsert_cursor, insert_price, Session, Tx, ◌>>=◌, ◌>>◌, return, update,
}
use lumina_analytics.Ingest.{
  Facts, PendingAlert, payments_cursor_key, max_pages_per_cycle, ingest_pool, ingest_token,
  ingest_each_payment, push_alert,
}

-- What ingestion reads of `Config`.
pub record Settings (D : Type 0) : Type 0 where
  pub horizon_url : String
  pub whale_threshold : D
  pub liquidity_drop_threshold_pct : D
  pub holder_drop_threshold_pct : D
  pub price_feed_enabled : Bool
  pub alert_webhook_url : Option String
  pub alert_min_severity : String

-- What surrounds one cycle: the clock, the answers to requests and to statements, whether a commit
-- succeeds, and, for the n-th alert, what its receivers answer. `text` writes the values of an alert,
-- and `iter` is the order in which a `HashMap` is read.
pub record World (D : Type 0) : Type 1 where
  pub now : ℕ
  pub clock : ℕ → ℕ
  pub accepts : Statement D → Bool
  pub commits : Bool
  pub pools : Outcome (List LiquidityPool)
  pub assets : Outcome (List AssetRecord)
  pub rules : Option (List (AlertRuleRow D))
  pub xlm_usd : Outcome D
  pub iter : (V : Type 0) → List (AssetId × V) → List (AssetId × V)
  pub payments : String → Outcome (Page PaymentRecord)
  pub answers : ℕ → Answers
  pub text : Facts D → String

pub record Finished (D : Type 0) : Type 0 where
  pub outcome : Outcome (Unit {0})
  pub store : Store D
  pub events : List (Event (Facts D))

module _ {D : Type 0} where
  abbrev pub kept : Bool → Store D → Store D → Store D
  kept failed before after = if failed then before else after

  abbrev pub finish : {A : Type 0} → Bool → Store D → Outcome A × Session D → Outcome A × Store D
  finish commits before (ok a, s) =
      if commits then (ok a, kept s.failed before s.store) else (err, before)
  finish commits before (err, s) = (err, before)
  finish commits before (panic, s) = (panic, before)

  -- `begin`, a body, and `commit`, which keeps nothing of a transaction that has failed. A body that
  -- ends in an error drops the transaction, which rolls it back.
  unfoldable pub transact : {A : Type 0} → Bool → Tx D A → Store D → Outcome A × Store D
  transact commits body before =
      finish commits before (body (record { store = before; failed = false }))

  abbrev pub record_one : World D → Settings D → ℕ → PendingAlert D → List (Event (Facts D))
  record_one w settings n alert =
      (record_alert (w.answers n) settings.alert_webhook_url settings.alert_min_severity alert.kind
        alert.severity (w.text alert.facts) alert.facts).1

  -- The loop over the pending alerts, whose errors are logged.
  unfoldable pub record_each :
      World D → Settings D → ℕ → List (PendingAlert D) → List (Event (Facts D))
  record_each w settings n [] = []
  record_each w settings n (alert ∷ alerts) =
      record_one w settings n alert ++ record_each w settings (n + 1) alerts

module _ {D : Type 0} ⦃d : DecimalOps D⦄ where
  -- The body of the transaction of `ingest_payments`.
  unfoldable pub payments_tx :
      World D
      → Settings D
      → List (AlertRuleRow D)
      → String
      → List PaymentRecord
      → Tx D (List (PendingAlert D))
  payments_tx w settings rules cursor payments = do
    done ← ingest_each_payment w.accepts w.clock 0 payments settings.whale_threshold rules [] cursor
    update w.accepts (upsert_cursor payments_cursor_key done.1)
        (set_ingest_cursor payments_cursor_key done.1)
    return done.0

  abbrev pub after_payments :
      World D → Settings D → ℕ → Outcome (List (PendingAlert D)) × Store D → Finished D
  after_payments w settings n (ok alerts, store) = record {
    outcome = ok tt;
    store = store;
    events = record_each w settings n alerts;
  }
  after_payments w settings n (err, store) = record { outcome = err; store = store; events = [] }
  after_payments w settings n (panic, store) = record {
    outcome = panic;
    store = store;
    events = [];
  }

  abbrev pub stopped : Outcome (Unit {0}) → Store D → Finished D
  stopped outcome store = record { outcome = outcome; store = store; events = [] }

  -- The newest payment, if any, becomes the cursor.
  abbrev pub seed : World D → List PaymentRecord → Store D → Finished D
  seed w [] store = stopped (ok tt) store
  seed w (newest ∷ rest) store =
      if w.accepts (upsert_cursor payments_cursor_key newest.paging_token)
      then stopped (ok tt) (set_ingest_cursor payments_cursor_key newest.paging_token store)
      else stopped err store

  -- `n` alerts of the cycle have been recorded before.
  unfoldable pub ingest_payments :
      World D → Settings D → List (AlertRuleRow D) → ℕ → Store D → Finished D
  unfolding transact payments_tx
  ingest_payments w settings rules n store =
      if not (w.accepts (select_cursor payments_cursor_key))
      then stopped err store
      else elim (get_ingest_cursor payments_cursor_key store) [
        | none ↦ elim (latest_payments_page w.payments settings.horizon_url "1") [
          | ok latest ↦ seed w latest store
          | err ↦ stopped err store
          | panic ↦ stopped panic store
        ]
        | some cursor ↦
            elim (payments_since w.payments settings.horizon_url (some cursor)
              max_pages_per_cycle) [
                | ok payments ↦ elim payments [
                  | [] ↦ stopped (ok tt) store
                  | p ∷ rest ↦
                      after_payments w settings n
                        (transact w.commits (payments_tx w settings rules cursor (p ∷ rest)) store)
                ]
                | err ↦ stopped err store
                | panic ↦ stopped panic store
              ]
      ]

  -- An error of one pool or asset is logged, and the loop goes on.
  abbrev pub or_skip :
      List (PendingAlert D)
      → Outcome (Option (PendingAlert D)) × Session D
      → Outcome (List (PendingAlert D)) × Session D
  or_skip alerts (ok alert, s) = (ok (push_alert alert alerts), s)
  or_skip alerts (err, s) = (ok alerts, s)
  or_skip alerts (panic, s) = (panic, s)

  unfoldable pub ingest_each_pool :
      World D
      → D
      → List (AlertRuleRow D)
      → List LiquidityPool
      → List (PendingAlert D)
      → Tx D (List (PendingAlert D))
  ingest_each_pool w default_threshold rules [] alerts = return alerts
  ingest_each_pool w default_threshold rules (lp ∷ pools) alerts = do
    alerts' ← (λ s. or_skip alerts (ingest_pool w.accepts w.now lp default_threshold rules s))
    ingest_each_pool w default_threshold rules pools alerts'

  unfoldable pub ingest_each_token :
      World D
      → D
      → List (AlertRuleRow D)
      → List AssetRecord
      → List (PendingAlert D)
      → Tx D (List (PendingAlert D))
  ingest_each_token w default_threshold rules [] alerts = return alerts
  ingest_each_token w default_threshold rules (a ∷ assets) alerts = do
    alerts' ← (λ s. or_skip alerts (ingest_token w.accepts w.now a default_threshold rules s))
    ingest_each_token w default_threshold rules assets alerts'

  unfoldable pub insert_prices : ℕ → List (PriceRow D) → Store D → Store D
  insert_prices time [] store = store
  insert_prices time (row ∷ rows) store =
      insert_prices time rows (insert_asset_price time row store)

  -- `ingest_prices`, whose error is logged. It fails at the request, or at a statement.
  abbrev after_prices : ℕ → Outcome D → Outcome (List (PriceRow D) × Prices D) → Tx D (Unit {0})
  after_prices now fetched (ok stored) s =
      (ok tt, record s { store = insert_prices now stored.0 s.store })
  after_prices now (ok xlm_usd) err s = (ok tt, record s { failed = true })
  after_prices now err err s = (ok tt, s)
  after_prices now panic err s = (ok tt, s)
  after_prices now fetched panic s = (panic, s)

  unfoldable pub prices_tx : World D → Bool → List LiquidityPool → Tx D (Unit {0})
  unfolding insert_prices
  prices_tx w enabled pools s =
      if enabled
      then after_prices w.now w.xlm_usd
          (ingest_prices (λ row. not s.failed && w.accepts (insert_price w.now row)) w.iter
            w.xlm_usd pools)
          s
      else (ok tt, s)

  -- The body of the transaction of `run_once`.
  unfoldable pub snapshots_tx :
      World D
      → Settings D
      → List (AlertRuleRow D)
      → List LiquidityPool
      → List AssetRecord
      → Tx D (List (PendingAlert D))
  unfolding ingest_each_pool ingest_each_token prices_tx
  snapshots_tx w settings rules pools assets = do
    alerts ← ingest_each_pool w settings.liquidity_drop_threshold_pct rules pools []
    prices_tx w settings.price_feed_enabled pools
    ingest_each_token w settings.holder_drop_threshold_pct rules assets alerts

  abbrev pub rules_or_empty : Option (List (AlertRuleRow D)) → List (AlertRuleRow D)
  rules_or_empty none = []
  rules_or_empty (some rules) = rules

  -- The alerts of the snapshots, then the payments.
  abbrev pub and_payments :
      World D
      → Settings D
      → List (AlertRuleRow D)
      → Outcome (List (PendingAlert D)) × Store D
      → Finished D
  and_payments w settings rules (ok alerts, store) =
      let last = ingest_payments w settings rules (length alerts) store in
      record last { events = record_each w settings 0 alerts ++ last.events }
  and_payments w settings rules (err, store) = stopped err store
  and_payments w settings rules (panic, store) = stopped panic store

  unfoldable pub run_once : World D → Settings D → Store D → Finished D
  unfolding snapshots_tx
  run_once w settings store = elim w.pools [
    | err ↦ stopped err store
    | panic ↦ stopped panic store
    | ok pools ↦ elim w.assets [
      | err ↦ stopped err store
      | panic ↦ stopped panic store
      | ok assets ↦
          let rules = rules_or_empty w.rules in
          and_payments w settings rules
            (transact w.commits (snapshots_tx w settings rules pools assets) store)
    ]
  ]
