-- ===== src/Ingest/Frame.antt =====
-- What the prices and the payments of src/bin/ingest.rs leave alone: the snapshots.
use lumina_analytics.Prelude.{
  ℕ, String, ◌≡◌, refl, ◌∙◌, inl, inr, Bool, true, false, not, ◌&&◌, some, List, [], ◌∷◌, arith,
  Bool-cases, Option-cases,
}
use lumina_analytics.Prelude.Outcome.{Outcome, ok, err, panic, Outcome-cases}
use lumina_analytics.Decimal.{DecimalOps}
use lumina_analytics.Models.{AlertRuleRow}
use lumina_analytics.Horizon.{LiquidityPool, PaymentRecord, latest_payments_page, payments_since}
use lumina_analytics.Pricing.Hops.{PriceRow, ingest_prices}
use lumina_analytics.Db.{
  Store, WhaleTransaction, insert_whale_transaction, insert_asset_price, get_ingest_cursor,
  set_ingest_cursor,
}
use lumina_analytics.Db.Transaction.{Session, insert_price, select_cursor, upsert_cursor}
use lumina_analytics.Ingest.{PendingAlert, payments_cursor_key, max_pages_per_cycle}
use lumina_analytics.Ingest.Cycle.{
  World, Settings, finish, transact, insert_prices, prices_tx, payments_tx, after_payments,
  ingest_payments, seed,
}
use lumina_analytics.Ingest.Steps.{SameSnapshots, Onward, Steps, Kept, Onward-Kept}
use lumina_analytics.Ingest.Loops.{payments_tx-Steps}

module _ {D : Type 0} where
  pub same_refl : (s : Store D) → SameSnapshots s s
  same_refl s = (refl, refl)

  pub same_trans : (a b c : Store D) → SameSnapshots a b → SameSnapshots b c → SameSnapshots a c
  same_trans a b c (f, g) (f', g') = (f' ∙ f, g' ∙ g)

  insert_prices-SameSnapshots :
      ⦃d : DecimalOps D⦄ (time : ℕ) (rows : List (PriceRow D)) (s : Store D)
      → SameSnapshots s (insert_prices time rows s)
  unfolding insert_prices insert_asset_price
  insert_prices-SameSnapshots time [] s = (refl, refl)
  insert_prices-SameSnapshots time (row ∷ rows) s =
      insert_prices-SameSnapshots time rows (insert_asset_price time row s)

  insert_whale-SameSnapshots :
      (row : WhaleTransaction D) (s : Store D) → SameSnapshots s (insert_whale_transaction row s).1
  unfolding insert_whale_transaction
  insert_whale-SameSnapshots row s = (ground arith, ground arith)

  set_ingest_cursor-SameSnapshots :
      (key value : String) (s : Store D) → SameSnapshots s (set_ingest_cursor key value s)
  unfolding set_ingest_cursor
  set_ingest_cursor-SameSnapshots key value s = (refl, refl)

module _ {D : Type 0} ⦃d : DecimalOps D⦄ (w : World D) (settings : Settings D)
    (rules : List (AlertRuleRow D)) where
  same : Kept w.accepts SameSnapshots (Onward SameSnapshots)
  same = Onward-Kept w.accepts SameSnapshots same_refl same_trans

  pub prices_tx-SameSnapshots :
      (enabled : Bool) (pools : List LiquidityPool)
      → Steps (Onward SameSnapshots) (prices_tx w enabled pools)
  unfolding prices_tx
  prices_tx-SameSnapshots false pools s = (λ e. e, same_refl s.store)
  prices_tx-SameSnapshots true pools s =
      elim (Outcome-cases (
        ingest_prices (λ row. not s.failed && w.accepts (insert_price w.now row)) w.iter w.xlm_usd
          pools)) [
            | inl (stored, e) ↦
                rw (e, prices_tx) (λ f. f, insert_prices-SameSnapshots w.now stored.0 s.store)
            | inr (inl e) ↦ elim (Outcome-cases w.xlm_usd) [
              | inl (usd, x) ↦ rw (e, x, prices_tx) (λ f. refl, same_refl s.store)
              | inr (inl x) ↦ rw (e, x, prices_tx) (λ f. f, same_refl s.store)
              | inr (inr x) ↦ rw (e, x, prices_tx) (λ f. f, same_refl s.store)
            ]
            | inr (inr e) ↦ rw (e, prices_tx) (λ f. f, same_refl s.store)
          ]

  finish-SameSnapshots :
      (commits : Bool) (n : ℕ) (before : Store D) (r : Outcome (List (PendingAlert D)) × Session D)
      → SameSnapshots before r.1.store
      → SameSnapshots before (after_payments w settings n (finish commits before r)).store
  finish-SameSnapshots true n before (ok alerts, s) h = elim (Bool-cases s.failed) [
    | inl f ↦ rw f (same_refl before)
    | inr f ↦ rw f h
  ]
  finish-SameSnapshots false n before (ok alerts, s) h = same_refl before
  finish-SameSnapshots commits n before (err, s) h = same_refl before
  finish-SameSnapshots commits n before (panic, s) h = same_refl before

  seed-SameSnapshots :
      (latest : List PaymentRecord) (before : Store D)
      → SameSnapshots before (seed w latest before).store
  seed-SameSnapshots [] before = same_refl before
  seed-SameSnapshots (newest ∷ rest) before =
      elim (Bool-cases (w.accepts (upsert_cursor payments_cursor_key newest.paging_token))) [
        | inl e ↦
            rw e (set_ingest_cursor-SameSnapshots payments_cursor_key newest.paging_token before)
        | inr e ↦ rw e (same_refl before)
      ]

  since-SameSnapshots :
      (n : ℕ) (before : Store D) (cursor : String) (payments : List PaymentRecord)
      → w.accepts (select_cursor payments_cursor_key) ≡ true
      → get_ingest_cursor payments_cursor_key before ≡ some cursor
      → payments_since w.payments settings.horizon_url (some cursor) max_pages_per_cycle
        ≡ ok payments
      → SameSnapshots before (ingest_payments w settings rules n before).store
  unfolding ingest_payments transact
  since-SameSnapshots n before cursor [] a c e = rw (a, c, e, ingest_payments) (same_refl before)
  since-SameSnapshots n before cursor (p ∷ rest) a c e =
      let start : Session D = record { store = before; failed = false } in
      let (still, unchanged) =
        payments_tx-Steps w same rules insert_whale-SameSnapshots set_ingest_cursor-SameSnapshots
          settings cursor (p ∷ rest) start in
      rw (a, c, e, ingest_payments)
        (finish-SameSnapshots w.commits n before
          (payments_tx w settings rules cursor (p ∷ rest) start) unchanged)

  pub ingest_payments-SameSnapshots :
      (n : ℕ) (before : Store D)
      → SameSnapshots before (ingest_payments w settings rules n before).store
  unfolding ingest_payments
  ingest_payments-SameSnapshots n before =
      elim (Bool-cases (w.accepts (select_cursor payments_cursor_key))) [
        | inr a ↦ rw (a, ingest_payments) (same_refl before)
        | inl a ↦ elim (Option-cases (get_ingest_cursor payments_cursor_key before)) [
          | inl c ↦
              elim (Outcome-cases (latest_payments_page w.payments settings.horizon_url "1")) [
                | inl (latest, e) ↦ rw (a, c, e, ingest_payments) (seed-SameSnapshots latest before)
                | inr (inl e) ↦ rw (a, c, e, ingest_payments) (same_refl before)
                | inr (inr e) ↦ rw (a, c, e, ingest_payments) (same_refl before)
              ]
          | inr (cursor, c) ↦
              elim (Outcome-cases (
                payments_since w.payments settings.horizon_url (some cursor) max_pages_per_cycle)) [
                  | inl (payments, e) ↦ since-SameSnapshots n before cursor payments a c e
                  | inr (inl e) ↦ rw (a, c, e, ingest_payments) (same_refl before)
                  | inr (inr e) ↦ rw (a, c, e, ingest_payments) (same_refl before)
                ]
        ]
      ]
