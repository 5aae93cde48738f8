-- ===== src/Ingest/Commit.antt =====
-- What `ingest_payments` leaves in the tables, src/bin/ingest.rs: the cursor and the whale rows
-- advance together, or neither does.
use lumina_analytics.Prelude.{
  ℕ, String, ◌≡◌, refl, ap, sym, ◌∙◌, ◌⊎◌, inl, inr, Bool, true, false, some, List, [], ◌∷◌, All,
}
use mathlib.Core.Path.{subst}
use lumina_analytics.Prelude.Outcome.{Outcome, ok, err, panic}
use lumina_analytics.Prelude.Assoc.{string_eq, lookup-insert_self}
use lumina_analytics.Decimal.{DecimalOps}
use lumina_analytics.Models.{AlertRuleRow}
use lumina_analytics.Horizon.{PaymentRecord, payments_since}
use lumina_analytics.Db.{Store, get_ingest_cursor, set_ingest_cursor}
use lumina_analytics.Db.Transaction.{
  Session, and_then-eq-ok, execute-eq-ok, upsert_cursor, update, select_cursor,
}
use lumina_analytics.Ingest.{
  PendingAlert, payments_cursor_key, max_pages_per_cycle, ingest_each_payment,
}
use lumina_analytics.Ingest.Payments.{
  last_token, IsWhale, Recorded, Keeps, ingest_each_payment-Recorded,
}
use lumina_analytics.Ingest.Cycle.{
  World, Settings, Finished, finish, transact, payments_tx, after_payments, ingest_payments,
}

module _ {D : Type 0} ⦃d : DecimalOps D⦄ (w : World D) (settings : Settings D)
    (rules : List (AlertRuleRow D)) where
  -- The tables after the payments have been taken in: the cursor is behind the last of them, no whale
  -- row is lost, and each payment of whale size has a row with its operation's id.
  abbrev pub Advanced : Store D → String → List PaymentRecord → Store D → Type 0
  Advanced before cursor payments after =
      (get_ingest_cursor payments_cursor_key after ≡ some (last_token cursor payments))
      × Keeps before after
      × All (λ p. IsWhale settings.whale_threshold rules p → Recorded after p) payments

  set_ingest_cursor-lem :
      (value : String) (s : Store D)
      → get_ingest_cursor payments_cursor_key (set_ingest_cursor payments_cursor_key value s)
        ≡ some value
  unfolding get_ingest_cursor set_ingest_cursor
  set_ingest_cursor-lem value s = lookup-insert_self payments_cursor_key value s.ingest_state

  payments_tx-Advanced :
      (cursor : String) (payments : List PaymentRecord) (s s' : Session D)
      {alerts : List (PendingAlert D)}
      → payments_tx w settings rules cursor payments s ≡ (ok alerts, s')
      → (s'.failed ≡ false) × Advanced s.store cursor payments s'.store
  unfolding payments_tx set_ingest_cursor
  payments_tx-Advanced cursor payments s s' h =
      let ((alerts, last), mid, x, h') =
        and_then-eq-ok
          (ingest_each_payment w.accepts w.clock 0 payments settings.whale_threshold rules [] cursor
            s)
          _ h in
      let (keeps, recorded, token) =
        ingest_each_payment-Recorded w.accepts w.clock 0 payments settings.whale_threshold rules []
          alerts cursor last s mid x in
      let (u, after, y, done) =
        and_then-eq-ok
          (update w.accepts (upsert_cursor payments_cursor_key last)
            (set_ingest_cursor payments_cursor_key last) mid)
          _ h' in
      let (changed, still_open, accepted) =
        execute-eq-ok w.accepts (upsert_cursor payments_cursor_key last)
          (λ store. (tt, set_ingest_cursor payments_cursor_key last store)) mid y in
      let advanced : Advanced s.store cursor payments
          (set_ingest_cursor payments_cursor_key last mid.store) =
        (set_ingest_cursor-lem last mid.store ∙ ap some token, keeps, recorded) in
      subst (λ (z : Session D). (z.failed ≡ false) × Advanced s.store cursor payments z.store)
        (ap (λ r. r.1) done)
        (still_open, subst (Advanced s.store cursor payments) (ap (λ r. r.1) changed) advanced)

  -- Either the operation returns and its transaction is in the tables, or it does not return and the
  -- tables are as before.
  abbrev pub AllOrNothing : (Store D → Type 0) → Store D → Finished D → Type 0
  AllOrNothing Q before r =
      ((r.outcome ≡ ok tt) × Q r.store) ⊎ ((r.outcome ≡ ok tt → ⊥) × (r.store ≡ before))

  finish-AllOrNothing :
      (Q : Store D → Type 0) (commits : Bool) (n : ℕ) (before : Store D)
      (r : Outcome (List (PendingAlert D)) × Session D)
      → ((alerts : List (PendingAlert D)) (s : Session D)
          → r ≡ (ok alerts, s)
          → (s.failed ≡ false) × Q s.store)
      → AllOrNothing Q before (after_payments w settings n (finish commits before r))
  finish-AllOrNothing Q true n before (ok alerts, s) f =
      let (open_, q) = f alerts s refl in inl (rw open_ (refl, q))
  finish-AllOrNothing Q false n before (ok alerts, s) f = inr (λ e. cc, refl)
  finish-AllOrNothing Q commits n before (err, s) f = inr (λ e. cc, refl)
  finish-AllOrNothing Q commits n before (panic, s) f = inr (λ e. cc, refl)

  -- Once a cursor is stored and can be read, and Horizon returns payments after it: if `ingest_payments` returns, then
  -- the stored cursor is the token of the last of these payments, every payment among them whose
  -- amount is at least the threshold for its asset has a row in `whale_transactions`, and no earlier
  -- row is lost; if it does not return, the tables are unchanged.
  pub ingest_payments-Advanced :
      (n : ℕ) (before : Store D) (cursor : String) (p : PaymentRecord)
      (payments : List PaymentRecord)
      → w.accepts (select_cursor payments_cursor_key) ≡ true
      → get_ingest_cursor payments_cursor_key before ≡ some cursor
      → payments_since w.payments settings.horizon_url (some cursor) max_pages_per_cycle
        ≡ ok (p ∷ payments)
      → AllOrNothing
          (Advanced before cursor (p ∷ payments))
          before
          (ingest_payments w settings rules n before)
  unfolding ingest_payments transact
  ingest_payments-Advanced n before cursor p payments a c h =
      let runs : ingest_payments w settings rules n before
          ≡ after_payments w settings n
              (transact w.commits (payments_tx w settings rules cursor (p ∷ payments)) before) =
        rw (a, c, h, ingest_payments) refl in
      subst (AllOrNothing (Advanced before cursor (p ∷ payments)) before) (sym runs) (
        finish-AllOrNothing (Advanced before cursor (p ∷ payments)) w.commits n before
          (payments_tx w settings rules cursor (p ∷ payments)
            (record { store = before; failed = false }))
          (λ alerts s e.
            payments_tx-Advanced cursor (p ∷ payments) (record { store = before; failed = false }) s
              e))
