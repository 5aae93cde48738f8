-- ===== src/Ingest/Returns.antt =====
-- When `ingest_payments` of src/bin/ingest.rs returns.
use lumina_analytics.Prelude.{
  ℕ, ◌+◌, String, ◌≡◌, refl, ap, sym, ◌∙◌, ◌⊎◌, inl, inr, Bool, true, false, Option, none, some,
  List, [], ◌∷◌, All, arith, Option-cases,
}
use mathlib.Core.Path.{subst}
use lumina_analytics.Prelude.Outcome.{Outcome, ok, Outcome-cases}
use lumina_analytics.Decimal.{DecimalOps}
use lumina_analytics.Models.{AlertRuleRow}
use lumina_analytics.Logic.{whale_amount}
use lumina_analytics.Alerts.{Severity, severity_for_whale_multiple}
use lumina_analytics.Horizon.{PaymentRecord, payments_since}
use lumina_analytics.Db.{
  Store, WhaleTransaction, insert_whale_transaction, get_ingest_cursor, set_ingest_cursor,
}
use lumina_analytics.Db.Transaction.{
  Statement, Session, Tx, and_then, execute, insert_whale, lift, select_cursor, upsert_cursor,
}
use lumina_analytics.Ingest.{
  payments_cursor_key, max_pages_per_cycle, PendingAlert, threshold_of, whale_row, whale_alert,
  ingest_amount, ingest_raw_amount, ingest_whale_payment, ingest_each_payment, push_alert,
}
use lumina_analytics.Ingest.Cycle.{
  World, Settings, finish, transact, payments_tx, after_payments, ingest_payments,
}
use lumina_analytics.Ingest.Commit.{Advanced, ingest_payments-Advanced}

module _ {D : Type 0} ⦃d : DecimalOps D⦄ (accepts : Statement D → Bool)
    (accepted : (st : Statement D) → accepts st ≡ true) where
  -- A body that returns and leaves the transaction open.
  abbrev pub Succeeds : {A : Type 0} → Tx D A → Session D → Type 0
  Succeeds {A} body s = (a : A) × (s' : Session D) × (body s ≡ (ok a, s')) × (s'.failed ≡ false)

  -- The amount of the payment, if it has one, is a number, and can be compared with the threshold.
  abbrev pub Readable : D → List (AlertRuleRow D) → PaymentRecord → Type 0
  Readable default_threshold rules p =
      (p.amount ≡ none)
      ⊎ ((raw : String) × (a : D) × (p.amount ≡ some raw)
          × (d.from_str raw ≡ some a)
          × ((severity : Severity) × (severity_for_whale_multiple a
                  (threshold_of p default_threshold rules)
                ≡ some severity)))

  whale_alert-returns :
      (row : WhaleTransaction D) (threshold : D) (new : Bool) (severity : Severity)
      → severity_for_whale_multiple row.amount threshold ≡ some severity
      → (alert : Option (PendingAlert D)) × (whale_alert row threshold new ≡ ok alert)
  unfolding whale_alert
  whale_alert-returns row threshold false severity e = (none, refl)
  whale_alert-returns row threshold true severity e =
      elim (Outcome-cases (whale_alert row threshold true)) [
        | inl found ↦ found
        | inr (inl q) ↦ absurd (ground (arith, rw (e, whale_alert) at q))
        | inr (inr q) ↦ absurd (ground (arith, rw (e, whale_alert) at q))
      ]

  whale_amount-same :
      (op_type : String) (amount threshold b : D)
      → whale_amount op_type (some amount) threshold ≡ some b
      → amount ≡ b
  unfolding whale_amount
  whale_amount-same op_type amount threshold b h = ground arith

  insert_step-Succeeds :
      (row : WhaleTransaction D) (threshold : D) (s : Session D) (severity : Severity)
      → s.failed ≡ false
      → severity_for_whale_multiple row.amount threshold ≡ some severity
      → (alert : Option (PendingAlert D)) × (s' : Session D) × (and_then
            (execute accepts (insert_whale row) (insert_whale_transaction row) s)
            (λ inserted. lift (whale_alert row threshold inserted))
          ≡ (ok alert, s'))
        × (s'.failed ≡ false)
  unfolding execute
  insert_step-Succeeds row threshold s severity open_ e =
      let (new, after) = insert_whale_transaction row s.store in
      let (alert, returned) = whale_alert-returns row threshold new severity e in
      let s' : Session D = record { store = after; failed = false } in
      (
        alert,
        s',
        rw (open_, accepted (insert_whale row), execute) (ap (λ o. (o, s')) returned),
        refl,
      )

  ingest_amount-Succeeds :
      (time : ℕ) (p : PaymentRecord) (threshold a : D) (s : Session D) (severity : Severity)
      → s.failed ≡ false
      → severity_for_whale_multiple a threshold ≡ some severity
      → Succeeds (ingest_amount accepts time p threshold a) s
  unfolding ingest_amount whale_row
  ingest_amount-Succeeds time p threshold a s severity open_ e =
      elim (Option-cases (whale_amount p.op_type (some a) threshold)) [
        | inl q ↦ (none, s, rw (q, ingest_amount) refl, open_)
        | inr (b, q) ↦
            let same : a ≡ b = whale_amount-same p.op_type a threshold b q in
            let (alert, s', done, still) =
              insert_step-Succeeds (whale_row time p b) threshold s severity open_
                (subst (λ x. severity_for_whale_multiple x threshold ≡ some severity) same e) in
            (alert, s', rw (q, ingest_amount) done, still)
      ]

  ingest_raw_amount-Succeeds :
      (time : ℕ) (p : PaymentRecord) (threshold : D) (raw : String) (a : D) (s : Session D)
      (severity : Severity)
      → s.failed ≡ false
      → d.from_str raw ≡ some a
      → severity_for_whale_multiple a threshold ≡ some severity
      → Succeeds (ingest_raw_amount accepts time p threshold (some raw)) s
  unfolding ingest_raw_amount
  ingest_raw_amount-Succeeds time p threshold raw a s severity open_ f g =
      let (alert, s', done, still) = ingest_amount-Succeeds time p threshold a s severity open_ g in
      (alert, s', rw (f, ingest_raw_amount) done, still)

  ingest_whale_payment-Succeeds :
      (time : ℕ) (p : PaymentRecord) (default_threshold : D) (rules : List (AlertRuleRow D))
      (s : Session D)
      → s.failed ≡ false
      → Readable default_threshold rules p
      → Succeeds (ingest_whale_payment accepts time p default_threshold rules) s
  unfolding ingest_whale_payment ingest_raw_amount
  ingest_whale_payment-Succeeds time p dt rules s open_ (inl e) =
      (none, s, rw (e, ingest_raw_amount) refl, open_)
  ingest_whale_payment-Succeeds time p dt rules s open_ (inr (raw, a, e, f, (severity, g))) =
      subst (λ o. Succeeds (ingest_raw_amount accepts time p (threshold_of p dt rules) o) s) (sym e)
        (ingest_raw_amount-Succeeds time p (threshold_of p dt rules) raw a s severity open_ f g)

  pub ingest_each_payment-Succeeds :
      (clock : ℕ → ℕ) (n : ℕ) (payments : List PaymentRecord) (dt : D)
      (rules : List (AlertRuleRow D)) (alerts : List (PendingAlert D)) (cursor : String)
      (s : Session D)
      → s.failed ≡ false
      → All (Readable dt rules) payments
      → Succeeds (ingest_each_payment accepts clock n payments dt rules alerts cursor) s
  unfolding ingest_each_payment
  ingest_each_payment-Succeeds clock n [] dt rules alerts cursor s open_ h =
      ((alerts, cursor), s, refl, open_)
  ingest_each_payment-Succeeds clock n (p ∷ payments) dt rules alerts cursor s open_ (h, hs) =
      let (alert, mid, first, still) =
        ingest_whale_payment-Succeeds (clock n) p dt rules s open_ h in
      let (r, s', rest, last) =
        ingest_each_payment-Succeeds clock (n + 1) payments dt rules (push_alert alert alerts)
          p.paging_token mid still hs in
      (r, s', rw (first, ingest_each_payment) rest, last)

module _ {D : Type 0} ⦃d : DecimalOps D⦄ (w : World D) (settings : Settings D)
    (rules : List (AlertRuleRow D)) where
  payments_tx-Succeeds :
      (accepted : (st : Statement D) → w.accepts st ≡ true) (cursor : String)
      (payments : List PaymentRecord) (s : Session D)
      → s.failed ≡ false
      → All (Readable w.accepts accepted settings.whale_threshold rules) payments
      → Succeeds w.accepts accepted (payments_tx w settings rules cursor payments) s
  unfolding payments_tx execute
  payments_tx-Succeeds accepted cursor payments s open_ readable =
      let (done, mid, ran, still) =
        ingest_each_payment-Succeeds w.accepts accepted w.clock 0 payments settings.whale_threshold
          rules [] cursor s open_ readable in
      (
        done.0,
        record { store = set_ingest_cursor payments_cursor_key done.1 mid.store; failed = false },
        rw (ran, still, accepted (upsert_cursor payments_cursor_key done.1), payments_tx, execute)
            refl,
        refl,
      )

  finish-returns :
      (n : ℕ) (before : Store D) (r : Outcome (List (PendingAlert D)) × Session D)
      {alerts : List (PendingAlert D)} {s : Session D}
      → r ≡ (ok alerts, s)
      → (after_payments w settings n (finish true before r)).outcome ≡ ok tt
  finish-returns n before r e = rw e refl

  -- If the database accepts every statement and the commit, and each fetched payment has no amount or
  -- one that is a number and can be graded without overflow, then `ingest_payments` returns: the
  -- cursor is the token of the last payment, every payment of whale size has a row, and no earlier
  -- row is lost.
  pub ingest_payments-Succeeds :
      (n : ℕ) (before : Store D) (cursor : String) (p : PaymentRecord)
      (payments : List PaymentRecord) (accepted : (st : Statement D) → w.accepts st ≡ true)
      → w.commits ≡ true
      → get_ingest_cursor payments_cursor_key before ≡ some cursor
      → payments_since w.payments settings.horizon_url (some cursor) max_pages_per_cycle
        ≡ ok (p ∷ payments)
      → All (Readable w.accepts accepted settings.whale_threshold rules) (p ∷ payments)
      → ((ingest_payments w settings rules n before).outcome ≡ ok tt)
        × Advanced w settings rules before cursor
            (p ∷ payments)
            (ingest_payments w settings rules n before).store
  unfolding ingest_payments transact
  ingest_payments-Succeeds n before cursor p payments accepted commits c h readable =
      let start : Session D = record { store = before; failed = false } in
      let (alerts, s', ran, still) =
        payments_tx-Succeeds accepted cursor (p ∷ payments) start refl readable in
      let runs : ingest_payments w settings rules n before
          ≡ after_payments w settings n
              (transact true (payments_tx w settings rules cursor (p ∷ payments)) before) =
        rw (accepted (select_cursor payments_cursor_key), c, h, commits, ingest_payments) refl in
      let returned : (ingest_payments w settings rules n before).outcome ≡ ok tt =
        ap (λ r. r.outcome) runs
        ∙ finish-returns n before (payments_tx w settings rules cursor (p ∷ payments) start) ran in
      elim (ingest_payments-Advanced w settings rules n before cursor p payments
        (accepted (select_cursor payments_cursor_key)) c h) [
          | inl (e, q) ↦ (e, q)
          | inr (stuck, same) ↦ absurd (stuck returned)
        ]
