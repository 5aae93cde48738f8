-- ===== src/Ingest/Replay.antt =====
-- A payment that is taken in again, src/bin/ingest.rs `ingest_whale_payment`.
use lumina_analytics.Prelude.{
  ℕ, ◌<◌, String, ◌≡◌, refl, Bool, true, false, some, List, [], ◌∷◌, ◌++◌, All, arith, eq_iff,
}
use lumina_analytics.Decimal.{DecimalOps}
use lumina_analytics.Models.{AlertRuleRow}
use lumina_analytics.Logic.{whale_amount}
use lumina_analytics.Horizon.{PaymentRecord}
use lumina_analytics.Db.{WhaleTransaction, any, same_whale, insert_whale_transaction}
use lumina_analytics.Db.Transaction.{Statement, Session, execute, insert_whale}
use lumina_analytics.Ingest.{
  threshold_of, whale_row, ingest_amount, ingest_raw_amount, ingest_whale_payment,
}
use lumina_analytics.Ingest.Payments.{IsWhale}

module _ {D : Type 0} ⦃d : DecimalOps D⦄ where
  earlier-not_same :
      (row : WhaleTransaction D) (rows : List (WhaleTransaction D))
      → All (λ (r : WhaleTransaction D). r.time < row.time) rows
      → any (same_whale row) rows ≡ false
  unfolding same_whale
  earlier-not_same row [] h = refl
  earlier-not_same row (r ∷ rows) h = ground (arith, earlier-not_same row rows h.1)

  whale_amount-above :
      (op_type : String) (threshold amount : D)
      → op_type ≡ "payment"
      → d.le threshold amount ≡ true
      → whale_amount op_type (some amount) threshold ≡ some amount
  unfolding whale_amount
  whale_amount-above op_type threshold amount e h = ground (arith, eq_iff op_type "payment")

  module _ (accepts : Statement D → Bool) (time : ℕ) (p : PaymentRecord) (threshold : D) where
    ingest_amount-adds :
        (amount : D) (s : Session D)
        → s.failed ≡ false
        → accepts (insert_whale (whale_row time p amount)) ≡ true
        → p.op_type ≡ "payment"
        → d.le threshold amount ≡ true
        → All (λ (r : WhaleTransaction D). r.time < time) s.store.whale_transactions
        → (ingest_amount accepts time p threshold amount s).1.store.whale_transactions
          ≡ s.store.whale_transactions ++ (whale_row time p amount ∷ [])
    unfolding ingest_amount execute insert_whale_transaction whale_row
    ingest_amount-adds amount s open_ accepted is_payment above earlier =
        rw
          (
            whale_amount-above p.op_type threshold amount is_payment above,
            open_,
            accepted,
            earlier-not_same (whale_row time p amount) s.store.whale_transactions earlier,
            ingest_amount,
          )
          refl

  -- A payment of whale size that is processed later than every row of the table adds a row, accepted
  -- by the database, whether or not the table holds a row with the id of its operation already.
  pub ingest_whale_payment-adds :
      (accepts : Statement D → Bool) (time : ℕ) (p : PaymentRecord) (default_threshold : D)
      (rules : List (AlertRuleRow D)) (s : Session D)
      → ((row : WhaleTransaction D) → accepts (insert_whale row) ≡ true)
      → s.failed ≡ false
      → IsWhale default_threshold rules p
      → All (λ (r : WhaleTransaction D). r.time < time) s.store.whale_transactions
      → (row : WhaleTransaction D) × (row.op_id ≡ p.id)
        × ((ingest_whale_payment accepts time p default_threshold rules
              s).1.store.whale_transactions
            ≡ s.store.whale_transactions ++ (row ∷ []))
  unfolding ingest_whale_payment ingest_raw_amount whale_row
  ingest_whale_payment-adds accepts time p default_threshold rules s accepted open_
        (raw, amount, e, f, is_payment, above) earlier =
      (
        whale_row time p amount,
        refl,
        rw (e, f, ingest_raw_amount)
            (ingest_amount-adds accepts time p (threshold_of p default_threshold rules) amount s
              open_ (accepted (whale_row time p amount)) is_payment above earlier),
      )
