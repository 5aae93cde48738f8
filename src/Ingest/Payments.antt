-- ===== src/Ingest/Payments.antt =====
-- No whale payment is missed, src/bin/ingest.rs `ingest_payments`.
use lumina_analytics.Prelude.{
  ℕ, ◌+◌, String, ◌≡◌, refl, ap, sym, ◌∙◌, inl, inr, Bool, true, Option, none, some, List, [], ◌∷◌,
  ◌++◌, All, Holds, arith, Bool-cases, Option-cases, eq_iff, eq_refl,
}
use mathlib.Core.Path.{subst}
use mathlib.Core.Option.{some-injective}
use lumina_analytics.Prelude.Outcome.{ok}
use lumina_analytics.Prelude.Assoc.{string_eq}
use lumina_analytics.Decimal.{DecimalOps, ◌≼◌}
use lumina_analytics.Models.{AlertRuleRow}
use lumina_analytics.Logic.{whale_amount}
use lumina_analytics.Horizon.{PaymentRecord}
use lumina_analytics.Db.{Store, WhaleTransaction, any, same_whale, insert_whale_transaction}
use lumina_analytics.Db.Transaction.{
  Statement, Session, and_then-eq-ok, lift-eq-ok, execute-eq-ok, insert_whale, execute, lift,
  and_then,
}
use lumina_analytics.Ingest.{
  PendingAlert, threshold_of, whale_row, whale_alert, ingest_amount, ingest_raw_amount,
  ingest_whale_payment, ingest_each_payment, push_alert,
}

pub any-Holds :
    {A : Type 0} (p : A → Bool) (xs : List A)
    → any p xs ≡ true
    → (x : A) × Holds x xs × (p x ≡ true)
any-Holds p [] h = cc
any-Holds p (x ∷ xs) h = elim (Bool-cases (p x)) [
  | inl t ↦ (x, inl refl, t)
  | inr t ↦ let (y, m, q) = any-Holds p xs (ground arith) in (y, inr m, q)
]

pub Holds-append_left : {A : Type 0} (a : A) (xs ys : List A) → Holds a xs → Holds a (xs ++ ys)
Holds-append_left a [] ys m = absurd m
Holds-append_left a (x ∷ xs) ys (inl e) = inl e
Holds-append_left a (x ∷ xs) ys (inr m) = inr (Holds-append_left a xs ys m)

pub Holds-append_last : {A : Type 0} (a : A) (xs : List A) → Holds a (xs ++ a ∷ [])
Holds-append_last a [] = inl refl
Holds-append_last a (x ∷ xs) = inr (Holds-append_last a xs)

abbrev pub last_token : String → List PaymentRecord → String
last_token cursor [] = cursor
last_token cursor (p ∷ payments) = last_token p.paging_token payments

module _ {D : Type 0} ⦃d : DecimalOps D⦄ where
  -- A payment whose amount is at least the threshold that the rules set for its asset.
  abbrev pub IsWhale : D → List (AlertRuleRow D) → PaymentRecord → Type 0
  IsWhale default_threshold rules p =
      (raw : String) × (amount : D) × (p.amount ≡ some raw)
      × (d.from_str raw ≡ some amount)
      × (p.op_type ≡ "payment")
      × (threshold_of p default_threshold rules ≼ amount)

  abbrev pub Recorded : Store D → PaymentRecord → Type 0
  Recorded s p = (row : WhaleTransaction D) × Holds row s.whale_transactions × (row.op_id ≡ p.id)

  -- Whale rows are only added.
  abbrev pub Keeps : Store D → Store D → Type 0
  Keeps s s' =
      (row : WhaleTransaction D) → Holds row s.whale_transactions → Holds row s'.whale_transactions

  insert_whale-Recorded :
      (row : WhaleTransaction D) (s s' : Store D) {new : Bool}
      → insert_whale_transaction row s ≡ (new, s')
      → Keeps s s'
        × ((r : WhaleTransaction D) × Holds r s'.whale_transactions × (r.op_id ≡ row.op_id))
  unfolding insert_whale_transaction same_whale
  insert_whale-Recorded row s s' {new} h =
      elim (Bool-cases (any (same_whale row) s.whale_transactions)) [
        | inl t ↦
            let e : s ≡ s' = ground arith in
            let (r, m, q) = any-Holds (same_whale row) s.whale_transactions t in
            (
              λ x k. subst (λ (z : Store D). Holds x z.whale_transactions) e k,
              (
                r,
                subst (λ (z : Store D). Holds r z.whale_transactions) e m,
                ground (arith, eq_iff r.op_id row.op_id),
              ),
            )
        | inr t ↦
            let e : s.whale_transactions ++ (row ∷ []) ≡ s'.whale_transactions = ground arith in
            (
              λ x k. subst (Holds x) e (Holds-append_left x s.whale_transactions (row ∷ []) k),
              (row, subst (Holds row) e (Holds-append_last row s.whale_transactions), refl),
            )
      ]

  whale_amount-IsWhale :
      (p : PaymentRecord) (default_threshold parsed_amount : D) (rules : List (AlertRuleRow D))
      (raw : String)
      → p.amount ≡ some raw
      → d.from_str raw ≡ some parsed_amount
      → whale_amount p.op_type (some parsed_amount) (threshold_of p default_threshold rules) ≡ none
      → IsWhale default_threshold rules p
      → ⊥
  unfolding whale_amount
  whale_amount-IsWhale p dt a rules raw e f h (raw', a', e', f', is_payment, above) =
      let same_raw : raw ≡ raw' = some-injective _ _ (sym e ∙ e') in
      let same : a ≡ a' = some-injective _ _ (sym f ∙ (ap d.from_str same_raw ∙ f')) in
      let above' : threshold_of p dt rules ≼ a =
        subst (λ x. threshold_of p dt rules ≼ x) (sym same) above in
      ground (arith, eq_refl p.op_type, eq_iff p.op_type "payment")

  module _ (accepts : Statement D → Bool) where
    insert_step-Recorded :
        (row : WhaleTransaction D) (threshold : D) (s s' : Session D)
        {alert : Option (PendingAlert D)}
        → and_then
            (execute accepts (insert_whale row) (insert_whale_transaction row) s)
            (λ inserted. lift (whale_alert row threshold inserted))
          ≡ (ok alert, s')
        → Keeps s.store s'.store
          × ((r : WhaleTransaction D) × Holds r s'.store.whale_transactions × (r.op_id ≡ row.op_id))
    insert_step-Recorded row threshold s s' h =
        let (new, after, x, last) =
          and_then-eq-ok (execute accepts (insert_whale row) (insert_whale_transaction row) s)
            (λ inserted. lift (whale_alert row threshold inserted)) h in
        let (changed, still_open, accepted) =
          execute-eq-ok accepts _ (insert_whale_transaction row) s x in
        subst
          (λ (z : Session D).
            Keeps s.store z.store
            × ((r : WhaleTransaction D) × Holds r z.store.whale_transactions
                × (r.op_id ≡ row.op_id)))
          (lift-eq-ok (whale_alert row threshold new) after last).1
          (insert_whale-Recorded row s.store after.store changed)

    abbrev pub Progress : D → List (AlertRuleRow D) → PaymentRecord → Store D → Store D → Type 0
    Progress default_threshold rules p s s' =
        Keeps s s' × (IsWhale default_threshold rules p → Recorded s' p)

    unchanged-Progress :
        (dt : D) (rules : List (AlertRuleRow D)) (p : PaymentRecord) (s s' : Session D)
        → s ≡ s'
        → (IsWhale dt rules p → ⊥)
        → Progress dt rules p s.store s'.store
    unchanged-Progress dt rules p s s' e none_due = (
      λ x k. subst (λ (z : Session D). Holds x z.store.whale_transactions) e k,
      λ w. absurd (none_due w),
    )

    ingest_amount-Recorded :
        (time : ℕ) (p : PaymentRecord) (dt : D) (rules : List (AlertRuleRow D)) (raw : String)
        (a : D) (s s' : Session D) {alert : Option (PendingAlert D)}
        → p.amount ≡ some raw
        → d.from_str raw ≡ some a
        → ingest_amount accepts time p (threshold_of p dt rules) a s ≡ (ok alert, s')
        → Progress dt rules p s.store s'.store
    unfolding ingest_amount whale_row
    ingest_amount-Recorded time p dt rules raw a s s' e f h =
        elim (Option-cases (whale_amount p.op_type (some a) (threshold_of p dt rules))) [
          | inl q ↦
              unchanged-Progress dt rules p s s' (ap (λ r. r.1) (rw (q, ingest_amount) at h))
                (whale_amount-IsWhale p dt a rules raw e f q)
          | inr (b, q) ↦
              let (keeps, recorded) =
                insert_step-Recorded (whale_row time p b) (threshold_of p dt rules) s s'
                  (rw (q, ingest_amount) at h) in
              (keeps, λ w. recorded)
        ]

    ingest_raw_amount-Recorded :
        (time : ℕ) (p : PaymentRecord) (dt : D) (rules : List (AlertRuleRow D))
        (raw : Option String) (s s' : Session D) {alert : Option (PendingAlert D)}
        → p.amount ≡ raw
        → ingest_raw_amount accepts time p (threshold_of p dt rules) raw s ≡ (ok alert, s')
        → Progress dt rules p s.store s'.store
    unfolding ingest_raw_amount
    ingest_raw_amount-Recorded time p dt rules none s s' e h =
        unchanged-Progress dt rules p s s' (ap (λ r. r.1) h) (λ w. cc)
    ingest_raw_amount-Recorded time p dt rules (some raw) s s' e h =
        elim (Option-cases (d.from_str raw)) [
          | inl f ↦ absurd (ground (arith, rw (f, ingest_raw_amount) at h))
          | inr (a, f) ↦
              ingest_amount-Recorded time p dt rules raw a s s' e f (rw (f, ingest_raw_amount) at h)
        ]

    ingest_whale_payment-Recorded :
        (time : ℕ) (p : PaymentRecord) (dt : D) (rules : List (AlertRuleRow D)) (s s' : Session D)
        {alert : Option (PendingAlert D)}
        → ingest_whale_payment accepts time p dt rules s ≡ (ok alert, s')
        → Progress dt rules p s.store s'.store
    unfolding ingest_whale_payment
    ingest_whale_payment-Recorded time p dt rules s s' h =
        ingest_raw_amount-Recorded time p dt rules p.amount s s' refl h

    pub ingest_each_payment-Recorded :
        (clock : ℕ → ℕ) (n : ℕ) (payments : List PaymentRecord) (dt : D)
        (rules : List (AlertRuleRow D)) (alerts alerts' : List (PendingAlert D))
        (cursor cursor' : String) (s s' : Session D)
        → ingest_each_payment accepts clock n payments dt rules alerts cursor s
          ≡ (ok (alerts', cursor'), s')
        → Keeps s.store s'.store
          × All (λ p. IsWhale dt rules p → Recorded s'.store p) payments
          × (cursor' ≡ last_token cursor payments)
    unfolding ingest_each_payment
    ingest_each_payment-Recorded clock n [] dt rules alerts alerts' cursor cursor' s s' h = (
      λ x k. subst (λ (z : Session D). Holds x z.store.whale_transactions) (ap (λ r. r.1) h) k,
      tt,
      cc,
    )
    ingest_each_payment-Recorded clock n (p ∷ payments) dt rules alerts alerts' cursor cursor' s s'
          h =
        let (alert, mid, x, h') =
          and_then-eq-ok (ingest_whale_payment accepts (clock n) p dt rules s) _ h in
        let (keeps, recorded) = ingest_whale_payment-Recorded (clock n) p dt rules s mid x in
        let (keeps', all_recorded, last) =
          ingest_each_payment-Recorded clock (n + 1) payments dt rules (push_alert alert alerts)
            alerts' p.paging_token cursor' mid s' h' in
        (
          λ row k. keeps' row (keeps row k),
          (λ w. let (row, m, same) = recorded w in (row, keeps' row m, same), all_recorded),
          last,
        )
