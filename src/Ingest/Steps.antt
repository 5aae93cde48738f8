-- ===== src/Ingest/Steps.antt =====
-- What the statements of one transaction keep, through the handlers of src/bin/ingest.rs: a relation
-- of the session before a step to the one after it, for the snapshots and for the payments.
use lumina_analytics.Prelude.{
  ℕ, ◌+◌, String, ◌≡◌, refl, inl, inr, Bool, true, false, Option, none, some, List, [], ◌∷◌, Holds,
  Bool-cases, Option-cases,
}
use lumina_analytics.Prelude.Outcome.{Outcome, ok, err, panic, parsed}
use lumina_analytics.Decimal.{DecimalOps, dec_zero}
use lumina_analytics.Models.{AlertRuleRow}
use lumina_analytics.Logic.{whale_amount}
use lumina_analytics.Horizon.{LiquidityPool, AssetRecord, PaymentRecord}
use lumina_analytics.Db.{
  Store, WhaleTransaction, PoolRow, PoolSnapshot, TokenSnapshot, upsert_pool, insert_pool_snapshot,
  upsert_token, latest_token_num_accounts, latest_pool_total_shares, insert_token_snapshot,
  insert_whale_transaction,
}
use lumina_analytics.Db.Transaction.{
  Statement, Session, Tx, lift, execute, and_then, query, update, select_token_accounts,
  upsert_token_row, insert_token_row, insert_snapshot, upsert_pool_row, select_pool_shares,
  insert_whale,
}
use lumina_analytics.Ingest.{
  pool_row, PendingAlert, two_reserves, parsed_or, ingest_snapshot, ingest_pool, ingest_token,
  ingest_amount, ingest_raw_amount, whale_row, whale_alert, threshold_of, ingest_whale_payment,
  ingest_each_payment, push_alert,
}

module _ {D : Type 0} ⦃d : DecimalOps D⦄ where
  -- The row that `ingest_token` inserts.
  abbrev pub token_snapshot : ℕ → AssetRecord → TokenSnapshot D
  token_snapshot now a = record {
    time = now;
    asset_code = a.asset_code;
    asset_issuer = a.asset_issuer;
    amount = parsed_or dec_zero (d.from_str a.balances_authorized);
    num_accounts = a.accounts_authorized;
    num_claimable_balances = a.num_claimable_balances;
  }

module _ {D : Type 0} where
  -- The snapshots of pools and of tokens are only added to.
  abbrev pub Extends : Store D → Store D → Type 0
  Extends s s' =
      ((row : PoolSnapshot D) → Holds row s.pool_snapshots → Holds row s'.pool_snapshots)
      × ((row : TokenSnapshot D) → Holds row s.token_snapshots → Holds row s'.token_snapshots)

  abbrev pub SameSnapshots : Store D → Store D → Type 0
  SameSnapshots s s' =
      (s'.pool_snapshots ≡ s.pool_snapshots) × (s'.token_snapshots ≡ s.token_snapshots)

  -- A transaction that has failed stays so.
  abbrev pub Onward : (Store D → Store D → Type 0) → Session D → Session D → Type 0
  Onward R s s' = (s.failed ≡ true → s'.failed ≡ true) × R s.store s'.store

  -- An open transaction stays so.
  abbrev pub StaysOpen : Session D → Session D → Type 0
  StaysOpen s s' = s.failed ≡ false → s'.failed ≡ false

  -- Every step of a body is in the relation.
  abbrev pub Steps : {A : Type 0} → (Session D → Session D → Type 0) → Tx D A → Type 0
  Steps {A} R body = (s : Session D) → R s (body s).1

-- A relation of sessions that composes, and holds for a statement whose effect on the tables is in
-- `K`.
pub record Kept {D : Type 0} (accepts : Statement D → Bool) (K : Store D → Store D → Type 0)
    (R : Session D → Session D → Type 0) : Type 1 where
  pub unmoved : (s : Store D) → K s s
  pub stays : (s : Session D) → R s s
  pub composes : (a b c : Session D) → R a b → R b c → R a c
  pub executes :
      {A : Type 0} (statement : Statement D) (run : Store D → A × Store D)
      → ((s : Store D) → K s (run s).1)
      → Steps R (execute accepts statement run)

module _ {D : Type 0} (accepts : Statement D → Bool) where
  execute-Onward :
      (K : Store D → Store D → Type 0) (unmoved : (s : Store D) → K s s) {A : Type 0}
      (statement : Statement D) (run : Store D → A × Store D)
      → ((s : Store D) → K s (run s).1)
      → Steps (Onward K) (execute accepts statement run)
  unfolding execute
  execute-Onward K unmoved statement run h s = elim (Bool-cases s.failed) [
    | inl f ↦ rw (f, execute) (λ e. refl, unmoved s.store)
    | inr f ↦ elim (Bool-cases (accepts statement)) [
      | inl a ↦ rw (f, a, execute) (λ e. cc, h s.store)
      | inr a ↦ rw (f, a, execute) (λ e. refl, unmoved s.store)
    ]
  ]

  pub Onward-Kept :
      (K : Store D → Store D → Type 0)
      → ((s : Store D) → K s s)
      → ((a b c : Store D) → K a b → K b c → K a c)
      → Kept accepts K (Onward K)
  Onward-Kept K unmoved joins = record {
    unmoved = unmoved;
    stays = λ s. (λ e. e, unmoved s.store);
    composes = λ a b c f g. (λ e. g.0 (f.0 e), joins a.store b.store c.store f.1 g.1);
    executes = execute-Onward K unmoved;
  }

  execute-StaysOpen :
      ((statement : Statement D) → accepts statement ≡ true)
      → {A : Type 0} (statement : Statement D) (run : Store D → A × Store D) (s : Session D)
      → StaysOpen s (execute accepts statement run s).1
  unfolding execute
  execute-StaysOpen accepted statement run s open_ = rw (open_, accepted statement, execute) refl

  pub StaysOpen-Kept :
      ((statement : Statement D) → accepts statement ≡ true)
      → Kept accepts (λ s s'. Unit {0}) StaysOpen
  StaysOpen-Kept accepted = record {
    unmoved = λ s. tt;
    stays = λ s e. e;
    composes = λ a b c f g e. g (f e);
    executes = λ {A} statement run h. execute-StaysOpen accepted statement run;
  }

-- The handlers, for such a relation.
module _ {D : Type 0} ⦃d : DecimalOps D⦄ {accepts : Statement D → Bool}
    {K : Store D → Store D → Type 0} {R : Session D → Session D → Type 0}
    (kept : Kept accepts K R) where
  pub and_then-Steps :
      {A B : Type 0} (s : Session D) (r : Outcome A × Session D) (f : A → Tx D B)
      → R s r.1
      → ((a : A) → Steps R (f a))
      → R s (and_then r f).1
  and_then-Steps s (ok a, mid) f h g = kept.composes s mid (f a mid).1 h (g a mid)
  and_then-Steps s (err, mid) f h g = h
  and_then-Steps s (panic, mid) f h g = h

  ingest_snapshot-Steps :
      ((row : PoolRow) (s : Store D) → K s (upsert_pool row s))
      → ((row : PoolSnapshot D) (s : Store D) → K s (insert_pool_snapshot row s))
      → (lp : LiquidityPool) (asset_a asset_b : String) (threshold : D) (snapshot : PoolSnapshot D)
      → Steps R (ingest_snapshot accepts lp asset_a asset_b threshold snapshot)
  unfolding ingest_snapshot
  ingest_snapshot-Steps pool_kept snapshot_kept lp asset_a asset_b threshold snapshot s =
      let row = pool_row lp asset_a asset_b in
      and_then-Steps s (query accepts (select_pool_shares lp.id) (latest_pool_total_shares lp.id) s)
        _ (kept.executes _ _ kept.unmoved s)
        (λ previous s1.
          and_then-Steps s1 (update accepts (upsert_pool_row row) (upsert_pool row) s1) _
            (kept.executes _ _ (pool_kept row) s1)
            (λ u s2.
              and_then-Steps s2
                (update accepts (insert_snapshot snapshot) (insert_pool_snapshot snapshot) s2) _
                (kept.executes _ _ (snapshot_kept snapshot) s2) (λ v s3. kept.stays s3)))

  pub ingest_pool-Steps :
      ((row : PoolRow) (s : Store D) → K s (upsert_pool row s))
      → ((row : PoolSnapshot D) (s : Store D) → K s (insert_pool_snapshot row s))
      → (now : ℕ) (lp : LiquidityPool) (dt : D) (rules : List (AlertRuleRow D))
      → Steps R (ingest_pool accepts now lp dt rules)
  unfolding ingest_pool
  ingest_pool-Steps pool_kept snapshot_kept now lp dt rules s =
      and_then-Steps s (lift (parsed (two_reserves lp.reserves)) s) _ (kept.stays s) (λ both s1.
        and_then-Steps s1 (lift (parsed (d.from_str both.0.amount)) s1) _ (kept.stays s1)
          (λ reserve_a s2.
            and_then-Steps s2 (lift (parsed (d.from_str both.1.amount)) s2) _ (kept.stays s2)
              (λ reserve_b s3.
                and_then-Steps s3 (lift (parsed (d.from_str lp.total_shares)) s3) _ (kept.stays s3)
                  (λ total_shares s4.
                    ingest_snapshot-Steps pool_kept snapshot_kept lp both.0.asset both.1.asset _ _
                      s4))))

  pub ingest_token-Steps :
      ((asset_code asset_issuer : String) (s : Store D)
        → K s (upsert_token asset_code asset_issuer s))
      → ((row : TokenSnapshot D) (s : Store D) → K s (insert_token_snapshot row s))
      → (now : ℕ) (a : AssetRecord) (dt : D) (rules : List (AlertRuleRow D))
      → Steps R (ingest_token accepts now a dt rules)
  unfolding ingest_token
  ingest_token-Steps token_kept snapshot_kept now a dt rules s =
      let snapshot = token_snapshot now a in
      and_then-Steps s
        (query accepts (select_token_accounts a.asset_code a.asset_issuer)
          (latest_token_num_accounts a.asset_code a.asset_issuer) s)
        _ (kept.executes _ _ kept.unmoved s)
        (λ previous s1.
          and_then-Steps s1
            (update accepts (upsert_token_row a.asset_code a.asset_issuer)
              (upsert_token a.asset_code a.asset_issuer) s1)
            _ (kept.executes _ _ (token_kept a.asset_code a.asset_issuer) s1)
            (λ u s2.
              and_then-Steps s2
                (update accepts (insert_token_row snapshot) (insert_token_snapshot snapshot) s2) _
                (kept.executes _ _ (snapshot_kept snapshot) s2) (λ v s3. kept.stays s3)))

  ingest_amount-Steps :
      ((row : WhaleTransaction D) (s : Store D) → K s (insert_whale_transaction row s).1)
      → (time : ℕ) (p : PaymentRecord) (threshold amount : D)
      → Steps R (ingest_amount accepts time p threshold amount)
  unfolding ingest_amount
  ingest_amount-Steps whale_kept time p threshold amount s =
      elim (Option-cases (whale_amount p.op_type (some amount) threshold)) [
        | inl q ↦ rw (q, ingest_amount) (kept.stays s)
        | inr (b, q) ↦
            let row = whale_row time p b in
            rw (q, ingest_amount)
              (and_then-Steps s
                (execute accepts (insert_whale row) (insert_whale_transaction row) s)
                (λ inserted. lift (whale_alert row threshold inserted))
                (kept.executes _ _ (whale_kept row) s) (λ inserted s1. kept.stays s1))
      ]

  ingest_raw_amount-Steps :
      ((row : WhaleTransaction D) (s : Store D) → K s (insert_whale_transaction row s).1)
      → (time : ℕ) (p : PaymentRecord) (threshold : D) (raw : Option String)
      → Steps R (ingest_raw_amount accepts time p threshold raw)
  unfolding ingest_raw_amount
  ingest_raw_amount-Steps whale_kept time p threshold none s = kept.stays s
  ingest_raw_amount-Steps whale_kept time p threshold (some raw) s =
      and_then-Steps s (lift (parsed (d.from_str raw)) s) _ (kept.stays s)
        (λ amount. ingest_amount-Steps whale_kept time p threshold amount)

  pub ingest_each_payment-Steps :
      ((row : WhaleTransaction D) (s : Store D) → K s (insert_whale_transaction row s).1)
      → (clock : ℕ → ℕ) (n : ℕ) (payments : List PaymentRecord) (dt : D)
        (rules : List (AlertRuleRow D)) (alerts : List (PendingAlert D)) (cursor : String)
      → Steps R (ingest_each_payment accepts clock n payments dt rules alerts cursor)
  unfolding ingest_each_payment ingest_whale_payment
  ingest_each_payment-Steps whale_kept clock n [] dt rules alerts cursor s = kept.stays s
  ingest_each_payment-Steps whale_kept clock n (p ∷ payments) dt rules alerts cursor s =
      and_then-Steps s (ingest_whale_payment accepts (clock n) p dt rules s) _
        (ingest_raw_amount-Steps whale_kept (clock n) p (threshold_of p dt rules) p.amount s)
        (λ alert.
          ingest_each_payment-Steps whale_kept clock (n + 1) payments dt rules
            (push_alert alert alerts) p.paging_token)
