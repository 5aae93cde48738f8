-- ===== src/Ingest.antt =====
-- src/bin/ingest.rs: one cycle of ingestion, without the prices of Pricing/Hops. The answers of the
-- server, of Horizon and of the receivers of alerts are arguments, as are the clock's.
pub mod Cycle
pub mod Payments
pub mod Replay
pub mod Returns
pub mod Snapshots
pub mod Refused
pub mod Steps
pub mod Loops
pub mod Accepted
pub mod Frame
pub mod Whole
pub mod AllOrNone
pub mod Drops
pub mod Commit
use lumina_analytics.Prelude.{
  ℕ, zero, suc, ◌+◌, String, ◌≡◌, refl, Bool, true, false, not, ◌&&◌, ◌||◌, Option, none, some,
  List, [], ◌∷◌, ◌++◌, map, str_eq, if◌then◌else◌,
}
use lumina_analytics.Prelude.Int.{ℤ, pos}
use lumina_analytics.Prelude.Outcome.{Outcome, ok, err, panic, checked, parsed}
use lumina_analytics.Text.Number.{parse_i32}
use lumina_analytics.Decimal.{DecimalOps, dec_lt, dec_zero, from}
use lumina_analytics.Models.{AlertRuleRow}
use lumina_analytics.AlertRules.{
  resolve_whale_threshold, resolve_holder_drop_threshold_pct, resolve_liquidity_drop_threshold_pct,
}
use lumina_analytics.Logic.{resolve_payment_asset, whale_amount, percent_change, unwrap_or}
use lumina_analytics.Alerts.{
  Severity, Answers, Event, record_alert, severity_for_whale_multiple, severity_for_liquidity_drop,
  severity_for_holder_drop,
}
use lumina_analytics.Horizon.{LiquidityPool, PoolReserve, AssetRecord, PaymentRecord}
use lumina_analytics.Db.{
  Store, PoolRow, PoolSnapshot, TokenSnapshot, WhaleTransaction, upsert_pool, insert_pool_snapshot,
  latest_pool_total_shares, upsert_token, latest_token_num_accounts, insert_token_snapshot,
  insert_whale_transaction, get_ingest_cursor, set_ingest_cursor,
}
use lumina_analytics.Db.Transaction.{
  Statement, select_pool_shares, select_token_accounts, select_cursor, upsert_pool_row,
  upsert_token_row, insert_snapshot, insert_token_row, insert_whale, upsert_cursor, Session, Tx,
  ◌>>=◌, ◌>>◌, return, lift, query, update, execute,
}

-- The values that the message and the details of an alert are made of.
pub data Facts (D : Type 0) : Type 0 where
  liquidity_drop :
      (pool_id asset_a asset_b : String) (shares_before shares_now drop_pct : D) → Facts D
  holder_drop :
      (asset_code asset_issuer : String) (holders_before holders_now : ℤ) (drop_pct : D) → Facts D
  whale_payment :
      (tx_hash asset_code : String) (asset_issuer : Option String) (amount : D)
      (source_account : String) (dest_account : Option String)
      → Facts D

pub record PendingAlert (D : Type 0) : Type 0 where
  pub kind : String
  pub severity : Severity
  pub facts : Facts D

abbrev pub payments_cursor_key : String
payments_cursor_key = "horizon_payments_cursor"

abbrev pub max_pages_per_cycle : ℕ
max_pages_per_cycle = 25

abbrev pub parsed_or : {A : Type 0} → A → Option A → A
parsed_or default none = default
parsed_or default (some a) = a

abbrev pub two_reserves : List PoolReserve → Option (PoolReserve × PoolReserve)
two_reserves (a ∷ b ∷ rest) = some (a, b)
two_reserves _ = none

abbrev or_else : Option String → Option String → Option String
or_else none other = other
or_else (some s) other = some s

-- The row that `ingest_pool` upserts.
abbrev pub pool_row : LiquidityPool → String → String → PoolRow
pool_row lp asset_a asset_b = record {
  pool_id = lp.id;
  asset_a = asset_a;
  asset_b = asset_b;
  fee_bp = lp.fee_bp;
}

module _ {D : Type 0} ⦃d : DecimalOps D⦄ where
  -- The end of `ingest_pool`, behind its statements.
  unfoldable pub liquidity_alert :
      LiquidityPool → String → String → D → Option D → D → Outcome (Option (PendingAlert D))
  liquidity_alert lp asset_a asset_b threshold none total_shares = ok none
  liquidity_alert lp asset_a asset_b threshold (some previous_shares) total_shares =
      elim (percent_change previous_shares total_shares) [
        | none ↦ panic
        | some change ↦ elim change [
          | none ↦ ok none
          | some pct_change ↦
              let drop_pct = d.neg pct_change in
              if not (d.is_sign_negative pct_change)
              then ok none
              else if dec_lt drop_pct threshold
              then ok none
              else elim (severity_for_liquidity_drop drop_pct threshold) [
                | none ↦ panic
                | some severity ↦ ok (
                    some (record {
                      kind = "liquidity_drop";
                      severity = severity;
                      facts =
                          liquidity_drop lp.id asset_a asset_b previous_shares total_shares
                            drop_pct;
                    }))
              ]
        ]
      ]

  -- The end of `ingest_token`, behind its statements.
  unfoldable pub holder_alert : AssetRecord → D → Option ℤ → Outcome (Option (PendingAlert D))
  holder_alert a threshold none = ok none
  holder_alert a threshold (some previous_num_accounts) =
      elim (percent_change (from previous_num_accounts) (from a.accounts_authorized)) [
        | none ↦ panic
        | some change ↦ elim change [
          | none ↦ ok none
          | some pct_change ↦
              let drop_pct = d.neg pct_change in
              if not (d.is_sign_negative pct_change)
              then ok none
              else if dec_lt drop_pct threshold
              then ok none
              else elim (severity_for_holder_drop drop_pct threshold) [
                | none ↦ panic
                | some severity ↦ ok (
                    some (record {
                      kind = "holder_drop";
                      severity = severity;
                      facts =
                          holder_drop a.asset_code a.asset_issuer previous_num_accounts
                            a.accounts_authorized drop_pct;
                    }))
              ]
        ]
      ]

  -- The row that a payment of at least the threshold becomes.
  unfoldable pub whale_row : ℕ → PaymentRecord → D → WhaleTransaction D
  whale_row time p amount =
      let (asset_code, asset_issuer) =
        resolve_payment_asset p.asset_type p.asset_code p.asset_issuer in
      record {
        time = time;
        op_id = p.id;
        tx_hash = p.transaction_hash;
        source_account = unwrap_or (or_else p.source p.source_account) "";
        dest_account = p.destination;
        asset_code = asset_code;
        asset_issuer = asset_issuer;
        amount = amount;
      }

  abbrev pub threshold_of : PaymentRecord → D → List (AlertRuleRow D) → D
  threshold_of p default_threshold rules =
      let (asset_code, asset_issuer) =
        resolve_payment_asset p.asset_type p.asset_code p.asset_issuer in
      resolve_whale_threshold rules asset_code asset_issuer default_threshold

  -- Behind the insertion.
  unfoldable pub whale_alert : WhaleTransaction D → D → Bool → Outcome (Option (PendingAlert D))
  whale_alert row threshold false = ok none
  whale_alert row threshold true = elim (severity_for_whale_multiple row.amount threshold) [
    | none ↦ panic
    | some severity ↦ ok (
        some (record {
          kind = "whale_payment";
          severity = severity;
          facts =
              whale_payment row.tx_hash row.asset_code row.asset_issuer row.amount
                row.source_account row.dest_account;
        }))
  ]

  abbrev pub push_alert : Option (PendingAlert D) → List (PendingAlert D) → List (PendingAlert D)
  push_alert none alerts = alerts
  push_alert (some alert) alerts = alerts ++ (alert ∷ [])

module _ {D : Type 0} ⦃d : DecimalOps D⦄ (accepts : Statement D → Bool) where
  -- The statements of `ingest_pool` and what follows.
  unfoldable pub ingest_snapshot :
      LiquidityPool → String → String → D → PoolSnapshot D → Tx D (Option (PendingAlert D))
  unfolding liquidity_alert
  ingest_snapshot lp asset_a asset_b threshold snapshot = do
    previous_shares ← query accepts (select_pool_shares lp.id) (latest_pool_total_shares lp.id)
    let row = pool_row lp asset_a asset_b
    update accepts (upsert_pool_row row) (upsert_pool row)
    update accepts (insert_snapshot snapshot) (insert_pool_snapshot snapshot)
    lift (liquidity_alert lp asset_a asset_b threshold previous_shares snapshot.total_shares)

  unfoldable pub ingest_pool :
      ℕ → LiquidityPool → D → List (AlertRuleRow D) → Tx D (Option (PendingAlert D))
  unfolding ingest_snapshot
  ingest_pool now lp default_threshold rules = do
    let threshold = resolve_liquidity_drop_threshold_pct rules lp.id default_threshold
    both ← lift (parsed (two_reserves lp.reserves))
    reserve_a ← lift (parsed (d.from_str both.0.amount))
    reserve_b ← lift (parsed (d.from_str both.1.amount))
    total_shares ← lift (parsed (d.from_str lp.total_shares))
    ingest_snapshot lp both.0.asset both.1.asset threshold (record {
      time = now;
      pool_id = lp.id;
      reserve_a = reserve_a;
      reserve_b = reserve_b;
      total_shares = total_shares;
      trustline_count = parsed_or (pos 0) (parse_i32 lp.total_trustlines);
    })

  unfoldable pub ingest_token :
      ℕ → AssetRecord → D → List (AlertRuleRow D) → Tx D (Option (PendingAlert D))
  unfolding holder_alert
  ingest_token now a default_threshold rules = do
    let threshold =
        resolve_holder_drop_threshold_pct rules a.asset_code (some a.asset_issuer) default_threshold
    let amount = parsed_or dec_zero (d.from_str a.balances_authorized)
    previous_num_accounts ←
        query accepts (select_token_accounts a.asset_code a.asset_issuer)
          (latest_token_num_accounts a.asset_code a.asset_issuer)
    update accepts (upsert_token_row a.asset_code a.asset_issuer)
        (upsert_token a.asset_code a.asset_issuer)
    let snapshot : TokenSnapshot D = record {
      time = now;
      asset_code = a.asset_code;
      asset_issuer = a.asset_issuer;
      amount = amount;
      num_accounts = a.accounts_authorized;
      num_claimable_balances = a.num_claimable_balances;
    }
    update accepts (insert_token_row snapshot) (insert_token_snapshot snapshot)
    lift (holder_alert a threshold previous_num_accounts)

  -- `ingest_whale_payment` behind the parse of the amount.
  unfoldable pub ingest_amount : ℕ → PaymentRecord → D → D → Tx D (Option (PendingAlert D))
  unfolding whale_row whale_alert
  ingest_amount time p threshold parsed_amount =
      elim (whale_amount p.op_type (some parsed_amount) threshold) [
        | none ↦ return none
        | some amount ↦ do
          let row = whale_row time p amount
          inserted ← execute accepts (insert_whale row) (insert_whale_transaction row)
          lift (whale_alert row threshold inserted)
      ]

  unfoldable pub ingest_raw_amount :
      ℕ → PaymentRecord → D → Option String → Tx D (Option (PendingAlert D))
  unfolding ingest_amount
  ingest_raw_amount time p threshold none = return none
  ingest_raw_amount time p threshold (some raw_amount) = do
    parsed_amount ← lift (parsed (d.from_str raw_amount))
    ingest_amount time p threshold parsed_amount

  -- `time` is the answer of `Utc::now`, and `default_threshold` is read from the `f64` already.
  unfoldable pub ingest_whale_payment :
      ℕ → PaymentRecord → D → List (AlertRuleRow D) → Tx D (Option (PendingAlert D))
  unfolding ingest_raw_amount
  ingest_whale_payment time p default_threshold rules =
      ingest_raw_amount time p (threshold_of p default_threshold rules) p.amount

  -- The loop over the payments; `clock n` is the time at the n-th of them. The alerts and the last
  -- cursor.
  unfoldable pub ingest_each_payment :
      (ℕ → ℕ)
      → ℕ
      → List PaymentRecord
      → D
      → List (AlertRuleRow D)
      → List (PendingAlert D)
      → String
      → Tx D (List (PendingAlert D) × String)
  unfolding ingest_whale_payment
  ingest_each_payment clock n [] default_threshold rules alerts last_cursor =
      return (alerts, last_cursor)
  ingest_each_payment clock n (p ∷ payments) default_threshold rules alerts last_cursor = do
    alert ← ingest_whale_payment (clock n) p default_threshold rules
    ingest_each_payment clock (n + 1) payments default_threshold rules (push_alert alert alerts)
        p.paging_token
