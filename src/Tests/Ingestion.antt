-- ===== src/Tests/Ingestion.antt =====
-- Concrete inputs for the theorems on ingestion.
use lumina_analytics.Prelude.{
  arith, ◌+◌, ◌≡◌, refl, Bool, true, false, none, some, List, [], ◌∷◌, ◌++◌, All,
}
use lumina_analytics.Prelude.Int.{ℤ, pos, ◌+ℤ◌, ◌-ℤ◌, ◌*ℤ◌, quot}
use lumina_analytics.Prelude.Outcome.{ok, err}
use lumina_analytics.Prelude.Assoc.{string_eq, lookup, insert}
use lumina_analytics.Text.{split_once}
use lumina_analytics.Text.Number.{parse_i32}
use lumina_analytics.Logic.{percent_change, resolve_payment_asset}
use lumina_analytics.Decimal.Micro.{micro_ops}
use lumina_analytics.AlertRules.{
  max_by_key, resolve_liquidity_drop_threshold_pct, resolve_whale_threshold,
}
use lumina_analytics.Alerts.{severity_for_liquidity_drop, warning, Answers}
use lumina_analytics.Horizon.{
  LiquidityPool, PaymentRecord, get_all_pages, payments_since, follow_pages,
}
use lumina_analytics.Pricing.{AssetId, native, parse_pool_asset, price_from_known_leg, asset_eq}
use lumina_analytics.Pricing.Hops.{
  PriceRow, max_price_hops, reserves_of, ingest_prices, hops, scan_pools, scan_known, offer,
  store_newly,
}
use lumina_analytics.Pricing.Hops.Derived.{Within, ingest_prices-Derived}
use lumina_analytics.Db.{
  Store, WhaleTransaction, PoolSnapshot, latest_pool_total_shares, upsert_pool,
  insert_pool_snapshot, get_ingest_cursor,
}
use lumina_analytics.Db.Transaction.{Session, Statement, execute}
use lumina_analytics.Ingest.{
  PendingAlert, liquidity_drop, liquidity_alert, ingest_pool, ingest_snapshot, ingest_whale_payment,
}
use lumina_analytics.Ingest.Replay.{ingest_whale_payment-adds}
use lumina_analytics.Ingest.Snapshots.{SnapshotJudged, ingest_pool-Judged}
use lumina_analytics.Ingest.Cycle.{World, Settings, ingest_payments}
use lumina_analytics.Prelude.{inr}
use lumina_analytics.Alerts.{info, severity_for_whale_multiple}
use lumina_analytics.Ingest.Returns.{ingest_payments-Succeeds}
use lumina_analytics.Ingest.Commit.{Advanced, AllOrNothing, ingest_payments-Advanced}

abbrev pub answers : Answers
answers = record {
  insert_succeeds = true;
  channels = none;
  post_succeeds = λ url body. false;
  notify_succeeds = true;
}

abbrev pub pool : LiquidityPool
pool = record {
  id = "p1";
  fee_bp = pos 30;
  total_trustlines = "3";
  total_shares = "50";
  reserves =
      record { asset = "native"; amount = "5" } ∷ record { asset = "USDC:GA5"; amount = "2" } ∷ [];
}

abbrev pub as_is : (V : Type 0) → List (AssetId × V) → List (AssetId × V)
as_is V m = m

abbrev usdc_row : PriceRow ℤ
usdc_row = record {
  asset = ("USDC", "GA5");
  price_usd = pos 250_000;
  price_source = "xlm_pool_ratio";
}

abbrev stored_rows : List (PriceRow ℤ)
stored_rows =
    record { asset = native; price_usd = pos 100_000; price_source = "coingecko" } ∷ usdc_row ∷ []

ingest_prices-Derived_example :
    (xlm_usd : ℤ) × (ok (pos 100_000) ≡ ok xlm_usd)
    × All
        (λ (row : PriceRow ℤ).
          Within xlm_usd (reserves_of (pool ∷ [])) max_price_hops row.asset row.price_usd)
        stored_rows
unfolding ingest_prices hops scan_pools scan_known offer store_newly reserves_of
    price_from_known_leg parse_pool_asset asset_eq split_once lookup insert micro_ops ◌+ℤ◌ ◌-ℤ◌ ◌*ℤ◌
    quot
ingest_prices-Derived_example =
    ingest_prices-Derived (λ row. true) as_is (ok (pos 100_000)) (pool ∷ []) (λ V m x h. h) refl

abbrev pub accepts : Statement ℤ → Bool
accepts statement = true

abbrev pub empty_store : Store ℤ
empty_store = record {
  pools = [];
  pool_snapshots = [];
  tokens = [];
  token_snapshots = [];
  whale_transactions = [];
  asset_prices = [];
  ingest_state = [];
}

abbrev earlier : PoolSnapshot ℤ
earlier = record {
  time = 1;
  pool_id = "p1";
  reserve_a = pos 0;
  reserve_b = pos 0;
  total_shares = pos 100_000_000;
  trustline_count = pos 0;
}

abbrev session : Session ℤ
session = record { store = record empty_store { pool_snapshots = earlier ∷ [] }; failed = false }

abbrev half_gone : PendingAlert ℤ
half_gone = record {
  kind = "liquidity_drop";
  severity = warning;
  facts =
      liquidity_drop "p1" "native" "USDC:GA5" (pos 100_000_000) (pos 50_000_000) (pos 50_000_000);
}

abbrev after_pool : Session ℤ
unfolding ingest_pool ingest_snapshot execute
after_pool = (ingest_pool accepts 2 pool (pos 30_000_000) [] session).1

ingest_pool-Judged_example :
    (snapshot : PoolSnapshot ℤ) × (snapshot.pool_id ≡ "p1")
    × (snapshot.time ≡ 2)
    × (micro_ops.from_str "50" ≡ some snapshot.total_shares)
    × SnapshotJudged accepts pool
        (resolve_liquidity_drop_threshold_pct [] "p1" (pos 30_000_000))
        snapshot
        (some half_gone)
        session.store
        after_pool.store
unfolding ingest_pool ingest_snapshot execute resolve_liquidity_drop_threshold_pct max_by_key
    parse_i32 latest_pool_total_shares upsert_pool insert_pool_snapshot liquidity_alert
    percent_change severity_for_liquidity_drop micro_ops ◌+ℤ◌ ◌-ℤ◌ ◌*ℤ◌ quot after_pool
ingest_pool-Judged_example =
    ingest_pool-Judged accepts pool 2 (pos 30_000_000) [] session after_pool refl

abbrev pub payment : PaymentRecord
payment = record {
  id = "op1";
  paging_token = "t1";
  op_type = "payment";
  transaction_hash = "h";
  source = some "A";
  destination = some "B";
  source_account = none;
  asset_type = some "native";
  asset_code = none;
  asset_issuer = none;
  amount = some "20000";
}

-- The payment is in the table already, at an earlier time.
abbrev replayed : Session ℤ
replayed = record {
  store = record empty_store {
    whale_transactions =
        record {
          time = 1;
          op_id = "op1";
          tx_hash = "h";
          source_account = "A";
          dest_account = some "B";
          asset_code = "XLM";
          asset_issuer = none;
          amount = pos 20_000_000_000;
        }
        ∷ [];
  };
  failed = false;
}

ingest_whale_payment-adds_example :
    (row : WhaleTransaction ℤ) × (row.op_id ≡ "op1")
    × ((ingest_whale_payment accepts 2 payment
          (pos 10_000_000_000)
          []
          replayed).1.store.whale_transactions
        ≡ replayed.store.whale_transactions ++ (row ∷ []))
unfolding micro_ops ◌+ℤ◌ ◌-ℤ◌ ◌*ℤ◌ quot resolve_whale_threshold max_by_key resolve_payment_asset
ingest_whale_payment-adds_example =
    ingest_whale_payment-adds accepts 2 payment (pos 10_000_000_000) [] replayed (λ row. refl) refl
      ("20000", pos 20_000_000_000, refl, refl, refl, refl) (omega arith, tt)

abbrev pub world : World ℤ
world = record {
  now = 5;
  clock = λ n. 5 + n;
  accepts = accepts;
  commits = true;
  pools = err;
  assets = err;
  rules = none;
  xlm_usd = err;
  iter = as_is;
  payments = λ url. ok (record { next = none; records = payment ∷ [] });
  answers = λ n. answers;
  text = λ facts. "text";
}

abbrev pub settings : Settings ℤ
settings = record {
  horizon_url = "https://horizon.stellar.org";
  whale_threshold = pos 10_000_000_000;
  liquidity_drop_threshold_pct = pos 30_000_000;
  holder_drop_threshold_pct = pos 20_000_000;
  price_feed_enabled = false;
  alert_webhook_url = none;
  alert_min_severity = "WARNING";
}

abbrev seeded : Store ℤ
seeded = record empty_store { ingest_state = ("horizon_payments_cursor", "t0") ∷ [] }

ingest_payments-Advanced_example :
    AllOrNothing world settings []
      (Advanced world settings [] seeded "t0" (payment ∷ []))
      seeded
      (ingest_payments world settings [] 0 seeded)
unfolding get_ingest_cursor lookup payments_since get_all_pages follow_pages
ingest_payments-Advanced_example =
    ingest_payments-Advanced world settings [] 0 seeded "t0" payment [] refl refl refl

pub accepts_all : (statement : Statement ℤ) → accepts statement ≡ true
accepts_all statement = refl

ingest_payments-Succeeds_example :
    ((ingest_payments world settings [] 0 seeded).outcome ≡ ok tt)
    × Advanced world settings [] seeded "t0"
        (payment ∷ [])
        (ingest_payments world settings [] 0 seeded).store
unfolding get_ingest_cursor lookup payments_since get_all_pages follow_pages
    severity_for_whale_multiple resolve_whale_threshold max_by_key resolve_payment_asset micro_ops
    ◌+ℤ◌ ◌-ℤ◌ ◌*ℤ◌ quot
ingest_payments-Succeeds_example =
    ingest_payments-Succeeds world settings [] 0 seeded "t0" payment [] accepts_all refl refl refl
      (inr ("20000", pos 20_000_000_000, refl, refl, (info, refl)), tt)
