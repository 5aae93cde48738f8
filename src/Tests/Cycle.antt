-- ===== src/Tests/Cycle.antt =====
-- Concrete cycles of ingestion.
use lumina_analytics.Prelude.{◌≡◌, refl, Bool, true, not, ◌⊎◌, List, [], ◌∷◌, str_eq}
use lumina_analytics.Prelude.Int.{ℤ, pos}
use lumina_analytics.Prelude.Outcome.{ok, panic}
use lumina_analytics.AlertRules.{max_by_key}
use lumina_analytics.Decimal.Micro.{micro_ops}
use lumina_analytics.Horizon.{LiquidityPool, AssetRecord, latest_payments_page}
use lumina_analytics.Db.{latest_pool_total_shares, get_ingest_cursor, set_ingest_cursor}
use lumina_analytics.Db.Transaction.{Statement, select_pool_shares}
use lumina_analytics.Db.Transaction.{execute}
use lumina_analytics.Ingest.{ingest_pool, ingest_snapshot, ingest_token}
use lumina_analytics.Ingest.Cycle.{
  World, run_once, ingest_payments, transact, ingest_each_pool, ingest_each_token,
}
use lumina_analytics.Ingest.AllOrNone.{AllOrNone, AllStored, run_once-AllOrNone, run_once-AllStored}
use lumina_analytics.Tests.Ingestion.{pool, empty_store, world, settings, accepts_all}

abbrev asset : AssetRecord
asset = record {
  asset_code = "USDC";
  asset_issuer = "GA5";
  asset_type = "credit_alphanum4";
  accounts_authorized = pos 12;
  balances_authorized = "900";
  num_claimable_balances = pos 0;
}

abbrev second_pool : LiquidityPool
second_pool = record pool { id = "p2" }

abbrev two_pools : List LiquidityPool
two_pools = pool ∷ second_pool ∷ []

-- Every statement is accepted.
abbrev fetched : World ℤ
fetched = record world { pools = ok two_pools; assets = ok (asset ∷ []) }

-- The statement on the second pool is refused.
abbrev refuses : Statement ℤ → Bool
refuses (select_pool_shares pool_id) = not (str_eq pool_id "p2")
refuses statement = true

abbrev refused : World ℤ
refused = record fetched { accepts = refuses }

run_once-AllOrNone_example :
    AllOrNone refused settings [] two_pools
      (asset ∷ [])
      empty_store
      (run_once refused settings empty_store).store
run_once-AllOrNone_example =
    run_once-AllOrNone refused settings two_pools (asset ∷ []) empty_store refl refl

run_once-AllStored_example :
    ((run_once fetched settings empty_store).outcome ≡ panic)
    ⊎ AllStored fetched settings [] two_pools
        (asset ∷ [])
        empty_store
        (run_once fetched settings empty_store).store
run_once-AllStored_example =
    run_once-AllStored fetched settings two_pools (asset ∷ []) empty_store refl refl accepts_all
      refl

-- Not even the first pool, whose statements were accepted.
refused_keeps_none : (run_once refused settings empty_store).store.pool_snapshots ≡ []
unfolding run_once transact ingest_each_pool ingest_each_token ingest_pool ingest_snapshot
    ingest_token execute micro_ops latest_pool_total_shares max_by_key ingest_payments
    get_ingest_cursor latest_payments_page set_ingest_cursor
refused_keeps_none = refl
