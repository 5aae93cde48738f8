-- ===== src/Db/Whales.antt =====
-- `list_whale_transactions` of src/db/whales.rs: the large payments, with their values in USD. A product
-- that a `Decimal` cannot hold makes the query fail.
use lumina_analytics.Prelude.{
  ℕ, String, Bool, true, false, ◌&&◌, ◌||◌, Option, none, some, List, [], ◌∷◌, filter, str_eq, leb,
}
use lumina_analytics.Prelude.Outcome.{Outcome, ok, ◌>>=◌, parsed}
use lumina_analytics.Prelude.Sort.{sort_by, take}
use lumina_analytics.Decimal.{DecimalOps}
use lumina_analytics.Models.{WhaleTransactionRow}
use lumina_analytics.Pricing.Hops.{PriceRow}
use lumina_analytics.Db.{WhaleTransaction, Store}
use lumina_analytics.Db.Pools.{first_by, newest_first, option_map}

-- `COALESCE(issuer, '')`
abbrev pub issuer_or_empty : Option String → String
issuer_or_empty none = ""
issuer_or_empty (some issuer) = issuer

abbrev pub is_dest : String → Option String → Bool
is_dest account none = false
is_dest account (some dest) = str_eq dest account

module _ {D : Type 0} where
  -- `$3::text IS NULL OR source_account = $3 OR dest_account = $3`
  unfoldable pub concerns : Option String → WhaleTransaction D → Bool
  concerns none r = true
  concerns (some account) r = str_eq r.source_account account || is_dest account r.dest_account

  -- The price of the asset of a payment, at its time.
  unfoldable pub price_at : WhaleTransaction D → Store D → Option D
  unfolding sort_by
  price_at r s =
      option_map (λ (p : ℕ × PriceRow D). p.1.price_usd)
        (first_by (newest_first (λ (p : ℕ × PriceRow D). p.0)) (
          filter
            (λ (p : ℕ × PriceRow D).
              str_eq p.1.asset.0 r.asset_code
              && str_eq p.1.asset.1 (issuer_or_empty r.asset_issuer)
              && leb p.0 r.time)
            s.asset_prices))

module _ {D : Type 0} ⦃d : DecimalOps D⦄ where
  abbrev pub usd_of : D → Option D → Outcome (Option D)
  usd_of amount none = ok none
  usd_of amount (some price) = parsed (d.mul amount price) >>= λ usd. ok (some usd)

  unfoldable pub whale_rows :
      Store D → List (WhaleTransaction D) → Outcome (List (WhaleTransactionRow D))
  unfolding price_at
  whale_rows s [] = ok []
  whale_rows s (r ∷ rows) = do
    usd ← usd_of r.amount (price_at r s)
    rest ← whale_rows s rows
    ok (
        record {
          time = r.time;
          tx_hash = r.tx_hash;
          source_account = r.source_account;
          dest_account = r.dest_account;
          asset_code = r.asset_code;
          asset_issuer = r.asset_issuer;
          amount = r.amount;
          amount_usd = usd;
        }
        ∷ rest)

  unfoldable pub list_whale_transactions :
      D → (limit : ℕ) → (account : Option String) → Store D → Outcome (List (WhaleTransactionRow D))
  unfolding whale_rows concerns sort_by
  list_whale_transactions min_amount limit account s = whale_rows s (
      take limit (
        sort_by (newest_first (λ (r : WhaleTransaction D). r.time)) (
          filter (λ (r : WhaleTransaction D). d.le min_amount r.amount && concerns account r)
            s.whale_transactions)))
