-- ===== src/Soroban/Position/Totals.antt =====
-- The totals of `lending_positions` stay at zero or above, src/soroban.rs `process_event`.
use lumina_analytics.Prelude.{
  ℕ, String, ◌≡◌, refl, ap, ◌∙◌, inl, inr, Bool, ◌&&◌, Option, none, some, List, [], ◌∷◌, str_eq,
  All, Holds, All-append, arith, Option-cases,
}
use mathlib.Core.Path.{subst}
use mathlib.Core.Option.{some-injective}
use lumina_analytics.Prelude.{All-at}
use lumina_analytics.Prelude.Int.{pos}
use lumina_analytics.Prelude.Outcome.{ok, checked, require, >>=-eq-ok, ok-injective, checked-eq-ok}
use lumina_analytics.Decimal.{DecimalOps, DecimalLaws, ◌≼◌, dec_zero}
use lumina_analytics.AlertRules.{LtvBands, max_by_key}
use lumina_analytics.AlertRules.Choice.{max_from-IsGreatest, Holds-filter}
use lumina_analytics.Prelude.Assoc.{string_eq, lookup}
use lumina_analytics.Logic.{compute_lending_risk}
use lumina_analytics.Db.{newest}
use lumina_analytics.Soroban.{
  RpcEvent, PositionEvent, supply_collateral, withdraw_collateral, borrow, repay,
}
use lumina_analytics.Soroban.Position.{
  LendingPosition, RiskAlert, Decoded, Balance, Codec, latest_lending_position, decode, balance_of,
  floored_sub, apply_kind, position_row, process_event,
}

newest-Holds :
    {A : Type 0} (time : A → ℕ) (rows : List A) (r : A) → newest time rows ≡ some r → Holds r rows
unfolding max_by_key
newest-Holds time [] r h = cc
newest-Holds time (x ∷ rows) r h =
    subst (λ z. Holds z (x ∷ rows)) (some-injective _ _ h)
      (max_from-IsGreatest (λ z. pos (time z)) x rows).listed

latest-Holds :
    {D : Type 0} (pool_contract account : String) (rows : List (LendingPosition D))
    (l : LendingPosition D)
    → latest_lending_position pool_contract account rows ≡ some l
    → Holds l rows
unfolding latest_lending_position
latest-Holds {D} pool_contract account rows l h =
    (Holds-filter
      (λ (r : LendingPosition D). str_eq r.pool_contract pool_contract && str_eq r.account account)
      l rows (newest-Holds (λ (r : LendingPosition D). r.time) _ l h)).0

module _ {D : Type 0} ⦃d : DecimalOps D⦄ (laws : DecimalLaws D) where
  abbrev pub RowNonneg : LendingPosition D → Type 0
  RowNonneg row = (dec_zero ≼ row.collateral_amount) × (dec_zero ≼ row.debt_amount)

  abbrev BalanceNonneg : Balance D → Type 0
  BalanceNonneg b = (dec_zero ≼ b.collateral_amount) × (dec_zero ≼ b.debt_amount)

  floored_sub-nonneg : (a b : D) {c : D} → floored_sub a b ≡ ok c → dec_zero ≼ c
  floored_sub-nonneg a b {c} h =
      let (x, e, e') = >>=-eq-ok (checked (d.sub a b)) _ h in
      let zero_fits = laws.le_refl dec_zero in let either = laws.le_total x dec_zero in ground arith

  apply_kind-nonneg :
      (kind : PositionEvent) (reserve_asset : String) (amount : D) (b b' : Balance D)
      → dec_zero ≼ amount
      → BalanceNonneg b
      → apply_kind kind reserve_asset amount b ≡ ok b'
      → BalanceNonneg b'
  unfolding apply_kind
  apply_kind-nonneg supply_collateral asset amount b b' h n q =
      let (c, e, e') = >>=-eq-ok (checked (d.add b.collateral_amount amount)) _ q in
      let sum : d.add b.collateral_amount amount ≡ some c = checked-eq-ok _ e in
      subst BalanceNonneg (ok-injective e')
        (laws.add_nonneg b.collateral_amount amount c n.0 h sum, n.1)
  apply_kind-nonneg withdraw_collateral asset amount b b' h n q =
      let (c, e, e') = >>=-eq-ok (floored_sub b.collateral_amount amount) _ q in
      subst BalanceNonneg (ok-injective e') (floored_sub-nonneg b.collateral_amount amount e, n.1)
  apply_kind-nonneg borrow asset amount b b' h n q =
      let (c, e, e') = >>=-eq-ok (checked (d.add b.debt_amount amount)) _ q in
      let sum : d.add b.debt_amount amount ≡ some c = checked-eq-ok _ e in
      subst BalanceNonneg (ok-injective e') (n.0, laws.add_nonneg b.debt_amount amount c n.1 h sum)
  apply_kind-nonneg repay asset amount b b' h n q =
      let (c, e, e') = >>=-eq-ok (floored_sub b.debt_amount amount) _ q in
      subst BalanceNonneg (ok-injective e') (n.0, floored_sub-nonneg b.debt_amount amount e)

  balance_of-nonneg :
      (latest : Option (LendingPosition D))
      → ((l : LendingPosition D) → latest ≡ some l → RowNonneg l)
      → BalanceNonneg (balance_of latest)
  unfolding balance_of
  balance_of-nonneg none f = (laws.le_refl dec_zero, laws.le_refl dec_zero)
  balance_of-nonneg (some l) f = f l refl

  position_row-nonneg :
      (prices : List (String × D)) (pool_contract : String) (e : Decoded D)
      (latest : Option (LendingPosition D)) {row : LendingPosition D}
      → dec_zero ≼ e.amount
      → ((l : LendingPosition D) → latest ≡ some l → RowNonneg l)
      → position_row prices pool_contract e latest ≡ ok row
      → RowNonneg row
  unfolding position_row
  position_row-nonneg prices pool_contract e latest h f q =
      let (b, x, q') =
        >>=-eq-ok (apply_kind e.kind e.reserve_asset e.amount (balance_of latest)) _ q in
      let (risk, y, q'') =
        >>=-eq-ok
          (checked (
            compute_lending_risk b.collateral_amount (lookup b.collateral_asset prices)
              b.debt_amount (lookup b.debt_asset prices)))
          _ q' in
      subst RowNonneg (ok-injective q'') (
        apply_kind-nonneg e.kind e.reserve_asset e.amount (balance_of latest) b h
          (balance_of-nonneg latest f) x)

  -- If no stored total is negative and the amount that is decoded from the event is not negative, then
  -- no total is negative after `process_event`, however much more is withdrawn or repaid than is there.
  pub process_event-nonneg :
      (codec : Codec D) (selects inserts : Bool) (prices : List (String × D)) (bands : LtvBands D)
      (event : RpcEvent) (rows rows' : List (LendingPosition D)) {written : Bool}
      {alert : Option (RiskAlert D)}
      → All RowNonneg rows
      → ((e : Decoded D) → decode codec event ≡ ok (some e) → dec_zero ≼ e.amount)
      → process_event codec selects inserts prices bands event rows ≡ ok (written, rows', alert)
      → All RowNonneg rows'
  unfolding process_event
  process_event-nonneg codec selects inserts prices bands event rows rows' n f q =
      let (decoded, x, q') = >>=-eq-ok (decode codec event) _ q in
      elim (Option-cases decoded) [
        | inl e ↦ subst (All RowNonneg) (ap (λ r. r.1) (ok-injective (rw e at q'))) n
        | inr (event', e) ↦
            let (u, y, q2) = >>=-eq-ok (require selects) _ (rw e at q') in
            let (row, z, q3) =
              >>=-eq-ok
                (position_row prices event.contract_id event'
                  (latest_lending_position event.contract_id event'.account rows))
                _ q2 in
            let (v, w, q4) = >>=-eq-ok (require inserts) _ q3 in
            let fits =
              position_row-nonneg prices event.contract_id event' _ (f event' (x ∙ ap ok e))
                (λ l m.
                  All-at RowNonneg l rows n
                    (latest-Holds event.contract_id event'.account rows l m))
                z in
            subst (All RowNonneg) (ap (λ r. r.1) (ok-injective q4))
              (All-append RowNonneg rows (row ∷ []) n (fits, tt))
      ]
