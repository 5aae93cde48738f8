-- ===== src/Soroban/Position.antt =====
-- src/soroban.rs, `process_event`, and src/db/lending.rs: the position that an event leads to, its
-- row, and the alert of a higher risk. The message of the alert is made of the values in `RiskFacts`.
pub mod Totals
pub mod Escalation
use lumina_analytics.Prelude.{
  ℕ, String, ◌≡◌, refl, Bool, true, false, not, ◌&&◌, ◌||◌, Option, none, some, List, [], ◌∷◌, ◌++◌,
  str_eq, ltb, filter, if◌then◌else◌,
}
use lumina_analytics.Prelude.Int.{ℤ, ltb_ℤ}
use lumina_analytics.Prelude.Outcome.{
  Outcome, ok, err, panic, ◌>>=◌, ◌>>◌, checked, parsed, require,
}
use lumina_analytics.Prelude.Assoc.{string_eq, lookup}
use lumina_analytics.Decimal.{DecimalOps, dec_max, dec_zero}
use lumina_analytics.AlertRules.{LtvBands, risk_level_with_bands}
use lumina_analytics.Logic.{compute_lending_risk, risk_rank}
use lumina_analytics.Alerts.{Severity, severity_for_risk_level}
use lumina_analytics.Db.{newest}
use lumina_analytics.Soroban.{
  RpcEvent, xdr, PositionEvent, supply_collateral, withdraw_collateral, borrow, repay, classify,
  ScVal, sc_val_symbol, sc_val_address_string, walk_sc_val, walk_topics, Found,
}

-- A row of `lending_positions`; the protocol is always "blend".
pub record LendingPosition (D : Type 0) : Type 0 where
  pub time : ℕ
  pub pool_contract : String
  pub account : String
  pub collateral_asset : String
  pub collateral_amount : D
  pub debt_asset : String
  pub debt_amount : D
  pub ltv : Option D
  pub health_factor : Option D

pub record RiskAlert (D : Type 0) : Type 0 where
  pub severity : Severity
  pub account : String
  pub pool_contract : String
  pub ltv : D
  pub health_factor : Option D
  pub risk_level : String

-- What an event says, once it is decoded.
pub record Decoded (D : Type 0) : Type 0 where
  pub kind : PositionEvent
  pub reserve_asset : String
  pub account : String
  pub amount : D
  pub time : ℕ

-- What of a position an event changes.
pub record Balance (D : Type 0) : Type 0 where
  pub collateral_asset : String
  pub collateral_amount : D
  pub debt_asset : String
  pub debt_amount : D

-- The functions of the crates that read XDR, and write keys, numbers and times.
pub record Codec (D : Type 0) : Type 0 where
  pub from_xdr_base64 : String → Option ScVal
  pub account_text : List ℕ → String
  pub contract_text : List ℕ → String
  pub from_i128_with_scale : ℤ → Option D
  pub parse_time : String → Option ℕ

-- `find`, of an address other than the asset's
abbrev pub find_other : String → List String → Option String
find_other asset [] = none
find_other asset (a ∷ addresses) = if str_eq a asset then find_other asset addresses else some a

abbrev max_of : ℤ → List ℤ → ℤ
max_of best [] = best
max_of best (x ∷ xs) = max_of (if ltb_ℤ x best then best else x) xs

abbrev pub max_amount : List ℤ → Option ℤ
max_amount [] = none
max_amount (x ∷ xs) = some (max_of x xs)

abbrev second : List ScVal → Option ScVal
second (a ∷ b ∷ rest) = some b
second _ = none

abbrev pub rest_of : List ScVal → List ScVal
rest_of [] = []
rest_of (a ∷ rest) = rest

abbrev pub name_of : List ScVal → Option String
name_of [] = none
name_of (a ∷ rest) = sc_val_symbol a

abbrev pub known_or_unknown : Option String → String
known_or_unknown none = "unknown"
known_or_unknown (some s) = s

-- `is_none_or`
abbrev rises : String → Option String → Bool
rises new_level none = true
rises new_level (some prev) = ltb (risk_rank prev) (risk_rank new_level)

unfoldable pub escalated : String → Option String → Bool
escalated new_level previous =
    (str_eq new_level "HIGH" || str_eq new_level "CRITICAL") && rises new_level previous

module _ {D : Type 0} where
  unfoldable pub latest_lending_position :
      String → String → List (LendingPosition D) → Option (LendingPosition D)
  latest_lending_position pool_contract account rows =
      newest (λ (r : LendingPosition D). r.time)
        (filter
          (λ (r : LendingPosition D).
            str_eq r.pool_contract pool_contract && str_eq r.account account)
          rows)

  abbrev pub from_all : Codec D → List String → Option (List ScVal)
  from_all codec [] = some []
  from_all codec (t ∷ topics) = elim (codec.from_xdr_base64 t) [
    | none ↦ none
    | some v ↦ elim (from_all codec topics) [ none ↦ none | some vs ↦ some (v ∷ vs) ]
  ]

  abbrev pub second_address : Codec D → List ScVal → Option String
  second_address codec topics = elim (second topics) [
    | none ↦ none
    | some v ↦ sc_val_address_string codec.account_text codec.contract_text v
  ]

  -- The account, the amount and the time of an event of a known kind, from what is found in it.
  unfoldable pub decode_found :
      Codec D → PositionEvent → String → Found → String → Outcome (Option (Decoded D))
  decode_found codec kind reserve_asset found ledger_closed_at =
      elim (find_other reserve_asset found.0) [
        | none ↦ ok none
        | some account ↦ elim (max_amount found.1) [
          | none ↦ ok none
          | some raw_amount ↦ do
            amount ← checked (codec.from_i128_with_scale raw_amount)
            time ← parsed (codec.parse_time ledger_closed_at)
            ok (
                some (record {
                  kind = kind;
                  reserve_asset = reserve_asset;
                  account = account;
                  amount = amount;
                  time = time;
                }))
        ]
      ]

  -- What is read from the decoded topics and value.
  unfoldable pub decode_values :
      Codec D → List ScVal → ScVal → String → Outcome (Option (Decoded D))
  unfolding classify walk_topics decode_found
  decode_values codec topics value ledger_closed_at = elim (name_of topics) [
    | none ↦ ok none
    | some event_name ↦ elim (classify event_name) [
      | none ↦ ok none
      | some kind ↦
          decode_found codec kind (known_or_unknown (second_address codec topics))
            (walk_sc_val codec.account_text codec.contract_text value
              (walk_topics codec.account_text codec.contract_text (rest_of topics) ([], [])))
            ledger_closed_at
    ]
  ]

  -- The part of `process_event` before its first query; `none` is a skipped event.
  unfoldable pub decode : Codec D → RpcEvent → Outcome (Option (Decoded D))
  unfolding decode_values
  decode codec event = do
    topics ← parsed (from_all codec event.topic)
    value ← parsed (codec.from_xdr_base64 (xdr event.value))
    decode_values codec topics value event.ledger_closed_at

module _ {D : Type 0} ⦃d : DecimalOps D⦄ where
  unfoldable pub balance_of : Option (LendingPosition D) → Balance D
  balance_of none = record {
    collateral_asset = "";
    collateral_amount = dec_zero;
    debt_asset = "";
    debt_amount = dec_zero;
  }
  balance_of (some l) = record {
    collateral_asset = l.collateral_asset;
    collateral_amount = l.collateral_amount;
    debt_asset = l.debt_asset;
    debt_amount = l.debt_amount;
  }

  -- `(a - b).max(Decimal::ZERO)`
  abbrev pub floored_sub : D → D → Outcome D
  floored_sub a b = checked (d.sub a b) >>= λ c. ok (dec_max c dec_zero)

  unfoldable pub apply_kind : PositionEvent → String → D → Balance D → Outcome (Balance D)
  apply_kind supply_collateral reserve_asset amount b = do
    collateral_amount ← checked (d.add b.collateral_amount amount)
    ok (record b { collateral_asset = reserve_asset; collateral_amount = collateral_amount })
  apply_kind withdraw_collateral reserve_asset amount b = do
    collateral_amount ← floored_sub b.collateral_amount amount
    ok (record b { collateral_amount = collateral_amount })
  apply_kind borrow reserve_asset amount b = do
    debt_amount ← checked (d.add b.debt_amount amount)
    ok (record b { debt_asset = reserve_asset; debt_amount = debt_amount })
  apply_kind repay reserve_asset amount b = do
    debt_amount ← floored_sub b.debt_amount amount
    ok (record b { debt_amount = debt_amount })

  abbrev pub previous_level : LtvBands D → Option (LendingPosition D) → Option String
  previous_level bands none = none
  previous_level bands (some l) = elim l.ltv [
    | none ↦ none
    | some v ↦ some (risk_level_with_bands v bands)
  ]

  -- The alert that follows the insertion of a row.
  unfoldable pub risk_alert : LtvBands D → Option String → LendingPosition D → Option (RiskAlert D)
  unfolding escalated
  risk_alert bands previous row = elim row.ltv [
    | none ↦ none
    | some ltv_value ↦
        let new_level = risk_level_with_bands ltv_value bands in
        if escalated new_level previous
        then some (record {
          severity = severity_for_risk_level new_level;
          account = row.account;
          pool_contract = row.pool_contract;
          ltv = ltv_value;
          health_factor = row.health_factor;
          risk_level = new_level;
        })
        else none
  ]

  -- The row that a decoded event leads to.
  unfoldable pub position_row :
      List (String × D)
      → String
      → Decoded D
      → Option (LendingPosition D)
      → Outcome (LendingPosition D)
  unfolding balance_of apply_kind
  position_row prices pool_contract e latest = do
    b ← apply_kind e.kind e.reserve_asset e.amount (balance_of latest)
    risk ← checked (
        compute_lending_risk b.collateral_amount (lookup b.collateral_asset prices) b.debt_amount
          (lookup b.debt_asset prices))
    ok (record {
      time = e.time;
      pool_contract = pool_contract;
      account = e.account;
      collateral_asset = b.collateral_asset;
      collateral_amount = b.collateral_amount;
      debt_asset = b.debt_asset;
      debt_amount = b.debt_amount;
      ltv = risk.0;
      health_factor = risk.1;
    })

  -- `process_event`: whether a position was written, the table, and the alert to record. `selects` and
  -- `inserts` tell whether the database answers.
  unfoldable pub process_event :
      Codec D
      → (selects inserts : Bool) → List (String × D)
      → LtvBands D
      → RpcEvent
      → List (LendingPosition D)
      → Outcome (Bool × List (LendingPosition D) × Option (RiskAlert D))
  unfolding decode position_row risk_alert latest_lending_position
  process_event codec selects inserts prices bands event rows = do
    decoded ← decode codec event
    elim decoded [
      | none ↦ ok (false, rows, none)
      | some e ↦ do
        require selects
        let latest = latest_lending_position event.contract_id e.account rows
        row ← position_row prices event.contract_id e latest
        require inserts
        ok (true, rows ++ (row ∷ []), risk_alert bands (previous_level bands latest) row)
    ]
