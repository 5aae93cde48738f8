-- ===== src/Tests/Lending.antt =====
-- Concrete inputs for the theorems on lending positions.
use lumina_analytics.Prelude.{
  String, ◌≡◌, refl, sym, ◌∙◌, ◌↔◌, true, false, Option, none, some, [], ◌∷◌, All, str_eq,
  if◌then◌else◌,
}
use lumina_analytics.Prelude.Int.{ℤ, pos, negsuc, ◌+ℤ◌, ◌-ℤ◌, ◌*ℤ◌, quot, leb_ℤ}
use lumina_analytics.Prelude.Outcome.{ok, ok-injective}
use lumina_analytics.Prelude.Assoc.{string_eq}
use lumina_analytics.Decimal.Micro.{micro_ops, micro_laws}
use lumina_analytics.AlertRules.{default_bands}
use lumina_analytics.Soroban.{
  RpcEvent, GetEventsResult, borrow, bare, xdr, sc_val_symbol, sc_val_address_string, ScVal, symbol,
  address, account, contract, i128,
}
use mathlib.Core.Path.{subst}
use mathlib.Core.Option.{some-injective}
use lumina_analytics.Soroban.Position.{
  LendingPosition, RiskAlert, Codec, Decoded, decode, risk_alert, previous_level,
}
use lumina_analytics.Soroban.Position.Totals.{RowNonneg}
use lumina_analytics.Soroban.Position.Escalation.{Escalates, risk_alert-Escalates}
use lumina_analytics.Soroban.Cycle.{
  Lending, Peers, IsNonneg, SendsNonneg, ingest_lending_cycle, ingest_lending_cycle-nonneg,
}

abbrev position : LendingPosition ℤ
position = record {
  time = 1;
  pool_contract = "C";
  account = "G";
  collateral_asset = "a";
  collateral_amount = pos 1_000_000;
  debt_asset = "b";
  debt_amount = pos 900_000;
  ltv = some (pos 90_000_000);
  health_factor = none;
}

risk_alert-Escalates_example :
    ((a : RiskAlert ℤ) × (risk_alert default_bands
          (previous_level {D = ℤ} default_bands none)
          position
        ≡ some a))
    ↔ Escalates default_bands none position
risk_alert-Escalates_example = risk_alert-Escalates default_bands none position

-- Topics and values by one letter each; an amount has seven decimal places, and the sign that it has
-- in the event.
abbrev decode_letter : String → Option ScVal
decode_letter s =
    if str_eq s "n"
    then some (symbol (some "borrow"))
    else if str_eq s "r"
    then some (address (contract []))
    else if str_eq s "g"
    then some (address (account []))
    else if str_eq s "v"
    then some (i128 (pos 0) 10_000_000)
    else if str_eq s "w"
    then some (i128 (negsuc 0) 0)
    else none

abbrev codec : Codec ℤ
codec = record {
  from_xdr_base64 = decode_letter;
  account_text = λ bytes. "G";
  contract_text = λ bytes. "C";
  from_i128_with_scale = λ n. some (quot n (pos 10));
  parse_time = λ s. some 3;
}

abbrev event : RpcEvent
event = record {
  id = "e1";
  contract_id = "C";
  topic = "n" ∷ "r" ∷ "g" ∷ [];
  value = bare "v";
  ledger_closed_at = "2026-01-01T00:00:00Z";
}

abbrev page : GetEventsResult
page = record { events = event ∷ []; cursor = some "c1" }

abbrev borrowed : Decoded ℤ
borrowed = record {
  kind = borrow;
  reserve_asset = "C";
  account = "G";
  amount = pos 1_000_000;
  time = 3;
}

event_decodes : decode codec event ≡ ok (some borrowed)
unfolding decode quot xdr sc_val_symbol sc_val_address_string ◌+ℤ◌ ◌*ℤ◌
event_decodes = refl

abbrev peers : Peers ℤ
peers = record {
  selects = λ n. true;
  inserts = λ n. true;
  reads_cursor = true;
  writes_cursor = true;
  latest_ledger = ok 1000;
  events = λ start. ok page;
}

page-nonneg : SendsNonneg codec peers [] default_bands
unfolding micro_ops ◌*ℤ◌
page-nonneg start page' e =
    subst (λ (x : GetEventsResult). All (IsNonneg codec peers [] default_bands) x.events)
      (ok-injective e)
      (
        λ decoded h.
            let same : borrowed ≡ decoded =
              some-injective _ _ (ok-injective (sym event_decodes ∙ h)) in
            subst (λ (x : Decoded ℤ). leb_ℤ (pos 0) x.amount ≡ true) same refl,
        tt,
      )

-- The codec gives a negative amount where the event has one.
negative_decodes :
    (e : Decoded ℤ) × (decode codec (record event { value = bare "w" }) ≡ ok (some e))
    × (leb_ℤ (pos 0) e.amount ≡ false)
unfolding decode quot xdr sc_val_symbol sc_val_address_string ◌+ℤ◌ ◌*ℤ◌
negative_decodes = (record borrowed { amount = negsuc 1_844_674_407_370_955_160 }, refl, refl)

abbrev lending : Lending ℤ
lending = record { positions = position ∷ []; ingest_state = [] }

ingest_lending_cycle-nonneg_example :
    All
      (RowNonneg micro_laws)
      (ingest_lending_cycle codec peers [] default_bands lending).1.positions
unfolding micro_ops ◌+ℤ◌ ◌-ℤ◌ ◌*ℤ◌ quot
ingest_lending_cycle-nonneg_example =
    ingest_lending_cycle-nonneg codec peers [] default_bands micro_laws lending page-nonneg
      ((refl, refl), tt)
