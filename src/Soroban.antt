-- ===== src/Soroban.antt =====
-- src/soroban.rs: the requests for contract events, and what is read out of one event. The decoding
-- of XDR and the text of an address are arguments.
pub mod Position
pub mod Cycle
use lumina_analytics.Prelude.{
  ℕ, zero, suc, ◌+◌, ◌-◌, ◌*◌, ◌^◌, String, ◌≡◌, refl, Bool, true, false, not, Option, none, some,
  List, [], ◌∷◌, ◌++◌, str_eq, ltb, length, if◌then◌else◌,
}
use lumina_analytics.Prelude.Int.{ℤ, pos, ◌+ℤ◌, ◌*ℤ◌, ltb_ℤ}
use lumina_analytics.Prelude.Outcome.{Outcome, ok, err, panic, ◌>>=◌}

abbrev pub events_cursor_key : String
events_cursor_key = "blend_events_cursor"

abbrev pub soroban_max_pages : ℕ
soroban_max_pages = 10

abbrev pub page_limit : ℕ
page_limit = 200

abbrev pub cold_start_ledger_lookback : ℕ
cold_start_ledger_lookback = 250

pub data RpcEventValue : Type 0 where
  nested bare : String → RpcEventValue

unfoldable pub xdr : RpcEventValue → String
xdr (nested s) = s
xdr (bare s) = s

pub record RpcEvent : Type 0 where
  pub id : String
  pub contract_id : String
  pub topic : List String
  pub value : RpcEventValue
  pub ledger_closed_at : String

pub record GetEventsResult : Type 0 where
  pub events : List RpcEvent
  pub cursor : Option String

-- What a request starts from.
pub data Start : Type 0 where
  start_ledger : ℕ → Start
  at_cursor : String → Start

-- `call "getEvents"` without a cursor and without a start ledger panics.
abbrev pub request :
    (Start → Outcome GetEventsResult) → Option ℕ → Option String → Outcome GetEventsResult
request call ledger (some c) = call (at_cursor c)
request call (some l) none = call (start_ledger l)
request call none none = panic

-- The loop of `get_events`, with the pages still allowed.
unfoldable pub follow_events :
    (Start → Outcome GetEventsResult)
    → Option ℕ
    → (left : ℕ) → Option String
    → List RpcEvent
    → Outcome (List RpcEvent × Option String)
follow_events call ledger zero cursor out = ok (out, cursor)
follow_events call ledger (suc left) cursor out = do
  result ← request call ledger cursor
  let all = out ++ result.events
  elim result.cursor [
    | none ↦ ok (all, cursor)
    | some next ↦
        if ltb (length result.events) page_limit
        then ok (all, some next)
        else follow_events call ledger left (some next) all
  ]

unfoldable pub get_events :
    (Start → Outcome GetEventsResult)
    → Option ℕ
    → Option String
    → ℕ
    → Outcome (List RpcEvent × Option String)
unfolding follow_events
get_events call ledger resume_cursor max_pages =
    follow_events call ledger max_pages resume_cursor []

pub data PositionEvent : Type 0 where
  supply_collateral withdraw_collateral borrow repay : PositionEvent

unfoldable pub classify : String → Option PositionEvent
classify event_name =
    if str_eq event_name "supply_collateral"
    then some supply_collateral
    else if str_eq event_name "withdraw_collateral"
    then some withdraw_collateral
    else if str_eq event_name "borrow"
    then some borrow
    else if str_eq event_name "repay"
    then some repay
    else none

-- The two kinds of address that have a text, by their bytes, and the rest.
pub data ScAddress : Type 0 where
  account contract : List ℕ → ScAddress
  other_address : ScAddress

-- The values that the code tells apart; a symbol is `none` where its bytes are not UTF-8.
mutual
  pub data ScVal : Type 0 where
    symbol : Option String → ScVal
    address : ScAddress → ScVal
    i128 : (hi : ℤ) → (lo : ℕ) → ScVal
    vec : ScVals → ScVal
    sc_map : ScEntries → ScVal
    other_val : ScVal

  pub data ScVals : Type 0 where
    no_val : ScVals
    val : ScVal → ScVals → ScVals

  pub data ScEntries : Type 0 where
    no_entry : ScEntries
    entry : (key value : ScVal) → ScEntries → ScEntries

unfoldable pub sc_val_symbol : ScVal → Option String
sc_val_symbol (symbol s) = s
sc_val_symbol _ = none

-- Addresses and amounts, in the order in which they are found.
abbrev pub Found : Type 0
Found = List String × List ℤ

module _ (account_text contract_text : List ℕ → String) where
  unfoldable pub format_sc_address : ScAddress → String
  format_sc_address (account bytes) = account_text bytes
  format_sc_address (contract bytes) = contract_text bytes
  format_sc_address other_address = "unsupported-address-kind"

  unfoldable pub sc_val_address_string : ScVal → Option String
  unfolding format_sc_address
  sc_val_address_string (address a) = some (format_sc_address a)
  sc_val_address_string _ = none

  unfoldable mutual
    unfolding format_sc_address

    pub walk_sc_val : ScVal → Found → Found
    walk_sc_val (address a) (addresses, amounts) =
        (addresses ++ (format_sc_address a ∷ []), amounts)
    walk_sc_val (i128 hi lo) (addresses, amounts) =
        (addresses, amounts ++ ((hi *ℤ pos (2 ^ 64) +ℤ pos lo) ∷ []))
    walk_sc_val (vec vals) found = walk_vals vals found
    walk_sc_val (sc_map entries) found = walk_entries entries found
    walk_sc_val (symbol s) found = found
    walk_sc_val other_val found = found

    pub walk_vals : ScVals → Found → Found
    walk_vals no_val found = found
    walk_vals (val v vals) found = walk_vals vals (walk_sc_val v found)

    pub walk_entries : ScEntries → Found → Found
    walk_entries no_entry found = found
    walk_entries (entry key value entries) found =
        walk_entries entries (walk_sc_val value (walk_sc_val key found))

  -- `for t in topics`
  unfoldable pub walk_topics : List ScVal → Found → Found
  unfolding walk_sc_val
  walk_topics [] found = found
  walk_topics (t ∷ topics) found = walk_topics topics (walk_sc_val t found)
