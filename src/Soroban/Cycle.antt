-- ===== src/Soroban/Cycle.antt =====
-- src/soroban.rs, `ingest_lending_cycle`: the events after the stored cursor, each handled by itself,
-- and the new cursor. Every statement of this cycle stands by itself, outside any transaction.
use lumina_analytics.Prelude.{
  ℕ, zero, suc, ◌+◌, ◌-◌, String, ◌≡◌, refl, ap, inl, inr, Bool, Option, none, some, List, [], ◌∷◌,
  ◌++◌, if◌then◌else◌, All, All-append, Bool-cases, Option-cases, ltb, length, arith,
}
use lumina_analytics.Prelude.Outcome.{
  Outcome, ok, err, panic, ◌>>=◌, >>=-eq-ok, ok-injective, Outcome-cases,
}
use mathlib.Core.Path.{subst}
use lumina_analytics.Prelude.Assoc.{string_eq, lookup, insert}
use lumina_analytics.Decimal.{DecimalOps, DecimalLaws, ◌≼◌, dec_zero}
use lumina_analytics.AlertRules.{LtvBands}
use lumina_analytics.Soroban.{
  RpcEvent, GetEventsResult, Start, start_ledger, at_cursor, request, follow_events, page_limit,
  get_events, events_cursor_key, soroban_max_pages, cold_start_ledger_lookback,
}
use lumina_analytics.Soroban.Position.{
  LendingPosition, RiskAlert, Decoded, Codec, decode, process_event,
}
use lumina_analytics.Soroban.Position.Totals.{RowNonneg, process_event-nonneg}

-- The tables that the cycle writes.
pub record Lending (D : Type 0) : Type 0 where
  pub positions : List (LendingPosition D)
  pub ingest_state : List (String × String)

-- What the database and the RPC answer; the n-th event has its own answers.
pub record Peers (D : Type 0) : Type 0 where
  pub selects : ℕ → Bool
  pub inserts : ℕ → Bool
  pub reads_cursor : Bool
  pub writes_cursor : Bool
  pub latest_ledger : Outcome ℕ
  pub events : Start → Outcome GetEventsResult

-- What holds for the events of each page holds for all that are fetched.
module _ (call : Start → Outcome GetEventsResult) (ledger : Option ℕ) (P : RpcEvent → Type 0)
    (sends : (start : Start) (page : GetEventsResult)
      → call start ≡ ok page
      → All P page.events) where
  request-All :
      (cursor : Option String) (page : GetEventsResult)
      → request call ledger cursor ≡ ok page
      → All P page.events
  request-All (some c) page e = sends (at_cursor c) page e
  request-All none page e = elim (Option-cases ledger) [
    | inl none_given ↦ absurd (ground (arith, rw none_given at e))
    | inr (l, given) ↦ sends (start_ledger l) page (rw given at e)
  ]

  follow_events-All :
      (left : ℕ) (cursor : Option String) (out : List RpcEvent) {events : List RpcEvent}
      {next : Option String}
      → All P out
      → follow_events call ledger left cursor out ≡ ok (events, next)
      → All P events
  unfolding follow_events
  follow_events-All zero cursor out h e = subst (All P) (ap (λ r. r.0) (ok-injective e)) h
  follow_events-All (suc left) cursor out {events} h e =
      let (page, answered, e') = >>=-eq-ok (request call ledger cursor) _ e in
      let more = All-append P out page.events h (request-All cursor page answered) in
      elim (Option-cases page.cursor) [
        | inl q ↦ subst (All P) (ap (λ r. r.0) (ok-injective (rw q at e'))) more
        | inr (c, q) ↦ elim (Bool-cases (ltb (length page.events) page_limit)) [
          | inl t ↦ subst (All P) (ap (λ r. r.0) (ok-injective (rw (q, t) at e'))) more
          | inr t ↦ follow_events-All left (some c) (out ++ page.events) more (rw (q, t) at e')
        ]
      ]

module _ {D : Type 0} ⦃d : DecimalOps D⦄ (codec : Codec D) (peers : Peers D)
    (prices : List (String × D)) (bands : LtvBands D) where
  abbrev pub cons_alert : Option (RiskAlert D) → List (RiskAlert D) → List (RiskAlert D)
  cons_alert none alerts = alerts
  cons_alert (some a) alerts = alerts ++ (a ∷ [])

  -- The loop over the events, which passes over the errors: the table and the alerts recorded.
  unfoldable pub process_events :
      ℕ
      → List RpcEvent
      → List (LendingPosition D)
      → List (RiskAlert D)
      → Outcome (Unit {0}) × List (LendingPosition D) × List (RiskAlert D)
  unfolding process_event
  process_events n [] rows alerts = (ok tt, rows, alerts)
  process_events n (event ∷ events) rows alerts =
      elim (process_event codec (peers.selects n) (peers.inserts n) prices bands event rows) [
        | ok handled ↦ process_events (n + 1) events handled.1 (cons_alert handled.2 alerts)
        | err ↦ process_events (n + 1) events rows alerts
        | panic ↦ (panic, rows, alerts)
      ]

  -- The ledger to start from, where no cursor is stored; `saturating_sub`.
  abbrev start_of : Option String → Outcome (Option ℕ)
  start_of (some cursor) = ok none
  start_of none =
      peers.latest_ledger >>= λ sequence. ok (some (sequence - cold_start_ledger_lookback))

  abbrev store_cursor :
      Option String
      → Outcome (Unit {0}) × List (LendingPosition D) × List (RiskAlert D)
      → Lending D
      → Outcome (Unit {0}) × Lending D × List (RiskAlert D)
  store_cursor next (err, rows, alerts) before = (err, record before { positions = rows }, alerts)
  store_cursor next (panic, rows, alerts) before =
      (panic, record before { positions = rows }, alerts)
  store_cursor none (ok u, rows, alerts) before =
      (ok tt, record before { positions = rows }, alerts)
  store_cursor (some next) (ok u, rows, alerts) before =
      if peers.writes_cursor
      then (
        ok tt,
        record {
          positions = rows;
          ingest_state = insert events_cursor_key next before.ingest_state;
        },
        alerts,
      )
      else (err, record before { positions = rows }, alerts)

  abbrev after_fetch :
      Outcome (List RpcEvent × Option String)
      → Lending D
      → Outcome (Unit {0}) × Lending D × List (RiskAlert D)
  after_fetch (ok fetched) before =
      store_cursor fetched.1 (process_events 0 fetched.0 before.positions []) before
  after_fetch err before = (err, before, [])
  after_fetch panic before = (panic, before, [])

  unfoldable pub ingest_lending_cycle :
      Lending D → Outcome (Unit {0}) × Lending D × List (RiskAlert D)
  unfolding get_events process_events
  ingest_lending_cycle before =
      let cursor = lookup events_cursor_key before.ingest_state in
      if peers.reads_cursor
      then after_fetch
          (start_of cursor >>= λ start. get_events peers.events start cursor soroban_max_pages)
          before
      else (err, before, [])

  -- No amount that is decoded from the event is negative.
  abbrev pub IsNonneg : RpcEvent → Type 0
  IsNonneg event = (e : Decoded D) → decode codec event ≡ ok (some e) → dec_zero ≼ e.amount

  -- No event of any page that the server returns has a negative amount.
  abbrev pub SendsNonneg : Type 0
  SendsNonneg =
      (start : Start) (page : GetEventsResult)
      → peers.events start ≡ ok page
      → All IsNonneg page.events

  module _ (laws : DecimalLaws D) where
    process_events-nonneg :
        (n : ℕ) (events : List RpcEvent) (rows : List (LendingPosition D))
        (alerts : List (RiskAlert D))
        → All IsNonneg events
        → All (RowNonneg laws) rows
        → All (RowNonneg laws) (process_events n events rows alerts).1
    unfolding process_events
    process_events-nonneg n [] rows alerts f h = h
    process_events-nonneg n (event ∷ events) rows alerts (here, f) h =
        elim (Outcome-cases
          (process_event codec (peers.selects n) (peers.inserts n) prices bands event rows)) [
            | inl ((written, rows', alert), e) ↦
                let kept =
                  process_event-nonneg laws codec (peers.selects n) (peers.inserts n) prices bands
                    event rows rows' h here e in
                rw (e, process_events)
                  (process_events-nonneg (n + 1) events rows' (cons_alert alert alerts) f kept)
            | inr (inl e) ↦
                rw (e, process_events) (process_events-nonneg (n + 1) events rows alerts f h)
            | inr (inr e) ↦ rw (e, process_events) h
          ]

    store_cursor-nonneg :
        (next : Option String) (o : Outcome (Unit {0})) (rows : List (LendingPosition D))
        (alerts : List (RiskAlert D)) (before : Lending D)
        → All (RowNonneg laws) rows
        → All (RowNonneg laws) (store_cursor next (o, rows, alerts) before).1.positions
    store_cursor-nonneg next err rows alerts before h = h
    store_cursor-nonneg next panic rows alerts before h = h
    store_cursor-nonneg none (ok u) rows alerts before h = h
    store_cursor-nonneg (some next) (ok u) rows alerts before h =
        elim (Bool-cases peers.writes_cursor) [ inl t ↦ rw t h | inr t ↦ rw t h ]

    after_fetch-nonneg :
        (fetched : Outcome (List RpcEvent × Option String)) (before : Lending D)
        → ((events : List RpcEvent) (next : Option String)
            → fetched ≡ ok (events, next)
            → All IsNonneg events)
        → All (RowNonneg laws) before.positions
        → All (RowNonneg laws) (after_fetch fetched before).1.positions
    after_fetch-nonneg (ok (events, next)) before f h =
        let (o, rows, alerts) = process_events 0 events before.positions [] in
        store_cursor-nonneg next o rows alerts before
          (process_events-nonneg 0 events before.positions [] (f events next refl) h)
    after_fetch-nonneg err before f h = h
    after_fetch-nonneg panic before f h = h

    -- If no stored total is negative, and no amount in the events that the server sends is, then no
    -- total is negative after a whole cycle, however much more is withdrawn or repaid than is there,
    -- whatever else the server and the database answer, and also if the cycle ends in an error or a
    -- panic.
    pub ingest_lending_cycle-nonneg :
        (before : Lending D)
        → SendsNonneg
        → All (RowNonneg laws) before.positions
        → All (RowNonneg laws) (ingest_lending_cycle before).1.positions
    unfolding ingest_lending_cycle
    ingest_lending_cycle-nonneg before f h =
        let cursor = lookup events_cursor_key before.ingest_state in
        elim (Bool-cases peers.reads_cursor) [
          | inl t ↦
              rw (t, ingest_lending_cycle)
                (after_fetch-nonneg
                  (start_of cursor >>= λ start.
                    get_events peers.events start cursor soroban_max_pages)
                  before
                  (λ events next e.
                    let (start, found, fetched) = >>=-eq-ok (start_of cursor) _ e in
                    follow_events-All peers.events start IsNonneg f soroban_max_pages cursor [] tt
                      fetched)
                  h)
          | inr t ↦ rw (t, ingest_lending_cycle) h
        ]
