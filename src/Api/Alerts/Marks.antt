-- ===== src/Api/Alerts/Marks.antt =====
-- Marking alerts as read, in src/db/alerts.rs: one by one, many at once, twice, and undone.
use lumina_analytics.Prelude.{
  ℕ, ◌≤◌, ◌<◌, ◌≡◌, refl, sym, ap, ◌∙◌, ◌⊎◌, inl, inr, true, Option, none, some, List, [], ◌∷◌, All,
  length, arith, Bool-cases, ltb,
}
use lumina_analytics.Prelude.Int.{ℤ}
use lumina_analytics.Models.{AlertRow}
use lumina_analytics.Api.{json, status, no_content, not_found}
use lumina_analytics.Api.Alerts.{
  AlertTable, coalesce, acknowledged, update_where, has_id, has_id_in, acknowledge_alert,
  unacknowledge_alert, acknowledge_alerts, count_where, acknowledge_bulk_route, unread,
  acknowledge_route, unacknowledge_route,
}

-- The alerts are marked one after the other.
abbrev pub acknowledge_each : ℕ → List ℤ → AlertTable → AlertTable
acknowledge_each now [] t = t
acknowledge_each now (id ∷ ids) t = acknowledge_each now ids (acknowledge_alert now id t).1

coalesce-coalesce :
    (o : Option ℕ) (now later : ℕ) → coalesce (coalesce o now) later ≡ coalesce o now
coalesce-coalesce none now later = refl
coalesce-coalesce (some time) now later = refl

acknowledged-acknowledged :
    (now later : ℕ) (r : AlertRow) → acknowledged later (acknowledged now r) ≡ acknowledged now r
acknowledged-acknowledged now later r =
    ap (λ (o : Option ℕ). record r { acknowledged_at = o })
      (coalesce-coalesce r.acknowledged_at now later)

update_nowhere :
    (change : AlertRow → AlertRow) (rows : List AlertRow)
    → update_where (has_id_in []) change rows ≡ rows
unfolding update_where has_id_in
update_nowhere change [] = refl
update_nowhere change (r ∷ rows) = ap (λ rest. r ∷ rest) (update_nowhere change rows)

-- The rows of one id, and then those of others.
update_where_or :
    (now : ℕ) (id : ℤ) (ids : List ℤ) (rows : List AlertRow)
    → update_where
        (has_id_in ids)
        (acknowledged now)
        (update_where (has_id id) (acknowledged now) rows)
      ≡ update_where (has_id_in (id ∷ ids)) (acknowledged now) rows
unfolding update_where has_id_in
update_where_or now id ids [] = refl
update_where_or now id ids (r ∷ rows) =
    let rest = update_where_or now id ids rows in
    let twice = acknowledged-acknowledged now now r in
    elim (Bool-cases (has_id id r)) [
      | inl here ↦ elim (Bool-cases (has_id_in ids r)) [
        | inl again ↦ ground (arith, here, again, rest, twice)
        | inr once ↦ ground (arith, here, once, rest)
      ]
      | inr other ↦ ground (arith, other, rest)
    ]

update_each :
    (now : ℕ) (ids : List ℤ) (t : AlertTable)
    → record t { alerts = update_where (has_id_in ids) (acknowledged now) t.alerts }
      ≡ acknowledge_each now ids t
unfolding acknowledge_alert
update_each now [] t =
    ap (λ (rows : List AlertRow). record t { alerts = rows })
      (update_nowhere (acknowledged now) t.alerts)
update_each now (id ∷ ids) t =
    ap (λ (rows : List AlertRow). record t { alerts = rows })
      (sym (update_where_or now id ids t.alerts))
    ∙ update_each now ids (acknowledge_alert now id t).1

acknowledge_alerts-each :
    (now : ℕ) (ids : List ℤ) (t : AlertTable)
    → (acknowledge_alerts now ids t).1 ≡ acknowledge_each now ids t
unfolding acknowledge_alerts
acknowledge_alerts-each now [] t = refl
acknowledge_alerts-each now (id ∷ ids) t = update_each now (id ∷ ids) t

count_nowhere : (rows : List AlertRow) → count_where (has_id_in []) rows ≡ 0
unfolding has_id_in
count_nowhere [] = refl
count_nowhere (r ∷ rows) = count_nowhere rows

acknowledge_alerts-count :
    (now : ℕ) (ids : List ℤ) (t : AlertTable)
    → (acknowledge_alerts now ids t).0 ≡ count_where (has_id_in ids) t.alerts
unfolding acknowledge_alerts
acknowledge_alerts-count now [] t = sym (count_nowhere t.alerts)
acknowledge_alerts-count now (id ∷ ids) t = refl

-- A request of the admin to mark many alerts, which the database accepts: up to 1000 ids the table
-- is as if the alerts had been marked one after the other, and the answer is the number of alerts
-- that have one of the ids; with more ids the request is refused, and the table stays as it is.
pub acknowledge_bulk_route-each :
    (now : ℕ) (ids : List ℤ) (t : AlertTable)
    → ((length ids ≤ 1000)
        × (acknowledge_bulk_route none true now ids t
            ≡ (json (count_where (has_id_in ids) t.alerts), acknowledge_each now ids t)))
      ⊎ ((1000 < length ids)
          × (status (acknowledge_bulk_route none true now ids t).0 ≡ 400)
          × ((acknowledge_bulk_route none true now ids t).1 ≡ t))
unfolding acknowledge_bulk_route
acknowledge_bulk_route-each now ids t = elim (Bool-cases (ltb 1000 (length ids))) [
  | inl many ↦ inr (ground arith, rw many refl, rw many refl)
  | inr few ↦ inl (
    ground arith,
    rw (few, ← acknowledge_alerts-count now ids t, ← acknowledge_alerts-each now ids t) refl,
  )
]

acknowledge_twice :
    (now later : ℕ) (id : ℤ) (rows : List AlertRow)
    → update_where
        (has_id id)
        (acknowledged later)
        (update_where (has_id id) (acknowledged now) rows)
      ≡ update_where (has_id id) (acknowledged now) rows
unfolding update_where
acknowledge_twice now later id [] = refl
acknowledge_twice now later id (r ∷ rows) =
    ground (arith, acknowledge_twice now later id rows, acknowledged-acknowledged now later r)

count_acknowledged :
    (now : ℕ) (id : ℤ) (rows : List AlertRow)
    → count_where (has_id id) (update_where (has_id id) (acknowledged now) rows)
      ≡ count_where (has_id id) rows
unfolding update_where
count_acknowledged now id [] = refl
count_acknowledged now id (r ∷ rows) = ground (arith, count_acknowledged now id rows)

-- The alerts of an id have not been marked.
abbrev pub IsUnread : ℤ → AlertRow → Type 0
IsUnread id r = has_id id r ≡ true → r.acknowledged_at ≡ none

unread_again :
    (now : ℕ) (id : ℤ) (rows : List AlertRow)
    → All (IsUnread id) rows
    → update_where (has_id id) unread (update_where (has_id id) (acknowledged now) rows) ≡ rows
unfolding update_where
unread_again now id [] v = refl
unread_again now id (r ∷ rows) (here, v) =
    let rest = unread_again now id rows v in
    elim (Bool-cases (has_id id r)) [
      | inl e ↦
          let same : unread (acknowledged now r) ≡ r =
            ap (λ (o : Option ℕ). record r { acknowledged_at = o }) (sym (here e)) in
          ground (arith, e, rest, same)
      | inr e ↦ ground (arith, e, rest)
    ]

-- A request of the admin to mark an alert that has not been marked, which the database accepts: to take
-- the mark back restores the table, and is answered as the request was (204 if the alert is there, 404
-- if not). To mark the alert again instead is answered so too, and keeps the table, with the time of
-- the first mark.
pub acknowledge_route_undone :
    (now later : ℕ) (id : ℤ) (t : AlertTable)
    → All (IsUnread id) t.alerts
    → let (reply, marked) = acknowledge_route none true now id t in
      (unacknowledge_route none true id marked ≡ (reply, t))
      × (acknowledge_route none true later id marked ≡ (reply, marked))
      × ((reply ≡ no_content) ⊎ (reply ≡ not_found))
unfolding acknowledge_route unacknowledge_route acknowledge_alert unacknowledge_alert
acknowledge_route_undone now later id t v =
    let back = unread_again now id t.alerts v in
    let again = acknowledge_twice now later id t.alerts in
    let same = count_acknowledged now id t.alerts in
    (
      rw (same, back) refl,
      rw (same, again) refl,
      elim (Bool-cases (ltb 0 (count_where (has_id id) t.alerts))) [
        | inl there ↦ inl (rw there refl)
        | inr missing ↦ inr (rw missing refl)
      ],
    )
