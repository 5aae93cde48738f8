-- ===== src/Api/Alerts/Errors.antt =====
-- The handlers of src/api/routes/alerts.rs, where they answer with an error.
use lumina_analytics.Prelude.{
  ℕ, ◌≤◌, ◌≡◌, refl, ap, Bool, true, false, none, List, [], ◌∷◌, length, inl, inr, arith,
  Bool-cases, ltb,
}
use lumina_analytics.Api.Alerts.{
  AlertTable, acknowledge_route, unacknowledge_route, acknowledge_bulk_route, acknowledge_alert,
  unacknowledge_alert, update_where, count_where, has_id, acknowledged, unread, found_or_missing,
}
use lumina_analytics.Api.{status}
use lumina_analytics.Prelude.{◌||◌}
use lumina_analytics.Prelude.Int.{ℤ}
use lumina_analytics.Models.{AlertRow}

update_nowhere :
    (chosen : AlertRow → Bool) (change : AlertRow → AlertRow) (rows : List AlertRow)
    → ltb 0 (count_where chosen rows) ≡ false
    → update_where chosen change rows ≡ rows
unfolding update_where
update_nowhere chosen change [] h = refl
update_nowhere chosen change (r ∷ rows) h = elim (Bool-cases (chosen r)) [
  | inl e ↦ absurd (ground (arith, e))
  | inr e ↦
      let rest = update_nowhere chosen change rows (ground (arith, e)) in ground (arith, e, rest)
]

-- A table whose rows are kept is the table.
found_or_missing-error :
    (found : Bool) (after before : AlertTable)
    → (found ≡ false → after ≡ before)
    → 400 ≤ status (found_or_missing (found, after)).0
    → (found_or_missing (found, after)).1 ≡ before
found_or_missing-error true after before h e = absurd (omega arith)
found_or_missing-error false after before h e = h refl

pub acknowledge_route-error :
    (accepts : Bool) (now : ℕ) (id : ℤ) (t : AlertTable)
    → 400 ≤ status (acknowledge_route none accepts now id t).0
    → (acknowledge_route none accepts now id t).1 ≡ t
unfolding acknowledge_route acknowledge_alert
acknowledge_route-error false now id t e = refl
acknowledge_route-error true now id t e =
    found_or_missing-error (ltb 0 (count_where (has_id id) t.alerts)) _ t
      (λ none_there.
        ap (λ (rows : List AlertRow). record t { alerts = rows })
          (update_nowhere (has_id id) (acknowledged now) t.alerts none_there))
      e

pub unacknowledge_route-error :
    (accepts : Bool) (id : ℤ) (t : AlertTable)
    → 400 ≤ status (unacknowledge_route none accepts id t).0
    → (unacknowledge_route none accepts id t).1 ≡ t
unfolding unacknowledge_route unacknowledge_alert
unacknowledge_route-error false id t e = refl
unacknowledge_route-error true id t e =
    found_or_missing-error (ltb 0 (count_where (has_id id) t.alerts)) _ t
      (λ none_there.
        ap (λ (rows : List AlertRow). record t { alerts = rows })
          (update_nowhere (has_id id) unread t.alerts none_there))
      e

pub acknowledge_bulk_route-error :
    (accepts : Bool) (now : ℕ) (ids : List ℤ) (t : AlertTable)
    → 400 ≤ status (acknowledge_bulk_route none accepts now ids t).0
    → (acknowledge_bulk_route none accepts now ids t).1 ≡ t
unfolding acknowledge_bulk_route
acknowledge_bulk_route-error accepts now ids t e = elim (Bool-cases (ltb 1000 (length ids))) [
  | inl many ↦ rw many refl
  | inr few ↦ elim (Bool-cases (accepts || ltb (length ids) 1)) [
    | inl sent ↦ absurd (ground (arith, few, sent))
    | inr refused ↦ rw (few, refused) refl
  ]
]
