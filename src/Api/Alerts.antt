-- ===== src/Api/Alerts.antt =====
-- src/db/alerts.rs and src/api/routes/alerts.rs: the table of alerts, its list for the dashboard, and
-- the marks of what has been read. `denied` is what `auth::guard` answers, `accepts` whether the
-- database accepts the statement, and `now` its clock.
pub mod Errors
pub mod Listed
pub mod Marks
use lumina_analytics.Prelude.{
  ℕ, ◌+◌, String, Bool, true, false, not, ◌&&◌, ◌||◌, Option, none, some, List, [], ◌∷◌, ◌++◌,
  filter, length, str_eq, ltb, leb, if◌then◌else◌,
}
use lumina_analytics.Prelude.Sort.{sort_by, take}
use lumina_analytics.Prelude.Assoc.{string_eq, lookup}
use lumina_analytics.Prelude.Int.{ℤ, pos, pos_part}
use lumina_analytics.Models.{AlertRow}
use lumina_analytics.RuleRoutes.{id_eq}
use lumina_analytics.Api.{
  Reply, json, no_content, not_found, internal_error, bad_request, unauthorized, clamp, unwrap_or,
}

-- The table `alerts`, with the next id of its sequence.
pub record AlertTable : Type 0 where
  pub alerts : List AlertRow
  pub next_id : ℕ

unfoldable pub insert_alert :
    ℕ → (kind severity message : String) → List (String × String) → AlertTable → AlertTable
insert_alert time kind severity message details t = record {
  alerts =
      t.alerts
      ++ (record {
        id = pos t.next_id;
        time = time;
        kind = kind;
        severity = severity;
        message = message;
        details = details;
        acknowledged_at = none;
      }
          ∷ []);
  next_id = t.next_id + 1;
}

-- `$n::text IS NULL OR value = $n`
unfoldable pub matches_filter : Option String → Option String → Bool
matches_filter none value = true
matches_filter (some wanted) none = false
matches_filter (some wanted) (some value) = str_eq value wanted

abbrev pub is_null : Option ℕ → Bool
is_null none = true
is_null (some time) = false

-- `details ->> name`
abbrev pub detail : String → AlertRow → Option String
detail name r = lookup name r.details

pub record AlertsQuery : Type 0 where
  pub limit : Option ℤ
  pub kind : Option String
  pub pool_id : Option String
  pub asset_code : Option String
  pub asset_issuer : Option String
  pub unacknowledged : Bool

-- The `WHERE` clause
unfoldable pub is_listed :
    (kind pool_id asset_code asset_issuer : Option String) → Bool → AlertRow → Bool
unfolding matches_filter lookup
is_listed kind pool_id asset_code asset_issuer unacknowledged_only r =
    matches_filter kind (some r.kind)
    && matches_filter pool_id (detail "pool_id" r)
    && matches_filter asset_code (detail "asset_code" r)
    && matches_filter asset_issuer (detail "asset_issuer" r)
    && (not unacknowledged_only || is_null r.acknowledged_at)

-- `ORDER BY time DESC`
abbrev pub newer : AlertRow → AlertRow → Bool
newer a b = leb b.time a.time

unfoldable pub list_alerts :
    ℤ → (kind pool_id asset_code asset_issuer : Option String) → Bool → AlertTable → List AlertRow
unfolding is_listed sort_by
list_alerts limit kind pool_id asset_code asset_issuer unacknowledged_only t =
    take (pos_part limit) (
      sort_by newer
        (filter (is_listed kind pool_id asset_code asset_issuer unacknowledged_only) t.alerts))

unfoldable pub alerts_route : Bool → AlertsQuery → AlertTable → Reply (List AlertRow)
unfolding list_alerts
alerts_route accepts q t =
    let limit = clamp (unwrap_or q.limit (pos 100)) (pos 1) (pos 1000) in
    if accepts
    then json (list_alerts limit q.kind q.pool_id q.asset_code q.asset_issuer q.unacknowledged t)
    else internal_error

-- `COALESCE(acknowledged_at, now())`
abbrev pub coalesce : Option ℕ → ℕ → Option ℕ
coalesce none now = some now
coalesce (some time) now = some time

abbrev pub acknowledged : ℕ → AlertRow → AlertRow
acknowledged now r = record r { acknowledged_at = coalesce r.acknowledged_at now }

abbrev pub unread : AlertRow → AlertRow
unread r = record r { acknowledged_at = none }

-- An `UPDATE` of the rows that a test chooses, and how many these are.
unfoldable pub update_where :
    (AlertRow → Bool) → (AlertRow → AlertRow) → List AlertRow → List AlertRow
update_where chosen change [] = []
update_where chosen change (r ∷ rows) =
    (if chosen r then change r else r) ∷ update_where chosen change rows

abbrev pub count_where : (AlertRow → Bool) → List AlertRow → ℕ
count_where chosen rows = length (filter chosen rows)

abbrev pub has_id : ℤ → AlertRow → Bool
has_id id r = id_eq r.id id

-- `id = ANY($1)`
unfoldable pub has_id_in : List ℤ → AlertRow → Bool
has_id_in [] r = false
has_id_in (id ∷ ids) r = has_id id r || has_id_in ids r

-- Whether the row is there, and the table after.
unfoldable pub acknowledge_alert : ℕ → ℤ → AlertTable → Bool × AlertTable
unfolding update_where
acknowledge_alert now id t = (
  ltb 0 (count_where (has_id id) t.alerts),
  record t { alerts = update_where (has_id id) (acknowledged now) t.alerts },
)

unfoldable pub unacknowledge_alert : ℤ → AlertTable → Bool × AlertTable
unfolding update_where
unacknowledge_alert id t = (
  ltb 0 (count_where (has_id id) t.alerts),
  record t { alerts = update_where (has_id id) unread t.alerts },
)

-- How many rows are updated, and the table after.
unfoldable pub acknowledge_alerts : ℕ → List ℤ → AlertTable → ℕ × AlertTable
unfolding update_where has_id_in
acknowledge_alerts now [] t = (0, t)
acknowledge_alerts now (id ∷ ids) t = (
  count_where (has_id_in (id ∷ ids)) t.alerts,
  record t { alerts = update_where (has_id_in (id ∷ ids)) (acknowledged now) t.alerts },
)

-- The end of the two handlers of one alert
abbrev pub found_or_missing : Bool × AlertTable → Reply (Unit {0}) × AlertTable
found_or_missing (found, t) = (if found then no_content else not_found, t)

unfoldable pub acknowledge_route :
    (denied : Option String) (accepts : Bool) → ℕ → ℤ → AlertTable → Reply (Unit {0}) × AlertTable
unfolding acknowledge_alert
acknowledge_route (some message) accepts now id t = (unauthorized message, t)
acknowledge_route none accepts now id t =
    if accepts then found_or_missing (acknowledge_alert now id t) else (internal_error, t)

unfoldable pub unacknowledge_route :
    (denied : Option String) (accepts : Bool) → ℤ → AlertTable → Reply (Unit {0}) × AlertTable
unfolding unacknowledge_alert
unacknowledge_route (some message) accepts id t = (unauthorized message, t)
unacknowledge_route none accepts id t =
    if accepts then found_or_missing (unacknowledge_alert id t) else (internal_error, t)

-- The database is not asked when there are no ids.
unfoldable pub acknowledge_bulk_route :
    (denied : Option String) (accepts : Bool) → ℕ → List ℤ → AlertTable → Reply ℕ × AlertTable
unfolding acknowledge_alerts
acknowledge_bulk_route (some message) accepts now ids t = (unauthorized message, t)
acknowledge_bulk_route none accepts now ids t =
    if ltb 1000 (length ids)
    then (bad_request "at most 1000 ids per request", t)
    else if accepts || ltb (length ids) 1
    then (let (count, after) = acknowledge_alerts now ids t in (json count, after))
    else (internal_error, t)
