-- ===== src/Api/Channels.antt =====
-- src/api/routes/alert_config.rs and src/db/alert_config.rs: the channels that alerts are delivered to.
-- `denied` is what `auth::guard` answers, and `accepts` whether the database is there; it refuses a
-- second channel of one name by itself.
pub mod Errors
pub mod Stored
use lumina_analytics.Prelude.{
  ℕ, ◌+◌, String, Bool, true, false, not, ◌&&◌, ◌||◌, Option, none, some, List, [], ◌∷◌, ◌++◌,
  filter, str_eq, if◌then◌else◌,
}
use lumina_analytics.Prelude.Int.{ℤ, pos, leb_ℤ}
use lumina_analytics.Prelude.Sort.{sort_by}
use lumina_analytics.Text.{trim, is_empty, starts_with}
use lumina_analytics.Models.{AlertChannelRow}
use lumina_analytics.RuleRoutes.{id_eq}
use lumina_analytics.Alerts.{Severity, parse}
use lumina_analytics.Api.{
  Reply, json, created, no_content, not_found, internal_error, bad_request, unauthorized, unwrap_or,
}

-- The table `alert_channels`.
pub record ChannelTable : Type 0 where
  pub channels : List AlertChannelRow

-- A body as it is sent: two fields have defaults.
pub record NewAlertChannel : Type 0 where
  pub name : String
  pub kind : String
  pub url : String
  pub min_severity : Option String
  pub enabled : Option Bool

abbrev pub default_min_severity : String
default_min_severity = "WARNING"

abbrev pub default_true : Bool
default_true = true

abbrev pub severity_of : NewAlertChannel → String
severity_of body = unwrap_or body.min_severity default_min_severity

-- `ORDER BY id`
abbrev pub id_le : AlertChannelRow → AlertChannelRow → Bool
id_le a b = leb_ℤ a.id b.id

unfoldable pub list_alert_channels : ChannelTable → List AlertChannelRow
unfolding sort_by
list_alert_channels t = sort_by id_le t.channels

unfoldable pub list_enabled_alert_channels : ChannelTable → List AlertChannelRow
unfolding sort_by
list_enabled_alert_channels t =
    sort_by id_le (filter (λ (r : AlertChannelRow). r.enabled) t.channels)

-- `name TEXT NOT NULL UNIQUE`
unfoldable pub has_name : String → List AlertChannelRow → Bool
has_name name [] = false
has_name name (r ∷ rows) = str_eq r.name name || has_name name rows

abbrev pub channel_row : (id now : ℕ) → NewAlertChannel → AlertChannelRow
channel_row id now body = record {
  id = pos id;
  name = body.name;
  kind = body.kind;
  url = body.url;
  min_severity = severity_of body;
  enabled = unwrap_or body.enabled default_true;
  created_at = now;
}

-- The row that is returned, and the table after; `none` for a name that is there. `id` is what the
-- sequence of the table gives, which also a refused row uses up.
unfoldable pub insert_alert_channel :
    (id now : ℕ) → NewAlertChannel → ChannelTable → Option (AlertChannelRow × ChannelTable)
unfolding has_name
insert_alert_channel id now body t =
    let row = channel_row id now body in
    if has_name body.name t.channels
    then none
    else some (row, record { channels = t.channels ++ (row ∷ []) })

-- `update_alert_channel` of src/db/alert_config.rs, which no handler calls: the row that is there, and
-- the table after.
unfoldable pub update_channel :
    ℤ
    → (min_severity : String) (enabled : Bool) → List AlertChannelRow
    → Option AlertChannelRow × List AlertChannelRow
update_channel id min_severity enabled [] = (none, [])
update_channel id min_severity enabled (r ∷ rows) =
    let changed : AlertChannelRow = record r { min_severity = min_severity; enabled = enabled } in
    let (found, rest) = update_channel id min_severity enabled rows in
    if id_eq r.id id then (some changed, changed ∷ rows) else (found, r ∷ rest)

abbrev pub has_channel : ℤ → List AlertChannelRow → Bool
has_channel id [] = false
has_channel id (r ∷ rows) = id_eq r.id id || has_channel id rows

-- Whether a row was deleted, and the table after.
unfoldable pub delete_channel : ℤ → ChannelTable → Bool × ChannelTable
delete_channel id t = (
  has_channel id t.channels,
  record t { channels = filter (λ (r : AlertChannelRow). not (id_eq r.id id)) t.channels },
)

abbrev pub is_unknown : Option Severity → Bool
is_unknown none = true
is_unknown (some severity) = false

-- The message of the first check that fails.
unfoldable pub channel_error : NewAlertChannel → Option String
unfolding trim starts_with parse
channel_error body =
    if is_empty (trim body.name)
    then some "name must not be empty"
    else if not
        (str_eq body.kind "slack" || str_eq body.kind "discord" || str_eq body.kind "generic")
    then some "kind must be one of: slack, discord, generic"
    else if not (starts_with body.url "http://" || starts_with body.url "https://")
    then some "url must start with http:// or https://"
    else if is_unknown (parse (severity_of body))
    then some "min_severity must be one of: INFO, WARNING, CRITICAL"
    else none

unfoldable pub list_channels_route : Bool → ChannelTable → Reply (List AlertChannelRow)
unfolding list_alert_channels
list_channels_route accepts t = if accepts then json (list_alert_channels t) else internal_error

abbrev inserted_or_refused :
    Option (AlertChannelRow × ChannelTable) → ChannelTable → Reply AlertChannelRow × ChannelTable
inserted_or_refused none t = (internal_error, t)
inserted_or_refused (some (row, after)) t = (created row, after)

unfoldable pub create_alert_channel :
    (denied : Option String) (accepts : Bool)
    → (id now : ℕ) → NewAlertChannel
    → ChannelTable
    → Reply AlertChannelRow × ChannelTable
unfolding channel_error insert_alert_channel
create_alert_channel (some message) accepts id now body t = (unauthorized message, t)
create_alert_channel none accepts id now body t = elim (channel_error body) [
  | some message ↦ (bad_request message, t)
  | none ↦
      if accepts
      then inserted_or_refused (insert_alert_channel id now body t) t
      else (internal_error, t)
]

unfoldable pub delete_alert_channel :
    (denied : Option String) (accepts : Bool) → ℤ → ChannelTable → Reply (Unit {0}) × ChannelTable
unfolding delete_channel
delete_alert_channel (some message) accepts id t = (unauthorized message, t)
delete_alert_channel none accepts id t =
    if not accepts
    then (internal_error, t)
    else let (deleted, after) = delete_channel id t in
      if deleted then (no_content, after) else (not_found, after)
