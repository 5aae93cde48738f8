-- ===== src/Tests/Api.antt =====
-- Concrete inputs for the theorems on the requests to the API.
use lumina_analytics.Prelude.{
  ℕ, ◌≤◌, ◌<◌, String, ◌≡◌, refl, ◌⊎◌, inl, inr, true, Option, none, some, List, [], ◌∷◌, All,
  arith, str_eq, if◌then◌else◌,
}
use lumina_analytics.Prelude.Assoc.{string_eq}
use lumina_analytics.Prelude.Int.{ℤ, pos}
use lumina_analytics.Decimal.Micro.{micro_ops}
use lumina_analytics.Models.{AlertChannelRow, WatchlistItemRow, AlertRow}
use lumina_analytics.Alerts.{Answers, info, warning, deliver_to_channels}
use lumina_analytics.Alerts.Delivery.{attempts}
use lumina_analytics.Text.{trim, starts_with, to_ascii_uppercase}
use lumina_analytics.Alerts.{parse}
use lumina_analytics.Auth.{guard}
use lumina_analytics.Auth.Guard.{Carries}
use lumina_analytics.RuleRoutes.{delete_alert_rule}
use lumina_analytics.Api.{json, no_content, not_found, status}
use lumina_analytics.Api.Alerts.{
  AlertTable, AlertsQuery, alerts_route, acknowledge_bulk_route, acknowledge_route,
  unacknowledge_route, count_where, has_id_in,
}
use lumina_analytics.Api.Alerts.Listed.{IsLimit, IsNewest, alerts_route-IsNewest}
use lumina_analytics.Api.Alerts.Marks.{
  acknowledge_each, acknowledge_bulk_route-each, acknowledge_route_undone,
}
use lumina_analytics.Api.Channels.{ChannelTable, list_enabled_alert_channels}
use lumina_analytics.Api.Channels.Stored.{
  ChannelRequest, add, drop, serve_all, IsStored, IsDue, serve_all-deliver_to_channels,
}
use lumina_analytics.Api.Watchlist.{NewWatchlistItem, WatchlistTable}
use lumina_analytics.Api.Watchlist.Unique.{
  WatchRequest, pin, unpin, watch_all, IsUnique, watch_all-IsUnique,
}
use lumina_analytics.Api.Router.{post_item, remove_rule, Tables, router}
use lumina_analytics.Api.Router.Errors.{router-guard, router-error}

abbrev fish : WatchlistItemRow
fish = record {
  id = pos 1;
  item_type = "token";
  item_key = "USDC:G";
  label = "USD Coin";
  created_at = 5;
}

abbrev watched : WatchlistTable
watched = record { items = fish ∷ []; next_id = 2 }

abbrev pinned : NewWatchlistItem
pinned = record { item_type = "token"; item_key = "USDC:G"; label = "Dollar" }

abbrev watch_requests : List WatchRequest
watch_requests = pin none true 7 pinned ∷ unpin (some "no") true (pos 1) ∷ []

watched-IsUnique : IsUnique watched
unfolding trim
watched-IsUnique = record {
  items = ((inr (inl refl), refl, refl), tt);
  differ = (tt, tt);
  fresh = (refl, tt);
}

watch_all-IsUnique_example : IsUnique (watch_all watch_requests watched)
watch_all-IsUnique_example = watch_all-IsUnique watch_requests watched watched-IsUnique

abbrev alert : ℕ → ℕ → AlertRow
alert id time = record {
  id = pos id;
  time = time;
  kind = "liquidity_drop";
  severity = "WARNING";
  message = "m";
  details = ("pool_id", "p") ∷ [];
  acknowledged_at = none;
}

abbrev alert_table : AlertTable
alert_table = record { alerts = alert 1 10 ∷ alert 2 20 ∷ []; next_id = 3 }

abbrev of_pool : AlertsQuery
of_pool = record {
  limit = some (pos 1);
  kind = none;
  pool_id = some "p";
  asset_code = none;
  asset_issuer = none;
  unacknowledged = true;
}

alerts_route-IsNewest_example :
    (n : ℕ) × (rows : List AlertRow) × (alerts_route true of_pool alert_table ≡ json rows)
    × IsLimit of_pool.limit n
    × IsNewest of_pool alert_table n rows
alerts_route-IsNewest_example = alerts_route-IsNewest of_pool alert_table

acknowledge_bulk_route-each_example :
    ((2 ≤ 1000)
      × (acknowledge_bulk_route none true 30 (pos 2 ∷ pos 9 ∷ []) alert_table ≡ (
        json (count_where (has_id_in (pos 2 ∷ pos 9 ∷ [])) alert_table.alerts),
        acknowledge_each 30 (pos 2 ∷ pos 9 ∷ []) alert_table,
      )))
    ⊎ ((1000 < 2)
        × (status (acknowledge_bulk_route none true 30 (pos 2 ∷ pos 9 ∷ []) alert_table).0 ≡ 400)
        × ((acknowledge_bulk_route none true 30 (pos 2 ∷ pos 9 ∷ []) alert_table).1 ≡ alert_table))
acknowledge_bulk_route-each_example =
    acknowledge_bulk_route-each 30 (pos 2 ∷ pos 9 ∷ []) alert_table

acknowledge_route_undone_example :
    let (reply, marked) = acknowledge_route none true 30 (pos 2) alert_table in
    (unacknowledge_route none true (pos 2) marked ≡ (reply, alert_table))
    × (acknowledge_route none true 40 (pos 2) marked ≡ (reply, marked))
    × ((reply ≡ no_content) ⊎ (reply ≡ not_found))
acknowledge_route_undone_example =
    acknowledge_route_undone 30 40 (pos 2) alert_table (λ e. refl, (λ e. refl, tt))

abbrev channel : AlertChannelRow
channel = record {
  id = pos 1;
  name = "ops";
  kind = "slack";
  url = "https://hooks";
  min_severity = "info";
  enabled = true;
  created_at = 3;
}

abbrev channel_table : ChannelTable
channel_table = record { channels = channel ∷ [] }

channel_table-IsStored : IsStored channel_table
unfolding trim starts_with parse to_ascii_uppercase
channel_table-IsStored = record {
  channels = ((refl, inl refl, inr refl, (info, refl)), tt);
  names = (tt, tt);
}

abbrev channel_requests : List ChannelRequest
channel_requests =
    add none true 2 4 (record {
      name = "chat";
      kind = "discord";
      url = "http://d";
      min_severity = none;
      enabled = none;
    })
    ∷ drop none true (pos 7)
    ∷ []

abbrev delivery : Answers
delivery = record {
  insert_succeeds = true;
  channels = some (list_enabled_alert_channels (serve_all channel_requests channel_table));
  post_succeeds = λ url body. true;
  notify_succeeds = true;
}

serve_all-deliver_to_channels_example :
    All
      (IsDue (serve_all channel_requests channel_table) warning)
      (attempts {V = String} (deliver_to_channels delivery warning "m"))
serve_all-deliver_to_channels_example =
    serve_all-deliver_to_channels String channel_requests channel_table delivery warning "m"
      channel_table-IsStored refl

abbrev tables : Tables ℤ
tables = record {
  alerts = alert_table;
  channels = channel_table;
  rules = record { rules = []; next_id = 1 };
  watchlist = watched;
}

abbrev get : String → Option String
get name = if str_eq name "x-admin-key" then some "guess" else none

abbrev secret : Option String
secret = some "secret"

router-guard_example :
    let denied = guard secret get (λ s. some s) in
    (((secret ≡ none) ⊎ ((key : String) × (secret ≡ some key) × Carries get (λ s. some s) key))
      × (router denied true 9 2 (post_item pinned) tables
          ≡ router none true 9 2 (post_item pinned) tables))
    ⊎ ((key : String) × (secret ≡ some key)
        × ¬ Carries get (λ s. some s) key
        × (router denied true 9 2 (post_item pinned) tables ≡ (401, tables)))
router-guard_example = router-guard true 9 2 get (λ s. some s) secret (post_item pinned) tables

router-error_example : (router none true 9 2 (remove_rule (pos 4)) tables).1 ≡ tables
unfolding router delete_alert_rule
router-error_example = router-error true 9 2 none (remove_rule (pos 4)) tables (omega arith)
