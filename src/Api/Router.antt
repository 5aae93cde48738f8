-- ===== src/Api/Router.antt =====
-- The requests that change something, as the router of src/api/routes/mod.rs hands them to the
-- handlers, on the tables that these change. The routes that only read are not in it, nor are the
-- layers around the routes: RateLimit and Metrics model the two that are the code's own.
pub mod Errors
use lumina_analytics.Prelude.{ℕ, String, Bool, true, false, Option, none, some, List}
use lumina_analytics.Prelude.Int.{ℤ}
use lumina_analytics.Decimal.{DecimalOps}
use lumina_analytics.RuleRoutes.{
  NewAlertRule, RuleTable, is_none, create_alert_rule, update_alert_rule, delete_alert_rule,
}
use lumina_analytics.Api.{Reply, status}
use lumina_analytics.Api.Alerts.{
  AlertTable, acknowledge_route, unacknowledge_route, acknowledge_bulk_route,
}
use lumina_analytics.Api.Channels.{
  NewAlertChannel, ChannelTable, create_alert_channel, delete_alert_channel,
}
use lumina_analytics.Api.Watchlist.{
  NewWatchlistItem, WatchlistTable, create_watchlist_item, delete_watchlist_item,
}

-- The method and the path of a request, with what these and its body hold.
pub data Change (D : Type 0) : Type 0 where
  patch_ack : (id : ℤ) → Change D
  delete_ack : (id : ℤ) → Change D
  patch_ack_bulk : (ids : List ℤ) → Change D
  post_channel : NewAlertChannel → Change D
  remove_channel : (id : ℤ) → Change D
  post_rule : NewAlertRule D → Change D
  patch_rule : (id : ℤ) (threshold : D) (enabled : Bool) → Change D
  remove_rule : (id : ℤ) → Change D
  post_item : NewWatchlistItem → Change D
  remove_item : (id : ℤ) → Change D

pub record Tables (D : Type 0) : Type 0 where
  pub alerts : AlertTable
  pub channels : ChannelTable
  pub rules : RuleTable D
  pub watchlist : WatchlistTable

module _ {D : Type 0} where
  abbrev pub with_alerts : {A : Type 0} → Tables D → Reply A × AlertTable → ℕ × Tables D
  with_alerts s (reply, t) = (status reply, record s { alerts = t })

  abbrev pub with_channels : {A : Type 0} → Tables D → Reply A × ChannelTable → ℕ × Tables D
  with_channels s (reply, t) = (status reply, record s { channels = t })

  abbrev pub with_rules : Tables D → ℕ × RuleTable D → ℕ × Tables D
  with_rules s (code, t) = (code, record s { rules = t })

  abbrev pub with_watchlist : {A : Type 0} → Tables D → Reply A × WatchlistTable → ℕ × Tables D
  with_watchlist s (reply, t) = (status reply, record s { watchlist = t })

-- The status of the response, and the tables after. `denied` is what `auth::guard` answers, and
-- `channel_id` the id that the sequence of the channels gives.
module _ {D : Type 0} ⦃d : DecimalOps D⦄ (denied : Option String) (accepts : Bool)
    (now channel_id : ℕ) where
  unfoldable pub router : Change D → Tables D → ℕ × Tables D
  router (patch_ack id) s = with_alerts s (acknowledge_route denied accepts now id s.alerts)
  router (delete_ack id) s = with_alerts s (unacknowledge_route denied accepts id s.alerts)
  router (patch_ack_bulk ids) s =
      with_alerts s (acknowledge_bulk_route denied accepts now ids s.alerts)
  router (post_channel body) s =
      with_channels s (create_alert_channel denied accepts channel_id now body s.channels)
  router (remove_channel id) s = with_channels s (delete_alert_channel denied accepts id s.channels)
  router (post_rule body) s =
      with_rules s (create_alert_rule (is_none denied) accepts now body s.rules)
  router (patch_rule id threshold enabled) s =
      with_rules s (update_alert_rule (is_none denied) accepts id threshold enabled s.rules)
  router (remove_rule id) s = with_rules s (delete_alert_rule (is_none denied) accepts id s.rules)
  router (post_item body) s =
      with_watchlist s (create_watchlist_item denied accepts now body s.watchlist)
  router (remove_item id) s = with_watchlist s (delete_watchlist_item denied accepts id s.watchlist)
