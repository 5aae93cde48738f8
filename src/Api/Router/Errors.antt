-- ===== src/Api/Router/Errors.antt =====
-- What the requests that change something do when they are refused.
use lumina_analytics.Prelude.{
  ℕ, ◌≤◌, String, ◌≡◌, refl, ap, Bool, Option, none, some, ◌⊎◌, inl, inr, arith, Option-cases,
}
use lumina_analytics.Decimal.{DecimalOps}
use lumina_analytics.Auth.{guard}
use lumina_analytics.Auth.Guard.{Carries, guard_iff}
use lumina_analytics.RuleRoutes.{RuleTable, create_alert_rule, update_alert_rule, delete_alert_rule}
use lumina_analytics.Api.Alerts.{
  AlertTable, acknowledge_route, unacknowledge_route, acknowledge_bulk_route,
}
use lumina_analytics.Api.Channels.{ChannelTable, create_alert_channel, delete_alert_channel}
use lumina_analytics.Api.Watchlist.{WatchlistTable, create_watchlist_item, delete_watchlist_item}
use lumina_analytics.Api.Router.{
  Change, patch_ack, delete_ack, patch_ack_bulk, post_channel, remove_channel, post_rule,
  patch_rule, remove_rule, post_item, remove_item, Tables, router,
}
use lumina_analytics.RuleRoutes.Errors.{
  create_alert_rule-error, update_alert_rule-error, delete_alert_rule-error,
}
use lumina_analytics.Api.Alerts.Errors.{
  acknowledge_route-error, unacknowledge_route-error, acknowledge_bulk_route-error,
}
use lumina_analytics.Api.Channels.Errors.{create_alert_channel-error, delete_alert_channel-error}
use lumina_analytics.Api.Watchlist.Errors.{create_watchlist_item-error, delete_watchlist_item-error}

module _ {D : Type 0} ⦃d : DecimalOps D⦄ (accepts : Bool) (now channel_id : ℕ) where
  router_denied :
      (message : String) (change : Change D) (s : Tables D)
      → router (some message) accepts now channel_id change s ≡ (401, s)
  unfolding router create_alert_rule update_alert_rule delete_alert_rule acknowledge_route
      unacknowledge_route acknowledge_bulk_route create_alert_channel delete_alert_channel
      create_watchlist_item delete_watchlist_item
  router_denied message (patch_ack id) s = refl
  router_denied message (delete_ack id) s = refl
  router_denied message (patch_ack_bulk ids) s = refl
  router_denied message (post_channel body) s = refl
  router_denied message (remove_channel id) s = refl
  router_denied message (post_rule body) s = refl
  router_denied message (patch_rule id threshold enabled) s = refl
  router_denied message (remove_rule id) s = refl
  router_denied message (post_item body) s = refl
  router_denied message (remove_item id) s = refl

  -- Where no admin key is configured, a request is handled without a check. Where one is, a request
  -- that carries the key in its header `x-admin-key` is handled in the same way, and one that does not
  -- changes nothing and has the status 401, whatever it asks for and whatever the database would answer.
  pub router-guard :
      {H : Type 0} (get : String → Option H) (to_str : H → Option String)
      (admin_api_key : Option String) (change : Change D) (s : Tables D)
      → let denied = guard admin_api_key get to_str in
        (((admin_api_key ≡ none)
            ⊎ ((key : String) × (admin_api_key ≡ some key) × Carries get to_str key))
          × (router denied accepts now channel_id change s
              ≡ router none accepts now channel_id change s))
        ⊎ ((key : String) × (admin_api_key ≡ some key)
            × ¬ Carries get to_str key
            × (router denied accepts now channel_id change s ≡ (401, s)))
  router-guard get to_str admin_api_key change s =
      elim (Option-cases (guard admin_api_key get to_str)) [
        | inl passed ↦ inl ((guard_iff get to_str admin_api_key).0 passed, rw passed refl)
        | inr (message, denied) ↦ elim (Option-cases admin_api_key) [
          | inl unset ↦
              let passes = (guard_iff get to_str admin_api_key).1 (inl unset) in
              absurd (ground (arith, passes, denied))
          | inr (key, is_set) ↦ inr (
            key,
            is_set,
            λ carried.
                let passes = (guard_iff get to_str admin_api_key).1 (inr (key, is_set, carried)) in
                absurd (ground (arith, passes, denied)),
            rw denied (router_denied message change s),
          )
        ]
      ]

  -- A request that is answered with an error, of its own (400, 404), of access (401) or of the database
  -- (500), leaves every table as it was.
  pub router-error :
      (denied : Option String) (change : Change D) (s : Tables D)
      → 400 ≤ (router denied accepts now channel_id change s).0
      → (router denied accepts now channel_id change s).1 ≡ s
  unfolding router
  router-error (some message) change s e =
      ap (λ (r : ℕ × Tables D). r.1) (router_denied message change s)
  router-error none (patch_ack id) s e =
      ap (λ (t : AlertTable). record s { alerts = t })
        (acknowledge_route-error accepts now id s.alerts e)
  router-error none (delete_ack id) s e =
      ap (λ (t : AlertTable). record s { alerts = t })
        (unacknowledge_route-error accepts id s.alerts e)
  router-error none (patch_ack_bulk ids) s e =
      ap (λ (t : AlertTable). record s { alerts = t })
        (acknowledge_bulk_route-error accepts now ids s.alerts e)
  router-error none (post_channel body) s e =
      ap (λ (t : ChannelTable). record s { channels = t })
        (create_alert_channel-error accepts channel_id now body s.channels e)
  router-error none (remove_channel id) s e =
      ap (λ (t : ChannelTable). record s { channels = t })
        (delete_alert_channel-error accepts id s.channels e)
  router-error none (post_rule body) s e =
      ap (λ (t : RuleTable D). record s { rules = t })
        (create_alert_rule-error accepts now body s.rules e)
  router-error none (patch_rule id threshold enabled) s e =
      ap (λ (t : RuleTable D). record s { rules = t })
        (update_alert_rule-error accepts id threshold enabled s.rules e)
  router-error none (remove_rule id) s e =
      ap (λ (t : RuleTable D). record s { rules = t })
        (delete_alert_rule-error accepts id s.rules e)
  router-error none (post_item body) s e =
      ap (λ (t : WatchlistTable). record s { watchlist = t })
        (create_watchlist_item-error accepts now body s.watchlist e)
  router-error none (remove_item id) s e =
      ap (λ (t : WatchlistTable). record s { watchlist = t })
        (delete_watchlist_item-error accepts id s.watchlist e)
