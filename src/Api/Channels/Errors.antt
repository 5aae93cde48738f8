-- ===== src/Api/Channels/Errors.antt =====
-- The handlers of channels in src/api/routes/alert_config.rs, where they answer with an error.
use lumina_analytics.Prelude.{
  ℕ, ◌≤◌, ◌≡◌, refl, ap, Bool, true, false, not, none, List, [], ◌∷◌, filter_keeps, inl, inr, arith,
  Bool-cases, Option-cases,
}
use lumina_analytics.Api.Channels.{
  ChannelTable, NewAlertChannel, channel_error, insert_alert_channel, create_alert_channel,
  delete_alert_channel, has_channel, delete_channel,
}
use lumina_analytics.Api.{status}
use lumina_analytics.Prelude.{All}
use lumina_analytics.Prelude.Int.{ℤ}
use lumina_analytics.RuleRoutes.{id_eq}
use lumina_analytics.Models.{AlertChannelRow}

has_channel-none :
    (id : ℤ) (rows : List AlertChannelRow)
    → has_channel id rows ≡ false
    → All (λ r. not (id_eq r.id id) ≡ true) rows
has_channel-none id [] h = tt
has_channel-none id (r ∷ rows) h = (ground arith, has_channel-none id rows (ground arith))

pub delete_alert_channel-error :
    (accepts : Bool) (id : ℤ) (t : ChannelTable)
    → 400 ≤ status (delete_alert_channel none accepts id t).0
    → (delete_alert_channel none accepts id t).1 ≡ t
unfolding delete_alert_channel delete_channel
delete_alert_channel-error false id t e = refl
delete_alert_channel-error true id t e = elim (Bool-cases (has_channel id t.channels)) [
  | inl there ↦ absurd (ground (arith, there))
  | inr missing ↦
      rw (missing, delete_alert_channel)
        (ap (λ (rows : List AlertChannelRow). record t { channels = rows })
          (filter_keeps _ t.channels (has_channel-none id t.channels missing)))
]

pub create_alert_channel-error :
    (accepts : Bool) (id now : ℕ) (body : NewAlertChannel) (t : ChannelTable)
    → 400 ≤ status (create_alert_channel none accepts id now body t).0
    → (create_alert_channel none accepts id now body t).1 ≡ t
unfolding create_alert_channel
create_alert_channel-error accepts id now body t e = elim (Option-cases (channel_error body)) [
  | inr (message, bad) ↦ rw (bad, create_alert_channel) refl
  | inl fine ↦ elim (Bool-cases accepts) [
    | inr down ↦ rw (fine, down, create_alert_channel) refl
    | inl up ↦ elim (Option-cases (insert_alert_channel id now body t)) [
      | inl taken ↦ rw (fine, up, taken, create_alert_channel) refl
      | inr ((row, after), stored) ↦ absurd (ground (arith, fine, up, stored))
    ]
  ]
]
