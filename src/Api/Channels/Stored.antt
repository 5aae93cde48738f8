-- ===== src/Api/Channels/Stored.antt =====
-- Which channels the handlers of src/api/routes/alert_config.rs let into the table, and what
-- `deliver_to_channels` of src/alerts.rs then does with them.
use lumina_analytics.Prelude.{
  ℕ, ◌≤◌, String, ◌≡◌, refl, ◌⊎◌, inl, inr, Bool, true, false, not, Option, none, some, List, [],
  ◌∷◌, filter, All, Pairwise, All-append, All-filter, All-of_at, All-at, Holds, Pairwise-filter,
  Pairwise-append_one, arith, Bool-cases, Option-cases, eq_iff, str_eq,
}
use lumina_analytics.Prelude.Sort.{All-sort_by, Holds-filter}
use lumina_analytics.Prelude.Int.{ℤ}
use lumina_analytics.Text.{trim, is_empty, starts_with}
use lumina_analytics.Models.{AlertChannelRow}
use lumina_analytics.RuleRoutes.{id_eq}
use lumina_analytics.Alerts.{
  Severity, severity_rank, parse, Payload, payload_for_channel, Answers, deliver_to_channels,
}
use lumina_analytics.Alerts.Delivery.{attempts, reaches, to_channels, attempts-deliver_to_channels}
use lumina_analytics.Api.Channels.{
  ChannelTable, NewAlertChannel, severity_of, channel_row, id_le, list_enabled_alert_channels,
  has_name, insert_alert_channel, has_channel, delete_channel, channel_error, create_alert_channel,
  delete_alert_channel,
}

-- A url that the check of a new channel lets pass.
abbrev pub IsHttp : String → Type 0
IsHttp url = (starts_with url "http://" ≡ true) ⊎ (starts_with url "https://" ≡ true)

abbrev pub IsKind : String → Type 0
IsKind kind = (kind ≡ "slack") ⊎ ((kind ≡ "discord") ⊎ (kind ≡ "generic"))

-- What the checks of a new channel see to.
abbrev pub IsChannel : (name kind url min_severity : String) → Type 0
IsChannel name kind url min_severity =
    (is_empty (trim name) ≡ false)
    × IsKind kind
    × IsHttp url
    × ((s : Severity) × (parse min_severity ≡ some s))

abbrev pub OtherName : AlertChannelRow → AlertChannelRow → Type 0
OtherName r s = str_eq r.name s.name ≡ false

pub record IsStored (t : ChannelTable) : Type 0 where
  pub channels :
      All (λ (r : AlertChannelRow). IsChannel r.name r.kind r.url r.min_severity) t.channels
  pub names : Pairwise OtherName t.channels

channel_error-IsChannel :
    (body : NewAlertChannel)
    → channel_error body ≡ none
    → IsChannel body.name body.kind body.url (severity_of body)
unfolding channel_error
channel_error-IsChannel body h = (
  ground arith,
  ground (arith, eq_iff body.kind "slack", eq_iff body.kind "discord", eq_iff body.kind "generic"),
  ground arith,
  elim (Option-cases (parse (severity_of body))) [
    | inr found ↦ found
    | inl missing ↦ absurd (ground (arith, missing))
  ],
)

has_name-OtherName :
    (row : AlertChannelRow) (rows : List AlertChannelRow)
    → has_name row.name rows ≡ false
    → All (λ r. OtherName r row) rows
unfolding has_name
has_name-OtherName row [] h = tt
has_name-OtherName row (r ∷ rows) h = (ground arith, has_name-OtherName row rows (ground arith))

-- A request that changes the channels, as the handlers are called.
pub data ChannelRequest : Type 0 where
  add : (denied : Option String) (accepts : Bool) (id now : ℕ) → NewAlertChannel → ChannelRequest
  drop : (denied : Option String) (accepts : Bool) → ℤ → ChannelRequest

pub serve : ChannelRequest → ChannelTable → ChannelTable
serve (add denied accepts id now body) t = (create_alert_channel denied accepts id now body t).1
serve (drop denied accepts id) t = (delete_alert_channel denied accepts id t).1

pub serve_all : List ChannelRequest → ChannelTable → ChannelTable
serve_all [] t = t
serve_all (r ∷ requests) t = serve_all requests (serve r t)

create_alert_channel-IsStored :
    (accepts : Bool) (id now : ℕ) (body : NewAlertChannel) (t : ChannelTable)
    → IsStored t
    → IsStored (create_alert_channel none accepts id now body t).1
unfolding create_alert_channel insert_alert_channel
create_alert_channel-IsStored accepts id now body t v = elim (Option-cases (channel_error body)) [
  | inr (message, bad) ↦ rw (bad, create_alert_channel) v
  | inl fine ↦ elim (Bool-cases accepts) [
    | inr refused ↦ rw (fine, refused, create_alert_channel) v
    | inl up ↦ elim (Bool-cases (has_name body.name t.channels)) [
      | inl taken ↦ rw (fine, up, taken, create_alert_channel, insert_alert_channel) v
      | inr new ↦
          rw (fine, up, new, create_alert_channel, insert_alert_channel)
            (record {
              channels =
                  All-append (λ (r : AlertChannelRow). IsChannel r.name r.kind r.url r.min_severity)
                    t.channels (channel_row id now body ∷ []) v.channels
                    (channel_error-IsChannel body fine, tt);
              names =
                  Pairwise-append_one OtherName t.channels (channel_row id now body) v.names
                    (has_name-OtherName (channel_row id now body) t.channels new);
            })
    ]
  ]
]

serve-IsStored : (r : ChannelRequest) (t : ChannelTable) → IsStored t → IsStored (serve r t)
unfolding serve create_alert_channel delete_alert_channel delete_channel
serve-IsStored (add (some message) accepts id now body) t v = v
serve-IsStored (add none accepts id now body) t v =
    create_alert_channel-IsStored accepts id now body t v
serve-IsStored (drop (some message) accepts id) t v = v
serve-IsStored (drop none false id) t v = v
serve-IsStored (drop none true id) t v =
    let kept : AlertChannelRow → Bool = λ r. not (id_eq r.id id) in
    let after : IsStored (record t { channels = filter kept t.channels }) = record {
      channels = All-filter _ kept t.channels v.channels;
      names = Pairwise-filter OtherName kept t.channels v.names;
    } in
    elim (Bool-cases (has_channel id t.channels)) [
      | inl there ↦ rw (there, serve, delete_alert_channel) after
      | inr missing ↦ rw (missing, serve, delete_alert_channel) after
    ]

-- Whatever requests to add and to delete channels come, from whomever, and whatever the database
-- answers: if every channel has a name that is not blank and that no other channel has, a known kind, an
-- http or https url, and a minimum severity that can be read, then so has every channel afterwards.
pub serve_all-IsStored :
    (requests : List ChannelRequest) (t : ChannelTable)
    → IsStored t
    → IsStored (serve_all requests t)
unfolding serve_all
serve_all-IsStored [] t v = v
serve_all-IsStored (r ∷ requests) t v =
    serve_all-IsStored requests (serve r t) (serve-IsStored r t v)

-- An attempt to post that goes to an enabled channel of the table whose minimum is reached.
abbrev pub IsDue : ChannelTable → Severity → String × Payload → Type 0
IsDue t severity attempt =
    (c : AlertChannelRow) × (m : Severity) × Holds c t.channels
    × (c.enabled ≡ true)
    × (attempt.0 ≡ c.url)
    × IsHttp c.url
    × (parse c.min_severity ≡ some m)
    × (severity_rank m ≤ severity_rank severity)

module _ (t : ChannelTable) (severity : Severity) (message : String) where
  -- An enabled row of the table.
  abbrev IsListed : AlertChannelRow → Type 0
  IsListed c =
      Holds c t.channels × (c.enabled ≡ true) × IsChannel c.name c.kind c.url c.min_severity

  reached-IsDue :
      (c : AlertChannelRow)
      → IsListed c
      → reaches severity c.min_severity ≡ true
      → IsDue t severity (c.url, payload_for_channel c.kind severity message)
  reached-IsDue c (there, on, checked) reached =
      let (m, e) = checked.3 in (c, m, there, on, refl, checked.2, e, ground (arith, e))

  to_channels-IsDue :
      (rows : List AlertChannelRow)
      → All IsListed rows
      → All (IsDue t severity) (to_channels (some rows) severity message)
  to_channels-IsDue [] h = tt
  to_channels-IsDue (c ∷ rows) (here, h) = elim (Bool-cases (reaches severity c.min_severity)) [
    | inl reached ↦ rw reached (reached-IsDue c here reached, to_channels-IsDue rows h)
    | inr below ↦ rw below (to_channels-IsDue rows h)
  ]

  list_enabled-IsListed : IsStored t → All IsListed (list_enabled_alert_channels t)
  unfolding list_enabled_alert_channels
  list_enabled-IsListed v =
      let on : AlertChannelRow → Bool = λ r. r.enabled in
      All-sort_by IsListed id_le (filter on t.channels) (
        All-of_at IsListed (filter on t.channels) (λ c m.
          let (there, e) = Holds-filter on c t.channels m in
          (there, e, All-at _ c t.channels v.channels there)))

-- Whatever requests have changed the channels of a table in which every channel is as
-- `create_alert_channel` checks it: if an alert is then delivered to the enabled channels, every attempt
-- to post goes to the http or https url of an enabled channel of the table whose own minimum severity,
-- which can be read, the severity of the alert reaches.
pub serve_all-deliver_to_channels :
    (V : Type 0) (requests : List ChannelRequest) (t : ChannelTable) (a : Answers)
    (severity : Severity) (message : String)
    → IsStored t
    → a.channels ≡ some (list_enabled_alert_channels (serve_all requests t))
    → All
        (IsDue (serve_all requests t) severity)
        (attempts {V = V} (deliver_to_channels a severity message))
serve_all-deliver_to_channels V requests t a severity message v listed =
    let after = serve_all requests t in
    let rows = list_enabled_alert_channels after in
    let due =
      to_channels-IsDue after severity message rows
        (list_enabled-IsListed after severity message (serve_all-IsStored requests t v)) in
    rw (attempts-deliver_to_channels V a severity message, listed) due
