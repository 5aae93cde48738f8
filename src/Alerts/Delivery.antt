-- ===== src/Alerts/Delivery.antt =====
-- Whom `record` of src/alerts.rs delivers to.
use lumina_analytics.Prelude.{
  ◌⊎◌, inl, inr, Bool-cases, arith, String, ◌≡◌, refl, ap, Bool, true, false, Option, none, some,
  List, [], ◌∷◌, ◌++◌, map, leb, if◌then◌else◌, Option-cases, filter,
}
use mathlib.Core.List.{append-nil}
use lumina_analytics.Models.{AlertChannelRow}
use lumina_analytics.Alerts.{
  Severity, severity_rank, as_str, parse, unwrap_or_warning, alert_text, Payload,
  payload_for_channel, Event, inserted, posted, warned, notified, Answers, post_or_warn,
  deliver_legacy_webhook, deliver_each, deliver_to_channels, notify_or_log, record_alert,
}

module _ {V : Type 0} where
  -- The attempts to post, in order, with their bodies.
  abbrev pub attempts : List (Event V) → List (String × Payload)
  attempts [] = []
  attempts (inserted kind severity message details ∷ es) = attempts es
  attempts (posted url body ∷ es) = (url, body) ∷ attempts es
  attempts (warned ∷ es) = attempts es
  attempts (notified kind severity message ∷ es) = attempts es

  attempts-append : (es fs : List (Event V)) → attempts (es ++ fs) ≡ attempts es ++ attempts fs
  attempts-append [] fs = refl
  attempts-append (inserted kind severity message details ∷ es) fs = attempts-append es fs
  attempts-append (posted url body ∷ es) fs = ap (λ r. (url, body) ∷ r) (attempts-append es fs)
  attempts-append (warned ∷ es) fs = attempts-append es fs
  attempts-append (notified kind severity message ∷ es) fs = attempts-append es fs

-- The severity reaches a minimum, which is `WARNING` where its text names none.
abbrev pub reaches : Severity → String → Bool
reaches severity minimum =
    leb (severity_rank (unwrap_or_warning (parse minimum))) (severity_rank severity)

abbrev pub to_webhook : Option String → String → Severity → String → List (String × Payload)
to_webhook none minimum severity message = []
to_webhook (some url) minimum severity message =
    if reaches severity minimum
    then (url, record { field = "text"; text = alert_text severity message }) ∷ []
    else []

abbrev pub to_channels : Option (List AlertChannelRow) → Severity → String → List (String × Payload)
to_channels none severity message = []
to_channels (some channels) severity message =
    map (λ c. (c.url, payload_for_channel c.kind severity message))
      (filter (λ c. reaches severity c.min_severity) channels)

module _ (V : Type 0) where
  attempts-post :
      (a : Answers) (url : String) (body : Payload) (es : List (Event V))
      → attempts {V = V} (post_or_warn a url body ++ es) ≡ (url, body) ∷ attempts es
  unfolding post_or_warn
  attempts-post a url body es = elim (Bool-cases (a.post_succeeds url body)) [
    | inl e ↦ rw e
    | inr e ↦ rw e
  ]

  attempts-deliver_each :
      (a : Answers) (channels : List AlertChannelRow) (severity : Severity) (message : String)
      → attempts {V = V} (deliver_each a channels severity message)
        ≡ to_channels (some channels) severity message
  unfolding deliver_each
  attempts-deliver_each a [] severity message = refl
  attempts-deliver_each a (c ∷ channels) severity message = ground (
    arith,
    attempts-deliver_each a channels severity message,
    attempts-post a c.url (payload_for_channel c.kind severity message)
        (deliver_each a channels severity message),
  )

  pub attempts-deliver_to_channels :
      (a : Answers) (severity : Severity) (message : String)
      → attempts {V = V} (deliver_to_channels a severity message)
        ≡ to_channels a.channels severity message
  unfolding deliver_to_channels
  attempts-deliver_to_channels a severity message = elim (Option-cases a.channels) [
    | inl e ↦ ground arith
    | inr (cs, e) ↦ ground (arith, attempts-deliver_each a cs severity message)
  ]

  attempts-webhook :
      (a : Answers) (url : Option String) (minimum : String) (severity : Severity)
      (message : String)
      → attempts {V = V} (deliver_legacy_webhook a url minimum severity message)
        ≡ to_webhook url minimum severity message
  unfolding deliver_legacy_webhook
  attempts-webhook a none minimum severity message = refl
  attempts-webhook a (some url) minimum severity message = ground (
    arith,
    attempts-post a url (record { field = "text"; text = alert_text severity message }) [],
  )

  attempts-notify :
      (a : Answers) (kind : String) (severity : Severity) (message : String)
      → attempts {V = V} (notify_or_log a kind severity message) ≡ []
  unfolding notify_or_log
  attempts-notify a kind severity message = ground arith

  -- Where the row cannot be stored, `record` fails and does nothing else. Otherwise it succeeds
  -- whatever the receivers and the notification answer: it stores the row first, and tries to post to
  -- the webhook, if one is set and the severity reaches its minimum, and then, in order, to each listed
  -- channel whose minimum the severity reaches, with the body of the channel's kind, and to nobody
  -- else. A failed attempt keeps no later one from being made.
  pub record_alert-attempts :
      (a : Answers) (url : Option String) (minimum kind : String) (severity : Severity)
      (message : String) (details : V)
      → ((a.insert_succeeds ≡ false)
          × (record_alert a url minimum kind severity message details ≡ (false, [])))
        ⊎ ((rest : List (Event V)) × (a.insert_succeeds ≡ true)
            × (record_alert a url minimum kind severity message details
                ≡ (true, inserted kind (as_str severity) message details ∷ rest))
            × (attempts rest
                ≡ to_webhook url minimum severity message
                  ++ to_channels a.channels severity message))
  unfolding record_alert
  record_alert-attempts a url minimum kind severity message details =
      elim (Bool-cases a.insert_succeeds) [
        | inr refused ↦ inl (refused, ground arith)
        | inl stored ↦ inr (
          deliver_legacy_webhook a url minimum severity message
              ++ (deliver_to_channels a severity message ++ notify_or_log a kind severity message),
          stored,
          rw (stored, record_alert) refl,
          simp (
            attempts-append, attempts-webhook, attempts-deliver_to_channels, attempts-notify,
            append-nil,
          ),
        )
      ]
