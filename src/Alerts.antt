-- ===== src/Alerts.antt =====
-- src/alerts.rs: severities, and what `record` does for one alert. What the database and the network
-- answer is an argument; the effects are a list of events in the order of the calls.
pub mod Severities
pub mod Delivery
use lumina_analytics.Prelude.{
  ℕ, zero, suc, ◌+◌, ◌-◌, ◌*◌, ◌/◌, ◌%◌, ◌^◌, ◌≤◌, ◌<◌, String, ◌≡◌, refl, sym, ap, ◌∙◌, ◌≢◌, ◌↔◌,
  ◌⊎◌, inl, inr, Bool, true, false, not, ◌&&◌, ◌||◌, Option, none, some, List, [], ◌∷◌, ◌++◌, map,
  arith, str_eq, eq_iff, eq_refl, ltb, leb, ◌==◌, if◌then◌else◌, ltb→lt, lt→ltb, leb→le, ==_iff,
  Bool-cases, Option-cases, length, get_elem?, filter, All, Holds, length-append, All-append,
}
use Prim.Native.String.{◌++◌ as append}
use lumina_analytics.Prelude.Int.{pos}
use lumina_analytics.Text.{to_ascii_uppercase}
use lumina_analytics.Decimal.{DecimalOps, from}
use lumina_analytics.Decimal.Checked.{◌>>=◌}
use lumina_analytics.Models.{AlertChannelRow}

pub data Severity : Type 0 where
  info warning critical : Severity

-- The derived order.
abbrev pub severity_rank : Severity → ℕ
severity_rank info = 0
severity_rank warning = 1
severity_rank critical = 2

abbrev pub severity_lt : Severity → Severity → Bool
severity_lt a b = ltb (severity_rank a) (severity_rank b)

unfoldable pub as_str : Severity → String
as_str info = "INFO"
as_str warning = "WARNING"
as_str critical = "CRITICAL"

unfoldable pub parse : String → Option Severity
parse s =
    let name = to_ascii_uppercase s in
    if str_eq name "INFO"
    then some info
    else if str_eq name "WARNING"
    then some warning
    else if str_eq name "CRITICAL"
    then some critical
    else none

unfoldable pub severity_for_risk_level : String → Severity
severity_for_risk_level risk_level =
    if str_eq risk_level "CRITICAL"
    then critical
    else if str_eq risk_level "HIGH"
    then warning
    else info

module _ {D : Type 0} ⦃d : DecimalOps D⦄ where
  unfoldable pub severity_for_whale_multiple : D → D → Option Severity
  severity_for_whale_multiple amount threshold = if d.is_zero threshold then some info else do
    ratio ← d.div amount threshold
    some (
        if d.le (from (pos 20)) ratio
        then critical
        else if d.le (from (pos 5)) ratio
        then warning
        else info)

  unfoldable pub severity_for_liquidity_drop : D → D → Option Severity
  severity_for_liquidity_drop drop_pct threshold_pct = do
    double ← d.mul threshold_pct (from (pos 2))
    some (if d.le double drop_pct then critical else warning)

  unfoldable pub severity_for_holder_drop : D → D → Option Severity
  severity_for_holder_drop drop_pct threshold_pct = do
    double ← d.mul threshold_pct (from (pos 2))
    some (if d.le double drop_pct then critical else warning)

-- The body of a delivery: a JSON object with one field.
pub record Payload : Type 0 where
  pub field : String
  pub text : String

abbrev pub alert_text : Severity → String → String
alert_text severity message = append "[" (append (as_str severity) (append "] " message))

unfoldable pub payload_for_channel : String → Severity → String → Payload
payload_for_channel kind severity message = record {
  field = if str_eq kind "discord" then "content" else "text";
  text = alert_text severity message;
}

-- `details` is the JSON value of the caller; `posted` is an attempt, whatever came of it.
pub data Event (V : Type 0) : Type 0 where
  inserted : (kind severity message : String) (details : V) → Event V
  posted : (url : String) (body : Payload) → Event V
  warned : Event V
  notified : (kind severity message : String) → Event V

abbrev pub unwrap_or_warning : Option Severity → Severity
unwrap_or_warning none = warning
unwrap_or_warning (some s) = s

-- The answers of the database and of the receivers of one call of `record`.
pub record Answers : Type 0 where
  pub insert_succeeds : Bool
  pub channels : Option (List AlertChannelRow)
  pub post_succeeds : String → Payload → Bool
  pub notify_succeeds : Bool

module _ {V : Type 0} where
  -- One `http.post(..)` whose failure is logged and dropped.
  unfoldable pub post_or_warn : Answers → String → Payload → List (Event V)
  post_or_warn answers url body =
      if answers.post_succeeds url body then posted url body ∷ [] else posted url body ∷ warned ∷ []

  unfoldable pub deliver_legacy_webhook :
      Answers → Option String → String → Severity → String → List (Event V)
  unfolding post_or_warn
  deliver_legacy_webhook answers none alert_min_severity severity message = []
  deliver_legacy_webhook answers (some webhook_url) alert_min_severity severity message =
      if severity_lt severity (unwrap_or_warning (parse alert_min_severity))
      then []
      else post_or_warn answers webhook_url
          (record { field = "text"; text = alert_text severity message })

  -- The loop of `deliver_to_channels`.
  unfoldable pub deliver_each : Answers → List AlertChannelRow → Severity → String → List (Event V)
  unfolding post_or_warn
  deliver_each answers [] severity message = []
  deliver_each answers (channel ∷ channels) severity message =
      let rest = deliver_each answers channels severity message in
      if severity_lt severity (unwrap_or_warning (parse channel.min_severity))
      then rest
      else post_or_warn answers channel.url (payload_for_channel channel.kind severity message)
        ++ rest

  unfoldable pub deliver_to_channels : Answers → Severity → String → List (Event V)
  unfolding deliver_each
  deliver_to_channels answers severity message = elim answers.channels [
    | none ↦ warned ∷ []
    | some channels ↦ deliver_each answers channels severity message
  ]

  unfoldable pub notify_or_log : Answers → String → Severity → String → List (Event V)
  notify_or_log answers kind severity message =
      if answers.notify_succeeds then notified kind (as_str severity) message ∷ [] else warned ∷ []

  -- The result is `false` for an error.
  unfoldable pub record_alert :
      Answers → Option String → String → String → Severity → String → V → Bool × List (Event V)
  record_alert answers alert_webhook_url alert_min_severity kind severity message details =
      if not answers.insert_succeeds then (false, []) else (
        true,
        inserted kind (as_str severity) message details
            ∷ (deliver_legacy_webhook answers alert_webhook_url alert_min_severity severity message
                ++ (deliver_to_channels answers severity message
                    ++ notify_or_log answers kind severity message)),
      )
