-- ===== src/Config/Defaults.antt =====
-- What `from_env` of src/config.rs leaves off.
use lumina_analytics.Prelude.{
  String, ◌≡◌, ◌≢◌, refl, Option, none, some, arith, Bool-cases, inl, inr, ◌⊎◌, ◌↔◌, ap, eq_iff,
}
use mathlib.Core.Option.{some-injective}
use lumina_analytics.Text.{is_empty}
use lumina_analytics.Decimal.{DecimalOps}
use lumina_analytics.Config.{Config, nonempty, from_env}

-- How an optional setting reads its variable: never as an empty text, and off exactly where the
-- variable is not set or empty.
abbrev pub IsOptional : Option String → Option String → Type 0
IsOptional variable setting =
    (setting ≢ some "") × ((setting ≡ none) ↔ ((variable ≡ none) ⊎ (variable ≡ some "")))

nonempty-IsOptional : (variable : Option String) → IsOptional variable (nonempty variable)
nonempty-IsOptional none = ((λ h. cc), ((λ h. inl refl), (λ h. refl)))
nonempty-IsOptional (some s) = elim (Bool-cases (is_empty s)) [
  | inl e ↦
      let blank : s ≡ "" = (eq_iff s "").0 e in
      rw e ((λ h. cc), ((λ h. inr (ap some blank)), (λ h. refl)))
  | inr e ↦
      let other : (some s ≡ some "") → ⊥ =
        λ h. ground (arith, eq_iff s "", some-injective s "" h) in
      rw e (other, ((λ h. cc), (λ h. elim h [ inl q ↦ cc | inr q ↦ absurd (other q) ])))
]

-- Whatever the environment, the admin key, the webhook and the cache are each off exactly where the
-- variable is not set or empty, and never on with an empty text.
pub from_env-IsOptional :
    {F : Type 0} (D : Type 0) ⦃d : DecimalOps D⦄ (parse_f64 : String → Option F) (ten_thousand : F)
    (env : String → Option String)
    → let config : Config F D = from_env parse_f64 ten_thousand env in
      IsOptional (env "ADMIN_API_KEY") config.admin_api_key
      × IsOptional (env "ALERT_WEBHOOK_URL") config.alert_webhook_url
      × IsOptional (env "REDIS_URL") config.redis_url
unfolding from_env
from_env-IsOptional D parse_f64 ten_thousand env = (
  nonempty-IsOptional (env "ADMIN_API_KEY"),
  nonempty-IsOptional (env "ALERT_WEBHOOK_URL"),
  nonempty-IsOptional (env "REDIS_URL"),
)
