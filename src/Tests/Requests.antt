-- ===== src/Tests/Requests.antt =====
-- Concrete inputs for the theorems on requests, deliveries, rate limits and the cache.
use lumina_analytics.Prelude.{
  ◌⊎◌, ◌≤◌, arith, ℕ, zero, suc, ◌*◌, ◌/◌, ltb, leb, ◌+◌, ◌-◌, String, ◌≡◌, refl, ◌↔◌, Bool, true,
  false, Option, none, some, List, [], ◌∷◌, ◌++◌, str_eq, if◌then◌else◌,
}
use lumina_analytics.Prelude.Outcome.{Outcome, ok}
use lumina_analytics.Prelude.Assoc.{string_eq, lookup, insert}
use lumina_analytics.Decimal.Micro.{micro_ops}
use lumina_analytics.Alerts.{warning, Answers, Event, as_str, inserted, record_alert}
use lumina_analytics.Alerts.Delivery.{attempts, to_webhook, to_channels, record_alert-attempts}
use lumina_analytics.Horizon.{
  Page, Reply, response, no_response, initial_backoff, get_page, get_all_pages, build_url,
}
use lumina_analytics.Horizon.Retry.{StopsAt, doubling, sum, get_page-StopsAt}
use lumina_analytics.Horizon.Pages.{Crawl, get_all_pages_iff}
use lumina_analytics.Prelude.{sym}
use lumina_analytics.Cache.{Call}
use lumina_analytics.Cache.Computed.{RoundTrips, AllReturn, get_or_compute-AllReturn}
use lumina_analytics.RateLimit.{F64, RateLimiter, enforce, sweep_if_large, allow, enabled}
use lumina_analytics.RateLimit.Isolated.{answers as answers_to, own, Recent, answers-own}
use mathlib.Core.Path.{subst}
use mathlib.Core.Option.{some-injective}

-- A request that fails once and then succeeds.
abbrev flaky : ℕ → Reply String
flaky zero = no_response true false false
flaky (suc zero) = response 503 none
flaky (suc (suc n)) = response 200 (some "body")

get_page-StopsAt_example :
    (m n : ℕ) × StopsAt flaky 0 m n initial_backoff (get_page flaky)
    × (sum (doubling m initial_backoff) ≤ 3750)
get_page-StopsAt_example = get_page-StopsAt flaky

abbrev one_page : String → Outcome (Page ℕ)
one_page url = ok (record { next = none; records = 4 ∷ 5 ∷ [] })

get_all_pages_iff_example :
    (get_all_pages one_page "b" "/p" [] 3 ≡ ok (4 ∷ 5 ∷ []))
    ↔ Crawl one_page 3 (build_url "b" "/p" []) (4 ∷ 5 ∷ [])
get_all_pages_iff_example = get_all_pages_iff one_page "b" "/p" [] 3 (4 ∷ 5 ∷ [])

abbrev answers : Answers
answers = record {
  insert_succeeds = true;
  channels = none;
  post_succeeds = λ url body. false;
  notify_succeeds = true;
}

abbrev details : String
details = "d"

record_alert-attempts_example :
    ((answers.insert_succeeds ≡ false)
      × (record_alert answers (some "u") "INFO" "k" warning "m" details ≡ (false, [])))
    ⊎ ((rest : List (Event String)) × (answers.insert_succeeds ≡ true)
        × (record_alert answers (some "u") "INFO" "k" warning "m" details
            ≡ (true, inserted "k" (as_str warning) "m" details ∷ rest))
        × (attempts rest
            ≡ to_webhook (some "u") "INFO" warning "m" ++ to_channels answers.channels warning "m"))
record_alert-attempts_example =
    record_alert-attempts String answers (some "u") "INFO" "k" warning "m" details

-- Numbers in billionths, in place of `f64`.
instance abbrev billionths : F64 ℕ
billionths = record {
  from_u32 = λ n. n * 1_000_000_000;
  as_secs_f64 = λ n. n;
  add = λ a b. a + b;
  sub = λ a b. a - b;
  mul = λ a b. a * b / 1_000_000_000;
  min = λ a b. if leb a b then a else b;
  lt = ltb;
  le = leb;
}

abbrev limiter : RateLimiter ℕ
limiter = record { rps = 1_000_000_000; burst = 2_000_000_000 }

abbrev requests : List (ℕ × String)
requests = (5, "a") ∷ (6, "b") ∷ (7, "a") ∷ (8, "b") ∷ (9, "a") ∷ []

-- The third request of the client is refused.
answers_run : answers_to limiter "a" (own "a" requests) [] ≡ true ∷ true ∷ false ∷ []
unfolding answers_to enforce allow enabled sweep_if_large lookup insert
answers_run = refl

answers-own_example :
    answers_to limiter "a" requests [] ≡ answers_to limiter "a" (own "a" requests) []
unfolding Recent lookup
answers-own_example =
    answers-own limiter "a" requests []
      (omega arith, (omega arith, (omega arith, (omega arith, tt))))

abbrev write : Bool → Option String
write true = some "true"
write false = some "false"

abbrev read_back : String → Option Bool
read_back s = if str_eq s "true" then some true else if str_eq s "false" then some false else none

write-RoundTrips : RoundTrips write read_back
write-RoundTrips true true raw e f = refl
write-RoundTrips false false raw e f = refl
write-RoundTrips true false raw e f =
    let same : "true" ≡ raw = some-injective _ _ e in
    cc (subst (λ s. read_back s ≡ some false) (sym same) f)
write-RoundTrips false true raw e f =
    let same : "false" ≡ raw = some-injective _ _ e in
    cc (subst (λ s. read_back s ≡ some true) (sym same) f)

-- A value is computed and stored, and then found although the computation has changed.
abbrev calls : List (Call Bool)
calls =
    record { connected = true; gets = true; sets = true; key = "pools"; compute = ok true }
    ∷ record { connected = true; gets = true; sets = true; key = "pools"; compute = ok false }
    ∷ []

get_or_compute-AllReturn_example : AllReturn write read_back calls [] []
get_or_compute-AllReturn_example = get_or_compute-AllReturn write read_back calls write-RoundTrips
