-- ===== src/Metrics.antt =====
-- src/metrics.rs: the counters of requests by route and class of status, and their text. A counter is
-- a `u64`, which wraps around.
pub mod Counts
use lumina_analytics.Prelude.{
  ℕ, ◌+◌, ◌%◌, ◌^◌, String, Bool, ◌&&◌, Option, none, some, List, [], ◌∷◌, ltb, leb, if◌then◌else◌,
  ◌≡◌, refl,
}
use Prim.Native.String.{◌++◌ as append}
use lumina_analytics.Text.Display.{display}
use lumina_analytics.Prelude.Assoc.{string_eq, lookup, insert}

pub record RouteStats : Type 0 where
  pub count_2xx : ℕ
  pub count_4xx : ℕ
  pub count_5xx : ℕ
  pub count_other : ℕ
  pub total_latency_ms : ℕ

abbrev pub no_stats : RouteStats
no_stats = record {
  count_2xx = 0;
  count_4xx = 0;
  count_5xx = 0;
  count_other = 0;
  total_latency_ms = 0;
}

-- `+=` on a `u64`
abbrev pub add_u64 : ℕ → ℕ → ℕ
add_u64 a b = (a + b) % 18_446_744_073_709_551_616

unfoldable pub count_status : ℕ → RouteStats → RouteStats
count_status status stats =
    if leb 200 status && leb status 299
    then record stats { count_2xx = add_u64 stats.count_2xx 1 }
    else if leb 400 status && leb status 499
    then record stats { count_4xx = add_u64 stats.count_4xx 1 }
    else if leb 500 status && leb status 599
    then record stats { count_5xx = add_u64 stats.count_5xx 1 }
    else record stats { count_other = add_u64 stats.count_other 1 }

-- `entry(..).or_default()`
abbrev pub stats_or_default : Option RouteStats → RouteStats
stats_or_default none = no_stats
stats_or_default (some stats) = stats

unfoldable pub record_request :
    String → ℕ → ℕ → List (String × RouteStats) → List (String × RouteStats)
unfolding count_status
record_request route status latency_ms routes =
    let counted = count_status status (stats_or_default (lookup route routes)) in
    insert route (record counted { total_latency_ms = add_u64 counted.total_latency_ms latency_ms })
      routes

-- The route of a request: the pattern that it matched, or else its path.
unfoldable pub track :
    (matched_path : Option String) (path : String) (status latency_ms : ℕ)
    → List (String × RouteStats)
    → List (String × RouteStats)
unfolding record_request
track none path status latency_ms routes = record_request path status latency_ms routes
track (some route) path status latency_ms routes = record_request route status latency_ms routes

abbrev concat : List String → String
concat [] = ""
concat (s ∷ texts) = append s (concat texts)

-- The line of a counter, where it has counted something.
abbrev class_line : (route class : String) → ℕ → String
class_line route class count =
    if ltb 0 count
    then concat (
        "lumina_http_requests_total{route=\""
        ∷ route
        ∷ "\",status=\""
        ∷ class
        ∷ "\"} "
        ∷ display count
        ∷ "\n"
        ∷ [])
    else ""

unfoldable pub request_lines : List (String × RouteStats) → String
unfolding display
request_lines [] = ""
request_lines ((route, stats) ∷ routes) = concat (
    class_line route "2xx" stats.count_2xx
    ∷ class_line route "4xx" stats.count_4xx
    ∷ class_line route "5xx" stats.count_5xx
    ∷ class_line route "other" stats.count_other
    ∷ request_lines routes
    ∷ [])

unfoldable pub latency_lines : List (String × RouteStats) → String
unfolding display
latency_lines [] = ""
latency_lines ((route, stats) ∷ routes) = concat (
    "lumina_http_request_duration_ms_total{route=\""
    ∷ route
    ∷ "\"} "
    ∷ display stats.total_latency_ms
    ∷ "\n"
    ∷ latency_lines routes
    ∷ [])

-- The routes are written in the order in which the map is read.
unfoldable pub render : List (String × RouteStats) → String
unfolding request_lines latency_lines
render routes = concat (
    "# HELP lumina_http_requests_total Total HTTP requests by route and status class.\n"
    ∷ "# TYPE lumina_http_requests_total counter\n"
    ∷ request_lines routes
    ∷ "# HELP lumina_http_request_duration_ms_total Cumulative request handling time in milliseconds, by route.\n"
    ∷ "# TYPE lumina_http_request_duration_ms_total counter\n"
    ∷ latency_lines routes
    ∷ [])

request_lines_runs :
    request_lines (record_request "/tvl" 404 12 [])
    ≡ "lumina_http_requests_total{route=\"/tvl\",status=\"4xx\"} 1\n"
unfolding request_lines record_request insert lookup
request_lines_runs = refl
