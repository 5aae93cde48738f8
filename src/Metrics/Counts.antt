-- ===== src/Metrics/Counts.antt =====
-- The counters after any sequence of requests, `record` of src/metrics.rs.
use lumina_analytics.Prelude.{
  ℕ, ◌+◌, ◌%◌, ◌≡◌, inl, inr, String, Bool, true, false, not, ◌&&◌, ◌||◌, List, [], ◌∷◌, leb,
  str_eq, if◌then◌else◌, arith, Bool-cases, eq_refl, eq_iff,
}
use lumina_analytics.Prelude.Assoc.{string_eq, lookup, lookup-insert_ne, lookup-insert_self}
use lumina_analytics.Metrics.{RouteStats, add_u64, count_status, stats_or_default, record_request}

pub record Request : Type 0 where
  pub route : String
  pub status : ℕ
  pub latency_ms : ℕ

-- The requests in the order in which they are recorded.
pub record_all : List Request → List (String × RouteStats) → List (String × RouteStats)
record_all [] routes = routes
record_all (r ∷ requests) routes =
    record_all requests (record_request r.route r.status r.latency_ms routes)

abbrev pub is_2xx : ℕ → Bool
is_2xx status = leb 200 status && leb status 299

abbrev pub is_4xx : ℕ → Bool
is_4xx status = leb 400 status && leb status 499

abbrev pub is_5xx : ℕ → Bool
is_5xx status = leb 500 status && leb status 599

abbrev pub is_other : ℕ → Bool
is_other status = not (is_2xx status || is_4xx status || is_5xx status)

-- How many of the requests are of the route, with a status that passes the test.
pub count : (ℕ → Bool) → String → List Request → ℕ
count p route [] = 0
count p route (r ∷ requests) =
    let rest = count p route requests in
    if str_eq r.route route && p r.status then rest + 1 else rest

pub latency : String → List Request → ℕ
latency route [] = 0
latency route (r ∷ requests) =
    let rest = latency route requests in if str_eq r.route route then r.latency_ms + rest else rest

abbrev pub stats_of : String → List (String × RouteStats) → RouteStats
stats_of route routes = stats_or_default (lookup route routes)

-- Equal as 64-bit counters.
infix 4 ◌≈◌
abbrev pub ◌≈◌ : ℕ → ℕ → Type 0
a ≈ b = a % 18_446_744_073_709_551_616 ≡ b % 18_446_744_073_709_551_616

-- What has been counted, on top of what was there.
abbrev pub Adds : List Request → String → RouteStats → RouteStats → Type 0
Adds requests route before after =
    (after.count_2xx ≈ before.count_2xx + count is_2xx route requests)
    × (after.count_4xx ≈ before.count_4xx + count is_4xx route requests)
    × (after.count_5xx ≈ before.count_5xx + count is_5xx route requests)
    × (after.count_other ≈ before.count_other + count is_other route requests)
    × (after.total_latency_ms ≈ before.total_latency_ms + latency route requests)

abbrev counted : Request → RouteStats → RouteStats
counted r stats = record (count_status r.status stats) {
  total_latency_ms = add_u64 (count_status r.status stats).total_latency_ms r.latency_ms;
}

add_u64-≈ : (a b : ℕ) → add_u64 a b ≈ a + b
add_u64-≈ a b = omega arith

ok_only : (status : ℕ) → is_2xx status ≡ true → (is_4xx status ≡ false) × (is_5xx status ≡ false)
ok_only status h = (ground arith, ground arith)

client_only : (status : ℕ) → is_4xx status ≡ true → is_5xx status ≡ false
client_only status h = ground arith

-- One request on its own route.
counted-Adds : (r : Request) (stats : RouteStats) → Adds (r ∷ []) r.route stats (counted r stats)
unfolding count_status count latency
counted-Adds r stats = elim (Bool-cases (is_2xx r.status)) [
  | inl a ↦
      let (b, c) = ok_only r.status a in
      rw (eq_refl r.route, a, b, c, count_status)
        (omega arith, omega arith, omega arith, omega arith, omega arith)
  | inr a ↦ elim (Bool-cases (is_4xx r.status)) [
    | inl b ↦
        let c = client_only r.status b in
        rw (eq_refl r.route, a, b, c, count_status)
          (omega arith, omega arith, omega arith, omega arith, omega arith)
    | inr b ↦ elim (Bool-cases (is_5xx r.status)) [
      | inl c ↦
          rw (eq_refl r.route, a, b, c, count_status)
            (omega arith, omega arith, omega arith, omega arith, omega arith)
      | inr c ↦
          rw (eq_refl r.route, a, b, c, count_status)
            (omega arith, omega arith, omega arith, omega arith, omega arith)
    ]
  ]
]

record_request-Adds :
    (r : Request) (route : String) (routes : List (String × RouteStats))
    → Adds
        (r ∷ [])
        route
        (stats_of route routes)
        (stats_of route (record_request r.route r.status r.latency_ms routes))
unfolding record_request count latency
record_request-Adds r route routes = elim (Bool-cases (str_eq r.route route)) [
  | inl same ↦
      let own : r.route ≡ route = (eq_iff r.route route).0 same in
      rw (← own, lookup-insert_self r.route (counted r (stats_of r.route routes)) routes)
        (counted-Adds r (stats_of r.route routes))
  | inr other ↦
      rw
        (
          lookup-insert_ne r.route route (counted r (stats_of r.route routes)) routes other,
          other,
          count,
          latency,
        )
        (omega arith, omega arith, omega arith, omega arith, omega arith)
]

count_cons :
    (p : ℕ → Bool) (route : String) (r : Request) (requests : List Request)
    → count p route (r ∷ requests) ≡ count p route (r ∷ []) + count p route requests
unfolding count
count_cons p route r requests = ground arith

latency_cons :
    (route : String) (r : Request) (requests : List Request)
    → latency route (r ∷ requests) ≡ latency route (r ∷ []) + latency route requests
unfolding latency
latency_cons route r requests = ground arith

-- After any sequence of requests in any order, the counters of a route have grown, up to the
-- wrap-around of 64 bits, by the number of its requests of each class of status and by the sum of
-- their latencies, whatever the other routes got.
pub record_all-Adds :
    (requests : List Request) (route : String) (routes : List (String × RouteStats))
    → Adds requests route (stats_of route routes) (stats_of route (record_all requests routes))
unfolding record_all count latency
record_all-Adds [] route routes = (omega arith, omega arith, omega arith, omega arith, omega arith)
record_all-Adds (r ∷ requests) route routes =
    let (a, b, c, o, l) = record_request-Adds r route routes in
    let (a', b', c', o', l') =
      record_all-Adds requests route (record_request r.route r.status r.latency_ms routes) in
    (
      omega (arith, a, a', count_cons is_2xx route r requests),
      omega (arith, b, b', count_cons is_4xx route r requests),
      omega (arith, c, c', count_cons is_5xx route r requests),
      omega (arith, o, o', count_cons is_other route r requests),
      omega (arith, l, l', latency_cons route r requests),
    )
