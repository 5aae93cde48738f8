-- ===== src/Api/Lists/Pages.antt =====
-- What the handler `pools` of src/api/routes/pools.rs answers through the cache.
use lumina_analytics.Prelude.{
  ℕ, String, ◌≡◌, refl, ap, ◌∙◌, inl, inr, Bool, Option, List, [], ◌∷◌, All, All-map, All-at, Holds,
  arith, Option-cases, Bool-cases,
}
use lumina_analytics.Prelude.Outcome.{Outcome, ok}
use lumina_analytics.Prelude.Assoc.{lookup}
use lumina_analytics.Prelude.Int.{pos, pos_part}
use lumina_analytics.Decimal.{DecimalOps}
use lumina_analytics.Cache.{Call, hit, get_or_compute}
use lumina_analytics.Cache.Computed.{RoundTrips, Faithful, computed, log, get_or_compute-Faithful}
use lumina_analytics.Models.{PoolWithLatest}
use lumina_analytics.Db.{Store}
use lumina_analytics.Db.Pools.{list_pools_with_latest}
use lumina_analytics.Api.{Reply, json, PageQuery, page_limit, page_offset}
use lumina_analytics.Api.Lists.{Redis, page_key, answer, answered, pools}
use lumina_analytics.Api.Lists.Keys.{page_key-injective, page_bounds}

abbrev pub PoolPage : Type 0 → Type 0
PoolPage D = List (PoolWithLatest D)

-- One request: what Redis and the database do for it, and the tables at its time.
pub record PageRequest (D : Type 0) : Type 0 where
  pub connected : Bool
  pub gets : Bool
  pub sets : Bool
  pub accepts : Bool
  pub store : Store D
  pub query : PageQuery

-- An entry that was computed for a page from one of these states of the tables.
abbrev pub IsPage : {D : Type 0} ⦃d : DecimalOps D⦄ → List (Store D) → String × PoolPage D → Type 0
IsPage {D} ⦃d⦄ seen entry =
    (m n : ℕ) × (s : Store D) × Holds s seen
    × (entry.0 ≡ page_key "pools" (pos m) (pos n))
    × (entry.1 ≡ list_pools_with_latest m n s)

module _ {D : Type 0} ⦃d : DecimalOps D⦄ (to_string : PoolPage D → Option String)
    (from_str : String → Option (PoolPage D)) where
  abbrev call_of : PageRequest D → Call (PoolPage D)
  call_of r = record {
    connected = r.connected;
    gets = r.gets;
    sets = r.sets;
    key = page_key "pools" (page_limit r.query) (page_offset r.query);
    compute = answered r.accepts (
        list_pools_with_latest (pos_part (page_limit r.query)) (pos_part (page_offset r.query))
          r.store);
  }

  computed-IsPage :
      (r : PageRequest D) (seen : List (Store D)) (history : List (String × PoolPage D))
      → All (IsPage seen) history
      → All (IsPage (r.store ∷ seen)) (computed to_string from_str (call_of r) history)
  computed-IsPage r seen history h =
      let more : All (IsPage (r.store ∷ seen)) history =
        All-map history
          (λ e p. let (m, n, s, there, key, value) = p in (m, n, s, inr there, key, value)) h in
      elim (Bool-cases r.accepts) [
        | inr down ↦ rw down more
        | inl up ↦
            let (m, n, limit, offset, low, high) = page_bounds r.query in
            rw up
              ((m, n, r.store, inl refl, rw (limit, offset) refl, rw (limit, offset) refl), more)
      ]

  log-IsPage :
      (r : PageRequest D) (seen : List (Store D)) (entries : List (String × String))
      (history : List (String × PoolPage D))
      → All (IsPage seen) history
      → All (IsPage (r.store ∷ seen)) (log to_string from_str (call_of r) entries history)
  log-IsPage r seen entries history h =
      elim (Option-cases (hit to_string from_str (call_of r) entries)) [
        | inl missed ↦ rw (missed, log) (computed-IsPage r seen history h)
        | inr (v, found) ↦
            rw (found, log)
              (All-map history
                (λ e p. let (m, n, s, there, key, value) = p in (m, n, s, inr there, key, value)) h)
      ]

  abbrev redis_of : PageRequest D → Redis (PoolPage D)
  redis_of r = record {
    connected = r.connected;
    gets = r.gets;
    sets = r.sets;
    to_string = to_string;
    from_str = from_str;
  }

  -- The response to a request, and the entries of the cache after.
  abbrev pub page_response :
      PageRequest D → List (String × String) → Outcome (Reply (PoolPage D)) × List (String × String)
  page_response r entries = pools r.accepts r.store (redis_of r) r.query entries

  -- A page that is answered is the page that was asked for, from one of these states.
  abbrev pub RightPage : List (Store D) → PageRequest D → Outcome (Reply (PoolPage D)) → Type 0
  RightPage seen r response =
      (rows : PoolPage D)
      → response ≡ ok (json rows)
      → (m n : ℕ) × (s : Store D) × (page_limit r.query ≡ pos m)
        × (page_offset r.query ≡ pos n)
        × Holds s seen
        × (rows ≡ list_pools_with_latest m n s)

  pub AllRight : List (PageRequest D) → List (Store D) → List (String × String) → Type 0
  AllRight [] seen entries = Unit
  AllRight (r ∷ requests) seen entries =
      RightPage (r.store ∷ seen) r (page_response r entries).0
      × AllRight requests (r.store ∷ seen) (page_response r entries).1

  answer-ok :
      (o : Outcome (PoolPage D)) (rows : PoolPage D) → answer o ≡ ok (json rows) → o ≡ ok rows
  answer-ok o rows h = ground arith

  entry-RightPage :
      (r : PageRequest D) (seen : List (Store D)) (rows : PoolPage D)
      → IsPage seen ((call_of r).key, rows)
      → (m n : ℕ) × (s : Store D) × (page_limit r.query ≡ pos m)
        × (page_offset r.query ≡ pos n)
        × Holds s seen
        × (rows ≡ list_pools_with_latest m n s)
  entry-RightPage r seen rows (m, n, s, there, key, value) =
      let (k, l, limit, offset, low, high) = page_bounds r.query in
      let keys : page_key "pools" (pos k) (pos l) ≡ page_key "pools" (pos m) (pos n) =
        rw (← limit, ← offset) key in
      let (same_limit, same_offset) = page_key-injective "pools" k l m n keys in
      (m, n, s, limit ∙ ap pos same_limit, offset ∙ ap pos same_offset, there, value)

  Faithful-AllRight :
      (requests : List (PageRequest D)) (seen : List (Store D))
      (history : List (String × PoolPage D)) (entries : List (String × String))
      → RoundTrips to_string from_str
      → Faithful to_string from_str history entries
      → All (IsPage seen) history
      → AllRight requests seen entries
  unfolding AllRight pools
  Faithful-AllRight [] seen history entries round f h = tt
  Faithful-AllRight (r ∷ requests) seen history entries round f h =
      let (f', returned) =
        get_or_compute-Faithful to_string from_str (call_of r) history entries round f in
      let h' = log-IsPage r seen entries history h in
      let result = (get_or_compute to_string from_str (call_of r) entries).0 in
      (
        λ rows e. entry-RightPage r (r.store ∷ seen) rows (
            All-at (IsPage (r.store ∷ seen)) ((call_of r).key, rows) _ h'
              (returned rows (answer-ok result rows e))),
        Faithful-AllRight requests (r.store ∷ seen) _ _ round f' h',
      )

  -- If a text reads back as nothing else than the page that it was written from: in any sequence of
  -- requests for pages of the list of pools, from an empty cache, whatever Redis and the database answer and
  -- while the tables change from request to request, each page that is answered is the one with the
  -- request's own limit and offset, of the tables at the time of that request or of an earlier one.
  pub pools-AllRight :
      (requests : List (PageRequest D)) → RoundTrips to_string from_str → AllRight requests [] []
  unfolding lookup
  pools-AllRight requests round = Faithful-AllRight requests [] [] [] round (λ key raw v e g. cc) tt
