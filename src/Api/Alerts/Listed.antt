-- ===== src/Api/Alerts/Listed.antt =====
-- Which alerts the list of src/api/routes/alerts.rs shows.
use lumina_analytics.Prelude.{
  ℕ, ◌≤◌, String, ◌≡◌, refl, ◌↔◌, ◌⊎◌, inl, inr, Bool, true, false, Option, none, some, List,
  filter, length, All, All-of_at, Holds, arith, eq_iff, Option-cases, Bool-cases,
}
use lumina_analytics.Prelude.Sort.{
  sort_by, take, length-take, IsSorted, Pairwise-take, sort_by-IsSorted, TotalPreorder, All-take,
  All-sort_by, taken_or_after, sort_by-Holds, Holds-filter, filter-Holds,
}
use lumina_analytics.Prelude.Assoc.{string_eq, lookup}
use lumina_analytics.Prelude.Int.{ℤ, pos, pos_part}
use lumina_analytics.Models.{AlertRow}
use lumina_analytics.Api.{json, clamp, unwrap_or}
use lumina_analytics.Api.Alerts.{
  AlertTable, AlertsQuery, matches_filter, detail, is_listed, newer, list_alerts, alerts_route,
}

-- A filter that is left out, or that is the value.
abbrev pub Wants : Option String → Option String → Type 0
Wants wanted value = (wanted ≡ none) ⊎ ((w : String) × (wanted ≡ some w) × (value ≡ some w))

pub record Matches (q : AlertsQuery) (r : AlertRow) : Type 0 where
  pub kind : Wants q.kind (some r.kind)
  pub pool : Wants q.pool_id (lookup "pool_id" r.details)
  pub code : Wants q.asset_code (lookup "asset_code" r.details)
  pub issuer : Wants q.asset_issuer (lookup "asset_issuer" r.details)
  pub unread : (q.unacknowledged ≡ false) ⊎ (r.acknowledged_at ≡ none)

-- The number of rows for a limit that a request gives or leaves out.
abbrev pub IsLimit : Option ℤ → ℕ → Type 0
IsLimit limit n =
    (1 ≤ n)
    × (n ≤ 1000)
    × (limit ≡ none → n ≡ 100)
    × ((m : ℕ) → limit ≡ some (pos m) → 1 ≤ m → m ≤ 1000 → n ≡ m)

matches_filter_iff :
    (wanted value : Option String) → (matches_filter wanted value ≡ true) ↔ Wants wanted value
unfolding matches_filter
matches_filter_iff none value = (λ e. inl refl, λ w. refl)
matches_filter_iff (some w) none = (λ e. cc, λ h. elim h [ inl e ↦ cc | inr (v, e, f) ↦ cc ])
matches_filter_iff (some w) (some v) = (
  λ e. inr (w, refl, ground (arith, eq_iff v w)),
  λ h. elim h [ inl e ↦ cc | inr (u, e, f) ↦ ground (arith, eq_iff v w) ],
)

is_listed_iff :
    (q : AlertsQuery) (r : AlertRow)
    → (is_listed q.kind q.pool_id q.asset_code q.asset_issuer q.unacknowledged r ≡ true)
      ↔ Matches q r
unfolding is_listed
is_listed_iff q r =
    let kind = matches_filter_iff q.kind (some r.kind) in
    let pool = matches_filter_iff q.pool_id (detail "pool_id" r) in
    let code = matches_filter_iff q.asset_code (detail "asset_code" r) in
    let issuer = matches_filter_iff q.asset_issuer (detail "asset_issuer" r) in
    (
      λ h. record {
        kind = kind.0 (ground arith);
        pool = pool.0 (ground arith);
        code = code.0 (ground arith);
        issuer = issuer.0 (ground arith);
        unread = elim (Bool-cases q.unacknowledged) [
          | inr e ↦ inl e
          | inl e ↦ elim (Option-cases r.acknowledged_at) [
            | inl unread ↦ inr unread
            | inr (time, read) ↦ absurd (ground (arith, e, read))
          ]
        ];
      },
      λ v.
          let k = kind.1 v.kind in
          let p = pool.1 v.pool in
          let c = code.1 v.code in
          let i = issuer.1 v.issuer in ground (arith, k, p, c, i, v.unread),
    )

newer-order : TotalPreorder newer
newer-order = record { trans = λ a b c p q. ground arith; total = λ a b h. ground arith }

clamp-IsLimit :
    (limit : Option ℤ)
    → IsLimit limit (pos_part (clamp (unwrap_or limit (pos 100)) (pos 1) (pos 1000)))
clamp-IsLimit none = (omega arith, omega arith, λ e. refl, λ m e. cc)
clamp-IsLimit (some n) = (ground arith, ground arith, λ e. cc, λ m e p q. ground arith)

-- The newest `n` of the rows that match.
pub record IsNewest (q : AlertsQuery) (t : AlertTable) (n : ℕ) (rows : List AlertRow) : Type 0 where
  pub limited : length rows ≤ n
  pub match_all : All (λ r. Holds r t.alerts × Matches q r) rows
  pub sorted : IsSorted newer rows
  pub complete :
      (r : AlertRow)
      → Holds r t.alerts
      → Matches q r
      → Holds r rows ⊎ ((length rows ≡ n) × All (λ a. newer a r ≡ true) rows)

take-IsNewest :
    (q : AlertsQuery) (t : AlertTable) (n : ℕ)
    → let listed = is_listed q.kind q.pool_id q.asset_code q.asset_issuer q.unacknowledged in
      IsNewest q t n (take n (sort_by newer (filter listed t.alerts)))
take-IsNewest q t n =
    let listed : AlertRow → Bool =
      is_listed q.kind q.pool_id q.asset_code q.asset_issuer q.unacknowledged in
    let rows = filter listed t.alerts in
    let sorted = sort_by-IsSorted newer newer-order rows in
    record {
      limited = omega (arith, length-take n (sort_by newer rows));
      match_all = All-take _ n (sort_by newer rows) (
          All-sort_by (λ r. Holds r t.alerts × Matches q r) newer rows
            (All-of_at (λ r. Holds r t.alerts × Matches q r) rows
              (λ r m.
                let (there, kept) = Holds-filter listed r t.alerts m in
                (there, (is_listed_iff q r).0 kept))));
      sorted = Pairwise-take _ n (sort_by newer rows) sorted;
      complete = λ r there m.
          let kept = filter-Holds listed r t.alerts there ((is_listed_iff q r).1 m) in
          taken_or_after newer n r (sort_by newer rows) sorted (sort_by-Holds newer r rows kept);
    }

-- For every query, unless the database fails, the response holds alerts of the table, each of which
-- matches every filter that the query gives (kind, pool, code and issuer of the asset, and not read
-- yet where that is asked for), from the newest to the oldest, and at most as many as the limit: 100 if
-- the query gives none, the query's own if it lies between 1 and 1000, and one in that range in any
-- case. An alert that matches and is not in the response is older than, or as old as, every one in it,
-- and then the response has as many as the limit.
pub alerts_route-IsNewest :
    (q : AlertsQuery) (t : AlertTable)
    → (n : ℕ) × (rows : List AlertRow) × (alerts_route true q t ≡ json rows)
      × IsLimit q.limit n
      × IsNewest q t n rows
unfolding alerts_route list_alerts
alerts_route-IsNewest q t =
    let n = pos_part (clamp (unwrap_or q.limit (pos 100)) (pos 1) (pos 1000)) in
    let listed : AlertRow → Bool =
      is_listed q.kind q.pool_id q.asset_code q.asset_issuer q.unacknowledged in
    (
      n,
      take n (sort_by newer (filter listed t.alerts)),
      refl,
      clamp-IsLimit q.limit,
      take-IsNewest q t n,
    )
