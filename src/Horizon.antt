-- ===== src/Horizon.antt =====
-- src/horizon.rs: the client of the Horizon API. What the server answers is an argument; the waits
-- of the retry loop are recorded in milliseconds.
pub mod Retry
pub mod Pages
use lumina_analytics.Prelude.{
  ℕ, zero, suc, ◌+◌, ◌-◌, ◌*◌, ◌/◌, ◌%◌, ◌^◌, ◌≤◌, ◌<◌, String, ◌≡◌, refl, sym, ap, ◌∙◌, ◌≢◌, ◌↔◌,
  ◌⊎◌, inl, inr, Bool, true, false, not, ◌&&◌, ◌||◌, Option, none, some, List, [], ◌∷◌, ◌++◌, map,
  arith, str_eq, eq_iff, eq_refl, ltb, leb, ◌==◌, if◌then◌else◌, ltb→lt, lt→ltb, leb→le, ==_iff,
  Bool-cases, Option-cases, length, get_elem?, filter, All, Holds, length-append, All-append,
}
use Prim.Native.String.{◌++◌ as append}
use lumina_analytics.Prelude.Outcome.{Outcome, ok, err, ◌>>=◌, parsed}
use lumina_analytics.Prelude.Int.{ℤ}

abbrev pub max_retries : ℕ
max_retries = 5

abbrev pub initial_backoff : ℕ
initial_backoff = 250

pub record Page (T : Type 0) : Type 0 where
  pub next : Option String
  pub records : List T

pub record PoolReserve : Type 0 where
  pub asset : String
  pub amount : String

pub record LiquidityPool : Type 0 where
  pub id : String
  pub fee_bp : ℤ
  pub total_trustlines : String
  pub total_shares : String
  pub reserves : List PoolReserve

-- `accounts.authorized` and `balances.authorized` stand for the two records of one field.
pub record AssetRecord : Type 0 where
  pub asset_code : String
  pub asset_issuer : String
  pub asset_type : String
  pub accounts_authorized : ℤ
  pub balances_authorized : String
  pub num_claimable_balances : ℤ

pub record PaymentRecord : Type 0 where
  pub id : String
  pub paging_token : String
  pub op_type : String
  pub transaction_hash : String
  pub source : Option String
  pub destination : Option String
  pub source_account : Option String
  pub asset_type : Option String
  pub asset_code : Option String
  pub asset_issuer : Option String
  pub amount : Option String

-- What one request comes to: a response with its status and, read as JSON, its body, or no response
-- with whether the failure was a timeout, a refused connection or a failed request.
pub data Reply (T : Type 0) : Type 0 where
  response : (status : ℕ) → Option T → Reply T
  no_response : (is_timeout is_connect is_request : Bool) → Reply T

-- `StatusCode::is_success` and `is_server_error`
abbrev pub is_success : ℕ → Bool
is_success status = leb 200 status && ltb status 300

abbrev pub is_server_error : ℕ → Bool
is_server_error status = leb 500 status && ltb status 600

-- A result and the waits before it.
pub record Retried (T : Type 0) : Type 0 where
  pub result : Outcome T
  pub waits : List ℕ

module _ {T : Type 0} where
  unfoldable pub is_retryable : Reply T → Bool
  is_retryable (response status body) = is_server_error status || status == 429
  is_retryable (no_response is_timeout is_connect is_request) =
      is_timeout || is_connect || is_request

  unfoldable pub outcome_of : Reply T → Outcome T
  outcome_of (response status body) = if is_success status then parsed body else err
  outcome_of (no_response is_timeout is_connect is_request) = err

  abbrev pub succeeded : Reply T → Bool
  succeeded (response status body) = is_success status
  succeeded (no_response is_timeout is_connect is_request) = false

  abbrev pub wait_first : ℕ → Option (Retried T) → Option (Retried T)
  wait_first backoff none = none
  wait_first backoff (some r) = some (record r { waits = backoff ∷ r.waits })

  -- The loop of `get_page`, `send n` being the reply to the n-th request. `none`: out of fuel.
  unfoldable pub get_page_loop :
      (fuel : ℕ) → (ℕ → Reply T) → (attempt backoff : ℕ) → Option (Retried T)
  unfolding is_retryable outcome_of
  get_page_loop zero send attempt backoff = none
  get_page_loop (suc fuel) send attempt backoff =
      let current = attempt + 1 in
      let reply = send current in
      let again = wait_first backoff (get_page_loop fuel send current (backoff * 2)) in
      if succeeded reply
      then some (record { result = outcome_of reply; waits = [] })
      else if is_retryable reply && ltb current max_retries
      then again
      else some (record { result = outcome_of reply; waits = [] })

  unfoldable pub get_page : (ℕ → Reply T) → Option (Retried T)
  unfolding get_page_loop
  get_page send = get_page_loop max_retries send 0 initial_backoff

-- `join` with "&"
abbrev pub join_query : List String → String
join_query [] = ""
join_query (s ∷ []) = s
join_query (s ∷ t ∷ rest) = append s (append "&" (join_query (t ∷ rest)))

unfoldable pub build_url : String → String → List (String × String) → String
build_url base_url path [] = append base_url path
build_url base_url path (q ∷ query) = append (append base_url path) (
    append "?"
      (join_query (map (λ (p : String × String). append p.0 (append "=" p.1)) (q ∷ query))))

module _ {T : Type 0} where
  -- The loop of `get_all_pages`, with the pages still allowed.
  unfoldable pub follow_pages : (String → Outcome (Page T)) → ℕ → String → List T → Outcome (List T)
  follow_pages fetch zero url out = ok out
  follow_pages fetch (suc left) url out = do
    page ← fetch url
    let all = out ++ page.records
    elim page.next [
      | none ↦ ok all
      | some href ↦ if ltb 0 (length page.records) then follow_pages fetch left href all else ok all
    ]

  unfoldable pub get_all_pages :
      (String → Outcome (Page T)) → String → String → List (String × String) → ℕ → Outcome (List T)
  unfolding follow_pages build_url
  get_all_pages fetch base_url path query max_pages =
      follow_pages fetch max_pages (build_url base_url path query) []

unfoldable pub liquidity_pools :
    (String → Outcome (Page LiquidityPool)) → String → ℕ → Outcome (List LiquidityPool)
unfolding get_all_pages
liquidity_pools fetch base_url max_pages =
    get_all_pages fetch base_url "/liquidity_pools" (("limit", "200") ∷ ("order", "desc") ∷ [])
      max_pages

unfoldable pub assets :
    (String → Outcome (Page AssetRecord)) → String → ℕ → Outcome (List AssetRecord)
unfolding get_all_pages
assets fetch base_url max_pages =
    get_all_pages fetch base_url "/assets" (("limit", "200") ∷ ("order", "desc") ∷ []) max_pages

abbrev pub cursor_query : Option String → List (String × String)
cursor_query none = []
cursor_query (some c) = ("cursor", c) ∷ []

unfoldable pub payments_since :
    (String → Outcome (Page PaymentRecord))
    → String
    → Option String
    → ℕ
    → Outcome (List PaymentRecord)
unfolding get_all_pages
payments_since fetch base_url cursor max_pages =
    get_all_pages fetch base_url "/payments"
      ((("limit", "200") ∷ ("order", "asc") ∷ ("include_failed", "false") ∷ [])
        ++ cursor_query cursor)
      max_pages

-- `limit` is the decimal text of the argument.
unfoldable pub latest_payments_page :
    (String → Outcome (Page PaymentRecord)) → String → String → Outcome (List PaymentRecord)
unfolding build_url
latest_payments_page fetch base_url limit = do
  page ← fetch (
      build_url base_url "/payments"
        (("limit", limit) ∷ ("order", "desc") ∷ ("include_failed", "false") ∷ []))
  ok page.records

url_runs :
    build_url "https://horizon.stellar.org" "/payments" (("limit", "200") ∷ ("order", "asc") ∷ [])
    ≡ "https://horizon.stellar.org/payments?limit=200&order=asc"
unfolding build_url
url_runs = refl
