-- ===== src/Api.antt =====
-- What the handlers of src/api/routes answer, and how they read the limits of a request
-- (src/api/routes/mod.rs).
pub mod Alerts
pub mod Channels
pub mod Liquidations
pub mod Lists
pub mod Trending
pub mod Search
pub mod Router
pub mod Watchlist
use lumina_analytics.Prelude.{ℕ, String, Bool, Option, none, some, if◌then◌else◌}
use lumina_analytics.Prelude.Int.{ℤ, pos, leb_ℤ, ltb_ℤ}

-- A response with its status: 200, 201, 204, 400, 401, 404, 500, 503. The text of an error of the
-- database is left out.
pub data Reply (A : Type 0) : Type 0 where
  json created : A → Reply A
  no_content not_found internal_error service_unavailable : Reply A
  bad_request unauthorized : String → Reply A

abbrev pub status : {A : Type 0} → Reply A → ℕ
status (json a) = 200
status (created a) = 201
status no_content = 204
status not_found = 404
status internal_error = 500
status service_unavailable = 503
status (bad_request message) = 400
status (unauthorized message) = 401

-- `Ord::clamp` and `Ord::max` on `i64`
abbrev pub clamp : ℤ → ℤ → ℤ → ℤ
clamp n low high = if ltb_ℤ n low then low else if ltb_ℤ high n then high else n

abbrev pub max_ℤ : ℤ → ℤ → ℤ
max_ℤ a b = if leb_ℤ a b then b else a

abbrev pub unwrap_or : {A : Type 0} → Option A → A → A
unwrap_or none a = a
unwrap_or (some b) a = b

abbrev pub default_page_size : ℤ
default_page_size = pos 500

abbrev pub max_page_size : ℤ
max_page_size = pos 2000

pub record PageQuery : Type 0 where
  pub limit : Option ℤ
  pub offset : Option ℤ

unfoldable pub page_limit : PageQuery → ℤ
page_limit q = clamp (unwrap_or q.limit default_page_size) (pos 1) max_page_size

unfoldable pub page_offset : PageQuery → ℤ
page_offset q = max_ℤ (unwrap_or q.offset (pos 0)) (pos 0)
