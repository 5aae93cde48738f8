-- ===== src/Api/Watchlist.antt =====
-- src/api/routes/watchlist.rs and src/db/watchlist.rs: the pinned pools, tokens and positions.
-- `denied` is what `auth::guard` answers, and `accepts` whether the database accepts the statement.
pub mod Errors
pub mod Unique
use lumina_analytics.Prelude.{
  ℕ, ◌+◌, String, Bool, true, false, not, ◌&&◌, ◌||◌, Option, none, some, List, [], ◌∷◌, ◌++◌, map,
  filter, str_eq, leb, if◌then◌else◌,
}
use lumina_analytics.Prelude.Sort.{sort_by}
use lumina_analytics.Prelude.Int.{ℤ, pos}
use lumina_analytics.Text.{trim, is_empty}
use lumina_analytics.Models.{WatchlistItemRow}
use lumina_analytics.RuleRoutes.{id_eq}
use lumina_analytics.Api.{
  Reply, json, created, no_content, not_found, internal_error, bad_request, unauthorized,
}

pub record NewWatchlistItem : Type 0 where
  pub item_type : String
  pub item_key : String
  pub label : String

-- The table `watchlist_items`, with the next id of its sequence.
pub record WatchlistTable : Type 0 where
  pub items : List WatchlistItemRow
  pub next_id : ℕ

abbrev pub same_item : String → String → WatchlistItemRow → Bool
same_item item_type item_key r = str_eq r.item_type item_type && str_eq r.item_key item_key

-- The row of the conflict `(item_type, item_key)`
unfoldable pub find_item : String → String → List WatchlistItemRow → Option WatchlistItemRow
find_item item_type item_key [] = none
find_item item_type item_key (r ∷ rows) =
    if same_item item_type item_key r then some r else find_item item_type item_key rows

unfoldable pub relabel : String → String → String → List WatchlistItemRow → List WatchlistItemRow
relabel item_type item_key label [] = []
relabel item_type item_key label (r ∷ rows) =
    (if same_item item_type item_key r then record r { label = label } else r)
    ∷ relabel item_type item_key label rows

-- `ORDER BY created_at DESC`
unfoldable pub list_watchlist_items : WatchlistTable → List WatchlistItemRow
unfolding sort_by
list_watchlist_items t =
    sort_by (λ (a : WatchlistItemRow) (b : WatchlistItemRow). leb b.created_at a.created_at) t.items

-- The row that is returned, and the table after. The sequence moves on in a conflict too.
unfoldable pub upsert_watchlist_item :
    ℕ → NewWatchlistItem → WatchlistTable → WatchlistItemRow × WatchlistTable
unfolding find_item relabel
upsert_watchlist_item now body t = elim (find_item body.item_type body.item_key t.items) [
  | some r ↦ (
    record r { label = body.label },
    record {
      items = relabel body.item_type body.item_key body.label t.items;
      next_id = t.next_id + 1;
    },
  )
  | none ↦
      let row : WatchlistItemRow = record {
        id = pos t.next_id;
        item_type = body.item_type;
        item_key = body.item_key;
        label = body.label;
        created_at = now;
      } in
      (row, record { items = t.items ++ (row ∷ []); next_id = t.next_id + 1 })
]

abbrev pub has_item : ℤ → List WatchlistItemRow → Bool
has_item id [] = false
has_item id (r ∷ rows) = id_eq r.id id || has_item id rows

-- Whether a row was deleted, and the table after.
unfoldable pub delete_item : ℤ → WatchlistTable → Bool × WatchlistTable
delete_item id t = (
  has_item id t.items,
  record t { items = filter (λ (r : WatchlistItemRow). not (id_eq r.id id)) t.items },
)

unfoldable pub list_watchlist : Bool → WatchlistTable → Reply (List WatchlistItemRow)
unfolding list_watchlist_items
list_watchlist accepts t = if accepts then json (list_watchlist_items t) else internal_error

-- The message of the first check that fails.
unfoldable pub item_error : NewWatchlistItem → Option String
unfolding trim
item_error body =
    if not (
      str_eq body.item_type "pool"
      || str_eq body.item_type "token"
      || str_eq body.item_type "lending_position")
    then some "item_type must be one of: pool, token, lending_position"
    else if is_empty (trim body.item_key)
    then some "item_key must not be empty"
    else if is_empty (trim body.label)
    then some "label must not be empty"
    else none

unfoldable pub create_watchlist_item :
    (denied : Option String) (accepts : Bool)
    → ℕ
    → NewWatchlistItem
    → WatchlistTable
    → Reply WatchlistItemRow × WatchlistTable
unfolding item_error upsert_watchlist_item
create_watchlist_item (some message) accepts now body t = (unauthorized message, t)
create_watchlist_item none accepts now body t = elim (item_error body) [
  | some message ↦ (bad_request message, t)
  | none ↦
      if not accepts
      then (internal_error, t)
      else let (row, after) = upsert_watchlist_item now body t in (created row, after)
]

unfoldable pub delete_watchlist_item :
    (denied : Option String) (accepts : Bool)
    → ℤ
    → WatchlistTable
    → Reply (Unit {0}) × WatchlistTable
unfolding delete_item
delete_watchlist_item (some message) accepts id t = (unauthorized message, t)
delete_watchlist_item none accepts id t =
    if not accepts
    then (internal_error, t)
    else let (deleted, after) = delete_item id t in
      if deleted then (no_content, after) else (not_found, after)
