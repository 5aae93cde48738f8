-- ===== src/Api/Watchlist/Errors.antt =====
-- The handlers of src/api/routes/watchlist.rs, where they answer with an error.
use lumina_analytics.Prelude.{
  ℕ, ◌≤◌, ◌≡◌, refl, ap, Bool, true, false, not, none, List, [], ◌∷◌, filter_keeps, inl, inr, arith,
  Bool-cases, Option-cases,
}
use lumina_analytics.Api.Watchlist.{
  WatchlistTable, NewWatchlistItem, item_error, create_watchlist_item, delete_watchlist_item,
  has_item, delete_item,
}
use lumina_analytics.Api.{status}
use lumina_analytics.Prelude.{All}
use lumina_analytics.Prelude.Int.{ℤ}
use lumina_analytics.RuleRoutes.{id_eq}
use lumina_analytics.Models.{WatchlistItemRow}

has_item-none :
    (id : ℤ) (rows : List WatchlistItemRow)
    → has_item id rows ≡ false
    → All (λ r. not (id_eq r.id id) ≡ true) rows
has_item-none id [] h = tt
has_item-none id (r ∷ rows) h = (ground arith, has_item-none id rows (ground arith))

pub delete_watchlist_item-error :
    (accepts : Bool) (id : ℤ) (t : WatchlistTable)
    → 400 ≤ status (delete_watchlist_item none accepts id t).0
    → (delete_watchlist_item none accepts id t).1 ≡ t
unfolding delete_watchlist_item delete_item
delete_watchlist_item-error false id t e = refl
delete_watchlist_item-error true id t e = elim (Bool-cases (has_item id t.items)) [
  | inl there ↦ absurd (ground (arith, there))
  | inr missing ↦
      rw (missing, delete_watchlist_item)
        (ap (λ (rows : List WatchlistItemRow). record t { items = rows })
          (filter_keeps _ t.items (has_item-none id t.items missing)))
]

pub create_watchlist_item-error :
    (accepts : Bool) (now : ℕ) (body : NewWatchlistItem) (t : WatchlistTable)
    → 400 ≤ status (create_watchlist_item none accepts now body t).0
    → (create_watchlist_item none accepts now body t).1 ≡ t
unfolding create_watchlist_item
create_watchlist_item-error accepts now body t e = elim (Option-cases (item_error body)) [
  | inr (message, bad) ↦ rw (bad, create_watchlist_item) refl
  | inl fine ↦ elim (Bool-cases accepts) [
    | inr down ↦ rw (fine, down, create_watchlist_item) refl
    | inl up ↦ absurd (ground (arith, fine, up))
  ]
]
