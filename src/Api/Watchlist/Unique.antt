-- ===== src/Api/Watchlist/Unique.antt =====
-- What the handlers of src/api/routes/watchlist.rs keep true of the table.
use lumina_analytics.Prelude.{
  ℕ, ◌+◌, String, ◌≡◌, refl, ◌⊎◌, inl, inr, Bool, true, false, not, Option, none, some, List, [],
  ◌∷◌, filter, All, Pairwise, All-append, All-map, All-filter, Pairwise-filter, Pairwise-append_one,
  arith, Bool-cases, Option-cases, eq_iff,
}
use lumina_analytics.Prelude.Int.{ℤ, pos, ltb_ℤ}
use lumina_analytics.Text.{trim, is_empty}
use lumina_analytics.Models.{WatchlistItemRow}
use lumina_analytics.RuleRoutes.{id_eq}
use lumina_analytics.Api.Watchlist.{
  NewWatchlistItem, WatchlistTable, same_item, find_item, relabel, upsert_watchlist_item, has_item,
  delete_item, item_error, create_watchlist_item, delete_watchlist_item,
}

-- An item of a type that the dashboard knows, with a key and a label.
abbrev pub IsItem : (item_type item_key label : String) → Type 0
IsItem item_type item_key label =
    ((item_type ≡ "pool") ⊎ ((item_type ≡ "token") ⊎ (item_type ≡ "lending_position")))
    × (is_empty (trim item_key) ≡ false)
    × (is_empty (trim label) ≡ false)

-- Two rows of different items, with different ids.
abbrev pub Differ : WatchlistItemRow → WatchlistItemRow → Type 0
Differ r s = (same_item r.item_type r.item_key s ≡ false) × (id_eq r.id s.id ≡ false)

pub record IsUnique (t : WatchlistTable) : Type 0 where
  pub items : All (λ (r : WatchlistItemRow). IsItem r.item_type r.item_key r.label) t.items
  pub differ : Pairwise Differ t.items
  pub fresh : All (λ (r : WatchlistItemRow). ltb_ℤ r.id (pos t.next_id) ≡ true) t.items

item_error-IsItem :
    (body : NewWatchlistItem)
    → item_error body ≡ none
    → IsItem body.item_type body.item_key body.label
unfolding item_error
item_error-IsItem body h = (
  ground (
    arith,
    eq_iff body.item_type "pool",
    eq_iff body.item_type "token",
    eq_iff body.item_type "lending_position",
  ),
  ground arith,
  ground arith,
)

module _ (item_type item_key label : String) where
  -- A change of the label keeps what does not look at it.
  All-relabel :
      (P : WatchlistItemRow → Type 0)
      → ((r : WatchlistItemRow) → P r → P (record r { label = label }))
      → (rows : List WatchlistItemRow) → All P rows
      → All P (relabel item_type item_key label rows)
  unfolding relabel
  All-relabel P keep [] h = tt
  All-relabel P keep (r ∷ rows) (p, h) = elim (Bool-cases (same_item item_type item_key r)) [
    | inl same ↦ rw same (keep r p, All-relabel P keep rows h)
    | inr other ↦ rw other (p, All-relabel P keep rows h)
  ]

  Differ-relabel :
      (rows : List WatchlistItemRow)
      → Pairwise Differ rows
      → Pairwise Differ (relabel item_type item_key label rows)
  unfolding relabel
  Differ-relabel [] h = tt
  Differ-relabel (r ∷ rows) (p, h) =
      let rest = All-relabel (Differ r) (λ s d. d) rows p in
      elim (Bool-cases (same_item item_type item_key r)) [
        | inl same ↦ rw same (rest, Differ-relabel rows h)
        | inr other ↦ rw other (rest, Differ-relabel rows h)
      ]

module _ (item_type item_key : String) where
  find_item-none :
      (rows : List WatchlistItemRow)
      → find_item item_type item_key rows ≡ none
      → All (λ r. same_item item_type item_key r ≡ false) rows
  unfolding find_item
  find_item-none [] h = tt
  find_item-none (r ∷ rows) h = elim (Bool-cases (same_item item_type item_key r)) [
    | inl same ↦ absurd (ground (arith, same))
    | inr other ↦ (other, find_item-none rows (rw (other, find_item) at h))
  ]

below_next : (id : ℤ) (next : ℕ) → ltb_ℤ id (pos next) ≡ true → ltb_ℤ id (pos (next + 1)) ≡ true
below_next id next h = ground arith

new_differs :
    (row : WatchlistItemRow) (rows : List WatchlistItemRow) (next : ℕ)
    → All (λ r. same_item row.item_type row.item_key r ≡ false) rows
    → All (λ (r : WatchlistItemRow). ltb_ℤ r.id (pos next) ≡ true) rows
    → row.id ≡ pos next
    → All (λ r. Differ r row) rows
new_differs row [] next other below e = tt
new_differs row (r ∷ rows) next (o, other) (b, below) e = (
  (
    ground (
      arith,
      eq_iff r.item_type row.item_type,
      eq_iff r.item_key row.item_key,
      eq_iff row.item_type r.item_type,
      eq_iff row.item_key r.item_key,
    ),
    rw e (ground arith),
  ),
  new_differs row rows next other below e,
)

upsert_watchlist_item-IsUnique :
    (now : ℕ) (body : NewWatchlistItem) (t : WatchlistTable)
    → IsItem body.item_type body.item_key body.label
    → IsUnique t
    → IsUnique (upsert_watchlist_item now body t).1
unfolding upsert_watchlist_item
upsert_watchlist_item-IsUnique now body t (known, keyed, labelled) v =
    elim (Option-cases (find_item body.item_type body.item_key t.items)) [
      | inr (r, found) ↦
          rw (found, upsert_watchlist_item)
            (record {
              items =
                  All-relabel body.item_type body.item_key body.label
                    (λ r. IsItem r.item_type r.item_key r.label) (λ r h. (h.0, h.1, labelled))
                    t.items v.items;
              differ = Differ-relabel body.item_type body.item_key body.label t.items v.differ;
              fresh =
                  All-relabel body.item_type body.item_key body.label
                    (λ r. ltb_ℤ r.id (pos (t.next_id + 1)) ≡ true) (λ r h. h) t.items
                    (All-map t.items (λ r h. below_next r.id t.next_id h) v.fresh);
            })
      | inl absent ↦
          let row : WatchlistItemRow = record {
            id = pos t.next_id;
            item_type = body.item_type;
            item_key = body.item_key;
            label = body.label;
            created_at = now;
          } in
          let others = find_item-none body.item_type body.item_key t.items absent in
          rw (absent, upsert_watchlist_item)
            (record {
              items =
                  All-append (λ (r : WatchlistItemRow). IsItem r.item_type r.item_key r.label)
                    t.items (row ∷ []) v.items ((known, keyed, labelled), tt);
              differ =
                  Pairwise-append_one Differ t.items row v.differ
                    (new_differs row t.items t.next_id others v.fresh refl);
              fresh =
                  All-append (λ (r : WatchlistItemRow). ltb_ℤ r.id (pos (t.next_id + 1)) ≡ true)
                    t.items (row ∷ [])
                    (All-map t.items (λ r h. below_next r.id t.next_id h) v.fresh)
                    (ground arith, tt);
            })
    ]

-- A request that changes the watchlist, as the handlers are called.
pub data WatchRequest : Type 0 where
  pin : (denied : Option String) (accepts : Bool) (now : ℕ) → NewWatchlistItem → WatchRequest
  unpin : (denied : Option String) (accepts : Bool) → ℤ → WatchRequest

pub watch : WatchRequest → WatchlistTable → WatchlistTable
watch (pin denied accepts now body) t = (create_watchlist_item denied accepts now body t).1
watch (unpin denied accepts id) t = (delete_watchlist_item denied accepts id t).1

pub watch_all : List WatchRequest → WatchlistTable → WatchlistTable
watch_all [] t = t
watch_all (r ∷ requests) t = watch_all requests (watch r t)

watch-IsUnique : (r : WatchRequest) (t : WatchlistTable) → IsUnique t → IsUnique (watch r t)
unfolding watch create_watchlist_item delete_watchlist_item delete_item
watch-IsUnique (pin (some message) accepts now body) t v = v
watch-IsUnique (pin none accepts now body) t v = elim (Option-cases (item_error body)) [
  | inr (message, bad) ↦ rw (bad, watch, create_watchlist_item) v
  | inl fine ↦ elim (Bool-cases accepts) [
    | inr refused ↦ rw (fine, refused, watch, create_watchlist_item) v
    | inl taken ↦
        rw (fine, taken, watch, create_watchlist_item)
          (upsert_watchlist_item-IsUnique now body t (item_error-IsItem body fine) v)
  ]
]
watch-IsUnique (unpin (some message) accepts id) t v = v
watch-IsUnique (unpin none false id) t v = v
watch-IsUnique (unpin none true id) t v =
    let kept : WatchlistItemRow → Bool = λ r. not (id_eq r.id id) in
    let after : IsUnique (record t { items = filter kept t.items }) = record {
      items = All-filter _ kept t.items v.items;
      differ = Pairwise-filter Differ kept t.items v.differ;
      fresh = All-filter _ kept t.items v.fresh;
    } in
    elim (Bool-cases (has_item id t.items)) [
      | inl there ↦ rw (there, watch, delete_watchlist_item) after
      | inr missing ↦ rw (missing, watch, delete_watchlist_item) after
    ]

-- Whatever requests to pin and to unpin items come, from whomever, and whatever the database answers:
-- if every item of the watchlist has a known type, a key and a label that are not blank, no item stands
-- in two rows, no two rows have one id, and the ids are below the next one, then all this holds
-- afterwards.
pub watch_all-IsUnique :
    (requests : List WatchRequest) (t : WatchlistTable)
    → IsUnique t
    → IsUnique (watch_all requests t)
unfolding watch_all
watch_all-IsUnique [] t v = v
watch_all-IsUnique (r ∷ requests) t v =
    watch_all-IsUnique requests (watch r t) (watch-IsUnique r t v)
