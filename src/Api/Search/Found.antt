-- ===== src/Api/Search/Found.antt =====
-- What the search of src/api/routes/search.rs finds.
use lumina_analytics.Prelude.{
  ℕ, ◌≤◌, ◌<◌, String, ◌≡◌, refl, sym, ◌∙◌, ◌⊎◌, inl, inr, Bool, true, false, not, ◌||◌, Option,
  List, [], ◌∷◌, ◌++◌, map, filter, length, All, All-map, All-of_at, Pairwise, Pairwise-filter,
  Holds, arith, str_eq, eq_iff,
}
use Prim.Native.Char.{Char}
use Prim.Native.String.{len}
use lumina_analytics.Prelude.Int.{ℤ, pos}
use lumina_analytics.Prelude.Sort.{
  sort_by, take, Pairwise-take, Pairwise-sort_by, length-take, All-take, All-sort_by, Holds-filter,
}
use lumina_analytics.Text.{trim}
use lumina_analytics.Logic.Like.{like, contains}
use lumina_analytics.Logic.Search.{search_like_pattern-contains}
use lumina_analytics.Models.{SearchResultRow}
use lumina_analytics.Db.{PoolRow, Store}
use lumina_analytics.Db.Search.{
  distinct, ilike, pool_matches, pool_hit, token_matches, token_hit, account_hit, accounts, search,
}
use lumina_analytics.Api.{json, unwrap_or}
use lumina_analytics.Api.Lists.Keys.{clamp-pos}
use lumina_analytics.Api.Search.{search_route}

-- At most so many rows, each one a row of the table that passes a test.
abbrev pub Chosen : {A : Type 0} → ℕ → (A → Bool) → List A → List A → Type 0
Chosen {A} n test rows chosen =
    (length chosen ≤ n) × All (λ a. Holds a rows × (test a ≡ true)) chosen

first_texts-Chosen :
    {A : Type 0} (text_le : String → String → Bool) (text : A → String) (test : A → Bool) (n : ℕ)
    (rows : List A)
    → Chosen n test rows (take n (sort_by (λ a b. text_le (text a) (text b)) (filter test rows)))
first_texts-Chosen text_le text test n rows =
    let le = λ (a : _) (b : _). text_le (text a) (text b) in
    (
      omega (arith, length-take n (sort_by le (filter test rows))),
      All-take _ n (sort_by le (filter test rows)) (
          All-sort_by _ le (filter test rows) (
            All-of_at (λ a. Holds a rows × (test a ≡ true)) (filter test rows)
              (λ a m. Holds-filter test a rows m))),
    )

module _ (same : Char → Char → Bool) where
  -- A pool, or a token, with a text that the query is part of.
  abbrev pub pool_contains : String → PoolRow → Bool
  pool_contains q p =
      contains same q p.asset_a || contains same q p.asset_b || contains same q p.pool_id

  abbrev pub token_contains : String → String × String → Bool
  token_contains q t = contains same q t.0 || contains same q t.1

distinct-Pairwise : (texts : List String) → Pairwise (λ a b. str_eq a b ≡ false) (distinct texts)
unfolding distinct
distinct-Pairwise [] = tt
distinct-Pairwise (s ∷ texts) =
    let others = λ (t : String). not (str_eq s t) in
    (
      All-of_at _ (filter others (distinct texts))
          (λ t m. let (there, e) = Holds-filter others t (distinct texts) m in ground (arith, e)),
      Pairwise-filter _ others (distinct texts) (distinct-Pairwise texts),
    )

Holds-distinct : (a : String) (texts : List String) → Holds a (distinct texts) → Holds a texts
unfolding distinct
Holds-distinct a [] m = m
Holds-distinct a (s ∷ texts) (inl here) = inl here
Holds-distinct a (s ∷ texts) (inr m) = inr (
    Holds-distinct a texts (Holds-filter (λ (t : String). not (str_eq s t)) a (distinct texts) m).0)

-- The accounts that are listed, of those that pass a test.
accounts-Chosen :
    (text_le : String → String → Bool) (test : String → Bool) (n : ℕ) (texts : List String)
    → Chosen n test texts (take n (sort_by text_le (distinct (filter test texts))))
accounts-Chosen text_le test n texts =
    let rows = distinct (filter test texts) in
    (
      omega (arith, length-take n (sort_by text_le rows)),
      All-take _ n (sort_by text_le rows) (
          All-sort_by _ text_le rows (
            All-of_at (λ a. Holds a texts × (test a ≡ true)) rows
              (λ a m. Holds-filter test a texts (Holds-distinct a (filter test texts) m)))),
    )

-- A different test that says the same.
Chosen-test :
    {A : Type 0} (n : ℕ) (p q : A → Bool) (rows chosen : List A)
    → ((a : A) → p a ≡ q a)
    → Chosen n p rows chosen
    → Chosen n q rows chosen
Chosen-test n p q rows chosen e (few, h) = (few, All-map chosen (λ a x. (x.0, sym (e a) ∙ x.1)) h)

differ_comm : (a b : String) → str_eq a b ≡ false → str_eq b a ≡ false
differ_comm a b h = ground (arith, eq_iff a b, eq_iff b a)

-- What a search with a query of some length answers.
pub record Found {D : Type 0} (same : Char → Char → Bool) (q : String) (s : Store D)
    (rows : List SearchResultRow) : Type 0 where
  pub most : ℕ
  pub pools : List PoolRow
  pub tokens : List (String × String)
  pub found_accounts : List String
  pub limits : (1 ≤ most) × (most ≤ 25)
  pub in_order :
      rows ≡ map pool_hit pools ++ (map token_hit tokens ++ map account_hit found_accounts)
  pub of_pools : Chosen most (pool_contains same q) s.pools pools
  pub of_tokens : Chosen most (token_contains same q) s.tokens tokens
  pub of_accounts : Chosen most (contains same q) (accounts s.whale_transactions) found_accounts
  pub differ : Pairwise (λ a b. str_eq a b ≡ false) found_accounts

search-Found :
    {D : Type 0} (same : Char → Char → Bool) (text_le : String → String → Bool)
    (q query_pattern : String) (n : ℕ) (s : Store D)
    → (1 ≤ n) × (n ≤ 25)
    → ((t : String) → like same query_pattern t ≡ contains same q t)
    → Found same q s (search same text_le query_pattern n s)
unfolding search
search-Found same text_le q query_pattern n s within e =
    let texts = accounts s.whale_transactions in
    let test = ilike same text_le query_pattern in
    record {
      most = n;
      pools = _;
      tokens = _;
      found_accounts = _;
      limits = within;
      in_order = refl;
      of_pools =
          Chosen-test n (pool_matches same text_le query_pattern) (pool_contains same q) s.pools _
            (λ p. rw (e p.asset_a, e p.asset_b, e p.pool_id) refl)
            (first_texts-Chosen text_le (λ (p : PoolRow). p.pool_id)
              (pool_matches same text_le query_pattern) n s.pools);
      of_tokens =
          Chosen-test n (token_matches same text_le query_pattern) (token_contains same q) s.tokens
            _ (λ t. rw (e t.0, e t.1) refl)
            (first_texts-Chosen text_le (λ (t : String × String). t.0)
              (token_matches same text_le query_pattern) n s.tokens);
      of_accounts =
          Chosen-test n test (contains same q) texts _ e (accounts-Chosen text_le test n texts);
      differ = Pairwise-take _ n _ (
          Pairwise-sort_by _ differ_comm text_le (distinct (filter test texts))
            (distinct-Pairwise (filter test texts)));
    }

-- A query that has less than two bytes when trimmed finds nothing, and the database is not asked. Any
-- other query, where the database answers, finds at most 25 pools, as many tokens and as many accounts,
-- in this order: each pool is of the table and has an asset or an id that contains the trimmed query, up
-- to the database's comparison of characters; each token likewise a code or an issuer; each account took
-- part in a recorded payment, contains the query, and comes once. No character of the query acts as a
-- wildcard.
pub search_route-Found :
    {D : Type 0} (same : Char → Char → Bool) (text_le : String → String → Bool) (q : Option String)
    (limit : Option ℤ) (s : Store D)
    → ((len (trim (unwrap_or q "")) < 2)
        × ((accepts : Bool) → search_route same text_le accepts q limit s ≡ json []))
      ⊎ ((rows : List SearchResultRow) × (2 ≤ len (trim (unwrap_or q "")))
          × (search_route same text_le true q limit s ≡ json rows)
          × Found same (trim (unwrap_or q "")) s rows)
unfolding search_route
search_route-Found same text_le q limit s = elim (search_like_pattern-contains (unwrap_or q "")) [
  | inl (missing, short) ↦ inl (short, λ accepts. rw (missing, search_route) refl)
  | inr (query_pattern, found, long, e) ↦
      let (n, clamped, low, high) = clamp-pos (unwrap_or limit (pos 8)) 25 (omega arith) in
      inr (
        search same text_le query_pattern n s,
        long,
        rw (found, clamped, search_route) refl,
        search-Found same text_le (trim (unwrap_or q "")) query_pattern n s (low, high) (e same),
      )
]
