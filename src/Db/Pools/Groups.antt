-- ===== src/Db/Pools/Groups.antt =====
-- The first and the last row of a group, as the queries of src/db/pools.rs choose them.
use lumina_analytics.Prelude.{
  ℕ, ◌≤◌, ◌<◌, ◌≡◌, refl, sym, ap, ◌∙◌, ◌⊎◌, inl, inr, Bool, true, Option, none, some, List, [],
  ◌∷◌, All, All-at, All-of_at, Pairwise, Holds, arith, Bool-cases, Option-cases, List-cases, leb,
  leb→le, ltb, ltb→lt,
}
use mathlib.Core.Path.{subst}
use mathlib.Core.Option.{some-injective}
use lumina_analytics.Prelude.Sort.{
  sort_by, IsSorted, sort_by-IsSorted, TotalPreorder, All-sort_by, sort_by-Holds,
}
use lumina_analytics.Db.Pools.{first_by, oldest_first, newest_first, first_and_last, filter_map}

module _ {A : Type 0} (le : A → A → Bool) (order : TotalPreorder le) where
  -- The first row is a row, and no row comes before it.
  pub first_by-eq_some :
      (rows : List A) {a : A}
      → first_by le rows ≡ some a
      → Holds a rows × All (λ r. (le a r ≡ true) ⊎ (a ≡ r)) rows
  first_by-eq_some rows {a} e = elim (List-cases (sort_by le rows)) [
    | inl empty ↦ absurd (ground (arith, empty))
    | inr (b, rest, sorted) ↦
        let own : b ≡ a = ground (arith, sorted) in
        let all_rows : All (λ r. Holds r rows) (sort_by le rows) =
          All-sort_by (λ r. Holds r rows) le rows (All-of_at (λ r. Holds r rows) rows (λ r m. m)) in
        let in_order : IsSorted le (b ∷ rest) =
          subst (IsSorted le) sorted (sort_by-IsSorted le order rows) in
        (
          subst (λ r. Holds r rows) own (subst (All (λ r. Holds r rows)) sorted all_rows).0,
          All-of_at (λ r. (le a r ≡ true) ⊎ (a ≡ r)) rows
              (λ r m. elim (subst (Holds r) sorted (sort_by-Holds le r rows m)) [
                | inl here ↦ inr (sym own ∙ here)
                | inr later ↦ inl (
                    subst (λ x. le x r ≡ true) own
                      (All-at (λ y. le b y ≡ true) r rest in_order.0 later))
              ]),
        )
  ]

pub newest_first-order : {A : Type 0} (time : A → ℕ) → TotalPreorder (newest_first time)
newest_first-order time = record {
  trans = λ a b c p q. ground arith;
  total = λ a b h. ground arith;
}

-- A group with a row has a first one.
pub first_by-no_none :
    {A : Type 0} (le : A → A → Bool) (rows : List A) (a : A)
    → Holds a rows
    → first_by le rows ≡ none
    → ⊥
first_by-no_none le rows a m e = elim (List-cases (sort_by le rows)) [
  | inl empty ↦ subst (Holds a) empty (sort_by-Holds le a rows m)
  | inr (b, rest, sorted) ↦ ground (arith, sorted)
]

-- The two ends of a group of rows.
pub record Spans {A : Type 0} (time : A → ℕ) (rows : List A) (first last : A) : Type 0 where
  pub first_in : Holds first rows
  pub last_in : Holds last rows
  pub between : All (λ r. (time first ≤ time r) × (time r ≤ time last)) rows
  pub grows : time first < time last

module _ {A : Type 0} (time : A → ℕ) (rows : List A) where
  ends-Spans :
      {e l : A}
      → first_by (oldest_first time) rows ≡ some e
      → first_by (newest_first time) rows ≡ some l
      → ltb (time e) (time l) ≡ true
      → Spans time rows e l
  ends-Spans {e} {l} first last grows =
      let oldest : TotalPreorder (oldest_first time) = record {
        trans = λ a b c p q. ground arith;
        total = λ a b h. ground arith;
      } in
      let (there, before) = first_by-eq_some (oldest_first time) oldest rows first in
      let (there', after) =
        first_by-eq_some (newest_first time) (newest_first-order time) rows last in
      record {
        first_in = there;
        last_in = there';
        between =
            All-of_at _ rows
              (λ r m. (at_most r (All-at _ r rows before m), at_least r (All-at _ r rows after m)));
        grows = ltb→lt (time e) (time l) grows;
      }
    where
      at_most : (r : A) → (leb (time e) (time r) ≡ true) ⊎ (e ≡ r) → time e ≤ time r
      at_most r (inl h) = leb→le (time e) (time r) h
      at_most r (inr h) = subst (λ x. time e ≤ time x) h (omega arith)

      at_least : (r : A) → (leb (time r) (time l) ≡ true) ⊎ (l ≡ r) → time r ≤ time l
      at_least r (inl h) = leb→le (time r) (time l) h
      at_least r (inr h) = subst (λ x. time x ≤ time l) h (omega arith)

  pub first_and_last-Spans :
      {e l : A} → first_and_last time rows ≡ some (e, l) → Spans time rows e l
  first_and_last-Spans {e} {l} h = elim (Option-cases (first_by (oldest_first time) rows)) [
    | inl empty ↦ absurd (ground (arith, empty))
    | inr (a, first) ↦ elim (Option-cases (first_by (newest_first time) rows)) [
      | inl empty ↦ absurd (ground (arith, first, empty))
      | inr (b, last) ↦ elim (Bool-cases (ltb (time a) (time b))) [
        | inr still ↦ absurd (ground (arith, first, last, still))
        | inl grows ↦
            let pair : (a, b) ≡ (e, l) =
              some-injective _ _ (rw (first, last, grows, first_and_last) at h) in
            subst (λ (x : A × A). Spans time rows x.0 x.1) pair (ends-Spans first last grows)
      ]
    ]
  ]

pub filter_map-Holds :
    {A B : Type 0} (f : A → Option B) (a : A) (xs : List A) {b : B}
    → Holds a xs
    → f a ≡ some b
    → Holds b (filter_map f xs)
filter_map-Holds f a [] m e = m
filter_map-Holds f a (x ∷ xs) {b} (inl here) e =
    let found : f x ≡ some b = subst (λ y. f y ≡ some b) (sym here) e in
    rw (found, filter_map) (inl refl)
filter_map-Holds f a (x ∷ xs) (inr m) e = elim (Option-cases (f x)) [
  | inl out ↦ rw (out, filter_map) (filter_map-Holds f a xs m e)
  | inr (c, kept) ↦ rw (kept, filter_map) (inr (filter_map-Holds f a xs m e))
]

pub Holds-filter_map :
    {A B : Type 0} (f : A → Option B) (b : B) (xs : List A)
    → Holds b (filter_map f xs)
    → (a : A) × Holds a xs × (f a ≡ some b)
Holds-filter_map f b [] m = absurd m
Holds-filter_map f b (x ∷ xs) m = elim (Option-cases (f x)) [
  | inl out ↦
      let (a, there, e) = Holds-filter_map f b xs (rw (out, filter_map) at m) in (a, inr there, e)
  | inr (c, kept) ↦ elim (rw (kept, filter_map) at m) [
    | inl here ↦ (x, inl refl, kept ∙ ap some here)
    | inr later ↦ let (a, there, e) = Holds-filter_map f b xs later in (a, inr there, e)
  ]
]

pub All-filter_map :
    {A B : Type 0} {P : A → Type 0} {Q : B → Type 0} (f : A → Option B) (xs : List A)
    → ((a : A) (b : B) → f a ≡ some b → P a → Q b)
    → All P xs
    → All Q (filter_map f xs)
All-filter_map f [] g h = tt
All-filter_map f (x ∷ xs) g (p, h) = elim (Option-cases (f x)) [
  | inl out ↦ rw (out, filter_map) (All-filter_map f xs g h)
  | inr (b, kept) ↦ rw (kept, filter_map) (g x b kept p, All-filter_map f xs g h)
]

pub Pairwise-filter_map :
    {A B : Type 0} {R : A → A → Type 0} {S : B → B → Type 0} (f : A → Option B) (xs : List A)
    → ((a a' : A) (b b' : B) → f a ≡ some b → f a' ≡ some b' → R a a' → S b b')
    → Pairwise R xs
    → Pairwise S (filter_map f xs)
Pairwise-filter_map f [] g h = tt
Pairwise-filter_map f (x ∷ xs) g (p, h) = elim (Option-cases (f x)) [
  | inl out ↦ rw (out, filter_map) (Pairwise-filter_map f xs g h)
  | inr (b, kept) ↦
      rw (kept, filter_map)
        (All-filter_map f xs (λ a b' e r. g x a b b' kept e r) p, Pairwise-filter_map f xs g h)
]
