-- ===== src/Prelude/Sort.antt =====
-- Sorting by a total order that may hold both ways, `ORDER BY` and `sort_by_key`, and the page that
-- `LIMIT` and `OFFSET` cut out. Elements that are equal in the order keep their places; a database
-- may return them in any order.
use Prim.Native.Nat.{ℕ, zero, suc, min}
use mathlib.Core.Path.{◌≡◌, refl, sym, subst}
use mathlib.Core.Logic.{◌⊎◌, inl, inr}
use mathlib.Core.Bool.{Bool, true, false}
use mathlib.Core.List.{List, [], ◌∷◌}
use native.Mathlib.Omega.{arith}
use lumina_analytics.Prelude.Tests.{if◌then◌else◌, Bool-cases}
use lumina_analytics.Prelude.Lists.{length, filter, All, Pairwise, Holds, All-map, All-at}

module _ {ℓ} {A : Type ℓ} where
  abbrev pub take : ℕ → List A → List A
  take zero xs = []
  take (suc n) [] = []
  take (suc n) (x ∷ xs) = x ∷ take n xs

  abbrev pub skip : ℕ → List A → List A
  skip zero xs = xs
  skip (suc n) [] = []
  skip (suc n) (x ∷ xs) = skip n xs

  pub length-take : (n : ℕ) (xs : List A) → length (take n xs) ≡ min n (length xs)
  length-take zero xs = omega arith
  length-take (suc n) [] = omega arith
  length-take (suc n) (x ∷ xs) = omega (arith, length-take n xs)

  pub All-take {κ} : (P : A → Type κ) (n : ℕ) (xs : List A) → All P xs → All P (take n xs)
  All-take P zero xs h = tt
  All-take P (suc n) [] h = tt
  All-take P (suc n) (x ∷ xs) (p, h) = (p, All-take P n xs h)

  pub All-skip {κ} : (P : A → Type κ) (n : ℕ) (xs : List A) → All P xs → All P (skip n xs)
  All-skip P zero xs h = h
  All-skip P (suc n) [] h = tt
  All-skip P (suc n) (x ∷ xs) (p, h) = All-skip P n xs h

module _ {A : Type 0} where
  pub Holds-filter :
      (p : A → Bool) (a : A) (xs : List A) → Holds a (filter p xs) → Holds a xs × (p a ≡ true)
  Holds-filter p a [] m = absurd m
  Holds-filter p a (x ∷ xs) m = elim (Bool-cases (p x)) [
    | inr out ↦ let (there, e) = Holds-filter p a xs (rw out at m) in (inr there, e)
    | inl kept ↦ elim (rw kept at m) [
      | inl here ↦ (inl here, subst (λ y. p y ≡ true) here kept)
      | inr rest ↦ let (there, e) = Holds-filter p a xs rest in (inr there, e)
    ]
  ]

  pub filter-Holds :
      (p : A → Bool) (a : A) (xs : List A) → Holds a xs → p a ≡ true → Holds a (filter p xs)
  filter-Holds p a [] m e = m
  filter-Holds p a (x ∷ xs) (inl here) e =
      let kept : p x ≡ true = subst (λ y. p y ≡ true) (sym here) e in rw kept (inl here)
  filter-Holds p a (x ∷ xs) (inr m) e = elim (Bool-cases (p x)) [
    | inl kept ↦ rw kept (inr (filter-Holds p a xs m e))
    | inr out ↦ rw out (filter-Holds p a xs m e)
  ]

  pub Pairwise-take {κ} :
      (R : A → A → Type κ) (n : ℕ) (xs : List A) → Pairwise R xs → Pairwise R (take n xs)
  Pairwise-take R zero xs h = tt
  Pairwise-take R (suc n) [] h = tt
  Pairwise-take R (suc n) (x ∷ xs) (first, h) = (All-take (R x) n xs first, Pairwise-take R n xs h)

  unfoldable pub insert_sorted : (A → A → Bool) → A → List A → List A
  insert_sorted le a [] = a ∷ []
  insert_sorted le a (x ∷ xs) = if le a x then a ∷ x ∷ xs else x ∷ insert_sorted le a xs

  unfoldable pub sort_by : (A → A → Bool) → List A → List A
  unfolding insert_sorted
  sort_by le [] = []
  sort_by le (x ∷ xs) = insert_sorted le x (sort_by le xs)

  -- `ORDER BY ... LIMIT limit OFFSET offset`
  abbrev pub page : (A → A → Bool) → ℕ → ℕ → List A → List A
  page le limit offset rows = take limit (skip offset (sort_by le rows))

  pub length-insert_sorted :
      (le : A → A → Bool) (a : A) (xs : List A) → length (insert_sorted le a xs) ≡ suc (length xs)
  unfolding insert_sorted
  length-insert_sorted le a [] = refl
  length-insert_sorted le a (x ∷ xs) = ground (arith, length-insert_sorted le a xs)

  pub length-sort_by : (le : A → A → Bool) (xs : List A) → length (sort_by le xs) ≡ length xs
  unfolding sort_by
  length-sort_by le [] = refl
  length-sort_by le (x ∷ xs) =
      omega (arith, length-insert_sorted le x (sort_by le xs), length-sort_by le xs)

  pub All-insert_sorted {κ} :
      (P : A → Type κ) (le : A → A → Bool) (a : A) (xs : List A)
      → P a
      → All P xs
      → All P (insert_sorted le a xs)
  unfolding insert_sorted
  All-insert_sorted P le a [] p h = (p, tt)
  All-insert_sorted P le a (x ∷ xs) p (q, h) = elim (Bool-cases (le a x)) [
    | inl first ↦ rw (first, insert_sorted) (p, (q, h))
    | inr later ↦ rw (later, insert_sorted) (q, All-insert_sorted P le a xs p h)
  ]

  pub All-sort_by {κ} :
      (P : A → Type κ) (le : A → A → Bool) (xs : List A) → All P xs → All P (sort_by le xs)
  unfolding sort_by
  All-sort_by P le [] h = tt
  All-sort_by P le (x ∷ xs) (p, h) =
      All-insert_sorted P le x (sort_by le xs) p (All-sort_by P le xs h)

  Pairwise-insert_sorted {κ} :
      (R : A → A → Type κ)
      → ((a b : A) → R a b → R b a)
      → (le : A → A → Bool) (a : A) (xs : List A) → All (R a) xs
      → Pairwise R xs
      → Pairwise R (insert_sorted le a xs)
  unfolding insert_sorted
  Pairwise-insert_sorted R symm le a [] p h = (tt, tt)
  Pairwise-insert_sorted R symm le a (x ∷ xs) (p, ps) (q, h) = elim (Bool-cases (le a x)) [
    | inl first ↦ rw (first, insert_sorted) ((p, ps), (q, h))
    | inr later ↦
        rw (later, insert_sorted)
          (
            All-insert_sorted (R x) le a xs (symm a x p) q,
            Pairwise-insert_sorted R symm le a xs ps h,
          )
  ]

  -- Sorting keeps a relation between any two elements.
  pub Pairwise-sort_by {κ} :
      (R : A → A → Type κ)
      → ((a b : A) → R a b → R b a)
      → (le : A → A → Bool) (xs : List A) → Pairwise R xs
      → Pairwise R (sort_by le xs)
  unfolding sort_by
  Pairwise-sort_by R symm le [] h = tt
  Pairwise-sort_by R symm le (x ∷ xs) (p, h) =
      Pairwise-insert_sorted R symm le x (sort_by le xs) (All-sort_by (R x) le xs p)
        (Pairwise-sort_by R symm le xs h)

  insert_sorted_self : (le : A → A → Bool) (a : A) (xs : List A) → Holds a (insert_sorted le a xs)
  unfolding insert_sorted
  insert_sorted_self le a [] = inl refl
  insert_sorted_self le a (x ∷ xs) = elim (Bool-cases (le a x)) [
    | inl first ↦ rw (first, insert_sorted) (inl refl)
    | inr later ↦ rw (later, insert_sorted) (inr (insert_sorted_self le a xs))
  ]

  insert_sorted-Holds :
      (le : A → A → Bool) (a b : A) (xs : List A) → Holds b xs → Holds b (insert_sorted le a xs)
  unfolding insert_sorted
  insert_sorted-Holds le a b [] m = absurd m
  insert_sorted-Holds le a b (x ∷ xs) m = elim (Bool-cases (le a x)) [
    | inl first ↦ rw (first, insert_sorted) (inr m)
    | inr later ↦
        rw (later, insert_sorted)
          (elim m [ inl here ↦ inl here | inr rest ↦ inr (insert_sorted-Holds le a b xs rest) ])
  ]

  -- Sorting loses no element, and adds none.
  pub sort_by-Holds :
      (le : A → A → Bool) (b : A) (xs : List A) → Holds b xs → Holds b (sort_by le xs)
  unfolding sort_by
  sort_by-Holds le b [] m = m
  sort_by-Holds le b (x ∷ xs) (inl here) =
      subst (λ y. Holds y (insert_sorted le x (sort_by le xs))) here
        (insert_sorted_self le x (sort_by le xs))
  sort_by-Holds le b (x ∷ xs) (inr m) =
      insert_sorted-Holds le x b (sort_by le xs) (sort_by-Holds le b xs m)

  abbrev pub IsSorted : (A → A → Bool) → List A → Type 0
  IsSorted le xs = Pairwise (λ x y. le x y ≡ true) xs

  -- An element of a sorted list is taken, or the list that is taken is full and comes before it.
  pub taken_or_after :
      (le : A → A → Bool) (n : ℕ) (b : A) (xs : List A)
      → IsSorted le xs
      → Holds b xs
      → Holds b (take n xs) ⊎ ((length (take n xs) ≡ n) × All (λ a. le a b ≡ true) (take n xs))
  taken_or_after le zero b xs s m = inr (refl, tt)
  taken_or_after le (suc n) b [] s m = absurd m
  taken_or_after le (suc n) b (x ∷ xs) (first, s) (inl here) = inl (inl here)
  taken_or_after le (suc n) b (x ∷ xs) (first, s) (inr m) = elim (taken_or_after le n b xs s m) [
    | inl taken ↦ inl (inr taken)
    | inr (full, after) ↦
        inr (omega (arith, full), (All-at (λ y. le x y ≡ true) b xs first m, after))
  ]

-- An order in which any two elements compare, as a database's and as `Ord`.
pub record TotalPreorder {A : Type 0} (le : A → A → Bool) : Type 0 where
  pub trans : (a b c : A) → le a b ≡ true → le b c ≡ true → le a c ≡ true
  pub total : (a b : A) → le a b ≡ false → le b a ≡ true

module _ {A : Type 0} (le : A → A → Bool) (order : TotalPreorder le) where
  insert_sorted-IsSorted :
      (a : A) (xs : List A) → IsSorted le xs → IsSorted le (insert_sorted le a xs)
  unfolding insert_sorted
  insert_sorted-IsSorted a [] s = (tt, tt)
  insert_sorted-IsSorted a (x ∷ xs) (first, s) = elim (Bool-cases (le a x)) [
    | inl before ↦
        rw (before, insert_sorted)
          ((before, All-map xs (λ y h. order.trans a x y before h) first), (first, s))
    | inr later ↦
        rw (later, insert_sorted)
          (
            All-insert_sorted (λ y. le x y ≡ true) le a xs (order.total a x later) first,
            insert_sorted-IsSorted a xs s,
          )
  ]

  pub sort_by-IsSorted : (xs : List A) → IsSorted le (sort_by le xs)
  unfolding sort_by
  sort_by-IsSorted [] = tt
  sort_by-IsSorted (x ∷ xs) = insert_sorted-IsSorted x (sort_by le xs) (sort_by-IsSorted xs)
