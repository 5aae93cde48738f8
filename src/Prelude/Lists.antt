-- ===== src/Prelude/Lists.antt =====
-- Lists measured by native numbers, filtered by a Boolean test, and predicates on their elements.
use Prim.Native.Nat.{ℕ, zero, suc, ◌+◌, ◌≤◌}
use mathlib.Core.Path.{◌≡◌, refl, subst}
use mathlib.Core.Logic.{◌⊎◌, inl, inr}
use mathlib.Core.Bool.{Bool, true}
use mathlib.Core.List.{List, [], ◌∷◌, ◌++◌}
use mathlib.Core.Option.{Option, none, some}
use native.Mathlib.Omega.{arith}
use lumina_analytics.Prelude.Tests.{if◌then◌else◌, Bool-cases}

module _ {ℓ} {A : Type ℓ} where
  abbrev pub length : List A → ℕ
  length [] = 0
  length (x ∷ xs) = suc (length xs)

  abbrev pub get_elem? : List A → ℕ → Option A
  get_elem? [] i = none
  get_elem? (x ∷ xs) zero = some x
  get_elem? (x ∷ xs) (suc i) = get_elem? xs i

  -- `Iterator::filter`
  abbrev pub filter : (A → Bool) → List A → List A
  filter p [] = []
  filter p (x ∷ xs) = if p x then x ∷ filter p xs else filter p xs

  abbrev pub All {κ} : (A → Type κ) → List A → Type κ
  All P [] = Unit
  All P (x ∷ xs) = P x × All P xs

  -- A relation between each element and every later one.
  abbrev pub Pairwise {κ} : (A → A → Type κ) → List A → Type κ
  Pairwise R [] = Unit
  Pairwise R (x ∷ xs) = All (R x) xs × Pairwise R xs

-- A position of a value in a list.
abbrev pub Holds : {A : Type 0} → A → List A → Type 0
Holds a [] = ⊥
Holds a (x ∷ xs) = (x ≡ a) ⊎ Holds a xs

module _ {ℓ} {A : Type ℓ} where
  pub length-append : (xs ys : List A) → length (xs ++ ys) ≡ length xs + length ys
  length-append [] ys = omega arith
  length-append (x ∷ xs) ys = omega (arith, length-append xs ys)

  pub All-append {κ} :
      (P : A → Type κ) (front back : List A) → All P front → All P back → All P (front ++ back)
  All-append P [] back h h' = h'
  All-append P (x ∷ front) back (p, h) h' = (p, All-append P front back h h')

  pub length-filter-le : (p : A → Bool) (xs : List A) → length (filter p xs) ≤ length xs
  length-filter-le p [] = omega arith
  length-filter-le p (x ∷ xs) = ground (arith, length-filter-le p xs)

  pub All-map {κ μ} :
      {Q : A → Type κ} {R : A → Type μ} (xs : List A) → ((x : A) → Q x → R x) → All Q xs → All R xs
  All-map [] f h = tt
  All-map (x ∷ xs) f h = (f x h.0, All-map xs f h.1)

  pub filter_keeps :
      (chosen : A → Bool) (rows : List A)
      → All (λ r. chosen r ≡ true) rows
      → filter chosen rows ≡ rows
  filter_keeps chosen [] h = refl
  filter_keeps chosen (r ∷ rows) (e, h) =
      let rest = filter_keeps chosen rows h in ground (arith, e, rest)

  pub All-filter {κ} :
      (P : A → Type κ) (p : A → Bool) (xs : List A) → All P xs → All P (filter p xs)
  All-filter P p [] h = tt
  All-filter P p (x ∷ xs) (here, h) = elim (Bool-cases (p x)) [
    | inl kept ↦ rw kept (here, All-filter P p xs h)
    | inr out ↦ rw out (All-filter P p xs h)
  ]

  pub Pairwise-filter {κ} :
      (R : A → A → Type κ) (p : A → Bool) (xs : List A) → Pairwise R xs → Pairwise R (filter p xs)
  Pairwise-filter R p [] h = tt
  Pairwise-filter R p (x ∷ xs) (here, h) = elim (Bool-cases (p x)) [
    | inl kept ↦ rw kept (All-filter (R x) p xs here, Pairwise-filter R p xs h)
    | inr out ↦ rw out (Pairwise-filter R p xs h)
  ]

  -- A last element that every other one is related to.
  pub Pairwise-append_one {κ} :
      (R : A → A → Type κ) (xs : List A) (a : A)
      → Pairwise R xs
      → All (λ x. R x a) xs
      → Pairwise R (xs ++ (a ∷ []))
  Pairwise-append_one R [] a h h' = (tt, tt)
  Pairwise-append_one R (x ∷ xs) a (here, h) (last, h') =
      (All-append (R x) xs (a ∷ []) here (last, tt), Pairwise-append_one R xs a h h')

module _ {κ} {A : Type 0} (P : A → Type κ) where
  pub All-at : (a : A) (xs : List A) → All P xs → Holds a xs → P a
  All-at a [] h m = absurd m
  All-at a (x ∷ xs) h (inl e) = subst P e h.0
  All-at a (x ∷ xs) h (inr m) = All-at a xs h.1 m

  pub All-of_at : (xs : List A) → ((a : A) → Holds a xs → P a) → All P xs
  All-of_at [] f = tt
  All-of_at (x ∷ xs) f = (f x (inl refl), All-of_at xs (λ a m. f a (inr m)))

  -- A list whose elements are all in another one.
  pub All-sub : (xs ys : List A) → ((a : A) → Holds a ys → Holds a xs) → All P xs → All P ys
  All-sub xs ys sub h = All-of_at ys (λ a m. All-at a xs h (sub a m))
