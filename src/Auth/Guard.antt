-- ===== src/Auth/Guard.antt =====
-- What the comparison of keys in src/auth.rs decides, and whom the guard lets through.
use Prim.Native.Nat.{bit_or, bit_xor}
use lumina_analytics.Prelude.{
  ℕ, String, ◌≡◌, refl, sym, ◌↔◌, ◌⊎◌, inl, inr, true, Option, none, some, List, [], ◌∷◌, arith,
  length, Bool-cases, Option-cases,
}
use mathlib.Core.Path.{subst}
use mathlib.Core.Option.{some-injective}
use lumina_analytics.Text.Bytes.{as_bytes, as_bytes-injective}
use lumina_analytics.Auth.{header_name, fold_bytes, constant_time_eq, and_then, guard}
use lumina_analytics.Auth.Bits.{bit_or_zero, bit_xor_zero, bit_xor_self}

fold_bytes_zero :
    (acc : ℕ) (a b : List ℕ) → length a ≡ length b → fold_bytes acc a b ≡ 0 → (acc ≡ 0) × (a ≡ b)
unfolding fold_bytes
fold_bytes_zero acc [] [] n h = (h, refl)
fold_bytes_zero acc [] (y ∷ b) n h = absurd (omega arith)
fold_bytes_zero acc (x ∷ a) [] n h = absurd (omega arith)
fold_bytes_zero acc (x ∷ a) (y ∷ b) n h =
    let (here, rest) = fold_bytes_zero (bit_or acc (bit_xor x y)) a b (omega arith) h in
    let (before, differ) = bit_or_zero acc (bit_xor x y) here in
    (before, cc (bit_xor_zero x y differ, rest))

fold_bytes_self : (a : List ℕ) → fold_bytes 0 a a ≡ 0
unfolding fold_bytes
fold_bytes_self [] = refl
fold_bytes_self (x ∷ a) = rw (bit_xor_self x) (fold_bytes_self a)

-- The comparison, which looks at all bytes and stops at none, is equality of the texts.
pub constant_time_eq_iff : (s t : String) → (constant_time_eq s t ≡ true) ↔ (s ≡ t)
unfolding constant_time_eq
constant_time_eq_iff s t =
    let a = as_bytes s in
    let b = as_bytes t in
    (
      λ h. as_bytes-injective s t (fold_bytes_zero 0 a b (ground arith) (ground arith)).1,
      λ e. rw e (ground (arith, fold_bytes_self b)),
    )

-- A request that carries the key in its header.
abbrev pub Carries : {H : Type 0} → (String → Option H) → (H → Option String) → String → Type 0
Carries {H} get to_str key = (h : H) × (get header_name ≡ some h) × (to_str h ≡ some key)

and_then-eq-some :
    {A B : Type 0} (o : Option A) (f : A → Option B) {b : B}
    → and_then o f ≡ some b
    → (a : A) × (o ≡ some a) × (f a ≡ some b)
and_then-eq-some none f e = cc
and_then-eq-some (some a) f e = (a, refl, e)

module _ {H : Type 0} (get : String → Option H) (to_str : H → Option String) where
  guard_key-Carries : (key : String) → guard (some key) get to_str ≡ none → Carries get to_str key
  unfolding guard
  guard_key-Carries key e = elim (Option-cases (and_then (get header_name) to_str)) [
    | inl missing ↦ absurd (ground (arith, missing))
    | inr (p, found) ↦ elim (Bool-cases (constant_time_eq p key)) [
      | inl same ↦
          let is_key : p ≡ key = (constant_time_eq_iff p key).0 same in
          and_then-eq-some (get header_name) to_str (rw (← is_key) found)
      | inr other ↦ absurd (ground (arith, found, other))
    ]
  ]

  Carries-guard_key : (key : String) → Carries get to_str key → guard (some key) get to_str ≡ none
  unfolding guard
  Carries-guard_key key (h, found, text) =
      let same : constant_time_eq key key ≡ true = (constant_time_eq_iff key key).1 refl in
      rw (found, text, same) refl

  -- A request passes the guard exactly when no admin key is configured, or its header `x-admin-key`
  -- holds, as a text, the configured key. Every other request is answered with an error.
  pub guard_iff :
      (admin_api_key : Option String)
      → (guard admin_api_key get to_str ≡ none) ↔ (
          (admin_api_key ≡ none)
          ⊎ ((key : String) × (admin_api_key ≡ some key) × Carries get to_str key))
  unfolding guard
  guard_iff none = (λ e. inl refl, λ e. refl)
  guard_iff (some key) = (
    λ e. inr (key, refl, guard_key-Carries key e),
    λ h. elim h [
      | inl absent ↦ absurd (cc)
      | inr (k, same, carried) ↦
          let e : k ≡ key = sym (some-injective key k same) in
          Carries-guard_key key (subst (Carries get to_str) e carried)
    ],
  )
