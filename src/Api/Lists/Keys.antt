-- ===== src/Api/Lists/Keys.antt =====
-- The keys under which src/api/routes/{pools,tokens}.rs keep the pages of a list in the cache.
use lumina_analytics.Prelude.{
  ℕ, zero, suc, ◌≤◌, String, ◌≡◌, refl, sym, ap, ◌∙◌, inl, inr, arith, Bool-cases,
}
use mathlib.Core.Option.{some-injective}
use text.Mathlib.TextLemmas.{append_cancel_left}
use lumina_analytics.Prelude.Int.{ℤ, pos, negsuc, ltb_ℤ}
use lumina_analytics.Text.{split_once}
use lumina_analytics.Text.Number.{parse_digits}
use lumina_analytics.Text.Display.{display, display_ℤ, parse_digits-display, split_once-display}
use lumina_analytics.Api.{
  PageQuery, page_limit, page_offset, clamp, max_ℤ, unwrap_or, default_page_size,
}
use lumina_analytics.Api.Lists.{page_key}

display-injective : (m n : ℕ) → display m ≡ display n → m ≡ n
display-injective m n e =
    some-injective m n
      (sym (parse_digits-display m) ∙ (ap (parse_digits 0) e ∙ parse_digits-display n))

pub page_key-injective :
    (name : String) (m n k l : ℕ)
    → page_key name (pos m) (pos n) ≡ page_key name (pos k) (pos l)
    → (m ≡ k) × (n ≡ l)
unfolding page_key display display_ℤ
page_key-injective name m n k l e =
    let after_name = append_cancel_left name _ _ e in
    let rest = append_cancel_left ":" _ _ after_name in
    let parts : (display m, display n) ≡ (display k, display l) = some-injective _ _ (
      sym (split_once-display m (display n))
      ∙ (ap (split_once b':') rest ∙ split_once-display k (display l))) in
    (
      display-injective m k (ap (λ (p : String × String). p.0) parts),
      display-injective n l (ap (λ (p : String × String). p.1) parts),
    )

pub clamp-pos :
    (n : ℤ) (high : ℕ)
    → 1 ≤ high
    → (m : ℕ) × (clamp n (pos 1) (pos high) ≡ pos m) × (1 ≤ m) × (m ≤ high)
clamp-pos (negsuc n) high h = (1, ground arith, omega arith, h)
clamp-pos (pos n) high h = elim (Bool-cases (ltb_ℤ (pos n) (pos 1))) [
  | inl low ↦ (1, rw low refl, omega arith, h)
  | inr fits ↦ elim (Bool-cases (ltb_ℤ (pos high) (pos n))) [
    | inl much ↦ (high, rw (fits, much) refl, h, omega arith)
    | inr right ↦ (n, rw (fits, right) refl, ground arith, ground arith)
  ]
]

max-pos : (n : ℤ) → (m : ℕ) × (max_ℤ n (pos 0) ≡ pos m)
max-pos (negsuc n) = (0, ground arith)
max-pos (pos zero) = (0, refl)
max-pos (pos (suc n)) = (suc n, ground arith)

-- The limit of a page is between 1 and 2000, and its offset is not negative.
pub page_bounds :
    (q : PageQuery)
    → (m n : ℕ) × (page_limit q ≡ pos m) × (page_offset q ≡ pos n) × (1 ≤ m) × (m ≤ 2000)
unfolding page_limit page_offset
page_bounds q =
    let (m, limit, low, high) =
      clamp-pos (unwrap_or q.limit default_page_size) 2000 (omega arith) in
    let (n, offset) = max-pos (unwrap_or q.offset (pos 0)) in (m, n, limit, offset, low, high)
