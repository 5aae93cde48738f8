-- ===== src/Decimal.antt =====
-- What the code uses of the type `Decimal` of the crate `rust_decimal`, which is not part of the
-- repository: its operations, and the laws that its documentation gives. An arithmetic operator that
-- overflows, and a division by zero, panics: that is `none`.
pub mod Micro
pub mod Checked
use lumina_analytics.Prelude.{
  String, ◌≡◌, Bool, true, false, not, ◌&&◌, Option, none, some, ◌⊎◌, arith, if◌then◌else◌,
}
use lumina_analytics.Prelude.Int.{ℤ, pos, leb_ℤ}

pub record DecimalOps (D : Type 0) : Type 0 where
  pub of_int : ℤ → D
  pub add : D → D → Option D
  pub sub : D → D → Option D
  pub mul : D → D → Option D
  pub div : D → D → Option D
  pub neg : D → D
  pub le : D → D → Bool
  pub is_zero : D → Bool
  pub is_sign_negative : D → Bool
  pub from_str : String → Option D

-- The operators and methods, in the words of the code.
module _ {D : Type 0} ⦃d : DecimalOps D⦄ where
  abbrev pub dec_le : D → D → Bool
  dec_le = d.le

  abbrev pub dec_lt : D → D → Bool
  dec_lt a b = not (d.le b a)

  abbrev pub dec_max : D → D → D
  dec_max a b = if d.le a b then b else a

  abbrev pub from : ℤ → D
  from = d.of_int

  abbrev pub dec_zero : D
  dec_zero = d.of_int (pos 0)

infix 4 ◌≼◌
abbrev pub ◌≼◌ : {D : Type 0} ⦃d : DecimalOps D⦄ → D → D → Type 0
◌≼◌ ⦃d⦄ a b = d.le a b ≡ true

pub record DecimalLaws (D : Type 0) ⦃d : DecimalOps D⦄ : Type 0 where
  pub le_refl : (a : D) → a ≼ a
  pub le_trans : (a b c : D) → a ≼ b → b ≼ c → a ≼ c
  pub le_total : (a b : D) → (a ≼ b) ⊎ (b ≼ a)
  pub le-of_int : (m n : ℤ) → d.le (d.of_int m) (d.of_int n) ≡ leb_ℤ m n
  pub is_zero_lem : (a : D) → d.is_zero a ≡ (d.le a (d.of_int (pos 0)) && d.le (d.of_int (pos 0)) a)
  pub div_by_zero : (a b : D) → d.is_zero b ≡ true → d.div a b ≡ none
  pub neg_antitone : (a b : D) → d.le (d.neg a) (d.neg b) ≡ d.le b a
  pub neg-neg : (a : D) → d.neg (d.neg a) ≡ a
  pub neg-zero_le : (a : D) → d.le (d.neg a) (d.of_int (pos 0)) ≡ d.le (d.of_int (pos 0)) a
  pub sign_of_negative : (a : D) → d.le (d.of_int (pos 0)) a ≡ false → d.is_sign_negative a ≡ true
  pub negative_le : (a : D) → d.is_sign_negative a ≡ true → a ≼ d.of_int (pos 0)
  pub add_nonneg :
      (a b c : D)
      → d.of_int (pos 0) ≼ a
      → d.of_int (pos 0) ≼ b
      → d.add a b ≡ some c
      → d.of_int (pos 0) ≼ c
