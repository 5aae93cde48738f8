-- ===== src/Decimal/Micro.antt =====
-- The laws of `Decimal` can be met: integers that count millionths, below 2 ^ 96 in magnitude.
use Prim.Native.Char.{code}
use lumina_analytics.Prelude.{
  ℕ, ◌+◌, ◌-◌, ◌*◌, ◌^◌, String, ◌≡◌, refl, Bool, ◌&&◌, Option, none, some, arith, ltb, leb, ◌==◌,
  if◌then◌else◌,
}
use lumina_analytics.Prelude.Int.{
  ℤ, pos, negsuc, pos_part, neg_part, sub_ℕ, magnitude, leb_ℤ, ltb_ℤ, quot, ◌+ℤ◌, ◌-ℤ◌, ◌*ℤ◌,
}
use lumina_analytics.Decimal.{DecimalOps, DecimalLaws}

-- `none` is an overflow.
abbrev fit : ℤ → Option ℤ
fit a = if ltb (magnitude a) (2 ^ 96) then some a else none

abbrev micro_neg : ℤ → ℤ
micro_neg a = sub_ℕ (neg_part a) (pos_part a)

abbrev micro_is_zero : ℤ → Bool
micro_is_zero a = magnitude a == 0

abbrev is_digit : ℕ → Bool
is_digit c = leb b'0' c && leb c b'9'

abbrev parse_fraction : (places value : ℕ) → String → Option ℕ
parse_fraction places value String.[] = some (value * 10 ^ places)
parse_fraction places value (String.◌∷◌ c s) =
    let rest =
      parse_fraction (places - 1) (if leb places 0 then value else value * 10 + (code c - 48)) s in
    if is_digit (code c) then rest else none

abbrev parse_whole : (value : ℕ) → String → Option ℕ
parse_whole value String.[] = some (value * 10 ^ 6)
parse_whole value (String.◌∷◌ c s) =
    let rest = parse_whole (value * 10 + (code c - 48)) s in
    if is_digit (code c) then rest else if code c == b'.' then parse_fraction 6 value s else none

abbrev negated : Option ℕ → Option ℤ
negated none = none
negated (some n) = some (sub_ℕ 0 n)

abbrev positive : Option ℕ → Option ℤ
positive none = none
positive (some n) = some (pos n)

abbrev parse_micro : String → Option ℤ
parse_micro String.[] = none
parse_micro (String.◌∷◌ c s) =
    if code c == b'-' then negated (parse_whole 0 s) else positive (parse_whole 0 (String.◌∷◌ c s))

instance unfoldable pub micro_ops : DecimalOps ℤ
unfolding ◌+ℤ◌ ◌-ℤ◌ ◌*ℤ◌ quot
micro_ops = record {
  of_int = λ n. n *ℤ pos 1_000_000;
  add = λ a b. fit (a +ℤ b);
  sub = λ a b. fit (a -ℤ b);
  mul = λ a b. fit (quot (a *ℤ b) (pos 1_000_000));
  div = λ a b. if micro_is_zero b then none else fit (quot (a *ℤ pos 1_000_000) b);
  neg = micro_neg;
  le = leb_ℤ;
  is_zero = micro_is_zero;
  is_sign_negative = λ a. ltb_ℤ a (pos 0);
  from_str = parse_micro;
}

le-of_int : (m n : ℤ) → leb_ℤ (m *ℤ pos 1_000_000) (n *ℤ pos 1_000_000) ≡ leb_ℤ m n
unfolding ◌*ℤ◌
le-of_int m n = ground arith

neg-neg : (a : ℤ) → micro_neg (micro_neg a) ≡ a
neg-neg a = ground arith

pub micro_laws : DecimalLaws ℤ
unfolding micro_ops ◌+ℤ◌ ◌-ℤ◌ ◌*ℤ◌ quot
micro_laws = record {
  le_refl = λ a. ground arith;
  le_trans = λ a b c. ground arith;
  le_total = λ a b. ground arith;
  le-of_int = λ m n. le-of_int m n;
  is_zero_lem = λ a. ground arith;
  div_by_zero = λ a b h. ground arith;
  neg_antitone = λ a b. ground arith;
  neg-neg = neg-neg;
  neg-zero_le = λ a. ground arith;
  sign_of_negative = λ a. ground arith;
  negative_le = λ a. ground arith;
  add_nonneg = λ a b c ha hb h. ground arith;
}

parse_runs :
    (parse_micro "0.5001" ≡ some (pos 500_100)) × (parse_micro "-12" ≡ some (negsuc 11_999_999))
parse_runs = (refl, refl)
