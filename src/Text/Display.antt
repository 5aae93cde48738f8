-- ===== src/Text/Display.antt =====
-- `{}` of an integer: its decimal digits, after a sign if it is negative.
use Prim.Native.Char.{Char, code}
use Prim.Native.String.{◌++◌ as append}
use text.Mathlib.TextLemmas.{nil-append, cons-append}
use lumina_analytics.Prelude.{
  ℕ, zero, suc, ◌+◌, ◌-◌, ◌*◌, ◌/◌, ◌%◌, ◌<◌, String, ◌≡◌, refl, ap, ◌∙◌, inl, inr, true, false,
  ◌&&◌, some, arith, ltb, leb, ◌==◌, if◌then◌else◌, Bool-cases,
}
use lumina_analytics.Prelude.Int.{ℤ, pos, negsuc}
use lumina_analytics.Text.{char_of, code-char_of, split_once}
use lumina_analytics.Text.Number.{parse_digits}

abbrev pub digit : ℕ → Char
digit d = char_of (48 + d)

-- The digits of the number, in front of a text. A number has fewer digits than its successor counts.
unfoldable pub display_from : (fuel n : ℕ) → String → String
unfolding char_of
display_from zero n rest = rest
display_from (suc fuel) n rest =
    let more = display_from fuel (n / 10) (String.◌∷◌ (digit (n % 10)) rest) in
    if ltb n 10 then String.◌∷◌ (digit n) rest else more

unfoldable pub display : ℕ → String
unfolding display_from
display n = display_from (suc n) n ""

unfoldable pub display_ℤ : ℤ → String
unfolding display_from
display_ℤ (pos n) = display_from (suc n) n ""
display_ℤ (negsuc n) = String.◌∷◌ (char_of b'-') (display_from (suc (suc n)) (suc n) "")

code-digit : (d : ℕ) → d < 10 → code (digit d) ≡ 48 + d
code-digit d h = code-char_of (48 + d) (omega arith)

parse_digits-digit :
    (value d : ℕ) (rest : String)
    → d < 10
    → parse_digits value (String.◌∷◌ (digit d) rest) ≡ parse_digits (value * 10 + d) rest
unfolding parse_digits
parse_digits-digit value d rest h =
    let shown : (leb b'0' (48 + d) && leb (48 + d) b'9') ≡ true = ground arith in
    let same : 48 + d - 48 ≡ d = omega arith in rw (code-digit d h, shown, same) refl

-- The digits are read back, in front of any text.
parse_digits-display_from :
    (fuel n : ℕ) (rest : String)
    → n < fuel
    → parse_digits 0 (display_from fuel n rest) ≡ parse_digits n rest
unfolding display_from
parse_digits-display_from zero n rest h = absurd (omega arith)
parse_digits-display_from (suc fuel) n rest h = elim (Bool-cases (ltb n 10)) [
  | inl one ↦
      let start : 0 * 10 + n ≡ n = omega arith in
      rw one (parse_digits-digit 0 n rest (ground arith) ∙ ap (λ v. parse_digits v rest) start)
  | inr more ↦
      let e : n / 10 * 10 + n % 10 ≡ n = omega arith in
      rw more (
        parse_digits-display_from fuel (n / 10) (String.◌∷◌ (digit (n % 10)) rest) (ground arith)
        ∙ (parse_digits-digit (n / 10) (n % 10) rest (omega arith)
            ∙ ap (λ v. parse_digits v rest) e))
]

pub parse_digits-display : (n : ℕ) → parse_digits 0 (display n) ≡ some n
unfolding display parse_digits
parse_digits-display n = parse_digits-display_from (suc n) n "" (omega arith)

-- No digit is a separator.
split_once-display_from :
    (fuel n k : ℕ) (rest : String) {a b : String}
    → ltb 57 k ≡ true
    → split_once k rest ≡ some (a, b)
    → split_once k (display_from fuel n rest) ≡ some (display_from fuel n a, b)
unfolding display_from split_once
split_once-display_from zero n k rest h e = e
split_once-display_from (suc fuel) n k rest {a} {b} h e = elim (Bool-cases (ltb n 10)) [
  | inl one ↦
      let other : (code (digit n) == k) ≡ false = rw (code-digit n (ground arith)) (ground arith) in
      rw (one, other, e) refl
  | inr more ↦
      let other : (code (digit (n % 10)) == k) ≡ false =
        rw (code-digit (n % 10) (omega arith)) (ground arith) in
      let before : split_once k (String.◌∷◌ (digit (n % 10)) rest)
          ≡ some (String.◌∷◌ (digit (n % 10)) a, b) =
        rw (other, e) refl in
      rw more (split_once-display_from fuel (n / 10) k (String.◌∷◌ (digit (n % 10)) rest) h before)
]

-- To put the digits in front of a text.
display_from-append :
    (fuel n : ℕ) (a b : String)
    → append (display_from fuel n a) b ≡ display_from fuel n (append a b)
unfolding display_from
display_from-append zero n a b = refl
display_from-append (suc fuel) n a b = elim (Bool-cases (ltb n 10)) [
  | inl one ↦ rw one (cons-append (digit n) a b)
  | inr more ↦ rw more (
      display_from-append fuel (n / 10) (String.◌∷◌ (digit (n % 10)) a) b
      ∙ ap (display_from fuel (n / 10)) (cons-append (digit (n % 10)) a b))
]

colon-append : (r : String) → append ":" r ≡ String.◌∷◌ (char_of b':') r
unfolding char_of
colon-append r = rw (cons-append, nil-append)

colon-split_once : (r : String) → split_once b':' (String.◌∷◌ (char_of b':') r) ≡ some ("", r)
unfolding split_once char_of
colon-split_once r = refl

display-append : (n : ℕ) (r : String) → append (display n) r ≡ display_from (suc n) n r
unfolding display
display-append n r = display_from-append (suc n) n "" r ∙ ap (display_from (suc n) n) (nil-append r)

-- Digits and a colon are taken apart again.
pub split_once-display :
    (n : ℕ) (r : String) → split_once b':' (append (display n) (append ":" r)) ≡ some (display n, r)
unfolding display
split_once-display n r =
    ap (split_once b':')
      (ap (append (display n)) (colon-append r) ∙ display-append n (String.◌∷◌ (char_of b':') r))
    ∙ split_once-display_from (suc n) n b':' (String.◌∷◌ (char_of b':') r) refl (colon-split_once r)

display_runs : (display 0 ≡ "0") × (display 2010 ≡ "2010") × (display_ℤ (negsuc 6) ≡ "-7")
unfolding display display_ℤ
display_runs = (refl, refl, refl)
