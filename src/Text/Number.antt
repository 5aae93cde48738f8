-- ===== src/Text/Number.antt =====
-- `parse::<i32>` of Rust: an optional sign and decimal digits, within the range of the type.
use Prim.Native.Char.{code}
use lumina_analytics.Prelude.{
  ℕ, ◌+◌, ◌-◌, ◌*◌, ◌^◌, String, ◌≡◌, refl, ◌&&◌, Option, none, some, ltb, leb, ◌==◌, if◌then◌else◌,
}
use lumina_analytics.Prelude.Int.{ℤ, pos, sub_ℕ}

unfoldable pub parse_digits : (value : ℕ) → String → Option ℕ
parse_digits value String.[] = some value
parse_digits value (String.◌∷◌ c s) =
    let rest = parse_digits (value * 10 + (code c - 48)) s in
    if leb b'0' (code c) && leb (code c) b'9' then rest else none

abbrev digits : String → Option ℕ
digits String.[] = none
digits (String.◌∷◌ c s) = parse_digits 0 (String.◌∷◌ c s)

abbrev within : (limit : ℕ) → (ℕ → ℤ) → Option ℕ → Option ℤ
within limit sign none = none
within limit sign (some n) = if ltb n limit then some (sign n) else none

unfoldable pub parse_i32 : String → Option ℤ
unfolding parse_digits
parse_i32 String.[] = none
parse_i32 (String.◌∷◌ c s) =
    if code c == b'-'
    then within (2 ^ 31 + 1) (λ n. sub_ℕ 0 n) (digits s)
    else if code c == b'+'
    then within (2 ^ 31) pos (digits s)
    else within (2 ^ 31) pos (digits (String.◌∷◌ c s))

parse_i32_runs : parse_i32 "1203" ≡ some (pos 1203)
unfolding parse_i32
parse_i32_runs = refl

-- `parse::<u32>` and `parse::<u64>`, by their width.
unfoldable pub parse_unsigned : (width : ℕ) → String → Option ℕ
unfolding parse_digits
parse_unsigned width String.[] = none
parse_unsigned width (String.◌∷◌ c s) =
    let magnitude = if code c == b'+' then digits s else digits (String.◌∷◌ c s) in
    elim magnitude [ none ↦ none | some n ↦ if ltb n (2 ^ width) then some n else none ]

parse_unsigned_runs : (parse_unsigned 32 "40" ≡ some 40) × (parse_unsigned 32 "4294967296" ≡ none)
unfolding parse_unsigned
parse_unsigned_runs = (refl, refl)
