-- ===== src/Text/Bytes.antt =====
-- `str::as_bytes`: the bytes of a text in UTF-8.
use Prim.Native.Nat.{◌+◌, ◌/◌, ◌%◌}
use Prim.Native.Char.{code}
use text.Mathlib.TextEquality.{Char-path}
use lumina_analytics.Prelude.{
  ℕ, String, ◌≡◌, ◌≢◌, refl, sym, List, [], ◌∷◌, ◌++◌, arith, ltb, if◌then◌else◌,
}

-- `char::encode_utf8`, of the character with this code
unfoldable pub encode_utf8 : ℕ → List ℕ
encode_utf8 n =
    if ltb n 0x80
    then n ∷ []
    else if ltb n 0x800
    then (0xc0 + n / 0x40) ∷ (0x80 + n % 0x40) ∷ []
    else if ltb n 0x10000
    then (0xe0 + n / 0x1000) ∷ (0x80 + n / 0x40 % 0x40) ∷ (0x80 + n % 0x40) ∷ []
    else (0xf0 + n / 0x40000)
      ∷ (0x80 + n / 0x1000 % 0x40)
      ∷ (0x80 + n / 0x40 % 0x40)
      ∷ (0x80 + n % 0x40)
      ∷ []

unfoldable pub as_bytes : String → List ℕ
unfolding encode_utf8
as_bytes String.[] = []
as_bytes (String.◌∷◌ c s) = encode_utf8 (code c) ++ as_bytes s

-- No code is a prefix of another one.
encode_utf8-injective :
    (m n : ℕ) (r s : List ℕ) → encode_utf8 m ++ r ≡ encode_utf8 n ++ s → (m ≡ n) × (r ≡ s)
unfolding encode_utf8
encode_utf8-injective m n r s h = (ground arith, ground arith)

encode_utf8-ne-nil : (n : ℕ) (r : List ℕ) → encode_utf8 n ++ r ≢ []
unfolding encode_utf8
encode_utf8-ne-nil n r h = ground arith

-- The bytes determine the text.
pub as_bytes-injective : (s t : String) → as_bytes s ≡ as_bytes t → s ≡ t
unfolding as_bytes
as_bytes-injective String.[] String.[] h = refl
as_bytes-injective String.[] (String.◌∷◌ d t) h =
    absurd (encode_utf8-ne-nil (code d) (as_bytes t) (sym h))
as_bytes-injective (String.◌∷◌ c s) String.[] h =
    absurd (encode_utf8-ne-nil (code c) (as_bytes s) h)
as_bytes-injective (String.◌∷◌ c s) (String.◌∷◌ d t) h =
    let (same_code, same_rest) =
      encode_utf8-injective (code c) (code d) (as_bytes s) (as_bytes t) h in
    let e : c ≡ d = Char-path c d same_code in rw (e, as_bytes-injective s t same_rest)
