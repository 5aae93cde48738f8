-- ===== src/Auth.antt =====
-- src/auth.rs: the admin key that the handlers which change something ask for. `get` is what the
-- header map holds under a name, and `to_str` the text of a header's value.
pub mod Bits
pub mod Guard
use Prim.Native.Nat.{bit_or, bit_xor}
use lumina_analytics.Prelude.{
  ℕ, String, Bool, true, false, not, Option, none, some, List, [], ◌∷◌, length, ◌==◌, if◌then◌else◌,
}
use lumina_analytics.Text.Bytes.{as_bytes}

abbrev pub header_name : String
header_name = "x-admin-key"

-- `a.iter().zip(b).fold(acc, …)`, on bytes
unfoldable pub fold_bytes : ℕ → List ℕ → List ℕ → ℕ
fold_bytes acc [] b = acc
fold_bytes acc (x ∷ a) [] = acc
fold_bytes acc (x ∷ a) (y ∷ b) = fold_bytes (bit_or acc (bit_xor x y)) a b

unfoldable pub constant_time_eq : String → String → Bool
unfolding fold_bytes as_bytes
constant_time_eq s t =
    let a = as_bytes s in
    let b = as_bytes t in if not (length a == length b) then false else fold_bytes 0 a b == 0

abbrev pub and_then : {A B : Type 0} → Option A → (A → Option B) → Option B
and_then none f = none
and_then (some a) f = f a

abbrev pub is_some_and : {A : Type 0} → Option A → (A → Bool) → Bool
is_some_and none f = false
is_some_and (some a) f = f a

-- The text of the error, of the response that stops the request.
unfoldable pub guard :
    {H : Type 0}
    → Option String
    → (get : String → Option H) (to_str : H → Option String) → Option String
unfolding constant_time_eq
guard admin_api_key get to_str = and_then admin_api_key λ expected.
    let provided = and_then (get header_name) to_str in
    if is_some_and provided (λ p. constant_time_eq p expected)
    then none
    else some "missing or invalid X-Admin-Key header"
