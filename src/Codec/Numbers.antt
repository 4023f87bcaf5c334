-- ===== src/Codec/Numbers.antt =====
-- Little-endian integers, in range: `to_le_bytes` and `from_le_bytes` of src/slots.rs.
use aegis_keys_with_soteria.Prelude.{
  ℕ, zero, suc, ◌+◌, ◌*◌, ◌^◌, ◌/◌, ◌<◌, ◌≡◌, refl, ap, ap₂, [], ◌∷◌, arith, length, All,
}
use native.Mathlib.Nat.{pow-suc}
use aegis_keys_with_soteria.Primitives.{Bytes, IsByte}
use aegis_keys_with_soteria.Codec.{to_le_bytes, from_le_bytes}

pub length-to_le_bytes : (n x : ℕ) → length (to_le_bytes n x) ≡ n
unfolding to_le_bytes
length-to_le_bytes zero x = refl
length-to_le_bytes (suc n) x = ap suc (length-to_le_bytes n (x / 256))

pub from_le_bytes-to_le_bytes : (n x : ℕ) → x < 256 ^ n → from_le_bytes (to_le_bytes n x) ≡ x
unfolding to_le_bytes from_le_bytes
from_le_bytes-to_le_bytes zero x h = omega arith
from_le_bytes-to_le_bytes (suc n) x h =
    let smaller : x / 256 < 256 ^ n = omega (arith, pow-suc 256 n) in
    omega (arith, from_le_bytes-to_le_bytes n (x / 256) smaller)

pub to_le_bytes-from_le_bytes :
    (n : ℕ) (b : Bytes) → length b ≡ n → All IsByte b → to_le_bytes n (from_le_bytes b) ≡ b
unfolding to_le_bytes from_le_bytes
to_le_bytes-from_le_bytes zero [] e h = refl
to_le_bytes-from_le_bytes zero (x ∷ b) e h = absurd (omega arith)
to_le_bytes-from_le_bytes (suc n) [] e h = absurd (omega arith)
to_le_bytes-from_le_bytes (suc n) (x ∷ b) e h =
    let rest = to_le_bytes-from_le_bytes n b (omega arith) h.1 in
    let high : (x + 256 * from_le_bytes b) / 256 ≡ from_le_bytes b = omega arith in
    ap₂ ◌∷◌ (omega arith) (rw high rest)

pub from_le_bytes-lt : (n : ℕ) (b : Bytes) → length b ≡ n → All IsByte b → from_le_bytes b < 256 ^ n
unfolding from_le_bytes
from_le_bytes-lt zero [] e h = omega arith
from_le_bytes-lt zero (x ∷ b) e h = absurd (omega arith)
from_le_bytes-lt (suc n) [] e h = absurd (omega arith)
from_le_bytes-lt (suc n) (x ∷ b) e h =
    omega (arith, from_le_bytes-lt n b (omega arith) h.1, pow-suc 256 n)
