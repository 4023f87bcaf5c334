-- ===== src/Errors.antt =====
-- src/error.rs: the errors, and the result of a fallible call. A panic (an index out of bounds,
-- `copy_from_slice` between different lengths, `expect` on an error) is a third outcome.
pub mod Effects
use aegis_keys_with_soteria.Prelude.{
  ℕ, ◌≡◌, refl, Bool, true, false, Option, none, some, List, arith, ◌==◌, if◌then◌else◌, length,
}

pub data AegisError : Type 0 where
  argon2 hkdf aead_seal aead_open : AegisError
  key_length : ℕ → ℕ → AegisError
  slot_unseal no_slot_unsealed last_slot_revocation : AegisError
  slot_table_full : ℕ → AegisError
  header_integrity volume_mismatch serialization : AegisError

pub data Result {ℓ} (A : Type ℓ) : Type ℓ where
  ok : A → Result A
  err : AegisError → Result A
  panic : Result A

infixl 5 ◌>>=◌ ◌>>◌
abbrev pub ◌>>=◌ {ℓ κ} : {A : Type ℓ} {B : Type κ} → Result A → (A → Result B) → Result B
ok a >>= f = f a
err e >>= f = err e
panic >>= f = panic

abbrev pub ◌>>◌ {ℓ} : {B : Type ℓ} → Result (Unit {0}) → Result B → Result B
m >> k = m >>= λ _. k

abbrev pub guard : Bool → AegisError → Result (Unit {0})
guard true e = ok tt
guard false e = err e

-- `.map_err(|_| e)?` on a call of a dependency: its own error is dropped.
abbrev pub ok_or {ℓ} : {A : Type ℓ} → AegisError → Option A → Result A
ok_or e (some a) = ok a
ok_or e none = err e

-- `.expect(..)`
abbrev pub expect {ℓ} : {A : Type ℓ} → Result A → Result A
expect (ok a) = ok a
expect (err e) = panic
expect panic = panic

-- `dst.copy_from_slice(src)` into `dst: [u8; n]` panics unless the lengths agree.
abbrev pub copy_from_slice {ℓ} : {A : Type ℓ} → ℕ → List A → Result (List A)
copy_from_slice n src = if length src == n then ok src else panic

abbrev pub result_map {ℓ κ} : {A : Type ℓ} {B : Type κ} → (A → B) → Result A → Result B
result_map f (ok a) = ok (f a)
result_map f (err e) = err e
result_map f panic = panic
