-- ===== src/Aead.antt =====
-- src/aead.rs: authenticated encryption with a fresh random nonce.
pub mod Laws
use aegis_keys_with_soteria.Prelude.{ℕ, not, if◌then◌else◌, length, ◌==◌}
use aegis_keys_with_soteria.Errors.{
  Result, err, aead_seal, aead_open, guard, ok_or, copy_from_slice, ◌>>=◌ as ◌>=>◌,
}
use aegis_keys_with_soteria.Errors.Effects.{Op, pure, lift, ask, ◌>>=◌, ◌>>◌}
use aegis_keys_with_soteria.Primitives.{Bytes, Primitives, Aead}

pub data AeadAlgo : Type 0 where
  aes256_gcm xchacha20_poly1305 : AeadAlgo

pub record AeadCipher : Type 0 where
  pub algo : AeadAlgo
  pub key : Bytes

-- `Nonce::from_slice` of the ciphers panics on another length, as `copy_from_slice` does.
abbrev nonce_from_slice : ℕ → Bytes → Result Bytes
nonce_from_slice = copy_from_slice

-- The nonce lengths of the two branches.
abbrev pub nonce_len_of : AeadAlgo → ℕ
nonce_len_of aes256_gcm = 12
nonce_len_of xchacha20_poly1305 = 24

module _ ⦃P : Primitives⦄ where
  abbrev pub scheme : AeadAlgo → Aead
  scheme aes256_gcm = P.aes_256_gcm
  scheme xchacha20_poly1305 = P.xchacha20_poly1305

  -- A branch of `seal`, for the cipher and its nonce length.
  unfoldable pub seal_with : Aead → ℕ → Bytes → Bytes → Bytes → Op (Bytes × Bytes)
  seal_with a nonce_len key plaintext aad = do
    nonce ← ask (λ k. P.fill_bytes k nonce_len)
    lift (guard (a.new_from_slice key) aead_seal)
    n ← lift (nonce_from_slice nonce_len nonce)
    ct ← lift (ok_or aead_seal (a.encrypt key n plaintext aad))
    pure (nonce, ct)

  unfoldable pub seal : AeadCipher → Bytes → Bytes → Op (Bytes × Bytes)
  unfolding seal_with
  seal c plaintext aad = elim c.algo [
    | aes256_gcm ↦ seal_with P.aes_256_gcm 12 c.key plaintext aad
    | xchacha20_poly1305 ↦ seal_with P.xchacha20_poly1305 24 c.key plaintext aad
  ]

  -- A branch of `open`.
  unfoldable pub open_with : Aead → ℕ → Bytes → Bytes → Bytes → Bytes → Result Bytes
  open_with a nonce_len key nonce ciphertext aad =
      if not (length nonce == nonce_len)
      then err aead_open
      else guard (a.new_from_slice key) aead_open >=> λ _.
          nonce_from_slice nonce_len nonce >=> λ n. ok_or aead_open (a.decrypt key n ciphertext aad)

  unfoldable pub open_sealed : AeadCipher → Bytes → Bytes → Bytes → Result Bytes
  unfolding open_with
  open_sealed c nonce ciphertext aad = elim c.algo [
    | aes256_gcm ↦ open_with P.aes_256_gcm 12 c.key nonce ciphertext aad
    | xchacha20_poly1305 ↦ open_with P.xchacha20_poly1305 24 c.key nonce ciphertext aad
  ]
