-- ===== src/Slots.antt =====
-- src/slots.rs, the slots: a key slot is a copy of the master key, encrypted under a key that is
-- derived from a passphrase. Also the volume verifier and the rotation of the master key.
pub mod Wrap
use mathlib.Core.Option
use aegis_keys_with_soteria.Prelude.{ℕ, ◌+◌, Bool, not, bit_and, length, ◌==◌}
use aegis_keys_with_soteria.Errors.{
  Result, ok, err, panic, AegisError, slot_unseal, guard, copy_from_slice,
}
use aegis_keys_with_soteria.Errors.Effects.{World, Op, pure, lift, ask, ◌>>=◌, ◌>>◌}
use aegis_keys_with_soteria.Primitives.{Bytes, Primitives}
use aegis_keys_with_soteria.AegisKey.{AegisKey, expose, new32}
use aegis_keys_with_soteria.Kdf.{master_len, argon2id_root}
use aegis_keys_with_soteria.Aead.{AeadCipher, aes256_gcm, seal, open_sealed}
use aegis_keys_with_soteria.Hierarchy.{literal}

abbrev pub header_magic : Bytes
header_magic = literal "SOTK"

abbrev pub header_version : ℕ
header_version = 1

abbrev pub kdf_id_argon2id : ℕ
kdf_id_argon2id = 1

abbrev pub max_slots : ℕ
max_slots = 16

abbrev pub slot_nonce_len : ℕ
slot_nonce_len = 12

abbrev pub tag_len : ℕ
tag_len = 16

abbrev pub ct_len : ℕ
ct_len = master_len + tag_len

pub record KeySlot : Type 0 where
  pub slot_id : Bytes
  pub kdf_id : ℕ
  pub m_cost : ℕ
  pub t_cost : ℕ
  pub salt : Bytes
  pub nonce : Bytes
  pub ct : Bytes
  pub flags : ℕ
  pub created_at : ℕ

unfoldable pub is_enabled : KeySlot → Bool
is_enabled s = not (bit_and s.flags 0b0000_0001 == 0)

abbrev pub verifier_key : Bytes
verifier_key = literal "soteria-aegis-volume-verifier-v1"

-- `.map_err(|_| e)` on a result of the crate.
abbrev pub map_err {ℓ} : {A : Type ℓ} → AegisError → Result A → Result A
map_err e (ok a) = ok a
map_err e (err _) = err e
map_err e panic = panic

abbrev pub slot_cipher : Bytes → AeadCipher
slot_cipher sk = record { algo = aes256_gcm; key = sk }

module _ ⦃P : Primitives⦄ where
  -- A clock that stands before the epoch counts as 0.
  now_secs : Op ℕ
  now_secs = ask (λ k. Option.get_or (P.since_epoch k) 0)

  unfoldable pub create : Bytes → Bytes → ℕ → ℕ → Op KeySlot
  unfolding now_secs
  create master passphrase m_cost t_cost = do
    salt ← ask (λ k. P.fill_bytes k 16)
    slot_key ← argon2id_root passphrase salt m_cost t_cost
    sk ← lift (copy_from_slice 32 (expose slot_key))
    (nonce, ct) ← seal (slot_cipher sk) master header_magic
    sid ← ask (λ k. P.fill_bytes k 16)
    nonce_arr ← lift (copy_from_slice slot_nonce_len nonce)
    ct_arr ← lift (copy_from_slice ct_len ct)
    now ← now_secs
    pure (record {
      slot_id = sid;
      kdf_id = kdf_id_argon2id;
      m_cost = m_cost;
      t_cost = t_cost;
      salt = salt;
      nonce = nonce_arr;
      ct = ct_arr;
      flags = 0b0000_0001;
      created_at = now;
    })

  unfoldable pub unseal : KeySlot → Bytes → Op AegisKey
  unseal s passphrase = do
    slot_key ← argon2id_root passphrase s.salt s.m_cost s.t_cost
    sk ← lift (copy_from_slice 32 (expose slot_key))
    master ← lift (map_err slot_unseal (open_sealed (slot_cipher sk) s.nonce s.ct header_magic))
    lift (guard (length master == master_len) slot_unseal)
    arr ← lift (copy_from_slice master_len master)
    new32 arr

  unfoldable pub volume_verifier : Bytes → Bytes
  volume_verifier master = P.keyed_hash verifier_key master

  -- `VolumeKeyRotation::rotate`
  unfoldable pub rotate : Op AegisKey
  rotate = do m ← ask (λ k. P.fill_bytes k master_len); new32 m
