-- ===== src/Kdf.antt =====
-- src/kdf.rs: the master key from a passphrase, and the HKDF step.
use aegis_keys_with_soteria.Prelude.{
  ℕ, ◌≡◌, Option, some, none, arith, length, Option-cases, inl, inr, if◌then◌else◌,
}
use aegis_keys_with_soteria.Errors.{Result, ok, err, argon2, hkdf, guard, ok_or}
use aegis_keys_with_soteria.Errors.Effects.{World, Op, lift, ◌>>=◌, ◌>>◌}
use aegis_keys_with_soteria.Primitives.{Bytes, Primitives, IsLawful}
use aegis_keys_with_soteria.AegisKey.{AegisKey, new, locked_key}

abbrev pub master_len : ℕ
master_len = 32

module _ ⦃P : Primitives⦄ where
  unfoldable pub argon2id_root : Bytes → Bytes → ℕ → ℕ → Op AegisKey
  argon2id_root passphrase salt memory_kib iterations = do
    lift (guard (P.params_new memory_kib iterations 1 master_len) argon2)
    out ← lift (ok_or argon2 (P.hash_password memory_kib iterations 1 master_len passphrase salt))
    new out

  unfoldable pub hkdf_sha256 : Bytes → Bytes → Bytes → Result Bytes
  hkdf_sha256 ikm salt info = ok_or hkdf (P.hkdf_expand salt ikm info 32)

  -- What argon2 makes of the parameters, with no regard to where the key is kept.
  abbrev pub derived : Bytes → Bytes → ℕ → ℕ → Option Bytes
  derived passphrase salt m t =
      if P.params_new m t 1 master_len
      then P.hash_password m t 1 master_len passphrase salt
      else none

  pub argon2id_root-some :
      (passphrase salt : Bytes) (m t : ℕ) (w : World) (out : Bytes)
      → derived passphrase salt m t ≡ some out
      → argon2id_root passphrase salt m t w ≡ (ok (locked_key out w).0, (locked_key out w).1)
  unfolding argon2id_root new
  argon2id_root-some passphrase salt m t w out h = ground arith

  pub argon2id_root-none :
      (passphrase salt : Bytes) (m t : ℕ) (w : World)
      → derived passphrase salt m t ≡ none
      → argon2id_root passphrase salt m t w ≡ (err argon2, w)
  unfolding argon2id_root new
  argon2id_root-none passphrase salt m t w h = ground arith

  module _ (L : IsLawful P) where
    pub derived-length :
        (passphrase salt : Bytes) (m t : ℕ) (out : Bytes)
        → derived passphrase salt m t ≡ some out
        → length out ≡ 32
    derived-length passphrase salt m t out h =
        ground (arith, L.hash_password-length m t 1 32 passphrase salt out)

    -- The 32-byte outputs are far below the limit of HKDF.
    pub hkdf_sha256_total :
        (ikm salt info : Bytes)
        → (okm : Bytes) × (hkdf_sha256 ikm salt info ≡ ok okm) × (length okm ≡ 32)
    unfolding hkdf_sha256
    hkdf_sha256_total ikm salt info = elim (Option-cases (P.hkdf_expand salt ikm info 32)) [
      | inl e ↦ absurd (L.hkdf_expand_total salt ikm info 32 (omega arith) e)
      | inr (okm, e) ↦ (okm, rw e, L.hkdf_expand-length salt ikm info 32 okm e)
    ]
