-- ===== src/Suite/Accidents.antt =====
-- What the dependencies can do, against all expectation, that makes the integration test fail.
use aegis_keys_with_soteria.Prelude.{◌≡◌, ◌≢◌, some}
use aegis_keys_with_soteria.Primitives.{Bytes, Primitives}
use aegis_keys_with_soteria.Kdf.{hkdf_sha256}
use aegis_keys_with_soteria.Hierarchy.{Domain, info_tag, master_salt}

module _ ⦃P : Primitives⦄ where
  -- A ciphertext of XChaCha20-Poly1305 opens under other associated data; or HKDF gives two of the
  -- labels the same output for this master key.
  pub data Accident (master aad other : Bytes) : Type 0 where
    forged :
        (k n m c m' : Bytes)
        → P.xchacha20_poly1305.encrypt k n m aad ≡ some c
        → P.xchacha20_poly1305.decrypt k n c other ≡ some m'
        → Accident master aad other
    collided :
        (a b : Domain)
        → a ≢ b
        → hkdf_sha256 master master_salt (info_tag a) ≡ hkdf_sha256 master master_salt (info_tag b)
        → Accident master aad other
