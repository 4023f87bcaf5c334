-- ===== src/Suite/Keys.antt =====
-- The `tests` modules of src/aegis_key.rs, src/kdf.rs, src/aead.rs and src/hierarchy.rs.
pub mod Memory
pub mod Domains
use text.Mathlib.Text.{◌==◌ as ◌==ₛ◌}
use aegis_keys_with_soteria.Prelude.{
  ℕ, zero, suc, Bool, true, false, not, ◌&&◌, ◌||◌, List, [], ◌∷◌, length, replicate, ◌==◌, String,
  if◌then◌else◌,
}
use aegis_keys_with_soteria.Errors.{Result, expect}
use aegis_keys_with_soteria.Errors.Effects.{Op, lift, ◌>>=◌, ◌>>◌}
use aegis_keys_with_soteria.Primitives.{Bytes, Primitives}
use aegis_keys_with_soteria.AegisKey.{AegisKey, expose, len, is_empty, new, new32, ct_eq, debug}
use aegis_keys_with_soteria.Kdf.{argon2id_root, hkdf_sha256}
use aegis_keys_with_soteria.Aead.{
  AeadAlgo, AeadCipher, aes256_gcm, xchacha20_poly1305, seal, open_sealed,
}
use aegis_keys_with_soteria.Hierarchy.{
  literal, Domain, enc, auth, meta, shard, xts, handle, info_tag, domain, from_master,
  legacy_single_key, subkey,
}
use aegis_keys_with_soteria.Codec.{bytes_eq}
use aegis_keys_with_soteria.Client.{assert, unwrap, is_err, flip_bit}

-- `str::contains`
unfoldable pub starts_with : Bytes → Bytes → Bool
starts_with s [] = true
starts_with [] (x ∷ p) = false
starts_with (c ∷ s) (x ∷ p) = c == x && starts_with s p

unfoldable pub contains : Bytes → Bytes → Bool
unfolding starts_with
contains [] p = starts_with [] p
contains (c ∷ s) p = starts_with (c ∷ s) p || contains s p

-- `HashSet::from(..).len()`: how many different values there are.
unfoldable pub occurs : Bytes → List Bytes → Bool
occurs x [] = false
occurs x (y ∷ ys) = bytes_eq x y || occurs x ys

unfoldable pub set_len : List Bytes → ℕ
unfolding occurs
set_len [] = 0
set_len (x ∷ xs) = let rest = set_len xs in if occurs x xs then rest else suc rest

abbrev pub all_tags : List Bytes
all_tags =
    info_tag enc
    ∷ info_tag auth
    ∷ info_tag meta
    ∷ info_tag shard
    ∷ info_tag xts
    ∷ info_tag handle
    ∷ []

unfoldable pub info_tags_unique : Result (Unit {0})
unfolding set_len
info_tags_unique = assert (set_len all_tags == length all_tags)

module _ ⦃P : Primitives⦄ where
  unfoldable pub holds_and_zeroizes_on_drop : Op (Unit {0})
  holds_and_zeroizes_on_drop = do
    k ← new (replicate 32 0x42)
    lift (assert (len k == 32))
    lift (assert (not (is_empty k)))
    lift (assert (bytes_eq (expose k) (replicate 32 0x42)))

  unfoldable pub debug_is_redacted : Op (Unit {0})
  debug_is_redacted = do
    k ← new (replicate 32 0x1)
    let s = debug k
    lift (assert (s ==ₛ "AegisKey(<redacted>)"))
    lift (assert (not (contains (literal s) (literal "01"))))

  unfoldable pub ct_eq_is_constant_time_like : Op (Unit {0})
  ct_eq_is_constant_time_like = do
    a ← new (replicate 32 0xab)
    b ← new (replicate 32 0xab)
    c ← new (replicate 32 0xac)
    lift (assert (ct_eq a b))
    lift (assert (not (ct_eq a c)))
    short ← new (replicate 16 0)
    lift (assert (not (ct_eq a short)))

  unfoldable pub argon2id_deterministic : Op (Unit {0})
  argon2id_deterministic = do
    let salt = replicate 16 0x11
    a ← unwrap (argon2id_root (literal "correct horse") salt 64 3)
    b ← unwrap (argon2id_root (literal "correct horse") salt 64 3)
    lift (assert (ct_eq a b))

  unfoldable pub deterministic : Op (Unit {0})
  deterministic = do
    let master = replicate 32 7
    a ← unwrap (from_master master)
    b ← unwrap (from_master master)
    lift (assert (ct_eq (domain a enc) (domain b enc)))
    lift (assert (ct_eq (domain a meta) (domain b meta)))

  unfoldable pub legacy_uses_master_directly : Op (Unit {0})
  legacy_uses_master_directly = do
    let master = replicate 32 9
    h ← legacy_single_key master
    k1 ← new32 master
    lift (assert (ct_eq (domain h enc) k1))
    k2 ← new32 master
    lift (assert (ct_eq (domain h auth) k2))
