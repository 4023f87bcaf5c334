-- ===== src/Hierarchy.antt =====
-- src/hierarchy.rs: the six domain keys that are derived from the master key.
pub mod Separation
use Prim.Native.Char.{code}
use Prim.Native.String
use aegis_keys_with_soteria.Prelude.{String, List, [], ◌∷◌}
use aegis_keys_with_soteria.Errors.{Result, ok, err}
use aegis_keys_with_soteria.Errors.Effects.{Op, pure, lift, ◌>>=◌}
use aegis_keys_with_soteria.Primitives.{Bytes, Primitives}
use aegis_keys_with_soteria.AegisKey.{AegisKey, expose, new, new32}
use aegis_keys_with_soteria.Kdf.{hkdf_sha256}

-- The bytes of an ASCII literal `b"..."`.
abbrev pub literal : String → Bytes
literal String.[] = []
literal (String.◌∷◌ c s) = code c ∷ literal s

abbrev pub master_salt : Bytes
master_salt = literal "soteria-kh-v1/master-salt"

abbrev pub subkey_salt : Bytes
subkey_salt = literal "soteria-kh-v1/subkey-salt"

-- `mod info`
abbrev pub k_enc_label : Bytes
k_enc_label = literal "soteria-kh-v1/k-enc/aead-bulk"

abbrev pub k_auth_label : Bytes
k_auth_label = literal "soteria-kh-v1/k-auth/block-mac"

abbrev pub k_meta_label : Bytes
k_meta_label = literal "soteria-kh-v1/k-meta/metadata"

abbrev pub k_shard_label : Bytes
k_shard_label = literal "soteria-kh-v1/k-shard/erasure-coding"

abbrev pub k_xts_label : Bytes
k_xts_label = literal "soteria-kh-v1/k-xts/fde-sector"

abbrev pub k_handle_label : Bytes
k_handle_label = literal "soteria-kh-v1/k-handle/identity"

pub data Domain : Type 0 where
  enc auth meta shard xts handle : Domain

unfoldable pub info_tag : Domain → Bytes
info_tag enc = k_enc_label
info_tag auth = k_auth_label
info_tag meta = k_meta_label
info_tag shard = k_shard_label
info_tag xts = k_xts_label
info_tag handle = k_handle_label

pub record KeyHierarchy : Type 0 where
  pub k_enc : AegisKey
  pub k_auth : AegisKey
  pub k_meta : AegisKey
  pub k_shard : AegisKey
  pub k_xts : AegisKey
  pub k_handle : AegisKey

unfoldable pub domain : KeyHierarchy → Domain → AegisKey
domain h enc = h.k_enc
domain h auth = h.k_auth
domain h meta = h.k_meta
domain h shard = h.k_shard
domain h xts = h.k_xts
domain h handle = h.k_handle

module _ ⦃P : Primitives⦄ where
  unfoldable pub derive : Bytes → Bytes → Op AegisKey
  derive master tag = do raw ← lift (hkdf_sha256 master master_salt tag); new raw

  unfoldable pub from_master : Bytes → Op KeyHierarchy
  from_master master = do
    e ← derive master k_enc_label
    a ← derive master k_auth_label
    m ← derive master k_meta_label
    s ← derive master k_shard_label
    x ← derive master k_xts_label
    h ← derive master k_handle_label
    pure (record { k_enc = e; k_auth = a; k_meta = m; k_shard = s; k_xts = x; k_handle = h })

  unfoldable pub legacy_single_key : Bytes → Op KeyHierarchy
  legacy_single_key master = do
    e ← new32 master
    a ← new32 master
    m ← new32 master
    s ← new32 master
    x ← new32 master
    h ← new32 master
    pure (record { k_enc = e; k_auth = a; k_meta = m; k_shard = s; k_xts = x; k_handle = h })

  unfoldable pub subkey : AegisKey → Bytes → Op AegisKey
  subkey key context = do raw ← lift (hkdf_sha256 (expose key) subkey_salt context); new raw
