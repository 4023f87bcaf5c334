-- ===== src/Vault.antt =====
-- src/lib.rs: `AegisVault`, a master key with its hierarchy and, once sealed, a slot table.
pub mod Keys
pub mod Persist
pub mod Panics
pub mod Reopen
pub mod Lifecycle
pub mod Users
pub mod Outcomes
pub mod Size
pub mod Keeping
pub mod Survival
pub mod Grown
use mathlib.Core.Option
use aegis_keys_with_soteria.Prelude.{ℕ, ◌*◌, Bool, false, Option, none, some}
use aegis_keys_with_soteria.Errors.{
  Result, ok, err, panic, expect, copy_from_slice, guard, last_slot_revocation, volume_mismatch,
  result_map,
}
use aegis_keys_with_soteria.Errors.Effects.{World, Op, Method, pure, lift, ◌>>=◌, ◌>>◌}
use aegis_keys_with_soteria.Primitives.{Bytes, Primitives}
use aegis_keys_with_soteria.AegisKey.{AegisKey, expose, new32}
use aegis_keys_with_soteria.Kdf.{master_len, argon2id_root}
use aegis_keys_with_soteria.Aead.{AeadAlgo, AeadCipher, seal, open_sealed}
use aegis_keys_with_soteria.Hierarchy
use aegis_keys_with_soteria.Hierarchy.{KeyHierarchy, Domain, from_master}
use aegis_keys_with_soteria.Slots.{volume_verifier, rotate}
use aegis_keys_with_soteria.Table
use aegis_keys_with_soteria.Table.{KeySlotTable, new_initial, unseal_with}
use aegis_keys_with_soteria.Codec.{to_bytes, from_bytes}

-- The costs that the crate recommends to its callers.
abbrev pub default_argon2_memory_kib : ℕ
default_argon2_memory_kib = 64 * 1024

abbrev pub default_argon2_iterations : ℕ
default_argon2_iterations = 3

pub record AegisVault : Type 0 where
  pub master : AegisKey
  pub hierarchy : KeyHierarchy
  pub slots : Option KeySlotTable

-- A borrow of a domain key.
unfoldable pub domain : AegisVault → Domain → AegisKey
domain v d = Hierarchy.domain v.hierarchy d

-- `let mut raw = [0u8; 32]; raw.copy_from_slice(key.expose());`
abbrev pub raw_of : AegisKey → Result Bytes
raw_of key = copy_from_slice master_len (expose key)

-- The result of a call that is expected to succeed.
abbrev expect_op {ℓ} : {A : Type ℓ} → Op A → Op A
expect_op m w = let (r, v) = m w in (expect r, v)

module _ ⦃P : Primitives⦄ where
  unfoldable pub from_master_key : Bytes → Op AegisVault
  from_master_key master = do
    master_key ← new32 master
    hierarchy ← expect_op (from_master master)
    pure (record { master = master_key; hierarchy = hierarchy; slots = none })

  unfoldable pub unlock : Bytes → Bytes → ℕ → ℕ → Op AegisVault
  unlock passphrase salt memory_kib iterations = do
    master ← argon2id_root passphrase salt memory_kib iterations
    raw ← lift (raw_of master)
    from_master_key raw

  abbrev cipher_of : AeadAlgo → Bytes → AeadCipher
  cipher_of algo raw = record { algo = algo; key = raw }

  unfoldable pub encrypt : AegisVault → Domain → Bytes → Bytes → AeadAlgo → Op (Bytes × Bytes)
  encrypt v d plaintext aad algo = do
    raw ← lift (raw_of (domain v d))
    seal (cipher_of algo raw) plaintext aad

  unfoldable pub decrypt : AegisVault → Domain → Bytes → Bytes → Bytes → AeadAlgo → Result Bytes
  decrypt v d nonce ciphertext aad algo = elim (raw_of (domain v d)) [
    | ok raw ↦ open_sealed (cipher_of algo raw) nonce ciphertext aad
    | err e ↦ err e
    | panic ↦ panic
  ]

  -- `self.slots = Some(table?)`
  store_table : Result KeySlotTable × World → AegisVault → Result (Unit {0}) × AegisVault × World
  store_table (ok t, w) v = (ok tt, record v { slots = some t }, w)
  store_table (err e, w) v = (err e, v, w)
  store_table (panic, w) v = (panic, v, w)

  initial_table : AegisVault → Bytes → Op KeySlotTable
  initial_table v passphrase = do raw ← lift (raw_of v.master); new_initial raw passphrase

  unfoldable pub seal_slots : Bytes → Method AegisVault (Unit {0})
  unfolding store_table initial_table
  seal_slots passphrase v w = store_table (initial_table v passphrase w) v

  unfoldable pub add_slot : Bytes → Method AegisVault ℕ
  add_slot passphrase v w = elim (raw_of v.master) [
    | ok raw ↦ elim v.slots [
      | some t ↦
          let (r, t', w') = Table.add_slot raw passphrase t w in
          (r, record v { slots = some t' }, w')
      | none ↦ let (r, v', w') = seal_slots passphrase v w in (result_map (λ _. 0) r, v', w')
    ]
    | err e ↦ (err e, v, w)
    | panic ↦ (panic, v, w)
  ]

  unfoldable pub revoke_slot : ℕ → AegisVault → Result (Unit {0}) × AegisVault
  revoke_slot idx v = elim v.slots [
    | some t ↦ let (r, t') = Table.revoke_slot idx t in (r, record v { slots = some t' })
    | none ↦ (err last_slot_revocation, v)
  ]

  -- The check of a decrypted master key against the verifier of its table.
  unfoldable pub check_key : KeySlotTable → AegisKey → Op (KeySlotTable × Bytes)
  check_key table master = do
    raw ← lift (raw_of master)
    lift (guard (P.ct_eq_slice (volume_verifier raw) table.verifier) volume_mismatch)
    pure (table, raw)

  -- `open_from_slots` up to this check, with no change to the vault.
  unfoldable pub recover : Bytes → Bytes → Bytes → Op (KeySlotTable × Bytes)
  recover table_bytes header_salt passphrase = do
    table ← lift (from_bytes table_bytes header_salt)
    (_, master) ← unseal_with passphrase table
    check_key table master

  -- `self.master = k; self.hierarchy = derived?; self.slots = slots`: the master key is replaced
  -- before the hierarchy is there, and stays so if that fails.
  set_keys :
      AegisKey
      → Option KeySlotTable
      → Result KeyHierarchy × World
      → AegisVault
      → Result (Unit {0}) × AegisVault × World
  set_keys k slots (ok h, w) v = (ok tt, record { master = k; hierarchy = h; slots = slots }, w)
  set_keys k slots (err e, w) v = (err e, record v { master = k }, w)
  set_keys k slots (panic, w) v = (panic, record v { master = k }, w)

  -- The end of `open_from_slots`, from the table, the raw master key and its new container.
  pub install :
      Result (KeySlotTable × Bytes × AegisKey) × World
      → AegisVault
      → Result (Unit {0}) × AegisVault × World
  unfolding set_keys
  install (ok (table, raw, k), w) v = set_keys k (some table) (from_master raw w) v
  install (err e, w) v = (err e, v, w)
  install (panic, w) v = (panic, v, w)

  pub wrap : KeySlotTable × Bytes → Op (KeySlotTable × Bytes × AegisKey)
  wrap (table, raw) = do k ← new32 raw; pure (table, raw, k)

  unfoldable pub open_from_slots : Bytes → Bytes → Bytes → Method AegisVault (Unit {0})
  unfolding install wrap
  open_from_slots table_bytes header_salt passphrase v w =
      install ((recover table_bytes header_salt passphrase >>= wrap) w) v

  unfoldable pub verify_volume : AegisVault → Result Bool
  verify_volume v = elim v.slots [
    | some t ↦ result_map (λ raw. P.ct_eq_slice (volume_verifier raw) t.verifier) (raw_of v.master)
    | none ↦ ok false
  ]

  unfoldable pub slots_to_bytes : AegisVault → Option Bytes
  slots_to_bytes v = Option.map to_bytes v.slots

  rotated : Op (Bytes × AegisKey)
  rotated = do new_master ← rotate; raw ← lift (raw_of new_master); pure (raw, new_master)

  rekey : Result (Bytes × AegisKey) × World → AegisVault → Result (Unit {0}) × AegisVault × World
  unfolding set_keys
  rekey (ok (raw, k), w) v = set_keys k none (expect_op (from_master raw) w) v
  rekey (err e, w) v = (err e, v, w)
  rekey (panic, w) v = (panic, v, w)

  unfoldable pub rotate_master : Method AegisVault (Unit {0})
  unfolding rotated rekey
  rotate_master v w = rekey (rotated w) v

unfoldable pub slots_header_salt : AegisVault → Option Bytes
slots_header_salt v = Option.map (λ (t : KeySlotTable). t.header_salt) v.slots
