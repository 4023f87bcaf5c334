-- ===== src/Suite/Slots.antt =====
-- The `tests` module of src/slots.rs.
pub mod Single
pub mod Tables
pub mod Stored
use aegis_keys_with_soteria.Prelude.{ℕ, ◌-◌, Bool, not, List, [], ◌∷◌, length, replicate, ◌==◌}
use aegis_keys_with_soteria.Errors.{expect}
use aegis_keys_with_soteria.Errors.Effects.{Op, lift, ◌>>=◌, ◌>>◌}
use aegis_keys_with_soteria.Primitives.{Bytes, Primitives}
use aegis_keys_with_soteria.AegisKey.{ct_eq, new32}
use aegis_keys_with_soteria.Hierarchy.{literal}
use aegis_keys_with_soteria.Slots.{KeySlot, create, unseal, rotate}
use aegis_keys_with_soteria.Table.{enabled_count, new_initial, add_slot, revoke_slot, unseal_with}
use aegis_keys_with_soteria.Codec.{bytes_eq, to_bytes, from_bytes}
use aegis_keys_with_soteria.Client.{assert, unwrap, unwrap_method, is_err, refused, flip_bit}

module _ ⦃P : Primitives⦄ where
  unfoldable pub fast_slot : Bytes → Bytes → Op KeySlot
  fast_slot master pw = unwrap (create master pw 32 1)

  unfoldable pub round_trip_unseal : Op (Unit {0})
  unfolding fast_slot
  round_trip_unseal = do
    let master = replicate 32 0x55
    slot ← fast_slot master (literal "hunter2")
    recovered ← unwrap (unseal slot (literal "hunter2"))
    expected_key ← new32 master
    lift (assert (ct_eq recovered expected_key))

  unfoldable pub cannot_revoke_last_slot : Op (Unit {0})
  cannot_revoke_last_slot = do
    let master = replicate 32 0xAA
    table ← unwrap (new_initial master (literal "only-pw"))
    failed ← lift (is_err (revoke_slot 0 table).0)
    lift (assert failed)

  unfoldable pub table_serde_round_trip : Op (Unit {0})
  table_serde_round_trip = do
    let master = replicate 32 0xBB
    table ← unwrap (new_initial master (literal "pw"))
    parsed ← lift (expect (from_bytes (to_bytes table) table.header_salt))
    lift (assert (length parsed.slots == length table.slots))
    lift (assert (bytes_eq parsed.header_salt table.header_salt))
