-- ===== src/Table.antt =====
-- src/slots.rs, `KeySlotTable`: the slots that wrap one master key, with their operations.
-- The byte format is in `Codec`.
pub mod Revoke
pub mod Unseal
pub mod Grow
pub mod Redaction
pub mod Opens
pub mod Access
pub mod Held
pub mod Refinement
pub mod Runs
use aegis_keys_with_soteria.Prelude.{
  ℕ, suc, ◌-◌, not, true, false, none, some, List, [], ◌∷◌, ◌++◌, bit_and, length, get_elem?, set,
  replicate, leb, if◌then◌else◌,
}
use aegis_keys_with_soteria.Errors.{
  Result, ok, err, panic, no_slot_unsealed, slot_unseal, last_slot_revocation, slot_table_full,
}
use aegis_keys_with_soteria.Errors.Effects.{World, Op, Method, pure, ask, ◌>>=◌}
use aegis_keys_with_soteria.Primitives.{Bytes, Primitives}
use aegis_keys_with_soteria.AegisKey.{AegisKey}
use aegis_keys_with_soteria.Slots.{
  KeySlot, ct_len, max_slots, create, unseal, is_enabled, volume_verifier,
}

pub record KeySlotTable : Type 0 where
  pub header_salt : Bytes
  pub slots : List KeySlot
  pub verifier : Bytes

unfoldable pub count_enabled : List KeySlot → ℕ
count_enabled [] = 0
count_enabled (s ∷ slots) =
    let rest = count_enabled slots in if is_enabled s then suc rest else rest

abbrev pub enabled_count : KeySlotTable → ℕ
enabled_count t = count_enabled t.slots

-- What `revoke_slot` writes into a slot.
unfoldable pub revoked : KeySlot → KeySlot
revoked s = record s { flags = bit_and s.flags 0b1111_1110; ct = replicate ct_len 0 }

unfoldable pub revoke_slot : ℕ → KeySlotTable → Result (Unit {0}) × KeySlotTable
revoke_slot idx t =
    if leb (length t.slots) idx then (err slot_unseal, t) else elim (get_elem? t.slots idx) [
      | none ↦ (panic, t)
      | some s ↦
          if not (is_enabled s)
          then (ok tt, t)
          else if leb (enabled_count t) 1
          then (err last_slot_revocation, t)
          else (ok tt, record t { slots = set t.slots idx (revoked s) })
    ]

module _ ⦃P : Primitives⦄ where
  unfoldable pub new_initial : Bytes → Bytes → Op KeySlotTable
  new_initial master passphrase = do
    header_salt ← ask (λ k. P.fill_bytes k 32)
    slot ← create master passphrase 64 3
    pure
        (record { header_salt = header_salt; slots = slot ∷ []; verifier = volume_verifier master })

  -- The rest of `add_slot` after the call of `KeySlot::create`.
  unfoldable pub push_created :
      Result KeySlot × World → KeySlotTable → Result ℕ × KeySlotTable × World
  push_created (ok slot, w) t =
      let t' : KeySlotTable = record t { slots = t.slots ++ slot ∷ [] } in
      (ok (length t'.slots - 1), t', w)
  push_created (err e, w) t = (err e, t, w)
  push_created (panic, w) t = (panic, t, w)

  unfoldable pub add_slot : Bytes → Bytes → Method KeySlotTable ℕ
  unfolding push_created
  add_slot master passphrase t w =
      if leb max_slots (length t.slots)
      then (err (slot_table_full max_slots), t, w)
      else push_created (create master passphrase 64 3 w) t

  -- The loop of `unseal_with` over the slots from the index `i` on.
  unfoldable pub unseal_from : ℕ → List KeySlot → Bytes → Op (ℕ × AegisKey)
  unseal_from i [] passphrase w = (err no_slot_unsealed, w)
  unseal_from i (s ∷ slots) passphrase w = elim (is_enabled s) [
    | false ↦ unseal_from (suc i) slots passphrase w
    | true ↦
        let (r, v) = unseal s passphrase w in
        elim r [
          | ok m ↦ (ok (i, m), v)
          | err _ ↦ unseal_from (suc i) slots passphrase v
          | panic ↦ (panic, v)
        ]
  ]

  unfoldable pub unseal_with : Bytes → KeySlotTable → Op (ℕ × AegisKey)
  unfolding unseal_from
  unseal_with passphrase t = unseal_from 0 t.slots passphrase
