-- ===== src/Vault/Size.antt =====
-- How long the bytes are that a vault of src/lib.rs persists.
use aegis_keys_with_soteria.Prelude.{
  ◌+◌, ◌*◌, ◌≤◌, ◌≡◌, some, List, [], ◌∷◌, arith, length, length-append,
}
use aegis_keys_with_soteria.Primitives.{Bytes, Primitives, IsLawful}
use aegis_keys_with_soteria.AegisKey.{expose}
use aegis_keys_with_soteria.Slots.{KeySlot}
use aegis_keys_with_soteria.Table.{KeySlotTable, count_enabled}
use aegis_keys_with_soteria.Table.Grow.{IsTable}
use aegis_keys_with_soteria.Codec.{encode_body, to_bytes}
use aegis_keys_with_soteria.Codec.RoundTrip.{IsEncodable, length-encode_body}
use aegis_keys_with_soteria.Vault.{AegisVault, slots_to_bytes}
use aegis_keys_with_soteria.Vault.Persist.{IsTable-IsEncodable}
use aegis_keys_with_soteria.Vault.Lifecycle.{Reachable, Reachable-IsVault, IsTable-of}

count_enabled-le : (slots : List KeySlot) → count_enabled slots ≤ length slots
unfolding count_enabled
count_enabled-le [] = omega arith
count_enabled-le (s ∷ slots) = ground (arith, count_enabled-le slots)

module _ ⦃P : Primitives⦄ (L : IsLawful P) where
  length-to_bytes :
      (t : KeySlotTable) → IsEncodable t → length (to_bytes t) ≡ 70 + 110 * length t.slots
  unfolding to_bytes
  length-to_bytes t h = omega (
    arith,
    length-append (encode_body t) (P.keyed_hash t.header_salt (encode_body t)),
    length-encode_body t h,
    L.keyed_hash-length t.header_salt (encode_body t) h.salt_len,
  )

  -- With lawful primitives: in every vault that a program can reach (input is bytes, header salts are
  -- 32 of them) and that has a slot table, the table has 1 to 255 slots, and the bytes that are
  -- persisted are 70 and 110 for each slot, so at most 28120.
  pub Reachable-size :
      {v : AegisVault} (t : KeySlotTable)
      → Reachable v
      → v.slots ≡ some t
      → (bytes : Bytes) × (slots_to_bytes v ≡ some bytes)
        × (length bytes ≡ 70 + 110 * length t.slots)
        × (1 ≤ length t.slots)
        × (length bytes ≤ 28120)
  unfolding slots_to_bytes
  Reachable-size {v} t r s =
      let table : IsTable (expose v.master) t = IsTable-of L v t (Reachable-IsVault L r) s in
      let l = length-to_bytes t (IsTable-IsEncodable L (expose v.master) t table) in
      (
        to_bytes t,
        rw (s, slots_to_bytes),
        l,
        omega (arith, table.open_slot, count_enabled-le t.slots),
        omega (arith, l, table.fits),
      )
