-- ===== src/Suite/Slots/Stored.antt =====
-- The tests of src/slots.rs on a table with one slot, in memory and as bytes.
use aegis_keys_with_soteria.Prelude.{◌≡◌, refl, true, [], ◌∷◌, length, replicate, arith, ==_iff}
use aegis_keys_with_soteria.Errors.{ok, err, last_slot_revocation}
use aegis_keys_with_soteria.Errors.Effects.{World}
use aegis_keys_with_soteria.Primitives.{Primitives, IsLawful}
use aegis_keys_with_soteria.Hierarchy.{literal}
use aegis_keys_with_soteria.Slots.{KeySlot, is_enabled}
use aegis_keys_with_soteria.Slots.Wrap.{Accepts}
use aegis_keys_with_soteria.Table.{KeySlotTable, count_enabled, revoke_slot}
use aegis_keys_with_soteria.Codec.Outcome.{bytes_eq_iff}
use aegis_keys_with_soteria.Codec.RoundTrip.{from_bytes-to_bytes}
use aegis_keys_with_soteria.Vault.Persist.{IsTable-IsEncodable}
use aegis_keys_with_soteria.Suite.Slots.{cannot_revoke_last_slot, table_serde_round_trip}
use aegis_keys_with_soteria.Suite.Slots.Tables.{alone}

module _ ⦃P : Primitives⦄ (L : IsLawful P) where
  revoke_only :
      (t : KeySlotTable) (s : KeySlot)
      → t.slots ≡ s ∷ []
      → is_enabled s ≡ true
      → revoke_slot 0 t ≡ (err last_slot_revocation, t)
  unfolding revoke_slot count_enabled
  revoke_only t s e on = ground (arith, e)

  pub cannot_revoke_last_slot-passes :
      (w : World) → Accepts (literal "only-pw") 64 3 → (cannot_revoke_last_slot w).0 ≡ ok tt
  unfolding cannot_revoke_last_slot
  cannot_revoke_last_slot-passes w a =
      let r = alone L (replicate 32 0xAA) (literal "only-pw") w refl a in
      rw (r.made, revoke_only r.t r.slot r.one r.holds.enabled)

  pub table_serde_round_trip-passes :
      (w : World) → Accepts (literal "pw") 64 3 → (table_serde_round_trip w).0 ≡ ok tt
  unfolding table_serde_round_trip
  table_serde_round_trip-passes w a =
      let master = replicate 32 0xBB in
      let r = alone L master (literal "pw") w refl a in
      let parsed = from_bytes-to_bytes L r.t (IsTable-IsEncodable L master r.t r.table) in
      rw (
        r.made,
        parsed,
        (==_iff _ _).1 (refl {a = length r.t.slots}),
        (bytes_eq_iff _ _).1 (refl {a = r.t.header_salt}),
      )
