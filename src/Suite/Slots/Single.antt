-- ===== src/Suite/Slots/Single.antt =====
-- The tests of src/slots.rs on single slots, and on the rotation.
use aegis_keys_with_soteria.Prelude.{◌≡◌, refl, sym, ◌∙◌, length, replicate, arith}
use aegis_keys_with_soteria.Errors.{ok}
use aegis_keys_with_soteria.Errors.Effects.{World}
use aegis_keys_with_soteria.Primitives.{Bytes, Primitives, IsLawful}
use aegis_keys_with_soteria.Hierarchy.{literal}
use aegis_keys_with_soteria.Slots.{KeySlot}
use aegis_keys_with_soteria.Slots.Wrap.{Accepts, Seals, opening, create_total}
use aegis_keys_with_soteria.Suite.Steps.{new-expose, ct_eq_same, unseal-opens}
use aegis_keys_with_soteria.Suite.Slots.{fast_slot, round_trip_unseal}

module _ ⦃P : Primitives⦄ (L : IsLawful P) where
  fast_slot-total :
      (master pw : Bytes) (w : World)
      → length master ≡ 32
      → Accepts pw 32 1
      → (s : KeySlot) × (u : World) × (fast_slot master pw w ≡ (ok s, u))
        × (opening s pw ≡ ok master)
        × Seals master pw s
  unfolding fast_slot
  fast_slot-total master pw w l a =
      let (s, u, e, o, _, _, c) = create_total L master pw 32 1 l w (omega arith) (omega arith) a in
      (s, u, rw e, o, c)

  pub round_trip_unseal-passes :
      (w : World) → Accepts (literal "hunter2") 32 1 → (round_trip_unseal w).0 ≡ ok tt
  unfolding round_trip_unseal
  round_trip_unseal-passes w a =
      let master = replicate 32 0x55 in
      let (s, u1, e1, o, _) = fast_slot-total master (literal "hunter2") w refl a in
      let (k, u2, e2, x) = unseal-opens L s (literal "hunter2") master u1 o in
      let (n, u3, e3, y) = new-expose master u2 in rw (e1, e2, e3, ct_eq_same L k n (x ∙ sym y))
