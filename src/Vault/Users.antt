-- ===== src/Vault/Users.antt =====
-- `AegisVault::seal_slots` and `add_slot` of src/lib.rs, and the users of the table.
use aegis_keys_with_soteria.Prelude.{◌≡◌, ◌<◌, refl, ap, some, [], ◌∷◌, ◌++◌, ==_iff, length, arith}
use aegis_keys_with_soteria.Errors.{ok}
use aegis_keys_with_soteria.Errors.Effects.{World}
use aegis_keys_with_soteria.Primitives.{Bytes, Primitives, IsLawful, IsRobust}
use aegis_keys_with_soteria.AegisKey.{expose}
use aegis_keys_with_soteria.Slots.Wrap.{Accepts}
use mathlib.Core.Path.{subst}
use aegis_keys_with_soteria.Table
use aegis_keys_with_soteria.Table.{KeySlotTable}
use aegis_keys_with_soteria.Table.Grow.{
  IsTable, new_initial_total, add_slot_total, add_slot-IsTable,
}
use aegis_keys_with_soteria.Table.Held.{Held, Held-length, Held-append, nobody, next, IsFor-IsHeld}
use aegis_keys_with_soteria.Vault.{AegisVault, seal_slots, add_slot}
use aegis_keys_with_soteria.Vault.Keys.{IsVault, SlotsFor}
use aegis_keys_with_soteria.Users.{Users}

module _ ⦃P : Primitives⦄ (L : IsLawful P) where
  -- A slot that the table takes, the vault takes.
  pub added :
      (v : AegisVault) (t t' : KeySlotTable) (newp : Bytes) (w u : World)
      → IsVault v
      → v.slots ≡ some t
      → Table.add_slot (expose v.master) newp t w ≡ (ok (length t.slots), t', u)
      → (add_slot newp v w ≡ (ok (length t.slots), record v { slots = some t' }, u))
        × IsVault (record v { slots = some t' })
  unfolding add_slot
  added v t t' newp w u i slots e =
      let table = subst (SlotsFor (expose v.master)) slots i.slots_for in
      let same : (Table.add_slot (expose v.master) newp t w).1 ≡ t' = ap (λ r. r.1) e in
      (
        rw ((==_iff _ _).1 i.master_length, slots, add_slot, e) refl,
        record {
          master_length = i.master_length;
          hierarchy_derived = i.hierarchy_derived;
          slots_for =
              subst (IsTable (expose v.master)) same
                (add_slot-IsTable L (expose v.master) newp i.master_length t w table);
        },
      )

module _ ⦃P : Primitives⦄ (L : IsLawful P) (r : IsRobust P.aes_256_gcm) where
  pub seal_slots-Held :
      (v : AegisVault) (passphrase : Bytes) (w : World)
      → IsVault v
      → Accepts passphrase 64 3
      → (t : KeySlotTable) × (u : World) × (seal_slots passphrase v w
          ≡ (ok tt, record v { slots = some t }, u))
        × IsVault (record v { slots = some t })
        × Held (expose v.master) (some passphrase ∷ []) t.slots
  unfolding seal_slots
  seal_slots-Held v passphrase w i a =
      let l = i.master_length in
      let master = expose v.master in
      let (t, u, s, e, one, f, h) = new_initial_total L master passphrase l w a in
      let held : Held master (some passphrase ∷ []) (s ∷ []) =
        next (some passphrase) s (IsFor-IsHeld master r passphrase s f) nobody in
      (
        t,
        u,
        rw ((==_iff _ _).1 l, e),
        record { master_length = l; hierarchy_derived = i.hierarchy_derived; slots_for = h },
        rw one held,
      )

  pub add_slot-Held :
      (v : AegisVault) (t : KeySlotTable) (us : Users) (newp : Bytes) (w : World)
      → IsVault v
      → v.slots ≡ some t
      → Held (expose v.master) us t.slots
      → length us < 16
      → Accepts newp 64 3
      → (t' : KeySlotTable) × (u : World) × (add_slot newp v w
          ≡ (ok (length t.slots), record v { slots = some t' }, u))
        × IsVault (record v { slots = some t' })
        × Held (expose v.master) (us ++ some newp ∷ []) t'.slots
  add_slot-Held v t us newp w i slots h room a =
      let master = expose v.master in
      let (s, u, e, f) =
        add_slot_total L master newp i.master_length t w a (omega (arith, Held-length master h)) in
      let t' : KeySlotTable = record t { slots = t.slots ++ s ∷ [] } in
      let (e', i') = added L v t t' newp w u i slots e in
      (t', u, e', i', Held-append master (some newp) s h (IsFor-IsHeld master r newp s f))
