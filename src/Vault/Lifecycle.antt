-- ===== src/Vault/Lifecycle.antt =====
-- The sequences of calls on an `AegisVault` of src/lib.rs.
use aegis_keys_with_soteria.Prelude.{
  ℕ, ◌≤◌, ◌≡◌, sym, true, some, arith, length, ==_iff, All, inl, inr, Option-cases,
}
use mathlib.Core.Path.{subst}
use aegis_keys_with_soteria.Errors.{Result, ok}
use aegis_keys_with_soteria.Errors.Effects.{World}
use aegis_keys_with_soteria.Primitives.{Bytes, IsByte, Primitives, IsLawful}
use aegis_keys_with_soteria.AegisKey.{expose}
use aegis_keys_with_soteria.Table.{KeySlotTable, enabled_count}
use aegis_keys_with_soteria.Table.Grow.{
  IsTable, count_enabled_pos, new_initial_cases, add_slot-IsTable, revoke_slot-IsTable,
}
use aegis_keys_with_soteria.Codec.Canonical.{from_bytes_canonical}
use aegis_keys_with_soteria.Vault.{
  AegisVault, from_master_key, unlock, seal_slots, add_slot, revoke_slot, open_from_slots,
  rotate_master, verify_volume,
}
use aegis_keys_with_soteria.Vault.Keys.{
  IsVault, SlotsFor, from_master_key_total, unlock_result, rotate_master_total,
}
use aegis_keys_with_soteria.Vault.Persist.{
  Opening, opened, failed, panicked, open_from_slots-Opening,
}
use aegis_keys_with_soteria.Vault.Reopen.{verify_volume-IsVault}

module _ ⦃P : Primitives⦄ (L : IsLawful P) where
  with_table :
      (v : AegisVault) (t : KeySlotTable)
      → IsVault v
      → IsTable (expose v.master) t
      → IsVault (record v { slots = some t })
  with_table v t i h = record {
    master_length = i.master_length;
    hierarchy_derived = i.hierarchy_derived;
    slots_for = h;
  }

  pub IsTable-of :
      (v : AegisVault) (t : KeySlotTable)
      → IsVault v
      → v.slots ≡ some t
      → IsTable (expose v.master) t
  IsTable-of v t i s = subst (SlotsFor (expose v.master)) s i.slots_for

  seal_slots-IsVault :
      (passphrase : Bytes) (v : AegisVault) (w : World)
      → IsVault v
      → IsVault (seal_slots passphrase v w).1
  unfolding seal_slots
  seal_slots-IsVault passphrase v w i =
      rw ((==_iff _ _).1 i.master_length)
        (elim (new_initial_cases L (expose v.master) passphrase i.master_length w) [
          | inl (t, u, e, h) ↦ rw e (with_table v t i h)
          | inr (u, e) ↦ rw e i
        ])

  add_slot-IsVault :
      (passphrase : Bytes) (v : AegisVault) (w : World)
      → IsVault v
      → IsVault (add_slot passphrase v w).1
  unfolding add_slot
  add_slot-IsVault passphrase v w i = elim (Option-cases v.slots) [
    | inl e ↦ rw ((==_iff _ _).1 i.master_length, e, add_slot) (seal_slots-IsVault passphrase v w i)
    | inr (t, e) ↦
        rw ((==_iff _ _).1 i.master_length, e, add_slot)
          (with_table v _ i (
            add_slot-IsTable L (expose v.master) passphrase i.master_length t w
              (IsTable-of v t i e)))
  ]

  revoke_slot-IsVault : (idx : ℕ) (v : AegisVault) → IsVault v → IsVault (revoke_slot idx v).1
  unfolding revoke_slot
  revoke_slot-IsVault idx v i = elim (Option-cases v.slots) [
    | inl e ↦ rw (e, revoke_slot) i
    | inr (t, e) ↦
        rw (e, revoke_slot)
          (with_table v _ i (revoke_slot-IsTable (expose v.master) idx t (IsTable-of v t i e)))
  ]

  Opening-IsVault :
      (input salt passphrase : Bytes) (v : AegisVault) {o : Result (Unit {0}) × AegisVault × World}
      → All IsByte input
      → length salt ≡ 32
      → Opening input salt passphrase v o
      → IsVault v
      → IsVault o.1
  Opening-IsVault input salt passphrase v b l (opened {v'} {u} t r d s) i =
      let (h, same, _) = from_bytes_canonical L input salt t b l r.parsed in
      let f = r.opened in
      let table : IsTable (expose v'.master) t = record {
        salt_len = h.salt_len;
        all_slots = h.all_slots;
        fits = h.fits;
        open_slot = count_enabled_pos t.slots r.index f.slot f.slot_at f.enabled;
        verifies = sym r.verified;
      } in
      record { master_length = r.raw_len; hierarchy_derived = d; slots_for = rw s table }
  Opening-IsVault input salt passphrase v b l (failed e) i = i
  Opening-IsVault input salt passphrase v b l panicked i = i

  rotate_master-IsVault : (v : AegisVault) (w : World) → IsVault (rotate_master v w).1
  rotate_master-IsVault v w = let (v', u, e, _, _, i) = rotate_master_total L v w in rw e i

-- One call of a method that changes a vault, whatever its result. Bytes that are read are bytes,
-- and a header salt is an array of 32.
pub data Step ⦃P : Primitives⦄ (v : AegisVault) : AegisVault → Type 0 where
  seal : (passphrase : Bytes) (w : World) → Step v (seal_slots passphrase v w).1
  add : (passphrase : Bytes) (w : World) → Step v (add_slot passphrase v w).1
  revoke : (idx : ℕ) → Step v (revoke_slot idx v).1
  reopen :
      (input salt passphrase : Bytes) (w : World)
      → All IsByte input
      → length salt ≡ 32
      → Step v (open_from_slots input salt passphrase v w).1
  rotate : (w : World) → Step v (rotate_master v w).1

-- The vaults that a program can hold.
pub data Reachable ⦃P : Primitives⦄ : AegisVault → Type 0 where
  from_key :
      (master : Bytes) (w : World) {v : AegisVault} {u : World}
      → length master ≡ 32
      → from_master_key master w ≡ (ok v, u)
      → Reachable v
  unlocked :
      (passphrase salt : Bytes) (m t : ℕ) (w : World) {v : AegisVault} {u : World}
      → unlock passphrase salt m t w ≡ (ok v, u)
      → Reachable v
  after : {v v' : AegisVault} → Reachable v → Step v v' → Reachable v'

module _ ⦃P : Primitives⦄ (L : IsLawful P) where
  pub Step-IsVault : {v v' : AegisVault} → Step v v' → IsVault v → IsVault v'
  Step-IsVault {v} (seal passphrase w) i = seal_slots-IsVault L passphrase v w i
  Step-IsVault {v} (add passphrase w) i = add_slot-IsVault L passphrase v w i
  Step-IsVault {v} (revoke idx) i = revoke_slot-IsVault L idx v i
  Step-IsVault {v} (reopen input salt passphrase w b l) i =
      Opening-IsVault L input salt passphrase v b l
        (open_from_slots-Opening L input salt passphrase v w) i
  Step-IsVault {v} (rotate w) i = rotate_master-IsVault L v w

  returned :
      {v v' : AegisVault} {u u' : World} {o : Result AegisVault × World}
      → o ≡ (ok v', u')
      → o ≡ (ok v, u)
      → IsVault v'
      → IsVault v
  returned {v} {v'} e' e i = let same : v' ≡ v = ground arith in subst IsVault same i

  -- With lawful primitives: every vault that a program can reach (input is bytes, header salts
  -- are 32 of them), from a raw key or a passphrase and by any sequence of calls, failed ones
  -- included, satisfies the invariant.
  pub Reachable-IsVault : {v : AegisVault} → Reachable v → IsVault v
  Reachable-IsVault (from_key master w l e) =
      let (v', u, e', _, _, i) = from_master_key_total L master w l in returned e' e i
  Reachable-IsVault (unlocked passphrase salt m t w e) =
      elim (unlock_result L passphrase salt m t w) [
        | inl (master, v', u, d, e', _, _, i) ↦ returned e' e i
        | inr (refused, e') ↦ ground arith
      ]
  Reachable-IsVault (after r s) = Step-IsVault s (Reachable-IsVault r)

  -- With lawful primitives: in every vault that a program can reach, a slot table has an enabled
  -- slot, and the master key matches its verifier.
  pub Reachable-verifies :
      {v : AegisVault} (t : KeySlotTable)
      → Reachable v
      → v.slots ≡ some t
      → (verify_volume v ≡ ok true) × (1 ≤ enabled_count t)
  Reachable-verifies {v} t r s =
      let i = Reachable-IsVault r in
      (verify_volume-IsVault L v t i s, (IsTable-of L v t i s).open_slot)
