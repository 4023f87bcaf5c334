-- ===== src/Vault/Outcomes.antt =====
-- `unlock`, `seal_slots` and `add_slot` of src/lib.rs on every branch; `open_from_slots` where no
-- slot opens.
use aegis_keys_with_soteria.Prelude.{ℕ, ◌≡◌, ◌≢◌, refl, some, inl, inr, arith, length, ==_iff}
use native.Mathlib.Decide.{dec_lt}
use mathlib.Core.Path.{subst}
use aegis_keys_with_soteria.Errors.{Result, ok, err, panic, no_slot_unsealed}
use aegis_keys_with_soteria.Errors.Effects.{World}
use aegis_keys_with_soteria.Primitives.{Bytes, Primitives, IsLawful}
use aegis_keys_with_soteria.AegisKey.{AegisKey, expose}
use aegis_keys_with_soteria.Table
use aegis_keys_with_soteria.Table.{KeySlotTable, unseal_with}
use aegis_keys_with_soteria.Table.Grow.{
  added, add_refused, add_slot_full, create_cases, new_initial_cases, IsTable,
}
use aegis_keys_with_soteria.Table.Unseal.{NoneOpen, Search, found, missing, unseal_with-first}
use aegis_keys_with_soteria.Codec.{to_bytes}
use aegis_keys_with_soteria.Codec.RoundTrip.{from_bytes-to_bytes}
use aegis_keys_with_soteria.Vault.Persist.{IsTable-IsEncodable}
use aegis_keys_with_soteria.Vault.{
  AegisVault, unlock, seal_slots, add_slot, open_from_slots, recover, install,
}
use aegis_keys_with_soteria.Vault.Keys.{IsVault, unlock_result}

-- A vault that has a table.
abbrev pub HasTable : AegisVault → Type 0
HasTable v = (t : KeySlotTable) × (v.slots ≡ some t)

module _ ⦃P : Primitives⦄ (L : IsLawful P) where
  pub unlock-ne-panic :
      (passphrase salt : Bytes) (m t : ℕ) (w : World) → (unlock passphrase salt m t w).0 ≢ panic
  unlock-ne-panic passphrase salt m t w p = elim (unlock_result L passphrase salt m t w) [
    | inl (_, _, _, _, e, _, _, _) ↦ cc (e, p)
    | inr (_, e) ↦ cc (e, p)
  ]

  pub unlock-IsVault :
      (passphrase salt : Bytes) (m t : ℕ) (w : World) (v : AegisVault)
      → (unlock passphrase salt m t w).0 ≡ ok v
      → IsVault v
  unlock-IsVault passphrase salt m t w v h = elim (unlock_result L passphrase salt m t w) [
    | inl (_, v', _, _, e, _, _, i) ↦ let same : v' ≡ v = cc (e, h) in subst IsVault same i
    | inr (_, e) ↦ cc (e, h)
  ]

  module _ (passphrase : Bytes) (v : AegisVault) (w : World)
      (l : length (expose v.master) ≡ 32) where
    pub seal_slots-ne-panic : (seal_slots passphrase v w).0 ≢ panic
    unfolding seal_slots
    seal_slots-ne-panic p = elim (new_initial_cases L (expose v.master) passphrase l w) [
      | inl (t, u, e, h) ↦ ground (arith, (==_iff _ _).1 l)
      | inr (u, e) ↦ ground (arith, (==_iff _ _).1 l)
    ]

    pub seal_slots-HasTable :
        (seal_slots passphrase v w).0 ≡ ok tt → HasTable (seal_slots passphrase v w).1
    unfolding seal_slots
    seal_slots-HasTable =
        rw ((==_iff _ _).1 l) (elim (new_initial_cases L (expose v.master) passphrase l w) [
          | inl (t, u, e, h) ↦ rw e (λ _. (t, refl))
          | inr (u, e) ↦ rw e (λ p. cc)
        ])

    table_add_slot-ne-panic :
        (t : KeySlotTable) → (Table.add_slot (expose v.master) passphrase t w).0 ≢ panic
    table_add_slot-ne-panic t = elim (dec_lt (length t.slots) 16) [
      | no full ↦ rw (add_slot_full (expose v.master) passphrase t w (omega arith)) (λ p. cc)
      | yes room ↦ elim (create_cases L (expose v.master) passphrase l w) [
        | inl (s, u, e, _) ↦ rw (added L (expose v.master) passphrase l t s u room w e) (λ p. cc)
        | inr (u, e) ↦ rw (add_refused L (expose v.master) passphrase l t w room u e) (λ p. cc)
      ]
    ]

    pub add_slot-ne-panic :
        (t : KeySlotTable) → v.slots ≡ some t → (add_slot passphrase v w).0 ≢ panic
    unfolding add_slot
    add_slot-ne-panic t e = rw ((==_iff _ _).1 l, e, add_slot) (table_add_slot-ne-panic t)

    pub add_slot-HasTable :
        (t : KeySlotTable) → v.slots ≡ some t → HasTable (add_slot passphrase v w).1
    unfolding add_slot
    add_slot-HasTable t e = rw ((==_iff _ _).1 l, e, add_slot) (_, refl)

  nothing_found :
      (t : KeySlotTable) (pass : Bytes) {o : Result (ℕ × AegisKey) × World}
      → NoneOpen t.slots pass
      → Search 0 t.slots pass o
      → o.0 ≡ err no_slot_unsealed
  nothing_found t pass shut (found j n k e f) =
      absurd (shut n f.slot (expose k) f.slot_at f.enabled f.opens)
  nothing_found t pass shut (missing h) = refl

  -- A passphrase that opens no slot of a table is refused.
  pub open_from_slots_none :
      (t : KeySlotTable) (master pass : Bytes) (v : AegisVault) (w : World)
      → IsTable master t
      → NoneOpen t.slots pass
      → (open_from_slots (to_bytes t) t.header_salt pass v w).0 ≡ err no_slot_unsealed
  unfolding open_from_slots recover install
  open_from_slots_none t master pass v w h shut =
      let parsed = from_bytes-to_bytes L t (IsTable-IsEncodable L master t h) in
      let none_open = nothing_found t pass shut (unseal_with-first L t pass w) in
      rw parsed (rw none_open refl)
