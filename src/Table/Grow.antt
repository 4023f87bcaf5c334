-- ===== src/Table/Grow.antt =====
-- The well-formedness of a table under `new_initial`, `add_slot` and `revoke_slot` of src/slots.rs.
use aegis_keys_with_soteria.Prelude.{
  ℕ, zero, suc, ◌+◌, ◌≤◌, ◌<◌, ◌≡◌, ◌⊎◌, inl, inr, refl, ap, ◌∙◌, true, some, List, [], ◌∷◌, ◌++◌,
  arith, length, get_elem?, All, All-append, All-set, All-get_elem?, length-append,
}
use native.Mathlib.Decide.{dec_lt}
use aegis_keys_with_soteria.Errors.{AegisError, ok, err, argon2, slot_table_full}
use aegis_keys_with_soteria.Errors.Effects.{World}
use aegis_keys_with_soteria.Primitives.{Bytes, Primitives, IsLawful}
use aegis_keys_with_soteria.Slots.{KeySlot, create, is_enabled, volume_verifier}
use aegis_keys_with_soteria.Slots.Wrap.{
  Seals, IsSlot, Accepts, create_total, create_result, opening,
}
use aegis_keys_with_soteria.Table.{
  KeySlotTable, count_enabled, enabled_count, revoked, revoke_slot, new_initial, add_slot,
}
use aegis_keys_with_soteria.Table.Revoke.{
  out_of_range, last_enabled, already, changed, revoke_slot-Revocation, revoked-IsSlot,
}

count_enabled-append :
    (xs ys : List KeySlot) → count_enabled (xs ++ ys) ≡ count_enabled xs + count_enabled ys
unfolding count_enabled
count_enabled-append [] ys = omega arith
count_enabled-append (x ∷ xs) ys = ground (arith, count_enabled-append xs ys)

pub count_enabled_pos :
    (xs : List KeySlot) (i : ℕ) (s : KeySlot)
    → get_elem? xs i ≡ some s
    → is_enabled s ≡ true
    → 1 ≤ count_enabled xs
unfolding count_enabled
count_enabled_pos [] i s at on = cc
count_enabled_pos (x ∷ xs) zero s at on = ground arith
count_enabled_pos (x ∷ xs) (suc i) s at on = ground (arith, count_enabled_pos xs i s at on)

module _ ⦃P : Primitives⦄ where
  -- The well-formedness of a table for a master key. A parsed table has at most 255 slots.
  pub record IsTable (master : Bytes) (t : KeySlotTable) : Type 0 where
    pub salt_len : length t.header_salt ≡ 32
    pub all_slots : All IsSlot t.slots
    pub fits : length t.slots ≤ 255
    pub open_slot : 1 ≤ enabled_count t
    pub verifies : t.verifier ≡ volume_verifier master

  -- Revoking keeps the table well-formed, with a slot that is enabled, whatever the index.
  pub revoke_slot-IsTable :
      (master : Bytes) (idx : ℕ) (t : KeySlotTable)
      → IsTable master t
      → IsTable master (revoke_slot idx t).1
  revoke_slot-IsTable master idx t h = elim (revoke_slot-Revocation idx t) [
    | out_of_range _ e ↦ rw e h
    | last_enabled _ _ _ _ e ↦ rw e h
    | already s at off e ↦ rw e h
    | changed s at on more e r ↦ rw e (record {
      salt_len = ap length r.same_salt ∙ h.salt_len;
      all_slots =
          All-set IsSlot t.slots idx (revoked s) h.all_slots
            (revoked-IsSlot s (All-get_elem? IsSlot t.slots idx h.all_slots at));
      fits = omega (arith, r.same_length, h.fits);
      open_slot = omega (arith, r.one_less);
      verifies = r.same_verifier ∙ h.verifies;
    })
  ]

  -- A table with one slot more.
  pub IsTable-append :
      (master : Bytes) (t : KeySlotTable) (s : KeySlot)
      → length t.slots < 255
      → IsSlot s
      → IsTable master t
      → IsTable master (record t { slots = t.slots ++ s ∷ [] })
  IsTable-append master t s room h i = record {
    salt_len = i.salt_len;
    all_slots = All-append IsSlot t.slots (s ∷ []) i.all_slots (h, tt);
    fits = omega (arith, length-append t.slots (s ∷ []));
    open_slot = omega (arith, count_enabled-append t.slots (s ∷ []), i.open_slot);
    verifies = i.verifies;
  }

  -- A slot that `KeySlot::create` made for a master key and a passphrase.
  pub record IsFor (master passphrase : Bytes) (s : KeySlot) : Type 0 where
    pub opens : opening s passphrase ≡ ok master
    pub enabled : is_enabled s ≡ true
    pub well_formed : IsSlot s
    pub sealed : Seals master passphrase s

  -- Whatever the passphrase and the primitives, an error of `add_slot` leaves the table as it was.
  pub add_slot_error :
      (master passphrase : Bytes) (t : KeySlotTable) (w : World) (e : AegisError)
      → (add_slot master passphrase t w).0 ≡ err e
      → (add_slot master passphrase t w).1 ≡ t
  unfolding add_slot
  add_slot_error master passphrase t w e h = ground arith

  -- A full table gives `SlotTableFull(16)` before anything is asked of the system.
  pub add_slot_full :
      (master passphrase : Bytes) (t : KeySlotTable) (w : World)
      → 16 ≤ length t.slots
      → add_slot master passphrase t w ≡ (err (slot_table_full 16), t, w)
  unfolding add_slot
  add_slot_full master passphrase t w full = ground arith

  module _ (L : IsLawful P) (master passphrase : Bytes) (l : length master ≡ 32) where
    create-IsFor :
        (w : World)
        → Accepts passphrase 64 3
        → (s : KeySlot) × (v : World) × (create master passphrase 64 3 w ≡ (ok s, v))
          × IsFor master passphrase s
    create-IsFor w a =
        let (s, v, e, o, on, h, c) =
          create_total L master passphrase 64 3 l w (omega arith) (omega arith) a in
        (s, v, e, record { opens = o; enabled = on; well_formed = h; sealed = c })

    pub create_cases :
        (w : World)
        → ((s : KeySlot) × (v : World) × (create master passphrase 64 3 w ≡ (ok s, v))
            × IsFor master passphrase s)
          ⊎ ((v : World) × (create master passphrase 64 3 w ≡ (err argon2, v)))
    create_cases w = elim (create_result L master passphrase 64 3 l w (omega arith) (omega arith)) [
      | inl (s, v, e, o, on, h, c) ↦
          inl (s, v, e, record { opens = o; enabled = on; well_formed = h; sealed = c })
      | inr (_, e) ↦ inr (suc w, e)
    ]

    pub initial-IsTable :
        (w : World) (s : KeySlot)
        → IsFor master passphrase s
        → IsTable master (record {
          header_salt = P.fill_bytes w 32;
          slots = s ∷ [];
          verifier = volume_verifier master;
        })
    unfolding count_enabled
    initial-IsTable w s h = record {
      salt_len = L.fill_bytes-length w 32;
      all_slots = (h.well_formed, tt);
      fits = omega arith;
      open_slot = ground (arith, h.enabled);
      verifies = refl;
    }

    -- A new table has one slot, which the passphrase opens to the master key, and is well-formed.
    pub new_initial_total :
        (w : World)
        → Accepts passphrase 64 3
        → (t : KeySlotTable) × (v : World) × (s : KeySlot) × (new_initial master passphrase w
            ≡ (ok t, v))
          × (t.slots ≡ s ∷ [])
          × IsFor master passphrase s
          × IsTable master t
    unfolding new_initial
    new_initial_total w a =
        let (s, v, e, h) = create-IsFor (suc w) a in
        (
          record {
            header_salt = P.fill_bytes w 32;
            slots = s ∷ [];
            verifier = volume_verifier master;
          },
          v,
          s,
          rw e,
          refl,
          h,
          initial-IsTable w s h,
        )

    -- The table that `new_initial` makes is well-formed; its only error is `Argon2`.
    pub new_initial_cases :
        (w : World)
        → ((t : KeySlotTable) × (v : World) × (new_initial master passphrase w ≡ (ok t, v))
            × IsTable master t)
          ⊎ ((v : World) × (new_initial master passphrase w ≡ (err argon2, v)))
    unfolding new_initial
    new_initial_cases w = elim (create_cases (suc w)) [
      | inl (s, v, e, h) ↦ inl (_, v, rw e, initial-IsTable w s h)
      | inr (v, e) ↦ inr (v, rw e)
    ]

    pub added :
        (t : KeySlotTable) (s : KeySlot) (v : World)
        → length t.slots < 16
        → (w : World) → create master passphrase 64 3 w ≡ (ok s, v)
        → add_slot master passphrase t w
          ≡ (ok (length t.slots), record t { slots = t.slots ++ s ∷ [] }, v)
    unfolding add_slot
    added t s v room w e = rw e (ground (arith, length-append t.slots (s ∷ [])))

    -- With fewer than 16 slots, adding one succeeds: the new slot stands behind the others, under
    -- the index that is returned, and the passphrase opens it.
    pub add_slot_total :
        (t : KeySlotTable) (w : World)
        → Accepts passphrase 64 3
        → length t.slots < 16
        → (s : KeySlot) × (v : World) × (add_slot master passphrase t w
            ≡ (ok (length t.slots), record t { slots = t.slots ++ s ∷ [] }, v))
          × IsFor master passphrase s
    add_slot_total t w a room =
        let (s, v, e, h) = create-IsFor w a in (s, v, added t s v room w e, h)

    pub add_refused :
        (t : KeySlotTable) (w : World)
        → length t.slots < 16
        → (v : World) → create master passphrase 64 3 w ≡ (err argon2, v)
        → add_slot master passphrase t w ≡ (err argon2, t, v)
    unfolding add_slot
    add_refused t w room v e = rw e (ground arith)

    -- With lawful primitives: whatever the passphrase and the number of slots, a well-formed
    -- table for a 32-byte master key is well-formed after `add_slot`.
    pub add_slot-IsTable :
        (t : KeySlotTable) (w : World)
        → IsTable master t
        → IsTable master (add_slot master passphrase t w).1
    add_slot-IsTable t w i = elim (dec_lt (length t.slots) 16) [
      | no full ↦ rw (add_slot_full master passphrase t w (omega arith)) i
      | yes room ↦ elim (create_cases w) [
        | inl (s, v, e, h) ↦
            rw (added t s v room w e)
              (IsTable-append master t s (omega (arith, room)) h.well_formed i)
        | inr (v, e) ↦ rw (add_refused t w room v e) i
      ]
    ]
