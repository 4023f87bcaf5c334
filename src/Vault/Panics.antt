-- ===== src/Vault/Panics.antt =====
-- The panics of `open_from_slots` of src/lib.rs.
use aegis_keys_with_soteria.Prelude.{ℕ, ◌≡◌, ◌≢◌, ◌↔◌, refl, inl, inr, length, ==_iff, Bool-cases}
use aegis_keys_with_soteria.Errors.{Result, ok, err, panic}
use aegis_keys_with_soteria.Errors.Effects.{World, and_then}
use aegis_keys_with_soteria.Primitives.{Bytes, Primitives, IsLawful}
use aegis_keys_with_soteria.AegisKey.{AegisKey, expose}
use aegis_keys_with_soteria.Slots.{volume_verifier}
use aegis_keys_with_soteria.Slots.Wrap.{opening-length}
use aegis_keys_with_soteria.Table.{KeySlotTable, unseal_with}
use aegis_keys_with_soteria.Table.Unseal.{Search, found, missing, unseal_with-first}
use aegis_keys_with_soteria.Codec.{from_bytes}
use aegis_keys_with_soteria.Vault.{AegisVault, check_key, recover, wrap, install, open_from_slots}
use aegis_keys_with_soteria.Vault.Persist.{install_total}

module _ ⦃P : Primitives⦄ (L : IsLawful P) (v : AegisVault) where
  -- The checks behind the search, and the installation of the key.
  abbrev finish :
      KeySlotTable → Result (ℕ × AegisKey) × World → Result (Unit {0}) × AegisVault × World
  finish t o = install (and_then (and_then o (λ (_, k). check_key t k)) wrap) v

  check_key-ne-panic :
      (t : KeySlotTable) (k : AegisKey) (w : World)
      → length (expose k) ≡ 32
      → (install (and_then (check_key t k w) wrap) v).0 ≢ panic
  unfolding check_key
  check_key-ne-panic t k w l =
      elim (Bool-cases (P.ct_eq_slice (volume_verifier (expose k)) t.verifier)) [
        | inl same ↦
            let (v', u, e, _, _, _) = install_total L v t (expose k) w l in
            rw ((==_iff _ _).1 l, same, e) (λ h. cc)
        | inr differs ↦ rw ((==_iff _ _).1 l, differs) (unfold install in λ h. cc)
      ]

  finish-ne-panic :
      (t : KeySlotTable) (passphrase : Bytes) {o : Result (ℕ × AegisKey) × World}
      → Search 0 t.slots passphrase o
      → (finish t o).0 ≢ panic
  unfolding install
  finish-ne-panic t passphrase (found {v = u} j n k e f) =
      check_key-ne-panic t k u (opening-length f.slot passphrase (expose k) f.opens)
  finish-ne-panic t passphrase (missing h) = λ p. cc

  from_table :
      (passphrase : Bytes) (r : Result KeySlotTable) (w : World)
      → let o =
          install
            (and_then
              (and_then
                (r, w)
                (λ t u. and_then (unseal_with passphrase t u) (λ (_, k). check_key t k)))
              wrap)
            v in
        (o.0 ≡ panic) ↔ (r ≡ panic)
  unfolding install
  from_table passphrase (ok t) w =
      (λ h. absurd (finish-ne-panic t passphrase (unseal_with-first L t passphrase w) h), λ h. cc)
  from_table passphrase (err e) w = (λ h. cc, λ h. cc)
  from_table passphrase panic w = (λ h. refl, λ h. refl)

  -- With lawful primitives: opening a vault from the bytes of a slot table panics exactly when
  -- parsing the bytes does, so that nothing behind the parser can panic.
  pub open_from_slots-panic_iff :
      (input salt passphrase : Bytes) (w : World)
      → ((open_from_slots input salt passphrase v w).0 ≡ panic) ↔ (from_bytes input salt ≡ panic)
  unfolding open_from_slots recover
  open_from_slots-panic_iff input salt passphrase w =
      from_table passphrase (from_bytes input salt) w
