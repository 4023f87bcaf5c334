-- ===== src/Vault/Reopen.antt =====
-- `seal_slots` and `open_from_slots` of src/lib.rs, one after the other.
use aegis_keys_with_soteria.Prelude.{
  ℕ, ◌≤◌, ◌≡◌, refl, sym, ap, ◌∙◌, true, some, arith, length, get_elem?, ==_iff,
}
use mathlib.Core.Path.{subst}
use aegis_keys_with_soteria.Errors.{ok}
use aegis_keys_with_soteria.Errors.Effects.{World}
use aegis_keys_with_soteria.Primitives.{Bytes, Primitives, IsLawful, message_limit}
use aegis_keys_with_soteria.AegisKey.{expose}
use aegis_keys_with_soteria.Aead.{AeadAlgo}
use aegis_keys_with_soteria.Hierarchy.{Domain, info_tag, master_salt}
use aegis_keys_with_soteria.Kdf.{hkdf_sha256}
use aegis_keys_with_soteria.Slots.{volume_verifier}
use aegis_keys_with_soteria.Slots.Wrap.{Accepts}
use aegis_keys_with_soteria.Table.{KeySlotTable}
use aegis_keys_with_soteria.Table.Unseal.{FirstOpen}
use aegis_keys_with_soteria.Table.Grow.{IsTable, new_initial_total}
use aegis_keys_with_soteria.Table.Opens.{Opens, FirstOpen-Opens}
use aegis_keys_with_soteria.Codec.{to_bytes}
use aegis_keys_with_soteria.Codec.RoundTrip.{from_bytes-to_bytes}
use aegis_keys_with_soteria.Vault.{
  AegisVault, domain, check_key, recover, open_from_slots, seal_slots, verify_volume, encrypt,
  decrypt,
}
use aegis_keys_with_soteria.Vault.Keys.{IsVault, SlotsFor, decrypt-encrypt}
use aegis_keys_with_soteria.Vault.Persist.{IsTable-IsEncodable, install_total}

module _ ⦃P : Primitives⦄ (L : IsLawful P) where
  -- The hierarchy is determined by the master key.
  same_domain :
      (a b : AegisVault) (d : Domain)
      → IsVault a
      → IsVault b
      → expose a.master ≡ expose b.master
      → expose (domain a d) ≡ expose (domain b d)
  unfolding domain
  same_domain a b d ia ib e = cc (
    ia.hierarchy_derived d,
    ib.hierarchy_derived d,
    ap (λ m. hkdf_sha256 m master_salt (info_tag d)) e,
  )

  recover-total :
      (t : KeySlotTable) (passphrase master : Bytes) (n : ℕ) (w : World)
      → length master ≡ 32
      → IsTable master t
      → Opens t passphrase n master
      → (u : World) × (recover (to_bytes t) t.header_salt passphrase w ≡ (ok (t, master), u))
  unfolding recover check_key
  recover-total t passphrase master n w l h o =
      let (k, u, e, x) = o w in
      let parsed = from_bytes-to_bytes L t (IsTable-IsEncodable L master t h) in
      let checked = (L.ct_eq_slice_iff (volume_verifier master) t.verifier).1 (sym h.verifies) in
      (u, rw (parsed, e, x, (==_iff _ _).1 l, checked))

  pub verify_volume-IsVault :
      (v : AegisVault) (t : KeySlotTable) → IsVault v → v.slots ≡ some t → verify_volume v ≡ ok true
  unfolding verify_volume
  verify_volume-IsVault v t i s =
      let table : IsTable (expose v.master) t = subst (SlotsFor (expose v.master)) s i.slots_for in
      let checked =
        (L.ct_eq_slice_iff (volume_verifier (expose v.master)) t.verifier).1 (sym table.verifies) in
      rw (s, verify_volume, (==_iff _ _).1 i.master_length, checked)

  -- With lawful primitives: a vault that satisfies the invariant, any other vault, and a
  -- passphrase that opens the slot table of the first to its master key: opening the second from
  -- the bytes and the salt of that table succeeds, and it then has the master key, the domain
  -- keys and the slot table of the first, satisfies the invariant, and its volume verifies.
  pub reopen :
      (v other : AegisVault) (t : KeySlotTable) (passphrase : Bytes) (n : ℕ) (w : World)
      → IsVault v
      → v.slots ≡ some t
      → Opens t passphrase n (expose v.master)
      → (v' : AegisVault) × (u : World) × (open_from_slots
            (to_bytes t)
            t.header_salt
            passphrase
            other
            w
          ≡ (ok tt, v', u))
        × (expose v'.master ≡ expose v.master)
        × ((d : Domain) → expose (domain v' d) ≡ expose (domain v d))
        × (v'.slots ≡ v.slots)
        × IsVault v'
        × (verify_volume v' ≡ ok true)
  unfolding open_from_slots
  reopen v other t passphrase n w i s o =
      let master = expose v.master in
      let table : IsTable master t = subst (SlotsFor master) s i.slots_for in
      let (u, r) = recover-total t passphrase master n w i.master_length table o in
      let (v', u', e, x, derived, s') = install_total L other t master u i.master_length in
      let i' : IsVault v' = record {
        master_length = ap length x ∙ i.master_length;
        hierarchy_derived = rw x derived;
        slots_for = rw (x, s') table;
      } in
      (
        v',
        u',
        rw r e,
        x,
        (λ d. same_domain v' v d i' i x),
        s' ∙ sym s,
        i',
        verify_volume-IsVault v' t i' s',
      )

  -- With lawful primitives: sealing a vault that satisfies the invariant succeeds where Argon2
  -- takes the passphrase: its keys stay, it keeps the invariant, its volume verifies, and the new
  -- table opens to its master key with the passphrase.
  pub seal_slots_total :
      (v : AegisVault) (passphrase : Bytes) (w : World)
      → IsVault v
      → Accepts passphrase 64 3
      → (t : KeySlotTable) × (u : World) × (seal_slots passphrase v w
          ≡ (ok tt, record v { slots = some t }, u))
        × IsVault (record v { slots = some t })
        × Opens t passphrase 0 (expose v.master)
        × (verify_volume (record v { slots = some t }) ≡ ok true)
  unfolding seal_slots
  seal_slots_total v passphrase w i a =
      let l = i.master_length in
      let (t, u, s, e, one, new, h) = new_initial_total L (expose v.master) passphrase l w a in
      let first : FirstOpen t.slots passphrase 0 (expose v.master) = record {
        slot = s;
        slot_at = ap (λ x. get_elem? x 0) one;
        enabled = new.enabled;
        opens = new.opens;
        first = λ j x m lt. absurd (omega arith);
      } in
      let i' : IsVault (record v { slots = some t }) = record {
        master_length = l;
        hierarchy_derived = i.hierarchy_derived;
        slots_for = h;
      } in
      (
        t,
        u,
        rw ((==_iff _ _).1 l, e),
        i',
        FirstOpen-Opens L t passphrase 0 (expose v.master) first,
        verify_volume-IsVault (record v { slots = some t }) t i' refl,
      )

  -- With lawful primitives: what one vault encrypts, every vault with the same master key
  -- decrypts, under each domain and algorithm: the message and the associated data have admissible
  -- length, and both vaults satisfy the invariant.
  pub decrypt_elsewhere :
      (v v' : AegisVault) (d : Domain) (plaintext aad : Bytes) (algo : AeadAlgo) (w : World)
      → IsVault v
      → IsVault v'
      → expose v'.master ≡ expose v.master
      → length plaintext ≤ message_limit
      → length aad ≤ message_limit
      → (nonce : Bytes) × (ct : Bytes) × (u : World) × (encrypt v d plaintext aad algo w
          ≡ (ok (nonce, ct), u))
        × (decrypt v' d nonce ct aad algo ≡ ok plaintext)
  unfolding decrypt
  decrypt_elsewhere v v' d plaintext aad algo w i i' same short few =
      let (nonce, ct, u, e, o) = decrypt-encrypt L v d plaintext aad algo w i short few in
      (nonce, ct, u, e, rw (same_domain v' v d i' i same, decrypt) o)
