-- ===== src/Vault/Persist.antt =====
-- `open_from_slots` of src/lib.rs: how it can end.
use aegis_keys_with_soteria.Prelude.{ℕ, ◌≡◌, refl, ap, ◌∙◌, some, arith, length}
use mathlib.Core.Path.{subst₂}
use aegis_keys_with_soteria.Errors.{AegisError, Result, ok, err, panic}
use aegis_keys_with_soteria.Errors.Effects.{World, and_then, and_then-eq-ok}
use aegis_keys_with_soteria.Primitives.{Bytes, Primitives, IsLawful}
use aegis_keys_with_soteria.AegisKey.{AegisKey, expose, new, locked_key}
use aegis_keys_with_soteria.AegisKey.Memory.{expose-locked_key}
use aegis_keys_with_soteria.Hierarchy.Separation.{IsDerived, from_master_total}
use aegis_keys_with_soteria.Slots.{volume_verifier, verifier_key}
use aegis_keys_with_soteria.Table.{KeySlotTable, unseal_with}
use aegis_keys_with_soteria.Table.Unseal.{FirstOpen, unseal_with-first}
use aegis_keys_with_soteria.Table.Grow.{IsTable}
use aegis_keys_with_soteria.Table.Opens.{Search-FirstOpen}
use aegis_keys_with_soteria.Codec.{from_bytes}
use aegis_keys_with_soteria.Codec.RoundTrip.{IsEncodable}
use aegis_keys_with_soteria.Vault.{AegisVault, check_key, recover, wrap, install, open_from_slots}

module _ ⦃P : Primitives⦄ where
  -- What the master key that a table gives is known to be.
  pub record Recovers (input salt passphrase : Bytes) (t : KeySlotTable) (raw : Bytes)
      : Type 0 where
    pub index : ℕ
    pub parsed : from_bytes input salt ≡ ok t
    pub opened : FirstOpen t.slots passphrase index raw
    pub verified : volume_verifier raw ≡ t.verifier
    pub raw_len : length raw ≡ 32

  -- How opening from slots can end.
  pub data Opening (input salt passphrase : Bytes) (v : AegisVault)
      : Result (Unit {0}) × AegisVault × World → Type 0 where
    opened :
        {v' : AegisVault} {u : World} (t : KeySlotTable)
        → Recovers input salt passphrase t (expose v'.master)
        → IsDerived (expose v'.master) v'.hierarchy
        → v'.slots ≡ some t
        → Opening input salt passphrase v (ok tt, v', u)
    failed : {u : World} (e : AegisError) → Opening input salt passphrase v (err e, v, u)
    panicked : {u : World} → Opening input salt passphrase v (panic, v, u)

module _ ⦃P : Primitives⦄ (L : IsLawful P) where
  pub IsTable-IsEncodable : (master : Bytes) (t : KeySlotTable) → IsTable master t → IsEncodable t
  unfolding volume_verifier
  IsTable-IsEncodable master t h = record {
    salt_len = h.salt_len;
    all_slots = h.all_slots;
    fits = h.fits;
    verifier_len = ap length h.verifies ∙ L.keyed_hash-length verifier_key master refl;
  }

  check_key-ok :
      (t1 t : KeySlotTable) (k : AegisKey) (raw : Bytes) (w u : World)
      → check_key t1 k w ≡ (ok (t, raw), u)
      → (t1 ≡ t) × (expose k ≡ raw) × (length raw ≡ 32) × (volume_verifier raw ≡ t.verifier)
  unfolding check_key
  check_key-ok t1 t k raw w u h =
      ground (arith, L.ct_eq_slice_iff (volume_verifier (expose k)) t1.verifier)

  recover-Recovers :
      (input salt passphrase : Bytes) (w : World) (t : KeySlotTable) (raw : Bytes) (u : World)
      → recover input salt passphrase w ≡ (ok (t, raw), u)
      → Recovers input salt passphrase t raw
  unfolding recover
  recover-Recovers input salt passphrase w t raw u h =
      let (t1, w1, e1, h1) = and_then-eq-ok (from_bytes input salt, w) _ h in
      let (nk, w2, e2, h2) = and_then-eq-ok (unseal_with passphrase t1 w1) _ h1 in
      let (same, key, l, checked) = check_key-ok t1 t nk.1 raw w2 u h2 in
      let found = Search-FirstOpen nk.0 nk.1 w2 (unseal_with-first L t1 passphrase w1) e2 in
      record {
        index = nk.0;
        parsed = cc (e1, same);
        opened =
            subst₂ (λ (x : KeySlotTable) b. FirstOpen x.slots passphrase nk.0 b) same key found;
        verified = checked;
        raw_len = l;
      }

  -- Once a key is recovered, the rest always succeeds.
  pub install_total :
      (v : AegisVault) (t : KeySlotTable) (raw : Bytes) (w : World)
      → length raw ≡ 32
      → (v' : AegisVault) × (u : World) × (install (wrap (t, raw) w) v ≡ (ok tt, v', u))
        × (expose v'.master ≡ raw)
        × IsDerived raw v'.hierarchy
        × (v'.slots ≡ some t)
  unfolding install wrap new
  install_total v t raw w l =
      let x = expose-locked_key raw w in
      let (h, u, e, i) = from_master_total L raw (locked_key raw w).1 in
      (record { master = (locked_key raw w).0; hierarchy = h; slots = some t }, u, rw e, x, i, refl)

  Opening-install :
      (input salt passphrase : Bytes) (v : AegisVault) (o : Result (KeySlotTable × Bytes) × World)
      → ((t : KeySlotTable) (raw : Bytes) (u : World)
          → o ≡ (ok (t, raw), u)
          → Recovers input salt passphrase t raw)
      → Opening input salt passphrase v (install (and_then o wrap) v)
  unfolding install
  Opening-install input salt passphrase v (ok (t, raw), w) found =
      let r = found t raw w refl in
      let (v', u, e, x, i, s) = install_total v t raw w r.raw_len in
      rw e (opened t (rw x r) (rw x i) s)
  Opening-install input salt passphrase v (err e, w) found = failed e
  Opening-install input salt passphrase v (panic, w) found = panicked

  -- With lawful primitives: opening a vault from the bytes of a slot table either succeeds, or
  -- leaves the vault exactly as it was. Where it succeeds, the bytes parse to the table that the
  -- vault then holds, the new master key is what the first enabled slot that the passphrase opens
  -- holds, it matches the verifier of the table, and the hierarchy is derived from it.
  pub open_from_slots-Opening :
      (input salt passphrase : Bytes) (v : AegisVault) (w : World)
      → Opening input salt passphrase v (open_from_slots input salt passphrase v w)
  unfolding open_from_slots
  open_from_slots-Opening input salt passphrase v w =
      Opening-install input salt passphrase v (recover input salt passphrase w)
        (λ t raw u h. recover-Recovers input salt passphrase w t raw u h)
