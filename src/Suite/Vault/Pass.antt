-- ===== src/Suite/Vault/Pass.antt =====
-- The tests of src/lib.rs together.
use aegis_keys_with_soteria.Prelude.{◌*◌, ◌≡◌, refl, some}
use aegis_keys_with_soteria.Errors.{ok}
use aegis_keys_with_soteria.Errors.Effects.{World}
use aegis_keys_with_soteria.Primitives.{Bytes, Primitives, IsLawful}
use aegis_keys_with_soteria.Kdf.{derived}
use aegis_keys_with_soteria.Hierarchy.{literal}
use aegis_keys_with_soteria.Slots.Wrap.{Accepts}
use aegis_keys_with_soteria.Vault.{AegisVault, slots_to_bytes, slots_header_salt}
use aegis_keys_with_soteria.Vault.Reopen.{reopen}
use aegis_keys_with_soteria.Suite.Vault.{vault_volume_verifier_detects_injection}
use aegis_keys_with_soteria.Suite.Vault.Steps.{
  unlocked, persisted, Persisted-Opens, verify_volume-none,
}

module _ ⦃P : Primitives⦄ (L : IsLawful P) where
  pub vault_volume_verifier_detects_injection-passes :
      (w : World) (key other : Bytes)
      → derived (literal "master-pw") (literal "public-salt-04") (32 * 1024) 2 ≡ some key
      → derived (literal "x") (literal "public-salt-04") (32 * 1024) 2 ≡ some other
      → Accepts (literal "master-pw") 64 3
      → (vault_volume_verifier_detects_injection w).0 ≡ ok tt
  unfolding vault_volume_verifier_detects_injection slots_to_bytes slots_header_salt
  vault_volume_verifier_detects_injection-passes w key other d d' a =
      let pw = literal "master-pw" in
      let salt = literal "public-salt-04" in
      let r = unlocked L pw salt key w d in
      let p = persisted L r.v pw r.after r.valid a in
      let v : AegisVault = record r.v { slots = some p.t } in
      let o = unlocked L pw salt key p.after d in
      let (v', u, e, _, _, _, _, verified) =
        reopen L v o.v p.t pw 0 o.after p.valid refl (Persisted-Opens L r.v pw r.after p) in
      let b = unlocked L (literal "x") salt other u d' in
      rw (r.made, p.made, o.made, e, verified, b.made, verify_volume-none b.v b.no_slots)
