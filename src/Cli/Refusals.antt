-- ===== src/Cli/Refusals.antt =====
-- The commands of src/bin/aegis.rs with a passphrase that opens no slot.
use aegis_keys_with_soteria.Prelude.{◌≡◌, refl, some}
use mathlib.Core.Path.{subst}
use aegis_keys_with_soteria.Errors.Effects.{World}
use aegis_keys_with_soteria.Primitives.{Bytes, Primitives, IsLawful}
use aegis_keys_with_soteria.AegisKey.{expose}
use aegis_keys_with_soteria.Kdf.{derived}
use aegis_keys_with_soteria.Hierarchy.{literal}
use aegis_keys_with_soteria.Table.{KeySlotTable}
use aegis_keys_with_soteria.Table.Unseal.{NoneOpen}
use aegis_keys_with_soteria.Codec.{to_bytes}
use aegis_keys_with_soteria.Vault.{AegisVault, open_from_slots}
use aegis_keys_with_soteria.Vault.Outcomes.{open_from_slots_none}
use aegis_keys_with_soteria.Vault.Keys.{IsVault, SlotsFor, unlock_total}
use aegis_keys_with_soteria.Process.{FileSystem, unwrap, call, exited}
use aegis_keys_with_soteria.Cli.{
  cli_salt, mem_kib, iters, open_vault, add, seal_file, open_file, verify,
}
use aegis_keys_with_soteria.Cli.Files.{Holds, read_vault-vault_file}

module _ ⦃P : Primitives⦄ (L : IsLawful P) where
  module _ {S : Type 0} (F : FileSystem S) (ignored : Bytes)
      (d : derived (literal "ignored") cli_salt mem_kib iters ≡ some ignored) where
    open_vault-refused :
        (v : AegisVault) (t : KeySlotTable) (path pass : Bytes) (s : S) (w : World)
        → IsVault v
        → v.slots ≡ some t
        → NoneOpen t.slots pass
        → Holds F s path t
        → (u : World) × (open_vault F path pass s w ≡ (exited 1, s, u))
    unfolding open_vault unwrap call
    open_vault-refused v t path pass s w i slots shut r =
        let table = subst (SlotsFor (expose v.master)) slots i.slots_for in
        let read = read_vault-vault_file F path (to_bytes t) t.header_salt s w table.salt_len r in
        let (v0, u0, e, _) =
          unlock_total L (literal "ignored") cli_salt ignored mem_kib iters w d in
        let refused = open_from_slots_none L t (expose v.master) pass v0 u0 table shut in
        ((open_from_slots (to_bytes t) t.header_salt pass v0 u0).2, rw (read, e, refused) refl)

    -- With lawful primitives: where a file holds the table of a vault that satisfies the invariant,
    -- and no enabled slot of the table opens with the passphrase: `add`, `seal`, `open` and `verify`
    -- each end with exit code 1 and leave every file as it was. (The code unlocks a vault with a fixed
    -- passphrase first, which Argon2 must take.)
    pub wrong_passphrase :
        (v : AegisVault) (t : KeySlotTable) (path pass newp inp outp : Bytes) (s : S) (w : World)
        → IsVault v
        → v.slots ≡ some t
        → NoneOpen t.slots pass
        → Holds F s path t
        → (u : World) × (add F pass newp path s w ≡ (exited 1, s, u))
          × (seal_file F pass path inp outp s w ≡ (exited 1, s, u))
          × (open_file F pass path inp outp s w ≡ (exited 1, s, u))
          × (verify F pass path s w ≡ (exited 1, s, u))
    unfolding add seal_file open_file verify
    wrong_passphrase v t path pass newp inp outp s w i slots shut r =
        let (u, e) = open_vault-refused v t path pass s w i slots shut r in
        (u, rw e refl, rw e refl, rw e refl, rw e refl)
