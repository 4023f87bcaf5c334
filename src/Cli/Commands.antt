-- ===== src/Cli/Commands.antt =====
-- The `init`, `add` and `verify` commands of src/bin/aegis.rs.
use aegis_keys_with_soteria.Prelude.{
  ℕ, ◌<◌, ◌≡◌, false, true, refl, sym, ap, ◌∙◌, some, arith, length,
}
use mathlib.Core.Path.{subst}
use aegis_keys_with_soteria.Errors.Effects.{World}
use aegis_keys_with_soteria.Primitives.{Bytes, Primitives, IsLawful}
use aegis_keys_with_soteria.AegisKey.{expose}
use aegis_keys_with_soteria.Kdf.{derived}
use aegis_keys_with_soteria.Hierarchy.{literal}
use aegis_keys_with_soteria.Slots.Wrap.{Accepts}
use aegis_keys_with_soteria.Table
use aegis_keys_with_soteria.Table.{KeySlotTable}
use aegis_keys_with_soteria.Table.Opens.{Opens}
use aegis_keys_with_soteria.Table.Access.{Binds, add_slot_access, add_slot_keeps_access}
use aegis_keys_with_soteria.Codec.{to_bytes}
use aegis_keys_with_soteria.Vault.{AegisVault, slots_to_bytes, slots_header_salt}
use aegis_keys_with_soteria.Vault.Keys.{IsVault, unlock_total}
use aegis_keys_with_soteria.Vault.Users.{added}
use aegis_keys_with_soteria.Vault.Reopen.{seal_slots_total}
use aegis_keys_with_soteria.Process.{
  call, check, or_fail, some_or_abort, write_file, FileSystem, IsFileSystem, done,
}
use aegis_keys_with_soteria.Cli.{
  cli_salt, mem_kib, iters, vault_file, write_vault, store_vault, init, add, verify,
}
use aegis_keys_with_soteria.Cli.Files.{Holds, open_vault-reopens}
use aegis_keys_with_soteria.Cli.Sealed.{Writable}

module _ ⦃P : Primitives⦄ (L : IsLawful P) {S : Type 0} (F : FileSystem S) where
  -- The other files are as they were.
  abbrev pub Keeps : Bytes → S → S → Type 0
  Keeps path s s1 =
      (other : Bytes) → F.same_file path other ≡ false → F.read s1 other ≡ F.read s other

  -- `verify` with this passphrase succeeds on the file, wherever the system stands.
  abbrev pub Verifies : S → Bytes → Bytes → Type 0
  Verifies s path pass = (w : World) → (u : World) × (verify F pass path s w ≡ (done tt, s, u))

  module _ (ignored : Bytes)
      (d : derived (literal "ignored") cli_salt mem_kib iters ≡ some ignored) where
    pub verify-Opens :
        (v : AegisVault) (t : KeySlotTable) (path pass : Bytes) (n : ℕ) (s : S)
        → IsVault v
        → v.slots ≡ some t
        → Opens t pass n (expose v.master)
        → Holds F s path t
        → Verifies s path pass
    unfolding verify check or_fail
    verify-Opens v t path pass n s i slots o holds w =
        let (v', u, e, _, _, _, checked) =
          open_vault-reopens F L v t path pass ignored n s w d i slots o holds in
        (u, ground (arith, e, checked))

    module _ (fs : IsFileSystem F) (writable : Writable L F) where
      pub store_vault-Holds :
          (v : AegisVault) (t : KeySlotTable) (path : Bytes) (s : S) (w : World)
          → v.slots ≡ some t
          → F.is_regular path ≡ true
          → (s1 : S) × (store_vault F path v s w ≡ (done tt, s1, w))
            × Holds F s1 path t
            × Keeps path s s1
      unfolding store_vault write_vault slots_to_bytes slots_header_salt some_or_abort write_file
      store_vault-Holds v t path s w slots reg =
          let file = vault_file (to_bytes t) t.header_salt in
          let ok_write = writable s path file in
          (
            (F.write s path file).1,
            ground arith,
            fs.written s path file reg ok_write,
            λ other apart. fs.untouched s path other file ok_write apart,
          )

      -- With lawful primitives: on a file system where writing succeeds, and for a passphrase
      -- that Argon2 takes: `init` succeeds, and `verify` with the same passphrase then succeeds
      -- on the new vault file. (The code unlocks a vault with a fixed passphrase first, which
      -- Argon2 must take.)
      pub init-Verifies :
          (pass out key : Bytes) (s : S) (w : World)
          → derived pass cli_salt mem_kib iters ≡ some key
          → Accepts pass 64 3
          → F.is_regular out ≡ true
          → (s1 : S) × (u1 : World) × (init F pass out s w ≡ (done tt, s1, u1))
            × Verifies s1 out pass
      unfolding init or_fail call
      init-Verifies pass out key s w k a reg =
          let (v, u, e, i) = unlock_total L pass cli_salt key mem_kib iters w k in
          let (t, u1, e1, i1, o, _) = seal_slots_total L v pass u i a in
          let v1 : AegisVault = record v { slots = some t } in
          let (s1, e2, holds, _) = store_vault-Holds v1 t out s u1 refl reg in
          (s1, u1, ground (arith, e, e1, e2), verify-Opens v1 t out pass 0 s1 i1 refl o holds)

      -- With lawful primitives: on a file system where writing succeeds, for a file that holds
      -- the table of a vault that satisfies the invariant, with fewer than 16 slots that all hold
      -- the master key, a passphrase that opens it, and a new one that Argon2 takes: `add`
      -- succeeds, and `verify` then succeeds on the file with the old and with the new
      -- passphrase. (The code unlocks a vault with a fixed passphrase first, which Argon2 must
      -- take.)
      pub add-Verifies :
          (v : AegisVault) (t : KeySlotTable) (file pass newp : Bytes) (n : ℕ) (s : S) (w : World)
          → IsVault v
          → v.slots ≡ some t
          → Opens t pass n (expose v.master)
          → Holds F s file t
          → Binds (expose v.master) t
          → length t.slots < 16
          → Accepts newp 64 3
          → F.is_regular file ≡ true
          → (s1 : S) × (u1 : World) × (add F pass newp file s w ≡ (done tt, s1, u1))
            × Verifies s1 file pass
            × Verifies s1 file newp
      unfolding add call
      add-Verifies v t file pass newp n s w i slots o holds bound room a reg =
          let (v1, u, e, x, same, i1, _) =
            open_vault-reopens F L v t file pass ignored n s w d i slots o holds in
          let master = expose v1.master in
          let bound1 = subst (λ m. Binds m t) (sym x) bound in
          let o1 = subst (Opens t pass n) (sym x) o in
          let (t', u1, n', e1, _, o') =
            add_slot_access L master newp t u i1.master_length a bound1 room in
          let (e2, i2) = added L v1 t t' newp u u1 i1 (same ∙ slots) e1 in
          let v2 : AegisVault = record v1 { slots = some t' } in
          let (s1, e3, holds1, _) = store_vault-Holds v2 t' file s u1 refl reg in
          let kept = add_slot_keeps_access L master newp t u pass master n o1 in
          let after : (Table.add_slot master newp t u).1 ≡ t' = ap (λ r. r.1) e1 in
          (
            s1,
            u1,
            ground (arith, e, e2, e3),
            verify-Opens v2 t' file pass n s1 i2 refl
                (subst (λ b. Opens b pass n master) after kept) holds1,
            verify-Opens v2 t' file newp n' s1 i2 refl o' holds1,
          )
