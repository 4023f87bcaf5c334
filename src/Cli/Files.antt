-- ===== src/Cli/Files.antt =====
-- The vault file of src/bin/aegis.rs: what `init` and `add` write, and `open_vault`.
use aegis_keys_with_soteria.Prelude.{
  ℕ, ◌≡◌, sym, ap, ◌∙◌, true, some, ◌++◌, arith, length, length-append, take, drop,
}
use aegis_keys_with_soteria.Prelude.Slices.{take-append_self, drop-append_self}
use mathlib.Core.Path.{subst}
use aegis_keys_with_soteria.Errors.{ok}
use aegis_keys_with_soteria.Errors.Effects.{World}
use aegis_keys_with_soteria.Primitives.{Bytes, Primitives, IsLawful}
use aegis_keys_with_soteria.AegisKey.{expose}
use aegis_keys_with_soteria.Kdf.{derived}
use aegis_keys_with_soteria.Hierarchy.{literal}
use aegis_keys_with_soteria.Table.{KeySlotTable}
use aegis_keys_with_soteria.Table.Opens.{Opens}
use aegis_keys_with_soteria.Codec.{to_bytes, bytes_eq, index_at}
use aegis_keys_with_soteria.Vault.{AegisVault, verify_volume}
use aegis_keys_with_soteria.Vault.Keys.{IsVault, SlotsFor, unlock_total}
use aegis_keys_with_soteria.Vault.Reopen.{reopen}
use aegis_keys_with_soteria.Process.{call, check, or_fail, read_file, unwrap, FileSystem, done}
use aegis_keys_with_soteria.Cli.{cli_salt, mem_kib, iters, vault_file, read_vault, open_vault}

-- The salt and the table of a vault file.
pub vault_file-parts :
    (bytes salt : Bytes)
    → length salt ≡ 32
    → (take 32 (drop 6 (vault_file bytes salt)) ≡ salt) × (drop 38 (vault_file bytes salt) ≡ bytes)
vault_file-parts bytes salt l = (
  ap (λ n. take n (salt ++ bytes)) (sym l) ∙ take-append_self salt bytes,
  ap (λ n. drop n (salt ++ bytes)) (sym l) ∙ drop-append_self salt bytes,
)

module _ ⦃P : Primitives⦄ {S : Type 0} (F : FileSystem S) where
  -- The file at this path is the vault file of this table.
  abbrev pub Holds : S → Bytes → KeySlotTable → Type 0
  Holds s path t = F.read s path ≡ some (vault_file (to_bytes t) t.header_salt)

  pub read_vault-vault_file :
      (path bytes salt : Bytes) (s : S) (w : World)
      → length salt ≡ 32
      → F.read s path ≡ some (vault_file bytes salt)
      → read_vault F path s w ≡ (done (bytes, salt), s, w)
  unfolding read_vault bytes_eq index_at check or_fail read_file
  read_vault-vault_file path bytes salt s w l r =
      let (front, back) = vault_file-parts bytes salt l in
      ground (arith, length-append salt bytes, front, back)

  -- Where the file of a path holds the table of a vault that satisfies the invariant, and the
  -- passphrase opens the table to the master key, opening the file gives a vault with the same
  -- master key and table, which satisfies the invariant and verifies. (The code first unlocks a
  -- vault with a fixed passphrase, which Argon2 must take.)
  pub open_vault-reopens :
      IsLawful P
      → (v : AegisVault) (t : KeySlotTable) (path pass ignored : Bytes) (n : ℕ) (s : S) (w : World)
      → derived (literal "ignored") cli_salt mem_kib iters ≡ some ignored
      → IsVault v
      → v.slots ≡ some t
      → Opens t pass n (expose v.master)
      → Holds s path t
      → (v' : AegisVault) × (u : World) × (open_vault F path pass s w ≡ (done v', s, u))
        × (expose v'.master ≡ expose v.master)
        × (v'.slots ≡ v.slots)
        × IsVault v'
        × (verify_volume v' ≡ ok true)
  unfolding open_vault unwrap call
  open_vault-reopens L v t path pass ignored n s w d i slots o r =
      let table = subst (SlotsFor (expose v.master)) slots i.slots_for in
      let read = read_vault-vault_file path (to_bytes t) t.header_salt s w table.salt_len r in
      let (v0, u0, e, _) = unlock_total L (literal "ignored") cli_salt ignored mem_kib iters w d in
      let (v', u, e', x, _, same, i', checked) = reopen L v v0 t pass n u0 i slots o in
      (v', u, ground (arith, read, e, e'), x, same, i', checked)
