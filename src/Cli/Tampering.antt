-- ===== src/Cli/Tampering.antt =====
-- What `open_vault` of src/bin/aegis.rs makes of a vault file that someone else has changed.
use aegis_keys_with_soteria.Prelude.{
  ◌<◌, ◌≡◌, refl, ap₂, ◌∙◌, true, Option, none, some, [], ◌∷◌, ◌++◌, length, take, drop,
}
use mathlib.Core.Path.{subst}
use aegis_keys_with_soteria.Errors.{ok, err, panic}
use aegis_keys_with_soteria.Primitives.{Bytes, Primitives, IsLawful}
use aegis_keys_with_soteria.AegisKey.{expose}
use aegis_keys_with_soteria.Kdf.{derived}
use aegis_keys_with_soteria.Hierarchy.{literal}
use aegis_keys_with_soteria.Slots.{KeySlot, is_enabled}
use aegis_keys_with_soteria.Slots.Wrap.{IsSlot, opening}
use aegis_keys_with_soteria.Table.{KeySlotTable}
use aegis_keys_with_soteria.Table.Grow.{IsTable, IsTable-append}
use aegis_keys_with_soteria.Table.Access.{Binds, append_access}
use aegis_keys_with_soteria.Codec.{to_bytes, from_bytes}
use aegis_keys_with_soteria.Codec.RoundTrip.{from_bytes-to_bytes}
use aegis_keys_with_soteria.Vault.{AegisVault}
use aegis_keys_with_soteria.Vault.Keys.{IsVault, SlotsFor}
use aegis_keys_with_soteria.Vault.Persist.{IsTable-IsEncodable}
use aegis_keys_with_soteria.Process.{FileSystem}
use aegis_keys_with_soteria.Cli.{cli_salt, mem_kib, iters, vault_file}
use aegis_keys_with_soteria.Cli.Files.{vault_file-parts}
use aegis_keys_with_soteria.Cli.Commands.{Verifies, verify-Opens}

module _ ⦃P : Primitives⦄ where
  -- A vault file with a slot more, made from nothing but the file and the slot.
  unfoldable pub put_back : KeySlot → Bytes → Option Bytes
  put_back s content = elim (from_bytes (drop 38 content) (take 32 (drop 6 content))) [
    | ok t ↦
        let t' : KeySlotTable = record t { slots = t.slots ++ s ∷ [] } in
        some (vault_file (to_bytes t') t'.header_salt)
    | err e ↦ none
    | panic ↦ none
  ]

  -- With lawful primitives: given a vault file that holds the table of a vault that satisfies the
  -- invariant, with fewer than 255 slots that all hold the master key, and an enabled slot of the
  -- volume from elsewhere, as from an older copy of the file, that a passphrase opens to the master
  -- key: from the file and the slot alone, with no key, one can make a file on which `verify` with this
  -- passphrase succeeds. The MAC does not prevent it. (The code unlocks a vault with a fixed passphrase
  -- first, which Argon2 must take.)
  pub put_back-Verifies :
      (L : IsLawful P) {S : Type 0} (F : FileSystem S) (ignored : Bytes)
      → derived (literal "ignored") cli_salt mem_kib iters ≡ some ignored
      → (v : AegisVault) (t : KeySlotTable) (s : KeySlot) (pass : Bytes) → IsVault v
      → v.slots ≡ some t
      → Binds (expose v.master) t
      → length t.slots < 255
      → IsSlot s
      → is_enabled s ≡ true
      → opening s pass ≡ ok (expose v.master)
      → (content : Bytes) × (put_back s (vault_file (to_bytes t) t.header_salt) ≡ some content)
        × ((path : Bytes) (d : S) → F.read d path ≡ some content → Verifies L F d path pass)
  unfolding put_back
  put_back-Verifies L F ignored d v t s pass i slots bound room h on opens =
      let master = expose v.master in
      let table : IsTable master t = subst (SlotsFor master) slots i.slots_for in
      let t' : KeySlotTable = record t { slots = t.slots ++ s ∷ [] } in
      let table' : IsTable master t' = IsTable-append master t s room h table in
      let (salt, bytes) = vault_file-parts (to_bytes t) t.header_salt table.salt_len in
      let parsed = from_bytes-to_bytes L t (IsTable-IsEncodable L master t table) in
      let (n, _, o) = append_access L master pass t s bound on opens in
      let v' : AegisVault = record v { slots = some t' } in
      let i' : IsVault v' = record {
        master_length = i.master_length;
        hierarchy_derived = i.hierarchy_derived;
        slots_for = table';
      } in
      (
        vault_file (to_bytes t') t'.header_salt,
        rw (ap₂ from_bytes bytes salt ∙ parsed, put_back),
        λ path disk there. verify-Opens L F ignored d v' t' path pass n disk i' refl o there,
      )
