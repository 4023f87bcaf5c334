-- ===== src/Cli/Sessions/Remains.antt =====
-- One run of src/bin/aegis.rs on a vault file, and the users of the file after it.
use aegis_keys_with_soteria.Prelude.{◌≡◌, true, false, refl, sym, ap, ◌∙◌, some}
use mathlib.Core.Path.{subst}
use aegis_keys_with_soteria.Errors.Effects.{World}
use aegis_keys_with_soteria.Primitives.{Bytes, Primitives, IsLawful, IsRobust}
use aegis_keys_with_soteria.AegisKey.{expose}
use aegis_keys_with_soteria.Table.{KeySlotTable}
use aegis_keys_with_soteria.Table.Grow.{IsTable}
use aegis_keys_with_soteria.Table.Held.{Held}
use aegis_keys_with_soteria.Codec.{to_bytes}
use aegis_keys_with_soteria.Codec.RoundTrip.{from_bytes-to_bytes}
use aegis_keys_with_soteria.Vault
use aegis_keys_with_soteria.Vault.{AegisVault, open_from_slots, slots_to_bytes, slots_header_salt}
use aegis_keys_with_soteria.Vault.Keys.{IsVault, SlotsFor}
use aegis_keys_with_soteria.Vault.Persist.{IsTable-IsEncodable}
use aegis_keys_with_soteria.Vault.Panics.{open_from_slots-panic_iff}
use aegis_keys_with_soteria.Vault.Outcomes.{add_slot-ne-panic}
use aegis_keys_with_soteria.Vault.Lifecycle
use aegis_keys_with_soteria.Vault.Lifecycle.{Step-IsVault}
use aegis_keys_with_soteria.Vault.Grown.{Extends, Is, open_from_slots-Is, add_slot-grows}
use aegis_keys_with_soteria.Process.{FileSystem, IsFileSystem, Outcome, Cmd, some_or_abort}
use aegis_keys_with_soteria.Process.Endings.{
  Quiet, value, exit, abort, Quiet-bind, call-Quiet, Ends, kept, wrote, failed, Ends-bind,
  write_file-Ends,
}
use aegis_keys_with_soteria.Cli
use aegis_keys_with_soteria.Cli.{
  cli_salt, mem_kib, iters, vault_file, open_vault, store_vault, write_vault, seal_file, open_file,
  verify,
}
use aegis_keys_with_soteria.Cli.Files.{read_vault-vault_file}
use aegis_keys_with_soteria.Cli.Sealed.{Writable}
use aegis_keys_with_soteria.Cli.Failures.{Crash, unlock-Quiet}
use aegis_keys_with_soteria.Cli.Endings.{init-Ends, seal_file-Ends, open_file-Ends, verify-Ends}
use aegis_keys_with_soteria.Cli.Sessions.{Stores}
use aegis_keys_with_soteria.Users.{Users}

-- A command beside a vault file: on it, or `init` of another one.
pub data Command : Type 0 where
  add_user : Bytes → Bytes → Command
  seal_as : Bytes → Bytes → Bytes → Command
  open_as : Bytes → Bytes → Bytes → Command
  verify_as : Bytes → Command
  init_as : Bytes → Bytes → Command

module _ ⦃P : Primitives⦄ {S : Type 0} (F : FileSystem S) where
  -- Its output is not the vault file, under whatever name.
  abbrev pub Spares : Bytes → Command → Type 0
  Spares path (add_user pass newp) = Unit
  Spares path (seal_as pass inp outp) = F.same_file outp path ≡ false
  Spares path (open_as pass inp outp) = F.same_file outp path ≡ false
  Spares path (verify_as pass) = Unit
  Spares path (init_as pass out) = F.same_file out path ≡ false

  unfoldable pub exec : Bytes → Command → Cmd S (Unit {0})
  exec path (add_user pass newp) = Cli.add F pass newp path
  exec path (seal_as pass inp outp) = seal_file F pass path inp outp
  exec path (open_as pass inp outp) = open_file F pass path inp outp
  exec path (verify_as pass) = verify F pass path
  exec path (init_as pass out) = Cli.init F pass out

  module _ (L : IsLawful P) (r : IsRobust P.aes_256_gcm) (s : S) (path : Bytes) (us : Users)
      (st : Stores F s path us) where
    table_of : IsTable (expose st.vault.master) st.table
    table_of = subst (SlotsFor (expose st.vault.master)) st.slots st.valid.slots_for

    open_vault-Is :
        (pass : Bytes) (w : World)
        → Quiet s
            (Crash L F s)
            (Is L (expose st.vault.master) st.table)
            (open_vault F path pass s w)
    unfolding open_vault
    open_vault-Is pass w =
        let t = st.table in
        let bytes = to_bytes t in
        let parsed =
          from_bytes-to_bytes L t (IsTable-IsEncodable L (expose st.vault.master) t table_of) in
        rw (read_vault-vault_file F path bytes t.header_salt s w table_of.salt_len st.there) (
          Quiet-bind s (Crash L F s) _ (unlock-Quiet L F s w) (λ v u _.
            Quiet-bind s (Crash L F s) {Q = λ (_, x). Is L (expose st.vault.master) t x} _
              (call-Quiet s (Crash L F s) {Q = λ (_, x). Is L (expose st.vault.master) t x}
                (open_from_slots bytes t.header_salt pass) v u
                (λ _ h.
                  open_from_slots-Is L (expose st.vault.master) us t pass v u table_of st.held h)
                (λ p.
                  absurd
                    (cc (parsed, (open_from_slots-panic_iff L v bytes t.header_salt pass u).0 p))))
              (λ (_, v') u3 o. value v' o)))

    -- The vault file of a vault for these users and perhaps one more.
    record Renews (p content : Bytes) : Type 0 where
      pub same_path : p ≡ path
      pub vault : AegisVault
      pub table : KeySlotTable
      pub users : Users
      pub valid : IsVault vault
      pub slots : vault.slots ≡ some table
      pub held : Held (expose vault.master) users table.slots
      pub extends : Extends us users
      pub renewed : content ≡ vault_file (to_bytes table) table.header_salt

    store_vault-Renews :
        (v : AegisVault) (w : World)
        → IsVault v
        → (t : KeySlotTable) × (us' : Users) × (v.slots ≡ some t)
          × Held (expose v.master) us' t.slots
          × Extends us us'
        → Ends s (Crash L F s) F Renews (store_vault F path v s w)
    unfolding store_vault write_vault slots_to_bytes slots_header_salt some_or_abort
    store_vault-Renews v w i (t, us', e, h, x) = rw e (
        write_file-Ends s (Crash L F s) F Renews path (vault_file (to_bytes t) t.header_salt) w
          (record {
            same_path = refl;
            vault = v;
            table = t;
            users = us';
            valid = i;
            slots = e;
            held = h;
            extends = x;
            renewed = refl;
          }))

    add-Renews :
        (pass newp : Bytes) (w : World)
        → Ends s (Crash L F s) F Renews (Cli.add F pass newp path s w)
    unfolding Cli.add
    add-Renews pass newp w = Ends-bind s (Crash L F s) F Renews _ (open_vault-Is pass w) (λ v u o.
        let held : Held (expose v.master) us st.table.slots = rw o.same st.held in
        Ends-bind s (Crash L F s) F Renews _
          (call-Quiet s (Crash L F s)
            {Q = λ (_, x).
              IsVault x
              × ((t : KeySlotTable) × (us' : Users) × (x.slots ≡ some t)
                  × Held (expose x.master) us' t.slots
                  × Extends us us')}
            (Vault.add_slot newp) v u
            (λ _ h. (
              Step-IsVault L (Lifecycle.add newp u) o.valid,
              add_slot-grows L r v st.table us newp u o.valid o.slots held,
            ))
            (λ p. absurd (add_slot-ne-panic L newp v u o.valid.master_length st.table o.slots p)))
          (λ (_, v') u2 (i, g). store_vault-Renews v' u2 i g))

    -- The vault file after a command.
    abbrev pub Remains : S → Type 0
    Remains s1 = (us' : Users) × Stores F s1 path us' × Extends us us'

    unwritten : Remains s
    unwritten = (us, st, λ i p e. e)

    Quiet-Remains :
        {o : Outcome (Unit {0}) × S × World} → Quiet s (Crash L F s) (λ _. Unit {0}) o → Remains o.1
    Quiet-Remains (value a q) = unwritten
    Quiet-Remains exit = unwritten
    Quiet-Remains (abort c) = unwritten

    module _ (fs : IsFileSystem F) (writable : Writable L F) (reg : F.is_regular path ≡ true) where
      Renews-Remains : (p content : Bytes) → Renews p content → Remains (F.write s p content).1
      Renews-Remains p content n = (
        n.users,
        record {
          vault = n.vault;
          table = n.table;
          valid = n.valid;
          slots = n.slots;
          there =
              ap (F.read (F.write s p content).1) (sym n.same_path)
              ∙ fs.written s p content (ap F.is_regular n.same_path ∙ reg) (writable s p content)
              ∙ ap some n.renewed;
          held = n.held;
        },
        n.extends,
      )

      -- Another file.
      apart-Remains :
          (p content : Bytes) → F.same_file p path ≡ false → Remains (F.write s p content).1
      apart-Remains p content apart = (
        us,
        record {
          vault = st.vault;
          table = st.table;
          valid = st.valid;
          slots = st.slots;
          there = fs.untouched s p path content (writable s p content) apart ∙ st.there;
          held = st.held;
        },
        λ i q e. e,
      )

      Ends-Remains :
          {W : Bytes → Bytes → Type 0} {o : Outcome (Unit {0}) × S × World}
          → Ends s (Crash L F s) F W o
          → ((p content : Bytes) → W p content → Remains (F.write s p content).1)
          → Remains o.1
      Ends-Remains (kept q) k = Quiet-Remains q
      Ends-Remains (wrote p content h e) k = k p content h
      Ends-Remains (failed p content h e) k = k p content h

      pub exec-Remains : (c : Command) (w : World) → Spares path c → Remains (exec path c s w).1
      unfolding exec
      exec-Remains (add_user pass newp) w h = Ends-Remains (add-Renews pass newp w) Renews-Remains
      exec-Remains (seal_as pass inp outp) w h =
          Ends-Remains {W = λ p _. p ≡ outp}
            (seal_file-Ends L F s (λ p _. p ≡ outp) pass path inp outp w (λ _. refl))
            (λ p content e. apart-Remains p content (ap (λ x. F.same_file x path) e ∙ h))
      exec-Remains (open_as pass inp outp) w h =
          Ends-Remains {W = λ p _. p ≡ outp}
            (open_file-Ends L F s (λ p _. p ≡ outp) pass path inp outp w (λ _. refl))
            (λ p content e. apart-Remains p content (ap (λ x. F.same_file x path) e ∙ h))
      exec-Remains (verify_as pass) w h =
          Ends-Remains {W = λ _ _. ⊥} (verify-Ends L F s (λ _ _. ⊥) pass path w)
            (λ p content e. absurd e)
      exec-Remains (init_as pass out) w h =
          Ends-Remains {W = λ p _. p ≡ out}
            (init-Ends L F s (λ p _. p ≡ out) pass out w (λ _. refl))
            (λ p content e. apart-Remains p content (ap (λ x. F.same_file x path) e ∙ h))
