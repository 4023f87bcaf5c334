-- ===== src/Cli/Sessions.antt =====
-- Several commands of src/bin/aegis.rs on one vault file.
pub mod Enrolled
pub mod Remains
pub mod Sequences
use mathlib.Core.List.{map, map-append}
use mathlib.Core.Path.{subst}
use mathlib.Core.Option
use aegis_keys_with_soteria.Vault.Users.{seal_slots-Held, add_slot-Held}
use aegis_keys_with_soteria.Prelude.{
  true, false, ℕ, zero, suc, ◌+◌, ◌≤◌, ◌<◌, ◌≡◌, ◌≢◌, refl, sym, ap, ◌∙◌, none, some, inl, inr,
  Option, List, [], ◌∷◌, ◌++◌, append_assoc, append-nil, arith, length, length-append, get_elem?,
  All, All-of_get_elem?,
}
use aegis_keys_with_soteria.Errors.Effects.{World}
use aegis_keys_with_soteria.Primitives.{Bytes, Primitives, IsLawful, IsRobust, message_limit}
use aegis_keys_with_soteria.AegisKey.{expose}
use aegis_keys_with_soteria.Kdf.{derived}
use aegis_keys_with_soteria.Hierarchy.{literal}
use aegis_keys_with_soteria.Slots.Wrap.{Accepts}
use aegis_keys_with_soteria.Table.{KeySlotTable}
use aegis_keys_with_soteria.Table.Grow.{new_initial_total, add_slot_total}
use aegis_keys_with_soteria.Table.Held.{Held, Held-length, Held-append, nobody, next, IsFor-IsHeld}
use aegis_keys_with_soteria.Table.Refinement.{Held-Opens}
use aegis_keys_with_soteria.Vault.{AegisVault}
use aegis_keys_with_soteria.Vault.Keys.{IsVault, unlock_total}
use aegis_keys_with_soteria.Process.{call, or_fail, FileSystem, IsFileSystem, Cmd, done, pure, ◌>>◌}
use aegis_keys_with_soteria.Cli.{
  cli_salt, mem_kib, iters, init, add, open_vault, seal_file, open_file,
}
use aegis_keys_with_soteria.Cli.Files.{Holds, open_vault-reopens}
use aegis_keys_with_soteria.Cli.Sealed.{Writable, open_file-seal_file_shared}
use aegis_keys_with_soteria.Cli.Commands.{Verifies, Keeps, verify-Opens, store_vault-Holds}
use aegis_keys_with_soteria.Users.{Users}

pub get_elem?-map :
    {A B : Type 0} (f : A → B) (xs : List A) (i : ℕ) {a : A}
    → get_elem? xs i ≡ some a
    → get_elem? (map f xs) i ≡ some (f a)
get_elem?-map f [] i e = cc
get_elem?-map f (x ∷ xs) zero e = ap (Option.map f) e
get_elem?-map f (x ∷ xs) (suc i) e = get_elem?-map f xs i e

module _ ⦃P : Primitives⦄ {S : Type 0} (F : FileSystem S) where
  -- The file holds the table of a vault whose slots are held by these users.
  pub record Stores (s : S) (path : Bytes) (us : Users) : Type 0 where
    pub vault : AegisVault
    pub table : KeySlotTable
    pub valid : IsVault vault
    pub slots : vault.slots ≡ some table
    pub there : Holds F s path table
    pub held : Held (expose vault.master) us table.slots

  -- `aegis add -p <pass> -f <file> -n <new>`, for each of these new passphrases.
  unfoldable pub add_each : Bytes → List Bytes → Bytes → Cmd S (Unit {0})
  add_each pass [] file = pure tt
  add_each pass (p ∷ ps) file = add F pass p file >> add_each pass ps file

  -- `aegis init -p <pass> -o <file>`, and then these.
  unfoldable pub enroll : Bytes → List Bytes → Bytes → Cmd S (Unit {0})
  unfolding add_each
  enroll pass ps file = init F pass file >> add_each pass ps file

  module _ (L : IsLawful P) (r : IsRobust P.aes_256_gcm) (ignored : Bytes)
      (d : derived (literal "ignored") cli_salt mem_kib iters ≡ some ignored) where
    pub Stores-Verifies :
        {s : S} {path : Bytes} {us : Users} (i : ℕ) (p : Bytes)
        → Stores s path us
        → get_elem? us i ≡ some (some p)
        → Verifies L F s path p
    Stores-Verifies {s} {path} {us} i p st g =
        let (n, _, o) = Held-Opens (expose st.vault.master) L us st.table i p st.held g in
        verify-Opens L F ignored d st.vault st.table path p n s st.valid st.slots o st.there

    init-Stores :
        IsFileSystem F
        → Writable L F
        → (pass out key : Bytes) (s : S) (w : World)
        → derived pass cli_salt mem_kib iters ≡ some key
        → Accepts pass 64 3
        → F.is_regular out ≡ true
        → (s1 : S) × (u1 : World) × (init F pass out s w ≡ (done tt, s1, u1))
          × Stores s1 out (some pass ∷ [])
          × Keeps L F out s s1
    unfolding init or_fail call
    init-Stores fs writable pass out key s w k a reg =
        let (v, u, e, i) = unlock_total L pass cli_salt key mem_kib iters w k in
        let (t, u1, e1, i1, h) = seal_slots-Held L r v pass u i a in
        let v1 : AegisVault = record v { slots = some t } in
        let (s1, e2, holds, keeps) =
          store_vault-Holds L F ignored d fs writable v1 t out s u1 refl reg in
        (
          s1,
          u1,
          ground (arith, e, e1, e2),
          record { vault = v1; table = t; valid = i1; slots = refl; there = holds; held = h },
          keeps,
        )

    module _ (fs : IsFileSystem F) (writable : Writable L F) where
      add-Stores :
          (us : Users) (path pass newp : Bytes) (j : ℕ) (s : S) (w : World)
          → Stores s path us
          → get_elem? us j ≡ some (some pass)
          → length us < 16
          → Accepts newp 64 3
          → F.is_regular path ≡ true
          → (s1 : S) × (u1 : World) × (add F pass newp path s w ≡ (done tt, s1, u1))
            × Stores s1 path (us ++ some newp ∷ [])
            × Keeps L F path s s1
      unfolding add call
      add-Stores us path pass newp j s w st g room a reg =
          let v = st.vault in
          let t = st.table in
          let (n, _, o) = Held-Opens (expose v.master) L us t j pass st.held g in
          let (v1, u, e, x, same, i1, _) =
            open_vault-reopens F L v t path pass ignored n s w d st.valid st.slots o st.there in
          let h1 : Held (expose v1.master) us t.slots = rw x st.held in
          let (t', u1, e2, i2, h2) =
            add_slot-Held L r v1 t us newp u i1 (same ∙ st.slots) h1 room a in
          let v2 : AegisVault = record v1 { slots = some t' } in
          let (s1, e3, holds, keeps) =
            store_vault-Holds L F ignored d fs writable v2 t' path s u1 refl reg in
          (
            s1,
            u1,
            ground (arith, e, e2, e3),
            record { vault = v2; table = t'; valid = i2; slots = refl; there = holds; held = h2 },
            keeps,
          )

      add_each-Stores :
          (us : Users) (ps : List Bytes) (path pass : Bytes) (s : S) (w : World)
          → Stores s path (some pass ∷ us)
          → length us + length ps < 16
          → All (λ p. Accepts p 64 3) ps
          → F.is_regular path ≡ true
          → (s1 : S) × (u1 : World) × (add_each pass ps path s w ≡ (done tt, s1, u1))
            × Stores s1 path (some pass ∷ us ++ map some ps)
            × Keeps L F path s s1
      unfolding add_each
      add_each-Stores us [] path pass s w st room a reg =
          (s, w, refl, rw append-nil st, λ other _. refl)
      add_each-Stores us (p ∷ ps) path pass s w st room a reg =
          let (s1, u1, e1, st1, k1) =
            add-Stores (some pass ∷ us) path pass p 0 s w st refl (omega arith) a.0 reg in
          let (s2, u2, e2, st2, k2) =
            add_each-Stores (us ++ some p ∷ []) ps path pass s1 u1 st1
              (omega (arith, length-append us (some p ∷ []))) a.1 reg in
          (
            s2,
            u2,
            rw e1 e2,
            subst (λ l. Stores s2 path (some pass ∷ l))
                (append_assoc us (some p ∷ []) (map some ps)) st2,
            λ other apart. k2 other apart ∙ k1 other apart,
          )

      -- What one user seals on a vault file, every user opens.
      pub Stores-shares :
          {us : Users} (i j : ℕ) (p q path inp outp back content : Bytes) (s : S) (w : World)
          → Stores s path us
          → get_elem? us i ≡ some (some p)
          → get_elem? us j ≡ some (some q)
          → F.read s inp ≡ some content
          → length content ≤ message_limit
          → F.same_file outp path ≡ false
          → F.is_regular outp ≡ true
          → F.is_regular back ≡ true
          → (s1 : S) × (u1 : World) × (seal_file F p path inp outp s w ≡ (done tt, s1, u1))
            × ((w2 : World)
                → (s2 : S) × (u2 : World) × (open_file F q path outp back s1 w2 ≡ (done tt, s2, u2))
                  × (F.read s2 back ≡ some content))
      Stores-shares {us} i j p q path inp outp back content s w st gi gj r short apart reg
            reg_back =
          let master = expose st.vault.master in
          let (n, _, o) = Held-Opens master L us st.table i p st.held gi in
          let (n', _, o') = Held-Opens master L us st.table j q st.held gj in
          open_file-seal_file_shared L F fs writable st.vault st.table path inp outp back p q
            content ignored n n' s w d st.valid st.slots o o' st.there r short apart reg reg_back

      pub enroll-Stores :
          (pass out key : Bytes) (ps : List Bytes) (s : S) (w : World)
          → derived pass cli_salt mem_kib iters ≡ some key
          → All (λ p. Accepts p 64 3) (pass ∷ ps)
          → length ps < 16
          → F.is_regular out ≡ true
          → (s1 : S) × (u1 : World) × (enroll pass ps out s w ≡ (done tt, s1, u1))
            × Stores s1 out (map some (pass ∷ ps))
            × Keeps L F out s s1
      unfolding enroll
      enroll-Stores pass out key ps s w k a room reg =
          let (s1, u1, e1, st1, k1) = init-Stores fs writable pass out key s w k a.0 reg in
          let (s2, u2, e2, st2, k2) =
            add_each-Stores [] ps out pass s1 u1 st1 (omega arith) a.1 reg in
          (s2, u2, rw e1 e2, st2, λ other apart. k2 other apart ∙ k1 other apart)
