-- ===== src/Vault/Survival.antt =====
-- Sequences of calls of `AegisVault` of src/lib.rs, with the files that it persists between them.
use aegis_keys_with_soteria.Prelude.{
  ℕ, ◌≤◌, ◌≡◌, true, Option, none, some, inl, inr, List, [], ◌∷◌, ◌++◌, refl, get_elem?, All,
  All-get_elem?, Option-cases,
}
use mathlib.Core.Path.{subst}
use aegis_keys_with_soteria.Errors.{Result, ok}
use aegis_keys_with_soteria.Errors.Effects.{World}
use aegis_keys_with_soteria.Primitives.{Bytes, Primitives, IsLawful, IsRobust}
use aegis_keys_with_soteria.AegisKey.{expose}
use aegis_keys_with_soteria.Table.{KeySlotTable}
use aegis_keys_with_soteria.Table.Grow.{IsTable}
use aegis_keys_with_soteria.Table.Held.{Held}
use aegis_keys_with_soteria.Table.Refinement.{Held-Opens}
use aegis_keys_with_soteria.Table.Runs.{active_pos}
use aegis_keys_with_soteria.Codec.{to_bytes}
use aegis_keys_with_soteria.Vault.{
  AegisVault, seal_slots, add_slot, revoke_slot, rotate_master, open_from_slots, verify_volume,
}
use aegis_keys_with_soteria.Vault.Keys.{IsVault, SlotsFor}
use aegis_keys_with_soteria.Vault.Reopen.{reopen}
use aegis_keys_with_soteria.Vault.Persist.{
  Opening, opened, failed, panicked, open_from_slots-Opening,
}
use aegis_keys_with_soteria.Vault.Grown.{Is, open_from_slots-Is}
use aegis_keys_with_soteria.Vault.Keeping.{
  KeptBy, Kept, seal-Kept, add-Kept, revoke-Kept, rotate-Kept,
}
use aegis_keys_with_soteria.Vault.Lifecycle
use aegis_keys_with_soteria.Vault.Lifecycle.{Step-IsVault}
use aegis_keys_with_soteria.Users.{Users, active}

-- A call that changes a vault, or that writes its table and the salt of it to a file. The files are
-- numbered, the latest first: `load` opens one of them, not necessarily the latest.
pub data Call : Type 0 where
  seal : Bytes → Call
  add : Bytes → Call
  revoke : ℕ → Call
  rotate : Call
  persist : Call
  load : ℕ → Bytes → Call

-- A vault, the files that were written, and the place in the answers of the system.
pub record History : Type 0 where
  pub vault : AegisVault
  pub files : List (Bytes × Bytes)
  pub world : World

module _ ⦃P : Primitives⦄ where
  -- What a vault with this table writes.
  abbrev file_of : Option KeySlotTable → List (Bytes × Bytes)
  file_of none = []
  file_of (some t) = (to_bytes t, t.header_salt) ∷ []

  abbrev opened_from : Option (Bytes × Bytes) → Bytes → History → History
  opened_from none p h = h
  opened_from (some (bytes, salt)) p h =
      let (_, v, w) = open_from_slots bytes salt p h.vault h.world in
      record h { vault = v; world = w }

  -- The history after a call, whatever its result.
  unfoldable pub apply : Call → History → History
  apply (seal p) h =
      let (_, v, w) = seal_slots p h.vault h.world in record h { vault = v; world = w }
  apply (add p) h = let (_, v, w) = add_slot p h.vault h.world in record h { vault = v; world = w }
  apply (revoke i) h = record h { vault = (revoke_slot i h.vault).1 }
  apply rotate h =
      let (_, v, w) = rotate_master h.vault h.world in record h { vault = v; world = w }
  apply persist h = record h { files = file_of h.vault.slots ++ h.files }
  apply (load i p) h = opened_from (get_elem? h.files i) p h

  unfoldable pub apply_all : List Call → History → History
  unfolding apply
  apply_all [] h = h
  apply_all (c ∷ cs) h = apply_all cs (apply c h)

  -- The vault after these calls, from a vault with no file yet.
  abbrev pub vault_after : List Call → AegisVault → World → AegisVault
  vault_after cs v w = (apply_all cs (record { vault = v; files = []; world = w })).vault

  module _ (L : IsLawful P) (r : IsRobust P.aes_256_gcm) where
    -- A file that holds a table for its users, one of them active, under some master key.
    record IsFile (file : Bytes × Bytes) : Type 0 where
      pub master : Bytes
      pub table : KeySlotTable
      pub users : Users
      pub same : file ≡ (to_bytes table, table.header_salt)
      pub is_table : IsTable master table
      pub held : Held master users table.slots
      pub pos : 1 ≤ active users

    record IsFine (h : History) : Type 0 where
      pub valid : IsVault h.vault
      pub kept : Kept h.vault
      pub files : All IsFile h.files

    persist-IsFile :
        (v : AegisVault) (files : List (Bytes × Bytes))
        → IsVault v
        → Kept v
        → All IsFile files
        → All IsFile (file_of v.slots ++ files)
    persist-IsFile v files i k a = elim (Option-cases v.slots) [
      | inl e ↦ rw e a
      | inr (t, e) ↦
          let (us, h, pos) = subst (KeptBy (expose v.master)) e k in
          rw e (
            record {
              master = expose v.master;
              table = t;
              users = us;
              same = refl;
              is_table = subst (SlotsFor (expose v.master)) e i.slots_for;
              held = h;
              pos = pos;
            },
            a,
          )
    ]

    open-Kept :
        (t : KeySlotTable) (master : Bytes) (us : Users) (p : Bytes) (v : AegisVault) (w : World)
        → IsTable master t
        → Held master us t.slots
        → 1 ≤ active us
        → IsVault v
        → Kept v
        → let v' = (open_from_slots (to_bytes t) t.header_salt p v w).1 in IsVault v' × Kept v'
    open-Kept t master us p v w table held pos i k =
        go (open_from_slots-Opening L (to_bytes t) t.header_salt p v w)
          (open_from_slots-Is L master us t p v w table held)
      where
        go :
            {o : Result (Unit {0}) × AegisVault × World}
            → Opening (to_bytes t) t.header_salt p v o
            → (o.0 ≡ ok tt → Is L master t o.1)
            → IsVault o.1 × Kept o.1
        go (opened t' r d e) is = let x = is refl in (x.valid, rw (x.slots, x.same) (us, held, pos))
        go (failed e) is = (i, k)
        go panicked is = (i, k)

    opened-IsFine :
        (file : Option (Bytes × Bytes)) (p : Bytes) (h : History)
        → IsFine h
        → ((f : Bytes × Bytes) → file ≡ some f → IsFile f)
        → IsFine (opened_from file p h)
    opened-IsFine none p h f a = f
    opened-IsFine (some file) p h f a =
        let x = a file refl in
        let (i, k) =
          open-Kept x.table x.master x.users p h.vault h.world x.is_table x.held x.pos f.valid
            f.kept in
        rw x.same (record { valid = i; kept = k; files = f.files })

    apply-IsFine : (c : Call) (h : History) → IsFine h → IsFine (apply c h)
    unfolding apply
    apply-IsFine (seal p) h f = record {
      valid = Step-IsVault L (Lifecycle.seal p h.world) f.valid;
      kept = seal-Kept L r p h.vault h.world f.valid f.kept;
      files = f.files;
    }
    apply-IsFine (add p) h f = record {
      valid = Step-IsVault L (Lifecycle.add p h.world) f.valid;
      kept = add-Kept L r p h.vault h.world f.valid f.kept;
      files = f.files;
    }
    apply-IsFine (revoke idx) h f = record {
      valid = Step-IsVault L (Lifecycle.revoke idx) f.valid;
      kept = revoke-Kept L r idx h.vault f.valid f.kept;
      files = f.files;
    }
    apply-IsFine rotate h f = record {
      valid = Step-IsVault L (Lifecycle.rotate h.world) f.valid;
      kept = rotate-Kept L r h.vault h.world;
      files = f.files;
    }
    apply-IsFine persist h f = record {
      valid = f.valid;
      kept = f.kept;
      files = persist-IsFile h.vault h.files f.valid f.kept f.files;
    }
    apply-IsFine (load i p) h f =
        opened-IsFine (get_elem? h.files i) p h f (λ x e. All-get_elem? _ h.files i f.files e)

    apply_all-IsFine : (cs : List Call) (h : History) → IsFine h → IsFine (apply_all cs h)
    unfolding apply_all
    apply_all-IsFine [] h f = f
    apply_all-IsFine (c ∷ cs) h f = apply_all-IsFine cs (apply c h) (apply-IsFine c h f)

    -- With lawful primitives and a robust AES-256-GCM: from a vault that satisfies the invariant and
    -- has no slot table, by any sequence of calls of `seal_slots`, `add_slot`, `revoke_slot` and
    -- `rotate_master`, of writing the table to a file, and of `open_from_slots` on any of the files
    -- that were written, also under a master key that was rotated since, failed calls included: if
    -- the vault then has a slot table, there is a passphrase with which every other vault opens from
    -- the bytes and the salt of that table, with the same master key, and verifies. (Bytes that come
    -- from elsewhere are not opened in between.)
    pub always_reopens :
        (cs : List Call) (v : AegisVault) (w : World) (t : KeySlotTable)
        → IsVault v
        → v.slots ≡ none
        → (vault_after cs v w).slots ≡ some t
        → (p : Bytes) × ((other : AegisVault) (w2 : World)
            → (v' : AegisVault) × (u : World) × (open_from_slots
                  (to_bytes t)
                  t.header_salt
                  p
                  other
                  w2
                ≡ (ok tt, v', u))
              × (expose v'.master ≡ expose (vault_after cs v w).master)
              × (verify_volume v' ≡ ok true))
    always_reopens cs v w t i none_yet e =
        let start : History = record { vault = v; files = []; world = w } in
        let f =
          apply_all-IsFine cs start (record { valid = i; kept = rw none_yet tt; files = tt }) in
        let last = (apply_all cs start).vault in
        let (us, h, pos) = subst (KeptBy (expose last.master)) e f.kept in
        let (j, p, at) = active_pos us pos in
        let (n, _, o) = Held-Opens (expose last.master) L us t j p h at in
        (
          p,
          λ other w2.
              let (v', u, o2, x, _, _, _, checked) = reopen L last other t p n w2 f.valid e o in
              (v', u, o2, x, checked),
        )
