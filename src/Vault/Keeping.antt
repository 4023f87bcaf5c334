-- ===== src/Vault/Keeping.antt =====
-- The users of the table of a vault of src/lib.rs, after each of its calls.
use aegis_keys_with_soteria.Prelude.{
  ℕ, suc, ◌≤◌, Option, none, some, inl, inr, [], ◌∷◌, arith, ==_iff, Option-cases,
}
use mathlib.Core.Path.{subst}
use aegis_keys_with_soteria.Errors.Effects.{World}
use aegis_keys_with_soteria.Primitives.{Bytes, Primitives, IsLawful, IsRobust}
use aegis_keys_with_soteria.AegisKey.{expose}
use aegis_keys_with_soteria.Table.{KeySlotTable, new_initial}
use aegis_keys_with_soteria.Table.Grow.{create_cases}
use aegis_keys_with_soteria.Table.Held.{Held, nobody, next, IsFor-IsHeld}
use aegis_keys_with_soteria.Table.Refinement.{perform, perform-Follows}
use aegis_keys_with_soteria.Table.Runs.{Allows-active}
use aegis_keys_with_soteria.Vault.{AegisVault, seal_slots, add_slot, revoke_slot, rotate_master}
use aegis_keys_with_soteria.Vault.Keys.{IsVault, rotate_master_total}
use aegis_keys_with_soteria.Users
use aegis_keys_with_soteria.Users.{Users, active}

module _ ⦃P : Primitives⦄ where
  abbrev pub KeptBy : Bytes → Option KeySlotTable → Type 0
  KeptBy master none = Unit
  KeptBy master (some t) = (us : Users) × Held master us t.slots × (1 ≤ active us)

  -- If the vault has a table, it holds its users, one of them active.
  abbrev pub Kept : AegisVault → Type 0
  Kept v = KeptBy (expose v.master) v.slots

  module _ (L : IsLawful P) (r : IsRobust P.aes_256_gcm) where
    pub seal-Kept :
        (p : Bytes) (v : AegisVault) (w : World) → IsVault v → Kept v → Kept (seal_slots p v w).1
    unfolding seal_slots new_initial active
    seal-Kept p v w i k =
        rw ((==_iff _ _).1 i.master_length)
          (elim (create_cases L (expose v.master) p i.master_length (suc w)) [
            | inl (s, u, e, f) ↦ rw e (
              some p ∷ [],
              next (some p) s (IsFor-IsHeld (expose v.master) r p s f) nobody,
              omega arith,
            )
            | inr (u, e) ↦ rw e k
          ])

    pub add-Kept :
        (p : Bytes) (v : AegisVault) (w : World) → IsVault v → Kept v → Kept (add_slot p v w).1
    unfolding add_slot perform
    add-Kept p v w i k = elim (Option-cases v.slots) [
      | inl e ↦ rw ((==_iff _ _).1 i.master_length, e, add_slot) (seal-Kept p v w i k)
      | inr (t, e) ↦
          let (us, h, pos) = subst (KeptBy (expose v.master)) e k in
          let (us', allowed, h') =
            perform-Follows (expose v.master) us t w h L r (Users.add p) i.master_length in
          rw ((==_iff _ _).1 i.master_length, e, add_slot) (us', h', Allows-active allowed pos)
    ]

    pub revoke-Kept : (idx : ℕ) (v : AegisVault) → IsVault v → Kept v → Kept (revoke_slot idx v).1
    unfolding revoke_slot perform
    revoke-Kept idx v i k = elim (Option-cases v.slots) [
      | inl e ↦ rw (e, revoke_slot) (rw e tt)
      | inr (t, e) ↦
          let (us, h, pos) = subst (KeptBy (expose v.master)) e k in
          let (us', allowed, h') =
            perform-Follows (expose v.master) us t 0 h L r (Users.revoke idx) i.master_length in
          rw (e, revoke_slot) (us', h', Allows-active allowed pos)
    ]

    pub rotate-Kept : (v : AegisVault) (w : World) → Kept (rotate_master v w).1
    rotate-Kept v w = let (v', u, e, _, s, _) = rotate_master_total L v w in rw (e, s) tt
