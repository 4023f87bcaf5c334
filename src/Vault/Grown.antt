-- ===== src/Vault/Grown.antt =====
-- What `open_from_slots` and `add_slot` of src/lib.rs make of a table with known users.
use aegis_keys_with_soteria.Prelude.{
  ℕ, ◌≡◌, refl, sym, ap, ◌∙◌, some, [], ◌∷◌, ==_iff, get_elem?, get_elem?-lt,
}
use aegis_keys_with_soteria.Errors.{Result, ok}
use aegis_keys_with_soteria.Errors.Effects.{World}
use aegis_keys_with_soteria.Primitives.{Bytes, Primitives, IsLawful, IsRobust}
use aegis_keys_with_soteria.AegisKey.{expose}
use aegis_keys_with_soteria.Table.{KeySlotTable}
use aegis_keys_with_soteria.Table.Grow.{IsTable}
use aegis_keys_with_soteria.Table.Access.{get_elem?-append_lt}
use aegis_keys_with_soteria.Table.Held.{Held}
use aegis_keys_with_soteria.Table.Refinement.{perform, perform-Follows, Held-Binds}
use aegis_keys_with_soteria.Codec.{to_bytes}
use aegis_keys_with_soteria.Codec.RoundTrip.{from_bytes-to_bytes}
use aegis_keys_with_soteria.Vault.{AegisVault, add_slot, open_from_slots}
use aegis_keys_with_soteria.Vault.Keys.{IsVault}
use aegis_keys_with_soteria.Vault.Persist.{
  IsTable-IsEncodable, Opening, opened, failed, panicked, open_from_slots-Opening,
}
use aegis_keys_with_soteria.Users
use aegis_keys_with_soteria.Users.{Users, Allows, Request}

-- The users of the first list have their slots in the second.
abbrev pub Extends : Users → Users → Type 0
Extends us us' =
    (i : ℕ) (p : Bytes) → get_elem? us i ≡ some (some p) → get_elem? us' i ≡ some (some p)

Allows-add-Extends :
    {Refused : Bytes → Type 0} {us us' : Users} {p : Bytes} {r : Result ℕ}
    → Allows Refused us (Users.add p) r us'
    → Extends us us'
Allows-add-Extends {us} (Users.added p room) i q e =
    get_elem?-append_lt us (some p ∷ []) i (get_elem?-lt us i e) ∙ e
Allows-add-Extends (Users.full p _) i q e = e
Allows-add-Extends (Users.not_derived p _ _) i q e = e

module _ ⦃P : Primitives⦄ (L : IsLawful P) where
  -- A vault with this master key and this table.
  pub record Is (master : Bytes) (t : KeySlotTable) (v : AegisVault) : Type 0 where
    pub valid : IsVault v
    pub slots : v.slots ≡ some t
    pub same : expose v.master ≡ master

  pub open_from_slots-Is :
      (master : Bytes) (us : Users) (t : KeySlotTable) (pass : Bytes) (v : AegisVault) (w : World)
      → IsTable master t
      → Held master us t.slots
      → (open_from_slots (to_bytes t) t.header_salt pass v w).0 ≡ ok tt
      → Is master t (open_from_slots (to_bytes t) t.header_salt pass v w).1
  open_from_slots-Is master us t pass v w table held =
      go (open_from_slots-Opening L (to_bytes t) t.header_salt pass v w)
    where
      go :
          {o : Result (Unit {0}) × AegisVault × World}
          → Opening (to_bytes t) t.header_salt pass v o
          → o.0 ≡ ok tt
          → Is master t o.1
      go (opened {v'} t' x i e) h =
          let parsed = from_bytes-to_bytes L t (IsTable-IsEncodable L master t table) in
          let same_table : t' ≡ t = cc (parsed, x.parsed) in
          let at : get_elem? t.slots x.index ≡ some x.opened.slot =
            ap (λ (y : KeySlotTable). get_elem? y.slots x.index) (sym same_table)
            ∙ x.opened.slot_at in
          let same : expose v'.master ≡ master =
            Held-Binds master L t held x.index x.opened.slot pass (expose v'.master) at
              x.opened.enabled x.opened.opens in
          record {
            valid = record {
              master_length = x.raw_len;
              hierarchy_derived = i;
              slots_for = rw (e, same_table, same) table;
            };
            slots = e ∙ ap some same_table;
            same = same;
          }
      go (failed x) h = cc
      go panicked h = cc

  pub add_slot-grows :
      IsRobust P.aes_256_gcm
      → (v : AegisVault) (t : KeySlotTable) (us : Users) (newp : Bytes) (w : World) → IsVault v
      → v.slots ≡ some t
      → Held (expose v.master) us t.slots
      → (t' : KeySlotTable) × (us' : Users) × ((add_slot newp v w).1.slots ≡ some t')
        × Held (expose (add_slot newp v w).1.master) us' t'.slots
        × Extends us us'
  unfolding add_slot perform
  add_slot-grows r v t us newp w i e h =
      let (us', allowed, h') =
        perform-Follows (expose v.master) us t w h L r (Users.add newp) i.master_length in
      rw ((==_iff _ _).1 i.master_length, e, add_slot)
        (_, us', refl, h', Allows-add-Extends allowed)
