-- ===== src/Table/Refinement.antt =====
-- `add_slot` and `revoke_slot` of src/slots.rs against the specification of a table.
use aegis_keys_with_soteria.Prelude.{
  ℕ, suc, none, ◌≤◌, ◌≡◌, ap, ◌∙◌, true, false, none, some, inl, inr, [], ◌∷◌, ◌++◌, arith, length,
  get_elem?, set,
}
use native.Mathlib.Decide.{dec_lt}
use mathlib.Core.Path.{subst}
use aegis_keys_with_soteria.Errors.{Result, result_map}
use aegis_keys_with_soteria.Errors.Effects.{World, Method}
use aegis_keys_with_soteria.Kdf.{derived}
use aegis_keys_with_soteria.Slots.Wrap.{create_result}
use aegis_keys_with_soteria.Primitives.{Bytes, Primitives, IsLawful, IsRobust}
use aegis_keys_with_soteria.Slots.{KeySlot, is_enabled}
use aegis_keys_with_soteria.Table.{KeySlotTable, revoked, revoke_slot, add_slot}
use aegis_keys_with_soteria.Table.Revoke.{
  out_of_range, last_enabled, already, changed, revoke_slot-Revocation, is_enabled-revoked,
}
use aegis_keys_with_soteria.Table.Unseal.{FirstOpen, unseal_with-first}
use aegis_keys_with_soteria.Table.Grow.{added, add_refused, add_slot_full, IsFor}
use aegis_keys_with_soteria.Table.Opens.{Opens, FirstOpen-Opens}
use aegis_keys_with_soteria.Table.Access.{Binds, Search-of_slot}
use aegis_keys_with_soteria.Table.Held.{
  Held, HeldBy, Held-length, active-eq-count_enabled, Held-get_elem?, Held-slot, HeldBy-disabled,
  HeldBy-enabled, Held-append, Held-set, IsFor-IsHeld,
}
use aegis_keys_with_soteria.Users
use aegis_keys_with_soteria.Users.{Users, Request, add, revoke, Allows}

module _ ⦃P : Primitives⦄ (master : Bytes) where
  -- A request as a call of the table; the answer to a revocation is its index.
  unfoldable pub perform : Request → Method KeySlotTable ℕ
  perform (add p) t w = add_slot master p t w
  perform (revoke i) t w = let (r, t') = revoke_slot i t in (result_map (λ _. i) r, t', w)

  -- For some salt of 16 bytes, Argon2 derives no slot key from the passphrase.
  abbrev pub MayRefuse : Bytes → Type 0
  MayRefuse p = (salt : Bytes) × (length salt ≡ 16) × (derived p salt 64 3 ≡ none)

  -- Some users after this answer are allowed by the specification, and held by the table after it.
  abbrev pub Follows : Users → Request → Result ℕ × KeySlotTable × World → Type 0
  Follows us q o = (us' : Users) × Allows MayRefuse us q o.0 us' × Held master us' o.1.slots

  module _ (us : Users) (t : KeySlotTable) (w : World) (h : Held master us t.slots) where
    disabled_user :
        (i : ℕ) (s : KeySlot)
        → get_elem? t.slots i ≡ some s
        → is_enabled s ≡ false
        → get_elem? us i ≡ some none
    disabled_user i s at off =
        let (u, g, b) = Held-slot master i s h at in g ∙ ap some (HeldBy-disabled master u s b off)

    enabled_user :
        (i : ℕ) (s : KeySlot)
        → get_elem? t.slots i ≡ some s
        → is_enabled s ≡ true
        → (p : Bytes) × (get_elem? us i ≡ some (some p))
    enabled_user i s at on =
        let (u, g, b) = Held-slot master i s h at in
        let (p, e) = HeldBy-enabled master u s b on in (p, g ∙ ap some e)

    perform-revoke-Follows : (i : ℕ) → Follows us (revoke i) (perform (revoke i) t w)
    unfolding perform
    perform-revoke-Follows i =
        let same = Held-length master h in
        let count = active-eq-count_enabled master h in
        elim (revoke_slot-Revocation i t) [
          | out_of_range out e ↦ rw e (us, Users.missing i (omega arith), h)
          | last_enabled s at on few e ↦
              let (p, g) = enabled_user i s at on in
              rw e (us, Users.last_one i p g (omega arith), h)
          | already s at off e ↦ rw e (us, Users.gone i (disabled_user i s at off), h)
          | changed s at on more e r ↦
              let (p, g) = enabled_user i s at on in
              rw e (
                set us i none,
                Users.removed i p g (omega arith),
                Held-set master i none (revoked s) h (is_enabled-revoked s),
              )
        ]

    perform-add-Follows :
        IsLawful P
        → IsRobust P.aes_256_gcm
        → (p : Bytes) → length master ≡ 32
        → Follows us (add p) (perform (add p) t w)
    unfolding perform
    perform-add-Follows L r p l =
        let same = Held-length master h in
        elim (dec_lt (length t.slots) 16) [
          | no full ↦
              rw (add_slot_full master p t w (omega arith)) (us, Users.full p (omega arith), h)
          | yes room ↦ elim (create_result L master p 64 3 l w (omega arith) (omega arith)) [
            | inr (none_derived, e) ↦ rw (add_refused L master p l t w room (suc w) e) (
              us,
              Users.not_derived p (P.fill_bytes w 16, L.fill_bytes-length w 16, none_derived)
                  (omega arith),
              h,
            )
            | inl (s, v, e, o, on, i, c) ↦
                let f : IsFor master p s = record {
                  opens = o;
                  enabled = on;
                  well_formed = i;
                  sealed = c;
                } in
                rw (added L master p l t s v room w e, ← same)
                  (
                    us ++ some p ∷ [],
                    Users.added p (omega arith),
                    Held-append master (some p) s h (IsFor-IsHeld master r p s f),
                  )
          ]
        ]

    -- With lawful primitives and a robust AES-256-GCM, and for a 32-byte master key: on a table
    -- that holds its users, each call of `add_slot` and `revoke_slot` returns an answer that the
    -- specification allows, where Argon2 may refuse a passphrase only if for some salt of 16 bytes it
    -- derives no
    -- slot key from it; and the table after it holds the users that the specification gives.
    pub perform-Follows :
        IsLawful P
        → IsRobust P.aes_256_gcm
        → (q : Request) → length master ≡ 32
        → Follows us q (perform q t w)
    perform-Follows L r (add p) l = perform-add-Follows L r p l
    perform-Follows L r (revoke i) l = perform-revoke-Follows i

  -- Every user opens the table.
  module _ (L : IsLawful P) where
    pub Held-Binds : {us : Users} (t : KeySlotTable) → Held master us t.slots → Binds master t
    Held-Binds t h j s p m at on o =
        let (u, g, b) = Held-slot master j s h at in
        let (q, e) = HeldBy-enabled master u s b on in
        (subst (λ x. HeldBy master x s) e b).binds p m o

    -- With lawful primitives: in a table that holds its users, the passphrase of every user that is
    -- not revoked opens the table to the master key, at the slot of the user or an earlier one.
    pub Held-Opens :
        (us : Users) (t : KeySlotTable) (i : ℕ) (p : Bytes)
        → Held master us t.slots
        → get_elem? us i ≡ some (some p)
        → (n : ℕ) × (n ≤ i) × Opens t p n master
    Held-Opens us t i p h g =
        let (s, at, b) = Held-get_elem? master i (some p) h g in
        let (n, x, le, f) =
          Search-of_slot L i s master at b.enabled b.opens (unseal_with-first L t p 0) in
        let same : x ≡ master = Held-Binds t h n f.slot p x f.slot_at f.enabled f.opens in
        (n, le, FirstOpen-Opens L t p n master (subst (FirstOpen t.slots p n) same f))
