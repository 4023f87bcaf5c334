-- ===== src/Table/Runs.antt =====
-- Sequences of `add_slot` and `revoke_slot` of src/slots.rs on a new table.
use aegis_keys_with_soteria.Prelude.{
  ℕ, zero, suc, ◌≤◌, ◌≡◌, refl, ap, none, some, List, [], ◌∷◌, ◌++◌, arith, length, get_elem?, set,
}
use aegis_keys_with_soteria.Errors.{Result, ok}
use aegis_keys_with_soteria.Errors.Effects.{World}
use aegis_keys_with_soteria.Primitives.{Bytes, Primitives, IsLawful, IsRobust}
use aegis_keys_with_soteria.Slots.Wrap.{Accepts}
use aegis_keys_with_soteria.Table.{KeySlotTable, new_initial}
use aegis_keys_with_soteria.Table.Grow.{new_initial_total}
use aegis_keys_with_soteria.Table.Opens.{Opens}
use aegis_keys_with_soteria.Table.Held.{Held, nobody, next, IsFor-IsHeld}
use aegis_keys_with_soteria.Table.Refinement.{perform, perform-Follows, Held-Opens}
use aegis_keys_with_soteria.Users.{
  Users, active, Request, Allows, added, full, not_derived, missing, gone, last_one, removed,
}

active-append : (us : Users) (p : Bytes) → active (us ++ some p ∷ []) ≡ suc (active us)
unfolding active
active-append [] p = refl
active-append (none ∷ us) p = active-append us p
active-append (some q ∷ us) p = ap suc (active-append us p)

active-set :
    (us : Users) (i : ℕ) (p : Bytes)
    → get_elem? us i ≡ some (some p)
    → suc (active (set us i none)) ≡ active us
unfolding active
active-set [] i p e = cc
active-set (none ∷ us) zero p e = cc
active-set (some q ∷ us) zero p e = refl
active-set (none ∷ us) (suc i) p e = active-set us i p e
active-set (some q ∷ us) (suc i) p e = ap suc (active-set us i p e)

pub active_pos :
    (us : Users) → 1 ≤ active us → (i : ℕ) × (p : Bytes) × (get_elem? us i ≡ some (some p))
unfolding active
active_pos [] h = absurd (omega arith)
active_pos (none ∷ us) h = let (i, p, e) = active_pos us h in (suc i, p, e)
active_pos (some p ∷ us) h = (0, p, refl)

-- The specification never leaves a table without an active user.
pub Allows-active :
    {Refused : Bytes → Type 0} {us us' : Users} {q : Request} {r : Result ℕ}
    → Allows Refused us q r us'
    → 1 ≤ active us
    → 1 ≤ active us'
Allows-active {us} (added p room) h = omega (arith, active-append us p)
Allows-active (full p _) h = h
Allows-active (not_derived p _ _) h = h
Allows-active (missing i _) h = h
Allows-active (gone i _) h = h
Allows-active (last_one i p _ _) h = h
Allows-active {us} (removed i p at more) h = omega (arith, active-set us i p at)

module _ ⦃P : Primitives⦄ (master : Bytes) where
  -- The table after these requests, whatever their answers.
  unfoldable pub perform_all : List Request → KeySlotTable → World → KeySlotTable × World
  perform_all [] t w = (t, w)
  perform_all (q ∷ qs) t w = let (_, t', w') = perform master q t w in perform_all qs t' w'

  module _ (L : IsLawful P) (r : IsRobust P.aes_256_gcm) (l : length master ≡ 32) where
    perform_all-Held :
        (qs : List Request) (us : Users) (t : KeySlotTable) (w : World)
        → Held master us t.slots
        → 1 ≤ active us
        → (us' : Users) × Held master us' (perform_all qs t w).0.slots × (1 ≤ active us')
    unfolding perform_all
    perform_all-Held [] us t w h a = (us, h, a)
    perform_all-Held (q ∷ qs) us t w h a =
        let (us1, allowed, h1) = perform-Follows master us t w h L r q l in
        perform_all-Held qs us1 _ _ h1 (Allows-active allowed a)

    -- With lawful primitives and a robust AES-256-GCM, for a 32-byte master key and a passphrase
    -- that Argon2 takes: a table can be made, and after any sequence of calls of `add_slot` and
    -- `revoke_slot` on it, failed ones included, there is a passphrase that opens it to the master
    -- key.
    pub never_locked_out :
        (passphrase : Bytes) (qs : List Request) (w : World)
        → Accepts passphrase 64 3
        → (t : KeySlotTable) × (v : World) × (new_initial master passphrase w ≡ (ok t, v))
          × ((p : Bytes) × (n : ℕ) × Opens (perform_all qs t v).0 p n master)
    unfolding active
    never_locked_out passphrase qs w a =
        let (t, v, s, e, one, f, _) = new_initial_total L master passphrase l w a in
        let held : Held master (some passphrase ∷ []) (s ∷ []) =
          next (some passphrase) s (IsFor-IsHeld master r passphrase s f) nobody in
        let h : Held master (some passphrase ∷ []) t.slots = rw one held in
        let (us, h', pos) = perform_all-Held qs (some passphrase ∷ []) t v h (omega arith) in
        let (i, p, at) = active_pos us pos in
        let (n, _, o) = Held-Opens master L us (perform_all qs t v).0 i p h' at in
        (t, v, e, (p, n, o))
