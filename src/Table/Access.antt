-- ===== src/Table/Access.antt =====
-- How adding and revoking slots changes who can open a table.
use aegis_keys_with_soteria.Prelude.{
  ℕ, zero, suc, ◌≤◌, ◌<◌, ◌≡◌, ◌≢◌, refl, sym, ap, ◌∙◌, true, some, List, [], ◌∷◌, ◌++◌, arith,
  length, get_elem?, get_elem?-lt, set, leb, Bool-cases, ◌⊎◌, inl, inr,
}
use mathlib.Core.Path.{subst}
use native.Mathlib.Decide.{dec_lt, ℕ_discrete}
use aegis_keys_with_soteria.Errors.{Result, ok, err, panic}
use aegis_keys_with_soteria.Errors.Effects.{World}
use aegis_keys_with_soteria.Primitives.{Bytes, Primitives, IsLawful}
use aegis_keys_with_soteria.AegisKey.{AegisKey, expose}
use aegis_keys_with_soteria.Slots.{KeySlot, is_enabled, create}
use aegis_keys_with_soteria.Slots.Wrap.{Accepts, opening}
use aegis_keys_with_soteria.Table.{KeySlotTable, revoked, revoke_slot, add_slot, push_created}
use aegis_keys_with_soteria.Table.Revoke.{
  Revokes, out_of_range, last_enabled, already, changed, revoke_slot-Revocation,
}
use aegis_keys_with_soteria.Table.Unseal.{Search, found, missing, FirstOpen, unseal_with-first}
use aegis_keys_with_soteria.Table.Grow.{add_slot_total}
use aegis_keys_with_soteria.Table.Opens.{Opens, FirstOpen-Opens, Opens-FirstOpen}

pub get_elem?-append_lt :
    {A : Type 0} (xs ys : List A) (i : ℕ) → i < length xs → get_elem? (xs ++ ys) i ≡ get_elem? xs i
get_elem?-append_lt [] ys i h = absurd (omega arith)
get_elem?-append_lt (x ∷ xs) ys zero h = refl
get_elem?-append_lt (x ∷ xs) ys (suc i) h = get_elem?-append_lt xs ys i (omega arith)

get_elem?-append_last :
    {A : Type 0} (xs : List A) (y : A) → get_elem? (xs ++ y ∷ []) (length xs) ≡ some y
get_elem?-append_last [] y = refl
get_elem?-append_last (x ∷ xs) y = get_elem?-append_last xs y

module _ ⦃P : Primitives⦄ where
  -- Every enabled slot that opens at all opens to the master key.
  abbrev pub Binds : Bytes → KeySlotTable → Type 0
  Binds master t =
      (j : ℕ) (s : KeySlot) (passphrase m : Bytes)
      → get_elem? t.slots j ≡ some s
      → is_enabled s ≡ true
      → opening s passphrase ≡ ok m
      → m ≡ master

  module _ (L : IsLawful P) where
    FirstOpen-append :
        (slots : List KeySlot) (s : KeySlot) (passphrase : Bytes) (n : ℕ) (m : Bytes)
        → FirstOpen slots passphrase n m
        → FirstOpen (slots ++ s ∷ []) passphrase n m
    FirstOpen-append slots s passphrase n m f =
        let lt = get_elem?-lt slots n f.slot_at in
        record {
          slot = f.slot;
          slot_at = get_elem?-append_lt slots (s ∷ []) n lt ∙ f.slot_at;
          enabled = f.enabled;
          opens = f.opens;
          first = λ j x y jn at.
              f.first j x y jn (sym (get_elem?-append_lt slots (s ∷ []) j (omega arith)) ∙ at);
        }

    -- A slot that opens makes the search succeed, at its index or before.
    pub Search-of_slot :
        {slots : List KeySlot} {passphrase : Bytes} {o : Result (ℕ × AegisKey) × World} (n : ℕ)
        (s : KeySlot) (m : Bytes)
        → get_elem? slots n ≡ some s
        → is_enabled s ≡ true
        → opening s passphrase ≡ ok m
        → Search 0 slots passphrase o
        → (i : ℕ) × (x : Bytes) × (i ≤ n) × FirstOpen slots passphrase i x
    Search-of_slot n s m at on op (found j i k e g) = elim (dec_lt n i) [
      | yes lt ↦ absurd (g.first n s m lt at on op)
      | no le ↦ (i, expose k, omega arith, g)
    ]
    Search-of_slot n s m at on op (missing h) = absurd (h n s m at on op)

    -- Behind slots that hold the master key, a slot that a passphrase opens to it gives access.
    pub append_access :
        (master passphrase : Bytes) (t : KeySlotTable) (s : KeySlot)
        → Binds master t
        → is_enabled s ≡ true
        → opening s passphrase ≡ ok master
        → (n : ℕ) × (n ≤ length t.slots)
          × Opens (record t { slots = t.slots ++ s ∷ [] }) passphrase n master
    append_access master passphrase t s bound on opens =
        let t' : KeySlotTable = record t { slots = t.slots ++ s ∷ [] } in
        let last = get_elem?-append_last t.slots s in
        let (n, x, le, f) =
          Search-of_slot (length t.slots) s master last on opens
            (unseal_with-first L t' passphrase 0) in
        let same : x ≡ master = elim (dec_lt n (length t.slots)) [
          | yes lt ↦
              bound n f.slot passphrase x
                (sym (get_elem?-append_lt t.slots (s ∷ []) n lt) ∙ f.slot_at) f.enabled f.opens
          | no ge ↦
              let at_end : n ≡ length t.slots = omega arith in
              let slots_same = sym f.slot_at ∙ ap (λ i. get_elem? t'.slots i) at_end ∙ last in
              cc (f.opens, opens, slots_same)
        ] in
        (
          n,
          le,
          FirstOpen-Opens L t' passphrase n master (subst (FirstOpen t'.slots passphrase n) same f),
        )

    -- With lawful primitives: in a table whose enabled slots all hold the 32-byte master key,
    -- with room for one more, and for a passphrase that Argon2 takes: adding a slot succeeds, and
    -- the new passphrase then opens the table to the master key, at the new slot or an earlier
    -- one.
    pub add_slot_access :
        (master passphrase : Bytes) (t : KeySlotTable) (w : World)
        → length master ≡ 32
        → Accepts passphrase 64 3
        → Binds master t
        → length t.slots < 16
        → (t' : KeySlotTable) × (v : World) × (n : ℕ) × (add_slot master passphrase t w
            ≡ (ok (length t.slots), t', v))
          × (n ≤ length t.slots)
          × Opens t' passphrase n master
    add_slot_access master passphrase t w l a bound room =
        let (s, v, e, new) = add_slot_total L master passphrase l t w a room in
        let (n, le, o) = append_access master passphrase t s bound new.enabled new.opens in
        (record t { slots = t.slots ++ s ∷ [] }, v, n, e, le, o)

    push_created-cases :
        (o : Result KeySlot × World) (t : KeySlotTable)
        → let t' = (push_created o t).1 in
          (t ≡ t') ⊎ ((s : KeySlot) × (record t { slots = t.slots ++ s ∷ [] } ≡ t'))
    unfolding push_created
    push_created-cases (ok s, v) t = inr (s, refl)
    push_created-cases (err e, v) t = inl refl
    push_created-cases (panic, v) t = inl refl

    -- The table after the call is the old one, or the old one with a slot behind the others.
    add_slot_cases :
        (master passphrase : Bytes) (t : KeySlotTable) (w : World)
        → let t' = (add_slot master passphrase t w).1 in
          (t ≡ t') ⊎ ((s : KeySlot) × (record t { slots = t.slots ++ s ∷ [] } ≡ t'))
    unfolding add_slot
    add_slot_cases master passphrase t w = elim (Bool-cases (leb 16 (length t.slots))) [
      | inl full ↦ rw (full, add_slot) (inl refl)
      | inr room ↦ rw (room, add_slot) (push_created-cases (create master passphrase 64 3 w) t)
    ]

    -- With lawful primitives: adding a slot takes nothing away, whether or not it succeeds: a
    -- passphrase that opened the table opens it after the call, at the same index and to the same
    -- key.
    pub add_slot_keeps_access :
        (master passphrase : Bytes) (t : KeySlotTable) (w : World) (p m : Bytes) (n : ℕ)
        → Opens t p n m
        → Opens (add_slot master passphrase t w).1 p n m
    add_slot_keeps_access master passphrase t w p m n o =
        elim (add_slot_cases master passphrase t w) [
          | inl same ↦ subst (λ x. Opens x p n m) same o
          | inr (s, same) ↦
              subst (λ x. Opens x p n m) same
                (FirstOpen-Opens L _ p n m
                  (FirstOpen-append t.slots s p n m (Opens-FirstOpen L t p n m o)))
        ]

    FirstOpen-Revokes :
        (idx : ℕ) (t t' : KeySlotTable) (passphrase : Bytes) (n : ℕ) (m : Bytes)
        → Revokes idx t t'
        → idx ≢ n
        → FirstOpen t.slots passphrase n m
        → FirstOpen t'.slots passphrase n m
    FirstOpen-Revokes idx t t' passphrase n m r ne f = record {
      slot = f.slot;
      slot_at = r.others n ne ∙ f.slot_at;
      enabled = f.enabled;
      opens = f.opens;
      first = λ j x y lt at on. elim (ℕ_discrete idx j) [
        | yes e ↦ absurd (off j x at on e)
        | no apart ↦ f.first j x y lt (sym (r.others j apart) ∙ at) on
      ];
    }
      where
        off : (j : ℕ) (x : KeySlot) → get_elem? t'.slots j ≡ some x → is_enabled x ≡ true → idx ≢ j
        off j x at on e =
            let here = sym r.slot_at ∙ ap (λ i. get_elem? t'.slots i) e ∙ at in
            cc (here, r.disabled, on)

    -- With lawful primitives: after a successful revocation of a slot, no passphrase opens the
    -- table at its index.
    pub revoke_slot_closes :
        (idx : ℕ) (t t' : KeySlotTable) (p m : Bytes) (n : ℕ)
        → revoke_slot idx t ≡ (ok tt, t')
        → Opens t' p n m
        → idx ≢ n
    revoke_slot_closes idx t t' p m n done o here =
        let f = Opens-FirstOpen L t' p n m o in
        let slot_here = ap (λ i. get_elem? t'.slots i) here ∙ f.slot_at in
        elim (revoke_slot-Revocation idx t) [
          | out_of_range _ h ↦ ground arith
          | last_enabled _ _ _ _ h ↦ ground arith
          | already s at off h ↦
              let same : t ≡ t' = ground arith in
              let slots_same = sym at ∙ ap (λ x. get_elem? x.slots idx) same ∙ slot_here in
              cc (slots_same, off, f.enabled)
          | changed s at on more h r ↦
              let same : record t { slots = set t.slots idx (revoked s) } ≡ t' = ground arith in
              let r' = subst (Revokes idx t) same r in
              let slots_same = sym r'.slot_at ∙ slot_here in cc (slots_same, r'.disabled, f.enabled)
        ]

    -- With lawful primitives: a revocation, successful or not, takes no other access away: every
    -- passphrase that opened the table at another index still does, there and to the same key.
    pub revoke_slot_keeps_access :
        (idx : ℕ) (t : KeySlotTable) (p m : Bytes) (n : ℕ)
        → idx ≢ n
        → Opens t p n m
        → Opens (revoke_slot idx t).1 p n m
    revoke_slot_keeps_access idx t p m n ne o = elim (revoke_slot-Revocation idx t) [
      | out_of_range _ h ↦ rw h o
      | last_enabled _ _ _ _ h ↦ rw h o
      | already _ _ _ h ↦ rw h o
      | changed s at on more h r ↦ rw h (
          FirstOpen-Opens L _ p n m
            (FirstOpen-Revokes idx t _ p n m r ne (Opens-FirstOpen L t p n m o)))
    ]
