-- ===== src/Table/Unseal.antt =====
-- `KeySlotTable::unseal_with` of src/slots.rs: the search over the slots.
use aegis_keys_with_soteria.Prelude.{
  ℕ, zero, suc, ◌+◌, ◌<◌, ◌≡◌, ◌≢◌, inl, inr, refl, sym, true, some, List, [], ◌∷◌, arith,
  get_elem?, Bool-cases,
}
use aegis_keys_with_soteria.Errors.{Result, ok, err, panic, no_slot_unsealed, result_map}
use aegis_keys_with_soteria.Errors.Effects.{World}
use aegis_keys_with_soteria.Primitives.{Bytes, Primitives, IsLawful}
use aegis_keys_with_soteria.AegisKey.{AegisKey, expose}
use aegis_keys_with_soteria.Slots.{KeySlot, unseal, is_enabled}
use aegis_keys_with_soteria.Slots.Wrap.{opening, unseal-opening, opening-ne-panic}
use aegis_keys_with_soteria.Table.{KeySlotTable, unseal_from, unseal_with}

module _ ⦃P : Primitives⦄ where
  -- No slot before `n` is enabled and opens to a key.
  abbrev pub Closed : List KeySlot → Bytes → ℕ → Type 0
  Closed slots passphrase n =
      (j : ℕ) (s : KeySlot) (m : Bytes)
      → j < n
      → get_elem? slots j ≡ some s
      → is_enabled s ≡ true
      → opening s passphrase ≢ ok m

  -- The slot at `n` is enabled and opens to these bytes, and no enabled slot before it opens.
  pub record FirstOpen (slots : List KeySlot) (passphrase : Bytes) (n : ℕ) (m : Bytes)
      : Type 0 where
    pub slot : KeySlot
    pub slot_at : get_elem? slots n ≡ some slot
    pub enabled : is_enabled slot ≡ true
    pub opens : opening slot passphrase ≡ ok m
    pub first : Closed slots passphrase n

  abbrev pub NoneOpen : List KeySlot → Bytes → Type 0
  NoneOpen slots passphrase =
      (j : ℕ) (s : KeySlot) (m : Bytes)
      → get_elem? slots j ≡ some s
      → is_enabled s ≡ true
      → opening s passphrase ≢ ok m

  -- How a search that starts at the index `i` ends.
  pub data Search (i : ℕ) (slots : List KeySlot) (passphrase : Bytes)
      : Result (ℕ × AegisKey) × World → Type 0 where
    found :
        {v : World} (j n : ℕ) (k : AegisKey)
        → j ≡ i + n
        → FirstOpen slots passphrase n (expose k)
        → Search i slots passphrase (ok (j, k), v)
    missing :
        {v : World}
        → NoneOpen slots passphrase
        → Search i slots passphrase (err no_slot_unsealed, v)

  module _ (s : KeySlot) (slots : List KeySlot) (passphrase : Bytes)
      (shut : (m : Bytes) → is_enabled s ≡ true → opening s passphrase ≢ ok m) where
    Closed-cons : (n : ℕ) → Closed slots passphrase n → Closed (s ∷ slots) passphrase (suc n)
    Closed-cons n h zero x m lt at on op = shut m (cc) (cc)
    Closed-cons n h (suc j) x m lt at on op = h j x m (omega arith) at on op

    NoneOpen-cons : NoneOpen slots passphrase → NoneOpen (s ∷ slots) passphrase
    NoneOpen-cons h zero x m at on op = shut m (cc) (cc)
    NoneOpen-cons h (suc j) x m at on op = h j x m at on op

    Search-skip :
        (i : ℕ) {o : Result (ℕ × AegisKey) × World}
        → Search (suc i) slots passphrase o
        → Search i (s ∷ slots) passphrase o
    Search-skip i (found j n k e f) = found j (suc n) k (omega arith) (record {
      slot = f.slot;
      slot_at = f.slot_at;
      enabled = f.enabled;
      opens = f.opens;
      first = Closed-cons n f.first;
    })
    Search-skip i (missing h) = missing (NoneOpen-cons h)

  -- The step at an enabled slot, from what `unseal` returned.
  after_unseal :
      (i : ℕ) (s : KeySlot) (slots : List KeySlot) (passphrase : Bytes)
      (o : Result AegisKey × World)
      → is_enabled s ≡ true
      → result_map expose o.0 ≡ opening s passphrase
      → Search (suc i) slots passphrase (unseal_from (suc i) slots passphrase o.1)
      → Search i (s ∷ slots) passphrase (elim o.0 [
        | ok m ↦ (ok (i, m), o.1)
        | err _ ↦ unseal_from (suc i) slots passphrase o.1
        | panic ↦ (panic, o.1)
      ])
  after_unseal i s slots passphrase (ok k, v) on e rest = found i 0 k (omega arith) (record {
    slot = s;
    slot_at = refl;
    enabled = on;
    opens = sym e;
    first = λ j x m lt. absurd (omega arith);
  })
  after_unseal i s slots passphrase (err x, v) on e rest =
      Search-skip s slots passphrase (λ m _ h. cc) i rest
  after_unseal i s slots passphrase (panic, v) on e rest =
      absurd (opening-ne-panic s passphrase (sym e))

  unseal_from-Search :
      IsLawful P
      → (i : ℕ) (slots : List KeySlot) (passphrase : Bytes) (w : World)
      → Search i slots passphrase (unseal_from i slots passphrase w)
  unfolding unseal_from
  unseal_from-Search L i [] passphrase w = missing (λ j s m at. cc)
  unseal_from-Search L i (s ∷ slots) passphrase w = elim (Bool-cases (is_enabled s)) [
    | inr off ↦
        rw (off, unseal_from)
          (Search-skip s slots passphrase (λ m on. cc) i
            (unseal_from-Search L (suc i) slots passphrase w))
    | inl on ↦
        rw (on, unseal_from)
          (after_unseal i s slots passphrase (unseal s passphrase w) on
            (unseal-opening L s passphrase w)
            (unseal_from-Search L (suc i) slots passphrase (unseal s passphrase w).1))
  ]

  -- With lawful primitives: trying a passphrase on a table returns the index of the first enabled
  -- slot that the passphrase opens, with the key that this slot holds; if no enabled slot opens,
  -- the result is `NoSlotUnsealed`. It never panics.
  pub unseal_with-first :
      IsLawful P
      → (t : KeySlotTable) (passphrase : Bytes) (w : World)
      → Search 0 t.slots passphrase (unseal_with passphrase t w)
  unfolding unseal_with
  unseal_with-first L t passphrase w = unseal_from-Search L 0 t.slots passphrase w
