-- ===== src/Table/Opens.antt =====
-- What it means that a passphrase opens a table, and that it is what the first slot decides.
use aegis_keys_with_soteria.Prelude.{ℕ, ◌≡◌, sym, ap, ◌∙◌, some, List, arith, get_elem?}
use mathlib.Core.Path.{subst, subst₂}
use native.Mathlib.Decide.{dec_lt}
use aegis_keys_with_soteria.Errors.{Result, ok}
use aegis_keys_with_soteria.Errors.Effects.{World}
use aegis_keys_with_soteria.Primitives.{Bytes, Primitives, IsLawful}
use aegis_keys_with_soteria.AegisKey.{AegisKey, expose}
use aegis_keys_with_soteria.Slots.{KeySlot}
use aegis_keys_with_soteria.Table.{KeySlotTable, unseal_with}
use aegis_keys_with_soteria.Table.Unseal.{Search, found, missing, FirstOpen, unseal_with-first}

module _ ⦃P : Primitives⦄ where
  -- The passphrase opens the table at this index, to these bytes, wherever the system stands.
  abbrev pub Opens : KeySlotTable → Bytes → ℕ → Bytes → Type 0
  Opens t passphrase n m =
      (w : World)
      → (k : AegisKey) × (v : World) × (unseal_with passphrase t w ≡ (ok (n, k), v))
        × (expose k ≡ m)

  FirstOpen-unique :
      (slots : List KeySlot) (passphrase : Bytes) (n j : ℕ) (m x : Bytes)
      → FirstOpen slots passphrase n m
      → FirstOpen slots passphrase j x
      → (j ≡ n) × (x ≡ m)
  FirstOpen-unique slots passphrase n j m x f g = elim (dec_lt n j) [
    | yes lt ↦ absurd (g.first n f.slot m lt f.slot_at f.enabled f.opens)
    | no le ↦ elim (dec_lt j n) [
      | yes lt ↦ absurd (f.first j g.slot x lt g.slot_at g.enabled g.opens)
      | no ge ↦
          let same : j ≡ n = omega arith in
          let slots_same : some f.slot ≡ some g.slot =
            sym f.slot_at ∙ ap (λ i. get_elem? slots i) (sym same) ∙ g.slot_at in
          (same, cc (f.opens, g.opens, slots_same))
    ]
  ]

  Search-found :
      {slots : List KeySlot} {passphrase : Bytes} {n : ℕ} {m : Bytes}
      {o : Result (ℕ × AegisKey) × World}
      → FirstOpen slots passphrase n m
      → Search 0 slots passphrase o
      → (k : AegisKey) × (v : World) × (o ≡ (ok (n, k), v)) × (expose k ≡ m)
  Search-found {slots} {passphrase} {n} {m} f (found {v} j i k e g) =
      let (same, bytes) = FirstOpen-unique slots passphrase n i m (expose k) f g in
      (k, v, ground arith, bytes)
  Search-found {n = n} {m = m} f (missing h) = absurd (h n f.slot m f.slot_at f.enabled f.opens)

  pub Search-FirstOpen :
      {slots : List KeySlot} {passphrase : Bytes} {o : Result (ℕ × AegisKey) × World} (n : ℕ)
      (k : AegisKey) (v : World)
      → Search 0 slots passphrase o
      → o ≡ (ok (n, k), v)
      → FirstOpen slots passphrase n (expose k)
  Search-FirstOpen {slots} {passphrase} n k v (found j i key e g) p =
      let same_index : i ≡ n = ground arith in
      let same_key : key ≡ k = ground arith in
      subst₂ (λ a b. FirstOpen slots passphrase a (expose b)) same_index same_key g
  Search-FirstOpen n k v (missing h) p = ground arith

  module _ (L : IsLawful P) where
    pub FirstOpen-Opens :
        (t : KeySlotTable) (passphrase : Bytes) (n : ℕ) (m : Bytes)
        → FirstOpen t.slots passphrase n m
        → Opens t passphrase n m
    FirstOpen-Opens t passphrase n m f w = Search-found f (unseal_with-first L t passphrase w)

    pub Opens-FirstOpen :
        (t : KeySlotTable) (passphrase : Bytes) (n : ℕ) (m : Bytes)
        → Opens t passphrase n m
        → FirstOpen t.slots passphrase n m
    Opens-FirstOpen t passphrase n m o =
        let (k, v, e, x) = o 0 in
        subst (FirstOpen t.slots passphrase n) x
          (Search-FirstOpen n k v (unseal_with-first L t passphrase 0) e)
