-- ===== src/Suite/Slots/Tables.antt =====
-- The tests of src/slots.rs on tables.
use aegis_keys_with_soteria.Prelude.{◌≡◌, ap, List, [], ◌∷◌, length, arith, get_elem?}
use aegis_keys_with_soteria.Errors.{ok}
use aegis_keys_with_soteria.Errors.Effects.{World}
use aegis_keys_with_soteria.Primitives.{Bytes, Primitives, IsLawful}
use aegis_keys_with_soteria.Slots.{KeySlot}
use aegis_keys_with_soteria.Slots.Wrap.{Accepts}
use aegis_keys_with_soteria.Table.{KeySlotTable, new_initial}
use aegis_keys_with_soteria.Table.Grow.{IsTable, IsFor, new_initial_total}
use aegis_keys_with_soteria.Table.Opens.{Opens, FirstOpen-Opens}

module _ ⦃P : Primitives⦄ (L : IsLawful P) where
  -- A new table with one slot, for its passphrase.
  pub record Alone (master p : Bytes) (w : World) : Type 0 where
    pub t : KeySlotTable
    pub slot : KeySlot
    pub after : World
    pub made : new_initial master p w ≡ (ok t, after)
    pub one : t.slots ≡ slot ∷ []
    pub holds : IsFor master p slot
    pub table : IsTable master t

  pub alone :
      (master p : Bytes) (w : World) → length master ≡ 32 → Accepts p 64 3 → Alone master p w
  alone master p w l a =
      let (t, u, s, e, one, f, h) = new_initial_total L master p l w a in
      record { t = t; slot = s; after = u; made = e; one = one; holds = f; table = h }

  -- The first slot opens with its own passphrase.
  pub first-Opens :
      (master p : Bytes) (t : KeySlotTable) (s : KeySlot) (rest : List KeySlot)
      → t.slots ≡ s ∷ rest
      → IsFor master p s
      → Opens t p 0 master
  first-Opens master p t s rest e f = FirstOpen-Opens L t p 0 master (record {
    slot = s;
    slot_at = ap (λ x. get_elem? x 0) e;
    enabled = f.enabled;
    opens = f.opens;
    first = λ j x m lt. absurd (omega arith);
  })
