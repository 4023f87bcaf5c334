-- ===== src/Table/Redaction.antt =====
-- The `Debug` texts of src/slots.rs, as the fields that they show.
use aegis_keys_with_soteria.Prelude.{ℕ, ◌≡◌, ◌↔◌, String, Bool, List, [], ◌∷◌, length}
use aegis_keys_with_soteria.Slots.{KeySlot, is_enabled}
use aegis_keys_with_soteria.Table.{KeySlotTable, enabled_count}

-- A value of a field: a fixed text, a number or a Boolean.
pub data Shown : Type 0 where
  text : String → Shown
  number : ℕ → Shown
  boolean : Bool → Shown

abbrev pub Fields : Type 0
Fields = List (String × Shown)

abbrev redacted : Shown
redacted = text "<redacted>"

unfoldable pub debug_slot : KeySlot → Fields
debug_slot s =
    ("slot_id", redacted)
    ∷ ("kdf_id", number s.kdf_id)
    ∷ ("m_cost", number s.m_cost)
    ∷ ("t_cost", number s.t_cost)
    ∷ ("enabled", boolean (is_enabled s))
    ∷ []

unfoldable pub debug_table : KeySlotTable → Fields
debug_table t =
    ("header_salt", redacted)
    ∷ ("verifier", redacted)
    ∷ ("slot_count", number (length t.slots))
    ∷ ("enabled_count", number (enabled_count t))
    ∷ []

-- What two slots and two tables share if their texts do not tell them apart.
abbrev pub LookAlike : KeySlot → KeySlot → Type 0
LookAlike s s' =
    (s.kdf_id ≡ s'.kdf_id)
    × (s.m_cost ≡ s'.m_cost)
    × (s.t_cost ≡ s'.t_cost)
    × (is_enabled s ≡ is_enabled s')

-- The `Debug` text of a slot tells two slots apart exactly by the KDF, its costs, and whether they
-- are enabled; that of a table tells two tables apart exactly by the numbers of their slots and of
-- their enabled slots. So neither shows anything of a salt, a nonce, a ciphertext, an id, a time or
-- a verifier.
pub debug_iff :
    (s s' : KeySlot) (t t' : KeySlotTable)
    → ((debug_slot s ≡ debug_slot s') ↔ LookAlike s s')
      × ((debug_table t ≡ debug_table t')
          ↔ ((length t.slots ≡ length t'.slots) × (enabled_count t ≡ enabled_count t')))
unfolding debug_slot debug_table
debug_iff s s' t t' = ((λ e. (cc, cc, cc, cc), λ (a, b, c, d). cc), (λ e. (cc, cc), λ (a, b). cc))
