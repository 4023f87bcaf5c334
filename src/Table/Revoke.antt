-- ===== src/Table/Revoke.antt =====
-- `KeySlotTable::revoke_slot` of src/slots.rs: how a call can end.
use aegis_keys_with_soteria.Prelude.{
  ℕ, zero, suc, ◌≤◌, ◌≡◌, ◌≢◌, refl, true, false, some, List, [], ◌∷◌, arith, length, get_elem?,
  set, replicate, bit_and, get_elem?-lt, get_elem?-some, ◌⊎◌, get_elem?-set_self, get_elem?-set_ne,
  length-set, length-replicate, Bool-cases, inl, inr,
}
use native.Mathlib.Decide.{dec_lt}
use aegis_keys_with_soteria.Prelude.Bits.{bit_and-one, bit_and_even, bit_and-le}
use aegis_keys_with_soteria.Errors.{Result, ok, err, slot_unseal, last_slot_revocation}
use aegis_keys_with_soteria.Slots.{KeySlot, is_enabled}
use aegis_keys_with_soteria.Slots.Wrap.{IsSlot}
use aegis_keys_with_soteria.Table.{KeySlotTable, count_enabled, enabled_count, revoked, revoke_slot}

pub is_enabled-revoked : (s : KeySlot) → is_enabled (revoked s) ≡ false
unfolding revoked is_enabled
is_enabled-revoked s =
    ground (arith, bit_and-one (bit_and s.flags 0b1111_1110), bit_and_even s.flags)

count_enabled-set :
    (slots : List KeySlot) (i : ℕ) (s v : KeySlot)
    → get_elem? slots i ≡ some s
    → is_enabled s ≡ true
    → is_enabled v ≡ false
    → suc (count_enabled (set slots i v)) ≡ count_enabled slots
unfolding count_enabled
count_enabled-set [] i s v at on off = cc
count_enabled-set (x ∷ slots) zero s v at on off = ground arith
count_enabled-set (x ∷ slots) (suc i) s v at on off =
    ground (arith, count_enabled-set slots i s v at on off)

-- What a successful revocation of an enabled slot leaves.
pub record Revokes (idx : ℕ) (t t' : KeySlotTable) : Type 0 where
  pub slot : KeySlot
  pub slot_at : get_elem? t'.slots idx ≡ some slot
  pub disabled : is_enabled slot ≡ false
  pub wiped : slot.ct ≡ replicate 48 0
  pub others : (j : ℕ) → idx ≢ j → get_elem? t'.slots j ≡ get_elem? t.slots j
  pub same_length : length t'.slots ≡ length t.slots
  pub one_less : suc (enabled_count t') ≡ enabled_count t
  pub same_salt : t'.header_salt ≡ t.header_salt
  pub same_verifier : t'.verifier ≡ t.verifier

revoke_slot-Revokes :
    (idx : ℕ) (t : KeySlotTable) (s : KeySlot)
    → get_elem? t.slots idx ≡ some s
    → is_enabled s ≡ true
    → 2 ≤ enabled_count t
    → let t' : KeySlotTable = record t { slots = set t.slots idx (revoked s) } in
      (revoke_slot idx t ≡ (ok tt, t')) × Revokes idx t t'
unfolding revoke_slot
revoke_slot-Revokes idx t s at on more =
    let lt = get_elem?-lt t.slots idx at in
    (
      ground arith,
      record {
        slot = revoked s;
        slot_at = get_elem?-set_self t.slots idx (revoked s) lt;
        disabled = is_enabled-revoked s;
        wiped = unfold revoked in refl;
        others = λ j ne. get_elem?-set_ne t.slots idx j (revoked s) ne;
        same_length = length-set t.slots idx (revoked s);
        one_less = count_enabled-set t.slots idx s (revoked s) at on (is_enabled-revoked s);
        same_salt = refl;
        same_verifier = refl;
      },
    )

revoke_slot_unchanged :
    (idx : ℕ) (t : KeySlotTable)
    → (length t.slots ≤ idx → revoke_slot idx t ≡ (err slot_unseal, t))
      × ((s : KeySlot)
          → get_elem? t.slots idx ≡ some s
          → is_enabled s ≡ false
          → revoke_slot idx t ≡ (ok tt, t))
      × ((s : KeySlot)
          → get_elem? t.slots idx ≡ some s
          → is_enabled s ≡ true
          → enabled_count t ≤ 1
          → revoke_slot idx t ≡ (err last_slot_revocation, t))
unfolding revoke_slot
revoke_slot_unchanged idx t = (
  λ out. ground arith,
  λ s at off. let lt = get_elem?-lt t.slots idx at in ground arith,
  λ s at on one. let lt = get_elem?-lt t.slots idx at in ground arith,
)

pub revoked-IsSlot : (s : KeySlot) → IsSlot s → IsSlot (revoked s)
unfolding revoked
revoked-IsSlot s h = record {
  slot_id_len = h.slot_id_len;
  salt_len = h.salt_len;
  nonce_len = h.nonce_len;
  ct_len = length-replicate {A = ℕ} 48 0;
  kdf_id_lt = h.kdf_id_lt;
  m_cost_lt = h.m_cost_lt;
  t_cost_lt = h.t_cost_lt;
  flags_lt = omega (arith, bit_and-le s.flags 0b1111_1110);
  created_at_lt = h.created_at_lt;
}

-- How a call can end: refused for one of two reasons, with nothing to do, or with a slot revoked.
pub data Revocation (idx : ℕ) (t : KeySlotTable) (r : Result (Unit {0}) × KeySlotTable)
    : Type 0 where
  out_of_range : length t.slots ≤ idx → r ≡ (err slot_unseal, t) → Revocation idx t r
  last_enabled :
      (s : KeySlot)
      → get_elem? t.slots idx ≡ some s
      → is_enabled s ≡ true
      → enabled_count t ≤ 1
      → r ≡ (err last_slot_revocation, t)
      → Revocation idx t r
  already :
      (s : KeySlot)
      → get_elem? t.slots idx ≡ some s
      → is_enabled s ≡ false
      → r ≡ (ok tt, t)
      → Revocation idx t r
  changed :
      (s : KeySlot)
      → get_elem? t.slots idx ≡ some s
      → is_enabled s ≡ true
      → 2 ≤ enabled_count t
      → r ≡ (ok tt, record t { slots = set t.slots idx (revoked s) })
      → Revokes idx t (record t { slots = set t.slots idx (revoked s) })
      → Revocation idx t r

-- An index is out of range or has a slot.
get_elem?-cases :
    {A : Type 0} (xs : List A) (i : ℕ) → (length xs ≤ i) ⊎ ((a : A) × (get_elem? xs i ≡ some a))
get_elem?-cases xs i = elim (dec_lt i (length xs)) [
  | yes lt ↦ inr (get_elem?-some xs i lt)
  | no le ↦ inl (omega arith)
]

-- Every call of `revoke_slot` ends in one of four ways. An index out of range is `SlotUnseal`, the
-- last enabled slot is `LastSlotRevocation`, and a slot that is already disabled is a success; these
-- three leave the table as it was. With two enabled slots or more, an enabled one is revoked: it is
-- disabled and its ciphertext is zero, every other slot, the salt and the verifier stay, and one
-- slot fewer is enabled.
pub revoke_slot-Revocation : (idx : ℕ) (t : KeySlotTable) → Revocation idx t (revoke_slot idx t)
revoke_slot-Revocation idx t = elim (get_elem?-cases t.slots idx) [
  | inl out ↦ out_of_range out ((revoke_slot_unchanged idx t).0 out)
  | inr (s, at) ↦ elim (Bool-cases (is_enabled s)) [
    | inr off ↦ already s at off ((revoke_slot_unchanged idx t).1 s at off)
    | inl on ↦ elim (dec_lt 1 (enabled_count t)) [
      | no few ↦
          last_enabled s at on (omega arith) ((revoke_slot_unchanged idx t).2 s at on (omega arith))
      | yes more ↦ let (e, r) = revoke_slot-Revokes idx t s at on more in changed s at on more e r
    ]
  ]
]
