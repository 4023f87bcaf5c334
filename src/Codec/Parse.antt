-- ===== src/Codec/Parse.antt =====
-- The loop over the slots, and the outcome of `from_bytes` on every input.
use aegis_keys_with_soteria.Prelude.{
  ℕ, zero, suc, ◌+◌, ◌-◌, ◌*◌, ◌%◌, ◌≤◌, ◌<◌, ◌≡◌, refl, ap, ◌||◌, List, [], ◌∷◌, ◌++◌, arith,
  length, take, drop, ◌==◌, if◌then◌else◌, append-nil, append_assoc,
}
use native.Mathlib.Decide.{dec_lt}
use aegis_keys_with_soteria.Errors.{Result, ok, err, panic, serialization}
use aegis_keys_with_soteria.Primitives.{Bytes}
use aegis_keys_with_soteria.Slots.{KeySlot}
use aegis_keys_with_soteria.Table.{KeySlotTable}
use aegis_keys_with_soteria.Codec.{parse_slots, parse_body}
use aegis_keys_with_soteria.Codec.Slot.{
  nth, slot_at, parse_slot_long, parse_slot_short, array_at_long, array_at_short, index_at_long,
  index_at_short,
}

-- The slots whose bytes start at a position.
unfoldable pub slots_at : ℕ → Bytes → ℕ → List KeySlot
slots_at zero body pos = []
slots_at (suc n) body pos = slot_at body pos ∷ slots_at n body (pos + 110)

pub length-slots_at : (n : ℕ) (body : Bytes) (pos : ℕ) → length (slots_at n body pos) ≡ n
unfolding slots_at
length-slots_at zero body pos = refl
length-slots_at (suc n) body pos = ap suc (length-slots_at n body (pos + 110))

parse_slots_long :
    (n : ℕ) (body : Bytes) (pos : ℕ) (slots : List KeySlot)
    → pos + 110 * n ≤ length body
    → parse_slots n body pos slots ≡ ok (slots ++ slots_at n body pos, pos + 110 * n)
unfolding parse_slots slots_at
parse_slots_long zero body pos slots h =
    let none_read : pos + 0 ≡ pos = omega arith in rw (append-nil, none_read)
parse_slots_long (suc n) body pos slots h =
    let behind : pos + 110 + 110 * n ≡ pos + 110 * suc n = omega arith in
    rw
      (
        parse_slot_long body pos (omega arith),
        parse_slots_long n body (pos + 110) (slots ++ slot_at body pos ∷ []) (omega arith),
        append_assoc,
      )
      (ap (λ p. ok (slots ++ slot_at body pos ∷ slots_at n body (pos + 110), p)) behind)

-- What a table that is cut short in its slots gives, from the bytes that are left for them.
abbrev pub cut {ℓ} : {A : Type ℓ} → ℕ → Result A
cut left = if left % 110 == 16 || left % 110 == 101 then panic else err serialization

parse_slots_short :
    (n : ℕ) (body : Bytes) (pos : ℕ) (slots : List KeySlot)
    → pos ≤ length body
    → length body < pos + 110 * n
    → parse_slots n body pos slots ≡ cut (length body - pos)
unfolding parse_slots
parse_slots_short zero body pos slots p h = absurd (omega arith)
parse_slots_short (suc n) body pos slots p h = elim (dec_lt (length body) (pos + 110)) [
  | yes short ↦ rw (parse_slot_short body pos p short) (ground arith)
  | no long ↦
      let same : (length body - (pos + 110)) % 110 ≡ (length body - pos) % 110 = omega arith in
      rw (
        parse_slot_long body pos (omega arith),
        parse_slots_short n body (pos + 110) (slots ++ slot_at body pos ∷ []) (omega arith)
            (omega arith),
        same,
      )
]

-- The table whose bytes are this body.
unfoldable pub table_at : Bytes → Bytes → KeySlotTable
table_at body header_salt =
    let n = nth body 5 in
    record {
      header_salt = header_salt;
      slots = slots_at n body 6;
      verifier = take 32 (drop (6 + 110 * n) body);
    }

-- How far the slots and the verifier of a body reach.
abbrev pub slots_end : Bytes → ℕ
slots_end body = 6 + 110 * nth body 5

pub parse_body_panic :
    (body salt : Bytes) → nth body 4 ≡ 1 → length body ≡ 5 → parse_body body salt ≡ panic
unfolding parse_body
parse_body_panic body salt v l = ground (arith, index_at_long body 4, index_at_short body 5)

module _ (body salt : Bytes) (v : nth body 4 ≡ 1) (l : 6 ≤ length body) where
  pub parse_body-ok :
      slots_end body + 32 ≤ length body → parse_body body salt ≡ ok (table_at body salt)
  unfolding parse_body table_at
  parse_body-ok h = rw (
    index_at_long body 4 (omega arith),
    v,
    index_at_long body 5 (omega arith),
    parse_slots_long (nth body 5) body 6 [] (omega arith),
    array_at_long body (slots_end body) 32 h,
  )

  pub parse_body-no_verifier :
      slots_end body ≤ length body
      → length body < slots_end body + 32
      → parse_body body salt ≡ err serialization
  unfolding parse_body
  parse_body-no_verifier h k = rw (
    index_at_long body 4 (omega arith),
    v,
    index_at_long body 5 (omega arith),
    parse_slots_long (nth body 5) body 6 [] h,
    array_at_short body (slots_end body) 32 k,
  )

  pub parse_body-cut : length body < slots_end body → parse_body body salt ≡ cut (length body - 6)
  unfolding parse_body
  parse_body-cut h =
      rw
        (
          index_at_long body 4 (omega arith),
          v,
          index_at_long body 5 (omega arith),
          parse_slots_short (nth body 5) body 6 [] l h,
        )
        (ground arith)
