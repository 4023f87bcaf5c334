-- ===== src/Codec/Slot.antt =====
-- One slot in the byte format: 110 bytes.
use aegis_keys_with_soteria.Prelude.{
  ℕ, ◌+◌, ◌-◌, ◌≤◌, ◌<◌, ◌≡◌, ◌||◌, arith, length, take, drop, get_elem?, ◌==◌, if◌then◌else◌,
  get_elem?-some, get_elem?-none,
}
use mathlib.Core.Option
use aegis_keys_with_soteria.Prelude.Slices.{length-take, length-drop}
use aegis_keys_with_soteria.Errors.{ok, err, panic, serialization}
use aegis_keys_with_soteria.Primitives.{Bytes}
use aegis_keys_with_soteria.Slots.{KeySlot}
use aegis_keys_with_soteria.Codec.{from_le_bytes, array_at, index_at, parse_slot}

unfoldable pub nth : Bytes → ℕ → ℕ
nth body p = Option.get_or (get_elem? body p) 0

module _ (body : Bytes) (p : ℕ) where
  pub array_at_long :
      (n : ℕ) → p + n ≤ length body → array_at body p n ≡ ok (take n (drop p body), p + n)
  unfolding array_at
  array_at_long n h = ground (arith, length-take n (drop p body), length-drop p body)

  pub array_at_short : (n : ℕ) → length body < p + n → array_at body p n ≡ err serialization
  unfolding array_at
  array_at_short n h = ground arith

  pub index_at_long : p < length body → index_at body p ≡ ok (nth body p)
  unfolding index_at nth
  index_at_long h = let (b, e) = get_elem?-some body p h in rw (e, nth, index_at)

  pub index_at_short : length body ≤ p → index_at body p ≡ panic
  unfolding index_at
  index_at_short h = rw (get_elem?-none body p h, index_at)

-- The slot whose bytes start at a position.
unfoldable pub slot_at : Bytes → ℕ → KeySlot
slot_at body pos =
    let p1 = pos + 16 in
    let p2 = p1 + 1 + 4 in
    let p3 = p2 + 4 in
    let p4 = p3 + 16 in
    let p5 = p4 + 12 in
    let p6 = p5 + 48 in
    record {
      slot_id = take 16 (drop pos body);
      kdf_id = nth body p1;
      m_cost = from_le_bytes (take 4 (drop (p1 + 1) body));
      t_cost = from_le_bytes (take 4 (drop p2 body));
      salt = take 16 (drop p3 body);
      nonce = take 12 (drop p4 body);
      ct = take 48 (drop p5 body);
      flags = nth body p6;
      created_at = from_le_bytes (take 8 (drop (p6 + 1) body));
    }

module _ (body : Bytes) (pos : ℕ) where
  pub parse_slot_long :
      pos + 110 ≤ length body → parse_slot body pos ≡ ok (slot_at body pos, pos + 110)
  unfolding parse_slot slot_at
  parse_slot_long h =
      let p1 = pos + 16 in
      let p2 = p1 + 1 + 4 in
      let p3 = p2 + 4 in
      let p4 = p3 + 16 in
      let p5 = p4 + 12 in
      let p6 = p5 + 48 in
      rw
        (
          array_at_long body pos 16 (omega arith),
          index_at_long body p1 (omega arith),
          array_at_long body (p1 + 1) 4 (omega arith),
          array_at_long body p2 4 (omega arith),
          array_at_long body p3 16 (omega arith),
          array_at_long body p4 12 (omega arith),
          array_at_long body p5 48 (omega arith),
          index_at_long body p6 (omega arith),
          array_at_long body (p6 + 1) 8 (omega arith),
        )
        (ground arith)

  -- A slot that is cut short is an error, or a panic where the cut stands right before one of the
  -- two bytes that are read with no check.
  pub parse_slot_short :
      pos ≤ length body
      → length body < pos + 110
      → let left = length body - pos in
        parse_slot body pos ≡ (if left == 16 || left == 101 then panic else err serialization)
  unfolding parse_slot
  parse_slot_short start h =
      let p1 = pos + 16 in
      let p2 = p1 + 1 + 4 in
      let p3 = p2 + 4 in
      let p4 = p3 + 16 in
      let p5 = p4 + 12 in
      let p6 = p5 + 48 in
      ground (
        arith,
        array_at_long body pos 16,
        array_at_short body pos 16,
        index_at_long body p1,
        index_at_short body p1,
        array_at_long body (p1 + 1) 4,
        array_at_short body (p1 + 1) 4,
        array_at_long body p2 4,
        array_at_short body p2 4,
        array_at_long body p3 16,
        array_at_short body p3 16,
        array_at_long body p4 12,
        array_at_short body p4 12,
        array_at_long body p5 48,
        array_at_short body p5 48,
        index_at_long body p6,
        index_at_short body p6,
        array_at_short body (p6 + 1) 8,
      )
