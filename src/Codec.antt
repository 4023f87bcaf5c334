-- ===== src/Codec.antt =====
-- src/slots.rs, the `SOTK` format: `slice_at`, `to_bytes` and `from_bytes`.
pub mod Numbers
pub mod Slot
pub mod Layout
pub mod Parse
pub mod Outcome
pub mod RoundTrip
pub mod Canonical
use aegis_keys_with_soteria.Prelude.{
  ℕ, zero, suc, ◌+◌, ◌-◌, ◌*◌, ◌/◌, ◌%◌, Bool, not, true, false, ◌&&◌, none, some, List, [], ◌∷◌,
  ◌++◌, ltb, ◌==◌, if◌then◌else◌, length, get_elem?, take, drop,
}
use aegis_keys_with_soteria.Errors.{
  Result, ok, err, panic, guard, header_integrity, serialization, ◌>>=◌, ◌>>◌,
}
use aegis_keys_with_soteria.Primitives.{Bytes, Primitives}
use aegis_keys_with_soteria.Slots.{KeySlot, header_magic, header_version, slot_nonce_len, ct_len}
use aegis_keys_with_soteria.Table.{KeySlotTable}

-- `to_le_bytes` of an integer of so many bytes, and `from_le_bytes`.
unfoldable pub to_le_bytes : ℕ → ℕ → Bytes
to_le_bytes zero x = []
to_le_bytes (suc n) x = (x % 256) ∷ to_le_bytes n (x / 256)

unfoldable pub from_le_bytes : Bytes → ℕ
from_le_bytes [] = 0
from_le_bytes (b ∷ bytes) = b + 256 * from_le_bytes bytes

-- `==` of byte slices.
unfoldable pub bytes_eq : Bytes → Bytes → Bool
bytes_eq [] [] = true
bytes_eq (a ∷ xs) (b ∷ ys) = a == b && bytes_eq xs ys
bytes_eq _ _ = false

-- The slice and the position behind it. Positions stay far below 2^64, so `*p + n` does not wrap.
unfoldable pub slice_at : Bytes → ℕ → ℕ → Result (Bytes × ℕ)
slice_at buf p n =
    if ltb (length buf) (p + n) then err serialization else ok (take n (drop p buf), p + n)

-- `slice_at(..)?.try_into().map_err(..)?` into an array of length `n`.
unfoldable pub array_at : Bytes → ℕ → ℕ → Result (Bytes × ℕ)
unfolding slice_at
array_at buf p n = do (s, q) ← slice_at buf p n; guard (length s == n) serialization; ok (s, q)

-- `body[pos]` panics out of bounds.
unfoldable pub index_at : Bytes → ℕ → Result ℕ
index_at buf p = elim (get_elem? buf p) [ none ↦ panic | some b ↦ ok b ]

-- The body of the loop of `from_bytes`: a slot at a position, and the position behind it.
unfoldable pub parse_slot : Bytes → ℕ → Result (KeySlot × ℕ)
parse_slot body pos = do
  (slot_id, p1) ← array_at body pos 16
  kdf_id ← index_at body p1
  (m_cost, p2) ← array_at body (p1 + 1) 4
  (t_cost, p3) ← array_at body p2 4
  (salt, p4) ← array_at body p3 16
  (nonce, p5) ← array_at body p4 slot_nonce_len
  (ct, p6) ← array_at body p5 ct_len
  flags ← index_at body p6
  (created_at, p7) ← array_at body (p6 + 1) 8
  ok (
    record {
      slot_id = slot_id;
      kdf_id = kdf_id;
      m_cost = from_le_bytes m_cost;
      t_cost = from_le_bytes t_cost;
      salt = salt;
      nonce = nonce;
      ct = ct;
      flags = flags;
      created_at = from_le_bytes created_at;
    },
    p7,
  )

-- `for _ in 0..slot_count`, with the slots read so far.
unfoldable pub parse_slots : ℕ → Bytes → ℕ → List KeySlot → Result (List KeySlot × ℕ)
parse_slots zero body pos slots = ok (slots, pos)
parse_slots (suc n) body pos slots =
    parse_slot body pos >>= λ (s, p). parse_slots n body p (slots ++ s ∷ [])

-- From the version on: the header is read, then the slots, then the verifier.
unfoldable pub parse_body : Bytes → Bytes → Result KeySlotTable
parse_body body header_salt = do
  version ← index_at body 4
  guard (version == header_version) serialization
  slot_count ← index_at body 5
  (slots, pos) ← parse_slots slot_count body 6 []
  (verifier, _) ← array_at body pos 32
  ok (record { header_salt = header_salt; slots = slots; verifier = verifier })

unfoldable pub encode_slot : KeySlot → Bytes
encode_slot s =
    s.slot_id
    ++ (s.kdf_id
        ∷ (to_le_bytes 4 s.m_cost
            ++ (to_le_bytes 4 s.t_cost
                ++ (s.salt ++ (s.nonce ++ (s.ct ++ (s.flags ∷ to_le_bytes 8 s.created_at)))))))

unfoldable pub encode_slots : List KeySlot → Bytes
encode_slots [] = []
encode_slots (s ∷ slots) = encode_slot s ++ encode_slots slots

-- What the MAC covers.
unfoldable pub encode_body : KeySlotTable → Bytes
encode_body t =
    header_magic ++ (header_version ∷ (length t.slots % 256) ∷ (encode_slots t.slots ++ t.verifier))

module _ ⦃P : Primitives⦄ where
  unfoldable pub to_bytes : KeySlotTable → Bytes
  to_bytes t = let body = encode_body t in body ++ P.keyed_hash t.header_salt body

  unfoldable pub from_bytes : Bytes → Bytes → Result KeySlotTable
  from_bytes input header_salt =
      if ltb (length input) (5 + 32)
      then err serialization
      else let split = length input - 32 in
        let body = take split input in
        let mac = drop split input in
        if not (P.ct_eq_slice (P.keyed_hash header_salt body) mac)
        then err header_integrity
        else if not (bytes_eq (take 4 body) header_magic)
        then err serialization
        else parse_body body header_salt
