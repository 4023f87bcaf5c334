-- ===== src/Codec/RoundTrip.antt =====
-- `from_bytes` after `to_bytes` of src/slots.rs.
use aegis_keys_with_soteria.Prelude.{
  ℕ, ◌+◌, ◌-◌, ◌*◌, ◌≤◌, ◌≡◌, refl, ap, ap₂, sym, ◌∙◌, List, [], ◌∷◌, ◌++◌, arith, length, take,
  drop, length-append, append_assoc, append-nil, All,
}
use aegis_keys_with_soteria.Prelude.Slices.{take-append_self, drop-append_self, drop-step}
use aegis_keys_with_soteria.Errors.{ok}
use aegis_keys_with_soteria.Primitives.{Bytes, Primitives, IsLawful}
use aegis_keys_with_soteria.Slots.{KeySlot}
use aegis_keys_with_soteria.Slots.Wrap.{IsSlot}
use aegis_keys_with_soteria.Table.{KeySlotTable}
use aegis_keys_with_soteria.Codec.{encode_slot, encode_slots, encode_body, to_bytes, from_bytes}
use aegis_keys_with_soteria.Codec.Slot.{nth}
use aegis_keys_with_soteria.Codec.Layout.{length-encode_slot, slot_at-encode_slot}
use aegis_keys_with_soteria.Codec.Parse.{slots_at, table_at}
use aegis_keys_with_soteria.Codec.Outcome.{body_of, mac_of, from_bytes-ok_iff}

-- The arrays have their lengths, the integers their ranges, and the slots fit the count byte.
pub record IsEncodable (t : KeySlotTable) : Type 0 where
  pub salt_len : length t.header_salt ≡ 32
  pub all_slots : All IsSlot t.slots
  pub fits : length t.slots ≤ 255
  pub verifier_len : length t.verifier ≡ 32

length-encode_slots :
    (slots : List KeySlot) → All IsSlot slots → length (encode_slots slots) ≡ 110 * length slots
unfolding encode_slots
length-encode_slots [] h = refl
length-encode_slots (s ∷ slots) h = omega (
  arith,
  length-append (encode_slot s) (encode_slots slots),
  length-encode_slot s h.0,
  length-encode_slots slots h.1,
)

slots_at-encode_slots :
    (body : Bytes) (pos : ℕ) (slots : List KeySlot) (r : Bytes)
    → All IsSlot slots
    → drop pos body ≡ encode_slots slots ++ r
    → slots_at (length slots) body pos ≡ slots
unfolding slots_at encode_slots
slots_at-encode_slots body pos [] r h at = refl
slots_at-encode_slots body pos (s ∷ slots) r h at =
    let here = at ∙ append_assoc (encode_slot s) (encode_slots slots) r in
    let (_, rest) =
      drop-step pos 110 body (encode_slot s) (encode_slots slots ++ r) here
        (length-encode_slot s h.0) in
    ap₂ ◌∷◌ (slot_at-encode_slot body pos s (encode_slots slots ++ r) h.0 here)
      (slots_at-encode_slots body (pos + 110) slots r h.1 rest)

pub length-encode_body :
    (t : KeySlotTable) → IsEncodable t → length (encode_body t) ≡ 6 + 110 * length t.slots + 32
unfolding encode_body
length-encode_body t h = omega (
  arith,
  length-append (encode_slots t.slots) t.verifier,
  length-encode_slots t.slots h.all_slots,
  h.verifier_len,
)

-- The count byte, and the fields behind it.
nth-encode_body : (t : KeySlotTable) → IsEncodable t → nth (encode_body t) 5 ≡ length t.slots
unfolding encode_body nth
nth-encode_body t h = omega (arith, h.fits)

table_at-encode_body :
    (t : KeySlotTable) → IsEncodable t → table_at (encode_body t) t.header_salt ≡ t
unfolding table_at
table_at-encode_body t h =
    let count = nth-encode_body t h in
    let behind : drop 6 (encode_body t) ≡ encode_slots t.slots ++ t.verifier =
      unfold encode_body in refl in
    let slots = slots_at-encode_slots (encode_body t) 6 t.slots t.verifier h.all_slots behind in
    let (_, tail) =
      drop-step 6 (110 * length t.slots) (encode_body t) (encode_slots t.slots) t.verifier behind
        (length-encode_slots t.slots h.all_slots) in
    let (verifier, _) =
      drop-step (6 + 110 * length t.slots) 32 (encode_body t) t.verifier []
        (tail ∙ sym (append-nil t.verifier)) h.verifier_len in
    rw (count, slots, verifier)

module _ ⦃P : Primitives⦄ (L : IsLawful P) where
  split_bytes :
      (body mac : Bytes)
      → length mac ≡ 32
      → (body_of (body ++ mac) ≡ body) × (mac_of (body ++ mac) ≡ mac)
  split_bytes body mac l =
      let split : length (body ++ mac) - 32 ≡ length body = omega (arith, length-append body mac) in
      (rw split (take-append_self body mac), rw split (drop-append_self body mac))

  -- With lawful primitives: a table that is well-formed for the format is read back from its
  -- bytes as it was.
  pub from_bytes-to_bytes :
      (t : KeySlotTable) → IsEncodable t → from_bytes (to_bytes t) t.header_salt ≡ ok t
  unfolding to_bytes
  from_bytes-to_bytes t h =
      let body = encode_body t in
      let mac = P.keyed_hash t.header_salt body in
      let mac_len = L.keyed_hash-length t.header_salt body h.salt_len in
      let (eb, em) = split_bytes body mac mac_len in
      let size = length-encode_body t h in
      let count = nth-encode_body t h in
      (from_bytes-ok_iff L (to_bytes t) t.header_salt t).1 (
        record {
          long = omega (arith, length-append body mac);
          mac = ap (P.keyed_hash t.header_salt) eb ∙ sym em;
          magic = ap (take 4) eb ∙ (unfold encode_body in refl);
          version = ap (λ b. nth b 4) eb ∙ (unfold encode_body nth in refl);
        },
        rw eb (omega arith),
        sym (ap (λ b. table_at b t.header_salt) eb ∙ table_at-encode_body t h),
      )
