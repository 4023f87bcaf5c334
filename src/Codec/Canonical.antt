-- ===== src/Codec/Canonical.antt =====
-- The bytes of an input, from the table that it parses to.
use aegis_keys_with_soteria.Prelude.{
  ℕ, zero, suc, ◌+◌, ◌-◌, ◌*◌, ◌%◌, ◌≤◌, ◌≡◌, refl, ap, ap₂, sym, ◌∙◌, ◌∷◌, ◌++◌, arith, length,
  take, drop, append_assoc, All, All-take,
}
use aegis_keys_with_soteria.Prelude.Slices.{take-append-drop, drop-drop}
use aegis_keys_with_soteria.Errors.{ok}
use aegis_keys_with_soteria.Primitives.{Bytes, IsByte, Primitives, IsLawful}
use aegis_keys_with_soteria.Slots.{header_magic}
use aegis_keys_with_soteria.Slots.Wrap.{IsSlot}
use aegis_keys_with_soteria.Table.{KeySlotTable}
use aegis_keys_with_soteria.Codec.{encode_slots, encode_body, from_bytes}
use aegis_keys_with_soteria.Codec.Slot.{nth}
use aegis_keys_with_soteria.Codec.Layout.{
  slot_at-IsSlot, encode_slot-slot_at, chunk, chunk-append, chunk-length, drop-at, nth-lt,
}
use aegis_keys_with_soteria.Codec.Parse.{slots_at, length-slots_at, table_at, slots_end}
use aegis_keys_with_soteria.Codec.Outcome.{body_of, from_bytes-ok_iff}
use aegis_keys_with_soteria.Codec.RoundTrip.{IsEncodable}

module _ (body : Bytes) (bytes : All IsByte body) where
  slots_at-IsSlot : (n pos : ℕ) → pos + 110 * n ≤ length body → All IsSlot (slots_at n body pos)
  unfolding slots_at
  slots_at-IsSlot zero pos h = tt
  slots_at-IsSlot (suc n) pos h =
      (slot_at-IsSlot body bytes pos (omega arith), slots_at-IsSlot n (pos + 110) (omega arith))

  encode_slots-slots_at :
      (n pos : ℕ)
      → pos + 110 * n ≤ length body
      → encode_slots (slots_at n body pos) ≡ chunk body pos (110 * n)
  unfolding slots_at encode_slots
  encode_slots-slots_at zero pos h = refl
  encode_slots-slots_at (suc n) pos h =
      let more : 110 + 110 * n ≡ 110 * suc n = omega arith in
      ap₂ ◌++◌ (encode_slot-slot_at body bytes pos (omega arith))
        (encode_slots-slots_at n (pos + 110) (omega arith))
      ∙ chunk-append body pos 110 (110 * n)
      ∙ ap (chunk body pos) more

  module _ (salt : Bytes) (fits : slots_end body + 32 ≤ length body) where
    table_at-IsEncodable : length salt ≡ 32 → IsEncodable (table_at body salt)
    unfolding table_at
    table_at-IsEncodable l = record {
      salt_len = l;
      all_slots = slots_at-IsSlot (nth body 5) 6 (omega arith);
      fits = omega (arith, length-slots_at (nth body 5) body 6, nth-lt body bytes 5 (omega arith));
      verifier_len = chunk-length body bytes (slots_end body) 32 fits;
    }

    -- The slots and the verifier, with what follows them, are all of the body behind its header.
    behind_header :
        encode_slots (slots_at (nth body 5) body 6)
          ++ (chunk body (slots_end body) 32 ++ drop (slots_end body + 32) body)
        ≡ drop 6 body
    behind_header =
        let n = 110 * nth body 5 in
        let tail : chunk body (slots_end body) 32 ++ drop (slots_end body + 32) body
            ≡ drop (slots_end body) body =
          ap (λ l. chunk body (slots_end body) 32 ++ l) (sym (drop-drop (slots_end body) 32 body))
          ∙ take-append-drop 32 (drop (slots_end body) body) in
        ap₂ ◌++◌ (encode_slots-slots_at (nth body 5) 6 (omega arith))
          (tail ∙ sym (drop-drop 6 n body))
        ∙ take-append-drop n (drop 6 body)

    encode_body-table_at :
        take 4 body ≡ header_magic
        → nth body 4 ≡ 1
        → encode_body (table_at body salt) ++ drop (slots_end body + 32) body ≡ body
    unfolding encode_body table_at
    encode_body-table_at magic version =
        let count : length (slots_at (nth body 5) body 6) % 256 ≡ nth body 5 =
          omega (arith, length-slots_at (nth body 5) body 6, nth-lt body bytes 5 (omega arith)) in
        let header : drop 4 body ≡ 1 ∷ nth body 5 ∷ drop 6 body =
          drop-at body 4 (omega arith) ∙ ap₂ ◌∷◌ version (drop-at body 5 (omega arith)) in
        let whole : header_magic ++ (1 ∷ nth body 5 ∷ drop 6 body) ≡ body =
          ap₂ ◌++◌ (sym magic) (sym header) ∙ take-append-drop 4 body in
        rw (count, append_assoc)
          (ap (λ l. header_magic ++ (1 ∷ nth body 5 ∷ l)) behind_header ∙ whole)

module _ ⦃P : Primitives⦄ where
  -- With lawful primitives: where parsing an input of bytes under a salt of 32 bytes returns a
  -- table, the table is well-formed for the format and has that salt, and the input is the
  -- encoding of the table, then bytes that are ignored, then the MAC of both under the salt.
  pub from_bytes_canonical :
      IsLawful P
      → (input salt : Bytes) (t : KeySlotTable) → All IsByte input
      → length salt ≡ 32
      → from_bytes input salt ≡ ok t
      → IsEncodable t
        × (t.header_salt ≡ salt)
        × ((ignored : Bytes) × (input
              ≡ (encode_body t ++ ignored) ++ P.keyed_hash salt (encode_body t ++ ignored)))
  from_bytes_canonical L input salt t bytes l h =
      let (a, fits, same) = (from_bytes-ok_iff L input salt t).0 h in
      let body = body_of input in
      let body_bytes = All-take IsByte (length input - 32) input bytes in
      let ignored = drop (slots_end body + 32) body in
      let encoded : encode_body t ++ ignored ≡ body =
        ap (λ x. encode_body x ++ ignored) same
        ∙ encode_body-table_at body body_bytes salt fits a.magic a.version in
      (
        rw same (table_at-IsEncodable body body_bytes salt fits l),
        ap (λ (x : KeySlotTable). x.header_salt) same ∙ (unfold table_at in refl),
        (ignored, sym (rw (encoded, a.mac) (take-append-drop (length input - 32) input))),
      )
