-- ===== src/Codec/Outcome.antt =====
-- `from_bytes` of src/slots.rs on every input.
use aegis_keys_with_soteria.Prelude.{
  ◌+◌, ◌-◌, ◌%◌, ◌≤◌, ◌<◌, ◌≡◌, ◌≢◌, ◌↔◌, ◌⊎◌, inl, inr, refl, true, false, [], ◌∷◌, arith, length,
  take, drop, ltb, Bool-cases,
}
use native.Mathlib.Decide.{dec_lt, dec_le, ℕ_discrete}
use aegis_keys_with_soteria.Prelude.Slices.{length-take}
use aegis_keys_with_soteria.Errors.{
  AegisError, Result, ok, err, panic, serialization, header_integrity,
}
use aegis_keys_with_soteria.Primitives.{Bytes, Primitives, IsLawful}
use aegis_keys_with_soteria.Slots.{header_magic}
use aegis_keys_with_soteria.Table.{KeySlotTable}
use aegis_keys_with_soteria.Codec.{bytes_eq, parse_body, from_bytes}
use aegis_keys_with_soteria.Codec.Slot.{nth, index_at_long}
use aegis_keys_with_soteria.Codec.Parse.{
  cut, table_at, slots_end, parse_body_panic, parse_body-ok, parse_body-no_verifier, parse_body-cut,
}

pub bytes_eq_iff : (a b : Bytes) → (bytes_eq a b ≡ true) ↔ (a ≡ b)
unfolding bytes_eq
bytes_eq_iff [] [] = (λ h. refl, λ h. refl)
bytes_eq_iff [] (y ∷ b) = (λ h. cc, λ h. cc)
bytes_eq_iff (x ∷ a) [] = (λ h. cc, λ h. cc)
bytes_eq_iff (x ∷ a) (y ∷ b) = ground (arith, bytes_eq_iff a b)

-- The part that the MAC covers, and the MAC.
abbrev pub body_of : Bytes → Bytes
body_of input = take (length input - 32) input

abbrev pub mac_of : Bytes → Bytes
mac_of input = drop (length input - 32) input

-- How the body parses once the magic and the version are right.
data Parsed (body salt : Bytes) (r : Result KeySlotTable) : Type 0 where
  headless : length body ≡ 5 → r ≡ panic → Parsed body salt r
  whole :
      6 ≤ length body
      → slots_end body + 32 ≤ length body
      → r ≡ ok (table_at body salt)
      → Parsed body salt r
  no_verifier :
      6 ≤ length body
      → slots_end body ≤ length body
      → length body < slots_end body + 32
      → r ≡ err serialization
      → Parsed body salt r
  cut_off :
      6 ≤ length body
      → length body < slots_end body
      → r ≡ cut (length body - 6)
      → Parsed body salt r

parse_body-Parsed :
    (body salt : Bytes) → nth body 4 ≡ 1 → 5 ≤ length body → Parsed body salt (parse_body body salt)
parse_body-Parsed body salt v l = elim (dec_lt 5 (length body)) [
  | no short ↦ headless (omega arith) (parse_body_panic body salt v (omega arith))
  | yes more ↦ elim (dec_le (slots_end body + 32) (length body)) [
    | yes fits ↦ whole more fits (parse_body-ok body salt v more fits)
    | no over ↦ elim (dec_le (slots_end body) (length body)) [
      | yes fits ↦
          no_verifier more fits (omega arith)
            (parse_body-no_verifier body salt v more fits (omega arith))
      | no cut ↦ cut_off more (omega arith) (parse_body-cut body salt v more (omega arith))
    ]
  ]
]

-- A body that ends right before a byte which is read without a check: the slot count, or the
-- `kdf_id` or the `flags` of a slot.
abbrev pub EndsAtUncheckedByte : Bytes → Type 0
EndsAtUncheckedByte body =
    (length body ≡ 5)
    ⊎ ((length body < slots_end body)
        × (((length body - 6) % 110 ≡ 16) ⊎ ((length body - 6) % 110 ≡ 101)))

Parsed-panic_iff :
    (body salt : Bytes) {r : Result KeySlotTable}
    → Parsed body salt r
    → (r ≡ panic) ↔ EndsAtUncheckedByte body
Parsed-panic_iff body salt (headless l e) = (λ h. inl l, λ h. e)
Parsed-panic_iff body salt (whole m f e) = (λ h. cc, λ h. ground arith)
Parsed-panic_iff body salt (no_verifier m f k e) = (λ h. cc, λ h. ground arith)
Parsed-panic_iff body salt (cut_off m k e) = ground arith

Parsed-ok_iff :
    (body salt : Bytes) (t : KeySlotTable) {r : Result KeySlotTable}
    → Parsed body salt r
    → (r ≡ ok t) ↔ ((slots_end body + 32 ≤ length body) × (t ≡ table_at body salt))
Parsed-ok_iff body salt t (headless l e) = (λ h. cc, λ h. absurd (omega arith))
Parsed-ok_iff body salt t (whole m f e) = (λ h. (f, cc), λ h. cc)
Parsed-ok_iff body salt t (no_verifier m f k e) = (λ h. cc, λ h. absurd (omega arith))
Parsed-ok_iff body salt t (cut_off m k e) = ground arith

parse_body_version :
    (body salt : Bytes)
    → nth body 4 ≢ 1
    → 5 ≤ length body
    → parse_body body salt ≡ err serialization
unfolding parse_body
parse_body_version body salt v l = rw (index_at_long body 4 l) (ground arith)

module _ ⦃P : Primitives⦄ where
  -- The input ends in the MAC of its body under the salt, and the body begins with the magic and
  -- the version.
  pub record IsAuthentic (input salt : Bytes) : Type 0 where
    pub long : 37 ≤ length input
    pub mac : P.keyed_hash salt (body_of input) ≡ mac_of input
    pub magic : take 4 (body_of input) ≡ header_magic
    pub version : nth (body_of input) 4 ≡ 1

  data Checked (input salt : Bytes) (r : Result KeySlotTable) : Type 0 where
    authentic : IsAuthentic input salt → Parsed (body_of input) salt r → Checked input salt r
    refused : (e : AegisError) → r ≡ err e → ¬ (IsAuthentic input salt) → Checked input salt r

  module _ (L : IsLawful P) where
    length-body_of : (input : Bytes) → length (body_of input) ≡ length input - 32
    length-body_of input = omega (arith, length-take (length input - 32) input)

    from_bytes-Checked : (input salt : Bytes) → Checked input salt (from_bytes input salt)
    unfolding from_bytes
    from_bytes-Checked input salt = elim (Bool-cases (ltb (length input) 37)) [
      | inl short ↦ refused serialization (rw (short, from_bytes)) (λ a. ground (arith, a.long))
      | inr long ↦
          elim (Bool-cases (P.ct_eq_slice (P.keyed_hash salt (body_of input)) (mac_of input))) [
            | inr bad ↦
                refused header_integrity (rw (long, bad, from_bytes))
                  (λ a. ground (arith, (L.ct_eq_slice_iff _ _).1 a.mac))
            | inl good ↦ elim (Bool-cases (bytes_eq (take 4 (body_of input)) header_magic)) [
              | inr bad ↦
                  refused serialization (rw (long, good, bad, from_bytes))
                    (λ a. ground (arith, (bytes_eq_iff _ _).1 a.magic))
              | inl right ↦ elim (ℕ_discrete (nth (body_of input) 4) 1) [
                | no other ↦
                    refused serialization
                      (rw (long, good, right, from_bytes)
                        (parse_body_version (body_of input) salt other (enough long)))
                      (λ a. other a.version)
                | yes v ↦
                    authentic
                      (record {
                        long = ground arith;
                        mac = (L.ct_eq_slice_iff _ _).0 good;
                        magic = (bytes_eq_iff _ _).0 right;
                        version = v;
                      })
                      (rw (long, good, right, from_bytes)
                        (parse_body-Parsed (body_of input) salt v (enough long)))
              ]
            ]
          ]
    ]
      where
        enough : ltb (length input) 37 ≡ false → 5 ≤ length (body_of input)
        enough long = ground (arith, length-body_of input)

  Checked-panic_iff :
      (input salt : Bytes) {r : Result KeySlotTable}
      → Checked input salt r
      → (r ≡ panic) ↔ (IsAuthentic input salt × EndsAtUncheckedByte (body_of input))
  Checked-panic_iff input salt (authentic a p) =
      let (to, from) = Parsed-panic_iff (body_of input) salt p in (λ h. (a, to h), λ h. from h.1)
  Checked-panic_iff input salt (refused e h n) = (λ p. cc, λ p. absurd (n p.0))

  Checked-ok_iff :
      (input salt : Bytes) (t : KeySlotTable) {r : Result KeySlotTable}
      → Checked input salt r
      → (r ≡ ok t) ↔ (
          IsAuthentic input salt
          × (slots_end (body_of input) + 32 ≤ length (body_of input))
          × (t ≡ table_at (body_of input) salt))
  Checked-ok_iff input salt t (authentic a p) =
      let (to, from) = Parsed-ok_iff (body_of input) salt t p in
      (λ h. (a, (to h).0, (to h).1), λ h. from (h.1, h.2))
  Checked-ok_iff input salt t (refused e h n) = (λ p. cc, λ p. absurd (n p.0))

  -- With lawful primitives: for every input and salt, parsing panics exactly when the MAC, the
  -- magic and the version are right and the body ends right before a byte that is read without a
  -- check: the slot count, or the `kdf_id` or the `flags` of one of the announced slots.
  pub from_bytes-panic_iff :
      IsLawful P
      → (input salt : Bytes)
      → (from_bytes input salt ≡ panic)
        ↔ (IsAuthentic input salt × EndsAtUncheckedByte (body_of input))
  from_bytes-panic_iff L input salt = Checked-panic_iff input salt (from_bytes-Checked L input salt)

  -- With lawful primitives: for every input and salt, parsing returns a table exactly when the
  -- MAC, the magic and the version are right and the body has room for the announced slots and
  -- the verifier; the table is the one whose fields stand at their offsets, and bytes behind the
  -- verifier are ignored.
  pub from_bytes-ok_iff :
      IsLawful P
      → (input salt : Bytes) (t : KeySlotTable)
      → (from_bytes input salt ≡ ok t) ↔ (
          IsAuthentic input salt
          × (slots_end (body_of input) + 32 ≤ length (body_of input))
          × (t ≡ table_at (body_of input) salt))
  from_bytes-ok_iff L input salt t = Checked-ok_iff input salt t (from_bytes-Checked L input salt)
