-- ===== src/Codec/Layout.antt =====
-- Encoding a slot and reading it back, both ways round.
use aegis_keys_with_soteria.Prelude.{
  ℕ, zero, suc, ◌+◌, ◌≤◌, ◌<◌, ◌^◌, ◌≡◌, refl, ap, sym, ◌∙◌, [], ◌∷◌, ◌++◌, arith, length, take,
  drop, append_assoc, length-append, All, All-take, All-drop, All-get_elem?,
}
use mathlib.Core.Option
use aegis_keys_with_soteria.Prelude.Slices.{
  length-take, length-drop, drop-step, get_elem?-drop, drop-drop, take-add,
}
use aegis_keys_with_soteria.Primitives.{Bytes, IsByte}
use aegis_keys_with_soteria.Slots.{KeySlot}
use aegis_keys_with_soteria.Slots.Wrap.{IsSlot}
use aegis_keys_with_soteria.Codec.{to_le_bytes, from_le_bytes, encode_slot}
use aegis_keys_with_soteria.Codec.Numbers.{
  length-to_le_bytes, from_le_bytes-to_le_bytes, to_le_bytes-from_le_bytes, from_le_bytes-lt,
}
use aegis_keys_with_soteria.Codec.Slot.{nth, slot_at}

-- What stands at a position, and what stands behind it.
pub nth-drop :
    (body : Bytes) (p x : ℕ) (r : Bytes)
    → drop p body ≡ x ∷ r
    → (nth body p ≡ x) × (drop (p + 1) body ≡ r)
unfolding nth
nth-drop body p x r h = (
  ap (λ o. Option.get_or o 0) (get_elem?-drop p body x r h),
  (drop-step p 1 body (x ∷ []) r h refl).1,
)

pub length-encode_slot : (s : KeySlot) → IsSlot s → length (encode_slot s) ≡ 110
unfolding encode_slot
length-encode_slot s h = omega (
  arith,
  length-append s.slot_id (
      s.kdf_id
      ∷ (to_le_bytes 4 s.m_cost
          ++ (to_le_bytes 4 s.t_cost
              ++ (s.salt ++ (s.nonce ++ (s.ct ++ (s.flags ∷ to_le_bytes 8 s.created_at))))))),
  length-append (to_le_bytes 4 s.m_cost) (
      to_le_bytes 4 s.t_cost
      ++ (s.salt ++ (s.nonce ++ (s.ct ++ (s.flags ∷ to_le_bytes 8 s.created_at))))),
  length-append (to_le_bytes 4 s.t_cost)
      (s.salt ++ (s.nonce ++ (s.ct ++ (s.flags ∷ to_le_bytes 8 s.created_at)))),
  length-append s.salt (s.nonce ++ (s.ct ++ (s.flags ∷ to_le_bytes 8 s.created_at))),
  length-append s.nonce (s.ct ++ (s.flags ∷ to_le_bytes 8 s.created_at)),
  length-append s.ct (s.flags ∷ to_le_bytes 8 s.created_at),
  length-to_le_bytes 4 s.m_cost,
  length-to_le_bytes 4 s.t_cost,
  length-to_le_bytes 8 s.created_at,
)

-- The bytes of a slot with what follows, in the order in which they are read.
slot_onto : KeySlot → Bytes → Bytes
slot_onto s r =
    s.slot_id
    ++ (s.kdf_id
        ∷ (to_le_bytes 4 s.m_cost
            ++ (to_le_bytes 4 s.t_cost
                ++ (s.salt
                    ++ (s.nonce ++ (s.ct ++ (s.flags ∷ (to_le_bytes 8 s.created_at ++ r))))))))

encode_slot-append : (s : KeySlot) (r : Bytes) → encode_slot s ++ r ≡ slot_onto s r
unfolding encode_slot slot_onto
encode_slot-append s r = simp append_assoc

-- Where the bytes of a well-formed slot stand, that slot is read.
pub slot_at-encode_slot :
    (body : Bytes) (pos : ℕ) (s : KeySlot) (r : Bytes)
    → IsSlot s
    → drop pos body ≡ encode_slot s ++ r
    → slot_at body pos ≡ s
unfolding slot_at slot_onto
slot_at-encode_slot body pos s r h at =
    let p1 = pos + 16 in
    let p2 = p1 + 1 + 4 in
    let p3 = p2 + 4 in
    let p4 = p3 + 16 in
    let p5 = p4 + 12 in
    let p6 = p5 + 48 in
    let (e1, d1) = drop-step pos 16 body s.slot_id _ (at ∙ encode_slot-append s r) h.slot_id_len in
    let (e2, d2) = nth-drop body p1 s.kdf_id _ d1 in
    let (e3, d3) =
      drop-step (p1 + 1) 4 body (to_le_bytes 4 s.m_cost) _ d2 (length-to_le_bytes 4 s.m_cost) in
    let (e4, d4) =
      drop-step p2 4 body (to_le_bytes 4 s.t_cost) _ d3 (length-to_le_bytes 4 s.t_cost) in
    let (e5, d5) = drop-step p3 16 body s.salt _ d4 h.salt_len in
    let (e6, d6) = drop-step p4 12 body s.nonce _ d5 h.nonce_len in
    let (e7, d7) = drop-step p5 48 body s.ct _ d6 h.ct_len in
    let (e8, d8) = nth-drop body p6 s.flags _ d7 in
    let (e9, d9) =
      drop-step (p6 + 1) 8 body (to_le_bytes 8 s.created_at) r d8
        (length-to_le_bytes 8 s.created_at) in
    rw (
      e1,
      e2,
      e3,
      e4,
      e5,
      e6,
      e7,
      e8,
      e9,
      from_le_bytes-to_le_bytes 4 s.m_cost h.m_cost_lt,
      from_le_bytes-to_le_bytes 4 s.t_cost h.t_cost_lt,
      from_le_bytes-to_le_bytes 8 s.created_at h.created_at_lt,
    )

-- The `n` bytes from a position on.
abbrev pub chunk : Bytes → ℕ → ℕ → Bytes
chunk body p n = take n (drop p body)

pub chunk-append :
    (body : Bytes) (p a b : ℕ) → chunk body p a ++ chunk body (p + a) b ≡ chunk body p (a + b)
chunk-append body p a b =
    ap (λ l. chunk body p a ++ take b l) (sym (drop-drop p a body)) ∙ take-add a b (drop p body)

pub drop-at :
    (body : Bytes) (p : ℕ) → p < length body → drop p body ≡ nth body p ∷ drop (p + 1) body
unfolding nth
drop-at [] p h = absurd (omega arith)
drop-at (x ∷ body) zero h = refl
drop-at (x ∷ body) (suc p) h =
    let shift : suc (p + 1) ≡ suc p + 1 = omega arith in
    drop-at body p (omega arith) ∙ ap (λ k. nth body p ∷ drop k (x ∷ body)) shift

nth-chunk :
    (body : Bytes) (p n : ℕ)
    → p < length body
    → nth body p ∷ chunk body (p + 1) n ≡ chunk body p (suc n)
nth-chunk body p n h = ap (λ l. take (suc n) l) (sym (drop-at body p h))

module _ (body : Bytes) (bytes : All IsByte body) where
  pub chunk-length : (p n : ℕ) → p + n ≤ length body → length (chunk body p n) ≡ n
  chunk-length p n h = omega (arith, length-take n (drop p body), length-drop p body)

  chunk-bytes : (p n : ℕ) → All IsByte (chunk body p n)
  chunk-bytes p n = All-take IsByte n (drop p body) (All-drop IsByte p body bytes)

  chunk-le :
      (p n : ℕ)
      → p + n ≤ length body
      → to_le_bytes n (from_le_bytes (chunk body p n)) ≡ chunk body p n
  chunk-le p n h =
      to_le_bytes-from_le_bytes n (chunk body p n) (chunk-length p n h) (chunk-bytes p n)

  chunk-lt : (p n : ℕ) → p + n ≤ length body → from_le_bytes (chunk body p n) < 256 ^ n
  chunk-lt p n h = from_le_bytes-lt n (chunk body p n) (chunk-length p n h) (chunk-bytes p n)

  pub nth-lt : (p : ℕ) → p < length body → nth body p < 256
  nth-lt p h =
      All-get_elem? IsByte body p bytes
        (get_elem?-drop p body (nth body p) (drop (p + 1) body) (drop-at body p h))

  module _ (pos : ℕ) (room : pos + 110 ≤ length body) where
    -- A slot that is read is well-formed.
    pub slot_at-IsSlot : IsSlot (slot_at body pos)
    unfolding slot_at
    slot_at-IsSlot =
        let p1 = pos + 16 in
        let p2 = p1 + 1 + 4 in
        let p3 = p2 + 4 in
        let p4 = p3 + 16 in
        let p5 = p4 + 12 in
        let p6 = p5 + 48 in
        record {
          slot_id_len = chunk-length pos 16 (omega arith);
          salt_len = chunk-length p3 16 (omega arith);
          nonce_len = chunk-length p4 12 (omega arith);
          ct_len = chunk-length p5 48 (omega arith);
          kdf_id_lt = nth-lt p1 (omega arith);
          m_cost_lt = chunk-lt (p1 + 1) 4 (omega arith);
          t_cost_lt = chunk-lt p2 4 (omega arith);
          flags_lt = nth-lt p6 (omega arith);
          created_at_lt = chunk-lt (p6 + 1) 8 (omega arith);
        }

    -- A slot that is read encodes to the bytes that were read.
    pub encode_slot-slot_at : encode_slot (slot_at body pos) ≡ chunk body pos 110
    unfolding slot_at encode_slot
    encode_slot-slot_at =
        let p1 = pos + 16 in
        let p2 = p1 + 1 + 4 in
        let p3 = p2 + 4 in
        let p4 = p3 + 16 in
        let p5 = p4 + 12 in
        let p6 = p5 + 48 in
        rw (
          chunk-le (p6 + 1) 8 (omega arith),
          chunk-le p2 4 (omega arith),
          chunk-le (p1 + 1) 4 (omega arith),
          nth-chunk body p6 8 (omega arith),
          chunk-append body p5 48 9,
          chunk-append body p4 12 57,
          chunk-append body p3 16 69,
          chunk-append body p2 4 85,
          chunk-append body (p1 + 1) 4 89,
          nth-chunk body p1 93 (omega arith),
          chunk-append body pos 16 94,
        )
