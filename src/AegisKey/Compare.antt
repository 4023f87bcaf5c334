-- ===== src/AegisKey/Compare.antt =====
-- `AegisKey::ct_eq` of src/aegis_key.rs.
use aegis_keys_with_soteria.Prelude.{
  ℕ, ◌≡◌, refl, ◌↔◌, true, [], ◌∷◌, arith, length, bit_or, bit_xor,
}
use aegis_keys_with_soteria.Prelude.Bits.{bit_or-zero_iff, bit_xor-zero_iff}
use aegis_keys_with_soteria.Primitives.{Bytes, Primitives, IsLawful}
use aegis_keys_with_soteria.AegisKey.{AegisKey, expose, fold_bytes, ct_eq}

-- The accumulator is zero only if it was, and the bytes agree.
fold_bytes-zero :
    (acc : ℕ) (a b : Bytes) → length a ≡ length b → fold_bytes acc a b ≡ 0 → (acc ≡ 0) × (a ≡ b)
unfolding fold_bytes
fold_bytes-zero acc [] [] e h = (h, refl)
fold_bytes-zero acc [] (y ∷ b) e h = absurd (omega arith)
fold_bytes-zero acc (x ∷ a) [] e h = absurd (omega arith)
fold_bytes-zero acc (x ∷ a) (y ∷ b) e h =
    let (zero_acc, tails) = fold_bytes-zero (bit_or acc (bit_xor x y)) a b (omega arith) h in
    let (before, here) = (bit_or-zero_iff acc (bit_xor x y)).0 zero_acc in
    let heads = (bit_xor-zero_iff x y).0 here in (before, cc)

fold_bytes_self : (a : Bytes) → fold_bytes 0 a a ≡ 0
unfolding fold_bytes
fold_bytes_self [] = refl
fold_bytes_self (x ∷ a) = rw ((bit_xor-zero_iff x x).1 refl) (fold_bytes_self a)

module _ ⦃P : Primitives⦄ (L : IsLawful P) where
  -- With lawful primitives: for any two keys, of the same or of different lengths, `ct_eq`
  -- returns true exactly when their bytes are equal.
  pub ct_eq_iff : (a b : AegisKey) → (ct_eq a b ≡ true) ↔ (expose a ≡ expose b)
  unfolding ct_eq
  ct_eq_iff a b = (
    λ h.
        (fold_bytes-zero 0 (expose a) (expose b) (ground arith)
          (ground (arith, L.ct_eq_u8_iff (fold_bytes 0 (expose a) (expose b)) 0))).1,
    λ e. rw e (
        ground (
          arith,
          fold_bytes_self (expose b),
          L.ct_eq_u8_iff (fold_bytes 0 (expose b) (expose b)) 0,
        )),
  )
