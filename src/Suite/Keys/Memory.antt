-- ===== src/Suite/Keys/Memory.antt =====
-- The tests of src/aegis_key.rs and src/kdf.rs.
use text.Mathlib.TextPositions.{eq_refl}
use aegis_keys_with_soteria.Prelude.{
  ℕ, ◌≡◌, ◌≢◌, refl, sym, ap, ◌∙◌, some, true, [], ◌∷◌, length, replicate, arith, Bool-cases, inl,
  inr, false,
}
use aegis_keys_with_soteria.Errors.{ok}
use aegis_keys_with_soteria.Errors.Effects.{World}
use aegis_keys_with_soteria.Primitives.{Bytes, Primitives, IsLawful}
use aegis_keys_with_soteria.AegisKey.{AegisKey, expose, is_empty, new, debug, locked_key}
use aegis_keys_with_soteria.AegisKey.Memory.{expose-locked_key}
use aegis_keys_with_soteria.Kdf.{derived, argon2id_root, argon2id_root-some}
use aegis_keys_with_soteria.Hierarchy.{literal}
use aegis_keys_with_soteria.Codec.{bytes_eq}
use aegis_keys_with_soteria.Codec.Outcome.{bytes_eq_iff}
use aegis_keys_with_soteria.Suite.Steps.{new-expose, ct_eq_same, ct_eq_other}
use aegis_keys_with_soteria.Suite.Keys.{
  starts_with, contains, holds_and_zeroizes_on_drop, debug_is_redacted, ct_eq_is_constant_time_like,
  argon2id_deterministic,
}

abbrev first : Bytes → ℕ
first [] = 0
first (b ∷ bytes) = b

pub bytes_eq_self : (b : Bytes) → bytes_eq b b ≡ true
bytes_eq_self b = (bytes_eq_iff b b).1 refl

pub bytes_eq_other : (a b : Bytes) → a ≢ b → bytes_eq a b ≡ false
bytes_eq_other a b ne = elim (Bool-cases (bytes_eq a b)) [
  | inl same ↦ absurd (ne ((bytes_eq_iff a b).0 same))
  | inr other ↦ other
]

module _ ⦃P : Primitives⦄ where
  pub holds_and_zeroizes_on_drop-passes : (w : World) → (holds_and_zeroizes_on_drop w).0 ≡ ok tt
  unfolding holds_and_zeroizes_on_drop is_empty
  holds_and_zeroizes_on_drop-passes w =
      let (k, u, e, x) = new-expose (replicate 32 0x42) w in
      rw (e, x, bytes_eq_self (replicate 32 0x42))

  pub debug_is_redacted-passes : (w : World) → (debug_is_redacted w).0 ≡ ok tt
  unfolding debug_is_redacted debug contains starts_with new
  debug_is_redacted-passes w = ground (arith, eq_refl "AegisKey(<redacted>)")

  module _ (L : IsLawful P) where
    pub ct_eq_is_constant_time_like-passes : (w : World) → (ct_eq_is_constant_time_like w).0 ≡ ok tt
    unfolding ct_eq_is_constant_time_like
    ct_eq_is_constant_time_like-passes w =
        let (a, u1, e1, x1) = new-expose (replicate 32 0xab) w in
        let (b, u2, e2, x2) = new-expose (replicate 32 0xab) u1 in
        let (c, u3, e3, x3) = new-expose (replicate 32 0xac) u2 in
        let (d, u4, e4, x4) = new-expose (replicate 16 0) u3 in
        rw (
          e1,
          e2,
          e3,
          ct_eq_same L a b (x1 ∙ sym x2),
          ct_eq_other L a c (λ e. omega (arith, ap first (sym x1 ∙ e ∙ x3))),
          e4,
          ct_eq_other L a d (λ e. omega (arith, ap length (sym x1 ∙ e ∙ x4))),
        )

    root :
        (p salt k : Bytes) (w : World)
        → derived p salt 64 3 ≡ some k
        → (a : AegisKey) × (u : World) × (argon2id_root p salt 64 3 w ≡ (ok a, u)) × (expose a ≡ k)
    root p salt k w e = (
      (locked_key k w).0,
      (locked_key k w).1,
      argon2id_root-some p salt 64 3 w k e,
      expose-locked_key k w,
    )

    pub argon2id_deterministic-passes :
        (w : World) (k : Bytes)
        → derived (literal "correct horse") (replicate 16 0x11) 64 3 ≡ some k
        → (argon2id_deterministic w).0 ≡ ok tt
    unfolding argon2id_deterministic
    argon2id_deterministic-passes w k e =
        let p = literal "correct horse" in
        let (a, u1, e1, x) = root p (replicate 16 0x11) k w e in
        let (b, u2, e2, y) = root p (replicate 16 0x11) k u1 e in
        rw (e1, e2, ct_eq_same L a b (x ∙ sym y))
