-- ===== src/AegisKey/Memory.antt =====
-- What happens to the allocation of a key, from `new` to the drop.
use mathlib.Core.Path.{subst}
use aegis_keys_with_soteria.Prelude.{
  ℕ, suc, ◌≡◌, ◌≢◌, refl, ap, false, not, inl, inr, List, [], ◌∷◌, All, arith, length-replicate,
  replicate, length, Bool-cases, if◌then◌else◌,
}
use aegis_keys_with_soteria.Errors.Effects.{World}
use aegis_keys_with_soteria.Primitives.{Bytes, Primitives, IsLawful}
use aegis_keys_with_soteria.AegisKey.{
  AegisKey, Buffer, expose, locked_key, unlock_memory, drop_key, burn,
}

-- Zeros of this number.
abbrev IsWiped : ℕ → Buffer → Type 0
IsWiped n b = b.bytes ≡ replicate n 0

-- The last state of an allocation.
abbrev pub freed : List Buffer → Buffer → Buffer
freed [] b = b
freed (b ∷ states) _ = freed states b

-- The flag of a live key says whether its buffer is pinned.
pub record IsTracked (k : AegisKey) : Type 0 where
  pub tracked : k.locked ≡ k.buffer.pinned

module _ ⦃P : Primitives⦄ where
  -- The material ends up in the key, whether or not the memory could be locked.
  pub expose-locked_key :
      (material : Bytes) (w : World) → expose (locked_key material w).0 ≡ material
  unfolding locked_key
  expose-locked_key material w = ground arith

  pub locked_key-IsTracked : (material : Bytes) (w : World) → IsTracked (locked_key material w).0
  unfolding locked_key
  locked_key-IsTracked material w = ground arith

  -- From the end of a key on: every state of its allocation is wiped; it goes back pinned only if
  -- the key was locked and `munlock` failed.
  abbrev pub Released : ℕ → AegisKey → World → List Buffer → Type 0
  Released n k w states =
      All (IsWiped n) states
      × (length states ≢ 0)
      × ((freed states k.buffer).pinned ≡ (if k.locked then not (P.munlock (suc w) n) else false))

  module _ (L : IsLawful P) (k : AegisKey) (t : IsTracked k) (w : World) where
    drop_key-Released : Released (length (expose k)) k w (drop_key k w).0
    unfolding drop_key unlock_memory
    drop_key-Released = elim (Bool-cases k.locked) [
      | inl e ↦ ground (
        arith,
        L.zeroize_lem (expose k),
        t.tracked,
        e,
        length-replicate {A = ℕ} (length (expose k)) 0,
      )
      | inr e ↦ ground (arith, L.zeroize_lem (expose k), t.tracked, e)
    ]

    burn-Released : Released (length (expose k)) k w (burn k w).0
    unfolding burn drop_key unlock_memory
    burn-Released = elim (Bool-cases k.locked) [
      | inl e ↦
          ground (arith, wiped, twice, t.tracked, e, length-replicate {A = ℕ} (length (expose k)) 0)
      | inr e ↦ ground (arith, wiped, twice, t.tracked, e)
    ]
      where
        wiped : P.zeroize (expose k) ≡ replicate (length (expose k)) 0
        wiped = L.zeroize_lem (expose k)

        twice : P.zeroize (P.zeroize (expose k)) ≡ replicate (length (expose k)) 0
        twice =
            rw
              (
                L.zeroize_lem (P.zeroize (expose k)),
                L.zeroize_lem (expose k),
                length-replicate {A = ℕ} (length (expose k)) 0,
              )
              refl

  -- With lawful primitives: however a key that `new` made ends, by a drop or by `burn`: its bytes are
  -- zeros in every state of the allocation from then on, so also before the region is unlocked and
  -- before core dumps are allowed again; and the allocation goes back pinned exactly where `mlock`
  -- had succeeded and `munlock` fails.
  pub lifecycle_wipes :
      IsLawful P
      → (material : Bytes) (w v : World)
      → let k = (locked_key material w).0 in
        Released (length material) k v (drop_key k v).0
        × Released (length material) k v (burn k v).0
  lifecycle_wipes L material w v =
      let k = (locked_key material w).0 in
      let t = locked_key-IsTracked material w in
      let e : length (expose k) ≡ length material = ap length (expose-locked_key material w) in
      (
        subst (λ n. Released n k v (drop_key k v).0) e (drop_key-Released L k t v),
        subst (λ n. Released n k v (burn k v).0) e (burn-Released L k t v),
      )
