-- ===== src/Suite/Steps.antt =====
-- The steps that the tests are made of: keys that are compared, and slots that are unsealed.
use aegis_keys_with_soteria.Prelude.{◌≡◌, ◌≢◌, refl, ◌∙◌, true, false, inl, inr, Bool-cases}
use aegis_keys_with_soteria.Errors.{Result, ok, err, panic, result_map}
use aegis_keys_with_soteria.Errors.Effects.{World}
use aegis_keys_with_soteria.Primitives.{Bytes, Primitives, IsLawful}
use aegis_keys_with_soteria.AegisKey.{AegisKey, expose, new, locked_key, ct_eq}
use aegis_keys_with_soteria.AegisKey.Memory.{expose-locked_key}
use aegis_keys_with_soteria.AegisKey.Compare.{ct_eq_iff}
use aegis_keys_with_soteria.Slots.{KeySlot, unseal}
use aegis_keys_with_soteria.Slots.Wrap.{opening, unseal-opening}

module _ ⦃P : Primitives⦄ where
  pub new-expose :
      (b : Bytes) (w : World)
      → (k : AegisKey) × (u : World) × (new b w ≡ (ok k, u)) × (expose k ≡ b)
  unfolding new
  new-expose b w = ((locked_key b w).0, (locked_key b w).1, refl, expose-locked_key b w)

  module _ (L : IsLawful P) where
    pub ct_eq_same : (a b : AegisKey) → expose a ≡ expose b → ct_eq a b ≡ true
    ct_eq_same a b e = (ct_eq_iff L a b).1 e

    pub ct_eq_other : (a b : AegisKey) → expose a ≢ expose b → ct_eq a b ≡ false
    ct_eq_other a b ne = elim (Bool-cases (ct_eq a b)) [
      | inl same ↦ absurd (ne ((ct_eq_iff L a b).0 same))
      | inr other ↦ other
    ]

    pub unseal-opens :
        (s : KeySlot) (p m : Bytes) (w : World)
        → opening s p ≡ ok m
        → (k : AegisKey) × (u : World) × (unseal s p w ≡ (ok k, u)) × (expose k ≡ m)
    unseal-opens s p m w o = go (unseal s p w) (unseal-opening L s p w ∙ o)
      where
        go :
            (r : Result AegisKey × World)
            → result_map expose r.0 ≡ ok m
            → (k : AegisKey) × (u : World) × (r ≡ (ok k, u)) × (expose k ≡ m)
        go (ok k, u) e = (k, u, refl, cc)
        go (err x, u) e = cc
        go (panic, u) e = cc
