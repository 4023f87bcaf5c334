-- ===== src/Suite/Keys/Domains.antt =====
-- The tests of src/hierarchy.rs.
use aegis_keys_with_soteria.Prelude.{◌≡◌, ◌≢◌, sym, ◌∙◌, false, [], ◌∷◌, replicate}
use aegis_keys_with_soteria.Errors.{ok}
use aegis_keys_with_soteria.Errors.Effects.{World}
use aegis_keys_with_soteria.Primitives.{Bytes, Primitives, IsLawful}
use aegis_keys_with_soteria.AegisKey.{expose}
use aegis_keys_with_soteria.Hierarchy.{
  Domain, enc, auth, meta, shard, xts, handle, info_tag, KeyHierarchy, domain,
}
use aegis_keys_with_soteria.Hierarchy.Separation.{
  IsDerived, info_tag-injective, from_master_total, legacy_single_key-master,
}
use aegis_keys_with_soteria.Codec.{bytes_eq}
use aegis_keys_with_soteria.Suite.Steps.{new-expose, ct_eq_same}
use aegis_keys_with_soteria.Suite.Keys.{
  occurs, set_len, info_tags_unique, deterministic, legacy_uses_master_directly,
}
use aegis_keys_with_soteria.Suite.Keys.Memory.{bytes_eq_other}

-- Six keys that differ from one domain to another are six values.
six_values :
    (f : Domain → Bytes)
    → ((a b : Domain) → f a ≡ f b → a ≡ b)
    → set_len (f enc ∷ f auth ∷ f meta ∷ f shard ∷ f xts ∷ f handle ∷ []) ≡ 6
unfolding set_len occurs
six_values f injective = rw (
  differ enc auth (λ e. cc),
  differ enc meta (λ e. cc),
  differ enc shard (λ e. cc),
  differ enc xts (λ e. cc),
  differ enc handle (λ e. cc),
  differ auth meta (λ e. cc),
  differ auth shard (λ e. cc),
  differ auth xts (λ e. cc),
  differ auth handle (λ e. cc),
  differ meta shard (λ e. cc),
  differ meta xts (λ e. cc),
  differ meta handle (λ e. cc),
  differ shard xts (λ e. cc),
  differ shard handle (λ e. cc),
  differ xts handle (λ e. cc),
)
  where
    differ : (a b : Domain) → a ≢ b → bytes_eq (f a) (f b) ≡ false
    differ a b ne = bytes_eq_other (f a) (f b) (λ e. ne (injective a b e))

pub info_tags_unique-passes : info_tags_unique ≡ ok tt
unfolding info_tags_unique
info_tags_unique-passes = rw (six_values info_tag (λ a b e. info_tag-injective a b e))

module _ ⦃P : Primitives⦄ (L : IsLawful P) where
  same_keys :
      (master : Bytes) (a b : KeyHierarchy) (d : Domain)
      → IsDerived master a
      → IsDerived master b
      → expose (domain a d) ≡ expose (domain b d)
  same_keys master a b d i j = cc (i d, j d)

  pub deterministic-passes : (w : World) → (deterministic w).0 ≡ ok tt
  unfolding deterministic
  deterministic-passes w =
      let master = replicate 32 7 in
      let (a, u1, e1, i) = from_master_total L master w in
      let (b, u2, e2, j) = from_master_total L master u1 in
      rw (
        e1,
        e2,
        ct_eq_same L (domain a enc) (domain b enc) (same_keys master a b enc i j),
        ct_eq_same L (domain a meta) (domain b meta) (same_keys master a b meta i j),
      )

  pub legacy_uses_master_directly-passes : (w : World) → (legacy_uses_master_directly w).0 ≡ ok tt
  unfolding legacy_uses_master_directly
  legacy_uses_master_directly-passes w =
      let master = replicate 32 9 in
      let (h, u1, e1, x) = legacy_single_key-master master w in
      let (k1, u2, e2, y1) = new-expose master u1 in
      let (k2, u3, e3, y2) = new-expose master u2 in
      rw (
        e1,
        e2,
        ct_eq_same L (domain h enc) k1 (x enc ∙ sym y1),
        e3,
        ct_eq_same L (domain h auth) k2 (x auth ∙ sym y2),
      )
