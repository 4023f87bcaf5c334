-- ===== src/Hierarchy/Separation.antt =====
-- The hierarchy as a function from domains to derived bytes, and the separation of the domains.
use aegis_keys_with_soteria.Prelude.{
  ◌≡◌, refl, ap, sym, ◌∙◌, ◌↔◌, true, Option, none, some, arith, length, get_elem?, ◌==◌,
  if◌then◌else◌,
}
use aegis_keys_with_soteria.Errors.{ok}
use aegis_keys_with_soteria.Errors.Effects.{World}
use aegis_keys_with_soteria.Primitives.{Bytes, Primitives, IsLawful}
use aegis_keys_with_soteria.AegisKey.{AegisKey, expose, new, locked_key, ct_eq}
use aegis_keys_with_soteria.AegisKey.Memory.{expose-locked_key}
use aegis_keys_with_soteria.AegisKey.Compare.{ct_eq_iff}
use aegis_keys_with_soteria.Kdf.{hkdf_sha256, hkdf_sha256_total}
use aegis_keys_with_soteria.Hierarchy.{
  master_salt, Domain, enc, auth, meta, shard, xts, handle, info_tag, KeyHierarchy, domain, derive,
  from_master, legacy_single_key,
}

-- The byte behind "soteria-kh-v1/k-" tells the labels apart.
unfoldable pub domain_of : Bytes → Option Domain
domain_of label = elim (get_elem? label 16) [
  | none ↦ none
  | some c ↦
      if c == b'e'
      then some enc
      else if c == b'a'
      then some auth
      else if c == b'm'
      then some meta
      else if c == b's'
      then some shard
      else if c == b'x'
      then some xts
      else some handle
]

domain_of-info_tag : (d : Domain) → domain_of (info_tag d) ≡ some d
unfolding domain_of info_tag
domain_of-info_tag enc = refl
domain_of-info_tag auth = refl
domain_of-info_tag meta = refl
domain_of-info_tag shard = refl
domain_of-info_tag xts = refl
domain_of-info_tag handle = refl

-- No two domains share a label.
pub info_tag-injective : (a b : Domain) → info_tag a ≡ info_tag b → a ≡ b
info_tag-injective a b h = cc (domain_of-info_tag a, domain_of-info_tag b)

module _ ⦃P : Primitives⦄ where
  -- Each domain of the hierarchy holds the HKDF output for the label of that domain.
  abbrev pub IsDerived : Bytes → KeyHierarchy → Type 0
  IsDerived master h =
      (d : Domain) → hkdf_sha256 master master_salt (info_tag d) ≡ ok (expose (domain h d))

  -- HKDF gives no two of the six labels the same output for this master.
  abbrev pub NoCollision : Bytes → Type 0
  NoCollision master =
      (a b : Domain)
      → hkdf_sha256 master master_salt (info_tag a) ≡ hkdf_sha256 master master_salt (info_tag b)
      → info_tag a ≡ info_tag b

  abbrev Holds : Bytes → Bytes → Bytes → AegisKey → Type 0
  Holds ikm salt info k = hkdf_sha256 ikm salt info ≡ ok (expose k)

  module _ (L : IsLawful P) where
    derive_total :
        (master tag : Bytes) (w : World)
        → (k : AegisKey) × (v : World) × (derive master tag w ≡ (ok k, v))
          × Holds master master_salt tag k
    unfolding derive new
    derive_total master tag w =
        let (raw, e, _) = hkdf_sha256_total L master master_salt tag in
        (
          (locked_key raw w).0,
          (locked_key raw w).1,
          rw e,
          e ∙ ap ok (sym (expose-locked_key raw w)),
        )

    -- Deriving the hierarchy always succeeds, and every domain gets the key of its own label.
    pub from_master_total :
        (master : Bytes) (w : World)
        → (h : KeyHierarchy) × (v : World) × (from_master master w ≡ (ok h, v)) × IsDerived master h
    unfolding from_master domain info_tag
    from_master_total master w =
        let (e, w1, pe, he) = derive_total master (info_tag enc) w in
        let (a, w2, pa, ha) = derive_total master (info_tag auth) w1 in
        let (m, w3, pm, hm) = derive_total master (info_tag meta) w2 in
        let (s, w4, ps, hs) = derive_total master (info_tag shard) w3 in
        let (x, w5, px, hx) = derive_total master (info_tag xts) w4 in
        let (h, w6, ph, hh) = derive_total master (info_tag handle) w5 in
        let t : KeyHierarchy = record {
          k_enc = e;
          k_auth = a;
          k_meta = m;
          k_shard = s;
          k_xts = x;
          k_handle = h;
        } in
        (
          t,
          w6,
          rw (pe, pa, pm, ps, px, ph),
          elim [ enc ↦ he | auth ↦ ha | meta ↦ hm | shard ↦ hs | xts ↦ hx | handle ↦ hh ],
        )

    pub IsDerived-length :
        (master : Bytes) (h : KeyHierarchy) (d : Domain)
        → IsDerived master h
        → length (expose (domain h d)) ≡ 32
    IsDerived-length master h d i =
        let (raw, e, l) = hkdf_sha256_total L master master_salt (info_tag d) in grind (arith, i d)

    -- With lawful primitives: where HKDF has no collision among the six labels for this master,
    -- deriving the hierarchy from it succeeds, and `ct_eq` finds the keys of two domains equal
    -- exactly when they are the same domain.
    pub from_master_separates :
        (master : Bytes) (w : World)
        → NoCollision master
        → (h : KeyHierarchy) × (v : World) × (from_master master w ≡ (ok h, v))
          × ((a b : Domain) → (ct_eq (domain h a) (domain h b) ≡ true) ↔ (a ≡ b))
    from_master_separates master w apart =
        let (h, v, e, i) = from_master_total master w in
        (
          h,
          v,
          e,
          λ a b. (
            λ same. info_tag-injective a b (
                apart a b
                  (i a ∙ ap ok ((ct_eq_iff L (domain h a) (domain h b)).0 same) ∙ sym (i b))),
            λ p. (ct_eq_iff L (domain h a) (domain h b)).1 (ap (λ d. expose (domain h d)) p),
          ),
        )

  -- In the legacy hierarchy every domain key is the master key.
  pub legacy_single_key-master :
      (master : Bytes) (w : World)
      → (h : KeyHierarchy) × (v : World) × (legacy_single_key master w ≡ (ok h, v))
        × ((d : Domain) → expose (domain h d) ≡ master)
  unfolding legacy_single_key new domain
  legacy_single_key-master master w = (
    _,
    _,
    refl,
    elim [
      | enc ↦ expose-locked_key master _
      | auth ↦ expose-locked_key master _
      | meta ↦ expose-locked_key master _
      | shard ↦ expose-locked_key master _
      | xts ↦ expose-locked_key master _
      | handle ↦ expose-locked_key master _
    ],
  )
