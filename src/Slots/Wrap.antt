-- ===== src/Slots/Wrap.antt =====
-- `create` and `unseal` against what a slot holds: which master key, if any, a passphrase opens.
use mathlib.Core.Option
use aegis_keys_with_soteria.Prelude.{
  ℕ, suc, ◌^◌, ◌<◌, ◌≡◌, ◌≢◌, ◌⊎◌, inl, inr, refl, true, arith, none, some, Option-cases, ◌==◌,
  ==_iff, length, if◌then◌else◌,
}
use aegis_keys_with_soteria.Errors.{Result, result_map, ok, err, panic, argon2, slot_unseal}
use aegis_keys_with_soteria.Errors.Effects.{World}
use aegis_keys_with_soteria.Primitives.{Bytes, Primitives, IsLawful}
use aegis_keys_with_soteria.AegisKey.{expose, new, locked_key}
use aegis_keys_with_soteria.AegisKey.Memory.{expose-locked_key}
use aegis_keys_with_soteria.Kdf.{derived, derived-length, argon2id_root-some, argon2id_root-none}
use aegis_keys_with_soteria.Aead.{open_sealed}
use aegis_keys_with_soteria.Aead.Laws.{seal_total}
use aegis_keys_with_soteria.Slots.{KeySlot, header_magic, create, unseal, is_enabled, slot_cipher}

-- The lengths of the arrays and the ranges of the machine integers of a slot.
pub record IsSlot (s : KeySlot) : Type 0 where
  pub slot_id_len : length s.slot_id ≡ 16
  pub salt_len : length s.salt ≡ 16
  pub nonce_len : length s.nonce ≡ 12
  pub ct_len : length s.ct ≡ 48
  pub kdf_id_lt : s.kdf_id < 256
  pub m_cost_lt : s.m_cost < 2 ^ 32
  pub t_cost_lt : s.t_cost < 2 ^ 32
  pub flags_lt : s.flags < 256
  pub created_at_lt : s.created_at < 2 ^ 64

module _ ⦃P : Primitives⦄ where
  -- What decrypts under a slot key: `SlotUnseal` unless the cipher opens the slot to 32 bytes.
  unfoldable pub decrypted : KeySlot → Bytes → Result Bytes
  decrypted s sk =
      if length s.nonce == 12
      then elim (P.aes_256_gcm.decrypt sk s.nonce s.ct header_magic) [
        | none ↦ err slot_unseal
        | some m ↦ if length m == 32 then ok m else err slot_unseal
      ]
      else err slot_unseal

  -- The master key that a passphrase opens, with no regard to where keys are kept.
  unfoldable pub opening : KeySlot → Bytes → Result Bytes
  unfolding decrypted
  opening s passphrase = elim (derived passphrase s.salt s.m_cost s.t_cost) [
    | none ↦ err argon2
    | some sk ↦ decrypted s sk
  ]

  pub opening-ne-panic : (s : KeySlot) (passphrase : Bytes) → opening s passphrase ≢ panic
  unfolding opening
  opening-ne-panic s passphrase = ground arith

  pub opening-length :
      (s : KeySlot) (passphrase m : Bytes) → opening s passphrase ≡ ok m → length m ≡ 32
  unfolding opening
  opening-length s passphrase m h = ground arith

  pub opening-decrypt :
      (s : KeySlot) (passphrase m : Bytes)
      → opening s passphrase ≡ ok m
      → (sk : Bytes) × (P.aes_256_gcm.decrypt sk s.nonce s.ct header_magic ≡ some m)
  unfolding opening
  opening-decrypt s passphrase m h =
      elim (Option-cases (derived passphrase s.salt s.m_cost s.t_cost)) [
        | inl e ↦ ground arith
        | inr (sk, e) ↦ (sk, ground arith)
      ]

  -- Argon2 takes the passphrase at these costs, for every salt of 16 bytes.
  pub record Accepts (passphrase : Bytes) (m t : ℕ) : Type 0 where
    pub accepted : (salt : Bytes) → length salt ≡ 16 → derived passphrase salt m t ≢ none

  -- The ciphertext of the slot is the master key, encrypted under the slot key that Argon2 derives
  -- from the passphrase, the salt and the costs of the slot.
  abbrev pub Seals : Bytes → Bytes → KeySlot → Type 0
  Seals master passphrase s =
      (sk : Bytes) × (derived passphrase s.salt s.m_cost s.t_cost ≡ some sk)
      × (P.aes_256_gcm.encrypt sk s.nonce master header_magic ≡ some s.ct)

  module _ (L : IsLawful P) where
    unseal_refused :
        (s : KeySlot) (passphrase : Bytes) (w : World)
        → derived passphrase s.salt s.m_cost s.t_cost ≡ none
        → result_map expose (unseal s passphrase w).0 ≡ opening s passphrase
    unfolding unseal opening
    unseal_refused s passphrase w e =
        rw (argon2id_root-none passphrase s.salt s.m_cost s.t_cost w e, opening, e)

    unseal_key_derived :
        (s : KeySlot) (passphrase sk : Bytes) (w : World)
        → derived passphrase s.salt s.m_cost s.t_cost ≡ some sk
        → result_map expose (unseal s passphrase w).0 ≡ opening s passphrase
    unfolding unseal opening open_sealed new
    unseal_key_derived s passphrase sk w e =
        let l = derived-length L passphrase s.salt s.m_cost s.t_cost sk e in
        let accepted = L.aes_256_gcm-IsAead.accepts sk l in
        let key = (locked_key sk w).1 in
        rw
          (
            argon2id_root-some passphrase s.salt s.m_cost s.t_cost w sk e,
            expose-locked_key sk w,
            opening,
            e,
          )
          (elim (Option-cases (P.aes_256_gcm.decrypt sk s.nonce s.ct header_magic)) [
            | inl d ↦ ground (arith, accepted, d)
            | inr (m, d) ↦ ground (arith, accepted, d, expose-locked_key m key)
          ])

    -- With lawful primitives: unsealing a slot returns exactly what its opening says, on every
    -- branch: the master key that the passphrase opens, `Argon2` if no slot key can be derived,
    -- and `SlotUnseal` if the slot does not decrypt to 32 bytes. It never panics, and the answers
    -- of the system do not matter.
    pub unseal-opening :
        (s : KeySlot) (passphrase : Bytes) (w : World)
        → result_map expose (unseal s passphrase w).0 ≡ opening s passphrase
    unseal-opening s passphrase w =
        elim (Option-cases (derived passphrase s.salt s.m_cost s.t_cost)) [
          | inl e ↦ unseal_refused s passphrase w e
          | inr (sk, e) ↦ unseal_key_derived s passphrase sk w e
        ]

    opening-encrypt :
        (s : KeySlot) (passphrase master sk : Bytes)
        → length master ≡ 32
        → length s.nonce ≡ 12
        → derived passphrase s.salt s.m_cost s.t_cost ≡ some sk
        → P.aes_256_gcm.encrypt sk s.nonce master header_magic ≡ some s.ct
        → opening s passphrase ≡ ok master
    unfolding opening
    opening-encrypt s passphrase master sk l n e c =
        let d = L.aes_256_gcm-IsAead.inverse sk s.nonce master header_magic s.ct c in
        ground (arith, e, d)

    module _ (master passphrase : Bytes) (m t : ℕ) (l : length master ≡ 32) where
      abbrev Creates : World → Type 0
      Creates w =
          (s : KeySlot) × (v : World) × (create master passphrase m t w ≡ (ok s, v))
          × (opening s passphrase ≡ ok master)
          × (is_enabled s ≡ true)
          × IsSlot s
          × Seals master passphrase s

      tagged :
          (w1 : World) (sk ct : Bytes)
          → P.aes_256_gcm.encrypt sk (P.fill_bytes w1 12) master header_magic ≡ some ct
          → length ct ≡ 48
      tagged w1 sk ct c =
          omega (arith, L.aes_256_gcm-IsAead.tag sk (P.fill_bytes w1 12) master header_magic ct c)

      created : World → World → Bytes → KeySlot
      created w w1 ct = record {
        slot_id = P.fill_bytes (suc w1) 16;
        kdf_id = 1;
        m_cost = m;
        t_cost = t;
        salt = P.fill_bytes w 16;
        nonce = P.fill_bytes w1 12;
        ct = ct;
        flags = 1;
        created_at = Option.get_or (P.since_epoch (suc (suc w1))) 0;
      }

      created-IsSlot :
          (w w1 : World) (ct : Bytes)
          → m < 2 ^ 32
          → t < 2 ^ 32
          → length ct ≡ 48
          → IsSlot (created w w1 ct)
      unfolding created
      created-IsSlot w w1 ct hm ht c = record {
        slot_id_len = L.fill_bytes-length (suc w1) 16;
        salt_len = L.fill_bytes-length w 16;
        nonce_len = L.fill_bytes-length w1 12;
        ct_len = c;
        kdf_id_lt = omega arith;
        m_cost_lt = hm;
        t_cost_lt = ht;
        flags_lt = omega arith;
        created_at_lt = ground (
          arith,
          L.since_epoch-lt (suc (suc w1)) (Option.get_or (P.since_epoch (suc (suc w1))) 0),
        );
      }

      create_derived :
          (w : World) (sk : Bytes)
          → derived passphrase (P.fill_bytes w 16) m t ≡ some sk
          → m < 2 ^ 32
          → t < 2 ^ 32
          → Creates w
      unfolding create created is_enabled
      create_derived w sk e hm ht =
          let kl = derived-length L passphrase (P.fill_bytes w 16) m t sk e in
          let w1 = (locked_key sk (suc w)).1 in
          let (ct, c, p) =
            seal_total L (slot_cipher sk) master header_magic kl w1 (omega arith) (omega arith) in
          let s = created w w1 ct in
          let made = argon2id_root-some passphrase (P.fill_bytes w 16) m t (suc w) sk e in
          (
            s,
            suc (suc (suc w1)),
            rw (made, expose-locked_key sk (suc w), (==_iff _ _).1 kl, p)
                (ground (arith, L.fill_bytes-length w1 12, tagged w1 sk ct c)),
            opening-encrypt s passphrase master sk l (L.fill_bytes-length w1 12) e c,
            refl,
            created-IsSlot w w1 ct hm ht (tagged w1 sk ct c),
            (sk, e, c),
          )

      -- With lawful primitives: for a 32-byte master key and costs that are 32-bit integers:
      -- creating a slot succeeds if Argon2 takes the passphrase at these costs and the random
      -- salt, and the new slot is then well-formed and enabled, its ciphertext is the master key,
      -- encrypted under the slot key of the passphrase, and the same passphrase opens it to the
      -- master key; otherwise the error is `Argon2`.
      pub create_result :
          (w : World)
          → m < 2 ^ 32
          → t < 2 ^ 32
          → Creates w
            ⊎ ((derived passphrase (P.fill_bytes w 16) m t ≡ none)
                × (create master passphrase m t w ≡ (err argon2, suc w)))
      unfolding create
      create_result w hm ht = elim (Option-cases (derived passphrase (P.fill_bytes w 16) m t)) [
        | inl e ↦ inr (e, rw (argon2id_root-none passphrase (P.fill_bytes w 16) m t (suc w) e))
        | inr (sk, e) ↦ inl (create_derived w sk e hm ht)
      ]

      pub create_total : (w : World) → m < 2 ^ 32 → t < 2 ^ 32 → Accepts passphrase m t → Creates w
      create_total w hm ht a = elim (create_result w hm ht) [
        | inl made ↦ made
        | inr (refused, _) ↦
            absurd (a.accepted (P.fill_bytes w 16) (L.fill_bytes-length w 16) refused)
      ]
