-- ===== src/Vault/Keys.antt =====
-- The keys of a vault: how a vault is made, and encryption under its domain keys.
use aegis_keys_with_soteria.Prelude.{
  ℕ, suc, ==_iff, ◌≤◌, ◌≡◌, refl, ap, ◌∙◌, Option, none, some, length, Option-cases, ◌⊎◌, inl, inr,
}
use aegis_keys_with_soteria.Errors.{ok, err, argon2}
use aegis_keys_with_soteria.Errors.Effects.{World}
use aegis_keys_with_soteria.Primitives.{Bytes, Primitives, IsLawful, message_limit}
use aegis_keys_with_soteria.AegisKey.{expose, new, locked_key}
use aegis_keys_with_soteria.AegisKey.Memory.{expose-locked_key}
use aegis_keys_with_soteria.Kdf.{derived, derived-length, argon2id_root-some, argon2id_root-none}
use aegis_keys_with_soteria.Aead.{AeadAlgo}
use aegis_keys_with_soteria.Aead.Laws.{open-seal}
use aegis_keys_with_soteria.Hierarchy.{Domain}
use aegis_keys_with_soteria.Hierarchy.Separation.{IsDerived, IsDerived-length, from_master_total}
use aegis_keys_with_soteria.Slots.{rotate}
use aegis_keys_with_soteria.Table.{KeySlotTable}
use aegis_keys_with_soteria.Table.Grow.{IsTable}
use aegis_keys_with_soteria.Vault.{
  AegisVault, domain, from_master_key, unlock, encrypt, decrypt, rotate_master,
}

module _ ⦃P : Primitives⦄ where
  abbrev pub SlotsFor : Bytes → Option KeySlotTable → Type 0
  SlotsFor master none = Unit
  SlotsFor master (some t) = IsTable master t

  -- The invariant of a vault: a 256-bit master key, the hierarchy of that key, and a well-formed
  -- table for it, if there is one.
  pub record IsVault (v : AegisVault) : Type 0 where
    pub master_length : length (expose v.master) ≡ 32
    pub hierarchy_derived : IsDerived (expose v.master) v.hierarchy
    pub slots_for : SlotsFor (expose v.master) v.slots

  module _ (L : IsLawful P) where
    -- A vault from a raw master key never panics, and satisfies the invariant.
    pub from_master_key_total :
        (master : Bytes) (w : World)
        → length master ≡ 32
        → (v : AegisVault) × (u : World) × (from_master_key master w ≡ (ok v, u))
          × (expose v.master ≡ master)
          × (v.slots ≡ none)
          × IsVault v
    unfolding from_master_key new
    from_master_key_total master w l =
        let x = expose-locked_key master w in
        let (h, u, e, i) = from_master_total L master (locked_key master w).1 in
        (
          record { master = (locked_key master w).0; hierarchy = h; slots = none },
          u,
          rw e,
          x,
          refl,
          record { master_length = ap length x ∙ l; hierarchy_derived = rw x i; slots_for = tt },
        )

    -- The domain keys of a vault are 256-bit keys.
    pub domain-length :
        (v : AegisVault) (d : Domain) → IsVault v → length (expose (domain v d)) ≡ 32
    unfolding domain
    domain-length v d i = IsDerived-length L (expose v.master) v.hierarchy d i.hierarchy_derived

    -- Under every domain and algorithm, a vault encrypts a message and associated data of admissible
    -- length, and
    -- decrypts the nonce and the ciphertext with the same associated data to the message.
    pub decrypt-encrypt :
        (v : AegisVault) (d : Domain) (plaintext aad : Bytes) (algo : AeadAlgo) (w : World)
        → IsVault v
        → length plaintext ≤ message_limit
        → length aad ≤ message_limit
        → (nonce : Bytes) × (ct : Bytes) × (u : World) × (encrypt v d plaintext aad algo w
            ≡ (ok (nonce, ct), u))
          × (decrypt v d nonce ct aad algo ≡ ok plaintext)
    unfolding encrypt decrypt
    decrypt-encrypt v d plaintext aad algo w i short few =
        let l = domain-length v d i in
        let (nonce, ct, s, _, o) =
          open-seal L (record { algo = algo; key = expose (domain v d) }) plaintext aad l w short
            few in
        (nonce, ct, suc w, rw ((==_iff _ _).1 l) s, rw ((==_iff _ _).1 l, decrypt) o)

    -- With lawful primitives: unlocking a vault succeeds exactly where Argon2 derives a key from
    -- the passphrase, the salt and the costs; that key becomes the master key, no slot table is
    -- there, and the vault satisfies the invariant. Otherwise the error is `Argon2`.
    pub unlock_result :
        (passphrase salt : Bytes) (m t : ℕ) (w : World)
        → ((master : Bytes) × (v : AegisVault) × (u : World) × (derived passphrase salt m t
              ≡ some master)
            × (unlock passphrase salt m t w ≡ (ok v, u))
            × (expose v.master ≡ master)
            × (v.slots ≡ none)
            × IsVault v)
          ⊎ ((derived passphrase salt m t ≡ none)
              × (unlock passphrase salt m t w ≡ (err argon2, w)))
    unfolding unlock
    unlock_result passphrase salt m t w = elim (Option-cases (derived passphrase salt m t)) [
      | inl e ↦ inr (e, rw (argon2id_root-none passphrase salt m t w e))
      | inr (master, e) ↦
          let l = derived-length L passphrase salt m t master e in
          let (v, u, p, x, n, i) = from_master_key_total master (locked_key master w).1 l in
          inl (
            master,
            v,
            u,
            e,
            rw
                (
                  argon2id_root-some passphrase salt m t w master e,
                  expose-locked_key master w,
                  (==_iff _ _).1 l,
                )
                p,
            x,
            n,
            i,
          )
    ]

    pub unlock_total :
        (passphrase salt key : Bytes) (m t : ℕ) (w : World)
        → derived passphrase salt m t ≡ some key
        → (v : AegisVault) × (u : World) × (unlock passphrase salt m t w ≡ (ok v, u)) × IsVault v
    unlock_total passphrase salt key m t w e = elim (unlock_result passphrase salt m t w) [
      | inl (_, v, u, _, o, _, _, i) ↦ (v, u, o, i)
      | inr (refused, _) ↦ cc
    ]

    -- With lawful primitives: rotating never fails: the vault gets the next 32 random bytes as
    -- its master key, the hierarchy of that key, and no slot table.
    pub rotate_master_total :
        (v : AegisVault) (w : World)
        → (v' : AegisVault) × (u : World) × (rotate_master v w ≡ (ok tt, v', u))
          × (expose v'.master ≡ P.fill_bytes w 32)
          × (v'.slots ≡ none)
          × IsVault v'
    unfolding rotate_master rotate new
    rotate_master_total v w =
        let fresh = P.fill_bytes w 32 in
        let k = locked_key fresh (suc w) in
        let x = expose-locked_key fresh (suc w) in
        let l = L.fill_bytes-length w 32 in
        let (h, u, e, i) = from_master_total L fresh k.1 in
        (
          record { master = k.0; hierarchy = h; slots = none },
          u,
          rw (x, (==_iff _ _).1 l, e),
          x,
          refl,
          record { master_length = ap length x ∙ l; hierarchy_derived = rw x i; slots_for = tt },
        )
