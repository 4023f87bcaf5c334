-- ===== src/Aead/Laws.antt =====
-- `seal` and `open` of src/aead.rs, one after the other and on arbitrary ciphertexts.
use aegis_keys_with_soteria.Prelude.{
  ℕ, suc, ◌≡◌, ◌≢◌, ◌⊎◌, inl, inr, ◌≤◌, some, arith, length, Option-cases, Bool-cases, ◌==◌, ==_iff,
}
use aegis_keys_with_soteria.Errors.{ok, err, panic, aead_open}
use aegis_keys_with_soteria.Errors.Effects.{World}
use aegis_keys_with_soteria.Primitives.{Bytes, Primitives, IsLawful, Aead, IsAead, message_limit}
use aegis_keys_with_soteria.Aead.{
  AeadAlgo, AeadCipher, aes256_gcm, xchacha20_poly1305, nonce_len_of, scheme, seal_with, seal,
  open_with, open_sealed,
}

module _ ⦃P : Primitives⦄ (L : IsLawful P) where
  module _ (a : Aead) (n : ℕ) (A : IsAead a n) (key plaintext aad : Bytes)
      (k : length key ≡ 32) where
    seal_with_total :
        (w : World)
        → length plaintext ≤ message_limit
        → length aad ≤ message_limit
        → (ct : Bytes) × (a.encrypt key (P.fill_bytes w n) plaintext aad ≡ some ct)
          × (seal_with a n key plaintext aad w ≡ (ok (P.fill_bytes w n, ct), suc w))
    unfolding seal_with
    seal_with_total w short few =
        elim (Option-cases (a.encrypt key (P.fill_bytes w n) plaintext aad)) [
          | inl e ↦ absurd (
              A.encrypts key (P.fill_bytes w n) plaintext aad k (L.fill_bytes-length w n) short few
                e)
          | inr (ct, e) ↦ (ct, e, ground (arith, A.accepts key k, L.fill_bytes-length w n))
        ]

    open_with-encrypt :
        (nonce ct : Bytes)
        → length nonce ≡ n
        → a.encrypt key nonce plaintext aad ≡ some ct
        → open_with a n key nonce ct aad ≡ ok plaintext
    unfolding open_with
    open_with-encrypt nonce ct l e =
        ground (arith, A.accepts key k, A.inverse key nonce plaintext aad ct e)

  open_with_errors :
      (a : Aead) (n : ℕ) (A : IsAead a n) (key nonce ct aad : Bytes)
      → length key ≡ 32
      → (open_with a n key nonce ct aad ≡ err aead_open)
        ⊎ ((m : Bytes) × (open_with a n key nonce ct aad ≡ ok m)
            × (length nonce ≡ n)
            × (a.decrypt key nonce ct aad ≡ some m))
  unfolding open_with
  open_with_errors a n A key nonce ct aad k = elim (Bool-cases (length nonce == n)) [
    | inr e ↦ inl (rw e)
    | inl e ↦ elim (Option-cases (a.decrypt key nonce ct aad)) [
      | inl d ↦ inl (rw (e, A.accepts key k, d))
      | inr (m, d) ↦ inr (m, rw (e, A.accepts key k, d), (==_iff _ _).0 e, d)
    ]
  ]

  abbrev cipher : AeadAlgo → Bytes → AeadCipher
  cipher algo key = record { algo = algo; key = key }

  abbrev Seals : AeadAlgo → Bytes → Bytes → Bytes → World → Type 0
  Seals algo key plaintext aad w =
      let nonce = P.fill_bytes w (nonce_len_of algo) in
      (ct : Bytes) × ((scheme algo).encrypt key nonce plaintext aad ≡ some ct)
      × (seal (cipher algo key) plaintext aad w ≡ (ok (nonce, ct), suc w))

  seal_by_algo :
      (algo : AeadAlgo) (key plaintext aad : Bytes) (w : World)
      → length key ≡ 32
      → length plaintext ≤ message_limit
      → length aad ≤ message_limit
      → Seals algo key plaintext aad w
  unfolding seal
  seal_by_algo aes256_gcm key plaintext aad w k short few =
      seal_with_total P.aes_256_gcm 12 L.aes_256_gcm-IsAead key plaintext aad k w short few
  seal_by_algo xchacha20_poly1305 key plaintext aad w k short few =
      seal_with_total P.xchacha20_poly1305 24 L.xchacha20_poly1305-IsAead key plaintext aad k w
        short few

  open_by_algo :
      (algo : AeadAlgo) (key plaintext aad nonce ct : Bytes)
      → length key ≡ 32
      → length nonce ≡ nonce_len_of algo
      → (scheme algo).encrypt key nonce plaintext aad ≡ some ct
      → open_sealed (cipher algo key) nonce ct aad ≡ ok plaintext
  unfolding open_sealed
  open_by_algo aes256_gcm key plaintext aad nonce ct k l e =
      open_with-encrypt P.aes_256_gcm 12 L.aes_256_gcm-IsAead key plaintext aad k nonce ct l e
  open_by_algo xchacha20_poly1305 key plaintext aad nonce ct k l e =
      open_with-encrypt P.xchacha20_poly1305 24 L.xchacha20_poly1305-IsAead key plaintext aad k
        nonce ct l e

  module _ (c : AeadCipher) (plaintext aad : Bytes) (k : length c.key ≡ 32) where
    -- Sealing a message, with associated data, of admissible length under a 32-byte key succeeds: it draws one nonce of
    -- the cipher's length, and returns it with the ciphertext.
    pub seal_total :
        (w : World)
        → length plaintext ≤ message_limit
        → length aad ≤ message_limit
        → let nonce = P.fill_bytes w (nonce_len_of c.algo) in
          (ct : Bytes) × ((scheme c.algo).encrypt c.key nonce plaintext aad ≡ some ct)
          × (seal c plaintext aad w ≡ (ok (nonce, ct), suc w))
    seal_total w short few = seal_by_algo c.algo c.key plaintext aad w k short few

    -- Opening what the cipher encrypted under the same nonce and associated data.
    pub open_sealed-encrypt :
        (nonce ct : Bytes)
        → length nonce ≡ nonce_len_of c.algo
        → (scheme c.algo).encrypt c.key nonce plaintext aad ≡ some ct
        → open_sealed c nonce ct aad ≡ ok plaintext
    open_sealed-encrypt nonce ct l e = open_by_algo c.algo c.key plaintext aad nonce ct k l e

    -- With lawful primitives: with a 32-byte key, a message and associated data of admissible length
    -- are sealed without an error, and the nonce and ciphertext that come back open, with the same
    -- associated data, to the message.
    pub open-seal :
        (w : World)
        → length plaintext ≤ message_limit
        → length aad ≤ message_limit
        → (nonce : Bytes) × (ct : Bytes) × (seal c plaintext aad w ≡ (ok (nonce, ct), suc w))
          × (length nonce ≡ nonce_len_of c.algo)
          × (open_sealed c nonce ct aad ≡ ok plaintext)
    open-seal w short few =
        let nonce = P.fill_bytes w (nonce_len_of c.algo) in
        let (ct, e, s) = seal_total w short few in
        let l = L.fill_bytes-length w (nonce_len_of c.algo) in
        (nonce, ct, s, l, open_sealed-encrypt nonce ct l e)

  seal_with-ne-panic :
      (a : Aead) (n : ℕ) (key plaintext aad : Bytes) (w : World)
      → (seal_with a n key plaintext aad w).0 ≢ panic
  unfolding seal_with
  seal_with-ne-panic a n key plaintext aad w =
      rw ((==_iff _ _).1 (L.fill_bytes-length w n)) (ground arith)

  -- With lawful primitives: sealing never panics.
  pub seal-ne-panic :
      (c : AeadCipher) (plaintext aad : Bytes) (w : World) → (seal c plaintext aad w).0 ≢ panic
  unfolding seal
  seal-ne-panic c plaintext aad w = by_algo c.algo
    where
      by_algo : (algo : AeadAlgo) → (seal (cipher algo c.key) plaintext aad w).0 ≢ panic
      by_algo aes256_gcm = seal_with-ne-panic P.aes_256_gcm 12 c.key plaintext aad w
      by_algo xchacha20_poly1305 = seal_with-ne-panic P.xchacha20_poly1305 24 c.key plaintext aad w

  open_errors_by_algo :
      (algo : AeadAlgo) (key nonce ct aad : Bytes)
      → length key ≡ 32
      → let opened = open_sealed (cipher algo key) nonce ct aad in
        (opened ≡ err aead_open)
        ⊎ ((m : Bytes) × (opened ≡ ok m)
            × (length nonce ≡ nonce_len_of algo)
            × ((scheme algo).decrypt key nonce ct aad ≡ some m))
  unfolding open_sealed
  open_errors_by_algo aes256_gcm key nonce ct aad k =
      open_with_errors P.aes_256_gcm 12 L.aes_256_gcm-IsAead key nonce ct aad k
  open_errors_by_algo xchacha20_poly1305 key nonce ct aad k =
      open_with_errors P.xchacha20_poly1305 24 L.xchacha20_poly1305-IsAead key nonce ct aad k

  -- With lawful primitives: with a 32-byte key, `open` never panics: it fails with `AeadOpen`, or
  -- the nonce has the cipher's length and it returns what the cipher decrypts.
  pub open_sealed_errors :
      (c : AeadCipher) (nonce ct aad : Bytes)
      → length c.key ≡ 32
      → (open_sealed c nonce ct aad ≡ err aead_open)
        ⊎ ((m : Bytes) × (open_sealed c nonce ct aad ≡ ok m)
            × (length nonce ≡ nonce_len_of c.algo)
            × ((scheme c.algo).decrypt c.key nonce ct aad ≡ some m))
  open_sealed_errors c nonce ct aad k = open_errors_by_algo c.algo c.key nonce ct aad k
