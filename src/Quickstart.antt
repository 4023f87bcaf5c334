-- ===== src/Quickstart.antt =====
-- examples/quickstart.rs: a client of the crate that makes a vault for two users, encrypts, and
-- opens the vault again. An assertion that fails is a panic. What it prints is left out.
use text.Mathlib.Text.{◌==◌}
use text.Mathlib.TextPositions.{eq_refl}
use aegis_keys_with_soteria.Prelude.{◌*◌, ◌≡◌, refl, some, [], ◌∷◌, arith}
use aegis_keys_with_soteria.Errors.{ok, expect}
use aegis_keys_with_soteria.Errors.Effects.{World, Op, lift, ◌>>=◌, ◌>>◌}
use aegis_keys_with_soteria.Primitives.{Bytes, Primitives, IsLawful, IsRobust}
use aegis_keys_with_soteria.Client.{assert, expected, unwrap, unwrap_method}
use aegis_keys_with_soteria.AegisKey.{expose, debug}
use aegis_keys_with_soteria.Kdf.{derived}
use aegis_keys_with_soteria.Aead.{xchacha20_poly1305}
use aegis_keys_with_soteria.Hierarchy.{literal, enc}
use aegis_keys_with_soteria.Slots.Wrap.{Accepts}
use aegis_keys_with_soteria.Table.Refinement.{Held-Opens}
use aegis_keys_with_soteria.Codec.{bytes_eq}
use aegis_keys_with_soteria.Codec.Outcome.{bytes_eq_iff}
use aegis_keys_with_soteria.Vault
use aegis_keys_with_soteria.Vault.{
  AegisVault, unlock, seal_slots, slots_to_bytes, slots_header_salt, open_from_slots, encrypt,
  decrypt, verify_volume,
}
use aegis_keys_with_soteria.Vault.Keys.{unlock_total, decrypt-encrypt}
use aegis_keys_with_soteria.Vault.Reopen.{reopen}
use aegis_keys_with_soteria.Vault.Users.{seal_slots-Held, add_slot-Held}

abbrev pub passphrase : Bytes
passphrase = literal "correct horse battery staple"

abbrev pub launch_salt : Bytes
launch_salt = literal "public-launch-salt"

abbrev pub bob_passphrase : Bytes
bob_passphrase = literal "bob-pw"

abbrev payload : Bytes
payload = literal "classified payload"

abbrev file_aad : Bytes
file_aad = literal "file=1"

module _ ⦃P : Primitives⦄ where
  unfoldable pub quickstart : Op (Unit {0})
  quickstart = do
    unlocked ← unwrap (unlock passphrase launch_salt (32 * 1024) 2)
    (_, one_user) ← unwrap_method (seal_slots passphrase) unlocked
    (_, vault) ← unwrap_method (Vault.add_slot bob_passphrase) one_user
    (nonce, ct) ← unwrap (encrypt vault enc payload file_aad xchacha20_poly1305)
    pt ← lift (expect (decrypt vault enc nonce ct file_aad xchacha20_poly1305))
    lift (assert (bytes_eq pt payload))
    bytes ← lift (expected (slots_to_bytes vault))
    salt ← lift (expected (slots_header_salt vault))
    other ← unwrap (unlock (literal "ignored") launch_salt (32 * 1024) 2)
    (_, reopened) ← unwrap_method (open_from_slots bytes salt bob_passphrase) other
    verified ← lift (verify_volume reopened)
    lift (assert verified)
    lift (assert (debug vault.master == "AegisKey(<redacted>)"))

  -- With lawful primitives and a robust AES-256-GCM, where Argon2 takes the passphrases: the program
  -- runs to its end, with no panic and no assertion that fails.
  pub quickstart_completes :
      IsLawful P
      → IsRobust P.aes_256_gcm
      → (key ignored : Bytes) (w : World) → derived passphrase launch_salt (32 * 1024) 2 ≡ some key
      → derived (literal "ignored") launch_salt (32 * 1024) 2 ≡ some ignored
      → Accepts passphrase 64 3
      → Accepts bob_passphrase 64 3
      → (u : World) × (quickstart w ≡ (ok tt, u))
  unfolding quickstart slots_to_bytes slots_header_salt debug
  quickstart_completes L r key ignored w k d a b =
      let (v0, u0, e0, i0) = unlock_total L passphrase launch_salt key (32 * 1024) 2 w k in
      let (t1, u1, e1, i1, h1) = seal_slots-Held L r v0 passphrase u0 i0 a in
      let v1 : AegisVault = record v0 { slots = some t1 } in
      let master = expose v0.master in
      let (t2, u2, e2, i2, h2) =
        add_slot-Held L r v1 t1 (some passphrase ∷ []) bob_passphrase u1 i1 refl h1 (omega arith)
          b in
      let v2 : AegisVault = record v0 { slots = some t2 } in
      let (nonce, ct, u3, e3, d3) =
        decrypt-encrypt L v2 enc payload file_aad xchacha20_poly1305 u2 i2 (omega arith)
          (omega arith) in
      let (v4, u4, e4, _) =
        unlock_total L (literal "ignored") launch_salt ignored (32 * 1024) 2 u3 d in
      let (n, _, o) =
        Held-Opens master L (some passphrase ∷ some bob_passphrase ∷ []) t2 1 bob_passphrase h2
          refl in
      let (v5, u5, e5, _, _, _, _, verified) = reopen L v2 v4 t2 bob_passphrase n u4 i2 refl o in
      let same = (bytes_eq_iff payload payload).1 refl in
      (
        u5,
        rw (e0, e1, e2, e3, d3, same, e4, e5, verified)
            (ground (arith, eq_refl "AegisKey(<redacted>)")),
      )
