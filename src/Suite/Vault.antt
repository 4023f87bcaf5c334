-- ===== src/Suite/Vault.antt =====
-- The `tests` module of src/lib.rs, and tests/integration.rs.
pub mod Steps
pub mod Pass
pub mod Lifecycle
use text.Mathlib.Text.{◌==◌ as ◌==ₛ◌}
use aegis_keys_with_soteria.Prelude.{
  ℕ, ◌*◌, Bool, true, not, List, [], ◌∷◌, length, ◌==◌, if◌then◌else◌,
}
use aegis_keys_with_soteria.Errors.{Result, ok, expect, ◌>>=◌ as ◌>=>◌}
use aegis_keys_with_soteria.Errors.Effects.{Op, lift, ◌>>=◌, ◌>>◌}
use aegis_keys_with_soteria.Primitives.{Bytes, Primitives}
use aegis_keys_with_soteria.AegisKey.{ct_eq, debug}
use aegis_keys_with_soteria.Aead.{xchacha20_poly1305}
use aegis_keys_with_soteria.Hierarchy.{literal, Domain, enc, auth, meta, shard, xts, handle}
use aegis_keys_with_soteria.Codec.{bytes_eq}
use aegis_keys_with_soteria.Vault
use aegis_keys_with_soteria.Vault.{
  AegisVault, domain, unlock, encrypt, decrypt, seal_slots, slots_to_bytes, slots_header_salt,
  open_from_slots, verify_volume,
}
use aegis_keys_with_soteria.Client.{assert, expected, unwrap, unwrap_method, is_err, refused}

-- `!=` of domains compares their places in the enum.
unfoldable pub discriminant : Domain → ℕ
discriminant enc = 0
discriminant auth = 1
discriminant meta = 2
discriminant shard = 3
discriminant xts = 4
discriminant handle = 5

abbrev pub all_domains : List Domain
all_domains = enc ∷ auth ∷ meta ∷ shard ∷ xts ∷ handle ∷ []

abbrev pub integration_salt : Bytes
integration_salt = literal "integration-salt"

module _ ⦃P : Primitives⦄ where
  unfoldable pub vault_volume_verifier_detects_injection : Op (Unit {0})
  vault_volume_verifier_detects_injection = do
    fresh ← unwrap (unlock (literal "master-pw") (literal "public-salt-04") (32 * 1024) 2)
    (_, vault) ← unwrap_method (seal_slots (literal "master-pw")) fresh
    bytes ← lift (expected (slots_to_bytes vault))
    salt ← lift (expected (slots_header_salt vault))
    other ← unwrap (unlock (literal "master-pw") (literal "public-salt-04") (32 * 1024) 2)
    (_, reopened) ← unwrap_method (open_from_slots bytes salt (literal "master-pw")) other
    verified ← lift (verify_volume reopened)
    lift (assert verified)
    bare ← unwrap (unlock (literal "x") (literal "public-salt-04") (32 * 1024) 2)
    checked ← lift (verify_volume bare)
    lift (assert (not checked))

  -- The two loops of the integration test over the domains.
  unfoldable pub differs_from : AegisVault → Domain → List Domain → Result (Unit {0})
  differs_from v a [] = ok tt
  differs_from v a (b ∷ bs) =
      let rest = differs_from v a bs in
      if discriminant a == discriminant b
      then rest
      else assert (not (ct_eq (domain v a) (domain v b))) >=> λ _. rest

  unfoldable pub all_differ : AegisVault → List Domain → List Domain → Result (Unit {0})
  unfolding differs_from
  all_differ v [] ds = ok tt
  all_differ v (a ∷ as_left) ds = differs_from v a ds >=> λ _. all_differ v as_left ds

  unfoldable pub full_lifecycle_protected_keys : Op (Unit {0})
  full_lifecycle_protected_keys = do
    unlocked ←
        unwrap (unlock (literal "correct horse battery staple") integration_salt (32 * 1024) 2)
    lift (all_differ unlocked all_domains all_domains)
    (_, sealed) ← unwrap_method (seal_slots (literal "correct horse battery staple")) unlocked
    (_, vault) ← unwrap_method (Vault.add_slot (literal "bob-pw")) sealed
    table_bytes ← lift (expected (slots_to_bytes vault))
    lift (assert (not (length table_bytes == 0)))
    (nonce, ct) ←
        unwrap
          (encrypt vault enc (literal "classified payload") (literal "file=42") xchacha20_poly1305)
    pt ← lift (expect (decrypt vault enc nonce ct (literal "file=42") xchacha20_poly1305))
    lift (assert (bytes_eq pt (literal "classified payload")))
    failed ← lift (is_err (decrypt vault enc nonce ct (literal "file=43") xchacha20_poly1305))
    lift (assert failed)
    bytes ← lift (expected (slots_to_bytes vault))
    salt ← lift (expected (slots_header_salt vault))
    other ← unwrap (unlock (literal "ignored") integration_salt (32 * 1024) 2)
    (_, reopened) ← unwrap_method (open_from_slots bytes salt (literal "bob-pw")) other
    lift (assert (ct_eq reopened.master vault.master))
    lift (assert (debug vault.master ==ₛ "AegisKey(<redacted>)"))
