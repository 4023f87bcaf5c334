-- ===== src/Tests/Suites.antt =====
-- The tests of the crate over concrete primitives.
use aegis_keys_with_soteria.Prelude.{ℕ, ◌%◌, ◌≡◌, refl, replicate}
use aegis_keys_with_soteria.Errors.{ok}
use aegis_keys_with_soteria.Primitives.{Bytes}
use aegis_keys_with_soteria.Hierarchy.{literal}
use aegis_keys_with_soteria.Slots.Wrap.{Accepts}
use aegis_keys_with_soteria.Suite.Keys.{
  holds_and_zeroizes_on_drop, debug_is_redacted, ct_eq_is_constant_time_like,
  argon2id_deterministic, deterministic, legacy_uses_master_directly, info_tags_unique,
}
use aegis_keys_with_soteria.Suite.Slots.{
  round_trip_unseal, cannot_revoke_last_slot, table_serde_round_trip,
}
use aegis_keys_with_soteria.Suite.Vault.{vault_volume_verifier_detects_injection}
use aegis_keys_with_soteria.Suite.Lawful.{lawful_tests-pass}
use aegis_keys_with_soteria.Tests.Toy.{checksum}
use aegis_keys_with_soteria.Tests.Strict.{strict, strict-IsLawful}

abbrev key_of : Bytes → Bytes
key_of p = replicate 32 (checksum p % 256)

accepts : (p : Bytes) (m t : ℕ) → Accepts p m t
accepts p m t = record { accepted = λ salt l e. cc }

lawful_tests-pass_example :
    ((holds_and_zeroizes_on_drop 0).0 ≡ ok tt)
    × ((debug_is_redacted 0).0 ≡ ok tt)
    × ((ct_eq_is_constant_time_like 0).0 ≡ ok tt)
    × ((argon2id_deterministic 0).0 ≡ ok tt)
    × ((deterministic 0).0 ≡ ok tt)
    × ((legacy_uses_master_directly 0).0 ≡ ok tt)
    × (info_tags_unique ≡ ok tt)
    × ((round_trip_unseal 0).0 ≡ ok tt)
    × ((cannot_revoke_last_slot 0).0 ≡ ok tt)
    × ((table_serde_round_trip 0).0 ≡ ok tt)
    × ((vault_volume_verifier_detects_injection 0).0 ≡ ok tt)
lawful_tests-pass_example =
    lawful_tests-pass strict-IsLawful 0 (key_of (literal "correct horse"))
      (key_of (literal "master-pw")) (key_of (literal "x")) refl (accepts (literal "hunter2") 32 1)
      (accepts (literal "only-pw") 64 3) (accepts (literal "pw") 64 3) refl refl
      (accepts (literal "master-pw") 64 3)
