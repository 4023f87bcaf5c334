-- ===== src/Suite/Lawful.antt =====
-- The tests of the crate whose outcome rests on the documented behaviour of the dependencies alone.
use aegis_keys_with_soteria.Prelude.{◌*◌, ◌≡◌, some, replicate}
use aegis_keys_with_soteria.Errors.{ok}
use aegis_keys_with_soteria.Errors.Effects.{World}
use aegis_keys_with_soteria.Primitives.{Bytes, Primitives, IsLawful}
use aegis_keys_with_soteria.Kdf.{derived}
use aegis_keys_with_soteria.Hierarchy.{literal}
use aegis_keys_with_soteria.Slots.Wrap.{Accepts}
use aegis_keys_with_soteria.Suite.Keys.{
  holds_and_zeroizes_on_drop, debug_is_redacted, ct_eq_is_constant_time_like,
  argon2id_deterministic, deterministic, legacy_uses_master_directly, info_tags_unique,
}
use aegis_keys_with_soteria.Suite.Keys.Memory.{
  holds_and_zeroizes_on_drop-passes, debug_is_redacted-passes, ct_eq_is_constant_time_like-passes,
  argon2id_deterministic-passes,
}
use aegis_keys_with_soteria.Suite.Keys.Domains.{
  info_tags_unique-passes, deterministic-passes, legacy_uses_master_directly-passes,
}
use aegis_keys_with_soteria.Suite.Slots.{
  round_trip_unseal, cannot_revoke_last_slot, table_serde_round_trip,
}
use aegis_keys_with_soteria.Suite.Slots.Single.{round_trip_unseal-passes}
use aegis_keys_with_soteria.Suite.Slots.Stored.{
  cannot_revoke_last_slot-passes, table_serde_round_trip-passes,
}
use aegis_keys_with_soteria.Suite.Vault.{vault_volume_verifier_detects_injection}
use aegis_keys_with_soteria.Suite.Vault.Pass.{vault_volume_verifier_detects_injection-passes}

module _ ⦃P : Primitives⦄ where
  -- With lawful primitives, where Argon2 takes the passphrases of these tests at their costs: the
  -- three tests of aegis_key.rs, `argon2id_deterministic` of kdf.rs, `deterministic`,
  -- `legacy_uses_master_directly` and `info_tags_unique` of hierarchy.rs, `round_trip_unseal`,
  -- `cannot_revoke_last_slot` and `table_serde_round_trip` of slots.rs, and
  -- `vault_volume_verifier_detects_injection` of lib.rs pass, with no assertion that fails and no
  -- panic.
  pub lawful_tests-pass :
      IsLawful P
      → (w : World) (root key other : Bytes)
      → derived (literal "correct horse") (replicate 16 0x11) 64 3 ≡ some root
      → Accepts (literal "hunter2") 32 1
      → Accepts (literal "only-pw") 64 3
      → Accepts (literal "pw") 64 3
      → derived (literal "master-pw") (literal "public-salt-04") (32 * 1024) 2 ≡ some key
      → derived (literal "x") (literal "public-salt-04") (32 * 1024) 2 ≡ some other
      → Accepts (literal "master-pw") 64 3
      → ((holds_and_zeroizes_on_drop w).0 ≡ ok tt)
        × ((debug_is_redacted w).0 ≡ ok tt)
        × ((ct_eq_is_constant_time_like w).0 ≡ ok tt)
        × ((argon2id_deterministic w).0 ≡ ok tt)
        × ((deterministic w).0 ≡ ok tt)
        × ((legacy_uses_master_directly w).0 ≡ ok tt)
        × (info_tags_unique ≡ ok tt)
        × ((round_trip_unseal w).0 ≡ ok tt)
        × ((cannot_revoke_last_slot w).0 ≡ ok tt)
        × ((table_serde_round_trip w).0 ≡ ok tt)
        × ((vault_volume_verifier_detects_injection w).0 ≡ ok tt)
  lawful_tests-pass L w root key other d hunter only pw d1 d2 a = (
    holds_and_zeroizes_on_drop-passes w,
    debug_is_redacted-passes w,
    ct_eq_is_constant_time_like-passes L w,
    argon2id_deterministic-passes L w root d,
    deterministic-passes L w,
    legacy_uses_master_directly-passes L w,
    info_tags_unique-passes,
    round_trip_unseal-passes L w hunter,
    cannot_revoke_last_slot-passes L w only,
    table_serde_round_trip-passes L w pw,
    vault_volume_verifier_detects_injection-passes L w key other d1 d2 a,
  )
