-- ===== src/Suite/Vault/Lifecycle.antt =====
-- tests/integration.rs.
use aegis_keys_with_soteria.Prelude.{◌⊎◌}
use aegis_keys_with_soteria.Primitives.{Bytes, Primitives, IsLawful}
use aegis_keys_with_soteria.AegisKey.{expose}
use aegis_keys_with_soteria.Vault.{AegisVault}
use aegis_keys_with_soteria.Vault.Keys.{IsVault}
use aegis_keys_with_soteria.Suite.Accidents.{Accident}

module _ ⦃P : Primitives⦄ (L : IsLawful P) where
  module _ (v : AegisVault) (i : IsVault v) (aad other : Bytes) where
    abbrev OrAccident : Type 0 → Type 0
    OrAccident A = A ⊎ Accident (expose v.master) aad other
