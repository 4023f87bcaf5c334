-- ===== src/Tests/Tables.antt =====
-- The theorems about slots and tables, on the sample volume.
use aegis_keys_with_soteria.Prelude.{ℕ, ◌≡◌, ◌≢◌, ◌⊎◌, refl, true, none, arith, replicate}
use aegis_keys_with_soteria.Errors.{ok, err, argon2, result_map}
use aegis_keys_with_soteria.Errors.Effects.{World}
use aegis_keys_with_soteria.AegisKey.{expose}
use aegis_keys_with_soteria.Kdf.{derived}
use aegis_keys_with_soteria.Slots.{KeySlot, create, unseal, is_enabled}
use aegis_keys_with_soteria.Slots.Wrap.{Seals, IsSlot, opening, unseal-opening, create_result}
use aegis_keys_with_soteria.Table.{add_slot, revoke_slot, unseal_with}
use aegis_keys_with_soteria.Table.Revoke.{Revocation, revoke_slot-Revocation}
use aegis_keys_with_soteria.Table.Unseal.{Search, unseal_with-first}
use aegis_keys_with_soteria.Table.Opens.{Opens}
use aegis_keys_with_soteria.Table.Access.{
  add_slot_keeps_access, revoke_slot_closes, revoke_slot_keeps_access,
}
use aegis_keys_with_soteria.Tests.Toy.{toy, toy-IsLawful}
use aegis_keys_with_soteria.Tests.Volume.{
  master, alice, bob, slot_for, table, alice-Opens, bob-Opens, without_alice, alice_revoked,
}

revoke_slot-Revocation_example : Revocation 1 table (revoke_slot 1 table)
revoke_slot-Revocation_example = revoke_slot-Revocation 1 table

unseal_with-first_example : Search 0 table.slots bob (unseal_with bob table 0)
unseal_with-first_example = unseal_with-first toy-IsLawful table bob 0

unseal-opening_example :
    result_map expose (unseal (slot_for alice 1) bob 0).0 ≡ opening (slot_for alice 1) bob
unseal-opening_example = unseal-opening toy-IsLawful (slot_for alice 1) bob 0

create_result_example :
    ((s : KeySlot) × (v : World) × (create master bob 128 4 0 ≡ (ok s, v))
      × (opening s bob ≡ ok master)
      × (is_enabled s ≡ true)
      × IsSlot s
      × Seals master bob s)
    ⊎ ((derived bob (replicate 16 0) 128 4 ≡ none) × (create master bob 128 4 0 ≡ (err argon2, 1)))
create_result_example =
    create_result toy-IsLawful master bob 128 4 refl 0 (omega arith) (omega arith)

revoke_slot_closes_example : ◌≢◌ {A = ℕ} 0 1
revoke_slot_closes_example =
    revoke_slot_closes toy-IsLawful 0 table without_alice bob master 1 alice_revoked bob-Opens

revoke_slot_keeps_access_example : Opens (revoke_slot 1 table).1 alice 0 master
revoke_slot_keeps_access_example =
    revoke_slot_keeps_access toy-IsLawful 1 table alice master 0 (λ e. omega arith) alice-Opens

add_slot_keeps_access_example : Opens (add_slot master bob table 0).1 alice 0 master
add_slot_keeps_access_example =
    add_slot_keeps_access toy-IsLawful master bob table 0 alice master 0 alice-Opens
