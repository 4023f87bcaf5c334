-- ===== src/Tests/Vaults.antt =====
-- The theorems about vaults, on the sample volume.
use mathlib.Core.Path.{subst}
use mathlib.Core.Option
use aegis_keys_with_soteria.Prelude.{
  sym, ap, ◌∙◌, ◌≤◌, ◌≡◌, ◌⊎◌, refl, true, none, some, List, [], ◌∷◌, arith, length, replicate, ◌+◌,
  ◌*◌, ◌↔◌, ◌++◌,
}
use aegis_keys_with_soteria.Errors.{Result, ok, err, argon2, panic}
use aegis_keys_with_soteria.Errors.Effects.{World}
use aegis_keys_with_soteria.Primitives.{Bytes}
use aegis_keys_with_soteria.AegisKey.{expose, new, locked_key, lock_memory}
use aegis_keys_with_soteria.Kdf.{argon2id_root, derived, hkdf_sha256}
use aegis_keys_with_soteria.Aead.{xchacha20_poly1305}
use aegis_keys_with_soteria.Hierarchy.{literal, Domain, info_tag, shard, derive, from_master}
use aegis_keys_with_soteria.Table.{KeySlotTable, new_initial, enabled_count, count_enabled}
use aegis_keys_with_soteria.Table.Opens.{Opens}
use aegis_keys_with_soteria.Codec.{to_bytes, from_bytes}
use aegis_keys_with_soteria.Slots.{create, volume_verifier, is_enabled}
use aegis_keys_with_soteria.Vault.{
  AegisVault, domain, from_master_key, unlock, encrypt, decrypt, seal_slots, add_slot, revoke_slot,
  open_from_slots, rotate_master, verify_volume, slots_to_bytes,
}
use aegis_keys_with_soteria.Vault.Keys.{IsVault, unlock_result, rotate_master_total}
use aegis_keys_with_soteria.Vault.Panics.{open_from_slots-panic_iff}
use aegis_keys_with_soteria.Vault.Persist.{Opening, open_from_slots-Opening}
use aegis_keys_with_soteria.Vault.Reopen.{reopen, seal_slots_total, decrypt_elsewhere}
use aegis_keys_with_soteria.Vault.Lifecycle.{
  Reachable, from_key, after, seal, add, revoke, Reachable-IsVault, Reachable-verifies,
}
use aegis_keys_with_soteria.Vault.Survival
use aegis_keys_with_soteria.Vault.Survival.{Call, apply, apply_all, vault_after, always_reopens}
use aegis_keys_with_soteria.Table
use aegis_keys_with_soteria.Vault.Size.{Reachable-size}
use aegis_keys_with_soteria.Tests.Toy.{toy, toy-IsLawful, toy-IsRobust}
use aegis_keys_with_soteria.Tests.Volume.{
  master, alice, bob, slot_for, table, vault, vault-IsVault, alice-Opens, accepts,
}

abbrev fresh : AegisVault
fresh = record vault { slots = none }

fresh-IsVault : IsVault fresh
fresh-IsVault = record {
  master_length = refl;
  hierarchy_derived = vault-IsVault.hierarchy_derived;
  slots_for = tt;
}

fresh_made : from_master_key master 0 ≡ (ok fresh, 14)
unfolding from_master_key new locked_key lock_memory from_master derive hkdf_sha256 info_tag
fresh_made = refl

-- Sealed for alice, with a second slot for bob, and the first slot revoked.
abbrev handed_over : AegisVault
handed_over = (revoke_slot 0 (add_slot bob (seal_slots alice fresh 14).1 20).1).1

handed_over-Reachable : Reachable handed_over
handed_over-Reachable =
    after (after (after (from_key master 0 refl fresh_made) (seal alice 14)) (add bob 20))
      (revoke 0)

reopen_example :
    (v' : AegisVault) × (u : World) × (open_from_slots
        (to_bytes table)
        (replicate 32 5)
        alice
        fresh
        40
      ≡ (ok tt, v', u))
    × (expose v'.master ≡ master)
    × ((d : Domain) → expose (domain v' d) ≡ expose (domain vault d))
    × (v'.slots ≡ some table)
    × IsVault v'
    × (verify_volume v' ≡ ok true)
reopen_example = reopen toy-IsLawful vault fresh table alice 0 40 vault-IsVault refl alice-Opens

open_from_slots-Opening_example :
    Opening
      (to_bytes table)
      (replicate 32 5)
      bob
      fresh
      (open_from_slots (to_bytes table) (replicate 32 5) bob fresh 40)
open_from_slots-Opening_example =
    open_from_slots-Opening toy-IsLawful (to_bytes table) (replicate 32 5) bob fresh 40

decrypt_elsewhere_example :
    (nonce : Bytes) × (ct : Bytes) × (u : World) × (encrypt vault shard
        (literal "payload")
        (literal "aad")
        xchacha20_poly1305
        9
      ≡ (ok (nonce, ct), u))
    × (decrypt fresh shard nonce ct (literal "aad") xchacha20_poly1305 ≡ ok (literal "payload"))
decrypt_elsewhere_example =
    decrypt_elsewhere toy-IsLawful vault fresh shard (literal "payload") (literal "aad")
      xchacha20_poly1305 9 vault-IsVault fresh-IsVault refl (omega arith) (omega arith)

unlock_result_example :
    ((key : Bytes) × (v : AegisVault) × (u : World) × (derived alice (replicate 16 1) 64 3
        ≡ some key)
      × (unlock alice (replicate 16 1) 64 3 0 ≡ (ok v, u))
      × (expose v.master ≡ key)
      × (v.slots ≡ none)
      × IsVault v)
    ⊎ ((derived alice (replicate 16 1) 64 3 ≡ none)
        × (unlock alice (replicate 16 1) 64 3 0 ≡ (err argon2, 0)))
unlock_result_example = unlock_result toy-IsLawful alice (replicate 16 1) 64 3 0

rotate_master_total_example :
    (v' : AegisVault) × (u : World) × (rotate_master vault 3 ≡ (ok tt, v', u))
    × (expose v'.master ≡ replicate 32 3)
    × (v'.slots ≡ none)
    × IsVault v'
rotate_master_total_example = rotate_master_total toy-IsLawful vault 3

Reachable-IsVault_example : IsVault handed_over
Reachable-IsVault_example = Reachable-IsVault toy-IsLawful handed_over-Reachable

abbrev sealed : AegisVault
sealed = (seal_slots alice fresh 14).1

sealed-Reachable : Reachable sealed
sealed-Reachable = after (from_key master 0 refl fresh_made) (seal alice 14)

abbrev sealed_table : KeySlotTable
sealed_table = record {
  header_salt = replicate 32 14;
  slots = record (slot_for alice 18) { slot_id = replicate 16 19; salt = replicate 16 15 } ∷ [];
  verifier = volume_verifier master;
}

sealed_slots : sealed.slots ≡ some sealed_table
unfolding seal_slots new_initial create argon2id_root new locked_key
    aegis_keys_with_soteria.Aead.seal
sealed_slots = refl

Reachable-verifies_example : (verify_volume sealed ≡ ok true) × (1 ≤ enabled_count sealed_table)
Reachable-verifies_example =
    Reachable-verifies toy-IsLawful sealed_table sealed-Reachable sealed_slots

-- Sealed for alice and written; the revocation of her slot is refused; rotated, and opened from the
-- file.
abbrev calls : List Call
calls =
    Survival.seal alice
    ∷ Survival.persist
    ∷ Survival.revoke 0
    ∷ Survival.rotate
    ∷ Survival.load 0 alice
    ∷ []

sealed-Opens : Opens sealed_table alice 0 master
sealed-Opens =
    let (t, u, e, _, o, _) =
      seal_slots_total toy-IsLawful fresh alice 14 fresh-IsVault (accepts alice) in
    let same : t ≡ sealed_table =
      ap (λ (r : Result (Unit {0}) × AegisVault × World). Option.get_or r.1.slots sealed_table)
        (sym e)
      ∙ ap (λ o. Option.get_or o sealed_table) sealed_slots in
    subst (λ x. Opens x alice 0 master) same o

sealed_loads :
    (other : AegisVault) (w : World)
    → (open_from_slots (to_bytes sealed_table) sealed_table.header_salt alice other w).1.slots
      ≡ some sealed_table
unfolding seal_slots new_initial create argon2id_root new locked_key
    aegis_keys_with_soteria.Aead.seal
sealed_loads other w =
    let (v', u, e, _, _, s, _, _) =
      reopen toy-IsLawful sealed other sealed_table alice 0 w
        (Reachable-IsVault toy-IsLawful sealed-Reachable) sealed_slots sealed-Opens in
    ap (λ (r : Result (Unit {0}) × AegisVault × World). r.1.slots) e ∙ s ∙ sealed_slots

calls_slots : (vault_after calls fresh 14).slots ≡ some sealed_table
unfolding apply_all apply seal_slots revoke_slot Table.revoke_slot count_enabled is_enabled
    new_initial create argon2id_root new locked_key aegis_keys_with_soteria.Aead.seal
calls_slots = sealed_loads _ _

always_reopens_example :
    (p : Bytes) × ((other : AegisVault) (w2 : World)
      → (v' : AegisVault) × (u : World) × (open_from_slots
            (to_bytes sealed_table)
            sealed_table.header_salt
            p
            other
            w2
          ≡ (ok tt, v', u))
        × (expose v'.master ≡ expose (vault_after calls fresh 14).master)
        × (verify_volume v' ≡ ok true))
always_reopens_example =
    always_reopens toy-IsLawful toy-IsRobust calls fresh 14 sealed_table fresh-IsVault refl
      calls_slots

Reachable-size_example :
    (bytes : Bytes) × (slots_to_bytes sealed ≡ some bytes)
    × (length bytes ≡ 70 + 110 * length sealed_table.slots)
    × (1 ≤ length sealed_table.slots)
    × (length bytes ≤ 28120)
Reachable-size_example = Reachable-size toy-IsLawful sealed_table sealed-Reachable sealed_slots

-- Authentic bytes that end behind the version.
abbrev headless : Bytes
headless = let body = literal "SOTK" ++ 1 ∷ [] in body ++ toy.keyed_hash (replicate 32 5) body

open_from_slots-panic_iff_example :
    ((open_from_slots headless (replicate 32 5) alice fresh 3).0 ≡ panic)
    ↔ (from_bytes headless (replicate 32 5) ≡ panic)
open_from_slots-panic_iff_example =
    open_from_slots-panic_iff toy-IsLawful fresh headless (replicate 32 5) alice 3
