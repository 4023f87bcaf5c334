-- ===== src/Tests/Volume.antt =====
-- A volume with two slots over the concrete primitives: its table, its vault, and what the
-- theorems ask of them.
use mathlib.Core.Path.{subst}
use aegis_keys_with_soteria.Prelude.{
  ℕ, zero, suc, Option, none, ap, ◌≡◌, refl, true, false, some, [], ◌∷◌, ◌++◌, arith, replicate,
  take, ◌%◌,
}
use aegis_keys_with_soteria.Errors.{Result, ok, err, panic}
use aegis_keys_with_soteria.Primitives.{Bytes}
use aegis_keys_with_soteria.AegisKey.{AegisKey}
use aegis_keys_with_soteria.Kdf.{hkdf_sha256}
use aegis_keys_with_soteria.Hierarchy.{
  literal, Domain, master_salt, enc, auth, meta, shard, xts, handle, info_tag, domain,
}
use aegis_keys_with_soteria.Hierarchy.Separation.{IsDerived, NoCollision, domain_of}
use aegis_keys_with_soteria.Slots.{KeySlot, is_enabled, volume_verifier}
use aegis_keys_with_soteria.Slots.Wrap.{IsSlot, Accepts, decrypted, opening}
use aegis_keys_with_soteria.Table.{KeySlotTable, count_enabled, revoked, revoke_slot}
use aegis_keys_with_soteria.Table.Unseal.{FirstOpen, Closed}
use aegis_keys_with_soteria.Table.Grow.{IsTable, revoke_slot-IsTable}
use aegis_keys_with_soteria.Table.Opens.{Opens, FirstOpen-Opens}
use aegis_keys_with_soteria.Table.Access.{Binds}
use aegis_keys_with_soteria.Table.Held.{Held, nobody, next}
use aegis_keys_with_soteria.Codec.{bytes_eq}
use aegis_keys_with_soteria.Vault.{AegisVault}
use aegis_keys_with_soteria.Vault.Keys.{IsVault}
use aegis_keys_with_soteria.Tests.Toy.{checksum, toy, toy_tag, toy-IsLawful}

abbrev pub master : Bytes
master = replicate 32 7

abbrev pub alice : Bytes
alice = literal "alice"

abbrev pub bob : Bytes
bob = literal "bob"

-- A slot for a passphrase, with one byte for all that is random.
abbrev pub slot_for : Bytes → ℕ → KeySlot
slot_for passphrase r = record {
  slot_id = replicate 16 r;
  kdf_id = 1;
  m_cost = 64;
  t_cost = 3;
  salt = replicate 16 r;
  nonce = replicate 12 r;
  ct = master ++ toy_tag (replicate 32 (checksum passphrase % 256));
  flags = 1;
  created_at = 1700000000;
}

abbrev pub table : KeySlotTable
table = record {
  header_salt = replicate 32 5;
  slots = slot_for alice 1 ∷ slot_for bob 2 ∷ [];
  verifier = volume_verifier master;
}

abbrev pub key_of : Bytes → AegisKey
key_of b = record { buffer = record { bytes = b; pinned = true; dumped = false }; locked = true }

abbrev pub label_key : Bytes → AegisKey
label_key info = key_of (take 32 (info ++ (master ++ replicate 32 0)))

abbrev pub vault : AegisVault
vault = record {
  master = key_of master;
  hierarchy = record {
    k_enc = label_key (info_tag enc);
    k_auth = label_key (info_tag auth);
    k_meta = label_key (info_tag meta);
    k_shard = label_key (info_tag shard);
    k_xts = label_key (info_tag xts);
    k_handle = label_key (info_tag handle);
  };
  slots = some table;
}

pub slot_for-IsSlot : (passphrase : Bytes) (r : ℕ) → IsSlot (slot_for passphrase r)
slot_for-IsSlot passphrase r = record {
  slot_id_len = refl;
  salt_len = refl;
  nonce_len = refl;
  ct_len = refl;
  kdf_id_lt = omega arith;
  m_cost_lt = omega arith;
  t_cost_lt = omega arith;
  flags_lt = omega arith;
  created_at_lt = omega arith;
}

pub accepts : (passphrase : Bytes) → Accepts passphrase 64 3
accepts passphrase = record { accepted = λ salt l e. cc }

two_enabled : count_enabled table.slots ≡ 2
unfolding count_enabled is_enabled
two_enabled = refl

pub table-IsTable : IsTable master table
table-IsTable = record {
  salt_len = refl;
  all_slots = (slot_for-IsSlot alice 1, (slot_for-IsSlot bob 2, tt));
  fits = omega arith;
  open_slot = omega (arith, two_enabled);
  verifies = refl;
}

vault-IsDerived : IsDerived master vault.hierarchy
unfolding hkdf_sha256 domain
vault-IsDerived = elim [
  | enc ↦ refl
  | auth ↦ refl
  | meta ↦ refl
  | shard ↦ refl
  | xts ↦ refl
  | handle ↦ refl
]

pub vault-IsVault : IsVault vault
vault-IsVault = record {
  master_length = refl;
  hierarchy_derived = vault-IsDerived;
  slots_for = table-IsTable;
}

pub alice_enabled : is_enabled (slot_for alice 1) ≡ true
unfolding is_enabled
alice_enabled = refl

pub alice-opening : opening (slot_for alice 1) alice ≡ ok master
unfolding opening decrypted checksum bytes_eq
alice-opening = refl

alice_first : FirstOpen table.slots alice 0 master
alice_first = record {
  slot = slot_for alice 1;
  slot_at = refl;
  enabled = alice_enabled;
  opens = alice-opening;
  first = λ j s m lt. absurd (omega arith);
}

pub alice-Opens : Opens table alice 0 master
alice-Opens = FirstOpen-Opens toy-IsLawful table alice 0 master alice_first

opening-slot_for :
    (owner : Bytes) (r : ℕ) (passphrase m : Bytes)
    → opening (slot_for owner r) passphrase ≡ ok m
    → m ≡ master
unfolding opening decrypted
opening-slot_for owner r passphrase m h = ground arith

pub table-Binds : Binds master table
table-Binds zero s p m at on h = opening-slot_for alice 1 p m (cc)
table-Binds (suc zero) s p m at on h = opening-slot_for bob 2 p m (cc)
table-Binds (suc (suc j)) s p m at on h = cc

-- The table after the revocation of the first slot.
abbrev pub without_alice : KeySlotTable
without_alice = record table { slots = revoked (slot_for alice 1) ∷ slot_for bob 2 ∷ [] }

pub alice_revoked : revoke_slot 0 table ≡ (ok tt, without_alice)
unfolding revoke_slot is_enabled count_enabled revoked
alice_revoked = refl

alice_off : is_enabled (revoked (slot_for alice 1)) ≡ false
unfolding is_enabled revoked
alice_off = refl

pub without_alice-Binds : Binds master without_alice
without_alice-Binds zero s p m at on h = cc (alice_off)
without_alice-Binds (suc zero) s p m at on h = opening-slot_for bob 2 p m (cc)
without_alice-Binds (suc (suc j)) s p m at on h = cc

-- The vault with that table.
abbrev pub revoking : AegisVault
revoking = record vault { slots = some without_alice }

pub revoking-IsVault : IsVault revoking
revoking-IsVault = record {
  master_length = refl;
  hierarchy_derived = vault-IsDerived;
  slots_for =
      subst (IsTable master) (ap (λ r. r.1) alice_revoked)
        (revoke_slot-IsTable master 0 table table-IsTable);
}

pub bob_enabled : is_enabled (slot_for bob 2) ≡ true
unfolding is_enabled
bob_enabled = refl

pub bob-opening : opening (slot_for bob 2) bob ≡ ok master
unfolding opening decrypted checksum bytes_eq
bob-opening = refl

bob_first : FirstOpen without_alice.slots bob 1 master
bob_first = record {
  slot = slot_for bob 2;
  slot_at = refl;
  enabled = bob_enabled;
  opens = bob-opening;
  first = shut;
}
  where
    shut : Closed without_alice.slots bob 1
    shut zero s m lt at on = cc (alice_off)
    shut (suc j) s m lt at on = absurd (omega arith)

pub bob-Opens : Opens without_alice bob 1 master
bob-Opens = FirstOpen-Opens toy-IsLawful without_alice bob 1 master bob_first

pub table-Held : Held master (some alice ∷ some bob ∷ []) table.slots
table-Held =
    next (some alice) (slot_for alice 1)
      (record {
        enabled = alice_enabled;
        opens = alice-opening;
        binds = λ q m h. opening-slot_for alice 1 q m h;
      })
      (next (some bob) (slot_for bob 2)
        (record {
          enabled = bob_enabled;
          opens = bob-opening;
          binds = λ q m h. opening-slot_for bob 2 q m h;
        })
        nobody)

-- The domain whose label an output of the concrete HKDF starts with.
label_of : Result Bytes → Option Domain
label_of (ok okm) = domain_of okm
label_of (err e) = none
label_of panic = none

label_of-hkdf :
    (key : Bytes) (d : Domain) → label_of (hkdf_sha256 key master_salt (info_tag d)) ≡ some d
unfolding label_of hkdf_sha256 domain_of info_tag
label_of-hkdf key = elim [
  | enc ↦ refl
  | auth ↦ refl
  | meta ↦ refl
  | shard ↦ refl
  | xts ↦ refl
  | handle ↦ refl
]

pub no_collision : (key : Bytes) → NoCollision key
no_collision key a b h =
    let same : a ≡ b = cc (label_of-hkdf key a, label_of-hkdf key b, ap label_of h) in
    ap info_tag same
