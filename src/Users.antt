-- ===== src/Users.antt =====
-- What a slot table promises, with no keys and no bytes: for each slot the passphrase that it was
-- made for, or nothing once it is revoked. The specification of `KeySlotTable` of src/slots.rs.
use aegis_keys_with_soteria.Prelude.{
  ℕ, suc, ◌≤◌, ◌<◌, ◌≡◌, Option, none, some, List, [], ◌∷◌, ◌++◌, length, get_elem?, set,
}
use aegis_keys_with_soteria.Errors.{
  Result, ok, err, argon2, slot_unseal, last_slot_revocation, slot_table_full,
}
use aegis_keys_with_soteria.Primitives.{Bytes}

abbrev pub Users : Type 0
Users = List (Option Bytes)

unfoldable pub active : Users → ℕ
active [] = 0
active (none ∷ us) = active us
active (some p ∷ us) = suc (active us)

pub data Request : Type 0 where
  add : Bytes → Request
  revoke : ℕ → Request

-- The answers that the specification allows, with the users after each: the index that the request
-- is about, or an error. `Refused` are the passphrases that Argon2 may not take.
pub data Allows (Refused : Bytes → Type 0) (us : Users) : Request → Result ℕ → Users → Type 0 where
  added :
      (p : Bytes) → length us < 16 → Allows Refused us (add p) (ok (length us)) (us ++ some p ∷ [])
  full : (p : Bytes) → 16 ≤ length us → Allows Refused us (add p) (err (slot_table_full 16)) us
  not_derived : (p : Bytes) → Refused p → length us < 16 → Allows Refused us (add p) (err argon2) us
  missing : (i : ℕ) → length us ≤ i → Allows Refused us (revoke i) (err slot_unseal) us
  gone : (i : ℕ) → get_elem? us i ≡ some none → Allows Refused us (revoke i) (ok i) us
  last_one :
      (i : ℕ) (p : Bytes)
      → get_elem? us i ≡ some (some p)
      → active us ≤ 1
      → Allows Refused us (revoke i) (err last_slot_revocation) us
  removed :
      (i : ℕ) (p : Bytes)
      → get_elem? us i ≡ some (some p)
      → 2 ≤ active us
      → Allows Refused us (revoke i) (ok i) (set us i none)
