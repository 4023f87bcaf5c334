-- ===== src/Tests/Keys.antt =====
-- The theorems about keys, ciphers and the hierarchy, over the concrete primitives.
use aegis_keys_with_soteria.Prelude.{ℕ, ◌≡◌, ◌↔◌, ◌⊎◌, refl, true, some, length, replicate, arith}
use aegis_keys_with_soteria.Errors.{ok, err, aead_open}
use aegis_keys_with_soteria.Errors.Effects.{World}
use aegis_keys_with_soteria.Primitives.{Bytes}
use aegis_keys_with_soteria.AegisKey.{AegisKey, expose, locked_key, ct_eq, drop_key, burn}
use aegis_keys_with_soteria.AegisKey.Compare.{ct_eq_iff}
use aegis_keys_with_soteria.AegisKey.Memory.{Released, lifecycle_wipes}
use aegis_keys_with_soteria.Aead.{AeadCipher, aes256_gcm, seal, open_sealed, scheme}
use aegis_keys_with_soteria.Aead.Laws.{open-seal, open_sealed_errors}
use aegis_keys_with_soteria.Hierarchy.{literal, Domain, KeyHierarchy, domain, from_master}
use aegis_keys_with_soteria.Hierarchy.Separation.{from_master_separates}
use aegis_keys_with_soteria.Tests.Toy.{toy, toy-IsLawful}
use aegis_keys_with_soteria.Tests.Volume.{no_collision, master, key_of}

abbrev cipher : AeadCipher
cipher = record { algo = aes256_gcm; key = master }

ct_eq_iff_example :
    (ct_eq (key_of (literal "key")) (key_of (literal "kez")) ≡ true)
    ↔ (expose (key_of (literal "key")) ≡ expose (key_of (literal "kez")))
ct_eq_iff_example = ct_eq_iff toy-IsLawful (key_of (literal "key")) (key_of (literal "kez"))

lifecycle_wipes_example :
    let k = (locked_key (literal "key") 0).0 in
    Released 3 k 2 (drop_key k 2).0 × Released 3 k 2 (burn k 2).0
lifecycle_wipes_example = lifecycle_wipes toy-IsLawful (literal "key") 0 2

open-seal_example :
    (nonce : Bytes) × (ct : Bytes) × (seal cipher (literal "message") (literal "aad") 4
      ≡ (ok (nonce, ct), 5))
    × (length nonce ≡ 12)
    × (open_sealed cipher nonce ct (literal "aad") ≡ ok (literal "message"))
open-seal_example =
    open-seal toy-IsLawful cipher (literal "message") (literal "aad") refl 4 (omega arith)
      (omega arith)

open_sealed_errors_example :
    (open_sealed cipher (replicate 12 4) (literal "no ciphertext") (literal "aad") ≡ err aead_open)
    ⊎ ((m : Bytes) × (open_sealed cipher (replicate 12 4) (literal "no ciphertext") (literal "aad")
          ≡ ok m)
        × (length (replicate {A = ℕ} 12 4) ≡ 12)
        × ((scheme aes256_gcm).decrypt master
              (replicate 12 4)
              (literal "no ciphertext")
              (literal "aad")
            ≡ some m))
open_sealed_errors_example =
    open_sealed_errors toy-IsLawful cipher (replicate 12 4) (literal "no ciphertext")
      (literal "aad") refl

from_master_separates_example :
    (h : KeyHierarchy) × (v : World) × (from_master master 0 ≡ (ok h, v))
    × ((a b : Domain) → (ct_eq (domain h a) (domain h b) ≡ true) ↔ (a ≡ b))
from_master_separates_example = from_master_separates toy-IsLawful master 0 (no_collision master)
