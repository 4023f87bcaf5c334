-- ===== src/Tests/Strict.antt =====
-- Concrete primitives that tell keys, associated data and messages apart: behind a message stands a
-- tag of a byte of the key, a checksum of the data and one of the message.
use aegis_keys_with_soteria.Prelude.{
  ℕ, ◌-◌, ◌%◌, ◌≡◌, refl, sym, ap, ◌∙◌, Option, none, some, [], ◌∷◌, ◌++◌, arith, length, replicate,
  take, drop, ◌==◌, ==_iff, if◌then◌else◌, length-append,
}
use aegis_keys_with_soteria.Prelude.Slices.{take-append_self, drop-append_self}
use aegis_keys_with_soteria.Primitives.{Bytes, Aead, Primitives, IsAead, IsLawful, IsRobust}
use aegis_keys_with_soteria.Codec.{bytes_eq}
use aegis_keys_with_soteria.Codec.Outcome.{bytes_eq_iff}
use aegis_keys_with_soteria.Tests.Toy.{checksum, toy, toy-IsLawful}

abbrev first : Bytes → ℕ
first [] = 0
first (b ∷ bytes) = b

abbrev strict_tag : Bytes → Bytes → Bytes → Bytes
strict_tag k d m = first k ∷ (checksum d % 256) ∷ (checksum m % 256) ∷ replicate 13 0

abbrev strict_open : Bytes → Bytes → Bytes → Bytes → Option Bytes
strict_open m t k d = if bytes_eq t (strict_tag k d m) then some m else none

abbrev strict_decrypt : Bytes → Bytes → Bytes → Bytes → Option Bytes
strict_decrypt k n c d = let split = length c - 16 in strict_open (take split c) (drop split c) k d

abbrev strict_aead : Aead
strict_aead = record {
  new_from_slice = λ k. length k == 32;
  encrypt = λ k n m d. some (m ++ strict_tag k d m);
  decrypt = strict_decrypt;
}

instance abbrev pub strict : Primitives
strict = record toy { aes_256_gcm = strict_aead; xchacha20_poly1305 = strict_aead }

decrypt-append :
    (k n m t d : Bytes) → length t ≡ 16 → strict_decrypt k n (m ++ t) d ≡ strict_open m t k d
decrypt-append k n m t d l =
    let split : length (m ++ t) - 16 ≡ length m = omega (arith, length-append m t) in
    rw (split, drop-append_self m t, take-append_self m t)

open_same : (k m d : Bytes) → strict_open m (strict_tag k d m) k d ≡ some m
open_same k m d = rw ((bytes_eq_iff (strict_tag k d m) (strict_tag k d m)).1 refl)

strict_aead-IsAead : (n : ℕ) → IsAead strict_aead n
strict_aead-IsAead n = record {
  accepts = λ k l. (==_iff (length k) 32).1 l;
  encrypts = λ k n m d l ln lm ld e. cc;
  tag = λ k n m d c e. ground (arith, length-append m (strict_tag k d m));
  inverse = λ k n m d c e.
      let same : m ++ strict_tag k d m ≡ c = cc in
      ap (λ x. strict_decrypt k n x d) (sym same)
      ∙ decrypt-append k n m (strict_tag k d m) d refl
      ∙ open_same k m d;
}

pub strict-IsLawful : IsLawful strict
strict-IsLawful = record {
  hash_password-length = toy-IsLawful.hash_password-length;
  hkdf_expand-length = toy-IsLawful.hkdf_expand-length;
  hkdf_expand_total = toy-IsLawful.hkdf_expand_total;
  aes_256_gcm-IsAead = strict_aead-IsAead 12;
  xchacha20_poly1305-IsAead = strict_aead-IsAead 24;
  keyed_hash-length = toy-IsLawful.keyed_hash-length;
  ct_eq_u8_iff = toy-IsLawful.ct_eq_u8_iff;
  ct_eq_slice_iff = toy-IsLawful.ct_eq_slice_iff;
  zeroize_lem = toy-IsLawful.zeroize_lem;
  fill_bytes-length = toy-IsLawful.fill_bytes-length;
  since_epoch-lt = toy-IsLawful.since_epoch-lt;
}

open_robust : (m t k d m' : Bytes) → strict_open m t k d ≡ some m' → m' ≡ m
open_robust m t k d m' e = ground arith

pub strict-IsRobust : IsRobust strict_aead
strict-IsRobust = record {
  robust = λ k k' n m m' d c e o.
      let same : m ++ strict_tag k d m ≡ c = cc in
      let opened = decrypt-append k' n m (strict_tag k d m) d refl in
      open_robust m (strict_tag k d m) k' d m'
        (sym opened ∙ ap (λ x. strict_decrypt k' n x d) same ∙ o);
}
