-- ===== src/Tests/Toy.antt =====
-- A concrete instance of the external primitives, and the proof that it has the documented
-- behaviour. It keeps no secret: a ciphertext is the message with a tag of the key behind it.
use aegis_keys_with_soteria.Prelude.{
  ℕ, ◌+◌, ◌-◌, ◌*◌, ◌%◌, ◌≡◌, refl, true, Option, none, some, [], ◌∷◌, ◌++◌, arith, length,
  replicate, take, drop, leb, ◌==◌, ==_iff, if◌then◌else◌, length-append, length-replicate,
}
use aegis_keys_with_soteria.Prelude.Slices.{length-take, take-append_self, drop-append_self}
use aegis_keys_with_soteria.Primitives.{Bytes, Aead, Primitives, IsAead, IsLawful, IsRobust}
use aegis_keys_with_soteria.Codec.{bytes_eq}
use aegis_keys_with_soteria.Codec.Outcome.{bytes_eq_iff}

unfoldable pub checksum : Bytes → ℕ
checksum [] = 0
checksum (b ∷ bytes) = b + checksum bytes

abbrev pub toy_tag : Bytes → Bytes
toy_tag key = replicate 16 (checksum key % 256)

abbrev toy_decrypt : Bytes → Bytes → Bytes → Bytes → Option Bytes
toy_decrypt k n c d =
    let split = length c - 16 in
    if bytes_eq (drop split c) (toy_tag k) then some (take split c) else none

abbrev toy_aead : Aead
toy_aead = record {
  new_from_slice = λ k. length k == 32;
  encrypt = λ k n m d. some (m ++ toy_tag k);
  decrypt = toy_decrypt;
}

-- The output of HKDF is its input, cut to length.
abbrev toy_expand : Bytes → Bytes → Bytes → ℕ → Option Bytes
toy_expand salt ikm info n =
    if leb n (255 * 32) then some (take n (info ++ (ikm ++ replicate n 0))) else none

instance abbrev pub toy : Primitives
toy = record {
  params_new = λ m t p n. true;
  hash_password = λ m t p n pw salt. some (replicate n (checksum pw % 256));
  hkdf_expand = toy_expand;
  aes_256_gcm = toy_aead;
  xchacha20_poly1305 = toy_aead;
  keyed_hash = λ k d. replicate 32 (checksum (k ++ d) % 256);
  ct_eq_u8 = λ a b. a == b;
  ct_eq_slice = bytes_eq;
  zeroize = λ b. replicate (length b) 0;
  fill_bytes = λ k n. replicate n (k % 256);
  mlock = λ k n. true;
  munlock = λ k n. true;
  madvise = λ k. true;
  since_epoch = λ k. some 1700000000;
}

toy_decrypt_tag : (k n m d : Bytes) → toy_decrypt k n (m ++ toy_tag k) d ≡ some m
toy_decrypt_tag k n m d =
    let split : length (m ++ toy_tag k) - 16 ≡ length m =
      omega (arith, length-append m (toy_tag k), length-replicate {A = ℕ} 16 (checksum k % 256)) in
    let same = (bytes_eq_iff (toy_tag k) (toy_tag k)).1 refl in
    rw (split, drop-append_self m (toy_tag k), same, take-append_self m (toy_tag k))

toy_aead-IsAead : (n : ℕ) → IsAead toy_aead n
toy_aead-IsAead n = record {
  accepts = λ k l. (==_iff (length k) 32).1 l;
  encrypts = λ k n m d l ln lm ld e. cc;
  tag = λ k n m d c e. ground (arith, length-append m (toy_tag k));
  inverse = λ k n m d c e. ground (arith, toy_decrypt_tag k n m d);
}

expand-length :
    (salt ikm info : Bytes) (n : ℕ) (out : Bytes)
    → toy_expand salt ikm info n ≡ some out
    → length out ≡ n
expand-length salt ikm info n out e = ground (
  arith,
  length-take n (info ++ (ikm ++ replicate n 0)),
  length-append info (ikm ++ replicate n 0),
  length-append ikm (replicate n 0),
  length-replicate {A = ℕ} n 0,
)

pub toy-IsLawful : IsLawful toy
toy-IsLawful = record {
  hash_password-length =
      λ m t p n pw salt out e. ground (arith, length-replicate {A = ℕ} n (checksum pw % 256));
  hkdf_expand-length = expand-length;
  hkdf_expand_total = λ salt ikm info n l e. ground arith;
  aes_256_gcm-IsAead = toy_aead-IsAead 12;
  xchacha20_poly1305-IsAead = toy_aead-IsAead 24;
  keyed_hash-length = λ k d l. length-replicate {A = ℕ} 32 (checksum (k ++ d) % 256);
  ct_eq_u8_iff = ==_iff;
  ct_eq_slice_iff = bytes_eq_iff;
  zeroize_lem = λ b. refl;
  fill_bytes-length = λ k n. length-replicate {A = ℕ} n (k % 256);
  since_epoch-lt = λ k s e. ground arith;
}

pub toy-IsRobust : IsRobust toy_aead
toy-IsRobust = record {
  robust = λ k k' n m m' d c e o.
      let split : length (m ++ toy_tag k) - 16 ≡ length m =
        omega
          (arith, length-append m (toy_tag k), length-replicate {A = ℕ} 16 (checksum k % 256)) in
      ground (arith, split, take-append_self m (toy_tag k));
}
