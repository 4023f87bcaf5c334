-- ===== src/Primitives.antt =====
-- The code that the crate calls and does not contain: argon2, hkdf, aes-gcm, chacha20poly1305,
-- blake3, subtle, zeroize, libc and the operating system. Each is a parameter; `IsLawful` states
-- the documented behaviour that the crate relies on. Nothing is assumed about secrecy. The primitives
-- answer: runs in which the generator of the system fails, and `OsRng` panics, or in which memory
-- cannot be allocated, are left out.
use aegis_keys_with_soteria.Prelude.{
  ℕ, ◌+◌, ◌*◌, ◌^◌, ◌≤◌, ◌<◌, ◌≡◌, ◌≢◌, ◌↔◌, Bool, true, Option, none, some, List, length,
  replicate,
}

abbrev pub Bytes : Type 0
Bytes = List ℕ

abbrev pub IsByte : ℕ → Type 0
IsByte b = b < 256

-- An AEAD cipher with a fixed key: key, nonce, message or ciphertext, associated data.
pub record Aead : Type 0 where
  pub new_from_slice : Bytes → Bool
  pub encrypt : Bytes → Bytes → Bytes → Bytes → Option Bytes
  pub decrypt : Bytes → Bytes → Bytes → Bytes → Option Bytes

pub record Primitives : Type 0 where
  -- argon2: `Params::new(m, t, p, Some(len))` succeeds; `hash_password_into` for these parameters.
  pub params_new : ℕ → ℕ → ℕ → ℕ → Bool
  pub hash_password : ℕ → ℕ → ℕ → ℕ → Bytes → Bytes → Option Bytes
  -- `Hkdf::<Sha256>::new(Some(salt), ikm)` and `expand(info, &mut okm)` for `okm` of this length.
  pub hkdf_expand : Bytes → Bytes → Bytes → ℕ → Option Bytes
  pub aes_256_gcm : Aead
  pub xchacha20_poly1305 : Aead
  -- `blake3::keyed_hash(key, data)`
  pub keyed_hash : Bytes → Bytes → Bytes
  -- subtle's `ct_eq`, on `u8` and on slices.
  pub ct_eq_u8 : ℕ → ℕ → Bool
  pub ct_eq_slice : Bytes → Bytes → Bool
  pub zeroize : Bytes → Bytes
  -- The answers to the request with this number: `OsRng.fill_bytes` for so many bytes, whether
  -- `mlock` and `munlock` of so many bytes succeed, whether `madvise` does, and the clock since the epoch (none
  -- if it stands before it).
  pub fill_bytes : ℕ → ℕ → Bytes
  pub mlock : ℕ → ℕ → Bool
  pub munlock : ℕ → ℕ → Bool
  pub madvise : ℕ → Bool
  pub since_epoch : ℕ → Option ℕ

-- Messages and associated data up to this length are accepted by both ciphers (their own limits, for
-- associated data 2 ^ 36 bytes with AES-GCM, are higher).
abbrev pub message_limit : ℕ
message_limit = 2 ^ 32

pub record IsAead (a : Aead) (nonce_len : ℕ) : Type 0 where
  pub accepts : (k : Bytes) → length k ≡ 32 → a.new_from_slice k ≡ true
  pub encrypts :
      (k n m d : Bytes)
      → length k ≡ 32
      → length n ≡ nonce_len
      → length m ≤ message_limit
      → length d ≤ message_limit
      → a.encrypt k n m d ≢ none
  pub tag : (k n m d c : Bytes) → a.encrypt k n m d ≡ some c → length c ≡ length m + 16
  pub inverse : (k n m d c : Bytes) → a.encrypt k n m d ≡ some c → a.decrypt k n c d ≡ some m

pub record IsLawful (P : Primitives) : Type 0 where
  pub hash_password-length :
      (m t p n : ℕ) (pw salt out : Bytes)
      → P.hash_password m t p n pw salt ≡ some out
      → length out ≡ n
  pub hkdf_expand-length :
      (salt ikm info : Bytes) (n : ℕ) (out : Bytes)
      → P.hkdf_expand salt ikm info n ≡ some out
      → length out ≡ n
  -- RFC 5869: the output is at most 255 hashes long.
  pub hkdf_expand_total :
      (salt ikm info : Bytes) (n : ℕ) → n ≤ 255 * 32 → P.hkdf_expand salt ikm info n ≢ none
  pub aes_256_gcm-IsAead : IsAead P.aes_256_gcm 12
  pub xchacha20_poly1305-IsAead : IsAead P.xchacha20_poly1305 24
  pub keyed_hash-length : (k d : Bytes) → length k ≡ 32 → length (P.keyed_hash k d) ≡ 32
  pub ct_eq_u8_iff : (a b : ℕ) → (P.ct_eq_u8 a b ≡ true) ↔ (a ≡ b)
  pub ct_eq_slice_iff : (a b : Bytes) → (P.ct_eq_slice a b ≡ true) ↔ (a ≡ b)
  pub zeroize_lem : (b : Bytes) → P.zeroize b ≡ replicate (length b) 0
  pub fill_bytes-length : (k n : ℕ) → length (P.fill_bytes k n) ≡ n
  pub since_epoch-lt : (k s : ℕ) → P.since_epoch k ≡ some s → s < 2 ^ 64

-- Of the authentication failure that a wrong key is documented to give, what theorems about several
-- passphrases need: no key opens a ciphertext to another message than was encrypted. It is an ideal.
-- For keys that are drawn independently of the ciphertext it fails with negligible probability; but
-- AES-256-GCM does not commit to its key, and whoever chooses the keys and the ciphertext can break
-- it. So it is not among the laws, and a theorem that needs it says so.
pub record IsRobust (a : Aead) : Type 0 where
  pub robust :
      (k k' n m m' d c : Bytes) → a.encrypt k n m d ≡ some c → a.decrypt k' n c d ≡ some m' → m' ≡ m
