-- ===== src/AegisKey.antt =====
-- src/aegis_key.rs: key material in a locked buffer that is wiped when it is dropped.
pub mod Memory
pub mod Compare
use aegis_keys_with_soteria.Prelude.{
  ℕ, suc, Bool, not, true, false, List, [], ◌∷◌, ◌==◌, length, replicate, bit_or, bit_xor, String,
  if◌then◌else◌,
}
use aegis_keys_with_soteria.Errors.{Result, ok}
use aegis_keys_with_soteria.Errors.Effects.{World, Op}
use aegis_keys_with_soteria.Primitives.{Bytes, Primitives}

-- An allocation, with what the operating system holds of it: pinned to memory, part of core dumps.
pub record Buffer : Type 0 where
  pub bytes : Bytes
  pub pinned : Bool
  pub dumped : Bool

pub record AegisKey : Type 0 where
  pub buffer : Buffer
  pub locked : Bool

abbrev pub expose : AegisKey → Bytes
expose k = k.buffer.bytes

abbrev pub len : AegisKey → ℕ
len k = length (expose k)

unfoldable pub is_empty : AegisKey → Bool
is_empty k = len k == 0

-- `vec![0u8; n]`: a fresh allocation.
abbrev pub alloc : ℕ → Buffer
alloc n = record { bytes = replicate n 0; pinned = false; dumped = true }

-- `format!("{:?}", key)`
unfoldable pub debug : AegisKey → String
debug k = "AegisKey(<redacted>)"

-- The loop of `ct_eq` over the zipped bytes.
unfoldable pub fold_bytes : ℕ → Bytes → Bytes → ℕ
fold_bytes acc [] _ = acc
fold_bytes acc (a ∷ xs) [] = acc
fold_bytes acc (a ∷ xs) (b ∷ ys) = fold_bytes (bit_or acc (bit_xor a b)) xs ys

module _ ⦃P : Primitives⦄ where
  -- The results of `madvise` are ignored by the code; where it fails, nothing changes.
  unfoldable pub lock_memory : Buffer → World → Bool × Buffer × World
  lock_memory b w =
      if P.mlock w (length b.bytes)
      then (
        true,
        record b { pinned = true; dumped = if P.madvise (suc w) then false else b.dumped },
        suc (suc w),
      )
      else (false, b, suc w)

  -- `madvise`, and then `munlock`, whose result is ignored too.
  unfoldable pub unlock_memory : Buffer → World → List Buffer × World
  unlock_memory b w =
      let advised = record b { dumped = if P.madvise w then true else b.dumped } in
      let unpinned = P.munlock (suc w) (length b.bytes) in
      let last = record advised { pinned = if unpinned then false else advised.pinned } in
      (advised ∷ last ∷ [], suc (suc w))

  -- The buffer has the length of the material, so that `copy_from_slice` does not panic.
  unfoldable pub locked_key : Bytes → World → AegisKey × World
  unfolding lock_memory
  locked_key material w =
      let zeroed = alloc (length material) in
      let (locked, b, w') = lock_memory (record zeroed { bytes = material }) w in
      (record { buffer = b; locked = locked }, w')

  unfoldable pub new : Bytes → Op AegisKey
  new material w = let (k, w') = locked_key material w in (ok k, w')

  abbrev pub new32 : Bytes → Op AegisKey
  new32 = new

  unfoldable pub ct_eq : AegisKey → AegisKey → Bool
  ct_eq a b =
      if not (len a == len b) then false else P.ct_eq_u8 (fold_bytes 0 (expose a) (expose b)) 0

  -- `Drop`: the states that the allocation goes through after its last use, the last one being that
  -- in which it goes back to the allocator.
  unfoldable pub drop_key : AegisKey → World → List Buffer × World
  unfolding unlock_memory
  drop_key k w =
      let wiped = record k.buffer { bytes = P.zeroize (expose k) } in
      let (states, w') = unlock_memory wiped w in
      if k.locked then (wiped ∷ states, w') else (wiped ∷ [], w)

  -- `burn` wipes the bytes, and the key is dropped at the end of the call.
  unfoldable pub burn : AegisKey → World → List Buffer × World
  unfolding drop_key
  burn k w =
      let wiped = record k { buffer = record k.buffer { bytes = P.zeroize (expose k) } } in
      let (states, w') = drop_key wiped w in (wiped.buffer ∷ states, w')
