-- ===== src/Tests/Codecs.antt =====
-- The theorems about the byte format, on the bytes of the sample table.
use aegis_keys_with_soteria.Prelude.{
  ◌+◌, ◌≤◌, ◌≡◌, ◌↔◌, ◌++◌, refl, length, replicate, arith, [], ◌∷◌, All, Bool, true, ◌&&◌, ltb,
}
use aegis_keys_with_soteria.Errors.{ok, panic}
use aegis_keys_with_soteria.Primitives.{Bytes, IsByte}
use aegis_keys_with_soteria.Slots.{header_magic, volume_verifier}
use aegis_keys_with_soteria.Codec.{
  to_bytes, from_bytes, encode_body, encode_slots, encode_slot, to_le_bytes,
}
use aegis_keys_with_soteria.Codec.Parse.{slots_end, table_at}
use aegis_keys_with_soteria.Codec.Outcome.{
  body_of, IsAuthentic, EndsAtUncheckedByte, from_bytes-panic_iff, from_bytes-ok_iff,
}
use aegis_keys_with_soteria.Codec.RoundTrip.{IsEncodable, from_bytes-to_bytes}
use aegis_keys_with_soteria.Codec.Canonical.{from_bytes_canonical}
use aegis_keys_with_soteria.Vault.Persist.{IsTable-IsEncodable}
use aegis_keys_with_soteria.Tests.Toy.{checksum, toy, toy-IsLawful}
use aegis_keys_with_soteria.Tests.Volume.{master, table, table-IsTable}

abbrev salt : Bytes
salt = replicate 32 5

table-IsEncodable : IsEncodable table
table-IsEncodable = IsTable-IsEncodable toy-IsLawful master table table-IsTable

from_bytes-to_bytes_example : from_bytes (to_bytes table) salt ≡ ok table
from_bytes-to_bytes_example = from_bytes-to_bytes toy-IsLawful table table-IsEncodable

-- An authentic input whose body ends behind the version byte.
abbrev headless : Bytes
headless = let body = header_magic ++ 1 ∷ [] in body ++ toy.keyed_hash salt body

from_bytes-panic_iff_example :
    (from_bytes headless salt ≡ panic)
    ↔ (IsAuthentic headless salt × EndsAtUncheckedByte (body_of headless))
from_bytes-panic_iff_example = from_bytes-panic_iff toy-IsLawful headless salt

from_bytes-ok_iff_example : (from_bytes (to_bytes table) salt ≡ ok table) ↔ (
    IsAuthentic (to_bytes table) salt
    × (slots_end (body_of (to_bytes table)) + 32 ≤ length (body_of (to_bytes table)))
    × (table ≡ table_at (body_of (to_bytes table)) salt))
from_bytes-ok_iff_example = from_bytes-ok_iff toy-IsLawful (to_bytes table) salt table

all_bytes : Bytes → Bool
all_bytes [] = true
all_bytes (b ∷ bytes) = ltb b 256 && all_bytes bytes

all_bytes-IsByte : (b : Bytes) → all_bytes b ≡ true → All IsByte b
unfolding all_bytes
all_bytes-IsByte [] h = tt
all_bytes-IsByte (b ∷ bytes) h = (ground arith, all_bytes-IsByte bytes (ground arith))

table_bytes : All IsByte (to_bytes table)
unfolding all_bytes to_bytes encode_body encode_slots encode_slot to_le_bytes checksum
    volume_verifier
table_bytes = all_bytes-IsByte (to_bytes table) refl

from_bytes_canonical_example :
    IsEncodable table
    × (table.header_salt ≡ salt)
    × ((ignored : Bytes) × (to_bytes table
          ≡ (encode_body table ++ ignored) ++ toy.keyed_hash salt (encode_body table ++ ignored)))
from_bytes_canonical_example =
    from_bytes_canonical toy-IsLawful (to_bytes table) salt table table_bytes refl
      (from_bytes-to_bytes toy-IsLawful table table-IsEncodable)
