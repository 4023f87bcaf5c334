-- ===== src/Tests/Commands.antt =====
-- The theorems about the command line, over files in a list, on the sample volume.
use aegis_keys_with_soteria.Prelude.{
  ◌≡◌, false, Bool, ltb, refl, true, Option, none, some, List, [], ◌∷◌, ◌%◌, arith, replicate,
  if◌then◌else◌, All,
}
use aegis_keys_with_soteria.Primitives.{Bytes}
use aegis_keys_with_soteria.Hierarchy.{literal}
use aegis_keys_with_soteria.Codec.{to_bytes, bytes_eq}
use aegis_keys_with_soteria.Codec.Outcome.{bytes_eq_iff}
use aegis_keys_with_soteria.Process.{FileSystem, IsFileSystem, announce}
use aegis_keys_with_soteria.Cli.{
  strip_dash, parse_flags, get_flag, all_unicode, main, vault_file, init,
}
use aegis_keys_with_soteria.Cli.Flags.{
  Item, flag, stray, init_asked, IsItem, spell, last_value, get_flag-parse_flags, main_dispatch,
}
use aegis_keys_with_soteria.Tests.Toy.{checksum, toy}
use aegis_keys_with_soteria.Tests.Volume.{alice, bob, table}

abbrev pub Disk : Type 0
Disk = List (Bytes × Bytes)

unfoldable pub find : Disk → Bytes → Option Bytes
find [] path = none
find ((p, content) ∷ rest) path = if bytes_eq p path then some content else find rest path

-- ASCII, of which it is clear that it is Unicode.
unfoldable pub ascii : Bytes → Bool
ascii [] = true
ascii (b ∷ a) = if ltb b 128 then ascii a else false

abbrev pub disk : FileSystem Disk
disk = record {
  same_file = bytes_eq;
  is_regular = λ path. true;
  is_unicode = λ a. ascii a;
  prints = λ w. true;
  read = find;
  write = λ s path content. (true, (path, content) ∷ s);
}

pub disk-IsFileSystem : IsFileSystem disk
unfolding find
disk-IsFileSystem = record {
  written = λ s path content _ _. ground (arith, bytes_eq_iff path path);
  untouched = λ s path other content _ apart. rw (apart, find) refl;
}

abbrev pub ignored : Bytes
ignored = replicate 32 (checksum (literal "ignored") % 256)

abbrev pub files : Disk
files =
    (literal "vault", vault_file (to_bytes table) (replicate 32 5))
    ∷ (literal "in", literal "content")
    ∷ []

pub vault_there : find files (literal "vault") ≡ some (vault_file (to_bytes table) (replicate 32 5))
unfolding find bytes_eq
vault_there = refl

input_there : find files (literal "in") ≡ some (literal "content")
unfolding find bytes_eq
input_there = refl

abbrev items : List Item
items =
    flag (literal "p") bob
    ∷ stray (literal "and")
    ∷ flag (literal "o") (literal "out")
    ∷ flag (literal "p") alice
    ∷ []

items-IsItem : All IsItem items
unfolding strip_dash
items-IsItem = (tt, (refl, (tt, (tt, tt))))

items_value :
    (last_value items (literal "p") ≡ some alice)
    × (last_value items (literal "o") ≡ some (literal "out"))
unfolding last_value bytes_eq
items_value = (refl, refl)

items_unicode : all_unicode disk (literal "aegis" ∷ literal "init" ∷ spell items) ≡ true
unfolding all_unicode ascii spell
items_unicode = refl

get_flag-parse_flags_example :
    get_flag (parse_flags (spell items) []) (literal "p") ≡ last_value items (literal "p")
get_flag-parse_flags_example = get_flag-parse_flags items (literal "p") items-IsItem

main_dispatch_example :
    main disk (literal "aegis" ∷ literal "init" ∷ spell items) files 0
    ≡ announce disk (init disk alice (literal "out") files 0)
main_dispatch_example =
    main_dispatch disk (literal "aegis") (literal "init") items (init disk alice (literal "out"))
      files 0 items-IsItem (init_asked (items_value.0, λ e. cc) (items_value.1, λ e. cc))
      items_unicode
