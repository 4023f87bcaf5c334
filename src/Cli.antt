-- ===== src/Cli.antt =====
-- src/bin/aegis.rs: the command line, over a file system as state. Of what it prints, only whether the
-- stream takes it is kept.
pub mod Flags
pub mod Arguments
pub mod Files
pub mod Sealed
pub mod Commands
pub mod Sessions
pub mod Dispatch
pub mod Failures
pub mod Endings
pub mod Refusals
pub mod Tampering
use aegis_keys_with_soteria.Prelude.{
  ℕ, suc, ◌+◌, ◌*◌, ◌≡◌, ◌≢◌, Bool, true, false, not, ltb, if◌then◌else◌, Option, none, some, List,
  [], ◌∷◌, ◌++◌, ◌%◌, ◌==◌, length, take, drop,
}
use aegis_keys_with_soteria.Errors.{Result, ok, err, panic}
use aegis_keys_with_soteria.Errors.Effects.{World, Op, Method}
use aegis_keys_with_soteria.Primitives.{Bytes, Primitives}
use aegis_keys_with_soteria.Aead.{xchacha20_poly1305}
use aegis_keys_with_soteria.Hierarchy.{literal, enc}
use aegis_keys_with_soteria.Codec.{bytes_eq, index_at}
use aegis_keys_with_soteria.Process.{
  FileSystem, IsFileSystem, Outcome, done, exited, aborted, Cmd, and_next, ◌>>=◌, ◌>>◌, pure, fail,
  check, or_fail, unwrap, call, announce, some_or_abort, read_file, write_file,
}
use aegis_keys_with_soteria.Vault
use aegis_keys_with_soteria.Vault.{
  AegisVault, unlock, seal_slots, slots_to_bytes, slots_header_salt, open_from_slots, encrypt,
  decrypt, verify_volume,
}

abbrev pub magic : Bytes
magic = literal "AEGIS"

abbrev pub version : ℕ
version = 1

abbrev pub cli_salt : Bytes
cli_salt = literal "aegis-cli-salt-v1"

abbrev pub mem_kib : ℕ
mem_kib = 32 * 1024

abbrev pub iters : ℕ
iters = 2

abbrev pub aad : Bytes
aad = literal "aegis-cli"

-- The flags of a call, the latest first: `HashMap::insert` overrides.
unfoldable pub strip_dash : Bytes → Option Bytes
strip_dash [] = none
strip_dash (c ∷ key) = if c == 45 then some key else none

abbrev pub Flags : Type 0
Flags = List (Bytes × Bytes)

unfoldable pub parse_flags : List Bytes → Flags → Flags
parse_flags [] m = m
parse_flags (a ∷ []) m = elim (strip_dash a) [ none ↦ m | some key ↦ (key, []) ∷ m ]
parse_flags (a ∷ v ∷ rest) m = elim (strip_dash a) [
  | none ↦ parse_flags (v ∷ rest) m
  | some key ↦ parse_flags rest ((key, v) ∷ m)
]

unfoldable pub get_flag : Flags → Bytes → Option Bytes
get_flag [] k = none
get_flag ((key, v) ∷ m) k = if bytes_eq key k then some v else get_flag m k

module _ {S : Type 0} where
  -- `.map(..).filter(|s| !s.is_empty()).unwrap_or_else(|| fail(..))`
  unfoldable pub req : Flags → Bytes → Cmd S Bytes
  req m k = elim (get_flag m k) [ none ↦ fail | some v ↦ if length v == 0 then fail else pure v ]

-- The content of a vault file.
abbrev pub vault_file : Bytes → Bytes → Bytes
vault_file slot_bytes salt = magic ++ (version ∷ (salt ++ slot_bytes))

module _ {S : Type 0} (F : FileSystem S) where
  -- `env::args().collect()`
  unfoldable pub all_unicode : List Bytes → Bool
  all_unicode [] = true
  all_unicode (a ∷ rest) = if F.is_unicode a then all_unicode rest else false

module _ ⦃P : Primitives⦄ {S : Type 0} (F : FileSystem S) where
  unfoldable pub read_vault : Bytes → Cmd S (Bytes × Bytes)
  read_vault path = do
    buf ← read_file F path
    check (not (ltb (length buf) (5 + 1 + 32)))
    check (bytes_eq (take 5 buf) magic)
    v ← or_fail (λ w. (index_at buf 5, w))
    check (v == version)
    pure (drop 38 buf, take 32 (drop 6 buf))

  unfoldable pub write_vault : Bytes → Bytes → Bytes → Cmd S (Unit {0})
  write_vault path slot_bytes salt = write_file F path (vault_file slot_bytes salt)

  unfoldable pub open_vault : Bytes → Bytes → Cmd S AegisVault
  open_vault path pass = do
    (slot_bytes, salt) ← read_vault path
    v ← unwrap (unlock (literal "ignored") cli_salt mem_kib iters)
    (_, v') ← call (open_from_slots slot_bytes salt pass) v
    pure v'

  -- The end of `init` and `add`.
  unfoldable pub store_vault : Bytes → AegisVault → Cmd S (Unit {0})
  store_vault path v = do
    bytes ← some_or_abort (slots_to_bytes v)
    salt ← some_or_abort (slots_header_salt v)
    write_vault path bytes salt

  unfoldable pub init : Bytes → Bytes → Cmd S (Unit {0})
  init pass out = do
    v ← or_fail (unlock pass cli_salt mem_kib iters)
    (_, v') ← call (seal_slots pass) v
    store_vault out v'

  unfoldable pub add : Bytes → Bytes → Bytes → Cmd S (Unit {0})
  add pass newp file = do
    v ← open_vault file pass
    (_, v') ← call (Vault.add_slot newp) v
    store_vault file v'

  unfoldable pub seal_file : Bytes → Bytes → Bytes → Bytes → Cmd S (Unit {0})
  seal_file pass file inp outp = do
    v ← open_vault file pass
    data_bytes ← read_file F inp
    (nonce, ct) ← or_fail (encrypt v enc data_bytes aad xchacha20_poly1305)
    write_file F outp (0 ∷ (length nonce % 256) ∷ (nonce ++ ct))

  unfoldable pub open_file : Bytes → Bytes → Bytes → Bytes → Cmd S (Unit {0})
  open_file pass file inp outp = do
    v ← open_vault file pass
    blob ← read_file F inp
    check (not (ltb (length blob) 2))
    nlen ← or_fail (λ w. (index_at blob 1, w))
    check (not (ltb (length blob) (2 + nlen)))
    pt ← or_fail (λ w.
        (decrypt v enc (take nlen (drop 2 blob)) (drop (2 + nlen) blob) aad xchacha20_poly1305, w))
    write_file F outp pt

  unfoldable pub verify : Bytes → Bytes → Cmd S (Unit {0})
  verify pass file = do
    v ← open_vault file pass
    checked ← or_fail (λ w. (verify_volume v, w))
    check checked

  -- The arms of the `match` in `main`.
  unfoldable pub run_init : Flags → Cmd S (Unit {0})
  run_init args = do pass ← req args (literal "p"); out ← req args (literal "o"); init pass out

  unfoldable pub run_add : Flags → Cmd S (Unit {0})
  run_add args = do
    pass ← req args (literal "p")
    newp ← req args (literal "n")
    file ← req args (literal "f")
    add pass newp file

  unfoldable pub run_seal : Flags → Cmd S (Unit {0})
  run_seal args = do
    pass ← req args (literal "p")
    file ← req args (literal "f")
    inp ← req args (literal "i")
    outp ← req args (literal "o")
    seal_file pass file inp outp

  unfoldable pub run_open : Flags → Cmd S (Unit {0})
  run_open args = do
    pass ← req args (literal "p")
    file ← req args (literal "f")
    inp ← req args (literal "i")
    outp ← req args (literal "o")
    open_file pass file inp outp

  unfoldable pub run_verify : Flags → Cmd S (Unit {0})
  run_verify args = do
    pass ← req args (literal "p")
    file ← req args (literal "f")
    verify pass file

  unfoldable pub run : Bytes → Flags → Cmd S (Unit {0})
  run cmd args =
      if bytes_eq cmd (literal "init")
      then run_init args
      else if bytes_eq cmd (literal "add")
      then run_add args
      else if bytes_eq cmd (literal "seal")
      then run_seal args
      else if bytes_eq cmd (literal "open")
      then run_open args
      else if bytes_eq cmd (literal "verify")
      then run_verify args
      else fail

  unfoldable pub dispatch : List Bytes → Cmd S (Unit {0})
  dispatch (program ∷ cmd ∷ rest) = run cmd (parse_flags rest [])
  dispatch _ = fail

  -- Every end of a command but a panic prints as its last act: `println!` after the last write, or
  -- `eprintln!` before the exit.
  unfoldable pub main : List Bytes → Cmd S (Unit {0})
  main argv s w = if all_unicode F argv then announce F (dispatch argv s w) else (aborted, s, w)
