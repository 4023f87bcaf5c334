-- ===== src/Lib.antt =====
-- Soteria Aegis (`soteria-aegis`): key management that keeps a master key in locked memory, derives
-- six domain keys from it, wraps it for several passphrases in a table of key slots, and encrypts
-- under the domain keys.
--
-- Parts, from the bottom up:
--
--   Prelude      lists, slices, bits and Boolean tests over the native numbers
--   Errors       src/error.rs: `AegisError`; a result is ok, an error or a panic. Errors/Effects has
--                the state of stateful calls
--   Primitives   what the crate calls and does not contain, as a record of functions, with the laws
--                that its documentation states: primitives with `IsLawful` are called lawful. A
--                cipher with `IsRobust` is called robust: no other key opens a ciphertext to another
--                message. That is an ideal: keys that are drawn independently have it up to a
--                negligible probability, but AES-256-GCM does not commit to its key, and chosen
--                keys and ciphertexts can break it
--   AegisKey     src/aegis_key.rs: `AegisKey` with `new`, `ct_eq`, `burn`, `Drop`, the page locking
--   Kdf          src/kdf.rs: `argon2id_root`, `hkdf_sha256`
--   Aead         src/aead.rs: `AeadCipher::seal`, and `open` as `open_sealed`
--   Hierarchy    src/hierarchy.rs: `Domain`, `KeyHierarchy`, `subkey`
--   Slots        src/slots.rs: `KeySlot::create`, `unseal`, the volume verifier, the rotation
--   Users        what a table promises, with no keys and no bytes: for each slot the passphrase it
--                was made for, and the answers to requests
--   Table        src/slots.rs: `KeySlotTable` in memory: `new_initial`, `add_slot`, `revoke_slot`,
--                `unseal_with`. Table/Refinement and Table/Runs compare it with `Users`
--   Codec        src/slots.rs: `to_bytes` and `from_bytes`, the `SOTK` format
--   Vault        src/lib.rs: `AegisVault` with all its methods
--   Process      the file system and the ends of a process, for src/bin/aegis.rs
--   Cli          src/bin/aegis.rs: the flags, the vault file, the sealed file and the five commands,
--                over a file system as state; how they end, alone and one after the other
--   Client       what a caller does with results: `unwrap`, `expect`, `assert!`, `is_err`
--   Quickstart   examples/quickstart.rs, a client of the vault
--   Suite        tests/integration.rs, and those unit tests of the source files whose outcome rests on
--                the laws of the dependencies alone, as programs. What can make the integration
--                test fail all the same is in Suite/Accidents
--   Tests        concrete primitives that satisfy the laws, a sample volume, and runs of the theorems
--
-- A vault owns its keys, its hierarchy and its table; it calls the table with its raw master key,
-- the table calls the slots, and these call Argon2 and the cipher.
--
-- The command line: paths are bytes, and two of them can be names of one file; a file system says
-- which are (`same_file`), and which lead to regular files. Arguments that are not Unicode, and texts
-- that the streams do not take, make `main` panic as `env::args` and `println!` do.
--
-- State: a method with `&mut self` takes the old value and returns the result, the new value and
-- the rest of the state. The rest of the state is the number of requests that were made of the
-- operating system (random bytes, the clock, `mlock`, `munlock`, `madvise`). The primitives answer
-- each request by its number, so that a theorem for every number holds for every sequence of answers.
-- The loops go over the slots, the bytes or the slot count of the header. The one loop with an
-- index, that of `parse_args`, runs on fuel in Cli/Arguments: more rounds than there are arguments
-- left are enough.
--
-- Numbers: bytes and integers are natural numbers. The bounds of their types are hypotheses, or
-- fields of `IsSlot` and `IsEncodable`, where a theorem needs them; `slots.len() as u8` wraps as in
-- the source. Positions in a buffer stay far below 2^64, so their sums are not wrapped.
--
-- Not modelled: runs in which a primitive does not answer (`OsRng` panics where the generator of
-- the system fails, and the process aborts where Argon2's memory, whose size a vault file chooses,
-- cannot be allocated), unit tests that assert that the dependencies tell two inputs apart (no law
-- of theirs says so of every input), the secrecy of the primitives, timing, the drop of the
-- temporaries inside a call (it changes no result), the texts of errors, and the branches for
-- systems other than Linux.
pub mod Prelude
pub mod Errors
pub mod Primitives
pub mod AegisKey
pub mod Kdf
pub mod Aead
pub mod Hierarchy
pub mod Slots
pub mod Users
pub mod Table
pub mod Codec
pub mod Vault
pub mod Process
pub mod Cli
pub mod Client
pub mod Quickstart
pub mod Suite
mod Tests
