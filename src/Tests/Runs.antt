-- ===== src/Tests/Runs.antt =====
-- The theorems about whole programs: several commands, the example client.
use aegis_keys_with_soteria.Prelude.{
  zero, suc, ◌≡◌, refl, ap, some, drop, List, [], ◌∷◌, arith, replicate, ◌%◌, All,
}
use aegis_keys_with_soteria.Errors.{ok, err, slot_unseal}
use aegis_keys_with_soteria.Errors.Effects.{World}
use aegis_keys_with_soteria.Hierarchy.{literal}
use aegis_keys_with_soteria.Process.{done, exited}
use aegis_keys_with_soteria.Cli.Commands.{Verifies}
use aegis_keys_with_soteria.Primitives.{Bytes}
use aegis_keys_with_soteria.Slots.Wrap.{opening, decrypted}
use aegis_keys_with_soteria.Table.Unseal.{NoneOpen}
use aegis_keys_with_soteria.Codec.{to_bytes, bytes_eq}
use aegis_keys_with_soteria.Process.Endings.{Ends}
use aegis_keys_with_soteria.Cli.{main, vault_file, parse_flags, add, seal_file, open_file, verify}
use aegis_keys_with_soteria.Cli.Arguments.{parse_loop, parse_loop-parse_flags}
use aegis_keys_with_soteria.Cli.Failures.{Crash}
use aegis_keys_with_soteria.Cli.Endings.{Named, Run, main-Ends}
use aegis_keys_with_soteria.Cli.Refusals.{wrong_passphrase}
use aegis_keys_with_soteria.Cli.Tampering.{put_back, put_back-Verifies}
use aegis_keys_with_soteria.Cli.Sessions.{enroll}
use aegis_keys_with_soteria.Cli.Sessions.Enrolled.{enroll-shares}
use aegis_keys_with_soteria.Cli.Sessions.Remains.{Command, add_user, seal_as, verify_as, init_as}
use aegis_keys_with_soteria.Cli.Sessions.Sequences.{exec_all, users_keep_access}
use aegis_keys_with_soteria.Quickstart.{
  passphrase, bob_passphrase, quickstart, quickstart_completes,
}
use aegis_keys_with_soteria.Tests.Toy.{checksum, toy, toy-IsLawful, toy-IsRobust}
use aegis_keys_with_soteria.Tests.Volume.{
  alice, bob, slot_for, slot_for-IsSlot, table, vault, vault-IsVault, alice-opening, alice_enabled,
  without_alice, without_alice-Binds, revoking, revoking-IsVault, accepts,
}
use aegis_keys_with_soteria.Tests.Commands.{
  Disk, disk, find, disk-IsFileSystem, ignored, files, vault_there,
}

-- A stranger is refused, bob adds a user and seals a file.
abbrev commands : List Command
commands =
    add_user (literal "mallory") (literal "dave")
    ∷ add_user bob (literal "dave")
    ∷ seal_as bob (literal "in") (literal "out")
    ∷ verify_as alice
    ∷ init_as (literal "eve") (literal "another")
    ∷ []

users_keep_access_example :
    (s1 : Disk) × (u1 : World) × (enroll disk alice (bob ∷ []) (literal "vault") [] 0
      ≡ (done tt, s1, u1))
    × All
        (Verifies toy-IsLawful disk
          (exec_all disk (literal "vault") commands s1 u1).0
          (literal "vault"))
        (alice ∷ bob ∷ [])
users_keep_access_example =
    users_keep_access disk toy-IsLawful toy-IsRobust disk-IsFileSystem (λ s path content. refl)
      ignored alice (literal "vault") (replicate 32 (checksum alice % 256)) (bob ∷ []) commands [] 0
      refl refl (accepts alice, (accepts bob, tt)) (omega arith)
      (tt, (tt, (unfold bytes_eq in refl, (tt, (unfold bytes_eq in refl, tt))))) refl

quickstart_completes_example : (u : World) × (quickstart 0 ≡ (ok tt, u))
quickstart_completes_example =
    quickstart_completes toy-IsLawful toy-IsRobust (replicate 32 (checksum passphrase % 256))
      ignored 0 refl refl (accepts passphrase) (accepts bob_passphrase)

enroll-shares_example :
    (s1 : Disk) × (u1 : World) × (enroll disk alice
        (bob ∷ [])
        (literal "vault")
        ((literal "in", literal "content") ∷ [])
        0
      ≡ (done tt, s1, u1))
    × ((w1 : World)
        → (s2 : Disk) × (u2 : World) × (seal_file disk bob
              (literal "vault")
              (literal "in")
              (literal "out")
              s1
              w1
            ≡ (done tt, s2, u2))
          × ((w2 : World)
              → (s3 : Disk) × (u3 : World) × (open_file disk alice
                    (literal "vault")
                    (literal "out")
                    (literal "back")
                    s2
                    w2
                  ≡ (done tt, s3, u3))
                × (disk.read s3 (literal "back") ≡ some (literal "content"))))
enroll-shares_example =
    enroll-shares disk toy-IsLawful toy-IsRobust ignored refl disk-IsFileSystem
      (λ s path content. refl) alice (literal "vault") (replicate 32 (checksum alice % 256))
      (literal "in") (literal "out") (literal "back") (literal "content") bob alice (bob ∷ []) 1 0
      ((literal "in", literal "content") ∷ []) 0 refl (accepts alice, (accepts bob, tt))
      (omega arith) refl refl (unfold find bytes_eq in refl) (omega arith) (unfold bytes_eq in refl)
      (unfold bytes_eq in refl) refl refl refl

abbrev call : List Bytes
call =
    literal "aegis" ∷ literal "verify" ∷ literal "-p" ∷ alice ∷ literal "-f" ∷ literal "vault" ∷ []

main-Ends_example :
    Run disk call files
      (Ends files (Crash toy-IsLawful disk files) disk (Named (parse_flags (drop 2 call) [])))
      (main disk call files 0)
main-Ends_example = main-Ends toy-IsLawful disk files call 0

abbrev argv : List Bytes
argv = literal "aegis" ∷ literal "init" ∷ literal "-p" ∷ alice ∷ literal "and" ∷ literal "-o" ∷ []

parse_loop-parse_flags_example : parse_loop 5 argv 2 [] ≡ some (parse_flags (drop 2 argv) [])
parse_loop-parse_flags_example = parse_loop-parse_flags 5 argv 2 [] (omega arith)

shut :
    (opening (slot_for alice 1) (literal "mallory") ≡ err slot_unseal)
    × (opening (slot_for bob 2) (literal "mallory") ≡ err slot_unseal)
unfolding opening decrypted checksum bytes_eq
shut = (refl, refl)

none_open : NoneOpen table.slots (literal "mallory")
none_open zero s m at on h =
    let same : slot_for alice 1 ≡ s = cc in
    cc (shut.0, ap (λ x. opening x (literal "mallory")) same, h)
none_open (suc zero) s m at on h =
    let same : slot_for bob 2 ≡ s = cc in
    cc (shut.1, ap (λ x. opening x (literal "mallory")) same, h)
none_open (suc (suc j)) s m at on h = cc

wrong_passphrase_example :
    (u : World) × (add disk (literal "mallory") bob (literal "vault") files 0
      ≡ (exited 1, files, u))
    × (seal_file disk (literal "mallory") (literal "vault") (literal "in") (literal "out") files 0
        ≡ (exited 1, files, u))
    × (open_file disk (literal "mallory") (literal "vault") (literal "in") (literal "out") files 0
        ≡ (exited 1, files, u))
    × (verify disk (literal "mallory") (literal "vault") files 0 ≡ (exited 1, files, u))
wrong_passphrase_example =
    wrong_passphrase toy-IsLawful disk ignored refl vault table (literal "vault")
      (literal "mallory") bob (literal "in") (literal "out") files 0 vault-IsVault refl none_open
      vault_there

-- Alice's slot was revoked, and is put back from the file of before.
put_back-Verifies_example :
    (content : Bytes) × (put_back
        (slot_for alice 1)
        (vault_file (to_bytes without_alice) (replicate 32 5))
      ≡ some content)
    × ((path : Bytes) (d : Disk)
        → disk.read d path ≡ some content
        → Verifies toy-IsLawful disk d path alice)
put_back-Verifies_example =
    put_back-Verifies toy-IsLawful disk ignored refl revoking without_alice (slot_for alice 1) alice
      revoking-IsVault refl without_alice-Binds (omega arith) (slot_for-IsSlot alice 1)
      alice_enabled alice-opening
