-- ===== src/Cli/Sessions/Sequences.antt =====
-- Any runs of src/bin/aegis.rs after each other on a vault file.
use aegis_keys_with_soteria.Prelude.{
  ◌<◌, ◌≡◌, true, some, List, [], ◌∷◌, length, All, All-of_get_elem?,
}
use mathlib.Core.List.{map}
use aegis_keys_with_soteria.Errors.Effects.{World}
use aegis_keys_with_soteria.Primitives.{Bytes, Primitives, IsLawful, IsRobust}
use aegis_keys_with_soteria.Kdf.{derived}
use aegis_keys_with_soteria.Hierarchy.{literal}
use aegis_keys_with_soteria.Slots.Wrap.{Accepts}
use aegis_keys_with_soteria.Vault.Grown.{Extends}
use aegis_keys_with_soteria.Process.{FileSystem, IsFileSystem, done}
use aegis_keys_with_soteria.Cli.{cli_salt, mem_kib, iters}
use aegis_keys_with_soteria.Cli.Sealed.{Writable}
use aegis_keys_with_soteria.Cli.Commands.{Verifies}
use aegis_keys_with_soteria.Cli.Sessions.{
  Stores, enroll, get_elem?-map, Stores-Verifies, enroll-Stores,
}
use aegis_keys_with_soteria.Users.{Users}
use aegis_keys_with_soteria.Cli.Sessions.Remains.{Command, Spares, exec, exec-Remains}

module _ ⦃P : Primitives⦄ {S : Type 0} (F : FileSystem S) where
  -- One process for each, whatever becomes of the others.
  unfoldable pub exec_all : Bytes → List Command → S → World → S × World
  exec_all path [] s w = (s, w)
  exec_all path (c ∷ cs) s w = let (_, s', w') = exec F path c s w in exec_all path cs s' w'

  module _ (L : IsLawful P) (r : IsRobust P.aes_256_gcm) (fs : IsFileSystem F)
      (writable : Writable L F) where
    exec_all-Stores :
        (cs : List Command) (s : S) (w : World) (path : Bytes) (us : Users)
        → Stores F s path us
        → All (Spares F path) cs
        → F.is_regular path ≡ true
        → (us' : Users) × Stores F (exec_all path cs s w).0 path us' × Extends us us'
    unfolding exec_all
    exec_all-Stores [] s w path us st h reg = (us, st, λ i p e. e)
    exec_all-Stores (c ∷ cs) s w path us st h reg =
        let (us1, st1, x1) = exec-Remains F L r s path us st fs writable reg c w h.0 in
        let (us2, st2, x2) = exec_all-Stores cs _ _ path us1 st1 h.1 reg in
        (us2, st2, λ i p e. x2 i p (x1 i p e))

    -- With lawful primitives and a robust AES-256-GCM, on a file system where writing succeeds and
    -- the vault is a regular file: after `init`, and `add` with the first passphrase for each of up to 15 others, all of them
    -- taken by Argon2, and then after any sequence of runs of `add`, `seal`, `open` and `verify` on
    -- the vault file and of `init`, with any passphrases and whatever their ends, where the outputs
    -- of `init`, `seal` and `open` are other files than the vault, under whatever name: `verify` succeeds on it with every one of the first
    -- passphrases. (The code unlocks a vault with a fixed passphrase first, which Argon2 must take.)
    pub users_keep_access :
        (ignored pass out key : Bytes) (ps : List Bytes) (cs : List Command) (s : S) (w : World)
        → derived (literal "ignored") cli_salt mem_kib iters ≡ some ignored
        → derived pass cli_salt mem_kib iters ≡ some key
        → All (λ p. Accepts p 64 3) (pass ∷ ps)
        → length ps < 16
        → All (Spares F out) cs
        → F.is_regular out ≡ true
        → (s1 : S) × (u1 : World) × (enroll F pass ps out s w ≡ (done tt, s1, u1))
          × All (Verifies L F (exec_all out cs s1 u1).0 out) (pass ∷ ps)
    users_keep_access ignored pass out key ps cs s w d k a room h reg =
        let (s1, u1, e, st, _) =
          enroll-Stores F L r ignored d fs writable pass out key ps s w k a room reg in
        let (us, st', x) = exec_all-Stores cs s1 u1 out (map some (pass ∷ ps)) st h reg in
        (
          s1,
          u1,
          e,
          All-of_get_elem? (Verifies L F (exec_all out cs s1 u1).0 out) (pass ∷ ps) (λ i p g.
              Stores-Verifies F L r ignored d i p st' (x i p (get_elem?-map some (pass ∷ ps) i g))),
        )
