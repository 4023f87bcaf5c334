-- ===== src/Cli/Sessions/Enrolled.antt =====
-- `init` and several `add` of src/bin/aegis.rs, and then `seal` and `open`.
use aegis_keys_with_soteria.Prelude.{
  ℕ, ◌≤◌, ◌<◌, ◌≡◌, ◌∙◌, true, false, some, List, ◌∷◌, length, get_elem?, All,
}
use aegis_keys_with_soteria.Errors.Effects.{World}
use aegis_keys_with_soteria.Primitives.{Bytes, Primitives, IsLawful, IsRobust, message_limit}
use aegis_keys_with_soteria.Kdf.{derived}
use aegis_keys_with_soteria.Hierarchy.{literal}
use aegis_keys_with_soteria.Slots.Wrap.{Accepts}
use aegis_keys_with_soteria.Process.{FileSystem, IsFileSystem, done}
use aegis_keys_with_soteria.Cli.{cli_salt, mem_kib, iters, seal_file, open_file}
use aegis_keys_with_soteria.Cli.Sealed.{Writable}
use aegis_keys_with_soteria.Cli.Sessions.{enroll, get_elem?-map, Stores-shares, enroll-Stores}

module _ ⦃P : Primitives⦄ {S : Type 0} (F : FileSystem S) (L : IsLawful P)
    (r : IsRobust P.aes_256_gcm) (ignored : Bytes)
    (d : derived (literal "ignored") cli_salt mem_kib iters ≡ some ignored) (fs : IsFileSystem F)
    (writable : Writable L F) where
  -- With lawful primitives and a robust AES-256-GCM, on a file system where writing succeeds
  -- and the vault, the output of `seal` and the output of `open` are regular files:
  -- after `init`, and `add` with the first passphrase for each of up to 15 others, all of them
  -- taken by Argon2: `seal` with any of these passphrases succeeds on an input of admissible length
  -- that was there before and is not the vault file, into another file than the vault; and `open`
  -- with any of these passphrases then succeeds and writes the content of that input. (The code
  -- unlocks a vault with a fixed passphrase first, which Argon2 must take.)
  pub enroll-shares :
      (pass out key inp outp back content p q : Bytes) (ps : List Bytes) (i j : ℕ) (s : S)
      (w : World)
      → derived pass cli_salt mem_kib iters ≡ some key
      → All (λ x. Accepts x 64 3) (pass ∷ ps)
      → length ps < 16
      → get_elem? (pass ∷ ps) i ≡ some p
      → get_elem? (pass ∷ ps) j ≡ some q
      → F.read s inp ≡ some content
      → length content ≤ message_limit
      → F.same_file out inp ≡ false
      → F.same_file outp out ≡ false
      → F.is_regular out ≡ true
      → F.is_regular outp ≡ true
      → F.is_regular back ≡ true
      → (s1 : S) × (u1 : World) × (enroll F pass ps out s w ≡ (done tt, s1, u1))
        × ((w1 : World)
            → (s2 : S) × (u2 : World) × (seal_file F p out inp outp s1 w1 ≡ (done tt, s2, u2))
              × ((w2 : World)
                  → (s3 : S) × (u3 : World) × (open_file F q out outp back s2 w2
                      ≡ (done tt, s3, u3))
                    × (F.read s3 back ≡ some content)))
  enroll-shares pass out key inp outp back content p q ps i j s w k a room gi gj there short other
        apart reg reg_out reg_back =
      let (s1, u1, e, st, keeps) =
        enroll-Stores F L r ignored d fs writable pass out key ps s w k a room reg in
      (
        s1,
        u1,
        e,
        λ w1.
            Stores-shares F L r ignored d fs writable i j p q out inp outp back content s1 w1 st
              (get_elem?-map some (pass ∷ ps) i gi) (get_elem?-map some (pass ∷ ps) j gj)
              (keeps inp other ∙ there) short apart reg_out reg_back,
      )
