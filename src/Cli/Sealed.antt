-- ===== src/Cli/Sealed.antt =====
-- The `seal` and `open` commands of src/bin/aegis.rs, one after the other.
use aegis_keys_with_soteria.Prelude.{
  ℕ, ◌≤◌, ◌≡◌, false, refl, sym, ap, ◌∙◌, true, some, inl, inr, ◌∷◌, ◌++◌, ◌%◌, arith, length,
  length-append, take, drop,
}
use aegis_keys_with_soteria.Prelude.Slices.{take-append_self, drop-append_self}
use mathlib.Core.Path.{subst₂}
use aegis_keys_with_soteria.Errors.{ok}
use aegis_keys_with_soteria.Errors.Effects.{World}
use aegis_keys_with_soteria.Primitives.{Bytes, Primitives, IsLawful, message_limit}
use aegis_keys_with_soteria.AegisKey.{expose}
use aegis_keys_with_soteria.Kdf.{derived}
use aegis_keys_with_soteria.Aead.{xchacha20_poly1305}
use aegis_keys_with_soteria.Aead.Laws.{open_sealed_errors}
use aegis_keys_with_soteria.Hierarchy.{literal, enc}
use aegis_keys_with_soteria.Table.{KeySlotTable}
use aegis_keys_with_soteria.Table.Opens.{Opens}
use aegis_keys_with_soteria.Codec.{index_at}
use aegis_keys_with_soteria.Vault.{AegisVault, domain, encrypt, decrypt}
use aegis_keys_with_soteria.Vault.Keys.{IsVault, domain-length}
use aegis_keys_with_soteria.Vault.Reopen.{decrypt_elsewhere}
use aegis_keys_with_soteria.Process.{
  check, or_fail, read_file, write_file, FileSystem, IsFileSystem, done,
}
use aegis_keys_with_soteria.Cli.{cli_salt, mem_kib, iters, aad, open_vault, seal_file, open_file}
use aegis_keys_with_soteria.Cli.Files.{Holds, open_vault-reopens}

-- What `seal` writes.
abbrev blob_of : Bytes → Bytes → Bytes
blob_of nonce ct = 0 ∷ (length nonce % 256) ∷ (nonce ++ ct)

module _ ⦃P : Primitives⦄ (L : IsLawful P) where
  decrypt-nonce :
      (v : AegisVault) (nonce ct m : Bytes)
      → IsVault v
      → decrypt v enc nonce ct aad xchacha20_poly1305 ≡ ok m
      → length nonce ≡ 24
  unfolding decrypt
  decrypt-nonce v nonce ct m i h =
      let l = domain-length L v enc i in
      elim (open_sealed_errors L (record { algo = xchacha20_poly1305; key = expose (domain v enc) })
        nonce ct aad l) [ inl e ↦ ground arith | inr (_, _, n, _) ↦ n ]

  module _ {S : Type 0} (F : FileSystem S) where
    open_file-blob :
        (v : AegisVault) (pass file inp outp nonce ct m : Bytes) (s : S) (w u : World)
        → open_vault F file pass s w ≡ (done v, s, u)
        → F.read s inp ≡ some (blob_of nonce ct)
        → length nonce ≡ 24
        → decrypt v enc nonce ct aad xchacha20_poly1305 ≡ ok m
        → (F.write s outp m).0 ≡ true
        → open_file F pass file inp outp s w ≡ (done tt, (F.write s outp m).1, u)
    unfolding open_file index_at check or_fail write_file read_file
    open_file-blob v pass file inp outp nonce ct m s w u e r l d written =
        let front : take 24 (nonce ++ ct) ≡ nonce =
          ap (λ n. take n (nonce ++ ct)) (sym l) ∙ take-append_self nonce ct in
        let back : drop 24 (nonce ++ ct) ≡ ct =
          ap (λ n. drop n (nonce ++ ct)) (sym l) ∙ drop-append_self nonce ct in
        ground (arith, length-append nonce ct, front, back)

    seal_file-blob :
        (v : AegisVault) (pass file inp outp content nonce ct : Bytes) (s : S) (w u u' : World)
        → open_vault F file pass s w ≡ (done v, s, u)
        → F.read s inp ≡ some content
        → encrypt v enc content aad xchacha20_poly1305 u ≡ (ok (nonce, ct), u')
        → (F.write s outp (blob_of nonce ct)).0 ≡ true
        → seal_file F pass file inp outp s w ≡ (done tt, (F.write s outp (blob_of nonce ct)).1, u')
    unfolding seal_file or_fail write_file read_file
    seal_file-blob v pass file inp outp content nonce ct s w u u' e r c written = ground arith

    -- Every write succeeds.
    abbrev pub Writable : Type 0
    Writable = (s : S) (path content : Bytes) → (F.write s path content).0 ≡ true

    -- What one passphrase seals, another one opens.
    pub open_file-seal_file_shared :
        IsFileSystem F
        → Writable
        → (v : AegisVault) (t : KeySlotTable)
          (file inp outp back pass pass' content ignored : Bytes) (n n' : ℕ) (s : S) (w : World)
        → derived (literal "ignored") cli_salt mem_kib iters ≡ some ignored
        → IsVault v
        → v.slots ≡ some t
        → Opens t pass n (expose v.master)
        → Opens t pass' n' (expose v.master)
        → Holds F s file t
        → F.read s inp ≡ some content
        → length content ≤ message_limit
        → F.same_file outp file ≡ false
        → F.is_regular outp ≡ true
        → F.is_regular back ≡ true
        → (s1 : S) × (u1 : World) × (seal_file F pass file inp outp s w ≡ (done tt, s1, u1))
          × ((w2 : World)
              → (s2 : S) × (u2 : World) × (open_file F pass' file outp back s1 w2
                  ≡ (done tt, s2, u2))
                × (F.read s2 back ≡ some content))
    open_file-seal_file_shared fs writable v t file inp outp back pass pass' content ignored n n' s
          w d i slots o o' holds r short apart reg reg_back =
        let (v1, u, e, x1, _, i1, _) =
          open_vault-reopens F L v t file pass ignored n s w d i slots o holds in
        let (nonce, ct, u1, c, _) =
          decrypt_elsewhere L v1 v1 enc content aad xchacha20_poly1305 u i1 i1 refl short
            (omega arith) in
        let blob = blob_of nonce ct in
        let s1 = (F.write s outp blob).1 in
        let written = writable s outp blob in
        (
          s1,
          u1,
          seal_file-blob v1 pass file inp outp content nonce ct s w u u1 e r c written,
          λ w2.
              let kept = fs.untouched s outp file blob written apart ∙ holds in
              let (v2, u2, e2, x2, _, i2, _) =
                open_vault-reopens F L v t file pass' ignored n' s1 w2 d i slots o' kept in
              let (nonce', ct', _, c', dec) =
                decrypt_elsewhere L v1 v2 enc content aad xchacha20_poly1305 u i1 i2 (x2 ∙ sym x1)
                  short (omega arith) in
              let same_nonce : nonce' ≡ nonce = ground arith in
              let same_ct : ct' ≡ ct = ground arith in
              let opens : decrypt v2 enc nonce ct aad xchacha20_poly1305 ≡ ok content =
                subst₂ (λ a b. decrypt v2 enc a b aad xchacha20_poly1305 ≡ ok content) same_nonce
                  same_ct dec in
              (
                _,
                u2,
                open_file-blob v2 pass' file outp back nonce ct content s1 w2 u2 e2
                    (fs.written s outp blob reg written)
                    (decrypt-nonce v2 nonce ct content i2 opens) opens (writable s1 back content),
                fs.written s1 back content reg_back (writable s1 back content),
              ),
        )

    -- With lawful primitives: on a file system where writing succeeds, for a file that holds the
    -- table of a vault that satisfies the invariant and a passphrase that opens it: sealing an
    -- input of admissible length into another file than that of the vault succeeds, and then
    -- opening that file, at any later time, succeeds and writes the content of the input. (The
    -- code unlocks a vault with a fixed passphrase first, which Argon2 must take.)
    pub open_file-seal_file :
        IsFileSystem F
        → Writable
        → (v : AegisVault) (t : KeySlotTable) (file inp outp back pass content ignored : Bytes)
          (n : ℕ) (s : S) (w : World)
        → derived (literal "ignored") cli_salt mem_kib iters ≡ some ignored
        → IsVault v
        → v.slots ≡ some t
        → Opens t pass n (expose v.master)
        → Holds F s file t
        → F.read s inp ≡ some content
        → length content ≤ message_limit
        → F.same_file outp file ≡ false
        → F.is_regular outp ≡ true
        → F.is_regular back ≡ true
        → (s1 : S) × (u1 : World) × (seal_file F pass file inp outp s w ≡ (done tt, s1, u1))
          × ((w2 : World)
              → (s2 : S) × (u2 : World) × (open_file F pass file outp back s1 w2
                  ≡ (done tt, s2, u2))
                × (F.read s2 back ≡ some content))
    open_file-seal_file fs writable v t file inp outp back pass content ignored n s w d i slots o
          holds r short apart reg reg_back =
        open_file-seal_file_shared fs writable v t file inp outp back pass pass content ignored n n
          s w d i slots o o holds r short apart reg reg_back
