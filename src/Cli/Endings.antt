-- ===== src/Cli/Endings.antt =====
-- How the commands of src/bin/aegis.rs end, and `main`.
use aegis_keys_with_soteria.Prelude.{
  ◌≡◌, some, ◌⊎◌, inl, inr, ◌+◌, false, Bool-cases, List, [], arith, length, take, drop, ltb, not,
}
use aegis_keys_with_soteria.Errors.Effects.{World}
use aegis_keys_with_soteria.Primitives.{Bytes, Primitives, IsLawful}
use aegis_keys_with_soteria.Hierarchy.{literal, enc}
use aegis_keys_with_soteria.Codec.{to_bytes}
use aegis_keys_with_soteria.Vault
use aegis_keys_with_soteria.Vault.{
  AegisVault, domain, unlock, open_from_slots, encrypt, decrypt, verify_volume, seal_slots,
  slots_to_bytes, slots_header_salt,
}
use aegis_keys_with_soteria.Aead.{xchacha20_poly1305}
use aegis_keys_with_soteria.Vault.Keys.{IsVault}
use aegis_keys_with_soteria.Vault.Outcomes.{
  HasTable, unlock-IsVault, unlock-ne-panic, seal_slots-HasTable, seal_slots-ne-panic,
  add_slot-HasTable, add_slot-ne-panic,
}
use aegis_keys_with_soteria.Process.{
  FileSystem, Outcome, done, exited, aborted, announce, some_or_abort,
}
use aegis_keys_with_soteria.Cli.Failures.{
  Crash, read_byte-Quiet, open_vault-Quiet, encrypt-ne-panic, decrypt-ne-panic,
  verify_volume-ne-panic,
}
use aegis_keys_with_soteria.Process.Endings.{
  check-Quiet, or_fail-Quiet, call-Quiet, read_file-Quiet, Ends, kept, Quiet-unit, Ends-bind,
  write_file-Ends,
}
use aegis_keys_with_soteria.Cli.Dispatch.{CommandsEnd, dispatch-Ends}
use aegis_keys_with_soteria.Cli.{
  Flags, get_flag, parse_flags, cli_salt, mem_kib, iters, write_vault, store_vault, vault_file,
  init, add, seal_file, open_file, verify, aad, dispatch, all_unicode, main,
}

module _ ⦃P : Primitives⦄ (L : IsLawful P) {S : Type 0} (F : FileSystem S) (s : S)
    (W : Bytes → Bytes → Type 0) where
  store_vault-Ends :
      (path : Bytes) (v : AegisVault) (w : World)
      → HasTable v
      → ((content : Bytes) → W path content)
      → Ends s (Crash L F s) F W (store_vault F path v s w)
  unfolding store_vault write_vault slots_to_bytes slots_header_salt some_or_abort
  store_vault-Ends path v w (t, e) h =
      rw e
        (write_file-Ends s (Crash L F s) F W path (vault_file (to_bytes t) t.header_salt) w (h _))

  pub init-Ends :
      (pass out : Bytes) (w : World)
      → ((content : Bytes) → W out content)
      → Ends s (Crash L F s) F W (init F pass out s w)
  unfolding init
  init-Ends pass out w h =
      Ends-bind s (Crash L F s) F W _
        (or_fail-Quiet s (Crash L F s) {Q = IsVault} (unlock pass cli_salt mem_kib iters) w
          (λ v e. unlock-IsVault L pass cli_salt mem_kib iters w v e)
          (λ p. absurd (unlock-ne-panic L pass cli_salt mem_kib iters w p)))
        (λ v u1 i.
          Ends-bind s (Crash L F s) F W _
            (call-Quiet s (Crash L F s) {Q = λ (_, x). HasTable x} (seal_slots pass) v u1
              (λ _ e. seal_slots-HasTable L pass v u1 i.master_length e)
              (λ p. absurd (seal_slots-ne-panic L pass v u1 i.master_length p)))
            (λ (_, v') u2 t. store_vault-Ends out v' u2 t h))

  pub add-Ends :
      (pass newp file : Bytes) (w : World)
      → ((content : Bytes) → W file content)
      → Ends s (Crash L F s) F W (add F pass newp file s w)
  unfolding add
  add-Ends pass newp file w h =
      Ends-bind s (Crash L F s) F W _ (open_vault-Quiet L F s file pass w) (λ v u1 o.
        Ends-bind s (Crash L F s) F W _
          (call-Quiet s (Crash L F s) {Q = λ (_, x). HasTable x} (Vault.add_slot newp) v u1
            (λ _ h. add_slot-HasTable L newp v u1 o.master_length o.table o.slots)
            (λ p. absurd (add_slot-ne-panic L newp v u1 o.master_length o.table o.slots p)))
          (λ (_, v') u2 t. store_vault-Ends file v' u2 t h))

  pub seal_file-Ends :
      (pass file inp outp : Bytes) (w : World)
      → ((content : Bytes) → W outp content)
      → Ends s (Crash L F s) F W (seal_file F pass file inp outp s w)
  unfolding seal_file
  seal_file-Ends pass file inp outp w h =
      Ends-bind s (Crash L F s) F W _ (open_vault-Quiet L F s file pass w) (λ v u1 o.
        Ends-bind s (Crash L F s) F W _ (read_file-Quiet s (Crash L F s) F inp u1)
          (λ data_bytes u2 _.
            Ends-bind s (Crash L F s) F W _
              (or_fail-Quiet s (Crash L F s) {Q = λ _. Unit {0}}
                (encrypt v enc data_bytes aad xchacha20_poly1305) u2 (λ _ _. tt)
                (λ p.
                  absurd (encrypt-ne-panic L F s v enc data_bytes aad xchacha20_poly1305 u2 o p)))
              (λ (nonce, ct) u3 _. write_file-Ends s (Crash L F s) F W outp _ u3 (h _))))

  pub open_file-Ends :
      (pass file inp outp : Bytes) (w : World)
      → ((content : Bytes) → W outp content)
      → Ends s (Crash L F s) F W (open_file F pass file inp outp s w)
  unfolding open_file
  open_file-Ends pass file inp outp w h =
      Ends-bind s (Crash L F s) F W _ (open_vault-Quiet L F s file pass w) (λ v u1 o.
        Ends-bind s (Crash L F s) F W _ (read_file-Quiet s (Crash L F s) F inp u1) (λ blob u2 _.
          Ends-bind s (Crash L F s) F W _
            (check-Quiet s (Crash L F s) (not (ltb (length blob) 2)) u2)
            (λ _ u3 long.
              Ends-bind s (Crash L F s) F W _
                (read_byte-Quiet L F s blob 1 u3 (ground (arith, long)))
                (λ nlen u4 _.
                  Ends-bind s (Crash L F s) F W _
                    (check-Quiet s (Crash L F s) (not (ltb (length blob) (2 + nlen))) u4)
                    (λ _ u5 _.
                      Ends-bind s (Crash L F s) F W _
                        (or_fail-Quiet s (Crash L F s) {Q = λ _. Unit {0}}
                          (λ u. (
                            decrypt v enc (take nlen (drop 2 blob)) (drop (2 + nlen) blob) aad
                                xchacha20_poly1305,
                            u,
                          ))
                          u5 (λ _ _. tt)
                          (λ p. absurd (
                            decrypt-ne-panic L F s v enc (take nlen (drop 2 blob))
                              (drop (2 + nlen) blob) aad xchacha20_poly1305 o p)))
                        (λ pt u6 _. write_file-Ends s (Crash L F s) F W outp pt u6 (h pt)))))))

  pub verify-Ends :
      (pass file : Bytes) (w : World) → Ends s (Crash L F s) F W (verify F pass file s w)
  unfolding verify
  verify-Ends pass file w =
      Ends-bind s (Crash L F s) F W _ (open_vault-Quiet L F s file pass w) (λ v u1 o.
        Ends-bind s (Crash L F s) F W _
          (or_fail-Quiet s (Crash L F s) {Q = λ _. Unit {0}} (λ u. (verify_volume v, u)) u1
            (λ _ _. tt) (λ p. absurd (verify_volume-ne-panic L F s v o p)))
          (λ checked u2 _.
            kept (Quiet-unit s (Crash L F s) (check-Quiet s (Crash L F s) checked u2))))

module _ {S : Type 0} (F : FileSystem S) (argv : List Bytes) (s : S) where
  -- How a run of the program ends: as the command does, where the arguments are Unicode and the
  -- command's text is printed; with a panic before anything happened where an argument is not
  -- Unicode; or with a panic at the end of the command where its text is not printed.
  pub data Run (E : Outcome (Unit {0}) × S × World → Type 0)
      : Outcome (Unit {0}) × S × World → Type 0 where
    ran : {o : Outcome (Unit {0}) × S × World} → E o → Run E o
    not_unicode : {u : World} → all_unicode F argv ≡ false → Run E (aborted, s, u)
    not_printed :
        {o : Outcome (Unit {0}) × S × World}
        → E o
        → F.prints o.2 ≡ false
        → Run E (aborted, o.1, o.2)

  announce-Run :
      {E : Outcome (Unit {0}) × S × World → Type 0} (o : Outcome (Unit {0}) × S × World)
      → E o
      → Run E (announce F o)
  unfolding announce
  announce-Run (done a, s1, u) e = elim (Bool-cases (F.prints u)) [
    | inl p ↦ rw (p, announce) (ran e)
    | inr p ↦ rw (p, announce) (not_printed e p)
  ]
  announce-Run (exited n, s1, u) e = elim (Bool-cases (F.prints u)) [
    | inl p ↦ rw (p, announce) (ran e)
    | inr p ↦ rw (p, announce) (not_printed e p)
  ]
  announce-Run (aborted, s1, u) e = ran e

-- The file that the flags `-o` or `-f` name.
abbrev pub Named : Flags → Bytes → Bytes → Type 0
Named m path content =
    (get_flag m (literal "o") ≡ some path) ⊎ (get_flag m (literal "f") ≡ some path)

module _ ⦃P : Primitives⦄ (L : IsLawful P) {S : Type 0} (F : FileSystem S) (s : S) where
  commands-End : (m : Flags) → CommandsEnd F s (Crash L F s) Named m
  commands-End m = record {
    init_ends = λ pass out w e. init-Ends L F s (Named m) pass out w (λ _. inl e);
    add_ends = λ pass newp file w e. add-Ends L F s (Named m) pass newp file w (λ _. inr e);
    seal_ends =
        λ pass file inp outp w e. seal_file-Ends L F s (Named m) pass file inp outp w (λ _. inl e);
    open_ends =
        λ pass file inp outp w e. open_file-Ends L F s (Named m) pass file inp outp w (λ _. inl e);
    verify_ends = λ pass file w. verify-Ends L F s (Named m) pass file w;
  }

  -- With lawful primitives, which answer every call: every run of the program, whatever its
  -- arguments and the files, ends with exit code 0 or 1, or panics. A panic is because an argument
  -- is not Unicode, and then no file changed; because Argon2 does not take the fixed passphrase of
  -- `open_vault`, or the parser of slot tables panics on the content of a file, and then no file
  -- changed; or because the text of the command cannot be printed after all else was done. A run
  -- writes at most one file, one that `-o` or `-f` names, and prints after it; a write that fails is
  -- exit code 1. Every other run leaves the files as they were.
  pub main-Ends :
      (argv : List Bytes) (w : World)
      → Run F argv s
          (Ends s (Crash L F s) F (Named (parse_flags (drop 2 argv) [])))
          (main F argv s w)
  unfolding main announce
  main-Ends argv w = elim (Bool-cases (all_unicode F argv)) [
    | inr e ↦ rw (e, main) (not_unicode e)
    | inl e ↦
        rw (e, main)
          (announce-Run F argv s (dispatch F argv s w)
            (dispatch-Ends F s (Crash L F s) Named commands-End argv w))
  ]
