-- ===== src/Cli/Dispatch.antt =====
-- `main` of src/bin/aegis.rs down to its five commands: the tests of the command's name and the
-- flags that each arm requires.
use aegis_keys_with_soteria.Prelude.{
  ◌≡◌, refl, Bool, true, false, if◌then◌else◌, some, List, [], ◌∷◌, inl, inr, length, drop, ◌==◌,
  Bool-cases, Option-cases,
}
use aegis_keys_with_soteria.Errors.Effects.{World}
use aegis_keys_with_soteria.Primitives.{Bytes, Primitives}
use aegis_keys_with_soteria.Hierarchy.{literal}
use aegis_keys_with_soteria.Codec.{bytes_eq}
use aegis_keys_with_soteria.Process.{FileSystem, Cmd, and_next}
use aegis_keys_with_soteria.Process.Endings.{Quiet, value, exit, Ends, kept, Ends-bind}
use aegis_keys_with_soteria.Cli.{
  Flags, get_flag, parse_flags, req, init, add, seal_file, open_file, verify, run_init, run_add,
  run_seal, run_open, run_verify, run, dispatch,
}

module _ ⦃P : Primitives⦄ {S : Type 0} (F : FileSystem S) (s : S) (R : Type 0)
    (W : Flags → Bytes → Bytes → Type 0) where
  -- How each command ends on the values of the flags that it requires.
  pub record CommandsEnd (m : Flags) : Type 0 where
    pub init_ends :
        (pass out : Bytes) (w : World)
        → get_flag m (literal "o") ≡ some out
        → Ends s R F (W m) (init F pass out s w)
    pub add_ends :
        (pass newp file : Bytes) (w : World)
        → get_flag m (literal "f") ≡ some file
        → Ends s R F (W m) (add F pass newp file s w)
    pub seal_ends :
        (pass file inp outp : Bytes) (w : World)
        → get_flag m (literal "o") ≡ some outp
        → Ends s R F (W m) (seal_file F pass file inp outp s w)
    pub open_ends :
        (pass file inp outp : Bytes) (w : World)
        → get_flag m (literal "o") ≡ some outp
        → Ends s R F (W m) (open_file F pass file inp outp s w)
    pub verify_ends : (pass file : Bytes) (w : World) → Ends s R F (W m) (verify F pass file s w)

  module _ (m : Flags) where
    req-Quiet : (k : Bytes) (w : World) → Quiet s R (λ v. get_flag m k ≡ some v) (req m k s w)
    unfolding req
    req-Quiet k w = elim (Option-cases (get_flag m k)) [
      | inl e ↦ rw (e, req) exit
      | inr (v, e) ↦ elim (Bool-cases (length v == 0)) [
        | inl empty ↦ rw (e, req) (rw empty exit)
        | inr given ↦ rw (e, req) (rw given (value v refl))
      ]
    ]

    -- The value of a flag, and then a command.
    req-Ends :
        (k : Bytes) (f : Bytes → Cmd S (Unit {0})) (w : World)
        → ((v : Bytes) (u : World) → get_flag m k ≡ some v → Ends s R F (W m) (f v s u))
        → Ends s R F (W m) (and_next (req m k s w) f)
    req-Ends k f w c = Ends-bind s R F (W m) f (req-Quiet k w) c

    -- A test of the name of the command.
    if-Ends :
        (b : Bool) (c d : Cmd S (Unit {0})) (w : World)
        → Ends s R F (W m) (c s w)
        → Ends s R F (W m) (d s w)
        → Ends s R F (W m) ((if b then c else d) s w)
    if-Ends true c d w h k = h
    if-Ends false c d w h k = k

    module _ (C : CommandsEnd m) where
      run_init-Ends : (w : World) → Ends s R F (W m) (run_init F m s w)
      unfolding run_init
      run_init-Ends w =
          req-Ends (literal "p") _ w
            (λ pass u1 _. req-Ends (literal "o") _ u1 (λ out u2 e. C.init_ends pass out u2 e))

      run_add-Ends : (w : World) → Ends s R F (W m) (run_add F m s w)
      unfolding run_add
      run_add-Ends w = req-Ends (literal "p") _ w (λ pass u1 _.
          req-Ends (literal "n") _ u1 (λ newp u2 _.
            req-Ends (literal "f") _ u2 (λ file u3 e. C.add_ends pass newp file u3 e)))

      run_seal-Ends : (w : World) → Ends s R F (W m) (run_seal F m s w)
      unfolding run_seal
      run_seal-Ends w = req-Ends (literal "p") _ w (λ pass u1 _.
          req-Ends (literal "f") _ u1 (λ file u2 _. req-Ends (literal "i") _ u2 (λ inp u3 _.
            req-Ends (literal "o") _ u3 (λ outp u4 e. C.seal_ends pass file inp outp u4 e))))

      run_open-Ends : (w : World) → Ends s R F (W m) (run_open F m s w)
      unfolding run_open
      run_open-Ends w = req-Ends (literal "p") _ w (λ pass u1 _.
          req-Ends (literal "f") _ u1 (λ file u2 _. req-Ends (literal "i") _ u2 (λ inp u3 _.
            req-Ends (literal "o") _ u3 (λ outp u4 e. C.open_ends pass file inp outp u4 e))))

      run_verify-Ends : (w : World) → Ends s R F (W m) (run_verify F m s w)
      unfolding run_verify
      run_verify-Ends w =
          req-Ends (literal "p") _ w
            (λ pass u1 _. req-Ends (literal "f") _ u1 (λ file u2 _. C.verify_ends pass file u2))

      run-Ends : (cmd : Bytes) (w : World) → Ends s R F (W m) (run F cmd m s w)
      unfolding run
      run-Ends cmd w = if-Ends (bytes_eq cmd (literal "init")) _ _ w (run_init-Ends w) (
          if-Ends (bytes_eq cmd (literal "add")) _ _ w (run_add-Ends w) (
            if-Ends (bytes_eq cmd (literal "seal")) _ _ w (run_seal-Ends w) (
              if-Ends (bytes_eq cmd (literal "open")) _ _ w (run_open-Ends w)
                (if-Ends (bytes_eq cmd (literal "verify")) _ _ w (run_verify-Ends w) (kept exit)))))

  -- Every run ends as its command does, or at once with exit code 1.
  pub dispatch-Ends :
      ((m : Flags) → CommandsEnd m)
      → (argv : List Bytes) (w : World)
      → Ends s R F (W (parse_flags (drop 2 argv) [])) (dispatch F argv s w)
  unfolding dispatch
  dispatch-Ends C [] w = kept exit
  dispatch-Ends C (program ∷ []) w = kept exit
  dispatch-Ends C (program ∷ cmd ∷ rest) w =
      run-Ends (parse_flags rest []) (C (parse_flags rest [])) cmd w
