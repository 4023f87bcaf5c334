-- ===== src/Process/Endings.antt =====
-- How a run of the process of src/bin/aegis.rs can end: exit codes, writes, panics.
use aegis_keys_with_soteria.Prelude.{
  ◌≡◌, inl, inr, refl, Bool, true, false, Option, none, some, Bool-cases,
}
use aegis_keys_with_soteria.Errors.{AegisError, Result, ok, err, panic}
use aegis_keys_with_soteria.Errors.Effects.{World, Op, Method}
use aegis_keys_with_soteria.Primitives.{Bytes}
use aegis_keys_with_soteria.Process.{
  FileSystem, Outcome, done, exited, aborted, Cmd, and_next, outcome, check, or_fail, outcome_with,
  unwrapped, unwrap, call, read_file, write_file,
}

module _ {S : Type 0} (s : S) (R : Type 0) where
  -- A step that writes nothing: it ends with a value that has the property, with exit code 1, or,
  -- for the reason `R`, with a panic.
  pub data Quiet {A : Type 0} (Q : A → Type 0) : Outcome A × S × World → Type 0 where
    value : {u : World} (a : A) → Q a → Quiet Q (done a, s, u)
    exit : {u : World} → Quiet Q (exited 1, s, u)
    abort : {u : World} → R → Quiet Q (aborted, s, u)

  pub Quiet-bind :
      {A B : Type 0} {Q : A → Type 0} {Q' : B → Type 0} {o : Outcome A × S × World}
      (f : A → Cmd S B)
      → Quiet Q o
      → ((a : A) (u : World) → Q a → Quiet Q' (f a s u))
      → Quiet Q' (and_next o f)
  Quiet-bind f (value {u} a q) k = k a u q
  Quiet-bind f exit k = exit
  Quiet-bind f (abort r) k = abort r

  pub Quiet-unit :
      {A : Type 0} {Q : A → Type 0} {o : Outcome A × S × World}
      → Quiet Q o
      → Quiet (λ _. Unit {0}) o
  Quiet-unit (value a q) = value a tt
  Quiet-unit exit = exit
  Quiet-unit (abort r) = abort r

  pub Quiet-map :
      {A : Type 0} {Q Q' : A → Type 0} {o : Outcome A × S × World}
      → Quiet Q o
      → ((a : A) → Q a → Q' a)
      → Quiet Q' o
  Quiet-map (value a q) k = value a (k a q)
  Quiet-map exit k = exit
  Quiet-map (abort r) k = abort r

  pub check-Quiet : (b : Bool) (w : World) → Quiet (λ _. b ≡ true) (check b s w)
  unfolding check
  check-Quiet true w = value tt refl
  check-Quiet false w = exit

  pub or_fail-Quiet :
      {A : Type 0} {Q : A → Type 0} (m : Op A) (w : World)
      → ((a : A) → (m w).0 ≡ ok a → Q a)
      → ((m w).0 ≡ panic → R)
      → Quiet Q (or_fail m s w)
  unfolding or_fail
  or_fail-Quiet {A} {Q} m w = go (m w)
    where
      go :
          (o : Result A × World)
          → ((a : A) → o.0 ≡ ok a → Q a)
          → (o.0 ≡ panic → R)
          → Quiet Q (outcome o.0, s, o.1)
      go (ok a, u) q r = value a (q a refl)
      go (err e, u) q r = exit
      go (panic, u) q r = abort (r refl)

  pub unwrap-Quiet :
      {A : Type 0} {Q : A → Type 0} (m : Op A) (w : World)
      → ((a : A) → (m w).0 ≡ ok a → Q a)
      → ((e : AegisError) → (m w).0 ≡ err e → R)
      → ((m w).0 ≡ panic → R)
      → Quiet Q (unwrap m s w)
  unfolding unwrap
  unwrap-Quiet {A} {Q} m w = go (m w)
    where
      go :
          (o : Result A × World)
          → ((a : A) → o.0 ≡ ok a → Q a)
          → ((e : AegisError) → o.0 ≡ err e → R)
          → (o.0 ≡ panic → R)
          → Quiet Q (unwrapped o.0, s, o.1)
      go (ok a, u) q r p = value a (q a refl)
      go (err e, u) q r p = abort (r e refl)
      go (panic, u) q r p = abort (p refl)

  pub call-Quiet :
      {A V : Type 0} {Q : A × V → Type 0} (m : Method V A) (v : V) (w : World)
      → ((a : A) → (m v w).0 ≡ ok a → Q (a, (m v w).1))
      → ((m v w).0 ≡ panic → R)
      → Quiet Q (call m v s w)
  unfolding call
  call-Quiet {A} {V} {Q} m v w = go (m v w)
    where
      go :
          (o : Result A × V × World)
          → ((a : A) → o.0 ≡ ok a → Q (a, o.1))
          → (o.0 ≡ panic → R)
          → Quiet Q (outcome_with o.0 o.1, s, o.2)
      go (ok a, v', u) q r = value (a, v') (q a refl)
      go (err e, v', u) q r = exit
      go (panic, v', u) q r = abort (r refl)

  module _ (F : FileSystem S) where
    pub read_file-Quiet :
        (path : Bytes) (w : World) → Quiet (λ b. F.read s path ≡ some b) (read_file F path s w)
    unfolding read_file
    read_file-Quiet path w = go (F.read s path) refl
      where
        go :
            (o : Option Bytes)
            → F.read s path ≡ o
            → Quiet
                (λ b. F.read s path ≡ some b)
                (elim o [ none ↦ (exited 1, s, w) | some b ↦ (done b, s, w) ])
        go none e = exit
        go (some b) e = value b e

    module _ (W : Bytes → Bytes → Type 0) where
      -- How a command ends: with nothing written, or with one write as its last act, of a path and a
      -- content with this property, whose failure is exit code 1.
      pub data Ends : Outcome (Unit {0}) × S × World → Type 0 where
        kept : {o : Outcome (Unit {0}) × S × World} → Quiet (λ _. Unit {0}) o → Ends o
        wrote :
            {u : World} (path content : Bytes)
            → W path content
            → (F.write s path content).0 ≡ true
            → Ends (done tt, (F.write s path content).1, u)
        failed :
            {u : World} (path content : Bytes)
            → W path content
            → (F.write s path content).0 ≡ false
            → Ends (exited 1, (F.write s path content).1, u)

      pub write_file-Ends :
          (path content : Bytes) (w : World) → W path content → Ends (write_file F path content s w)
      unfolding write_file
      write_file-Ends path content w h = elim (Bool-cases (F.write s path content).0) [
        | inl e ↦ rw (e, write_file) (wrote path content h e)
        | inr e ↦ rw (e, write_file) (failed path content h e)
      ]

      pub Ends-bind :
          {A : Type 0} {Q : A → Type 0} {o : Outcome A × S × World} (f : A → Cmd S (Unit {0}))
          → Quiet Q o
          → ((a : A) (u : World) → Q a → Ends (f a s u))
          → Ends (and_next o f)
      Ends-bind f (value {u} a q) k = k a u q
      Ends-bind f exit k = kept exit
      Ends-bind f (abort r) k = kept (abort r)
