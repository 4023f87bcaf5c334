-- ===== src/Process.antt =====
-- How the process of src/bin/aegis.rs runs: the file system it works on, and how a step of it ends.
pub mod Endings
use aegis_keys_with_soteria.Prelude.{ℕ, ◌≡◌, Bool, true, false, if◌then◌else◌, Option, none, some}
use aegis_keys_with_soteria.Errors.{Result, ok, err, panic}
use aegis_keys_with_soteria.Errors.Effects.{World, Op, Method}
use aegis_keys_with_soteria.Primitives.{Bytes}

-- What the process takes from the system. `std::fs`: reading gives nothing where it fails; writing
-- says whether it succeeded. Paths may be names of one file (`v` and `./v`, links), and lead to
-- other things than regular files (a directory, `/dev/null`); which file a path leads to is the
-- same throughout the runs. `env::args` panics on an argument that is not Unicode, and `println!`
-- and `eprintln!` where the stream does not take the text.
pub record FileSystem (S : Type 0) : Type 0 where
  pub same_file : Bytes → Bytes → Bool
  pub is_regular : Bytes → Bool
  pub is_unicode : Bytes → Bool
  pub prints : World → Bool
  pub read : S → Bytes → Option Bytes
  pub write : S → Bytes → Bytes → Bool × S

-- What a successful write does: a regular file has the content, and the other files stay.
pub record IsFileSystem {S : Type 0} (F : FileSystem S) : Type 0 where
  pub written :
      (s : S) (path content : Bytes)
      → F.is_regular path ≡ true
      → (F.write s path content).0 ≡ true
      → F.read (F.write s path content).1 path ≡ some content
  pub untouched :
      (s : S) (path other content : Bytes)
      → (F.write s path content).0 ≡ true
      → F.same_file path other ≡ false
      → F.read (F.write s path content).1 other ≡ F.read s other

-- How a step of the program ends: with a value, or with the end of the process.
pub data Outcome (A : Type 0) : Type 0 where
  done : A → Outcome A
  exited : ℕ → Outcome A
  aborted : Outcome A

-- `.unwrap_or_else(|e| fail(..))`
abbrev pub outcome : {A : Type 0} → Result A → Outcome A
outcome (ok a) = done a
outcome (err e) = exited 1
outcome panic = aborted

-- `.unwrap()`
abbrev pub unwrapped : {A : Type 0} → Result A → Outcome A
unwrapped (ok a) = done a
unwrapped (err e) = aborted
unwrapped panic = aborted

-- The result of a method, with the object after it.
abbrev pub outcome_with : {A V : Type 0} → Result A → V → Outcome (A × V)
outcome_with (ok a) v = done (a, v)
outcome_with (err e) v = exited 1
outcome_with panic v = aborted

abbrev pub Cmd : Type 0 → Type 0 → Type 0
Cmd S A = S → World → Outcome A × S × World

module _ {S : Type 0} where
  infixl 5 ◌>>=◌ ◌>>◌
  abbrev pub and_next :
      {A B : Type 0} → Outcome A × S × World → (A → Cmd S B) → Outcome B × S × World
  and_next (done a, s, w) f = f a s w
  and_next (exited n, s, w) f = (exited n, s, w)
  and_next (aborted, s, w) f = (aborted, s, w)

  abbrev pub ◌>>=◌ : {A B : Type 0} → Cmd S A → (A → Cmd S B) → Cmd S B
  (m >>= f) s w = and_next (m s w) f

  abbrev pub ◌>>◌ : {B : Type 0} → Cmd S (Unit {0}) → Cmd S B → Cmd S B
  (m >> k) s w = and_next (m s w) (λ _. k)

  abbrev pub pure : {A : Type 0} → A → Cmd S A
  pure a s w = (done a, s, w)

  abbrev pub fail : {A : Type 0} → Cmd S A
  fail s w = (exited 1, s, w)

  unfoldable pub check : Bool → Cmd S (Unit {0})
  check b = if b then pure tt else fail

  unfoldable pub or_fail : {A : Type 0} → Op A → Cmd S A
  or_fail m s w = let (r, v) = m w in (outcome r, s, v)

  unfoldable pub unwrap : {A : Type 0} → Op A → Cmd S A
  unwrap m s w = let (r, v) = m w in (unwrapped r, s, v)

  unfoldable pub call : {A V : Type 0} → Method V A → V → Cmd S (A × V)
  call m v s w = let (r, v', w') = m v w in (outcome_with r v', s, w')

  -- The last act of a run: it prints what it did, or why it failed, and panics where that fails.
  unfoldable pub announce :
      FileSystem S → {A : Type 0} → Outcome A × S × World → Outcome A × S × World
  announce F (done a, s, w) = if F.prints w then (done a, s, w) else (aborted, s, w)
  announce F (exited n, s, w) = if F.prints w then (exited n, s, w) else (aborted, s, w)
  announce F (aborted, s, w) = (aborted, s, w)

  -- `.expect(..)` on an `Option`.
  unfoldable pub some_or_abort : {A : Type 0} → Option A → Cmd S A
  some_or_abort (some a) s w = (done a, s, w)
  some_or_abort none s w = (aborted, s, w)

module _ {S : Type 0} (F : FileSystem S) where
  unfoldable pub read_file : Bytes → Cmd S Bytes
  read_file path s w = elim (F.read s path) [ none ↦ (exited 1, s, w) | some b ↦ (done b, s, w) ]

  unfoldable pub write_file : Bytes → Bytes → Cmd S (Unit {0})
  write_file path content s w =
      let (written, s') = F.write s path content in
      if written then (done tt, s', w) else (exited 1, s', w)
