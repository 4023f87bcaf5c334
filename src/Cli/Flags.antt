-- ===== src/Cli/Flags.antt =====
-- `parse_args`, `req` and `main` of src/bin/aegis.rs: flags and commands.
use aegis_keys_with_soteria.Prelude.{
  ◌≡◌, ◌≢◌, refl, ap, ◌∙◌, Bool, true, false, Option, none, some, List, [], ◌∷◌, arith, length, All,
  if◌then◌else◌,
}
use aegis_keys_with_soteria.Errors.Effects.{World}
use aegis_keys_with_soteria.Primitives.{Bytes, Primitives}
use aegis_keys_with_soteria.Hierarchy.{literal}
use aegis_keys_with_soteria.Codec.{bytes_eq}
use aegis_keys_with_soteria.Process.{FileSystem, Cmd, done, announce}
use aegis_keys_with_soteria.Cli.{
  Flags, strip_dash, parse_flags, get_flag, req, all_unicode, dispatch, main, run, run_init,
  run_add, run_seal, run_open, run_verify, init, add, seal_file, open_file, verify,
}

-- A flag with its value, or a word between the flags that starts with no dash.
pub data Item : Type 0 where
  flag : Bytes → Bytes → Item
  stray : Bytes → Item

abbrev pub IsItem : Item → Type 0
IsItem (flag key v) = Unit
IsItem (stray word) = strip_dash word ≡ none

-- The arguments that spell these items.
unfoldable pub spell : List Item → List Bytes
spell [] = []
spell (flag key v ∷ items) = (45 ∷ key) ∷ v ∷ spell items
spell (stray word ∷ items) = word ∷ spell items

abbrev pub or_else : Option Bytes → Option Bytes → Option Bytes
or_else (some v) other = some v
or_else none other = other

-- The value of the last flag with this key.
unfoldable pub last_value : List Item → Bytes → Option Bytes
last_value [] k = none
last_value (flag key v ∷ items) k =
    or_else (last_value items k) (if bytes_eq key k then some v else none)
last_value (stray word ∷ items) k = last_value items k

parse_flags-stray :
    (word : Bytes) (rest : List Bytes) (m : Flags)
    → strip_dash word ≡ none
    → parse_flags (word ∷ rest) m ≡ parse_flags rest m
unfolding parse_flags
parse_flags-stray word [] m e = rw (e, parse_flags) refl
parse_flags-stray word (v ∷ rest) m e = rw (e, parse_flags) refl

last_first :
    (later : Option Bytes) (same : Bool) (v : Bytes) (older : Option Bytes)
    → or_else later (if same then some v else older)
      ≡ or_else (or_else later (if same then some v else none)) older
last_first (some x) same v older = refl
last_first none true v older = refl
last_first none false v older = refl

get_flag-parse_onto :
    (items : List Item) (m : Flags) (k : Bytes)
    → All IsItem items
    → get_flag (parse_flags (spell items) m) k ≡ or_else (last_value items k) (get_flag m k)
unfolding parse_flags spell last_value get_flag strip_dash
get_flag-parse_onto [] m k h = refl
get_flag-parse_onto (flag key v ∷ items) m k h =
    get_flag-parse_onto items ((key, v) ∷ m) k h.1
    ∙ last_first (last_value items k) (bytes_eq key k) v (get_flag m k)
get_flag-parse_onto (stray word ∷ items) m k h =
    ap (λ f. get_flag f k) (parse_flags-stray word (spell items) m h.0)
    ∙ get_flag-parse_onto items m k h.1

or_else-none : (o : Option Bytes) → or_else o none ≡ o
or_else-none none = refl
or_else-none (some v) = refl

-- For arguments that are flags with their values and words that start with no dash between them,
-- in any order: looking up a key gives the value of the last flag with this key, and nothing if
-- there is none.
pub get_flag-parse_flags :
    (items : List Item) (k : Bytes)
    → All IsItem items
    → get_flag (parse_flags (spell items) []) k ≡ last_value items k
unfolding get_flag
get_flag-parse_flags items k h =
    get_flag-parse_onto items [] k h ∙ or_else-none (last_value items k)

module _ ⦃P : Primitives⦄ {S : Type 0} (F : FileSystem S) where
  req-some :
      (args : Flags) (k v : Bytes) (s : S) (w : World)
      → get_flag args k ≡ some v
      → length v ≢ 0
      → req args k s w ≡ (done v, s, w)
  unfolding req
  req-some args k v s w e n = ground arith

  -- The value of the last flag with this key, which is not empty.
  abbrev Given : List Item → Bytes → Bytes → Type 0
  Given items k v = (last_value items k ≡ some v) × (length v ≢ 0)

  -- A command by its name, on the values of the flags that its usage lists.
  pub data Asks (items : List Item) : Bytes → Cmd S (Unit {0}) → Type 0 where
    init_asked :
        {pass out : Bytes}
        → Given items (literal "p") pass
        → Given items (literal "o") out
        → Asks items (literal "init") (init F pass out)
    add_asked :
        {pass newp file : Bytes}
        → Given items (literal "p") pass
        → Given items (literal "n") newp
        → Given items (literal "f") file
        → Asks items (literal "add") (add F pass newp file)
    seal_asked :
        {pass file inp outp : Bytes}
        → Given items (literal "p") pass
        → Given items (literal "f") file
        → Given items (literal "i") inp
        → Given items (literal "o") outp
        → Asks items (literal "seal") (seal_file F pass file inp outp)
    open_asked :
        {pass file inp outp : Bytes}
        → Given items (literal "p") pass
        → Given items (literal "f") file
        → Given items (literal "i") inp
        → Given items (literal "o") outp
        → Asks items (literal "open") (open_file F pass file inp outp)
    verify_asked :
        {pass file : Bytes}
        → Given items (literal "p") pass
        → Given items (literal "f") file
        → Asks items (literal "verify") (verify F pass file)

  module _ (items : List Item) (h : All IsItem items) (s : S) (w : World) where
    req-Given :
        (k : Bytes) {v : Bytes}
        → Given items k v
        → req (parse_flags (spell items) []) k s w ≡ (done v, s, w)
    req-Given k {v} (e, n) =
        req-some (parse_flags (spell items) []) k v s w (get_flag-parse_flags items k h ∙ e) n

    run-Asks :
        {cmd : Bytes} {c : Cmd S (Unit {0})}
        → Asks items cmd c
        → run F cmd (parse_flags (spell items) []) s w ≡ c s w
    unfolding run bytes_eq run_init run_add run_seal run_open run_verify
    run-Asks (init_asked p o) = rw (req-Given (literal "p") p, req-Given (literal "o") o) refl
    run-Asks (add_asked p n f) =
        rw (req-Given (literal "p") p, req-Given (literal "n") n, req-Given (literal "f") f) refl
    run-Asks (seal_asked p f i o) =
        rw
          (
            req-Given (literal "p") p,
            req-Given (literal "f") f,
            req-Given (literal "i") i,
            req-Given (literal "o") o,
          )
          refl
    run-Asks (open_asked p f i o) =
        rw
          (
            req-Given (literal "p") p,
            req-Given (literal "f") f,
            req-Given (literal "i") i,
            req-Given (literal "o") o,
          )
          refl
    run-Asks (verify_asked p f) = rw (req-Given (literal "p") p, req-Given (literal "f") f) refl

  -- For arguments that are Unicode, and that are flags with their values, and words that start with
  -- no dash between them: where the flags that the usage of a command lists are given, each with a
  -- last value that is not empty, and whatever other flags are given or missing, `main` runs that
  -- command on the values of its own flags, and prints at its end.
  pub main_dispatch :
      (program cmd : Bytes) (items : List Item) (c : Cmd S (Unit {0})) (s : S) (w : World)
      → All IsItem items
      → Asks items cmd c
      → all_unicode F (program ∷ cmd ∷ spell items) ≡ true
      → main F (program ∷ cmd ∷ spell items) s w ≡ announce F (c s w)
  unfolding main dispatch
  main_dispatch program cmd items c s w h asked u =
      rw (u, main) (ap (announce F) (run-Asks items h s w asked))
