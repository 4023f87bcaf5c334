-- ===== src/Cli/Arguments.antt =====
-- The loop of `parse_args` of src/bin/aegis.rs, with its index, against the flags of a list.
use aegis_keys_with_soteria.Prelude.{
  ℕ, zero, suc, ◌+◌, ◌-◌, ◌<◌, ◌≡◌, refl, sym, ap, ◌∙◌, Option, none, some, inl, inr, List, [], ◌∷◌,
  arith, length, drop, get_elem?, get_elem?-lt, Option-cases,
}
use aegis_keys_with_soteria.Prelude.Slices.{drop-drop}
use aegis_keys_with_soteria.Primitives.{Bytes}
use aegis_keys_with_soteria.Cli.{Flags, strip_dash, parse_flags}

-- `argv.get(i).cloned().unwrap_or_default()`
abbrev pub get_or_default : List Bytes → ℕ → Bytes
get_or_default argv i = elim (get_elem? argv i) [ none ↦ [] | some v ↦ v ]

-- The loop from this index, for at most so many rounds: nothing if they do not suffice.
unfoldable pub parse_loop : ℕ → List Bytes → ℕ → Flags → Option Flags
parse_loop zero argv i m = none
parse_loop (suc fuel) argv i m = elim (get_elem? argv i) [
  | none ↦ some m
  | some a ↦ elim (strip_dash a) [
    | some key ↦ parse_loop fuel argv (i + 2) ((key, get_or_default argv (i + 1)) ∷ m)
    | none ↦ parse_loop fuel argv (i + 1) m
  ]
]

drop_at :
    (xs : List Bytes) (i : ℕ) (a : Bytes)
    → get_elem? xs i ≡ some a
    → drop i xs ≡ a ∷ drop (suc i) xs
drop_at [] i a e = cc
drop_at (x ∷ xs) zero a e = cc
drop_at (x ∷ xs) (suc i) a e = drop_at xs i a e

drop_here :
    (xs : List Bytes) (i : ℕ) (a : Bytes)
    → get_elem? xs i ≡ some a
    → drop i xs ≡ a ∷ drop (i + 1) xs
drop_here xs i a e =
    let next : suc i ≡ i + 1 = omega arith in drop_at xs i a e ∙ ap (λ k. a ∷ drop k xs) next

drop_end : (xs : List Bytes) (i : ℕ) → get_elem? xs i ≡ none → drop i xs ≡ []
drop_end [] zero e = refl
drop_end [] (suc i) e = refl
drop_end (x ∷ xs) zero e = cc
drop_end (x ∷ xs) (suc i) e = drop_end xs i e

drop_past : (xs : List Bytes) (i : ℕ) → drop i xs ≡ [] → drop (i + 1) xs ≡ []
drop_past xs i e = sym (drop-drop i 1 xs) ∙ ap (drop 1) e

parse_flags_stray :
    (a : Bytes) (rest : List Bytes) (m : Flags)
    → strip_dash a ≡ none
    → parse_flags (a ∷ rest) m ≡ parse_flags rest m
unfolding parse_flags
parse_flags_stray a [] m e = rw (e, parse_flags) refl
parse_flags_stray a (v ∷ rest) m e = rw (e, parse_flags) refl

parse_flags_flag :
    (argv : List Bytes) (i : ℕ) (a key : Bytes) (m : Flags)
    → strip_dash a ≡ some key
    → parse_flags (a ∷ drop i argv) m
      ≡ parse_flags (drop (i + 1) argv) ((key, get_or_default argv i) ∷ m)
unfolding parse_flags
parse_flags_flag argv i a key m e = elim (Option-cases (get_elem? argv i)) [
  | inl n ↦
      let past : drop (i + 1) argv ≡ [] = drop_past argv i (drop_end argv i n) in
      rw (drop_end argv i n, past, e, parse_flags, get_or_default, n) refl
  | inr (v, h) ↦ rw (drop_here argv i v h, e, parse_flags, get_or_default, h) refl
]

-- For every list of arguments, index and flags so far: with more rounds than arguments are left,
-- the loop ends, with the flags that the rest of the arguments gives. (The index of the loop may
-- pass the end: the last flag then has the empty value.)
pub parse_loop-parse_flags :
    (fuel : ℕ) (argv : List Bytes) (i : ℕ) (m : Flags)
    → length argv - i < fuel
    → parse_loop fuel argv i m ≡ some (parse_flags (drop i argv) m)
unfolding parse_loop
parse_loop-parse_flags zero argv i m enough = absurd (omega arith)
parse_loop-parse_flags (suc fuel) argv i m enough = elim (Option-cases (get_elem? argv i)) [
  | inl n ↦ rw (n, drop_end argv i n, parse_loop) (unfold parse_flags in refl)
  | inr (a, h) ↦
      let inside : i < length argv = get_elem?-lt argv i h in
      let two : i + 1 + 1 ≡ i + 2 = omega arith in
      elim (Option-cases (strip_dash a)) [
        | inl n ↦
            rw (h, n, parse_loop)
              (parse_loop-parse_flags fuel argv (i + 1) m (omega arith)
                ∙ ap some (
                    sym (
                      ap (λ l. parse_flags l m) (drop_here argv i a h)
                      ∙ parse_flags_stray a (drop (i + 1) argv) m n)))
        | inr (key, k) ↦
            rw (h, k, parse_loop)
              (parse_loop-parse_flags fuel argv (i + 2) ((key, get_or_default argv (i + 1)) ∷ m)
                  (omega arith)
                ∙ ap some (
                    sym (
                      ap (λ l. parse_flags l m) (drop_here argv i a h)
                      ∙ parse_flags_flag argv (i + 1) a key m k
                      ∙ ap (λ n. parse_flags (drop n argv) ((key, get_or_default argv (i + 1)) ∷ m))
                          two)))
      ]
]
