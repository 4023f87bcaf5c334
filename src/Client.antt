-- ===== src/Client.antt =====
-- What code that calls the crate does with the results: `unwrap`, `expect`, `assert!`, `is_err`.
-- A panic ends the program.
use aegis_keys_with_soteria.Prelude.{
  ℕ, Bool, true, false, Option, none, some, get_elem?, set, bit_xor,
}
use aegis_keys_with_soteria.Errors.{Result, ok, err, panic, expect}
use aegis_keys_with_soteria.Errors.Effects.{World, Op, Method}
use aegis_keys_with_soteria.Primitives.{Bytes}

-- `assert!(..)`
abbrev pub assert : Bool → Result (Unit {0})
assert true = ok tt
assert false = panic

-- `unwrap` or `expect` of an option, of a call, and of a method.
abbrev pub expected : {A : Type 0} → Option A → Result A
expected (some a) = ok a
expected none = panic

abbrev pub unwrap : {A : Type 0} → Op A → Op A
unwrap m w = let (r, v) = m w in (expect r, v)

abbrev after : {A V : Type 0} → Result A × V × World → Result (A × V) × World
after (ok a, v, w) = (ok (a, v), w)
after (err e, v, w) = (panic, w)
after (panic, v, w) = (panic, w)

abbrev pub unwrap_method : {A V : Type 0} → Method V A → V → Op (A × V)
unwrap_method m v w = after (m v w)

-- `is_err()` of a result and of a call.
abbrev pub is_err : {A : Type 0} → Result A → Result Bool
is_err (ok a) = ok false
is_err (err e) = ok true
is_err panic = panic

abbrev pub refused : {A : Type 0} → Op A → Op Bool
refused m w = let (r, v) = m w in (is_err r, v)

-- `b[i] ^= 0x01`, which panics out of bounds.
abbrev pub flip_bit : Bytes → ℕ → Result Bytes
flip_bit b i = elim (get_elem? b i) [ none ↦ panic | some x ↦ ok (set b i (bit_xor x 1)) ]
