-- ===== src/Errors/Effects.antt =====
-- Calls that ask the operating system: the random generator, the clock, page locking. The state is
-- the number of requests made so far, so that the answer to each may differ.
use aegis_keys_with_soteria.Prelude.{ℕ, suc, ◌≡◌, refl, arith}
use aegis_keys_with_soteria.Errors.{Result, ok, err, panic}

abbrev pub World : Type 0
World = ℕ

abbrev pub Op {ℓ} : Type ℓ → Type ℓ
Op A = World → Result A × World

module _ {ℓ} {A : Type ℓ} where
  abbrev pub pure : A → Op A
  pure a w = (ok a, w)

  abbrev pub lift : Result A → Op A
  lift r w = (r, w)

  -- One request: `ask` reads the answer to the request with this number.
  abbrev pub ask : (World → A) → Op A
  ask f w = (ok (f w), suc w)

module _ {ℓ κ} {A : Type ℓ} {B : Type κ} where
  abbrev pub and_then : Result A × World → (A → Op B) → Result B × World
  and_then (ok a, w) f = f a w
  and_then (err e, w) f = (err e, w)
  and_then (panic, w) f = (panic, w)

  infixl 5 ◌>>=◌
  abbrev pub ◌>>=◌ : Op A → (A → Op B) → Op B
  ◌>>=◌ m f w = and_then (m w) f

infixl 5 ◌>>◌
abbrev pub ◌>>◌ {ℓ} : {B : Type ℓ} → Op (Unit {0}) → Op B → Op B
m >> k = m >>= λ _. k

-- A method on `&mut self`: its result, with the object and the world that it leaves.
abbrev pub Method : Type 0 → Type 0 → Type 0
Method S A = S → World → Result A × S × World

-- Inversion of a successful step.
pub and_then-eq-ok {ℓ κ} :
    {A : Type ℓ} {B : Type κ} (o : Result A × World) (f : A → Op B) {b : B} {v : World}
    → and_then o f ≡ (ok b, v)
    → (a : A) × (u : World) × (o ≡ (ok a, u)) × (f a u ≡ (ok b, v))
and_then-eq-ok (ok a, u) f h = (a, u, refl, h)
and_then-eq-ok (err e, u) f h = ground arith
and_then-eq-ok (panic, u) f h = ground arith
