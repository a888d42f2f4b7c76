-- ===== src/Prelude/Result.antt =====
-- The outcome of a Go function that returns a value with an `error`, or panics.
use mathlib.Core.Path.{◌≡◌, refl}
use mathlib.Core.Logic.{◌⊎◌, inl, inr}
use mathlib.Core.Option.{Option, none, some}

pub data Result (E A : Type 0) : Type 0 where
  ok : A → Result E A
  err : E → Result E A
  panic : Result E A

infixl 5 ◌>>=◌ ◌>>◌
abbrev pub ◌>>=◌ : {E A B : Type 0} → Result E A → (A → Result E B) → Result E B
panic >>= f = panic
err e >>= f = err e
ok a >>= f = f a

abbrev pub ◌>>◌ : {E B : Type 0} → Result E (Unit {0}) → Result E B → Result E B
m >> k = m >>= λ _. k

-- A call of a library that returns nothing where it returns an error.
abbrev pub or_err : {E A : Type 0} → Option A → E → Result E A
or_err none e = err e
or_err (some a) e = ok a

-- An index into a slice, or a dereference, that panics.
abbrev pub or_panic : {E A : Type 0} → Option A → Result E A
or_panic none = panic
or_panic (some a) = ok a

-- What comes before and after in a chain that returns.
pub >>=-ok :
    {E A B : Type 0} {r : B} (before : Result E A) (after : A → Result E B)
    → (before >>= after) ≡ ok r
    → (x : A) × (after x ≡ ok r) × (before ≡ ok x)
>>=-ok panic after returned = cc
>>=-ok (err e) after returned = cc
>>=-ok (ok x) after returned = (x, returned, refl)

pub Result-cases :
    {E A : Type 0} (r : Result E A)
    → ((a : A) × (r ≡ ok a)) ⊎ (((e : E) × (r ≡ err e)) ⊎ (r ≡ panic))
Result-cases (ok a) = inl (a, refl)
Result-cases (err e) = inr (inl (e, refl))
Result-cases panic = inr (inr refl)
