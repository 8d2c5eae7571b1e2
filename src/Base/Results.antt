-- ===== src/Base/Results.antt =====
-- A Go function that returns a value and an error: exactly one of the two counts.
use mathlib.Core.Path.{◌≡◌, refl}
use mathlib.Core.Logic.{◌⊎◌, inl, inr}
use mathlib.Core.Bool.{Bool, true, false}

pub data Result (E : Type 0) (A : Type 0) : Type 0 where
  ok : A → Result E A
  err : E → Result E A

infixl 5 ◌>>=◌ ◌>>◌
abbrev pub ◌>>=◌ : {Why X Y : Type 0} → Result Why X → (X → Result Why Y) → Result Why Y
ok value >>= next = next value
err why >>= next = err why

abbrev pub ◌>>◌ : {E B : Type 0} → Result E (Unit {0}) → Result E B → Result E B
first >> second = first >>= λ _. second

-- `if test { return err }`
abbrev pub reject_if : {E : Type 0} → Bool → E → Result E (Unit {0})
reject_if true e = err e
reject_if false e = ok tt

pub Result-cases :
    {E A : Type 0} (r : Result E A) → ((a : A) × (r ≡ ok a)) ⊎ ((e : E) × (r ≡ err e))
Result-cases (ok a) = inl (a, refl)
Result-cases (err e) = inr (e, refl)

pub ok-injective : {E A : Type 0} (a b : A) → ◌≡◌ {A = Result E A} (ok a) (ok b) → a ≡ b
ok-injective a b h = cc h

-- The first value of a chain that succeeds.
pub bind-ok :
    {E A B : Type 0} (r : Result E A) (next : A → Result E B) (b : B)
    → (r >>= next) ≡ ok b
    → (a : A) × (r ≡ ok a) × (next a ≡ ok b)
bind-ok (ok a) next b h = (a, refl, h)
bind-ok (err e) next b h = cc h

-- A test of a chain that succeeds did not reject.
pub reject_if-ok :
    {E B : Type 0} (test : Bool) (why : E) (rest : Result E B) (b : B)
    → (reject_if test why >> rest) ≡ ok b
    → (test ≡ false) × (rest ≡ ok b)
reject_if-ok true why rest b h = cc h
reject_if-ok false why rest b h = (refl, h)
