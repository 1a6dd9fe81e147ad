-- ===== src/Prelude/Result.antt =====
-- `Result` of the program, with the error type first.
use mathlib.Core.Bool.{Bool, true, false}
use mathlib.Core.Logic.{◌⊎◌, inl, inr}
use mathlib.Core.Option.{Option, none, some}
use mathlib.Core.Path.{◌≡◌, refl}

pub data Result {ℓ κ} (E : Type ℓ) (A : Type κ) : Type (ℓ ⊔ κ) where
  ok : A → Result E A
  err : E → Result E A

-- The question mark: the first error ends the chain.
infixl 5 ◌>>=◌
abbrev pub ◌>>=◌ {ε α β} :
    {Fault : Type ε} {Got : Type α} {Next : Type β}
    → Result Fault Got
    → (Got → Result Fault Next)
    → Result Fault Next
err fault >>= next = err fault
ok got >>= next = next got

abbrev pub map_err {ℓ κ μ} :
    {E : Type ℓ} {F : Type κ} {A : Type μ} → (E → F) → Result E A → Result F A
map_err f (ok a) = ok a
map_err f (err e) = err (f e)

-- `Option::ok_or`
abbrev pub ok_or {ℓ κ} : {E : Type ℓ} {A : Type κ} → E → Option A → Result E A
ok_or e none = err e
ok_or e (some a) = ok a

abbrev pub is_ok {ℓ κ} : {E : Type ℓ} {A : Type κ} → Result E A → Bool
is_ok (ok a) = true
is_ok (err e) = false

-- A chain that succeeds has a first step that succeeds, and the rest succeeds on what it gave.
pub >>=-eq-ok {ε α β} :
    {Fault : Type ε} {Got : Type α} {Next : Type β} {last : Next} (step : Result Fault Got)
    (next : Got → Result Fault Next)
    → (step >>= next) ≡ ok last
    → (got : Got) × (step ≡ ok got) × (next got ≡ ok last)
>>=-eq-ok (err fault) next h = cc h
>>=-eq-ok (ok got) next h = (got, refl, h)

pub Result-cases {ε α} :
    {Fault : Type ε} {Got : Type α} (r : Result Fault Got)
    → ((got : Got) × (r ≡ ok got)) ⊎ ((fault : Fault) × (r ≡ err fault))
Result-cases (err fault) = inr (fault, refl)
Result-cases (ok got) = inl (got, refl)
