-- ===== src/Prelude/Results.antt =====
-- Go's pair of a value and an error: `ok a` where the error is nil, `err e` otherwise.
use mathlib.Core.Path.{◌≡◌, refl}
use mathlib.Core.Bool.{Bool, true, false}
use mathlib.Core.Logic.{◌⊎◌, inl, inr}
use mathlib.Core.Option.{Option, none, some}

pub data Result {ℓ} (Fault : Type 0) (Value : Type ℓ) : Type ℓ where
  err : Fault → Result Fault Value
  ok : Value → Result Fault Value

abbrev pub is_ok {ℓ} : {Fault : Type 0} {Value : Type ℓ} → Result Fault Value → Bool
is_ok (ok _) = true
is_ok (err _) = false

-- `if !ok { return e }` after a call that returns `v, ok`.
abbrev pub or_err {ℓ} :
    {Fault : Type 0} {Value : Type ℓ} → Option Value → Fault → Result Fault Value
or_err none e = err e
or_err (some a) e = ok a

-- `if test { return e }`
abbrev pub fail_if : {Fault : Type 0} → Bool → Fault → Result Fault (Unit {0})
fail_if true e = err e
fail_if false e = ok tt

-- `if err != nil { return err }` after a call that returns a value, and after one that does not.
abbrev pub ◌>>=◌ {ℓ κ} :
    {Fault : Type 0} {Before : Type ℓ} {After : Type κ}
    → Result Fault Before
    → (Before → Result Fault After)
    → Result Fault After
err fault >>= next = err fault
ok value >>= next = next value

abbrev pub ◌>>◌ {ℓ} :
    {Fault : Type 0} {After : Type ℓ}
    → Result Fault (Unit {0})
    → Result Fault After
    → Result Fault After
first >> next = first >>= λ _. next

infixl 5 ◌>>=◌ ◌>>◌
pub Result-cases {ℓ} :
    {E : Type 0} {A : Type ℓ} (r : Result E A) → ((a : A) × (r ≡ ok a)) ⊎ ((e : E) × (r ≡ err e))
Result-cases (ok a) = inl (a, refl)
Result-cases (err e) = inr (e, refl)

-- Where a chain of two calls succeeds, both calls do.
pub >>=-eq-ok {ℓ κ} :
    {Fault : Type 0} {Before : Type ℓ} {After : Type κ} (first : Result Fault Before)
    (next : Before → Result Fault After) {last : After}
    → (first >>= next) ≡ ok last
    → (between : Before) × (first ≡ ok between) × (next between ≡ ok last)
>>=-eq-ok (err fault) next stands = cc
>>=-eq-ok (ok between) next stands = (between, refl, stands)
