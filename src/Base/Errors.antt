-- ===== src/Base/Errors.antt =====
-- Go's `(value, error)`: an error carries the fixed text of its message (the format string).
use Prim.Native.String.{String}
use mathlib.Core.Path.{◌≡◌, refl}
use mathlib.Core.Logic.{◌⊎◌, inl, inr}
use mathlib.Core.Bool.{Bool, true, false}
use mathlib.Core.List.{List, [], ◌∷◌}

pub data Result {ℓ} (Value : Type ℓ) : Type ℓ where
  err : String → Result Value
  ok : Value → Result Value

infixl 5 ◌>>=◌
-- `value, err := …; if err != nil { return …, err }`
abbrev pub ◌>>=◌ {ℓ κ} :
    {Value : Type ℓ} {Next : Type κ} → Result Value → (Value → Result Next) → Result Next
err message >>= next = err message
ok value >>= next = next value

-- `if err := …; err != nil { return …, err }`
infixl 5 ◌>>◌
abbrev pub ◌>>◌ {ℓ} : {Next : Type ℓ} → Result (Unit {0}) → Result Next → Result Next
err message >> next = err message
ok done >> next = next

-- `if bad { return fmt.Errorf(message) }`
abbrev pub refuse_if : Bool → String → Result (Unit {0})
refuse_if true e = err e
refuse_if false e = ok tt

abbrev pub is_err {ℓ} : {A : Type ℓ} → Result A → Bool
is_err (ok a) = false
is_err (err e) = true

pub Result-cases {ℓ} :
    {A : Type ℓ} (r : Result A) → ((a : A) × (r ≡ ok a)) ⊎ ((e : String) × (r ≡ err e))
Result-cases (ok a) = inl (a, refl)
Result-cases (err e) = inr (e, refl)

-- What a step and its continuation returned when the whole returned a value.
pub >>=-eq-ok {ℓ κ} :
    {Value : Type ℓ} {Next : Type κ} (step : Result Value) (next : Value → Result Next) {out : Next}
    → (step >>= next) ≡ ok out
    → (value : Value) × (step ≡ ok value) × (next value ≡ ok out)
>>=-eq-ok (err message) next returned = cc
>>=-eq-ok (ok value) next returned = (value, refl, returned)

pub >>-eq-ok {ℓ} :
    {Next : Type ℓ} (check : Result (Unit {0})) (next : Result Next) {out : Next}
    → (check >> next) ≡ ok out
    → (check ≡ ok tt) × (next ≡ ok out)
>>-eq-ok (err message) next returned = cc
>>-eq-ok (ok tt) next returned = (refl, returned)

-- A chain of checks: what it means that all of them pass.
abbrev pub all_pass : List (Result (Unit {0})) → Result (Unit {0})
all_pass [] = ok tt
all_pass (c ∷ cs) = c >> all_pass cs

abbrev pub Passed : List (Result (Unit {0})) → Type 0
Passed [] = Unit
Passed (c ∷ cs) = (c ≡ ok tt) × Passed cs

pub Passed-of_all_pass : (cs : List (Result (Unit {0}))) → all_pass cs ≡ ok tt → Passed cs
Passed-of_all_pass [] h = tt
Passed-of_all_pass (c ∷ cs) h =
    let (first, rest) = >>-eq-ok c (all_pass cs) h in (first, Passed-of_all_pass cs rest)

pub all_pass_of_Passed : (cs : List (Result (Unit {0}))) → Passed cs → all_pass cs ≡ ok tt
all_pass_of_Passed [] h = refl
all_pass_of_Passed (c ∷ cs) (first, rest) = rw first (all_pass_of_Passed cs rest)

pub refuse_if-eq-ok : (b : Bool) (e : String) → refuse_if b e ≡ ok tt → b ≡ false
refuse_if-eq-ok true e h = cc
refuse_if-eq-ok false e h = refl

-- A guard that did not refuse.
pub refuse_if->>-eq-ok {ℓ} :
    {Next : Type ℓ} (bad : Bool) (message : String) (next : Result Next) {out : Next}
    → (refuse_if bad message >> next) ≡ ok out
    → (bad ≡ false) × (next ≡ ok out)
refuse_if->>-eq-ok true message next h = cc
refuse_if->>-eq-ok false message next h = (refl, h)

-- The same steps forwards: one that passes hands on to the rest.
pub refuse_if->>-pass {ℓ} :
    {Next : Type ℓ} (bad : Bool) (message : String) (next : Result Next)
    → bad ≡ false
    → (refuse_if bad message >> next) ≡ next
refuse_if->>-pass true message next h = cc
refuse_if->>-pass false message next h = refl

pub >>-pass {ℓ} :
    {Next : Type ℓ} (check : Result (Unit {0})) (next : Result Next)
    → check ≡ ok tt
    → (check >> next) ≡ next
>>-pass (err message) next h = cc
>>-pass (ok tt) next h = refl

pub >>=-pass {ℓ κ} :
    {Value : Type ℓ} {Next : Type κ} (step : Result Value) (next : Value → Result Next) (v : Value)
    → step ≡ ok v
    → (step >>= next) ≡ next v
>>=-pass step next v h = rw h refl
