-- ===== src/Base/Effects.antt =====
-- Go's calls that may change the world and may fail: what they return, and the world afterwards.
use mathlib.Core.Path.{◌≡◌, refl, ap}
use realtime_speech_pipeline.Base.Errors.{Result, ok, err}

abbrev pub Effect : Type 0 → Type 0 → Type 0
Effect World Value = World → Result Value × World

abbrev pub pure : {World Value : Type 0} → Value → Effect World Value
pure value w = (ok value, w)

-- A call that neither reads nor changes the world.
abbrev pub lift : {World Value : Type 0} → Result Value → Effect World Value
lift r w = (r, w)

abbrev pub continue_from :
    {World Value Next : Type 0}
    → Result Value × World
    → (Value → Effect World Next)
    → Result Next × World
continue_from (ok value, w) next = next value w
continue_from (err message, w) next = (err message, w)

infixl 5 ◌>>=◌
abbrev pub ◌>>=◌ :
    {World Value Next : Type 0}
    → Effect World Value
    → (Value → Effect World Next)
    → Effect World Next
(step >>= next) w = continue_from (step w) next

infixl 5 ◌>>◌
abbrev pub ◌>>◌ :
    {World Next : Type 0} → Effect World (Unit {0}) → Effect World Next → Effect World Next
(step >> next) w = continue_from (step w) (λ _. next)

continue_from-eq-ok :
    {World Value Next : Type 0} (step : Result Value × World) (next : Value → Effect World Next)
    (out : Next) (w : World)
    → continue_from step next ≡ (ok out, w)
    → (value : Value) × (after : World) × (step ≡ (ok value, after))
      × (next value after ≡ (ok out, w))
continue_from-eq-ok (ok value, after) next out w e = (value, after, refl, e)
continue_from-eq-ok (err message, after) next out w e = cc (ap (λ p. p.0) e)

-- What a step and its continuation returned when the whole returned a value.
pub >>=-eq-ok :
    {World Value Next : Type 0} (step : Effect World Value) (next : Value → Effect World Next)
    (out : Next) (w end : World)
    → (step >>= next) w ≡ (ok out, end)
    → (value : Value) × (after : World) × (step w ≡ (ok value, after))
      × (next value after ≡ (ok out, end))
>>=-eq-ok step next out w end e = continue_from-eq-ok (step w) next out end e

pub pure-eq-ok :
    {World Value : Type 0} (value out : Value) (w after : World)
    → pure value w ≡ (ok out, after)
    → value ≡ out
pure-eq-ok value out w after e = ok_value (ap (λ p. p.0) e)
  where
    ok_value : ok value ≡ ok out → value ≡ out
    ok_value h = cc

pub lift-eq-ok :
    {World Value : Type 0} (r : Result Value) (out : Value) (w after : World)
    → lift r w ≡ (ok out, after)
    → r ≡ ok out
lift-eq-ok r out w after e = ap (λ p. p.0) e
