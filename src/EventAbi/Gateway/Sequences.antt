-- ===== src/EventAbi/Gateway/Sequences.antt =====
-- The sequence numbers of a batch that internal/runtime/eventabi/gateway.go returned.
use realtime_speech_pipeline.Base.{◌≡◌, Option, none, some, List, [], ◌∷◌, ok, arith, false}
use realtime_speech_pipeline.Base.Int.{ℤ, pos, ◌≤ℤ◌}
use realtime_speech_pipeline.Base.Lists.{All}
use realtime_speech_pipeline.EventAbi.Types.{absent_or_negative}
use realtime_speech_pipeline.EventAbi.Signal.{ControlSignal}
use realtime_speech_pipeline.EventAbi.Signal.Rules.{validate-Envelope}
use realtime_speech_pipeline.EventAbi.Gateway.{follows, validate_and_normalize_control_signals}
use realtime_speech_pipeline.EventAbi.Gateway.Batches.{Ordered, IsAccepted, gateway-Passes}

abbrev pub transport_of : Option ℤ → ℤ
transport_of none = pos 0
transport_of (some n) = n

-- `d` stands nowhere before `c` in either sequence.
pub record Before (c d : ControlSignal) : Type 0 where
  pub runtime : c.runtime_sequence ≤ℤ d.runtime_sequence
  pub transport : transport_of c.transport_sequence ≤ℤ transport_of d.transport_sequence

Before-trans : (a b c : ControlSignal) → Before a b → Before b c → Before a c
Before-trans a b c h k = omega arith

-- Every signal is before every later one.
abbrev pub Monotone : List ControlSignal → Type 0
Monotone [] = Unit
Monotone (c ∷ cs) = All (Before c) cs × Monotone cs

follows-Before :
    (c d : ControlSignal)
    → absent_or_negative c.transport_sequence ≡ false
    → absent_or_negative d.transport_sequence ≡ false
    → follows (some c) d ≡ ok tt
    → Before c d
unfolding follows
follows-Before c d hc hd h = ground arith

All-Before :
    (a b : ControlSignal) (cs : List ControlSignal)
    → Before a b
    → All (Before b) cs
    → All (Before a) cs
All-Before a b [] h k = tt
All-Before a b (c ∷ cs) h k = (Before-trans a b c h k.0, All-Before a b cs h k.1)

Ordered-Monotone :
    (prev : Option ControlSignal) (cs : List ControlSignal)
    → All IsAccepted cs
    → Ordered prev cs
    → Monotone cs
Ordered-Monotone prev [] a o = tt
Ordered-Monotone prev (c ∷ []) a o = (tt, tt)
Ordered-Monotone prev (c ∷ d ∷ cs) a o =
    let ih = Ordered-Monotone (some c) (d ∷ cs) a.1 o.1 in
    let step =
      follows-Before c d (validate-Envelope c a.0).transport_given
        (validate-Envelope d a.1.0).transport_given o.1.0 in
    ((step, All-Before c d cs step ih.0), ih)

-- In a batch that the gateway returns, neither the runtime sequence nor the transport sequence of a
-- signal is above that of any later signal.
pub gateway-Monotone :
    (cs out : List ControlSignal)
    → validate_and_normalize_control_signals cs ≡ ok out
    → Monotone out
gateway-Monotone cs out h =
    let p = (gateway-Passes cs out).0 h in Ordered-Monotone none out p.accepted p.ordered
