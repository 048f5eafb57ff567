-- ===== src/EventAbi/Gateway/Batches.antt =====
-- What a batch of signals is after internal/runtime/eventabi/gateway.go.
use realtime_speech_pipeline.Base.{
  ◌≡◌, ◌↔◌, ◌∙◌, ap, refl, sym, ◌&&◌, false, Option, none, some, List, [], ◌∷◌, map, ok, >>=-eq-ok,
  >>-eq-ok, arith,
}
use realtime_speech_pipeline.Base.Lists.{All}
use realtime_speech_pipeline.Base.Text.{is_empty}
use realtime_speech_pipeline.EventAbi.Types.{is_turn_scope}
use realtime_speech_pipeline.EventAbi.Signal
use realtime_speech_pipeline.EventAbi.Signal.Rules.{validate-Envelope}
use realtime_speech_pipeline.EventAbi.Signal.{ControlSignal}
use realtime_speech_pipeline.EventAbi.Gateway.{
  fill_signal, normalize_signal, follows, normalize_signals, validate_and_normalize_control_signals,
}

-- Each item follows the one before it.
abbrev pub Ordered : Option ControlSignal → List ControlSignal → Type 0
Ordered prev [] = Unit
Ordered prev (c ∷ cs) = (follows prev c ≡ ok tt) × Ordered (some c) cs

module _ (prev : Option ControlSignal) (c : ControlSignal) (cs : List ControlSignal) where
  -- The four steps of one round.
  round :
      {out : List ControlSignal}
      → normalize_signals prev (c ∷ cs) ≡ ok out
      → (n : ControlSignal) × (normalize_signal c ≡ ok n)
        × (Signal.validate n ≡ ok tt)
        × (follows prev n ≡ ok tt)
        × ((rest : List ControlSignal) × (normalize_signals (some n) cs ≡ ok rest)
            × (out ≡ n ∷ rest))
  unfolding normalize_signals
  round h =
      let (n, norm, h1) = >>=-eq-ok (normalize_signal c) _ h in
      let (valid, h2) = >>-eq-ok (Signal.validate n) _ h1 in
      let (after, h3) = >>-eq-ok (follows prev n) _ h2 in
      let (rest, tail, h4) = >>=-eq-ok (normalize_signals (some n) cs) _ h3 in
      (n, norm, valid, after, (rest, tail, cc))

fill_signal_idem : (c : ControlSignal) → fill_signal (fill_signal c) ≡ fill_signal c
unfolding fill_signal
fill_signal_idem c = ground arith

abbrev pub IsAccepted : ControlSignal → Type 0
IsAccepted c = Signal.validate c ≡ ok tt

-- What a batch has to be for the gateway to pass it as `out`.
pub record Passes (prev : Option ControlSignal) (cs out : List ControlSignal) : Type 0 where
  pub filled : out ≡ map fill_signal cs
  pub accepted : All IsAccepted out
  pub ordered : Ordered prev out

normalize_signal-filled : (c n : ControlSignal) → normalize_signal c ≡ ok n → n ≡ fill_signal c
unfolding normalize_signal
normalize_signal-filled c n h = ground arith

-- A valid signal of a turn names it, so that the gateway's own test passes.
normalize_signal_of_named :
    (c : ControlSignal)
    → (is_turn_scope c.event_scope && is_empty c.turn_id) ≡ false
    → normalize_signal c ≡ ok (fill_signal c)
unfolding normalize_signal
normalize_signal_of_named c h = rw h refl

fill_signal-turn :
    (c : ControlSignal)
    → (is_turn_scope (fill_signal c).event_scope && is_empty (fill_signal c).turn_id) ≡ false
    → (is_turn_scope c.event_scope && is_empty c.turn_id) ≡ false
unfolding fill_signal
fill_signal-turn c h = h

normalize_signal_of_accepted :
    (c : ControlSignal) → IsAccepted (fill_signal c) → normalize_signal c ≡ ok (fill_signal c)
normalize_signal_of_accepted c h =
    normalize_signal_of_named c
      (fill_signal-turn c (validate-Envelope (fill_signal c) h).turn_given)

normalize_signals-Passes :
    (prev : Option ControlSignal) (cs out : List ControlSignal)
    → normalize_signals prev cs ≡ ok out
    → Passes prev cs out
unfolding normalize_signals
normalize_signals-Passes prev [] out h =
    let e : [] ≡ out = cc in
    record { filled = sym e; accepted = rw (← e) tt; ordered = rw (← e) tt }
normalize_signals-Passes prev (c ∷ cs) out h =
    let (n, norm, valid, after, (rest, tail, shape)) = round prev c cs h in
    let ih = normalize_signals-Passes (some n) cs rest tail in
    record {
      filled = cc (normalize_signal-filled c n norm, ih.filled);
      accepted = rw shape (valid, ih.accepted);
      ordered = rw shape (after, ih.ordered);
    }

Passes-normalize_signals :
    (prev : Option ControlSignal) (cs : List ControlSignal)
    → All IsAccepted (map fill_signal cs)
    → Ordered prev (map fill_signal cs)
    → normalize_signals prev cs ≡ ok (map fill_signal cs)
unfolding normalize_signals
Passes-normalize_signals prev [] a o = refl
Passes-normalize_signals prev (c ∷ cs) a o =
    rw
      (
        normalize_signal_of_accepted c a.0,
        a.0,
        o.0,
        Passes-normalize_signals (some (fill_signal c)) cs a.1 o.1,
      )
      refl

-- A batch passes the gateway as `out` exactly when `out` is the batch with the missing fields filled
-- in, every signal of `out` is valid, and neither sequence falls from one signal to the next.
pub gateway-Passes :
    (cs out : List ControlSignal)
    → (validate_and_normalize_control_signals cs ≡ ok out) ↔ Passes none cs out
unfolding validate_and_normalize_control_signals
gateway-Passes cs out = (
  normalize_signals-Passes none cs out,
  λ p.
      Passes-normalize_signals none cs (rw p.filled at p.accepted) (rw p.filled at p.ordered)
      ∙ ap ok (sym p.filled),
)

map-fill_idem :
    (cs : List ControlSignal) → map fill_signal (map fill_signal cs) ≡ map fill_signal cs
map-fill_idem [] = refl
map-fill_idem (c ∷ cs) = cc (fill_signal_idem c, map-fill_idem cs)

-- What the gateway returns passes the gateway again, unchanged.
pub gateway_idem :
    (cs out : List ControlSignal)
    → validate_and_normalize_control_signals cs ≡ ok out
    → validate_and_normalize_control_signals out ≡ ok out
gateway_idem cs out h =
    let p = (gateway-Passes cs out).0 h in
    (gateway-Passes out out).1 (record {
      filled = p.filled ∙ sym (map-fill_idem cs) ∙ ap (map fill_signal) (sym p.filled);
      accepted = p.accepted;
      ordered = p.ordered;
    })

-- A batch that is already filled in, valid and ordered passes unchanged.
pub gateway_of_filled :
    (out : List ControlSignal)
    → map fill_signal out ≡ out
    → All IsAccepted out
    → Ordered none out
    → validate_and_normalize_control_signals out ≡ ok out
gateway_of_filled out f a o =
    (gateway-Passes out out).1 (record { filled = sym f; accepted = a; ordered = o })
