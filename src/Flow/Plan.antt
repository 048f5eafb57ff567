-- ===== src/Flow/Plan.antt =====
-- What internal/runtime/flowcontrol/controller.go emits, for every request that is complete.
use realtime_speech_pipeline.Base.{
  ◌≡◌, refl, Bool, true, false, Option, none, some, List, [], ◌∷◌, ◌++◌, ok, arith, if◌then◌else◌,
  String,
}
use realtime_speech_pipeline.Base.Int.{ℤ}
use realtime_speech_pipeline.Base.Text.{is_empty}
use realtime_speech_pipeline.EventAbi.Types.{SignalName, is_lane, no_lane}
use realtime_speech_pipeline.EventAbi.Signal
use realtime_speech_pipeline.EventAbi.Signal.{ControlSignal}
use realtime_speech_pipeline.EventAbi.Gateway.{
  fill_signal, follows, validate_and_normalize_control_signals,
}
use realtime_speech_pipeline.EventAbi.Gateway.Batches.{IsAccepted, gateway_of_filled}
use realtime_speech_pipeline.Flow.{
  Input, Mode, edge_signal, build_signal, default_mode, is_mode, at_least_one, pressure_signals,
  recovery_signal, recovery_signals, evaluate,
}

-- A request that names its session, pipeline, edge and event, and a real lane.
pub record IsComplete (req : Input) : Type 0 where
  pub session : is_empty req.session_id ≡ false
  pub pipeline : is_empty req.pipeline_version ≡ false
  pub edge : is_empty req.edge_id ≡ false
  pub event : is_empty req.event_id ≡ false
  pub target : is_lane req.target_lane ≡ true

-- The signals of flow control, with what each of them carries.
data Emits (req : Input) : SignalName → String → Option ℤ → Type 0 where
  xoff : Emits req SignalName.flow_xoff "backpressure_asserted" none
  xon : Emits req SignalName.flow_xon "" none
  grant : Emits req SignalName.credit_grant "" (some (at_least_one req.credit_amount))

edge_signal-IsAccepted :
    (req : Input) {name : SignalName} {reason : String} {amount : Option ℤ}
    → IsComplete req
    → Emits req name reason amount
    → IsAccepted (edge_signal req name reason amount)
unfolding Signal.validation edge_signal
edge_signal-IsAccepted req c xoff = ground arith
edge_signal-IsAccepted req c xon = ground arith
edge_signal-IsAccepted req c grant = ground arith

build_signal-ok :
    (req : Input) {name : SignalName} {reason : String} {amount : Option ℤ}
    → IsComplete req
    → Emits req name reason amount
    → build_signal req name reason amount ≡ ok (edge_signal req name reason amount)
unfolding build_signal
build_signal-ok req c e = rw (edge_signal-IsAccepted req c e) refl

-- An edge signal has nothing left to fill in, and its sequences are those of the request.
fill-edge_signal :
    (req : Input) (name : SignalName) (reason : String) (amount : Option ℤ)
    → fill_signal (edge_signal req name reason amount) ≡ edge_signal req name reason amount
unfolding fill_signal edge_signal
fill-edge_signal req name reason amount = ground arith

edge_signals-follow :
    (req : Input) (n m : SignalName) (r s : String) (a b : Option ℤ)
    → follows (some (edge_signal req n r a)) (edge_signal req m s b) ≡ ok tt
unfolding follows edge_signal
edge_signals-follow req n m r s a b = ground arith

-- What the controller is to emit.
abbrev pub planned_pressure : Input → List ControlSignal
planned_pressure req =
    if req.high_watermark
    then edge_signal req SignalName.flow_xoff "backpressure_asserted" none ∷ []
    else []

abbrev pub planned_recovery_signal : Mode → Input → ControlSignal
planned_recovery_signal Mode.credit req =
    edge_signal req SignalName.credit_grant "" (some (at_least_one req.credit_amount))
planned_recovery_signal _ req = edge_signal req SignalName.flow_xon "" none

abbrev pub planned_recovery : Input → List ControlSignal
planned_recovery req =
    if req.emit_recovery then planned_recovery_signal (default_mode req.mode) req ∷ [] else []

recovery_signal-ok :
    (m : Mode) (req : Input)
    → IsComplete req
    → recovery_signal m req ≡ ok (planned_recovery_signal m req)
unfolding recovery_signal
recovery_signal-ok Mode.credit req c = build_signal-ok req c grant
recovery_signal-ok _ req c = build_signal-ok req c xon

ok_if {ℓ} : {A : Type ℓ} (b : Bool) (x y : A) → (if b then ok x else ok y) ≡ ok (if b then x else y)
ok_if true x y = refl
ok_if false x y = refl

lane_given : (req : Input) → IsComplete req → no_lane req.target_lane ≡ false
lane_given req c = ground arith

module _ (req : Input) (c : IsComplete req) where
  pressure_signals-ok : pressure_signals req ≡ ok (planned_pressure req)
  unfolding pressure_signals
  pressure_signals-ok = rw (build_signal-ok req c xoff) (ok_if req.high_watermark _ _)

  recovery_signals-ok : recovery_signals (default_mode req.mode) req ≡ ok (planned_recovery req)
  unfolding recovery_signals
  recovery_signals-ok =
      rw (recovery_signal-ok (default_mode req.mode) req c) (ok_if req.emit_recovery _ _)

IsAccepted-recovery :
    (m : Mode) (req : Input) → IsComplete req → IsAccepted (planned_recovery_signal m req)
IsAccepted-recovery Mode.credit req c = edge_signal-IsAccepted req c grant
IsAccepted-recovery _ req c = edge_signal-IsAccepted req c xon

fill_recovery :
    (m : Mode) (req : Input)
    → fill_signal (planned_recovery_signal m req) ≡ planned_recovery_signal m req
fill_recovery Mode.credit req = fill-edge_signal req _ _ _
fill_recovery _ req = fill-edge_signal req _ _ _

recovery_follows :
    (m : Mode) (req : Input) (n : SignalName) (r : String) (a : Option ℤ)
    → follows (some (edge_signal req n r a)) (planned_recovery_signal m req) ≡ ok tt
recovery_follows Mode.credit req n r a = edge_signals-follow req _ _ _ _ _ _
recovery_follows _ req n r a = edge_signals-follow req _ _ _ _ _ _

gateway-planned :
    (m : Mode) (req : Input) (high on : Bool)
    → IsComplete req
    → let batch : List ControlSignal =
        (if high
          then edge_signal req SignalName.flow_xoff "backpressure_asserted" none ∷ []
          else [])
        ++ (if on then planned_recovery_signal m req ∷ [] else []) in
      validate_and_normalize_control_signals batch ≡ ok batch
unfolding follows
gateway-planned m req true true c =
    gateway_of_filled _
      (cc (
        fill-edge_signal req SignalName.flow_xoff "backpressure_asserted" none,
        fill_recovery m req,
      ))
      (edge_signal-IsAccepted req c xoff, (IsAccepted-recovery m req c, tt))
      (refl, (recovery_follows m req _ _ _, tt))
gateway-planned m req true false c =
    gateway_of_filled _
      (cc (fill-edge_signal req SignalName.flow_xoff "backpressure_asserted" none))
      (edge_signal-IsAccepted req c xoff, tt) (refl, tt)
gateway-planned m req false true c =
    gateway_of_filled _ (cc (fill_recovery m req)) (IsAccepted-recovery m req c, tt) (refl, tt)
gateway-planned m req false false c = gateway_of_filled [] refl tt tt

-- For a complete request in a known mode the controller never fails: it returns the flow_xoff signal
-- if the high watermark is reached, then, if recovery is asked for, a credit grant of at least one
-- in credit mode and flow_xon otherwise, and nothing else.
pub evaluate-planned :
    (req : Input)
    → IsComplete req
    → is_mode (default_mode req.mode) ≡ true
    → evaluate req ≡ ok (planned_pressure req ++ planned_recovery req)
unfolding evaluate
evaluate-planned req c known =
    rw
      (
        c.session,
        c.pipeline,
        c.edge,
        c.event,
        lane_given req c,
        known,
        pressure_signals-ok req c,
        recovery_signals-ok req c,
      )
      (gateway-planned (default_mode req.mode) req req.high_watermark req.emit_recovery c)
