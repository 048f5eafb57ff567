-- ===== src/Buffering/Pressure.antt =====
-- What internal/runtime/buffering/pressure.go answers pressure with, for every request that is complete.
use realtime_speech_pipeline.Base.{
  ◌≡◌, refl, String, Bool, true, false, Option, none, some, List, [], ◌∷◌, ◌++◌, ok, arith,
}
use realtime_speech_pipeline.Base.Int.{is_negative}
use realtime_speech_pipeline.Base.Text.{is_empty, is_empty-concat}
use realtime_speech_pipeline.ControlPlane.Outcome
use realtime_speech_pipeline.ControlPlane.Outcome.{DecisionOutcome}
use realtime_speech_pipeline.EventAbi.Types.{SignalName, is_lane, no_lane, validate_seq_range}
use realtime_speech_pipeline.EventAbi.Signal
use realtime_speech_pipeline.EventAbi.Signal.{ControlSignal}
use realtime_speech_pipeline.EventAbi.Gateway.Batches.{IsAccepted}
use realtime_speech_pipeline.LocalAdmission.{evaluate_scheduling_point, shed_outcome}
use realtime_speech_pipeline.LocalAdmission.Decisions.{IsStamped, shed-accepted}
use realtime_speech_pipeline.Flow
use realtime_speech_pipeline.Flow.{edge_signal}
use realtime_speech_pipeline.Flow.Plan
use realtime_speech_pipeline.Flow.Plan.{evaluate-planned}
use realtime_speech_pipeline.Buffering.{
  PressureInput, PressureResult, drop_signal, build_drop_notice, watermark_signal, build_watermark,
  flow_input, pressure_drop, high_signals, recovery_flow, shed_point, checked, shed_decision,
  handle_edge_pressure,
}

-- A request with its ids, a real lane, a valid range to drop, and times that are not negative.
pub record IsComplete (req : PressureInput) : Type 0 where
  pub session : is_empty req.session_id ≡ false
  pub pipeline : is_empty req.pipeline_version ≡ false
  pub edge : is_empty req.edge_id ≡ false
  pub event : is_empty req.event_id ≡ false
  pub target : is_lane req.target_lane ≡ true
  pub range :
      validate_seq_range (record { start = req.drop_range_start; end = req.drop_range_end }) ≡ ok tt
  pub runtime_time : is_negative req.runtime_timestamp_ms ≡ false
  pub wall_time : is_negative req.wall_clock_timestamp_ms ≡ false

watermark_signal-IsAccepted :
    (req : PressureInput) → IsComplete req → IsAccepted (watermark_signal req)
unfolding Signal.validation watermark_signal
watermark_signal-IsAccepted req c = ground arith

drop_signal-IsAccepted :
    (req : PressureInput) → IsComplete req → IsAccepted (drop_signal (pressure_drop req))
unfolding Signal.validation drop_signal
drop_signal-IsAccepted req c = ground arith

lane_given : (req : PressureInput) → IsComplete req → no_lane req.target_lane ≡ false
lane_given req c = ground arith

flow-IsComplete :
    (req : PressureInput) (suffix : String) (high recovery : Bool)
    → IsComplete req
    → Plan.IsComplete (flow_input req suffix high recovery)
flow-IsComplete req suffix high recovery c = record {
  session = c.session;
  pipeline = c.pipeline;
  edge = c.edge;
  event = is_empty-concat req.event_id suffix c.event;
  target = c.target;
}

-- What the parts of the answer are to be.
abbrev pub xoff : PressureInput → ControlSignal
xoff req =
    edge_signal (flow_input req "-flow" true false) SignalName.flow_xoff "backpressure_asserted"
      none

abbrev pub xon : PressureInput → ControlSignal
xon req = edge_signal (flow_input req "-flow-recovery" false true) SignalName.flow_xon "" none

abbrev pub planned_high : Bool → PressureInput → List ControlSignal
planned_high false req = []
planned_high true req = watermark_signal req ∷ xoff req ∷ drop_signal (pressure_drop req) ∷ []

abbrev pub planned_recovery : Bool → PressureInput → List ControlSignal
planned_recovery false req = []
planned_recovery true req = xon req ∷ []

abbrev pub planned_shed : Bool → PressureInput → Option DecisionOutcome
planned_shed false req = none
planned_shed true req = some (shed_outcome (shed_point req))

abbrev pub planned : PressureInput → PressureResult
planned req = record {
  signals = planned_high req.high_watermark req ++ planned_recovery req.emit_recovery req;
  shed_outcome = planned_shed req.shed req;
}

build_watermark-ok :
    (req : PressureInput) → IsComplete req → build_watermark req ≡ ok (watermark_signal req)
unfolding build_watermark
build_watermark-ok req c = rw (watermark_signal-IsAccepted req c) refl

build_drop-ok :
    (req : PressureInput)
    → IsComplete req
    → build_drop_notice (pressure_drop req) ≡ ok (drop_signal (pressure_drop req))
unfolding build_drop_notice
build_drop-ok req c =
    rw (c.session, c.pipeline, c.edge, c.event, lane_given req c, drop_signal-IsAccepted req c) refl

flow_high :
    (req : PressureInput)
    → IsComplete req
    → Flow.evaluate (flow_input req "-flow" true false) ≡ ok (xoff req ∷ [])
flow_high req c =
    evaluate-planned (flow_input req "-flow" true false) (flow-IsComplete req "-flow" true false c)
      refl

flow_recovery :
    (req : PressureInput)
    → IsComplete req
    → Flow.evaluate (flow_input req "-flow-recovery" false true) ≡ ok (xon req ∷ [])
flow_recovery req c =
    evaluate-planned (flow_input req "-flow-recovery" false true)
      (flow-IsComplete req "-flow-recovery" false true c) refl

high_signals-ok :
    (on : Bool) (req : PressureInput)
    → IsComplete req
    → high_signals on req ≡ ok (planned_high on req)
unfolding high_signals
high_signals-ok false req c = refl
high_signals-ok true req c =
    rw (build_watermark-ok req c, flow_high req c, build_drop-ok req c) refl

recovery_flow-ok :
    (on : Bool) (req : PressureInput)
    → IsComplete req
    → recovery_flow on req ≡ ok (planned_recovery on req)
unfolding recovery_flow
recovery_flow-ok false req c = refl
recovery_flow-ok true req c = flow_recovery req c

shed-IsStamped :
    (req : PressureInput)
    → IsComplete req
    → IsStamped req.session_id req.event_id req.runtime_timestamp_ms req.wall_clock_timestamp_ms
shed-IsStamped req c = record {
  session = c.session;
  event = c.event;
  runtime_time = c.runtime_time;
  wall_time = c.wall_time;
}

checked-ok : (d : DecisionOutcome) → Outcome.validate d ≡ ok tt → checked (some d) ≡ ok (some d)
unfolding checked
checked-ok d h = rw h refl

shed_decision-ok :
    (on : Bool) (req : PressureInput)
    → IsComplete req
    → shed_decision on req ≡ ok (planned_shed on req)
unfolding shed_decision evaluate_scheduling_point
shed_decision-ok false req c = refl
shed_decision-ok true req c =
    checked-ok (shed_outcome (shed_point req))
      (shed-accepted (shed_point req) (shed-IsStamped req c))

-- Pressure on an edge is always answered for a complete request, without an error: at the high
-- watermark with watermark, flow_xoff and drop_notice, in this order, then with flow_xon if recovery is
-- asked for, and with a shed outcome exactly if something is to be shed.
pub handle_edge_pressure-planned :
    (req : PressureInput) → IsComplete req → handle_edge_pressure req ≡ ok (planned req)
unfolding handle_edge_pressure
handle_edge_pressure-planned req c =
    rw
      (
        c.session,
        c.pipeline,
        c.edge,
        c.event,
        lane_given req c,
        high_signals-ok req.high_watermark req c,
        recovery_flow-ok req.emit_recovery req c,
        shed_decision-ok req.shed req c,
      )
      refl
