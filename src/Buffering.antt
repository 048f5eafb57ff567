-- ===== src/Buffering.antt =====
-- internal/runtime/buffering/pressure.go and drop_notice.go: what pressure on an edge and the loss of
-- synchronization are answered with.
pub mod Merge
pub mod Pressure
pub mod SyncLoss
use realtime_speech_pipeline.Base.{
  ℕ, String, Bool, true, false, ◌||◌, Option, none, some, List, [], ◌∷◌, ◌++◌, Result, ok, err,
  ◌>>=◌, ◌>>◌, refuse_if, if◌then◌else◌, leb,
}
use realtime_speech_pipeline.Base.Int.{ℤ, pos, non_negative}
use realtime_speech_pipeline.Base.Lists.{length}
use realtime_speech_pipeline.Base.Text.{is_empty, fallback, concat}
use realtime_speech_pipeline.ControlPlane.Outcome
use realtime_speech_pipeline.ControlPlane.Outcome.{DecisionOutcome, OutcomeScope}
use realtime_speech_pipeline.EventAbi.Types.{
  Lane, PayloadClass, SignalName, Emitter, SeqRange, no_lane,
}
use realtime_speech_pipeline.EventAbi.Signal
use realtime_speech_pipeline.EventAbi.Signal.{ControlSignal, blank, scope_for, scope_text_for}
use realtime_speech_pipeline.Flow
use realtime_speech_pipeline.LocalAdmission.{SchedulingPointInput, evaluate_scheduling_point}

pub record DropNoticeInput : Type 0 where
  pub session_id : String
  pub turn_id : String
  pub pipeline_version : String
  pub edge_id : String
  pub event_id : String
  pub transport_sequence : ℤ
  pub runtime_sequence : ℤ
  pub authority_epoch : ℤ
  pub runtime_timestamp_ms : ℤ
  pub wall_clock_timestamp_ms : ℤ
  pub target_lane : Lane
  pub range_start : ℤ
  pub range_end : ℤ
  pub reason : String
  pub emitted_by : Emitter

-- `if emittedBy == "" { emittedBy = "RK-12" }`
abbrev pub default_emitter : Emitter → Emitter
default_emitter (Emitter.other s) = if is_empty s then Emitter.rk12 else Emitter.other s
default_emitter e = e

unfoldable pub drop_signal : DropNoticeInput → ControlSignal
drop_signal req = record blank {
  schema_version = "v1.0";
  event_scope = scope_for req.turn_id;
  session_id = req.session_id;
  turn_id = req.turn_id;
  pipeline_version = req.pipeline_version;
  edge_id = req.edge_id;
  event_id = req.event_id;
  lane = Lane.control_lane;
  target_lane = req.target_lane;
  transport_sequence = some (non_negative req.transport_sequence);
  runtime_sequence = non_negative req.runtime_sequence;
  authority_epoch = non_negative req.authority_epoch;
  runtime_timestamp_ms = non_negative req.runtime_timestamp_ms;
  wall_clock_ms = non_negative req.wall_clock_timestamp_ms;
  payload_class = PayloadClass.metadata;
  signal = SignalName.drop_notice;
  emitted_by = default_emitter req.emitted_by;
  reason = fallback req.reason "queue_pressure_drop";
  seq_range = some (record { start = req.range_start; end = req.range_end });
  scope = scope_text_for req.turn_id;
}

unfoldable pub build_drop_notice : DropNoticeInput → Result ControlSignal
build_drop_notice req = do
  refuse_if
      (is_empty req.session_id
        || is_empty req.pipeline_version
        || is_empty req.edge_id
        || is_empty req.event_id)
      "session_id, pipeline_version, edge_id, and event_id are required"
  refuse_if (no_lane req.target_lane) "target_lane is required"
  Signal.validate (drop_signal req)
  ok (drop_signal req)

pub record PressureInput : Type 0 where
  pub session_id : String
  pub turn_id : String
  pub pipeline_version : String
  pub edge_id : String
  pub event_id : String
  pub transport_sequence : ℤ
  pub runtime_sequence : ℤ
  pub authority_epoch : ℤ
  pub runtime_timestamp_ms : ℤ
  pub wall_clock_timestamp_ms : ℤ
  pub target_lane : Lane
  pub drop_range_start : ℤ
  pub drop_range_end : ℤ
  pub high_watermark : Bool
  pub emit_recovery : Bool
  pub shed : Bool

pub record PressureResult : Type 0 where
  pub signals : List ControlSignal
  pub shed_outcome : Option DecisionOutcome

-- The literal of buildEdgeSignal, at the one call of it.
unfoldable pub watermark_signal : PressureInput → ControlSignal
watermark_signal req = record blank {
  schema_version = "v1.0";
  event_scope = scope_for req.turn_id;
  session_id = req.session_id;
  turn_id = req.turn_id;
  pipeline_version = req.pipeline_version;
  edge_id = req.edge_id;
  event_id = req.event_id;
  lane = Lane.control_lane;
  target_lane = req.target_lane;
  transport_sequence = some (non_negative req.transport_sequence);
  runtime_sequence = non_negative req.runtime_sequence;
  authority_epoch = non_negative req.authority_epoch;
  runtime_timestamp_ms = non_negative req.runtime_timestamp_ms;
  wall_clock_ms = non_negative req.wall_clock_timestamp_ms;
  payload_class = PayloadClass.metadata;
  signal = SignalName.watermark;
  emitted_by = Emitter.rk13;
  reason = "edge_watermark_high";
  scope = scope_text_for req.turn_id;
}

unfoldable pub build_watermark : PressureInput → Result ControlSignal
build_watermark req = do Signal.validate (watermark_signal req); ok (watermark_signal req)

-- The requests to flow control; the fields that the source leaves out are zero.
abbrev pub flow_input : PressureInput → (suffix : String) (high recovery : Bool) → Flow.Input
flow_input req suffix high recovery = record {
  session_id = req.session_id;
  turn_id = req.turn_id;
  pipeline_version = req.pipeline_version;
  edge_id = req.edge_id;
  event_id = concat req.event_id suffix;
  target_lane = req.target_lane;
  transport_sequence = req.transport_sequence;
  runtime_sequence = req.runtime_sequence;
  authority_epoch = req.authority_epoch;
  runtime_timestamp_ms = req.runtime_timestamp_ms;
  wall_clock_timestamp_ms = req.wall_clock_timestamp_ms;
  high_watermark = high;
  emit_recovery = recovery;
  mode = Flow.Mode.signal;
  credit_amount = pos 0;
}

abbrev pub pressure_drop : PressureInput → DropNoticeInput
pressure_drop req = record {
  session_id = req.session_id;
  turn_id = req.turn_id;
  pipeline_version = req.pipeline_version;
  edge_id = req.edge_id;
  event_id = req.event_id;
  transport_sequence = req.transport_sequence;
  runtime_sequence = req.runtime_sequence;
  authority_epoch = req.authority_epoch;
  runtime_timestamp_ms = req.runtime_timestamp_ms;
  wall_clock_timestamp_ms = req.wall_clock_timestamp_ms;
  target_lane = req.target_lane;
  range_start = req.drop_range_start;
  range_end = req.drop_range_end;
  reason = "queue_pressure_drop";
  emitted_by = Emitter.rk12;
}

-- `if in.HighWatermark { … }`
unfoldable pub high_signals : Bool → PressureInput → Result (List ControlSignal)
high_signals false req = ok []
high_signals true req = do
  watermark ← build_watermark req
  flow ← Flow.evaluate (flow_input req "-flow" true false)
  refuse_if (leb (length flow) 0) "flow controller did not emit expected xoff signal"
  drop ← build_drop_notice (pressure_drop req)
  ok (watermark ∷ flow ++ drop ∷ [])

-- `if in.EmitRecovery { … }`
unfoldable pub recovery_flow : Bool → PressureInput → Result (List ControlSignal)
recovery_flow false req = ok []
recovery_flow true req = Flow.evaluate (flow_input req "-flow-recovery" false true)

abbrev pub shed_point : PressureInput → SchedulingPointInput
shed_point req = record {
  session_id = req.session_id;
  turn_id = req.turn_id;
  event_id = req.event_id;
  runtime_timestamp_ms = req.runtime_timestamp_ms;
  wall_clock_timestamp_ms = req.wall_clock_timestamp_ms;
  scope = OutcomeScope.edge_enqueue;
  shed = true;
  reason = "scheduling_point_shed";
}

-- `if out.Outcome != nil { … }`
unfoldable pub checked : Option DecisionOutcome → Result (Option DecisionOutcome)
checked none = ok none
checked (some d) = do Outcome.validate d; ok (some d)

-- `if in.Shed { … }`
unfoldable pub shed_decision : Bool → PressureInput → Result (Option DecisionOutcome)
shed_decision false req = ok none
shed_decision true req = checked (evaluate_scheduling_point (shed_point req)).outcome

unfoldable pub handle_edge_pressure : PressureInput → Result PressureResult
handle_edge_pressure req = do
  refuse_if
      (is_empty req.session_id
        || is_empty req.pipeline_version
        || is_empty req.edge_id
        || is_empty req.event_id)
      "session_id, pipeline_version, edge_id, and event_id are required"
  refuse_if (no_lane req.target_lane) "target_lane is required"
  high ← high_signals req.high_watermark req
  recovered ← recovery_flow req.emit_recovery req
  shed ← shed_decision req.shed req
  ok (record { signals = high ++ recovered; shed_outcome = shed })
