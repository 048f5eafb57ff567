-- ===== src/EventAbi/Signal.antt =====
-- api/eventabi/types.go: ControlSignal and its validation.
pub mod Rules
pub mod Contract
pub mod Offices
use realtime_speech_pipeline.Base.{
  String, Bool, true, false, not, ◌&&◌, ◌||◌, Option, none, some, Result, ok, ◌>>◌, refuse_if,
  if◌then◌else◌,
}
use realtime_speech_pipeline.Base.Int.{ℤ, pos, is_negative, ltℤ}
use realtime_speech_pipeline.Base.Text.{is_empty}
use realtime_speech_pipeline.EventAbi.Types.{
  Lane, EventScope, PayloadClass, SignalName, Emitter, SeqRange, is_lane, no_lane, is_control_lane,
  is_turn_scope, is_session_scope, is_metadata, is_control_signal_name, no_signal,
  is_control_signal_emitter, is_absent, absent_or_negative, validate_seq_range,
}
use realtime_speech_pipeline.EventAbi.Emitters.{
  from_rk03, from_rk25, from_admission, from_rk13, from_rk14, from_buffering, from_rk15, from_rk11,
  from_placement, from_rk24, from_rk23, from_egress, from_or02,
}
use realtime_speech_pipeline.EventAbi.SchemaVersion.{matches_schema_version}

pub record ControlSignal : Type 0 where
  pub schema_version : String
  pub event_scope : EventScope
  pub session_id : String
  pub turn_id : String
  pub pipeline_version : String
  pub edge_id : String
  pub sync_domain : String
  pub discontinuity_id : String
  pub event_id : String
  pub lane : Lane
  pub target_lane : Lane
  pub transport_sequence : Option ℤ
  pub runtime_sequence : ℤ
  pub authority_epoch : ℤ
  pub runtime_timestamp_ms : ℤ
  pub wall_clock_ms : ℤ
  pub payload_class : PayloadClass
  pub signal : SignalName
  pub emitted_by : Emitter
  pub reason : String
  pub seq_range : Option SeqRange
  pub amount : Option ℤ
  pub scope : String

-- Go's zero value, from which a composite literal starts.
abbrev pub blank : ControlSignal
blank = record {
  schema_version = "";
  event_scope = EventScope.other "";
  session_id = "";
  turn_id = "";
  pipeline_version = "";
  edge_id = "";
  sync_domain = "";
  discontinuity_id = "";
  event_id = "";
  lane = Lane.other "";
  target_lane = Lane.other "";
  transport_sequence = none;
  runtime_sequence = pos 0;
  authority_epoch = pos 0;
  runtime_timestamp_ms = pos 0;
  wall_clock_ms = pos 0;
  payload_class = PayloadClass.other "";
  signal = SignalName.other "";
  emitted_by = Emitter.other "";
  reason = "";
  seq_range = none;
  amount = none;
  scope = "";
}

-- `if turnID != "" { eventScope = turn; scope = "turn" }` over the session's defaults.
abbrev pub scope_for : String → EventScope
scope_for turn_id = if is_empty turn_id then EventScope.session else EventScope.turn

abbrev pub scope_text_for : String → String
scope_text_for turn_id = if is_empty turn_id then "session" else "turn"

-- `p != nil && *p < 1`
abbrev given_below_one : Option ℤ → Bool
given_below_one none = false
given_below_one (some n) = ltℤ n (pos 1)

-- `p == nil || *p < 1`
abbrev absent_or_below_one : Option ℤ → Bool
absent_or_below_one none = true
absent_or_below_one (some n) = ltℤ n (pos 1)

-- turn_open, commit, abort, close
abbrev lifecycle_rule : ControlSignal → Result (Unit {0})
lifecycle_rule c =
    refuse_if
      (not (is_turn_scope c.event_scope) || not (from_rk03 c.emitted_by) || is_empty c.turn_id)
      "%s requires turn scope, emitted_by=RK-03, and turn_id"

-- admit, reject, defer
abbrev admission_rule : ControlSignal → Result (Unit {0})
admission_rule c =
    refuse_if
      (not (is_session_scope c.event_scope)
        || not (from_admission c.emitted_by)
        || is_empty c.reason)
      "%s requires session scope, emitted_by RK-25|CP-05, and reason"

-- The rules that the source tests before the sequence range.
unfoldable pub early_rules : SignalName → ControlSignal → Result (Unit {0})
early_rules SignalName.turn_open c = lifecycle_rule c
early_rules SignalName.commit c = lifecycle_rule c
early_rules SignalName.close c = lifecycle_rule c
early_rules SignalName.abort c = do
  refuse_if (is_empty c.reason) "abort requires reason"
  lifecycle_rule c
early_rules SignalName.cancel c = refuse_if (is_empty c.scope) "cancel requires scope"
early_rules SignalName.admit c = admission_rule c
early_rules SignalName.reject c = admission_rule c
early_rules SignalName.defer c = admission_rule c
early_rules SignalName.shed c =
    refuse_if (not (from_rk25 c.emitted_by) || is_empty c.reason)
      "shed requires emitted_by=RK-25 and reason"
early_rules SignalName.watermark c =
    refuse_if
      (not (from_rk13 c.emitted_by)
        || is_empty c.edge_id
        || no_lane c.target_lane
        || is_empty c.reason)
      "watermark requires emitted_by=RK-13, edge_id, target_lane, and reason"
early_rules SignalName.flow_xoff c =
    refuse_if
      (not (from_rk14 c.emitted_by)
        || is_empty c.edge_id
        || no_lane c.target_lane
        || is_empty c.reason)
      "flow_xoff requires emitted_by=RK-14, edge_id, target_lane, and reason"
early_rules SignalName.flow_xon c =
    refuse_if (not (from_rk14 c.emitted_by) || is_empty c.edge_id || no_lane c.target_lane)
      "flow_xon requires emitted_by=RK-14, edge_id, and target_lane"
early_rules SignalName.credit_grant c =
    refuse_if
      (not (from_rk14 c.emitted_by)
        || is_empty c.edge_id
        || no_lane c.target_lane
        || absent_or_below_one c.amount)
      "credit_grant requires emitted_by=RK-14, edge_id, target_lane, and amount>=1"
early_rules _ c = ok tt

unfoldable pub range_rule : Option SeqRange → Result (Unit {0})
range_rule none = ok tt
range_rule (some r) = validate_seq_range r

-- provider_error, circuit_event, provider_switch
abbrev provider_rule : ControlSignal → Result (Unit {0})
provider_rule c =
    refuse_if (not (from_rk11 c.emitted_by) || is_empty c.reason)
      "%s requires emitted_by=RK-11 and reason"

-- lease_issued, lease_rotated, migration_start, migration_finish, session_handoff
abbrev placement_rule : ControlSignal → Result (Unit {0})
placement_rule c =
    refuse_if (not (from_placement c.emitted_by)) "%s requires emitted_by CP-07|CP-08"

-- stale_epoch_reject, deauthorized_drain
abbrev authority_rule : ControlSignal → Result (Unit {0})
authority_rule c =
    refuse_if (not (from_rk24 c.emitted_by) || is_empty c.reason)
      "%s requires emitted_by=RK-24 and reason"

-- connected, reconnecting, disconnected, ended, silence, stall
abbrev connection_rule : ControlSignal → Result (Unit {0})
connection_rule c = refuse_if (not (from_rk23 c.emitted_by)) "%s requires emitted_by=RK-23"

-- output_accepted, playback_started, playback_completed, playback_cancelled
abbrev playback_rule : ControlSignal → Result (Unit {0})
playback_rule c =
    refuse_if
      (not (is_turn_scope c.event_scope) || not (from_egress c.emitted_by) || is_empty c.turn_id)
      "%s requires event_scope=turn, turn_id, emitted_by RK-22|RK-23"

-- The rules that the source tests after the sequence range.
unfoldable pub late_rules : SignalName → ControlSignal → Result (Unit {0})
late_rules SignalName.drop_notice c = do
  refuse_if (not (from_buffering c.emitted_by)) "drop_notice requires emitted_by RK-12|RK-13"
  refuse_if
      (is_empty c.edge_id || no_lane c.target_lane || is_empty c.reason || is_absent c.seq_range)
      "drop_notice requires edge_id, target_lane, reason, and seq_range"
late_rules SignalName.discontinuity c =
    refuse_if
      (not (from_rk15 c.emitted_by)
        || is_empty c.sync_domain
        || is_empty c.discontinuity_id
        || is_empty c.reason)
      "discontinuity requires emitted_by=RK-15, sync_domain, discontinuity_id, and reason"
late_rules SignalName.provider_error c = provider_rule c
late_rules SignalName.circuit_event c = provider_rule c
late_rules SignalName.provider_switch c = provider_rule c
late_rules SignalName.lease_issued c = placement_rule c
late_rules SignalName.lease_rotated c = placement_rule c
late_rules SignalName.migration_start c = placement_rule c
late_rules SignalName.migration_finish c = placement_rule c
late_rules SignalName.session_handoff c = placement_rule c
late_rules SignalName.stale_epoch_reject c = authority_rule c
late_rules SignalName.deauthorized_drain c = authority_rule c
late_rules SignalName.connected c = connection_rule c
late_rules SignalName.reconnecting c = connection_rule c
late_rules SignalName.disconnected c = connection_rule c
late_rules SignalName.ended c = connection_rule c
late_rules SignalName.silence c = connection_rule c
late_rules SignalName.stall c = connection_rule c
late_rules SignalName.output_accepted c = playback_rule c
late_rules SignalName.playback_started c = playback_rule c
late_rules SignalName.playback_completed c = playback_rule c
late_rules SignalName.playback_cancelled c = playback_rule c
late_rules SignalName.recording_level_downgraded c =
    refuse_if (not (from_or02 c.emitted_by) || is_empty c.reason)
      "recording_level_downgraded requires emitted_by=OR-02 and reason"
late_rules _ c = ok tt

-- The tests of the envelope, which every signal takes.
unfoldable pub validate_envelope : ControlSignal → Result (Unit {0})
validate_envelope c = do
  refuse_if (not (matches_schema_version c.schema_version)) "invalid schema_version: %q"
  refuse_if (not (is_session_scope c.event_scope) && not (is_turn_scope c.event_scope))
      "invalid event_scope: %q"
  refuse_if (is_turn_scope c.event_scope && is_empty c.turn_id)
      "turn_id is required when event_scope=turn"
  refuse_if (is_empty c.session_id || is_empty c.pipeline_version || is_empty c.event_id)
      "session_id, pipeline_version, and event_id are required"
  refuse_if (not (is_control_lane c.lane)) "control_signal lane must be ControlLane"
  refuse_if (not (no_lane c.target_lane) && not (is_lane c.target_lane)) "invalid target_lane: %q"
  refuse_if (not (is_metadata c.payload_class)) "control_signal payload_class must be metadata"
  refuse_if (absent_or_negative c.transport_sequence)
      "transport_sequence is required and must be >=0"
  refuse_if
      (is_negative c.runtime_sequence
        || is_negative c.runtime_timestamp_ms
        || is_negative c.wall_clock_ms)
      "runtime sequence and timestamps must be >=0"
  refuse_if (given_below_one c.amount) "amount must be >=1 when present"
  refuse_if (no_signal c.signal) "signal is required"
  refuse_if (not (is_control_signal_name c.signal)) "invalid signal: %q"
  refuse_if (not (is_control_signal_emitter c.emitted_by)) "invalid emitted_by: %q"
  ok tt

unfoldable pub validate : ControlSignal → Result (Unit {0})
validate c = do
  validate_envelope c
  early_rules c.signal c
  range_rule c.seq_range
  late_rules c.signal c
  ok tt

-- Opens the whole validation.
unfoldable pub validation : Unit {0}
unfolding validate validate_envelope early_rules range_rule late_rules validate_seq_range
    matches_schema_version
validation = tt
