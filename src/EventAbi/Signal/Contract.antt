-- ===== src/EventAbi/Signal/Contract.antt =====
-- The tables of docs/ContractArtifacts.schema.json for the control signals of api/eventabi/types.go: who
-- may emit which, and what it has to carry.
use text.Mathlib.Text.{◌==◌}
use realtime_speech_pipeline.Base.{String, Bool, true, false, not, ◌||◌, Option, none, some}
use realtime_speech_pipeline.Base.Int.{ℤ, pos, ltℤ}
use realtime_speech_pipeline.Base.Text.{is_empty}
use realtime_speech_pipeline.EventAbi.Types.{SignalName, Emitter}

pub data Office : Type 0 where
  turn_authority admission local_admission edge_buffer flow_control drop_marker : Office
  sync_engine provider_invocation placement authority_guard connection egress recorder : Office
  proposer interruption budget adaptation anyone : Office

abbrev pub office : SignalName → Office
office SignalName.turn_open = Office.turn_authority
office SignalName.commit = Office.turn_authority
office SignalName.abort = Office.turn_authority
office SignalName.close = Office.turn_authority
office SignalName.admit = Office.admission
office SignalName.reject = Office.admission
office SignalName.defer = Office.admission
office SignalName.shed = Office.local_admission
office SignalName.watermark = Office.edge_buffer
office SignalName.flow_xoff = Office.flow_control
office SignalName.flow_xon = Office.flow_control
office SignalName.credit_grant = Office.flow_control
office SignalName.drop_notice = Office.drop_marker
office SignalName.discontinuity = Office.sync_engine
office SignalName.provider_error = Office.provider_invocation
office SignalName.circuit_event = Office.provider_invocation
office SignalName.provider_switch = Office.provider_invocation
office SignalName.lease_issued = Office.placement
office SignalName.lease_rotated = Office.placement
office SignalName.migration_start = Office.placement
office SignalName.migration_finish = Office.placement
office SignalName.session_handoff = Office.placement
office SignalName.stale_epoch_reject = Office.authority_guard
office SignalName.deauthorized_drain = Office.authority_guard
office SignalName.connected = Office.connection
office SignalName.reconnecting = Office.connection
office SignalName.disconnected = Office.connection
office SignalName.ended = Office.connection
office SignalName.silence = Office.connection
office SignalName.stall = Office.connection
office SignalName.output_accepted = Office.egress
office SignalName.playback_started = Office.egress
office SignalName.playback_completed = Office.egress
office SignalName.playback_cancelled = Office.egress
office SignalName.recording_level_downgraded = Office.recorder
office SignalName.turn_open_proposed = Office.proposer
office SignalName.barge_in = Office.interruption
office SignalName.stop = Office.interruption
office SignalName.cancel = Office.interruption
office SignalName.budget_warning = Office.budget
office SignalName.budget_exhausted = Office.budget
office SignalName.degrade = Office.adaptation
office SignalName.fallback = Office.adaptation
office _ = Office.anyone

abbrev pub holds : Office → Emitter → Bool
holds Office.turn_authority Emitter.rk03 = true
holds Office.admission Emitter.rk25 = true
holds Office.admission Emitter.cp05 = true
holds Office.local_admission Emitter.rk25 = true
holds Office.edge_buffer Emitter.rk13 = true
holds Office.flow_control Emitter.rk14 = true
holds Office.drop_marker Emitter.rk12 = true
holds Office.drop_marker Emitter.rk13 = true
holds Office.sync_engine Emitter.rk15 = true
holds Office.provider_invocation Emitter.rk11 = true
holds Office.placement Emitter.cp07 = true
holds Office.placement Emitter.cp08 = true
holds Office.authority_guard Emitter.rk24 = true
holds Office.connection Emitter.rk23 = true
holds Office.egress Emitter.rk22 = true
holds Office.egress Emitter.rk23 = true
holds Office.recorder Emitter.or02 = true
holds Office.proposer Emitter.rk02 = true
holds Office.interruption Emitter.rk06 = true
holds Office.interruption Emitter.rk16 = true
holds Office.budget Emitter.rk17 = true
holds Office.adaptation Emitter.rk13 = true
holds Office.adaptation Emitter.rk17 = true
holds Office.anyone _ = true
holds _ _ = false

-- The reason, the edge with its lane, the turn.
abbrev pub needs_reason : SignalName → Bool
needs_reason SignalName.abort = true
needs_reason SignalName.admit = true
needs_reason SignalName.reject = true
needs_reason SignalName.defer = true
needs_reason SignalName.shed = true
needs_reason SignalName.watermark = true
needs_reason SignalName.flow_xoff = true
needs_reason SignalName.drop_notice = true
needs_reason SignalName.discontinuity = true
needs_reason SignalName.provider_error = true
needs_reason SignalName.circuit_event = true
needs_reason SignalName.provider_switch = true
needs_reason SignalName.stale_epoch_reject = true
needs_reason SignalName.deauthorized_drain = true
needs_reason SignalName.recording_level_downgraded = true
needs_reason SignalName.budget_warning = true
needs_reason SignalName.budget_exhausted = true
needs_reason SignalName.degrade = true
needs_reason SignalName.fallback = true
needs_reason _ = false

abbrev pub needs_edge : SignalName → Bool
needs_edge SignalName.watermark = true
needs_edge SignalName.flow_xoff = true
needs_edge SignalName.flow_xon = true
needs_edge SignalName.credit_grant = true
needs_edge SignalName.drop_notice = true
needs_edge _ = false

abbrev pub belongs_to_turn : SignalName → Bool
belongs_to_turn SignalName.turn_open = true
belongs_to_turn SignalName.commit = true
belongs_to_turn SignalName.abort = true
belongs_to_turn SignalName.close = true
belongs_to_turn SignalName.output_accepted = true
belongs_to_turn SignalName.playback_started = true
belongs_to_turn SignalName.playback_completed = true
belongs_to_turn SignalName.playback_cancelled = true
belongs_to_turn _ = false

abbrev pub belongs_to_session : SignalName → Bool
belongs_to_session SignalName.admit = true
belongs_to_session SignalName.reject = true
belongs_to_session SignalName.defer = true
belongs_to_session SignalName.turn_open_proposed = true
belongs_to_session _ = false

abbrev pub is_cancel : SignalName → Bool
is_cancel SignalName.cancel = true
is_cancel _ = false

abbrev pub is_credit_grant : SignalName → Bool
is_credit_grant SignalName.credit_grant = true
is_credit_grant _ = false

abbrev pub is_drop_notice : SignalName → Bool
is_drop_notice SignalName.drop_notice = true
is_drop_notice _ = false

abbrev pub is_discontinuity : SignalName → Bool
is_discontinuity SignalName.discontinuity = true
is_discontinuity _ = false

-- `amount` is given and at least 1.
abbrev pub grants : Option ℤ → Bool
grants none = false
grants (some n) = not (ltℤ n (pos 1))

-- The scopes that the contract knows; an empty one is not given.
abbrev pub known_scope : String → Bool
known_scope s =
    is_empty s || s == "session" || s == "turn" || s == "node" || s == "provider_invocation"
