-- ===== src/TurnArbiter/Drafts.antt =====
-- internal/runtime/turnarbiter/arbiter.go: the input of an active turn, and the evidence drafted from
-- it: ActiveInput, the first half of buildBaselineEvidence, its defaults.
use realtime_speech_pipeline.Base.{
  String, Bool, true, false, Option, none, some, List, [], ◌∷◌, is_err, if◌then◌else◌,
}
use realtime_speech_pipeline.Base.Int.{ℤ, pos, non_negative}
use realtime_speech_pipeline.Base.Text.{fallback, concat, decimal_int}
use realtime_speech_pipeline.EventAbi.Types.{PayloadClass}
use realtime_speech_pipeline.ControlPlane.Outcome.{
  OutcomeKind, OutcomePhase, OutcomeScope, OutcomeEmitter, DecisionOutcome,
}
use realtime_speech_pipeline.ControlPlane.TurnPlan.{SnapshotProvenance, validate_provenance}
use realtime_speech_pipeline.Timeline.{InvocationOutcomeEvidence}
use realtime_speech_pipeline.Timeline.Baseline.{BaselineEvidence}

pub record ActiveInput : Type 0 where
  pub session_id : String
  pub turn_id : String
  pub event_id : String
  pub pipeline_version : String
  pub snapshot_provenance : SnapshotProvenance
  pub transport_sequence : ℤ
  pub runtime_sequence : ℤ
  pub runtime_timestamp_ms : ℤ
  pub wall_clock_timestamp_ms : ℤ
  pub authority_epoch : ℤ
  pub authority_revoked : Bool
  pub cancel_accepted : Bool
  pub provider_failure : Bool
  pub provider_invocation_outcomes : List InvocationOutcomeEvidence
  pub node_timeout_or_failure : Bool
  pub transport_disconnect_or_stall : Bool
  pub baseline_evidence_append_failed : Bool
  pub baseline_evidence : Option BaselineEvidence
  pub no_legal_continue_or_fallback : Bool
  pub terminal_success_ready : Bool

abbrev pub default_pipeline_version : String → String
default_pipeline_version version = fallback version "pipeline-v1"

unfoldable pub default_snapshot_provenance : SnapshotProvenance
default_snapshot_provenance = record {
  routing_view_snapshot = "routing-view/v1";
  admission_policy_snapshot = "admission-policy/v1";
  abi_compatibility_snapshot = "abi-compat/v1";
  version_resolution_snapshot = "version-resolution/v1";
  policy_resolution_snapshot = "policy-resolution/v1";
  provider_health_snapshot = "provider-health/v1";
}

-- `if err := s.Validate(); err != nil { s = default }`
unfoldable pub provenance_or : SnapshotProvenance → SnapshotProvenance → SnapshotProvenance
provenance_or s default = if is_err (validate_provenance s) then default else s

unfoldable pub admit_decision :
    (session_id turn_id event_id : String) (runtime_ts wall_ts : ℤ) → DecisionOutcome
admit_decision session_id turn_id event_id runtime_ts wall_ts = record {
  outcome_kind = OutcomeKind.admit;
  phase = OutcomePhase.pre_turn;
  scope = OutcomeScope.turn;
  session_id = session_id;
  turn_id = turn_id;
  event_id = concat event_id "-admit";
  runtime_timestamp_ms = non_negative runtime_ts;
  wall_clock_ms = non_negative wall_ts;
  emitted_by = OutcomeEmitter.rk25;
  authority_epoch = none;
  reason = "admission_capacity_allow";
}

unfoldable pub sequence_marker : ℤ → String
sequence_marker sequence = concat "runtime_sequence:" (decimal_int (non_negative sequence))

unfoldable pub plan_label : String → String
plan_label turn_id = concat "plan/" (fallback turn_id "unknown")

-- The evidence of a turn for which none was handed in.
unfoldable pub drafted_evidence : ActiveInput → SnapshotProvenance → BaselineEvidence
drafted_evidence req defaults =
    let event_id = fallback req.event_id "evt-runtime-terminal" in
    record {
      session_id = req.session_id;
      turn_id = req.turn_id;
      pipeline_version = default_pipeline_version req.pipeline_version;
      event_id = event_id;
      envelope_snapshot = "eventabi/v1";
      payload_tags = PayloadClass.metadata ∷ [];
      redaction_decisions = [];
      plan_hash = plan_label req.turn_id;
      snapshot_provenance = provenance_or req.snapshot_provenance defaults;
      decision_outcomes =
          admit_decision req.session_id req.turn_id event_id req.runtime_timestamp_ms
            req.wall_clock_timestamp_ms
          ∷ [];
      invocation_outcomes = req.provider_invocation_outcomes;
      determinism_seed = non_negative req.runtime_sequence;
      ordering_markers = sequence_marker req.runtime_sequence ∷ [];
      merge_rule_id = "merge/default";
      merge_rule_version = "v1.0";
      authority_epoch = non_negative req.authority_epoch;
      migration_markers = [];
      terminal_outcome = "";
      terminal_reason = "";
      close_emitted = true;
      turn_open_proposed_at_ms = none;
      turn_open_at_ms = none;
      first_output_at_ms = none;
      cancel_accepted_at_ms = none;
      cancel_fence_applied_at_ms = none;
      cancel_sent_at_ms = none;
      cancel_ack_at_ms = none;
      accepted_stale_epoch_output = false;
    }

abbrev pub given_or_drafted : Option BaselineEvidence → BaselineEvidence → BaselineEvidence
given_or_drafted none drafted = drafted
given_or_drafted (some evidence) drafted = evidence

unfoldable pub unknown_invocation : String → InvocationOutcomeEvidence
unknown_invocation turn_id = record {
  provider_invocation_id = concat "pvi/" (fallback turn_id "unknown");
  modality = "external";
  provider_id = "provider-unknown";
  outcome_class = "infrastructure_failure";
  retryable = false;
  retry_decision = "none";
  attempt_count = pos 1;
  final_attempt_latency_ms = pos 0;
  total_invocation_latency_ms = pos 0;
}

-- What the evidence says of invocations: its own, those of the input, or the unknown one of a failure.
unfoldable pub invocations_or :
    ActiveInput → List InvocationOutcomeEvidence → List InvocationOutcomeEvidence
invocations_or req (o ∷ os) = o ∷ os
invocations_or req [] = failure_or req.provider_invocation_outcomes
  where
    failure_or : List InvocationOutcomeEvidence → List InvocationOutcomeEvidence
    failure_or (o ∷ os) = o ∷ os
    failure_or [] = if req.provider_failure then unknown_invocation req.turn_id ∷ [] else []
