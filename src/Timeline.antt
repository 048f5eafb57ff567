-- ===== src/Timeline.antt =====
-- internal/observability/timeline/recorder.go: the evidence of provider attempts and invocations; the
-- children have the baseline evidence of a turn, and the recorder with its capacities.
pub mod Baseline
pub mod Outcomes
pub mod Recorder
use text.Mathlib.Text.{◌==◌}
use realtime_speech_pipeline.Base.{
  ℕ, zero, suc, ◌+◌, String, Bool, true, false, not, ◌||◌, Option, none, some, List, [], ◌∷◌, ◌++◌,
  Result, ok, err, ◌>>◌, ◌>>=◌, refuse_if, if◌then◌else◌, ltb, leb,
}
use realtime_speech_pipeline.Base.Int.{ℤ, pos, negsuc, ltℤ, is_negative, non_negative}
use realtime_speech_pipeline.Base.Lists.{length}
use realtime_speech_pipeline.Base.Members.{has}
use realtime_speech_pipeline.Base.Text.{is_empty, fallback, concat}
use realtime_speech_pipeline.EventAbi.Types.{Lane, PayloadClass, SignalName, Emitter}
use realtime_speech_pipeline.EventAbi.Signal
use realtime_speech_pipeline.EventAbi.Signal.{ControlSignal, blank, scope_for, scope_text_for}

-- The strings that inStringSet is asked about.
abbrev pub modalities : List String
modalities = "stt" ∷ "llm" ∷ "tts" ∷ "external" ∷ []

abbrev pub outcome_classes : List String
outcome_classes =
    "success" ∷ "timeout" ∷ "overload" ∷ "blocked" ∷ "infrastructure_failure" ∷ "cancelled" ∷ []

abbrev pub retry_decisions : List String
retry_decisions = "none" ∷ "retry" ∷ "provider_switch" ∷ "fallback" ∷ []

pub record ProviderAttemptEvidence : Type 0 where
  pub session_id : String
  pub turn_id : String
  pub pipeline_version : String
  pub event_id : String
  pub provider_invocation_id : String
  pub modality : String
  pub provider_id : String
  pub attempt : ℤ
  pub outcome_class : String
  pub retryable : Bool
  pub retry_decision : String
  pub attempt_latency_ms : ℤ
  pub transport_sequence : ℤ
  pub runtime_sequence : ℤ
  pub authority_epoch : ℤ
  pub runtime_timestamp_ms : ℤ
  pub wall_clock_timestamp_ms : ℤ

-- `v < 1`
abbrev pub below_one : ℤ → Bool
below_one v = ltℤ v (pos 1)

unfoldable pub validate_attempt : ProviderAttemptEvidence → Result (Unit {0})
validate_attempt e = do
  refuse_if
      (is_empty e.session_id
        || is_empty e.pipeline_version
        || is_empty e.event_id
        || is_empty e.provider_invocation_id)
      "session_id, pipeline_version, event_id, and provider_invocation_id are required"
  refuse_if (is_empty e.provider_id) "provider_id is required"
  refuse_if (not (has e.modality modalities)) "invalid provider attempt modality: %s"
  refuse_if (not (has e.outcome_class outcome_classes)) "invalid provider attempt outcome_class: %s"
  refuse_if (not (has e.retry_decision retry_decisions))
      "invalid provider attempt retry_decision: %s"
  refuse_if (is_negative e.attempt_latency_ms) "provider attempt latency_ms must be >=0"
  refuse_if (below_one e.attempt) "provider attempt must be >=1"
  refuse_if
      (is_negative e.transport_sequence
        || is_negative e.runtime_sequence
        || is_negative e.authority_epoch)
      "provider attempt sequence fields must be >=0"
  refuse_if (is_negative e.runtime_timestamp_ms || is_negative e.wall_clock_timestamp_ms)
      "provider attempt timestamps must be >=0"

pub record InvocationOutcomeEvidence : Type 0 where
  pub provider_invocation_id : String
  pub modality : String
  pub provider_id : String
  pub outcome_class : String
  pub retryable : Bool
  pub retry_decision : String
  pub attempt_count : ℤ
  pub final_attempt_latency_ms : ℤ
  pub total_invocation_latency_ms : ℤ

unfoldable pub validate_invocation_outcome : InvocationOutcomeEvidence → Result (Unit {0})
validate_invocation_outcome e = do
  refuse_if (is_empty e.provider_invocation_id || is_empty e.modality || is_empty e.provider_id)
      "provider_invocation_id, modality, and provider_id are required"
  refuse_if (not (has e.modality modalities)) "invalid invocation modality: %s"
  refuse_if (not (has e.outcome_class outcome_classes)) "invalid invocation outcome_class: %s"
  refuse_if (not (has e.retry_decision retry_decisions)) "invalid invocation retry_decision: %s"
  refuse_if (below_one e.attempt_count) "invocation attempt_count must be >=1"
  refuse_if (is_negative e.final_attempt_latency_ms)
      "invocation final_attempt_latency_ms must be >=0"
  refuse_if (is_negative e.total_invocation_latency_ms)
      "invocation total_invocation_latency_ms must be >=0"
  refuse_if (ltℤ e.total_invocation_latency_ms e.final_attempt_latency_ms)
      "invocation total_invocation_latency_ms must be >= final_attempt_latency_ms"

pub record InvocationSnapshotEvidence : Type 0 where
  pub session_id : String
  pub turn_id : String
  pub pipeline_version : String
  pub event_id : String
  pub provider_invocation_id : String
  pub modality : String
  pub provider_id : String
  pub outcome_class : String
  pub retryable : Bool
  pub retry_decision : String
  pub attempt_count : ℤ
  pub final_attempt_latency_ms : ℤ
  pub total_invocation_latency_ms : ℤ
  pub runtime_timestamp_ms : ℤ
  pub wall_clock_timestamp_ms : ℤ

unfoldable pub invocation_of : InvocationSnapshotEvidence → InvocationOutcomeEvidence
invocation_of e = record {
  provider_invocation_id = e.provider_invocation_id;
  modality = e.modality;
  provider_id = e.provider_id;
  outcome_class = e.outcome_class;
  retryable = e.retryable;
  retry_decision = e.retry_decision;
  attempt_count = e.attempt_count;
  final_attempt_latency_ms = e.final_attempt_latency_ms;
  total_invocation_latency_ms = e.total_invocation_latency_ms;
}

unfoldable pub validate_snapshot : InvocationSnapshotEvidence → Result (Unit {0})
validate_snapshot e = do
  refuse_if (is_empty e.session_id || is_empty e.pipeline_version || is_empty e.event_id)
      "session_id, pipeline_version, and event_id are required"
  validate_invocation_outcome (invocation_of e)
  refuse_if (is_negative e.runtime_timestamp_ms || is_negative e.wall_clock_timestamp_ms)
      "invocation snapshot timestamps must be >=0"
