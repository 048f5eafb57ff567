-- ===== src/Executor/Scheduler.antt =====
-- internal/runtime/executor/scheduler.go: the scheduling points, where a node is admitted, shed, or
-- invokes its provider.

use realtime_speech_pipeline.Base.{
  ℕ, suc, String, Bool, Option, none, some, List, [], ◌∷◌, if◌then◌else◌,
}
use realtime_speech_pipeline.Base.Effects.{Effect, pure, lift, ◌>>◌}
use realtime_speech_pipeline.Base.Int.{ℤ, pos, ltℤ, non_negative, add64, sub64}
use realtime_speech_pipeline.Base.Text.{fallback}
use realtime_speech_pipeline.ControlPlane.Outcome.{DecisionOutcome}
use realtime_speech_pipeline.EventAbi.Types.{Lane, PayloadClass, SignalName, Emitter}
use realtime_speech_pipeline.EventAbi.Signal
use realtime_speech_pipeline.EventAbi.Signal.{ControlSignal, blank, scope_for, scope_text_for}
use realtime_speech_pipeline.Provider.Contracts.{Modality, OutcomeClass, class_text, modality_text}
use realtime_speech_pipeline.Provider.Requests.{
  InvocationInput, InvocationAttempt, InvocationResult,
}
use realtime_speech_pipeline.Timeline.{ProviderAttemptEvidence}
use realtime_speech_pipeline.Executor.Specs.{ProviderInvocationInput}

pub record SchedulingInput : Type 0 where
  pub session_id : String
  pub turn_id : String
  pub event_id : String
  pub pipeline_version : String
  pub transport_sequence : ℤ
  pub runtime_sequence : ℤ
  pub authority_epoch : ℤ
  pub runtime_timestamp_ms : ℤ
  pub wall_clock_timestamp_ms : ℤ
  pub shed : Bool
  pub reason : String
  pub provider_invocation : Option ProviderInvocationInput

pub record ProviderDecision : Type 0 where
  pub provider_invocation_id : String
  pub modality : Modality
  pub selected_provider : String
  pub outcome_class : OutcomeClass
  pub retryable : Bool
  pub retry_decision : String
  pub attempts : ℕ
  pub signals : List ControlSignal

pub record SchedulingDecision : Type 0 where
  pub allowed : Bool
  pub outcome : Option DecisionOutcome
  pub control_signal : Option ControlSignal
  pub provider : Option ProviderDecision

-- What a scheduler is wired to, as the interfaces it calls; `none` is nil. The identity service is
-- known by the event ids that it gives. `append_snapshot` is the building of an invocation snapshot
-- together with its appender.
pub record Services (World : Type 0) : Type 0 where
  pub invoke : Option (InvocationInput → Effect World InvocationResult)
  pub append_attempts : Option (List ProviderAttemptEvidence → Effect World (Unit {0}))
  pub append_snapshot :
      Option (
        SchedulingInput → InvocationResult → List ProviderAttemptEvidence → Effect World (Unit {0}))
  pub new_event_id : Option ((session_id turn_id : String) → Effect World String)

abbrev pub default_pipeline_version : String → String
default_pipeline_version version = fallback version "pipeline-v1"

unfoldable pub shed_signal : SchedulingInput → (reason : String) → ControlSignal
shed_signal req reason = record blank {
  schema_version = "v1.0";
  event_scope = scope_for req.turn_id;
  session_id = req.session_id;
  turn_id = req.turn_id;
  pipeline_version = default_pipeline_version req.pipeline_version;
  event_id = req.event_id;
  lane = Lane.control_lane;
  transport_sequence = some (non_negative req.transport_sequence);
  runtime_sequence = non_negative req.runtime_sequence;
  authority_epoch = non_negative req.authority_epoch;
  runtime_timestamp_ms = non_negative req.runtime_timestamp_ms;
  wall_clock_ms = non_negative req.wall_clock_timestamp_ms;
  payload_class = PayloadClass.metadata;
  signal = SignalName.shed;
  emitted_by = Emitter.rk25;
  reason = reason;
  scope = scope_text_for req.turn_id;
}

unfoldable pub build_shed_control_signal :
    {World : Type 0} → SchedulingInput → String → Effect World ControlSignal
build_shed_control_signal req reason = do
  lift (Signal.validate (shed_signal req reason))
  pure (shed_signal req reason)

-- The latency of an attempt, from the wall clock of the attempt before, if any.
unfoldable pub latency : (wall : ℤ) → (previous : Option ℤ) → ℤ
latency wall none = pos 0
latency wall (some previous) = if ltℤ previous wall then sub64 wall previous else pos 0

unfoldable pub attempt_evidence :
    SchedulingInput
    → Modality
    → InvocationResult
    → (offset : ℤ) → (previous : Option ℤ) → InvocationAttempt
    → ProviderAttemptEvidence
attempt_evidence req modality result offset previous attempt =
    let wall = add64 (non_negative req.wall_clock_timestamp_ms) offset in
    record {
      session_id = req.session_id;
      turn_id = req.turn_id;
      pipeline_version = default_pipeline_version req.pipeline_version;
      event_id = req.event_id;
      provider_invocation_id = result.provider_invocation_id;
      modality = modality_text modality;
      provider_id = attempt.provider_id;
      attempt = pos attempt.attempt;
      outcome_class = class_text attempt.outcome.class;
      retryable = attempt.outcome.retryable;
      retry_decision = fallback result.retry_decision "none";
      attempt_latency_ms = latency wall previous;
      transport_sequence = add64 (non_negative req.transport_sequence) offset;
      runtime_sequence = add64 (non_negative req.runtime_sequence) offset;
      authority_epoch = non_negative req.authority_epoch;
      runtime_timestamp_ms = add64 (non_negative req.runtime_timestamp_ms) offset;
      wall_clock_timestamp_ms = wall;
    }

-- The loop over the attempts, from the one at `index` on.
unfoldable pub evidence_from :
    SchedulingInput
    → Modality
    → InvocationResult
    → (index : ℕ) → (previous : Option ℤ) → List InvocationAttempt
    → List ProviderAttemptEvidence
evidence_from req modality result index previous [] = []
evidence_from req modality result index previous (attempt ∷ rest) =
    let evidence = attempt_evidence req modality result (pos index) previous attempt in
    evidence
    ∷ evidence_from req modality result (suc index) (some evidence.wall_clock_timestamp_ms) rest

unfoldable pub build_attempt_evidence :
    SchedulingInput → Modality → InvocationResult → List ProviderAttemptEvidence
build_attempt_evidence req modality result =
    evidence_from req modality result 0 none result.attempts
