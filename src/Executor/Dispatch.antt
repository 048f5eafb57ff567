-- ===== src/Executor/Dispatch.antt =====
-- internal/runtime/executor/scheduler.go, evaluate: what happens at a scheduling point.
pub mod Points
use realtime_speech_pipeline.Base.{
  String, Bool, true, false, not, List, Option, none, some, Result, ok, err, refuse_if,
  if◌then◌else◌,
}
use realtime_speech_pipeline.Base.Effects.{Effect, pure, lift, ◌>>=◌, ◌>>◌}
use realtime_speech_pipeline.Base.Int.{non_negative}
use realtime_speech_pipeline.Base.Lists.{length}
use realtime_speech_pipeline.Base.Text.{is_empty}
use realtime_speech_pipeline.ControlPlane.Outcome
use realtime_speech_pipeline.ControlPlane.Outcome.{OutcomeKind, OutcomeScope, DecisionOutcome}
use realtime_speech_pipeline.EventAbi.Gateway.{validate_and_normalize_control_signals}
use realtime_speech_pipeline.EventAbi.Signal.{ControlSignal}
use realtime_speech_pipeline.LocalAdmission.{
  SchedulingPointInput, SchedulingPointResult, evaluate_scheduling_point,
}
use realtime_speech_pipeline.Provider.Contracts.{is_success}
use realtime_speech_pipeline.Provider.Requests.{InvocationInput, InvocationResult}
use realtime_speech_pipeline.Timeline.{ProviderAttemptEvidence}
use realtime_speech_pipeline.Executor.Specs.{ProviderInvocationInput}
use realtime_speech_pipeline.Executor.Scheduler.{
  SchedulingInput, SchedulingDecision, ProviderDecision, Services, default_pipeline_version,
  build_shed_control_signal, build_attempt_evidence,
}

unfoldable pub point_input : OutcomeScope → SchedulingInput → SchedulingPointInput
point_input scope req = record {
  session_id = req.session_id;
  turn_id = req.turn_id;
  event_id = req.event_id;
  runtime_timestamp_ms = req.runtime_timestamp_ms;
  wall_clock_timestamp_ms = req.wall_clock_timestamp_ms;
  scope = scope;
  shed = req.shed;
  reason = req.reason;
}

unfoldable pub invocation_input : SchedulingInput → ProviderInvocationInput → InvocationInput
invocation_input req provider = record {
  session_id = req.session_id;
  turn_id = req.turn_id;
  pipeline_version = default_pipeline_version req.pipeline_version;
  event_id = req.event_id;
  modality = provider.modality;
  preferred_provider = provider.preferred_provider;
  allowed_adaptive_actions = provider.allowed_adaptive_actions;
  provider_invocation_id = provider.provider_invocation_id;
  transport_sequence = non_negative req.transport_sequence;
  runtime_sequence = non_negative req.runtime_sequence;
  authority_epoch = non_negative req.authority_epoch;
  runtime_timestamp_ms = non_negative req.runtime_timestamp_ms;
  wall_clock_timestamp_ms = non_negative req.wall_clock_timestamp_ms;
  cancel_requested = provider.cancel_requested;
}

abbrev pub allowed_decision : SchedulingDecision
allowed_decision = record { allowed = true; outcome = none; control_signal = none; provider = none }

abbrev pub is_shed : OutcomeKind → Bool
is_shed OutcomeKind.shed = true
is_shed _ = false

module _ {World : Type 0} (s : Services World) where
  unfoldable pub identified :
      Option (String → String → Effect World String)
      → SchedulingInput
      → Effect World SchedulingInput
  identified none req = lift (err "identity service is not configured")
  identified (some new_event_id) req = do
    event_id ← new_event_id req.session_id req.turn_id
    pure (record req { event_id = event_id })

  -- `if in.EventID == "" { … }`
  unfoldable pub with_event_id : SchedulingInput → Effect World SchedulingInput
  with_event_id req = if is_empty req.event_id then identified s.new_event_id req else pure req

  -- `if s.attemptAppender != nil { … }`
  unfoldable pub appended :
      Option (List ProviderAttemptEvidence → Effect World (Unit {0}))
      → List ProviderAttemptEvidence
      → Effect World (Unit {0})
  appended none evidence = pure tt
  appended (some append) evidence = append evidence

  -- `if s.snapshotAppender != nil { … }`
  unfoldable pub snapshot_taken :
      Option (
        SchedulingInput → InvocationResult → List ProviderAttemptEvidence → Effect World (Unit {0}))
      → SchedulingInput
      → InvocationResult
      → List ProviderAttemptEvidence
      → Effect World (Unit {0})
  snapshot_taken none req result evidence = pure tt
  snapshot_taken (some append) req result evidence = append req result evidence

  unfoldable pub invoker :
      Option (InvocationInput → Effect World InvocationResult)
      → InvocationInput
      → Effect World InvocationResult
  invoker none req =
      lift (err "provider invocation requested but provider invoker is not configured")
  invoker (some invoke) req = invoke req

  unfoldable pub invoke_provider :
      SchedulingInput → Option ProviderInvocationInput → Effect World SchedulingDecision
  invoke_provider req none = pure allowed_decision
  invoke_provider req (some provider) = do
    result ← invoker s.invoke (invocation_input req provider)
    normalized ← lift (validate_and_normalize_control_signals result.signals)
    appended s.append_attempts (build_attempt_evidence req provider.modality result)
    snapshot_taken s.append_snapshot req result
        (build_attempt_evidence req provider.modality result)
    pure (record allowed_decision {
      allowed = is_success result.outcome.class;
      provider = some (record {
        provider_invocation_id = result.provider_invocation_id;
        modality = provider.modality;
        selected_provider = result.selected_provider;
        outcome_class = result.outcome.class;
        retryable = result.outcome.retryable;
        retry_decision = result.retry_decision;
        attempts = length result.attempts;
        signals = normalized;
      });
    })

  -- After the admission denied the point.
  unfoldable pub deny : SchedulingInput → Option DecisionOutcome → Effect World SchedulingDecision
  deny req none = lift (err "scheduling-point denied without outcome")
  deny req (some outcome) = do
    lift (Outcome.validate outcome)
    lift (
        refuse_if (not (is_shed outcome.outcome_kind))
          "unexpected scheduling-point outcome kind: %s")
    control_signal ← build_shed_control_signal req outcome.reason
    pure (record {
      allowed = false;
      outcome = some outcome;
      control_signal = some control_signal;
      provider = none;
    })

  unfoldable pub answer_point :
      SchedulingInput → SchedulingPointResult → Effect World SchedulingDecision
  answer_point req result =
      if result.allowed
      then invoke_provider req req.provider_invocation
      else deny req result.outcome

  unfoldable pub evaluate : OutcomeScope → SchedulingInput → Effect World SchedulingDecision
  evaluate scope req = do
    stamped ← with_event_id req
    answer_point stamped (evaluate_scheduling_point (point_input scope stamped))

  unfoldable pub edge_enqueue : SchedulingInput → Effect World SchedulingDecision
  edge_enqueue = evaluate OutcomeScope.edge_enqueue

  unfoldable pub edge_dequeue : SchedulingInput → Effect World SchedulingDecision
  edge_dequeue = evaluate OutcomeScope.edge_dequeue

  unfoldable pub node_dispatch : SchedulingInput → Effect World SchedulingDecision
  node_dispatch = evaluate OutcomeScope.node_dispatch
