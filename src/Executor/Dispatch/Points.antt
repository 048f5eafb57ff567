-- ===== src/Executor/Dispatch/Points.antt =====
-- internal/runtime/executor/scheduler.go, evaluate: a scheduling point without a provider.
use realtime_speech_pipeline.Base.{String, true, false, ◌≡◌, refl, none, some, ok, arith}
use realtime_speech_pipeline.Base.Text.{is_empty, is_empty-fallback}
use realtime_speech_pipeline.ControlPlane.Outcome
use realtime_speech_pipeline.ControlPlane.Outcome.{OutcomeScope, DecisionOutcome}
use realtime_speech_pipeline.EventAbi.Signal
use realtime_speech_pipeline.EventAbi.Signal.{ControlSignal}
use realtime_speech_pipeline.LocalAdmission.{evaluate_scheduling_point, shed_outcome}
use realtime_speech_pipeline.LocalAdmission.Decisions.{IsStamped, shed-accepted}
use realtime_speech_pipeline.Executor.Scheduler.{
  SchedulingInput, Services, shed_signal, build_shed_control_signal,
}
use realtime_speech_pipeline.Executor.Dispatch.{
  point_input, allowed_decision, with_event_id, invoke_provider, deny, answer_point, evaluate,
}

shed_signal-accepted :
    (req : SchedulingInput) (reason : String)
    → is_empty req.session_id ≡ false
    → is_empty req.event_id ≡ false
    → is_empty reason ≡ false
    → Signal.validate (shed_signal req reason) ≡ ok tt
unfolding shed_signal Signal.validation
shed_signal-accepted req reason s e r =
    ground (arith, is_empty-fallback req.pipeline_version "pipeline-v1" refl)

module _ {World : Type 0} (s : Services World) (scope : OutcomeScope) (req : SchedulingInput)
    (w : World) where
  -- Without a provider, a point that is not shed is passed, and the world stays as it is.
  pub evaluate-passes :
      is_empty req.event_id ≡ false
      → req.shed ≡ false
      → req.provider_invocation ≡ none
      → evaluate s scope req w ≡ (ok allowed_decision, w)
  unfolding evaluate with_event_id answer_point evaluate_scheduling_point point_input
      invoke_provider
  evaluate-passes e d n = rw (e, d, n) refl

  -- A point that is to be shed, with its ids and times, is denied, with an outcome that
  -- DecisionOutcome.Validate accepts and a signal that ControlSignal.Validate accepts; no provider is
  -- asked, and the world stays as it is.
  evaluate-sheds :
      IsStamped req.session_id req.event_id req.runtime_timestamp_ms req.wall_clock_timestamp_ms
      → req.shed ≡ true
      → (outcome : DecisionOutcome) × (signal : ControlSignal) × (evaluate s scope req w ≡ (
        ok (record {
          allowed = false;
          outcome = some outcome;
          control_signal = some signal;
          provider = none;
        }),
        w,
      ))
        × (Outcome.validate outcome ≡ ok tt)
        × (Signal.validate signal ≡ ok tt)
  unfolding evaluate with_event_id answer_point evaluate_scheduling_point deny
      build_shed_control_signal point_input shed_outcome Signal.validate shed_signal
  evaluate-sheds p d = (
    shed_outcome (point_input scope req),
    shed_signal req (shed_outcome (point_input scope req)).reason,
    rw (p.event, d, valid, accepted) refl,
    valid,
    accepted,
  )
    where
      valid : Outcome.validate (shed_outcome (point_input scope req)) ≡ ok tt
      valid = shed-accepted (point_input scope req) p

      accepted :
          Signal.validate (shed_signal req (shed_outcome (point_input scope req)).reason) ≡ ok tt
      accepted =
          shed_signal-accepted req _ p.session p.event
            (is_empty-fallback req.reason "scheduling_point_shed" refl)
