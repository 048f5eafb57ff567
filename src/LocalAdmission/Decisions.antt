-- ===== src/LocalAdmission/Decisions.antt =====
-- What the decisions of internal/runtime/localadmission/localadmission.go are.
use realtime_speech_pipeline.Base.{
  ◌≡◌, refl, String, Bool, true, false, not, ◌&&◌, Option, none, some, ok, arith,
}
use mathlib.Core.Bool.{false≢true}
use realtime_speech_pipeline.Base.Int.{ℤ, is_negative, pos}
use realtime_speech_pipeline.Base.Text.{is_empty, is_empty-fallback}
use realtime_speech_pipeline.ControlPlane.Outcome
use realtime_speech_pipeline.ControlPlane.Outcome.{DecisionOutcome, OutcomePhase, OutcomeScope}
use realtime_speech_pipeline.ControlPlane.Outcome.Rules.{
  shed_scope, names_turn, validate-IsWellFormed,
}
use realtime_speech_pipeline.LocalAdmission.{
  CapacityDisposition, PreTurnInput, SchedulingPointInput, evaluate_capacity, evaluate_pre_turn,
  evaluate_scheduling_point, admission_outcome, scheduling_scope, shed_outcome,
}

-- The ids and times that every outcome needs are there.
pub record IsStamped (session_id event_id : String) (runtime wall : ℤ) : Type 0 where
  pub session : is_empty session_id ≡ false
  pub event : is_empty event_id ≡ false
  pub runtime_time : is_negative runtime ≡ false
  pub wall_time : is_negative wall ≡ false

-- A decision: nothing to say, or an outcome that the control plane accepts.
abbrev pub Decided : (allowed : Bool) → Option DecisionOutcome → Type 0
Decided true none = Unit
Decided false (some d) = Outcome.validate d ≡ ok tt
Decided _ _ = ⊥

abbrev pub has_capacity : CapacityDisposition → Bool
has_capacity CapacityDisposition.reject = false
has_capacity CapacityDisposition.defer = false
has_capacity _ = true

-- For a stamped request the admission before a turn lets it pass exactly when the snapshot is valid
-- and there is capacity, and then says nothing; otherwise it gives an outcome
-- that the control plane accepts.
evaluate_pre_turn-Decided :
    (req : PreTurnInput)
    → IsStamped req.session_id req.event_id req.runtime_timestamp_ms req.wall_clock_timestamp_ms
    → ((evaluate_pre_turn req).allowed
        ≡ (req.snapshot_valid && has_capacity req.capacity_disposition))
      × Decided (evaluate_pre_turn req).allowed (evaluate_pre_turn req).outcome
unfolding evaluate_pre_turn evaluate_capacity admission_outcome Outcome.validation
evaluate_pre_turn-Decided req s = (ground arith, ground arith)

scheduling_scope-shed :
    (s : OutcomeScope) → shed_scope OutcomePhase.scheduling_point (scheduling_scope s) ≡ true
scheduling_scope-shed OutcomeScope.edge_dequeue = refl
scheduling_scope-shed _ = refl

pub shed-accepted :
    (req : SchedulingPointInput)
    → IsStamped req.session_id req.event_id req.runtime_timestamp_ms req.wall_clock_timestamp_ms
    → Outcome.validate (shed_outcome req) ≡ ok tt
unfolding shed_outcome
shed-accepted req s =
    ((validate-IsWellFormed (shed_outcome req) (pos 0)).0.0 (record {
      permitted = scheduling_scope-shed req.scope;
      has_session = s.session;
      has_event = s.event;
      has_reason = is_empty-fallback req.reason "scheduling_point_shed" refl;
      runtime_time = s.runtime_time;
      wall_time = s.wall_time;
      turn_named = λ h. absurd (not_named req.scope h);
      epoch_stated = λ h. absurd (false≢true h);
      epoch_counted = refl;
    })).0
  where
    not_named :
        (s : OutcomeScope)
        → names_turn OutcomePhase.scheduling_point (scheduling_scope s) ≡ true
        → ⊥
    not_named OutcomeScope.edge_dequeue h = false≢true h
    not_named _ h = false≢true h

-- For a stamped request a scheduling point is passed exactly when nothing is to be shed; otherwise
-- the outcome is one that the control plane accepts, whatever scope was asked for.
evaluate_scheduling_point-Decided :
    (req : SchedulingPointInput)
    → IsStamped req.session_id req.event_id req.runtime_timestamp_ms req.wall_clock_timestamp_ms
    → ((evaluate_scheduling_point req).allowed ≡ not req.shed)
      × Decided (evaluate_scheduling_point req).allowed (evaluate_scheduling_point req).outcome
unfolding evaluate_scheduling_point
evaluate_scheduling_point-Decided req s = (ground arith, ground (arith, shed-accepted req s))
