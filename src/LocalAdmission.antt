-- ===== src/LocalAdmission.antt =====
-- internal/runtime/localadmission/localadmission.go: RK-25 admission before a turn and at scheduling
-- points.
pub mod Decisions
use realtime_speech_pipeline.Base.{String, Bool, true, false, Option, none, some, if◌then◌else◌}
use realtime_speech_pipeline.Base.Int.{ℤ}
use realtime_speech_pipeline.Base.Text.{is_empty, fallback}
use realtime_speech_pipeline.ControlPlane.Outcome.{
  OutcomeKind, OutcomePhase, OutcomeScope, OutcomeEmitter, DecisionOutcome,
}

pub data CapacityDisposition : Type 0 where
  allow defer reject : CapacityDisposition
  other : String → CapacityDisposition

pub record PreTurnInput : Type 0 where
  pub session_id : String
  pub turn_id : String
  pub event_id : String
  pub runtime_timestamp_ms : ℤ
  pub wall_clock_timestamp_ms : ℤ
  pub snapshot_valid : Bool
  pub snapshot_failure_policy : OutcomeKind
  pub capacity_disposition : CapacityDisposition

pub record PreTurnResult : Type 0 where
  pub allowed : Bool
  pub outcome : Option DecisionOutcome

-- `kind := policy; if kind != reject { kind = defer }`
abbrev pub reject_or_defer : OutcomeKind → OutcomeKind
reject_or_defer OutcomeKind.reject = OutcomeKind.reject
reject_or_defer _ = OutcomeKind.defer

-- `scope := session; if turnID != "" { scope = turn }`
abbrev pub pre_turn_scope : String → OutcomeScope
pre_turn_scope turn_id = if is_empty turn_id then OutcomeScope.session else OutcomeScope.turn

unfoldable pub admission_outcome : PreTurnInput → OutcomeKind → String → DecisionOutcome
admission_outcome req kind reason = record {
  outcome_kind = kind;
  phase = OutcomePhase.pre_turn;
  scope = pre_turn_scope req.turn_id;
  session_id = req.session_id;
  turn_id = req.turn_id;
  event_id = req.event_id;
  runtime_timestamp_ms = req.runtime_timestamp_ms;
  wall_clock_ms = req.wall_clock_timestamp_ms;
  emitted_by = OutcomeEmitter.rk25;
  authority_epoch = none;
  reason = reason;
}

abbrev allowed_result : PreTurnResult
allowed_result = record { allowed = true; outcome = none }

-- The switch on the capacity disposition.
unfoldable pub evaluate_capacity : CapacityDisposition → PreTurnInput → PreTurnResult
evaluate_capacity CapacityDisposition.reject req = record {
  allowed = false;
  outcome = some (admission_outcome req OutcomeKind.reject "admission_capacity_reject");
}
evaluate_capacity CapacityDisposition.defer req = record {
  allowed = false;
  outcome = some (admission_outcome req OutcomeKind.defer "admission_capacity_defer");
}
evaluate_capacity _ req = allowed_result

unfoldable pub evaluate_pre_turn : PreTurnInput → PreTurnResult
evaluate_pre_turn req =
    if req.snapshot_valid then evaluate_capacity req.capacity_disposition req else record {
      allowed = false;
      outcome = some (
          admission_outcome req (reject_or_defer req.snapshot_failure_policy)
            "snapshot_invalid_or_missing");
    }

pub record SchedulingPointInput : Type 0 where
  pub session_id : String
  pub turn_id : String
  pub event_id : String
  pub runtime_timestamp_ms : ℤ
  pub wall_clock_timestamp_ms : ℤ
  pub scope : OutcomeScope
  pub shed : Bool
  pub reason : String

pub record SchedulingPointResult : Type 0 where
  pub allowed : Bool
  pub outcome : Option DecisionOutcome

-- Any scope but the three of a scheduling point becomes edge_enqueue.
abbrev pub scheduling_scope : OutcomeScope → OutcomeScope
scheduling_scope OutcomeScope.edge_dequeue = OutcomeScope.edge_dequeue
scheduling_scope OutcomeScope.node_dispatch = OutcomeScope.node_dispatch
scheduling_scope _ = OutcomeScope.edge_enqueue

unfoldable pub shed_outcome : SchedulingPointInput → DecisionOutcome
shed_outcome req = record {
  outcome_kind = OutcomeKind.shed;
  phase = OutcomePhase.scheduling_point;
  scope = scheduling_scope req.scope;
  session_id = req.session_id;
  turn_id = req.turn_id;
  event_id = req.event_id;
  runtime_timestamp_ms = req.runtime_timestamp_ms;
  wall_clock_ms = req.wall_clock_timestamp_ms;
  emitted_by = OutcomeEmitter.rk25;
  authority_epoch = none;
  reason = fallback req.reason "scheduling_point_shed";
}

unfoldable pub evaluate_scheduling_point : SchedulingPointInput → SchedulingPointResult
evaluate_scheduling_point req =
    if req.shed
    then record { allowed = false; outcome = some (shed_outcome req) }
    else record { allowed = true; outcome = none }
