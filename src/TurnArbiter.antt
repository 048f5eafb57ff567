-- ===== src/TurnArbiter.antt =====
-- internal/runtime/turnarbiter: the arbiter that opens turns and ends them. The resolver of a turn's
-- start bundle is the interface TurnStartBundleResolver, a function here. Telemetry is not modelled: it
-- returns nothing.
pub mod Opening
pub mod Drafts
pub mod Normal
pub mod Evidence
pub mod Active
use realtime_speech_pipeline.Base.{
  String, Bool, true, false, not, ◌&&◌, ◌||◌, Option, none, some, List, [], ◌∷◌, Result, ok, err,
  ◌>>=◌, ◌>>◌, refuse_if,
}
use realtime_speech_pipeline.Base.Int.{ℤ, is_negative}
use realtime_speech_pipeline.Base.Text.{is_empty}
use realtime_speech_pipeline.EventAbi.Signal.{ControlSignal}
use realtime_speech_pipeline.ControlPlane.Outcome.{OutcomeKind, OutcomeScope, DecisionOutcome}
use realtime_speech_pipeline.ControlPlane.Turn
use realtime_speech_pipeline.ControlPlane.Turn.{TurnState, TransitionTrigger, TurnTransition}
use realtime_speech_pipeline.ControlPlane.TurnPlan.{
  SnapshotProvenance, ResolvedTurnPlan, validate_provenance, is_nil,
}
use realtime_speech_pipeline.LocalAdmission.{CapacityDisposition}

pub record LifecycleEvent : Type 0 where
  pub name : String
  pub reason : String

pub record OpenRequest : Type 0 where
  pub session_id : String
  pub turn_id : String
  pub event_id : String
  pub runtime_timestamp_ms : ℤ
  pub wall_clock_timestamp_ms : ℤ
  pub pipeline_version : String
  pub authority_epoch : ℤ
  pub snapshot_valid : Bool
  pub capacity_disposition : CapacityDisposition
  pub authority_epoch_valid : Bool
  pub authority_authorized : Bool
  pub snapshot_failure_policy : OutcomeKind
  pub plan_failure_policy : OutcomeKind
  pub plan_should_fail : Bool

pub record OpenResult : Type 0 where
  pub state : TurnState
  pub transitions : List TurnTransition
  pub decision : Option DecisionOutcome
  pub plan : Option ResolvedTurnPlan
  pub events : List LifecycleEvent
  pub control_lane : List ControlSignal

pub record TurnStartBundleInput : Type 0 where
  pub session_id : String
  pub turn_id : String
  pub requested_pipeline_version : String
  pub authority_epoch : ℤ

pub record TurnStartBundle : Type 0 where
  pub pipeline_version : String
  pub graph_definition_ref : String
  pub execution_profile : String
  pub graph_fingerprint : String
  pub allowed_adaptive_actions : Option (List String)
  pub snapshot_provenance : SnapshotProvenance
  pub has_cp_admission_decision : Bool
  pub cp_admission_outcome_kind : OutcomeKind
  pub cp_admission_scope : OutcomeScope
  pub cp_admission_reason : String
  pub has_lease_decision : Bool
  pub lease_authority_epoch : ℤ
  pub lease_authority_valid : Bool
  pub lease_authority_granted : Bool

-- admit, reject or defer
abbrev pub is_cp_kind : OutcomeKind → Bool
is_cp_kind OutcomeKind.admit = true
is_cp_kind OutcomeKind.reject = true
is_cp_kind OutcomeKind.defer = true
is_cp_kind _ = false

abbrev pub is_admit : OutcomeKind → Bool
is_admit OutcomeKind.admit = true
is_admit _ = false

-- Empty, tenant or session.
abbrev pub is_cp_scope : OutcomeScope → Bool
is_cp_scope OutcomeScope.tenant = true
is_cp_scope OutcomeScope.session = true
is_cp_scope (OutcomeScope.other s) = is_empty s
is_cp_scope _ = false

unfoldable pub validate_bundle : TurnStartBundle → Result (Unit {0})
validate_bundle b = do
  refuse_if (is_empty b.pipeline_version) "pipeline_version is required"
  refuse_if (is_empty b.graph_definition_ref) "graph_definition_ref is required"
  refuse_if (is_empty b.execution_profile) "execution_profile is required"
  refuse_if (is_nil b.allowed_adaptive_actions) "allowed_adaptive_actions is required"
  validate_provenance b.snapshot_provenance
  refuse_if (b.has_cp_admission_decision && not (is_cp_kind b.cp_admission_outcome_kind))
      "cp_admission_outcome_kind must be admit|reject|defer"
  refuse_if (b.has_cp_admission_decision && not (is_cp_scope b.cp_admission_scope))
      "cp_admission_scope must be tenant|session"
  refuse_if (b.has_cp_admission_decision && is_empty b.cp_admission_reason)
      "cp_admission_reason is required"
  refuse_if (b.has_lease_decision && is_negative b.lease_authority_epoch)
      "lease_authority_epoch must be >=0"

unfoldable pub trigger_from_outcome : OutcomeKind → Result TransitionTrigger
trigger_from_outcome OutcomeKind.reject = ok TransitionTrigger.reject
trigger_from_outcome OutcomeKind.defer = ok TransitionTrigger.defer
trigger_from_outcome OutcomeKind.stale_epoch_reject = ok TransitionTrigger.stale_epoch_reject
trigger_from_outcome OutcomeKind.deauthorized_drain = ok TransitionTrigger.deauthorized_drain
trigger_from_outcome _ = err "outcome %s is not a pre-turn transition trigger"

-- `string(kind)`
unfoldable pub kind_text : OutcomeKind → String
kind_text OutcomeKind.admit = "admit"
kind_text OutcomeKind.reject = "reject"
kind_text OutcomeKind.defer = "defer"
kind_text OutcomeKind.shed = "shed"
kind_text OutcomeKind.stale_epoch_reject = "stale_epoch_reject"
kind_text OutcomeKind.deauthorized_drain = "deauthorized_drain"
kind_text (OutcomeKind.other s) = s

abbrev pub transition : TurnState → TransitionTrigger → TurnState → TurnTransition
transition from_state trigger to_state = record {
  from_state = from_state;
  trigger = trigger;
  to_state = to_state;
  deterministic = true;
}

-- The loop of validateOpenTransitions, and the first one of validateActiveResult.
unfoldable pub validate_transitions : List TurnTransition → Result (Unit {0})
validate_transitions [] = ok tt
validate_transitions (t ∷ ts) = do Turn.validate t; validate_transitions ts
