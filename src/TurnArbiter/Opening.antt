-- ===== src/TurnArbiter/Opening.antt =====
-- internal/runtime/turnarbiter/arbiter.go: HandleTurnOpenProposed, from a proposed turn to an active one or
-- back to idle. Where Go returns a result beside an error, only the error is kept: Apply drops the rest.
pub mod Settles
pub mod Gates
pub mod Opens
use realtime_speech_pipeline.Base.{
  ℕ, zero, suc, String, Bool, true, false, not, ◌&&◌, ◌||◌, Option, none, some, List, [], ◌∷◌, ◌++◌,
  Result, ok, err, ◌>>=◌, ◌>>◌, refuse_if, if◌then◌else◌,
}
use realtime_speech_pipeline.Base.Int.{ℤ, pos, negsuc, ltℤ}
use realtime_speech_pipeline.Base.Text.{is_empty}
use realtime_speech_pipeline.ControlPlane.Outcome
use realtime_speech_pipeline.ControlPlane.Outcome.{
  OutcomeKind, OutcomePhase, OutcomeScope, OutcomeEmitter, DecisionOutcome,
}
use realtime_speech_pipeline.ControlPlane.Turn.{TurnState, TransitionTrigger, TurnTransition}
use realtime_speech_pipeline.ControlPlane.TurnPlan.{ResolvedTurnPlan, validate_plan}
use realtime_speech_pipeline.LocalAdmission
use realtime_speech_pipeline.LocalAdmission.{reject_or_defer}
use realtime_speech_pipeline.Guard
use realtime_speech_pipeline.PlanResolver
use realtime_speech_pipeline.TurnArbiter.{
  LifecycleEvent, OpenRequest, OpenResult, TurnStartBundle, TurnStartBundleInput, is_admit,
  trigger_from_outcome, kind_text, transition, validate_transitions,
}

-- The result with which the handler starts.
abbrev pub proposed : OpenResult
proposed = record {
  state = TurnState.opening;
  transitions =
      transition TurnState.idle TransitionTrigger.turn_open_proposed TurnState.opening ∷ [];
  decision = none;
  plan = none;
  events = [];
  control_lane = [];
}

abbrev pub back_to_idle : OpenResult → DecisionOutcome → TransitionTrigger → OpenResult
back_to_idle result outcome trigger = record result {
  transitions = result.transitions ++ transition TurnState.opening trigger TurnState.idle ∷ [];
  decision = some outcome;
  state = TurnState.idle;
  events =
      result.events
      ++ record { name = kind_text outcome.outcome_kind; reason = outcome.reason } ∷ [];
}

-- What every denial does with its outcome.
unfoldable pub deny_with : OpenResult → DecisionOutcome → Result OpenResult
deny_with result outcome = do
  Outcome.validate outcome
  trigger ← trigger_from_outcome outcome.outcome_kind
  validate_transitions (back_to_idle result outcome trigger).transitions
  ok (back_to_idle result outcome trigger)

-- A gate that denied, with the outcome that it gave.
unfoldable pub gate_denied :
    OpenResult → (missing : String) → Option DecisionOutcome → Result OpenResult
gate_denied result missing none = err missing
gate_denied result missing (some outcome) = deny_with result outcome

unfoldable pub failure_outcome : OpenRequest → String → DecisionOutcome
failure_outcome req reason = record {
  outcome_kind = reject_or_defer req.plan_failure_policy;
  phase = OutcomePhase.pre_turn;
  scope = OutcomeScope.turn;
  session_id = req.session_id;
  turn_id = req.turn_id;
  event_id = req.event_id;
  runtime_timestamp_ms = req.runtime_timestamp_ms;
  wall_clock_ms = req.wall_clock_timestamp_ms;
  emitted_by = OutcomeEmitter.rk25;
  authority_epoch = none;
  reason = reason;
}

unfoldable pub plan_materialization_failure : OpenResult → OpenRequest → String → Result OpenResult
plan_materialization_failure result req reason = deny_with result (failure_outcome req reason)

unfoldable pub admission_input : OpenRequest → LocalAdmission.PreTurnInput
admission_input req = record {
  session_id = req.session_id;
  turn_id = req.turn_id;
  event_id = req.event_id;
  runtime_timestamp_ms = req.runtime_timestamp_ms;
  wall_clock_timestamp_ms = req.wall_clock_timestamp_ms;
  snapshot_valid = req.snapshot_valid;
  snapshot_failure_policy = req.snapshot_failure_policy;
  capacity_disposition = req.capacity_disposition;
}

-- The authority that a turn is opened under.
pub record Authority : Type 0 where
  pub epoch : ℤ
  pub valid : Bool
  pub authorized : Bool

abbrev pub requested : OpenRequest → Authority
requested req = record {
  epoch = req.authority_epoch;
  valid = req.authority_epoch_valid;
  authorized = req.authority_authorized;
}

unfoldable pub guard_input : OpenRequest → Authority → Guard.PreTurnInput
guard_input req a = record {
  session_id = req.session_id;
  turn_id = req.turn_id;
  event_id = req.event_id;
  runtime_timestamp_ms = req.runtime_timestamp_ms;
  wall_clock_timestamp_ms = req.wall_clock_timestamp_ms;
  authority_epoch = a.epoch;
  authority_epoch_valid = a.valid;
  authority_authorized = a.authorized;
}

-- `v == 0`
abbrev pub is_zero : ℤ → Bool
is_zero (pos zero) = true
is_zero (pos (suc n)) = false
is_zero (negsuc n) = false

-- `if lease > 0 || requested == 0 { epoch = lease }`, and the flags of both.
unfoldable pub leased : Authority → TurnStartBundle → Authority
leased a b = record {
  epoch =
      if ltℤ (pos 0) b.lease_authority_epoch || is_zero a.epoch
      then b.lease_authority_epoch
      else a.epoch;
  valid = a.valid && b.lease_authority_valid;
  authorized = a.authorized && b.lease_authority_granted;
}

-- `if scope == "" { scope = session }`
abbrev pub scope_or_session : OutcomeScope → OutcomeScope
scope_or_session (OutcomeScope.other s) =
    if is_empty s then OutcomeScope.session else OutcomeScope.other s
scope_or_session scope = scope

unfoldable pub cp_outcome : OpenRequest → TurnStartBundle → DecisionOutcome
cp_outcome req b = record {
  outcome_kind = b.cp_admission_outcome_kind;
  phase = OutcomePhase.pre_turn;
  scope = scope_or_session b.cp_admission_scope;
  session_id = req.session_id;
  turn_id = "";
  event_id = req.event_id;
  runtime_timestamp_ms = req.runtime_timestamp_ms;
  wall_clock_ms = req.wall_clock_timestamp_ms;
  emitted_by = OutcomeEmitter.cp05;
  authority_epoch = none;
  reason = b.cp_admission_reason;
}

-- `append([]string(nil), names...)`: nil when there are none.
abbrev pub copy_names : Option (List String) → Option (List String)
copy_names (some (name ∷ names)) = some (name ∷ names)
copy_names _ = none

unfoldable pub plan_input : OpenRequest → TurnStartBundle → Authority → PlanResolver.Input
plan_input req b a = record {
  turn_id = req.turn_id;
  pipeline_version = b.pipeline_version;
  graph_definition_ref = b.graph_definition_ref;
  execution_profile = b.execution_profile;
  authority_epoch = a.epoch;
  snapshot_provenance = b.snapshot_provenance;
  fail_materialization = req.plan_should_fail;
  allowed_adaptive_actions = copy_names b.allowed_adaptive_actions;
}

abbrev pub activated : OpenResult → ResolvedTurnPlan → OpenResult
activated result plan = record result {
  transitions =
      result.transitions
      ++ transition TurnState.opening TransitionTrigger.turn_open TurnState.active ∷ [];
  plan = some plan;
  state = TurnState.active;
  events = result.events ++ record { name = "turn_open"; reason = "" } ∷ [];
}

unfoldable pub open_with : OpenResult → ResolvedTurnPlan → Result OpenResult
open_with result plan = do
  validate_plan plan
  validate_transitions (activated result plan).transitions
  ok (activated result plan)

-- From the answer of the plan resolver on.
unfoldable pub settle_plan : OpenResult → OpenRequest → Result ResolvedTurnPlan → Result OpenResult
settle_plan result req (err _) =
    plan_materialization_failure result req "plan_materialization_failed"
settle_plan result req (ok plan) = open_with result plan

abbrev pub bundle_input : OpenRequest → TurnStartBundleInput
bundle_input req = record {
  session_id = req.session_id;
  turn_id = req.turn_id;
  requested_pipeline_version = req.pipeline_version;
  authority_epoch = req.authority_epoch;
}

module _ (sum256 : String → List ℕ) where
  -- From the control plane's admission on.
  unfoldable pub settle_admitted :
      OpenResult → OpenRequest → TurnStartBundle → Authority → Result OpenResult
  settle_admitted result req b a =
      if b.has_cp_admission_decision && not (is_admit b.cp_admission_outcome_kind)
      then deny_with result (cp_outcome req b)
      else settle_plan result req (PlanResolver.resolve sum256 (plan_input req b a))

  -- `if turnStartBundle.HasLeaseDecision { … }`
  unfoldable pub settle_leased :
      OpenResult → OpenRequest → TurnStartBundle → Authority → Result OpenResult
  settle_leased result req b a =
      let gate = Guard.evaluate (guard_input req (leased a b)) in
      if b.has_lease_decision
      then (if gate.allowed
          then settle_admitted result req b (leased a b)
          else gate_denied result "lease authority gate denied but no outcome produced"
              gate.outcome)
      else settle_admitted result req b a

  -- From the answer of the bundle resolver on.
  unfoldable pub settle_bundle :
      OpenResult → OpenRequest → Result TurnStartBundle → Result OpenResult
  settle_bundle result req (err _) =
      plan_materialization_failure result req "turn_start_bundle_resolution_failed"
  settle_bundle result req (ok b) = settle_leased result req b (requested req)

module _ (sum256 : String → List ℕ)
    (resolve_turn_start_bundle : TurnStartBundleInput → Result TurnStartBundle) where
  unfoldable pub settle_guarded : OpenResult → OpenRequest → Result OpenResult
  settle_guarded result req =
      let gate = Guard.evaluate (guard_input req (requested req)) in
      if gate.allowed
      then settle_bundle sum256 result req (resolve_turn_start_bundle (bundle_input req))
      else gate_denied result "authority gate denied but no outcome produced" gate.outcome

  unfoldable pub handle_turn_open_proposed : OpenRequest → Result OpenResult
  handle_turn_open_proposed req =
      let admission = LocalAdmission.evaluate_pre_turn (admission_input req) in
      if admission.allowed
      then settle_guarded proposed req
      else gate_denied proposed "admission denied but no outcome produced" admission.outcome
