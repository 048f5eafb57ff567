-- ===== src/ControlPlane/Outcome.antt =====
-- api/controlplane/types.go: DecisionOutcome and its validation. An enumeration of Go strings is a
-- data type with the source's constants; its last constructor is any other string.
use realtime_speech_pipeline.Base.{
  String, Bool, true, false, not, ◌&&◌, ◌||◌, Option, none, some, Result, ok, ◌>>◌, refuse_if,
}
use realtime_speech_pipeline.Base.Int.{ℤ, is_negative}
use realtime_speech_pipeline.Base.Text.{is_empty}
pub mod Rules

pub data OutcomeKind : Type 0 where
  admit reject defer shed stale_epoch_reject deauthorized_drain : OutcomeKind
  other : String → OutcomeKind

pub data OutcomePhase : Type 0 where
  pre_turn scheduling_point active_turn : OutcomePhase
  other : String → OutcomePhase

pub data OutcomeScope : Type 0 where
  tenant session turn edge_enqueue edge_dequeue node_dispatch : OutcomeScope
  other : String → OutcomeScope

pub data OutcomeEmitter : Type 0 where
  rk24 rk25 cp05 : OutcomeEmitter
  other : String → OutcomeEmitter

pub record DecisionOutcome : Type 0 where
  pub outcome_kind : OutcomeKind
  pub phase : OutcomePhase
  pub scope : OutcomeScope
  pub session_id : String
  pub turn_id : String
  pub event_id : String
  pub runtime_timestamp_ms : ℤ
  pub wall_clock_ms : ℤ
  pub emitted_by : OutcomeEmitter
  pub authority_epoch : Option ℤ
  pub reason : String

abbrev pub is_outcome_kind : OutcomeKind → Bool
is_outcome_kind (OutcomeKind.other _) = false
is_outcome_kind _ = true

abbrev pub is_outcome_phase : OutcomePhase → Bool
is_outcome_phase (OutcomePhase.other _) = false
is_outcome_phase _ = true

abbrev pub is_outcome_scope : OutcomeScope → Bool
is_outcome_scope (OutcomeScope.other _) = false
is_outcome_scope _ = true

abbrev pub is_outcome_emitter : OutcomeEmitter → Bool
is_outcome_emitter (OutcomeEmitter.other _) = false
is_outcome_emitter _ = true

-- Comparisons with one constant, or with the constants of one condition.
abbrev pub is_rk24 : OutcomeEmitter → Bool
is_rk24 OutcomeEmitter.rk24 = true
is_rk24 _ = false

abbrev is_rk25 : OutcomeEmitter → Bool
is_rk25 OutcomeEmitter.rk25 = true
is_rk25 _ = false

abbrev is_cp05 : OutcomeEmitter → Bool
is_cp05 OutcomeEmitter.cp05 = true
is_cp05 _ = false

abbrev is_pre_turn : OutcomePhase → Bool
is_pre_turn OutcomePhase.pre_turn = true
is_pre_turn _ = false

abbrev is_scheduling_point : OutcomePhase → Bool
is_scheduling_point OutcomePhase.scheduling_point = true
is_scheduling_point _ = false

abbrev is_active_turn : OutcomePhase → Bool
is_active_turn OutcomePhase.active_turn = true
is_active_turn _ = false

abbrev is_turn : OutcomeScope → Bool
is_turn OutcomeScope.turn = true
is_turn _ = false

abbrev is_session : OutcomeScope → Bool
is_session OutcomeScope.session = true
is_session _ = false

abbrev is_tenant : OutcomeScope → Bool
is_tenant OutcomeScope.tenant = true
is_tenant _ = false

-- edge_enqueue, edge_dequeue or node_dispatch
abbrev pub is_scheduling_scope : OutcomeScope → Bool
is_scheduling_scope OutcomeScope.edge_enqueue = true
is_scheduling_scope OutcomeScope.edge_dequeue = true
is_scheduling_scope OutcomeScope.node_dispatch = true
is_scheduling_scope _ = false

abbrev is_none : Option ℤ → Bool
is_none none = true
is_none (some _) = false

-- The switch on the kind: who may emit it.
unfoldable pub validate_kind : OutcomeKind → DecisionOutcome → Result (Unit {0})
validate_kind OutcomeKind.shed d =
    refuse_if (not (is_rk25 d.emitted_by) || not (is_scheduling_point d.phase))
      "shed requires emitted_by=RK-25 and phase=scheduling_point"
validate_kind OutcomeKind.stale_epoch_reject d = do
  refuse_if (not (is_rk24 d.emitted_by)) "%s must be emitted by RK-24"
  refuse_if (is_none d.authority_epoch) "authority_epoch is required for authority outcomes"
validate_kind OutcomeKind.deauthorized_drain d = do
  refuse_if (not (is_rk24 d.emitted_by)) "%s must be emitted by RK-24"
  refuse_if (is_none d.authority_epoch) "authority_epoch is required for authority outcomes"
validate_kind (OutcomeKind.other _) d = ok tt
validate_kind _ d =
    refuse_if (not (is_rk25 d.emitted_by) && not (is_cp05 d.emitted_by))
      "%s must be emitted by RK-25 or CP-05"

unfoldable pub validate_cp05 : OutcomeEmitter → DecisionOutcome → Result (Unit {0})
validate_cp05 OutcomeEmitter.cp05 d = do
  refuse_if (not (is_pre_turn d.phase)) "CP-05 outcomes must be pre_turn"
  refuse_if (not (is_tenant d.scope) && not (is_session d.scope))
      "CP-05 pre_turn scope must be tenant|session"
validate_cp05 _ d = ok tt

-- The switch on the phase: which scopes it allows.
unfoldable pub validate_phase : OutcomePhase → DecisionOutcome → Result (Unit {0})
validate_phase OutcomePhase.scheduling_point d =
    refuse_if (not (is_scheduling_scope d.scope))
      "scheduling_point scope must be edge_enqueue|edge_dequeue|node_dispatch"
validate_phase OutcomePhase.active_turn d = do
  refuse_if (not (is_turn d.scope) && not (is_scheduling_scope d.scope))
      "active_turn scope must be turn or scheduling scope"
  refuse_if (is_empty d.turn_id) "turn_id is required for active_turn"
validate_phase OutcomePhase.pre_turn d =
    refuse_if (not (is_tenant d.scope) && not (is_session d.scope) && not (is_turn d.scope))
      "pre_turn scope must be tenant|session|turn"
validate_phase (OutcomePhase.other _) d = ok tt

unfoldable pub validate_deauthorized : OutcomeKind → DecisionOutcome → Result (Unit {0})
validate_deauthorized OutcomeKind.deauthorized_drain d = do
  refuse_if (not (is_pre_turn d.phase) && not (is_active_turn d.phase))
      "deauthorized_drain phase must be pre_turn|active_turn"
  refuse_if (is_active_turn d.phase && not (is_turn d.scope))
      "deauthorized_drain active_turn scope must be turn"
  refuse_if (is_pre_turn d.phase && not (is_session d.scope) && not (is_turn d.scope))
      "deauthorized_drain pre_turn scope must be session|turn"
validate_deauthorized _ d = ok tt

unfoldable pub validate_stale_epoch : OutcomeKind → DecisionOutcome → Result (Unit {0})
validate_stale_epoch OutcomeKind.stale_epoch_reject d = do
  refuse_if (not (is_pre_turn d.phase) && not (is_scheduling_point d.phase))
      "stale_epoch_reject phase must be pre_turn|scheduling_point"
  refuse_if (is_pre_turn d.phase && not (is_session d.scope) && not (is_turn d.scope))
      "stale_epoch_reject pre_turn scope must be session|turn"
validate_stale_epoch _ d = ok tt

unfoldable pub validate : DecisionOutcome → Result (Unit {0})
validate d = do
  refuse_if
      (not (is_outcome_kind d.outcome_kind)
        || not (is_outcome_phase d.phase)
        || not (is_outcome_scope d.scope)
        || not (is_outcome_emitter d.emitted_by))
      "invalid enum value in decision_outcome"
  refuse_if (is_empty d.session_id || is_empty d.event_id || is_empty d.reason)
      "session_id, event_id, and reason are required"
  refuse_if (is_negative d.runtime_timestamp_ms || is_negative d.wall_clock_ms)
      "timestamps must be >= 0"
  validate_kind d.outcome_kind d
  validate_cp05 d.emitted_by d
  validate_phase d.phase d
  refuse_if (is_turn d.scope && is_empty d.turn_id) "turn_id is required when scope=turn"
  validate_deauthorized d.outcome_kind d
  validate_stale_epoch d.outcome_kind d
  ok tt

-- Opens the whole validation.
unfoldable pub validation : Unit {0}
unfolding validate validate_kind validate_cp05 validate_phase validate_deauthorized
    validate_stale_epoch
validation = tt
