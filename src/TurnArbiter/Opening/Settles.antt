-- ===== src/TurnArbiter/Opening/Settles.antt =====
-- A proposed turn is opened or denied: what HandleTurnOpenProposed of
-- internal/runtime/turnarbiter/arbiter.go returns.
use realtime_speech_pipeline.Base.{
  ℕ, ◌≡◌, ◌⊎◌, inl, inr, refl, String, Bool, true, false, not, ◌&&◌, Option, none, some, List,
  Result, ok, err, arith, Bool-cases, if◌then◌else◌,
}
use realtime_speech_pipeline.Base.Text.{is_empty}
use realtime_speech_pipeline.ControlPlane.Outcome
use realtime_speech_pipeline.ControlPlane.Outcome.{
  OutcomeKind, OutcomePhase, OutcomeScope, DecisionOutcome,
}
use realtime_speech_pipeline.ControlPlane.Turn
use realtime_speech_pipeline.ControlPlane.Turn.{TurnState, TransitionTrigger}
use realtime_speech_pipeline.ControlPlane.Turn.Lifecycle.{Run}
use realtime_speech_pipeline.ControlPlane.TurnPlan.{ResolvedTurnPlan, validate_plan}
use realtime_speech_pipeline.LocalAdmission
use realtime_speech_pipeline.LocalAdmission.Decisions.{IsStamped}
use realtime_speech_pipeline.Guard
use realtime_speech_pipeline.PlanResolver
use realtime_speech_pipeline.PlanResolver.Materialized.{resolve-valid}
use realtime_speech_pipeline.TurnArbiter.{
  OpenRequest, OpenResult, TurnStartBundle, TurnStartBundleInput, is_admit, validate_bundle,
  trigger_from_outcome, transition, validate_transitions,
}
use realtime_speech_pipeline.TurnArbiter.Opening.{
  proposed, deny_with, gate_denied, back_to_idle, failure_outcome, plan_materialization_failure,
  admission_input, guard_input, Authority, requested, leased, cp_outcome, plan_input, open_with,
  activated, settle_plan, bundle_input, settle_admitted, settle_leased, settle_bundle,
  settle_guarded, handle_turn_open_proposed,
}

-- The turn is active, with a plan that is accepted and without a decision.
abbrev pub IsOpened : OpenResult → Type 0
IsOpened r =
    (r.state ≡ TurnState.active)
    × (r.decision ≡ none)
    × ((plan : ResolvedTurnPlan) × (r.plan ≡ some plan) × (validate_plan plan ≡ ok tt))

-- The turn is idle again, without a plan and with a decision before the turn that is accepted.
abbrev pub IsDenied : OpenResult → Type 0
IsDenied r =
    (r.state ≡ TurnState.idle)
    × (r.plan ≡ none)
    × ((d : DecisionOutcome) × (r.decision ≡ some d)
        × (Outcome.validate d ≡ ok tt)
        × (d.phase ≡ OutcomePhase.pre_turn))

-- A result whose transitions lead from idle to its state.
abbrev pub Settled : OpenResult → Type 0
Settled r = Run TurnState.idle r.transitions r.state × (IsOpened r ⊎ IsDenied r)

abbrev Settles : Result OpenResult → Type 0
Settles answer = (r : OpenResult) × (answer ≡ ok r) × Settled r

-- The kinds that a denied turn can have.
abbrev pub denies : OutcomeKind → Bool
denies OutcomeKind.reject = true
denies OutcomeKind.defer = true
denies OutcomeKind.stale_epoch_reject = true
denies OutcomeKind.deauthorized_drain = true
denies _ = false

abbrev IsDenial : DecisionOutcome → Type 0
IsDenial d =
    (Outcome.validate d ≡ ok tt)
    × (denies d.outcome_kind ≡ true)
    × (d.phase ≡ OutcomePhase.pre_turn)

-- The trigger of a denial takes an opening turn back to idle.
trigger_of_denial :
    (k : OutcomeKind)
    → denies k ≡ true
    → (t : TransitionTrigger) × (trigger_from_outcome k ≡ ok t)
      × (Turn.validate (transition TurnState.opening t TurnState.idle) ≡ ok tt)
unfolding trigger_from_outcome Turn.validate
trigger_of_denial OutcomeKind.reject h = (TransitionTrigger.reject, refl, refl)
trigger_of_denial OutcomeKind.defer h = (TransitionTrigger.defer, refl, refl)
trigger_of_denial OutcomeKind.stale_epoch_reject h =
    (TransitionTrigger.stale_epoch_reject, refl, refl)
trigger_of_denial OutcomeKind.deauthorized_drain h =
    (TransitionTrigger.deauthorized_drain, refl, refl)
trigger_of_denial _ h = cc

proposal-valid :
    Turn.validate (transition TurnState.idle TransitionTrigger.turn_open_proposed TurnState.opening)
    ≡ ok tt
unfolding Turn.validate
proposal-valid = refl

opening-valid :
    Turn.validate (transition TurnState.opening TransitionTrigger.turn_open TurnState.active)
    ≡ ok tt
unfolding Turn.validate
opening-valid = refl

deny_with-Settles : (d : DecisionOutcome) → IsDenial d → Settles (deny_with proposed d)
unfolding deny_with validate_transitions
deny_with-Settles d (valid, kind, phase) =
    let (t, e, allowed) = trigger_of_denial d.outcome_kind kind in
    (
      back_to_idle proposed d t,
      rw (valid, e, proposal-valid, allowed) refl,
      ((refl, proposal-valid, (refl, allowed, refl)), inr (refl, refl, (d, refl, valid, phase))),
    )

open_with-Settles :
    (p : ResolvedTurnPlan) → validate_plan p ≡ ok tt → Settles (open_with proposed p)
unfolding open_with validate_transitions
open_with-Settles p valid = (
  activated proposed p,
  rw (valid, proposal-valid, opening-valid) refl,
  ((refl, proposal-valid, (refl, opening-valid, refl)), inl (refl, refl, (p, refl, valid))),
)

-- What a gate answers: nothing to say, or a denial.
abbrev Gate : Bool → Option DecisionOutcome → Type 0
Gate true o = Unit
Gate false none = ⊥
Gate false (some d) = IsDenial d

Gate-Settles :
    (allowed : Bool) (o : Option DecisionOutcome) (missing : String) (next : Result OpenResult)
    → Gate allowed o
    → Settles next
    → Settles (if allowed then next else gate_denied proposed missing o)
unfolding gate_denied
Gate-Settles true o missing next g n = n
Gate-Settles false none missing next g n = absurd g
Gate-Settles false (some d) missing next g n = deny_with-Settles d g

either-Settles :
    (b : Bool) (x y : Result OpenResult) → Settles x → Settles y → Settles (if b then x else y)
either-Settles true x y sx sy = sx
either-Settles false x y sx sy = sy

admission-Gate :
    (req : LocalAdmission.PreTurnInput)
    → IsStamped req.session_id req.event_id req.runtime_timestamp_ms req.wall_clock_timestamp_ms
    → Gate
        (LocalAdmission.evaluate_pre_turn req).allowed
        (LocalAdmission.evaluate_pre_turn req).outcome
unfolding LocalAdmission.evaluate_pre_turn LocalAdmission.evaluate_capacity
    LocalAdmission.admission_outcome Outcome.validation
admission-Gate req s = ground arith

guard-Gate :
    (req : Guard.PreTurnInput)
    → IsStamped req.session_id req.event_id req.runtime_timestamp_ms req.wall_clock_timestamp_ms
    → Gate (Guard.evaluate req).allowed (Guard.evaluate req).outcome
unfolding Guard.evaluate Guard.authority_outcome Outcome.validation
guard-Gate req s = ground arith

-- The ids and times of the request are there, and so is the turn's id.
abbrev pub IsNamed : OpenRequest → Type 0
IsNamed req =
    IsStamped req.session_id req.event_id req.runtime_timestamp_ms req.wall_clock_timestamp_ms
    × (is_empty req.turn_id ≡ false)

failure-IsDenial :
    (req : OpenRequest) (reason : String)
    → IsNamed req
    → is_empty reason ≡ false
    → IsDenial (failure_outcome req reason)
unfolding failure_outcome Outcome.validation
failure-IsDenial req reason (s, t) r = ground arith

-- What a valid bundle says of an admission that is not to admit.
cp-IsDenial :
    (req : OpenRequest) (b : TurnStartBundle)
    → IsNamed req
    → validate_bundle b ≡ ok tt
    → (b.has_cp_admission_decision && not (is_admit b.cp_admission_outcome_kind)) ≡ true
    → IsDenial (cp_outcome req b)
unfolding cp_outcome validate_bundle Outcome.validation
cp-IsDenial req b (s, t) v h = ground arith

settle_plan-Settles :
    (req : OpenRequest) (answer : Result ResolvedTurnPlan)
    → IsNamed req
    → ((p : ResolvedTurnPlan) → answer ≡ ok p → validate_plan p ≡ ok tt)
    → Settles (settle_plan proposed req answer)
unfolding settle_plan plan_materialization_failure
settle_plan-Settles req (err e) n valid = deny_with-Settles _ (failure-IsDenial req _ n refl)
settle_plan-Settles req (ok p) n valid = open_with-Settles p (valid p refl)

module _ (sum256 : String → List ℕ) where
  settle_admitted-Settles :
      (req : OpenRequest) (b : TurnStartBundle) (a : Authority)
      → IsNamed req
      → validate_bundle b ≡ ok tt
      → Settles (settle_admitted sum256 proposed req b a)
  unfolding settle_admitted
  settle_admitted-Settles req b a n v =
      elim (Bool-cases
        (b.has_cp_admission_decision && not (is_admit b.cp_admission_outcome_kind))) [
          | inl e ↦ rw e (deny_with-Settles _ (cp-IsDenial req b n v e))
          | inr d ↦ rw d (
              settle_plan-Settles req (PlanResolver.resolve sum256 (plan_input req b a)) n
                (resolve-valid sum256 (plan_input req b a)))
        ]

  settle_leased-Settles :
      (req : OpenRequest) (b : TurnStartBundle) (a : Authority)
      → IsNamed req
      → validate_bundle b ≡ ok tt
      → Settles (settle_leased sum256 proposed req b a)
  unfolding settle_leased guard_input
  settle_leased-Settles req b a n v =
      either-Settles b.has_lease_decision _ _
        (Gate-Settles _ _ _ _ (guard-Gate (guard_input req (leased a b)) n.0)
          (settle_admitted-Settles req b (leased a b) n v))
        (settle_admitted-Settles req b a n v)

  settle_bundle-Settles :
      (req : OpenRequest) (answer : Result TurnStartBundle)
      → IsNamed req
      → ((b : TurnStartBundle) → answer ≡ ok b → validate_bundle b ≡ ok tt)
      → Settles (settle_bundle sum256 proposed req answer)
  unfolding settle_bundle plan_materialization_failure
  settle_bundle-Settles req (err e) n valid = deny_with-Settles _ (failure-IsDenial req _ n refl)
  settle_bundle-Settles req (ok b) n valid =
      settle_leased-Settles req b (requested req) n (valid b refl)

-- A proposal that names its session, turn and event, at times that are not negative, is always settled,
-- as long as every bundle that the bundle resolver returns is a valid one: the turn is then active, with
-- an accepted plan and no decision, or idle again, with no plan and an accepted decision before the turn;
-- and the transitions that are reported lead from idle to that state, each of them accepted.
pub handle_turn_open_proposed-Settled :
    (sum256 : String → List ℕ) (resolver : TurnStartBundleInput → Result TurnStartBundle)
    (req : OpenRequest)
    → IsNamed req
    → ((b : TurnStartBundle) → resolver (bundle_input req) ≡ ok b → validate_bundle b ≡ ok tt)
    → (r : OpenResult) × (handle_turn_open_proposed sum256 resolver req ≡ ok r)
      × Run TurnState.idle r.transitions r.state
      × (IsOpened r ⊎ IsDenied r)
unfolding handle_turn_open_proposed settle_guarded admission_input guard_input
handle_turn_open_proposed-Settled sum256 resolver req n valid =
    let guarded =
      Gate-Settles _ _ "authority gate denied but no outcome produced" _
        (guard-Gate (guard_input req (requested req)) n.0)
        (settle_bundle-Settles sum256 req (resolver (bundle_input req)) n valid) in
    let (r, e, settled) =
      Gate-Settles _ _ "admission denied but no outcome produced" _
        (admission-Gate (admission_input req) n.0) guarded in
    (r, e, settled.0, settled.1)
