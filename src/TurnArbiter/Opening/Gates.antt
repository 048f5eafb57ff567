-- ===== src/TurnArbiter/Opening/Gates.antt =====
-- The gates of HandleTurnOpenProposed in internal/runtime/turnarbiter/arbiter.go, each on its own: what
-- lets a turn be opened past it.
use realtime_speech_pipeline.Base.{
  ◌≡◌, ◌∙◌, ap, refl, String, Bool, true, false, not, ◌&&◌, Option, none, some, Result, ok, err,
  if◌then◌else◌, >>-eq-ok, >>=-eq-ok, >>-pass,
}
use realtime_speech_pipeline.ControlPlane.Outcome
use realtime_speech_pipeline.ControlPlane.Outcome.{DecisionOutcome}
use realtime_speech_pipeline.ControlPlane.Turn
use realtime_speech_pipeline.ControlPlane.Turn.{TurnState, TransitionTrigger}
use realtime_speech_pipeline.ControlPlane.TurnPlan.{ResolvedTurnPlan, validate_plan}
use realtime_speech_pipeline.TurnArbiter.{
  OpenRequest, OpenResult, trigger_from_outcome, validate_transitions,
}
use realtime_speech_pipeline.TurnArbiter.Opening.{
  proposed, deny_with, gate_denied, back_to_idle, plan_materialization_failure, Authority,
  open_with, activated, settle_plan,
}

abbrev pub Opened : Result OpenResult → ResolvedTurnPlan → Type 0
Opened answer plan = answer ≡ ok (activated proposed plan)

pub never_denied :
    (d : DecisionOutcome) (plan : ResolvedTurnPlan) → Opened (deny_with proposed d) plan → ⊥
unfolding deny_with
never_denied d plan h =
    let (_, h1) = >>-eq-ok (Outcome.validate d) _ h in
    let (t, _, h2) = >>=-eq-ok (trigger_from_outcome d.outcome_kind) _ h1 in
    let (_, same) = >>-eq-ok (validate_transitions (back_to_idle proposed d t).transitions) _ h2 in
    apart _ _ same refl refl
  where
    apart :
        (x y : OpenResult) → ok x ≡ ok y → x.state ≡ TurnState.idle → y.state ≡ TurnState.active → ⊥
    apart x y e i a = cc

-- A gate lets a turn be opened exactly when it allows it and what comes next opens it.
pub Gate-opens :
    (allowed : Bool) (o : Option DecisionOutcome) (missing : String) (next : Result OpenResult)
    (plan : ResolvedTurnPlan)
    → Opened (if allowed then next else gate_denied proposed missing o) plan
    → (allowed ≡ true) × Opened next plan
unfolding gate_denied
Gate-opens true o missing next plan h = (refl, h)
Gate-opens false none missing next plan h = absurd cc
Gate-opens false (some d) missing next plan h = absurd (never_denied d plan h)

pub Gate-passes :
    (allowed : Bool) (x y : Result OpenResult) (plan : ResolvedTurnPlan)
    → allowed ≡ true
    → Opened x plan
    → Opened (if allowed then x else y) plan
Gate-passes true x y plan e h = h
Gate-passes false x y plan e h = absurd cc

same_plan :
    (p q : ResolvedTurnPlan) → ok (activated proposed p) ≡ ok (activated proposed q) → ok p ≡ ok q
same_plan p q h = ap plan_of h
  where
    plan_of : Result OpenResult → Result ResolvedTurnPlan
    plan_of (ok r) = elim r.plan [ some x ↦ ok x | none ↦ err "" ]
    plan_of (err m) = err m

pub settle_plan-opens :
    (req : OpenRequest) (answer : Result ResolvedTurnPlan) (plan : ResolvedTurnPlan)
    → Opened (settle_plan proposed req answer) plan
    → answer ≡ ok plan
unfolding settle_plan plan_materialization_failure open_with
settle_plan-opens req (err e) plan h = absurd (never_denied _ plan h)
settle_plan-opens req (ok p) plan h =
    let (_, h1) = >>-eq-ok (validate_plan p) _ h in
    let (_, same) = >>-eq-ok (validate_transitions (activated proposed p).transitions) _ h1 in
    same_plan p plan same

activated-valid :
    (plan : ResolvedTurnPlan) → validate_transitions (activated proposed plan).transitions ≡ ok tt
unfolding validate_transitions Turn.validate
activated-valid plan = refl

pub open_with-opens :
    (plan : ResolvedTurnPlan) → validate_plan plan ≡ ok tt → Opened (open_with proposed plan) plan
unfolding open_with
open_with-opens plan h = >>-pass _ _ h ∙ >>-pass _ _ (activated-valid plan)

-- A denial under a condition does not open a turn.
pub unless_denied :
    (b : Bool) (d : DecisionOutcome) (next : Result OpenResult) (plan : ResolvedTurnPlan)
    → Opened (if b then deny_with proposed d else next) plan
    → (b ≡ false) × Opened next plan
unless_denied true d next plan h = absurd (never_denied d plan h)
unless_denied false d next plan h = (refl, h)

pub unless-passes :
    (b : Bool) (x y : Result OpenResult) (plan : ResolvedTurnPlan)
    → b ≡ false
    → Opened y plan
    → Opened (if b then x else y) plan
unless-passes true x y plan e h = absurd cc
unless-passes false x y plan e h = h

-- A gate that is asked only if there is a lease, and the authority that comes out of it.
pub leased_step :
    (has allowed : Bool) (o : Option DecisionOutcome) (missing : String)
    (next : Authority → Result OpenResult) (under plain : Authority) (plan : ResolvedTurnPlan)
    → Opened
        (if has
          then (if allowed then next under else gate_denied proposed missing o)
          else next plain)
        plan
    → ((has && not allowed) ≡ false) × Opened (next (if has then under else plain)) plan
leased_step true allowed o missing next under plain plan h =
    let (e, settled) = Gate-opens allowed o missing _ plan h in (ap not e, settled)
leased_step false allowed o missing next under plain plan h = (refl, h)

pub leased-passes :
    (has allowed : Bool) (other : Result OpenResult) (next : Authority → Result OpenResult)
    (under plain : Authority) (plan : ResolvedTurnPlan)
    → (has && not allowed) ≡ false
    → Opened (next (if has then under else plain)) plan
    → Opened (if has then (if allowed then next under else other) else next plain) plan
leased-passes true true other next under plain plan e h = h
leased-passes true false other next under plain plan e h = absurd cc
leased-passes false allowed other next under plain plan e h = h
