-- ===== src/NodeHost/Failures.antt =====
-- What internal/runtime/nodehost/failure.go makes of a failed node, for every request that is complete.
use realtime_speech_pipeline.Base.{
  ◌≡◌, refl, ◌∙◌, String, Bool, true, false, not, ◌||◌, some, List, [], ◌∷◌, ◌++◌, ok, err, arith,
  if◌then◌else◌, ◌>>=◌,
}
use realtime_speech_pipeline.Base.Int.{pos, ltℤ}
use realtime_speech_pipeline.Base.Text.{is_empty}
use realtime_speech_pipeline.EventAbi.Types.{SignalName}
use realtime_speech_pipeline.EventAbi.Signal
use realtime_speech_pipeline.EventAbi.Signal.{ControlSignal}
use realtime_speech_pipeline.EventAbi.Gateway.{
  fill_signal, follows, validate_and_normalize_control_signals,
}
use realtime_speech_pipeline.EventAbi.Gateway.Batches.{IsAccepted, gateway_of_filled}
use realtime_speech_pipeline.Budget
use realtime_speech_pipeline.Budget.{Action, BudgetSpec, or_default}
use realtime_speech_pipeline.NodeHost.{
  NodeFailureInput, NodeFailureResult, node_signal, build_signal, warn_at, exhaust_at, observed,
  node_budget, normalize_result_signals, shaped, shape, handle_failure,
}
use realtime_speech_pipeline.NodeHost.Limits.{
  spec_of, warn_at-positive, exhaust_at-positive, observed-positive, below_both, reversed,
  budget_ordered, budget_reversed, decide_ordered,
}

pub record IsComplete (req : NodeFailureInput) : Type 0 where
  pub session : is_empty req.session_id ≡ false
  pub pipeline : is_empty req.pipeline_version ≡ false
  pub event : is_empty req.event_id ≡ false

-- The signals of a node failure.
data Emits : SignalName → String → Type 0 where
  warning : Emits SignalName.budget_warning "node_budget_threshold_exceeded"
  exhausted : Emits SignalName.budget_exhausted "node_timeout_or_failure"
  degrade : Emits SignalName.degrade "node_timeout_or_failure"
  fallback : Emits SignalName.fallback "node_timeout_or_failure"

node_signal-IsAccepted :
    (req : NodeFailureInput) {name : SignalName} {reason : String}
    → IsComplete req
    → Emits name reason
    → IsAccepted (node_signal req name reason)
unfolding Signal.validation node_signal
node_signal-IsAccepted req c warning = ground arith
node_signal-IsAccepted req c exhausted = ground arith
node_signal-IsAccepted req c degrade = ground arith
node_signal-IsAccepted req c fallback = ground arith

build_signal-ok :
    (req : NodeFailureInput) {name : SignalName} {reason : String}
    → IsComplete req
    → Emits name reason
    → build_signal req name reason ≡ ok (node_signal req name reason)
unfolding build_signal
build_signal-ok req c e = rw (node_signal-IsAccepted req c e) refl

fill-node_signal :
    (req : NodeFailureInput) (name : SignalName) (reason : String)
    → fill_signal (node_signal req name reason) ≡ node_signal req name reason
unfolding fill_signal node_signal
fill-node_signal req name reason = ground arith

node_signals-follow :
    (req : NodeFailureInput) (n m : SignalName) (r s : String)
    → follows (some (node_signal req n r)) (node_signal req m s) ≡ ok tt
unfolding follows node_signal
node_signals-follow req n m r s = ground arith

abbrev budget_signals : NodeFailureInput → List ControlSignal
budget_signals req =
    node_signal req SignalName.budget_warning "node_budget_threshold_exceeded"
    ∷ node_signal req SignalName.budget_exhausted "node_timeout_or_failure"
    ∷ []

-- What a failure is to be shaped into: the action as a signal, or the end of the turn.
abbrev pub planned : Action → NodeFailureInput → NodeFailureResult
planned Action.degrade req =
    shaped (budget_signals req ++ node_signal req SignalName.degrade "node_timeout_or_failure" ∷ [])
planned Action.fallback req =
    shaped
      (budget_signals req ++ node_signal req SignalName.fallback "node_timeout_or_failure" ∷ [])
planned _ req = record {
  signals = budget_signals req;
  terminal = true;
  terminal_reason = "node_timeout_or_failure";
}

module _ (req : NodeFailureInput) (c : IsComplete req) where
  two-pass : validate_and_normalize_control_signals (budget_signals req) ≡ ok (budget_signals req)
  unfolding follows
  two-pass =
      gateway_of_filled (budget_signals req)
        (cc (
          fill-node_signal req SignalName.budget_warning "node_budget_threshold_exceeded",
          fill-node_signal req SignalName.budget_exhausted "node_timeout_or_failure",
        ))
        (node_signal-IsAccepted req c warning, (node_signal-IsAccepted req c exhausted, tt))
        (refl, (node_signals-follow req _ _ _ _, tt))

  three-pass :
      {name : SignalName} {reason : String}
      → Emits name reason
      → validate_and_normalize_control_signals
          (budget_signals req ++ node_signal req name reason ∷ [])
        ≡ ok (budget_signals req ++ node_signal req name reason ∷ [])
  unfolding follows
  three-pass {name} {reason} e =
      gateway_of_filled (budget_signals req ++ node_signal req name reason ∷ [])
        (cc (
          fill-node_signal req SignalName.budget_warning "node_budget_threshold_exceeded",
          fill-node_signal req SignalName.budget_exhausted "node_timeout_or_failure",
          fill-node_signal req name reason,
        ))
        (
          node_signal-IsAccepted req c warning,
          (node_signal-IsAccepted req c exhausted, (node_signal-IsAccepted req c e, tt)),
        )
        (refl, (node_signals-follow req _ _ _ _, (node_signals-follow req _ _ _ _, tt)))

  shape-planned : (a : Action) → shape a req (budget_signals req) ≡ ok (planned a req)
  unfolding shape normalize_result_signals
  shape-planned Action.degrade = rw (build_signal-ok req c degrade, three-pass degrade) refl
  shape-planned Action.fallback = rw (build_signal-ok req c fallback, three-pass fallback) refl
  shape-planned _ = rw two-pass refl

  handled : handle_failure req ≡ (do
    decision ← Budget.evaluate (node_budget req) (record { elapsed_ms = observed req })
    shape decision.action req (budget_signals req))
  unfolding handle_failure
  handled =
      rw
        (
          c.session,
          c.pipeline,
          c.event,
          build_signal-ok req c warning,
          build_signal-ok req c exhausted,
        )
        refl

-- What is done about a failure: before the budget is exhausted, when the budget manager would go on, the
-- turn ends, and only afterwards is anything saved.
abbrev pub remedy : NodeFailureInput → Action
remedy req =
    if ltℤ (observed req) (exhaust_at req)
    then Action.terminate
    else if req.allow_degrade
    then Action.degrade
    else if req.allow_fallback
    then Action.fallback
    else Action.terminate

planned_cases :
    (req : NodeFailureInput) (early late : Bool) (may_degrade may_fall_back : Bool)
    → (early ≡ true → late ≡ true)
    → planned
        (if early
          then Budget.within_budget
          else if late
          then Budget.budget_warning
          else Budget.budget_exhausted (spec_of (pos 1) (pos 1) may_degrade may_fall_back)).action
        req
      ≡ planned
          (if late
            then Action.terminate
            else if may_degrade
            then Action.degrade
            else if may_fall_back
            then Action.fallback
            else Action.terminate)
          req
planned_cases req early late may_degrade may_fall_back h = ground arith

planned-remedy :
    (req : NodeFailureInput)
    → ltℤ (exhaust_at req) (warn_at req) ≡ false
    → planned (Budget.decide (node_budget req) (observed req)).action req ≡ planned (remedy req) req
planned-remedy req ordered =
    rw
      (decide_ordered (warn_at req) (exhaust_at req) (observed req) req.allow_degrade
        req.allow_fallback (warn_at-positive req) (exhaust_at-positive req) (observed-positive req))
      (planned_cases req (ltℤ (observed req) (warn_at req)) (ltℤ (observed req) (exhaust_at req))
        req.allow_degrade req.allow_fallback
        (below_both (observed req) (warn_at req) (exhaust_at req) ordered))

-- Whether the failure ends the turn: before the exhaustion, or where nothing else is allowed.
remedy-ends :
    (req : NodeFailureInput)
    → (planned (remedy req) req).terminal
      ≡ (ltℤ (observed req) (exhaust_at req) || not (req.allow_degrade || req.allow_fallback))
remedy-ends req = ground arith

-- For a complete request with budget limits that end up in order, the node host never fails: it gives
-- the two budget signals, also the one of an exhausted budget that is not, and, once the budget is
-- exhausted, degrade or else fallback where that is allowed; in every other case the failure is terminal,
-- with the reason that says so. It is so exactly before the exhaustion, whatever is allowed, and after it
-- where neither degrade nor fallback is allowed; the contract ends a turn only in the second case.
pub handle_failure-planned :
    (req : NodeFailureInput)
    → IsComplete req
    → ltℤ (exhaust_at req) (warn_at req) ≡ false
    → (handle_failure req ≡ ok (planned (remedy req) req))
      × ((planned (remedy req) req).terminal
          ≡ (ltℤ (observed req) (exhaust_at req) || not (req.allow_degrade || req.allow_fallback)))
handle_failure-planned req c ordered = (
  handled req c
      ∙ rw
          (
            budget_ordered (warn_at req) (exhaust_at req) (observed req) req.allow_degrade
                req.allow_fallback (warn_at-positive req) (exhaust_at-positive req)
                (observed-positive req) ordered,
            shape-planned req c (Budget.decide (node_budget req) (observed req)).action,
            planned-remedy req ordered,
          )
          refl,
  remedy-ends req,
)

-- A complete request that sets a warning above 1500 ms and leaves the exhaustion below it (unset, say)
-- is not shaped at all: the default exhaustion of 1500 ms stands below the warning, and the budget
-- manager refuses it with an error.
pub handle_failure-refuses :
    (req : NodeFailureInput)
    → IsComplete req
    → ltℤ (pos 1500) req.node_budget_warning_ms ≡ true
    → ltℤ req.node_budget_exhaust_ms req.node_budget_warning_ms ≡ true
    → handle_failure req ≡ err "warn_at_ms must be <= exhaust_at_ms"
handle_failure-refuses req c high below =
    handled req c
    ∙ rw
        (budget_reversed (warn_at req) (exhaust_at req) (observed req) req.allow_degrade
          req.allow_fallback (warn_at-positive req) (exhaust_at-positive req)
          (observed-positive req) (reversed req high below))
        refl
