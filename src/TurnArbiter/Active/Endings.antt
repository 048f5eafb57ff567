-- ===== src/TurnArbiter/Active/Endings.antt =====
-- How internal/runtime/turnarbiter/arbiter.go ends an active turn.
use realtime_speech_pipeline.Base.{
  ◌≡◌, refl, sym, ap, ◌∙◌, String, Bool, true, false, not, Option, none, some, List, [], ◌∷◌, ◌++◌,
  Result, ok, err, >>-eq-ok, is_err, if◌then◌else◌,
}
use realtime_speech_pipeline.ControlPlane.Outcome
use realtime_speech_pipeline.ControlPlane.Turn
use realtime_speech_pipeline.ControlPlane.Turn.{TurnState, TransitionTrigger}
use realtime_speech_pipeline.ControlPlane.Turn.Lifecycle.{Run}
use realtime_speech_pipeline.EventAbi.Signal.{ControlSignal}
use realtime_speech_pipeline.Timeline.Recorder.{Recorder}
use realtime_speech_pipeline.TurnArbiter.{
  LifecycleEvent, TurnStartBundle, TurnStartBundleInput, transition,
}
use realtime_speech_pipeline.TurnArbiter.Drafts.{ActiveInput}
use realtime_speech_pipeline.TurnArbiter.Evidence.{append_baseline_evidence}
use realtime_speech_pipeline.TurnArbiter.Active.{
  ActiveResult, unchanged, event, ending, validated, validate_active_result, validate_signals,
  revoke_outcome, revoked, aborted, committed, disconnect_signals, lost_connection,
  finalize_terminal, abort_with, handle_revoked, handle_disconnect, handle_active,
}

abbrev pub Causes : Type 0
Causes = List (Bool × LifecycleEvent)

-- What can end a turn, in the order of precedence, with the event that it ends by.
abbrev pub causes : ActiveInput → Causes
causes req =
    (req.authority_revoked, event "abort" "authority_loss")
    ∷ (req.cancel_accepted, event "abort" "cancelled")
    ∷ (req.provider_failure, event "abort" "provider_failure")
    ∷ (req.node_timeout_or_failure, event "abort" "node_timeout_or_failure")
    ∷ (req.transport_disconnect_or_stall, event "abort" "transport_disconnect_or_stall")
    ∷ (req.baseline_evidence_append_failed, event "abort" "recording_evidence_unavailable")
    ∷ (req.no_legal_continue_or_fallback, event "abort" "deterministic_reason")
    ∷ (req.terminal_success_ready, event "commit" "")
    ∷ []

abbrev pub first_cause : Causes → Option LifecycleEvent
first_cause [] = none
first_cause ((holds, e) ∷ rest) = if holds then some e else first_cause rest

abbrev pub Answer : Type 0
Answer = Option Recorder × Result ActiveResult

-- The turn is closed; its last two events are the one that ends it, and `close`.
abbrev pub ClosedBy : LifecycleEvent → ActiveResult → Type 0
ClosedBy e r =
    (r.state ≡ TurnState.closed)
    × ((front : List LifecycleEvent) × (r.events ≡ front ++ e ∷ event "close" "" ∷ []))

abbrev pub unavailable : LifecycleEvent
unavailable = event "abort" "recording_evidence_unavailable"

-- Without evidence nothing else is left of the events and of the decision.
abbrev pub Drops : (recorded : Bool) → ActiveResult → Type 0
Drops true r = Unit
Drops false r = (r.decision ≡ none) × (r.events ≡ unavailable ∷ event "close" "" ∷ [])

module _ (resolver : TurnStartBundleInput → Result TurnStartBundle) (req : ActiveInput)
    (recorder : Option Recorder) where
  -- The evidence of the ending could be recorded.
  abbrev pub is_recorded : LifecycleEvent → Bool
  is_recorded e = not (is_err (append_baseline_evidence resolver req e.name e.reason recorder).1)

  -- What the result must be when the first cause is this one.
  abbrev pub Ends : Option LifecycleEvent → ActiveResult → Type 0
  Ends none r = r ≡ unchanged
  Ends (some e) r =
      Run TurnState.active r.transitions TurnState.closed
      × ClosedBy (if is_recorded e then e else unavailable) r
      × (validate_signals r.control_lane ≡ ok tt)
      × Drops (is_recorded e) r

  abbrev Told : Option LifecycleEvent → Answer → Type 0
  Told cause out = (r : ActiveResult) → out.1 ≡ ok r → Ends cause r

-- The trigger is one that ends an active turn.
abbrev pub Terminal : TransitionTrigger → Type 0
Terminal trigger = Turn.validate (transition TurnState.active trigger TurnState.terminal) ≡ ok tt

abort-Terminal : Terminal TransitionTrigger.abort
unfolding Turn.validate
abort-Terminal = refl

commit-Terminal : Terminal TransitionTrigger.commit
unfolding Turn.validate
commit-Terminal = refl

closing :
    Turn.validate (transition TurnState.terminal TransitionTrigger.close TurnState.closed) ≡ ok tt
unfolding Turn.validate
closing = refl

pub validated-eq-ok :
    (result r : ActiveResult)
    → validated result ≡ ok r
    → (r ≡ result) × (validate_signals result.control_lane ≡ ok tt)
unfolding validated validate_active_result
validated-eq-ok result r h =
    let (valid, same) = >>-eq-ok (validate_active_result result) _ h in
    (injective result r same, (>>-eq-ok _ _ valid).1)
  where
    injective : (p q : ActiveResult) → ok p ≡ ok q → q ≡ p
    injective p q e = cc

-- A result that no transition and only its last two events have been written to.
abbrev pub Unfinished : ActiveResult → LifecycleEvent → Type 0
Unfinished result e =
    (result.transitions ≡ [])
    × ((front : List LifecycleEvent) × (result.events ≡ front ++ e ∷ event "close" "" ∷ []))

abbrev EndsBy : (recorded : Bool) → LifecycleEvent → ActiveResult → Type 0
EndsBy recorded e r =
    Run TurnState.active r.transitions TurnState.closed
    × ClosedBy (if recorded then e else unavailable) r
    × (validate_signals r.control_lane ≡ ok tt)
    × Drops recorded r

ending-EndsBy :
    (result : ActiveResult) (e : LifecycleEvent) (trigger : TransitionTrigger)
    (answer : Result (Unit {0}))
    → Unfinished result e
    → Terminal trigger
    → validate_signals result.control_lane ≡ ok tt
    → EndsBy (not (is_err answer)) e (ending result trigger answer)
ending-EndsBy result e trigger (ok tt) (blank_start, tail) t signals =
    (rw blank_start (refl, t, (refl, closing, refl)), (refl, tail), signals, tt)
ending-EndsBy result e trigger (err m) u t signals =
    ((refl, abort-Terminal, (refl, closing, refl)), (refl, ([], refl)), signals, (refl, refl))

module _ (resolver : TurnStartBundleInput → Result TurnStartBundle) (req : ActiveInput)
    (recorder : Option Recorder) where
  finalize-Told :
      (result : ActiveResult) (e : LifecycleEvent) (trigger : TransitionTrigger)
      → Unfinished result e
      → Terminal trigger
      → Told resolver req recorder
          (some e)
          (finalize_terminal resolver req result e.name e.reason trigger recorder)
  unfolding finalize_terminal
  finalize-Told result e trigger u t r h =
      let answer = (append_baseline_evidence resolver req e.name e.reason recorder).1 in
      let (same, signals) = validated-eq-ok (ending result trigger answer) r h in
      let lane : (ending result trigger answer).control_lane ≡ result.control_lane =
        lane_kept result trigger answer in
      rw same (ending-EndsBy result e trigger answer u t (ap validate_signals (sym lane) ∙ signals))
    where
      lane_kept :
          (result : ActiveResult) (trigger : TransitionTrigger) (answer : Result (Unit {0}))
          → (ending result trigger answer).control_lane ≡ result.control_lane
      lane_kept result trigger (ok tt) = refl
      lane_kept result trigger (err m) = refl

  -- What holds of an error and of every ending, each under its cause, holds of the whole handler under
  -- the first cause.
  module _ (P : Option LifecycleEvent → Answer → Type 0)
      (refused : (cause : Option LifecycleEvent) (m : String) → P cause (recorder, err m))
      (finished : (result : ActiveResult) (e : LifecycleEvent) (trigger : TransitionTrigger)
        → Unfinished result e
        → Terminal trigger
        → P (some e) (finalize_terminal resolver req result e.name e.reason trigger recorder))
      (stayed : P none (recorder, ok unchanged)) where
    either :
        (holds : Bool) (e : LifecycleEvent) (rest : Option LifecycleEvent) (x y : Answer)
        → P (some e) x
        → P rest y
        → P (if holds then some e else rest) (if holds then x else y)
    either true e rest x y px py = px
    either false e rest x y px py = py

    abort-follows :
        (reason : String)
        → P (some (event "abort" reason)) (abort_with resolver req (aborted reason) reason recorder)
    abort-follows reason =
        finished (aborted reason) (event "abort" reason) TransitionTrigger.abort (refl, ([], refl))
          abort-Terminal

    revoked-follows :
        (checked : Result (Unit {0}))
        → P (some (event "abort" "authority_loss")) (handle_revoked resolver checked req recorder)
    unfolding handle_revoked revoked
    revoked-follows (err m) = refused _ m
    revoked-follows (ok tt) =
        finished (revoked req) (event "abort" "authority_loss") TransitionTrigger.abort
          (refl, (_ ∷ [], refl)) abort-Terminal

    disconnect-follows :
        (signals : Result (List ControlSignal))
        → P
            (some (event "abort" "transport_disconnect_or_stall"))
            (handle_disconnect resolver signals req recorder)
    unfolding handle_disconnect
    disconnect-follows (err m) = refused _ m
    disconnect-follows (ok signals) =
        finished (lost_connection signals) (event "abort" "transport_disconnect_or_stall")
          TransitionTrigger.abort (refl, (_ ∷ _ ∷ [], refl)) abort-Terminal

    pub handle_active-follows : P (first_cause (causes req)) (handle_active resolver req recorder)
    unfolding handle_active
    handle_active-follows =
        either req.authority_revoked _ _ _ _
          (revoked-follows (Outcome.validate (revoke_outcome req)))
          (either req.cancel_accepted _ _ _ _ (abort-follows "cancelled") (
            either req.provider_failure _ _ _ _ (abort-follows "provider_failure") (
              either req.node_timeout_or_failure _ _ _ _ (abort-follows "node_timeout_or_failure") (
                either req.transport_disconnect_or_stall _ _ _ _
                  (disconnect-follows (disconnect_signals req))
                  (either req.baseline_evidence_append_failed _ _ _ _
                    (abort-follows "recording_evidence_unavailable")
                    (either req.no_legal_continue_or_fallback _ _ _ _
                      (abort-follows "deterministic_reason")
                      (either req.terminal_success_ready _ none _ _
                        (finished committed (event "commit" "") TransitionTrigger.commit
                          (refl, ([], refl)) commit-Terminal)
                        stayed)))))))

-- When HandleActive returns a result, the first cause in the order of precedence decides it. With no
-- cause the turn stays as it is. With one, the turn is closed by accepted transitions from active; its
-- last event but `close` is that of the cause if the evidence of the ending is recorded; if it is not, the
-- events are the abort for unavailable evidence and `close` alone, and no decision is left, whatever the
-- cause was: a revoked authority then loses its deauthorized_drain event and abort(authority_loss), and an
-- accepted cancellation its abort(cancelled). Every control signal is one that its validation accepts.
pub handle_active-Ends :
    (resolver : TurnStartBundleInput → Result TurnStartBundle) (req : ActiveInput)
    (recorder : Option Recorder) (r : ActiveResult)
    → (handle_active resolver req recorder).1 ≡ ok r
    → Ends resolver req recorder (first_cause (causes req)) r
handle_active-Ends resolver req recorder =
    handle_active-follows resolver req recorder (Told resolver req recorder) (λ cause m r h. cc)
      (finalize-Told resolver req recorder) (λ r h. cc)
