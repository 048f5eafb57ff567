-- ===== src/TurnArbiter/Active/Commits.antt =====
-- That internal/runtime/turnarbiter/arbiter.go commits a turn that is ready.
use realtime_speech_pipeline.Base.{
  ◌≡◌, refl, inl, sym, ap, ◌∙◌, String, Bool, true, false, Option, none, some, List, [], ◌∷◌, ◌++◌,
  Result, ok, ◌>>=◌, if◌then◌else◌, >>=-pass, leb,
}
use realtime_speech_pipeline.Base.Lists.{length}
use realtime_speech_pipeline.Base.Text.{is_empty}
use realtime_speech_pipeline.ControlPlane.Turn
use realtime_speech_pipeline.ControlPlane.Turn.{TransitionTrigger}
use realtime_speech_pipeline.ControlPlane.TurnPlan.{no_entries}
use realtime_speech_pipeline.Timeline.{InvocationOutcomeEvidence}
use realtime_speech_pipeline.Timeline.Baseline.{
  BaselineEvidence, validate_completeness, validate_invocations,
}
use realtime_speech_pipeline.Timeline.Outcomes.{
  invocation_outcomes_from_provider_attempts, outcomes_of, sort_ids, invocation_ids,
}
use realtime_speech_pipeline.Timeline.Recorder.{
  Recorder, append_baseline, append_baseline_checked, provider_attempt_entries_for_turn,
  validate_attempts,
}
use realtime_speech_pipeline.TurnArbiter.{
  TurnStartBundle, TurnStartBundleInput, validate_transitions,
}
use realtime_speech_pipeline.TurnArbiter.Drafts.{ActiveInput}
use realtime_speech_pipeline.TurnArbiter.Evidence.{
  with_bundle, with_invocations, evidence_for, append_evidence, active_bundle_input,
  append_baseline_evidence,
}
use realtime_speech_pipeline.TurnArbiter.Evidence.Built.{
  Terminal, evidence_of, build_baseline_evidence_complete,
}
use realtime_speech_pipeline.TurnArbiter.Active.{
  ending, committed, ended, validated, validate_active_result, validate_signals, finalize_terminal,
  handle_active,
}

-- The recorder has room for another baseline, and no attempts of the turn.
pub record IsReady (req : ActiveInput) (recorder : Recorder) : Type 0 where
  pub has_room : leb recorder.cfg.baseline_capacity (length recorder.baseline_entries) ≡ false
  pub no_attempts : provider_attempt_entries_for_turn req.session_id req.turn_id recorder ≡ []
  pub no_evidence : req.baseline_evidence ≡ none
  pub has_session : is_empty req.session_id ≡ false
  pub has_turn : is_empty req.turn_id ≡ false
  pub valid_outcomes : validate_invocations req.provider_invocation_outcomes ≡ ok tt
  pub may_append : req.baseline_evidence_append_failed ≡ false

none-synthesized : invocation_outcomes_from_provider_attempts [] ≡ ok []
unfolding invocation_outcomes_from_provider_attempts validate_attempts outcomes_of sort_ids
    invocation_ids
none-synthesized = refl

with_invocations-same :
    (req : ActiveInput) (recorder : Recorder)
    → provider_attempt_entries_for_turn req.session_id req.turn_id recorder ≡ []
    → with_invocations req recorder ≡ ok req
unfolding with_invocations
with_invocations-same req recorder h = same req.provider_invocation_outcomes refl
  where
    same :
        (os : List InvocationOutcomeEvidence)
        → req.provider_invocation_outcomes ≡ os
        → (if no_entries os
            then (invocation_outcomes_from_provider_attempts
                  (provider_attempt_entries_for_turn req.session_id req.turn_id recorder)
                >>= λ synthesized. ok (record req { provider_invocation_outcomes = synthesized }))
            else ok req)
          ≡ ok req
    same [] e =
        ap
          (λ entries. invocation_outcomes_from_provider_attempts entries >>= λ synthesized.
            ok (record req { provider_invocation_outcomes = synthesized }))
          h
        ∙ >>=-pass _ _ _ none-synthesized
        ∙ ap (λ os. ok (record req { provider_invocation_outcomes = os })) (sym e)
    same (o ∷ os) e = refl

-- The evidence of the turn, over the defaults of its bundle.
abbrev pub evidence_with :
    ActiveInput → (outcome reason : String) → TurnStartBundle → BaselineEvidence
evidence_with req outcome reason bundle =
    evidence_of (with_bundle req bundle) outcome reason bundle.snapshot_provenance

abbrev pub stored : Recorder → BaselineEvidence → Recorder
stored recorder evidence = record recorder {
  baseline_entries = recorder.baseline_entries ++ evidence ∷ [];
}

append_baseline-stored :
    (evidence : BaselineEvidence) (recorder : Recorder)
    → validate_completeness evidence ≡ ok tt
    → leb recorder.cfg.baseline_capacity (length recorder.baseline_entries) ≡ false
    → append_baseline evidence recorder ≡ (stored recorder evidence, ok tt)
unfolding append_baseline append_baseline_checked
append_baseline-stored evidence recorder c room = rw (c, room) refl

evidence_for-built :
    (req : ActiveInput) (outcome reason : String) (recorder : Recorder) (bundle : TurnStartBundle)
    → IsReady req recorder
    → Terminal outcome reason
    → (evidence_for req outcome reason recorder (ok bundle)
        ≡ ok (evidence_with req outcome reason bundle))
      × (validate_completeness (evidence_with req outcome reason bundle) ≡ ok tt)
unfolding evidence_for with_bundle
evidence_for-built req outcome reason recorder bundle ready term =
    let (built, complete) =
      build_baseline_evidence_complete (with_bundle req bundle) outcome reason
        bundle.snapshot_provenance ready.no_evidence ready.has_session ready.has_turn
        ready.valid_outcomes term in
    (
      >>=-pass _ _ _ (with_invocations-same (with_bundle req bundle) recorder ready.no_attempts)
          ∙ built,
      complete,
    )

when_false {ℓ} : {A : Type ℓ} (b : Bool) (x y : A) → b ≡ false → (if b then x else y) ≡ y
when_false true x y h = cc
when_false false x y h = refl

when_true {ℓ} : {A : Type ℓ} (b : Bool) (x y : A) → b ≡ true → (if b then x else y) ≡ x
when_true true x y h = refl
when_true false x y h = cc

module _ (resolver : TurnStartBundleInput → Result TurnStartBundle) (req : ActiveInput)
    (recorder : Recorder) (bundle : TurnStartBundle) (ready : IsReady req recorder)
    (resolved : resolver (active_bundle_input req) ≡ ok bundle) where
  append_baseline_evidence-stored :
      (outcome reason : String)
      → Terminal outcome reason
      → append_baseline_evidence resolver req outcome reason (some recorder)
        ≡ (some (stored recorder (evidence_with req outcome reason bundle)), ok tt)
  unfolding append_baseline_evidence
  append_baseline_evidence-stored outcome reason term =
      let (built, complete) = evidence_for-built req outcome reason recorder bundle ready term in
      when_false req.baseline_evidence_append_failed _ _ ready.may_append
      ∙ ap
          (λ answer.
            let out = append_evidence (evidence_for req outcome reason recorder answer) recorder in
            (some out.0, out.1))
          resolved
      ∙ ap (λ made. let out = append_evidence made recorder in (some out.0, out.1)) built
      ∙ ap (λ (out : Recorder × Result (Unit {0})). (some out.0, out.1))
          (append_baseline-stored _ recorder complete ready.has_room)

  committed-validated :
      validated (ended committed TransitionTrigger.commit)
      ≡ ok (ended committed TransitionTrigger.commit)
  unfolding validated validate_active_result validate_transitions validate_signals Turn.validate
  committed-validated = refl

  finalize-commits :
      finalize_terminal resolver req committed "commit" "" TransitionTrigger.commit (some recorder)
      ≡ (
        some (stored recorder (evidence_with req "commit" "" bundle)),
        ok (ended committed TransitionTrigger.commit),
      )
  unfolding finalize_terminal
  finalize-commits =
      ap
        (λ (out : Option Recorder × Result (Unit {0})).
          (out.0, validated (ending committed TransitionTrigger.commit out.1)))
        (append_baseline_evidence-stored "commit" "" (inl refl))
      ∙ ap (λ r. (some (stored recorder (evidence_with req "commit" "" bundle)), r))
          committed-validated

-- No cause for an abort holds, and the turn is ready to be committed.
pub record CanCommit (req : ActiveInput) : Type 0 where
  pub kept_authority : req.authority_revoked ≡ false
  pub not_cancelled : req.cancel_accepted ≡ false
  pub provider_fine : req.provider_failure ≡ false
  pub nodes_fine : req.node_timeout_or_failure ≡ false
  pub connected : req.transport_disconnect_or_stall ≡ false
  pub may_continue : req.no_legal_continue_or_fallback ≡ false
  pub terminal_success : req.terminal_success_ready ≡ true

-- A turn that is ready to be committed, with no cause for an abort, is committed and closed, and the
-- recorder gets its evidence, as long as the turn and its session are named, its invocation outcomes are
-- valid, no evidence was handed in and no attempts of it were recorded, the bundle resolver answers, and
-- the recorder has room.
pub handle_active-commits :
    (resolver : TurnStartBundleInput → Result TurnStartBundle) (req : ActiveInput)
    (recorder : Recorder) (bundle : TurnStartBundle)
    → IsReady req recorder
    → CanCommit req
    → resolver (active_bundle_input req) ≡ ok bundle
    → handle_active resolver req (some recorder) ≡ (
      some (stored recorder (evidence_with req "commit" "" bundle)),
      ok (ended committed TransitionTrigger.commit),
    )
unfolding handle_active
handle_active-commits resolver req recorder bundle ready can resolved =
    when_false req.authority_revoked _ _ can.kept_authority
    ∙ when_false req.cancel_accepted _ _ can.not_cancelled
    ∙ when_false req.provider_failure _ _ can.provider_fine
    ∙ when_false req.node_timeout_or_failure _ _ can.nodes_fine
    ∙ when_false req.transport_disconnect_or_stall _ _ can.connected
    ∙ when_false req.baseline_evidence_append_failed _ _ ready.may_append
    ∙ when_false req.no_legal_continue_or_fallback _ _ can.may_continue
    ∙ when_true req.terminal_success_ready _ _ can.terminal_success
    ∙ finalize-commits resolver req recorder bundle ready resolved
