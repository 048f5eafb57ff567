-- ===== src/TurnArbiter/Evidence/Built.antt =====
-- When the evidence of internal/runtime/turnarbiter/arbiter.go is complete.
use text.Mathlib.Text.{◌==◌}
use realtime_speech_pipeline.Base.{
  ◌≡◌, ◌⊎◌, inl, inr, refl, ap, ◌∙◌, String, Bool, true, false, not, ◌||◌, ◌&&◌, Option, none, [],
  ◌∷◌, ok, ◌>>=◌, ◌>>◌, >>-pass, >>=-pass, refuse_if->>-pass,
}
use realtime_speech_pipeline.Base.Int.{is_negative}
use realtime_speech_pipeline.Base.Text.{is_empty, fallback, is_empty-fallback}
use realtime_speech_pipeline.EventAbi.Types.{PayloadClass, validate_redaction}
use realtime_speech_pipeline.ControlPlane.Outcome
use realtime_speech_pipeline.ControlPlane.TurnPlan.{
  no_entries, SnapshotProvenance, validate_provenance, validate_distinct,
}
use realtime_speech_pipeline.SecurityPolicy.{has_class, same_class}
use realtime_speech_pipeline.Timeline.Baseline.{
  BaselineEvidence, validate_completeness, validate_tags, validate_decisions, require_decided,
  validate_outcomes, validate_invocations, validate_cancel,
}
use realtime_speech_pipeline.TurnArbiter.Drafts.{
  given_or_drafted, ActiveInput, default_snapshot_provenance, provenance_or, admit_decision,
  plan_label, drafted_evidence, invocations_or,
}
use realtime_speech_pipeline.TurnArbiter.Normal.{
  normalize_times, normalize_fields, normalize_baseline_evidence,
}
use realtime_speech_pipeline.TurnArbiter.Evidence.{raw_evidence, build_baseline_evidence}
use realtime_speech_pipeline.TurnArbiter.Normal.Parts.{
  admit-accepted, default-valid, epoch_or-sign, invocations_or-valid, marker-given,
  metadata-allowed, metadata_decisions, plan-given, provenance_fallback-valid, provenance_or-valid,
  sanitize-lone, validate-lone,
}

-- An ending that evidence can tell: a commit, or an abort with its reason.
abbrev pub Terminal : (outcome reason : String) → Type 0
Terminal outcome reason = (outcome ≡ "commit") ⊎ ((outcome ≡ "abort") × (is_empty reason ≡ false))

-- The evidence of a turn for which none is handed in, before and after it is normalized.
abbrev draft : ActiveInput → SnapshotProvenance → BaselineEvidence
draft req d = record (drafted_evidence req d) {
  invocation_outcomes = invocations_or req req.provider_invocation_outcomes;
}

abbrev finished : ActiveInput → (outcome reason : String) → SnapshotProvenance → BaselineEvidence
finished req outcome reason d = normalize_times req (
    normalize_fields req outcome reason (provenance_or d default_snapshot_provenance)
      (record (draft req d) { redaction_decisions = metadata_decisions }))

-- The checks of completeness, each with what it must answer.
complete_of_checks :
    (b : BaselineEvidence)
    → (is_empty b.session_id
        || is_empty b.turn_id
        || is_empty b.pipeline_version
        || is_empty b.event_id)
      ≡ false
    → is_empty b.envelope_snapshot ≡ false
    → b.payload_tags ≡ PayloadClass.metadata ∷ []
    → b.redaction_decisions ≡ metadata_decisions
    → is_empty b.plan_hash ≡ false
    → validate_provenance b.snapshot_provenance ≡ ok tt
    → (no_entries b.decision_outcomes ≡ false) × (validate_outcomes b.decision_outcomes ≡ ok tt)
    → validate_invocations b.invocation_outcomes ≡ ok tt
    → (no_entries b.ordering_markers ≡ false)
      × (validate_distinct is_empty "ordering markers cannot contain empty values"
            "ordering markers must be unique" [] b.ordering_markers
          ≡ ok tt)
    → (is_empty b.merge_rule_id || is_empty b.merge_rule_version) ≡ false
    → is_negative b.authority_epoch ≡ false
    → Terminal b.terminal_outcome b.terminal_reason
    → b.close_emitted ≡ true
    → validate_cancel b ≡ ok tt
    → validate_completeness b ≡ ok tt
unfolding validate_cancel validate_completeness validate_tags validate_decisions require_decided
    has_class same_class validate_redaction
complete_of_checks b ids env tags decs plan prov (n, outs) invs (m, marks) merge epoch term closed
      cancel =
    refuse_if->>-pass _ _ _ ids
    ∙ refuse_if->>-pass _ _ _ env
    ∙ rw (tags, decs)
        (refuse_if->>-pass _ _ _ plan
          ∙ >>-pass _ _ prov
          ∙ refuse_if->>-pass _ _ _ n
          ∙ >>-pass _ _ outs
          ∙ >>-pass _ _ invs
          ∙ refuse_if->>-pass _ _ _ m
          ∙ >>-pass _ _ marks
          ∙ refuse_if->>-pass _ _ _ merge
          ∙ refuse_if->>-pass _ _ _ epoch
          ∙ refuse_if->>-pass _ _ _ (known b.terminal_outcome b.terminal_reason term)
          ∙ refuse_if->>-pass _ _ _ (ap not closed)
          ∙ refuse_if->>-pass _ _ _ (reasoned b.terminal_outcome b.terminal_reason term)
          ∙ cancel)
  where
    known : (o r : String) → Terminal o r → (not (o == "commit") && not (o == "abort")) ≡ false
    known o r (inl e) = rw e refl
    known o r (inr (e, _)) = rw e refl

    reasoned : (o r : String) → Terminal o r → (o == "abort" && is_empty r) ≡ false
    reasoned o r (inl e) = rw e refl
    reasoned o r (inr (e, h)) = rw (e, h) refl

drafted-accepted :
    (req : ActiveInput)
    → is_empty req.session_id ≡ false
    → is_empty req.turn_id ≡ false
    → Outcome.validate (
        admit_decision req.session_id req.turn_id
          (fallback req.event_id "evt-runtime-terminal")
          req.runtime_timestamp_ms
          req.wall_clock_timestamp_ms)
      ≡ ok tt
drafted-accepted req s t =
    admit-accepted req.session_id req.turn_id _ req.runtime_timestamp_ms req.wall_clock_timestamp_ms
      s t (is_empty-fallback req.event_id "evt-runtime-terminal" refl)

finished-cancel :
    (req : ActiveInput) (o r : String) (d : SnapshotProvenance)
    → validate_cancel (finished req o r d) ≡ ok tt
unfolding validate_cancel normalize_times normalize_fields drafted_evidence
finished-cancel req o r d = either req.cancel_accepted
  where
    either :
        (b : Bool) → validate_cancel (finished (record req { cancel_accepted = b }) o r d) ≡ ok tt
    either true = refl
    either false = refl

finished_complete :
    (req : ActiveInput) (o r : String) (d : SnapshotProvenance)
    → is_empty req.session_id ≡ false
    → is_empty req.turn_id ≡ false
    → validate_invocations req.provider_invocation_outcomes ≡ ok tt
    → Terminal o r
    → validate_completeness (finished req o r d) ≡ ok tt
unfolding normalize_times normalize_fields drafted_evidence validate_outcomes
finished_complete req o r d s t invs term =
    let version = is_empty-fallback req.pipeline_version "pipeline-v1" refl in
    let event_id = is_empty-fallback req.event_id "evt-runtime-terminal" refl in
    let marker = marker-given req.runtime_sequence in
    complete_of_checks (finished req o r d)
      (rw (s, s, t, t, version, version, event_id, event_id) refl) refl refl refl
      (is_empty-fallback (plan_label req.turn_id) (plan_label req.turn_id) (plan-given req.turn_id))
      (provenance_fallback-valid _ _
        (provenance_or-valid d default_snapshot_provenance default-valid))
      (refl, rw (drafted-accepted req s t) refl) (invocations_or-valid req _ refl invs)
      (rw (sanitize-lone _ marker) (refl, validate-lone _ _ _ marker)) refl (epoch_or-sign _ _) term
      refl (finished-cancel req o r d)

raw-draft :
    (req : ActiveInput) (d : SnapshotProvenance)
    → req.baseline_evidence ≡ none
    → raw_evidence req d ≡ draft req d
unfolding raw_evidence drafted_evidence
raw-draft req d h =
    ap
      (λ (given : Option BaselineEvidence).
        let e = given_or_drafted given (drafted_evidence req d) in
        record e { invocation_outcomes = invocations_or req e.invocation_outcomes })
      h

normalize-draft :
    (req : ActiveInput) (o r : String) (d : SnapshotProvenance)
    → normalize_baseline_evidence (draft req d) req o r d ≡ ok (finished req o r d)
unfolding normalize_baseline_evidence drafted_evidence
normalize-draft req o r d = rw metadata-allowed refl

-- The evidence that is built for an ended turn when none is handed in.
abbrev pub evidence_of :
    ActiveInput → (outcome reason : String) → (given : SnapshotProvenance) → BaselineEvidence
evidence_of req outcome reason given =
    finished req outcome reason (provenance_or given default_snapshot_provenance)

pub build_baseline_evidence_complete :
    (req : ActiveInput) (outcome reason : String) (given : SnapshotProvenance)
    → req.baseline_evidence ≡ none
    → is_empty req.session_id ≡ false
    → is_empty req.turn_id ≡ false
    → validate_invocations req.provider_invocation_outcomes ≡ ok tt
    → Terminal outcome reason
    → (build_baseline_evidence req outcome reason given ≡ ok (evidence_of req outcome reason given))
      × (validate_completeness (evidence_of req outcome reason given) ≡ ok tt)
unfolding build_baseline_evidence
build_baseline_evidence_complete req outcome reason given n s t invs term =
    let d = provenance_or given default_snapshot_provenance in
    let complete = finished_complete req outcome reason d s t invs term in
    (
      ap
            (λ raw. normalize_baseline_evidence raw req outcome reason d >>= λ evidence.
              validate_completeness evidence >> ok evidence)
            (raw-draft req d n)
          ∙ >>=-pass _ _ _ (normalize-draft req outcome reason d)
          ∙ >>-pass _ _ complete,
      complete,
    )
