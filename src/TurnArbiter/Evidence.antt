-- ===== src/TurnArbiter/Evidence.antt =====
-- internal/runtime/turnarbiter/arbiter.go: the baseline evidence that an ended turn leaves with the
-- recorder: appendBaselineEvidence, and buildBaselineEvidence over Drafts and Normal.
pub mod Built
use realtime_speech_pipeline.Base.{
  String, Bool, true, false, not, ◌&&◌, ◌||◌, Option, none, some, List, [], ◌∷◌, Result, ok, err,
  ◌>>=◌, ◌>>◌, is_err, if◌then◌else◌,
}
use realtime_speech_pipeline.Base.Int.{ℤ, pos, ltℤ, non_negative, add64, sub64}
use realtime_speech_pipeline.Base.Members.{has}
use realtime_speech_pipeline.Base.Text.{is_empty, fallback, concat, decimal_int}
use realtime_speech_pipeline.EventAbi.Types.{PayloadClass}
use realtime_speech_pipeline.ControlPlane.Outcome.{
  OutcomeKind, OutcomePhase, OutcomeScope, OutcomeEmitter, DecisionOutcome,
}
use realtime_speech_pipeline.ControlPlane.TurnPlan.{
  SnapshotProvenance, validate_provenance, no_entries,
}
use realtime_speech_pipeline.SecurityPolicy.{ensure_or02_redaction_decisions}
use realtime_speech_pipeline.Timeline.{InvocationOutcomeEvidence}
use realtime_speech_pipeline.Timeline.Baseline.{BaselineEvidence, validate_completeness}
use realtime_speech_pipeline.Timeline.Outcomes.{invocation_outcomes_from_provider_attempts}
use realtime_speech_pipeline.Timeline.Recorder.{
  Recorder, append_baseline, provider_attempt_entries_for_turn,
}
use realtime_speech_pipeline.TurnArbiter.{TurnStartBundle, TurnStartBundleInput}
use realtime_speech_pipeline.TurnArbiter.Opening.{is_zero}
use realtime_speech_pipeline.TurnArbiter.Drafts.{
  ActiveInput, admit_decision, default_pipeline_version, default_snapshot_provenance,
  drafted_evidence, given_or_drafted, invocations_or, plan_label, provenance_or, sequence_marker,
  unknown_invocation,
}
use realtime_speech_pipeline.TurnArbiter.Normal.{
  accepted_at, default_list, default_time, epoch_or, normalize_baseline_evidence, normalize_fields,
  normalize_times, provenance_fallback, sanitize_from, sanitize_ordering_markers, time_if_cancelled,
}

-- The evidence before it is normalized.
unfoldable pub raw_evidence : ActiveInput → (defaults : SnapshotProvenance) → BaselineEvidence
raw_evidence req defaults =
    let e = given_or_drafted req.baseline_evidence (drafted_evidence req defaults) in
    record e { invocation_outcomes = invocations_or req e.invocation_outcomes }

unfoldable pub build_baseline_evidence :
    ActiveInput
    → (terminal_outcome terminal_reason : String) → (defaults : SnapshotProvenance)
    → Result BaselineEvidence
build_baseline_evidence req terminal_outcome terminal_reason given_defaults =
    let defaults = provenance_or given_defaults default_snapshot_provenance in
    (do
      evidence ←
          normalize_baseline_evidence (raw_evidence req defaults) req terminal_outcome
            terminal_reason defaults
      validate_completeness evidence
      ok evidence)

-- The input over the defaults of the turn's bundle.
unfoldable pub with_bundle : ActiveInput → TurnStartBundle → ActiveInput
with_bundle req b = record req {
  pipeline_version = fallback req.pipeline_version b.pipeline_version;
  snapshot_provenance = provenance_or req.snapshot_provenance b.snapshot_provenance;
}

-- `if len(in.ProviderInvocationOutcomes) == 0 { … }`, from the attempts that were recorded.
unfoldable pub with_invocations : ActiveInput → Recorder → Result ActiveInput
with_invocations req recorder =
    if no_entries req.provider_invocation_outcomes
    then (do
      synthesized ←
          invocation_outcomes_from_provider_attempts
            (provider_attempt_entries_for_turn req.session_id req.turn_id recorder)
      ok (record req { provider_invocation_outcomes = synthesized }))
    else ok req

-- The evidence, from the answer of the bundle resolver on.
unfoldable pub evidence_for :
    ActiveInput
    → (terminal_outcome terminal_reason : String) → Recorder
    → Result TurnStartBundle
    → Result BaselineEvidence
evidence_for req terminal_outcome terminal_reason recorder answer = do
  bundle ← answer
  filled ← with_invocations (with_bundle req bundle) recorder
  build_baseline_evidence filled terminal_outcome terminal_reason bundle.snapshot_provenance

abbrev pub append_evidence : Result BaselineEvidence → Recorder → Recorder × Result (Unit {0})
append_evidence (err e) recorder = (recorder, err e)
append_evidence (ok evidence) recorder = append_baseline evidence recorder

abbrev pub active_bundle_input : ActiveInput → TurnStartBundleInput
active_bundle_input req = record {
  session_id = req.session_id;
  turn_id = req.turn_id;
  requested_pipeline_version = req.pipeline_version;
  authority_epoch = req.authority_epoch;
}

-- The recorder afterwards, and whether the evidence is in it. The arbiter may have no recorder.
unfoldable pub append_baseline_evidence :
    (TurnStartBundleInput → Result TurnStartBundle)
    → ActiveInput
    → (terminal_outcome terminal_reason : String) → Option Recorder
    → Option Recorder × Result (Unit {0})
append_baseline_evidence resolver req terminal_outcome terminal_reason none =
    if req.baseline_evidence_append_failed
    then (none, err "timeline baseline stage-a capacity exhausted")
    else (none, err "timeline recorder unavailable")
append_baseline_evidence resolver req terminal_outcome terminal_reason (some recorder) =
    let evidence =
      evidence_for req terminal_outcome terminal_reason recorder
        (resolver (active_bundle_input req)) in
    let (after, answer) = append_evidence evidence recorder in
    if req.baseline_evidence_append_failed
    then (some recorder, err "timeline baseline stage-a capacity exhausted")
    else (some after, answer)
