-- ===== src/TurnArbiter/Active/Committed.antt =====
-- What the endings of internal/runtime/turnarbiter/arbiter.go leave with the recorder.
use realtime_speech_pipeline.Base.{
  ◌≡◌, ◌⊎◌, inl, inr, refl, ap, ◌∙◌, String, Bool, true, false, Option, none, some, [], ◌∷◌, ◌++◌,
  Result, ok, err, >>=-eq-ok, >>-eq-ok, is_err, if◌then◌else◌, Bool-cases, leb,
}
use realtime_speech_pipeline.Base.Lists.{length}
use realtime_speech_pipeline.EventAbi.Types.{PayloadClass}
use realtime_speech_pipeline.ControlPlane.Turn.{TransitionTrigger}
use realtime_speech_pipeline.ControlPlane.TurnPlan.{SnapshotProvenance}
use realtime_speech_pipeline.SecurityPolicy.{ensure_or02_redaction_decisions}
use realtime_speech_pipeline.Timeline.Baseline.{BaselineEvidence, validate_completeness}
use realtime_speech_pipeline.Timeline.Recorder.{Recorder, append_baseline, append_baseline_checked}
use realtime_speech_pipeline.TurnArbiter.{LifecycleEvent, TurnStartBundle, TurnStartBundleInput}
use realtime_speech_pipeline.TurnArbiter.Drafts.{
  ActiveInput, provenance_or, default_snapshot_provenance,
}
use realtime_speech_pipeline.TurnArbiter.Normal.{
  normalize_times, normalize_fields, normalize_baseline_evidence, default_list,
}
use realtime_speech_pipeline.TurnArbiter.Evidence.{
  raw_evidence, build_baseline_evidence, with_bundle, with_invocations, evidence_for,
  append_evidence, active_bundle_input, append_baseline_evidence,
}
use realtime_speech_pipeline.TurnArbiter.Active.{ActiveResult, finalize_terminal, handle_active}
use realtime_speech_pipeline.TurnArbiter.Active.Endings.{
  Ends, Unfinished, Terminal, handle_active-follows, Answer, ClosedBy, unavailable, causes,
  first_cause, handle_active-Ends,
}

-- The evidence is complete, and says how and why the turn ended.
abbrev pub Tells : LifecycleEvent → BaselineEvidence → Type 0
Tells e evidence =
    (validate_completeness evidence ≡ ok tt)
    × (evidence.terminal_outcome ≡ e.name)
    × (evidence.terminal_reason ≡ e.reason)

ok_injective : (p q : BaselineEvidence) → ok p ≡ ok q → q ≡ p
ok_injective p q h = cc

normalized-terminal :
    (raw normal : BaselineEvidence) (req : ActiveInput) (outcome reason : String)
    (defaults : SnapshotProvenance)
    → normalize_baseline_evidence raw req outcome reason defaults ≡ ok normal
    → (normal.terminal_outcome ≡ outcome) × (normal.terminal_reason ≡ reason)
unfolding normalize_baseline_evidence normalize_times normalize_fields
normalized-terminal raw normal req outcome reason defaults h =
    let (decisions, _, written) =
      >>=-eq-ok
        (ensure_or02_redaction_decisions "L0" (default_list raw.payload_tags PayloadClass.metadata)
          raw.redaction_decisions)
        _ h in
    let same = ok_injective _ normal written in
    (
      ap (λ (x : BaselineEvidence). x.terminal_outcome) same,
      ap (λ (x : BaselineEvidence). x.terminal_reason) same,
    )

built-Tells :
    (req : ActiveInput) (e : LifecycleEvent) (given : SnapshotProvenance)
    (evidence : BaselineEvidence)
    → build_baseline_evidence req e.name e.reason given ≡ ok evidence
    → Tells e evidence
unfolding build_baseline_evidence
built-Tells req e given evidence h =
    let defaults = provenance_or given default_snapshot_provenance in
    let (normal, made, checked) =
      >>=-eq-ok
        (normalize_baseline_evidence (raw_evidence req defaults) req e.name e.reason defaults) _
        h in
    let (complete, same) = >>-eq-ok (validate_completeness normal) _ checked in
    let (how, why) = normalized-terminal _ normal req e.name e.reason defaults made in
    let told : Tells e normal = (complete, how, why) in rw (ok_injective normal evidence same) told

evidence_for-Tells :
    (req : ActiveInput) (e : LifecycleEvent) (recorder : Recorder) (answer : Result TurnStartBundle)
    (evidence : BaselineEvidence)
    → evidence_for req e.name e.reason recorder answer ≡ ok evidence
    → Tells e evidence
unfolding evidence_for
evidence_for-Tells req e recorder answer evidence h =
    let (bundle, _, filled) = >>=-eq-ok answer _ h in
    let (full, _, built) =
      >>=-eq-ok (with_invocations (with_bundle req bundle) recorder) _ filled in
    built-Tells full e bundle.snapshot_provenance evidence built

-- The recorder has one more baseline entry, and that tells how the turn ended.
abbrev pub Recorded : LifecycleEvent → (before after : Option Recorder) → Type 0
Recorded e before after =
    (old new : Recorder) × (evidence : BaselineEvidence) × (before ≡ some old)
    × (after ≡ some new)
    × (new.baseline_entries ≡ old.baseline_entries ++ evidence ∷ [])
    × Tells e evidence

-- What an append does to the recorder: one more entry, or nothing.
abbrev Appended : Recorder → Result BaselineEvidence → Recorder × Result (Unit {0}) → Type 0
Appended old made out =
    ((out.1 ≡ ok tt)
      × ((evidence : BaselineEvidence) × (made ≡ ok evidence)
          × (out.0.baseline_entries ≡ old.baseline_entries ++ evidence ∷ [])))
    ⊎ ((is_err out.1 ≡ true) × (out.0 ≡ old))

checked-Appended :
    (old : Recorder) (evidence : BaselineEvidence) (v : Result (Unit {0}))
    → Appended old (ok evidence) (append_baseline_checked v evidence old)
unfolding append_baseline_checked
checked-Appended old evidence (err m) = inr (refl, refl)
checked-Appended old evidence (ok tt) =
    elim (Bool-cases (leb old.cfg.baseline_capacity (length old.baseline_entries))) [
      | inl full ↦ rw full (inr (refl, refl))
      | inr room ↦ rw room (inl (refl, (evidence, refl, refl)))
    ]

evidence-Appended :
    (old : Recorder) (made : Result BaselineEvidence) → Appended old made (append_evidence made old)
unfolding append_baseline
evidence-Appended old (err m) = inr (refl, refl)
evidence-Appended old (ok evidence) = checked-Appended old evidence (validate_completeness evidence)

module _ (resolver : TurnStartBundleInput → Result TurnStartBundle) (req : ActiveInput) where
  abbrev appended_by : LifecycleEvent → Option Recorder → Option Recorder × Result (Unit {0})
  appended_by e recorder = append_baseline_evidence resolver req e.name e.reason recorder

  -- The evidence is recorded, or the recorder is as it was.
  abbrev Kept : LifecycleEvent → Option Recorder → Option Recorder × Result (Unit {0}) → Type 0
  Kept e recorder out =
      ((is_err out.1 ≡ false) × Recorded e recorder out.0)
      ⊎ ((is_err out.1 ≡ true) × (out.0 ≡ recorder))

  some-Kept :
      (e : LifecycleEvent) (old : Recorder) (made : Result BaselineEvidence)
      (out : Recorder × Result (Unit {0}))
      → ((evidence : BaselineEvidence) → made ≡ ok evidence → Tells e evidence)
      → Appended old made out
      → Kept e (some old) (some out.0, out.1)
  some-Kept e old made out tells (inl (good, (evidence, from, entries))) =
      inl (ap is_err good, (old, out.0, evidence, refl, refl, entries, tells evidence from))
  some-Kept e old made out tells (inr (bad, same)) = inr (bad, ap some same)

  failed-Kept :
      (failed : Bool) (e : LifecycleEvent) (recorder : Option Recorder) (m : String)
      (out : Option Recorder × Result (Unit {0}))
      → Kept e recorder out
      → Kept e recorder (if failed then (recorder, err m) else out)
  failed-Kept true e recorder m out k = inr (refl, refl)
  failed-Kept false e recorder m out k = k

  append_baseline_evidence-Kept :
      (e : LifecycleEvent) (recorder : Option Recorder) → Kept e recorder (appended_by e recorder)
  unfolding append_baseline_evidence
  append_baseline_evidence-Kept e none =
      failed-Kept req.baseline_evidence_append_failed e none _ _ (inr (refl, refl))
  append_baseline_evidence-Kept e (some old) =
      let made = evidence_for req e.name e.reason old (resolver (active_bundle_input req)) in
      failed-Kept req.baseline_evidence_append_failed e (some old) _ _ (
        some-Kept e old made _ (evidence_for-Tells req e old (resolver (active_bundle_input req)))
          (evidence-Appended old made))

-- The recorder after an ending by its cause.
abbrev after_cause :
    (resolver : TurnStartBundleInput → Result TurnStartBundle) (req : ActiveInput)
    → Option LifecycleEvent
    → Option Recorder
    → Option Recorder
after_cause resolver req none recorder = recorder
after_cause resolver req (some e) recorder = (appended_by resolver req e recorder).0

module _ (resolver : TurnStartBundleInput → Result TurnStartBundle) (req : ActiveInput)
    (recorder : Option Recorder) where
  abbrev Leaves : Option LifecycleEvent → Answer → Type 0
  Leaves cause out =
      (r : ActiveResult) → out.1 ≡ ok r → out.0 ≡ after_cause resolver req cause recorder

  finalize-Leaves :
      (result : ActiveResult) (e : LifecycleEvent) (trigger : TransitionTrigger)
      → Unfinished result e
      → Terminal trigger
      → Leaves (some e) (finalize_terminal resolver req result e.name e.reason trigger recorder)
  unfolding finalize_terminal
  finalize-Leaves result e trigger u t r h = refl

  handle_active-Leaves : Leaves (first_cause (causes req)) (handle_active resolver req recorder)
  handle_active-Leaves =
      handle_active-follows resolver req recorder Leaves (λ cause m r h. cc) finalize-Leaves
        (λ r h. refl)

-- When HandleActive ends a turn, either the recorder has one more baseline entry, which is complete and
-- says the same outcome and reason as the last event but `close`, that of the first cause; or the recorder
-- is as it was, with no marker of this ending in it, and that event is the abort for unavailable evidence.
pub handle_active-Recorded :
    (resolver : TurnStartBundleInput → Result TurnStartBundle) (req : ActiveInput)
    (recorder : Option Recorder) (r : ActiveResult) (e : LifecycleEvent)
    → (handle_active resolver req recorder).1 ≡ ok r
    → first_cause (causes req) ≡ some e
    → (ClosedBy e r × Recorded e recorder (handle_active resolver req recorder).0)
      ⊎ (ClosedBy unavailable r × ((handle_active resolver req recorder).0 ≡ recorder))
handle_active-Recorded resolver req recorder r e h first =
    let ends : Ends resolver req recorder (some e) r =
      rw first at (handle_active-Ends resolver req recorder r h) in
    let left : (handle_active resolver req recorder).0 ≡ (appended_by resolver req e recorder).0 =
      handle_active-Leaves resolver req recorder r h
      ∙ ap (λ c. after_cause resolver req c recorder) first in
    by_kept (append_baseline_evidence-Kept resolver req e recorder) ends left
  where
    by_kept :
        Kept resolver req e recorder (appended_by resolver req e recorder)
        → Ends resolver req recorder (some e) r
        → (handle_active resolver req recorder).0 ≡ (appended_by resolver req e recorder).0
        → (ClosedBy e r × Recorded e recorder (handle_active resolver req recorder).0)
          ⊎ (ClosedBy unavailable r × ((handle_active resolver req recorder).0 ≡ recorder))
    by_kept (inl (good, recorded)) (_, closed, _, _) left =
        inl (rw good at closed, rw left recorded)
    by_kept (inr (bad, same)) (_, closed, _, _) left = inr (rw bad at closed, left ∙ same)
