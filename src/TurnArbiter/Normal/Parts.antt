-- ===== src/TurnArbiter/Normal/Parts.antt =====
-- What internal/runtime/turnarbiter/arbiter.go drafts and fills in passes its checks, part by part.
use realtime_speech_pipeline.Base.{
  ◌≡◌, refl, String, Bool, true, false, List, [], ◌∷◌, Result, ok, err, arith, is_err,
  if◌then◌else◌, refuse_if-eq-ok,
}
use realtime_speech_pipeline.Base.Int.{ℤ, is_negative}
use realtime_speech_pipeline.Base.Members.{has}
use realtime_speech_pipeline.Base.Text.{is_empty, fallback, is_empty-fallback, is_empty-concat}
use realtime_speech_pipeline.EventAbi.Types.{
  PayloadClass, RedactionAction, RedactionDecision, validate_redaction,
}
use realtime_speech_pipeline.ControlPlane.Outcome
use realtime_speech_pipeline.ControlPlane.TurnPlan.{
  SnapshotProvenance, validate_provenance, validate_distinct,
}
use realtime_speech_pipeline.SecurityPolicy
use realtime_speech_pipeline.SecurityPolicy.{ensure_or02_redaction_decisions, has_class, same_class}
use realtime_speech_pipeline.Timeline.{InvocationOutcomeEvidence, validate_invocation_outcome}
use realtime_speech_pipeline.Timeline.Baseline.{validate_invocations}
use realtime_speech_pipeline.TurnArbiter.Drafts.{
  ActiveInput, default_snapshot_provenance, provenance_or, admit_decision, sequence_marker,
  plan_label, invocations_or, unknown_invocation,
}
use realtime_speech_pipeline.TurnArbiter.Normal.{
  provenance_fallback, sanitize_from, sanitize_ordering_markers, epoch_or,
}

abbrev pub IsProvenance : SnapshotProvenance → Type 0
IsProvenance s = validate_provenance s ≡ ok tt

pub default-valid : IsProvenance default_snapshot_provenance
unfolding default_snapshot_provenance validate_provenance
default-valid = refl

pub provenance_or-valid :
    (s d : SnapshotProvenance) → IsProvenance d → IsProvenance (provenance_or s d)
unfolding provenance_or
provenance_or-valid s d h = either (validate_provenance s) refl
  where
    either :
        (v : Result (Unit {0}))
        → validate_provenance s ≡ v
        → IsProvenance (if is_err v then d else s)
    either (ok tt) e = e
    either (err m) e = h

-- Filling in from valid defaults gives a valid provenance.
pub provenance_fallback-valid :
    (s d : SnapshotProvenance) → IsProvenance d → IsProvenance (provenance_fallback s d)
unfolding provenance_fallback validate_provenance
provenance_fallback-valid s d h =
    let given = refuse_if-eq-ok _ _ h in
    rw
      (
        is_empty-fallback s.routing_view_snapshot d.routing_view_snapshot (ground (arith, given)),
        is_empty-fallback s.admission_policy_snapshot d.admission_policy_snapshot
            (ground (arith, given)),
        is_empty-fallback s.abi_compatibility_snapshot d.abi_compatibility_snapshot
            (ground (arith, given)),
        is_empty-fallback s.version_resolution_snapshot d.version_resolution_snapshot
            (ground (arith, given)),
        is_empty-fallback s.policy_resolution_snapshot d.policy_resolution_snapshot
            (ground (arith, given)),
        is_empty-fallback s.provider_health_snapshot d.provider_health_snapshot
            (ground (arith, given)),
      )
      refl

-- The decision about the one tag of drafted evidence.
abbrev pub metadata_decisions : List RedactionDecision
metadata_decisions =
    record { payload_class = PayloadClass.metadata; action = RedactionAction.allow } ∷ []

pub metadata-allowed :
    ensure_or02_redaction_decisions "L0" (PayloadClass.metadata ∷ []) [] ≡ ok metadata_decisions
unfolding ensure_or02_redaction_decisions SecurityPolicy.default_or02_redaction_decisions
    SecurityPolicy.parse_recording_level SecurityPolicy.level_of SecurityPolicy.validate_level
    SecurityPolicy.build_default_redaction_decisions SecurityPolicy.default_decisions has_class
    SecurityPolicy.resolve_default_redaction_action SecurityPolicy.validate_surface
    SecurityPolicy.matrix validate_redaction
metadata-allowed = refl

pub admit-accepted :
    (session turn event_id : String) (runtime wall : ℤ)
    → is_empty session ≡ false
    → is_empty turn ≡ false
    → is_empty event_id ≡ false
    → Outcome.validate (admit_decision session turn event_id runtime wall) ≡ ok tt
unfolding admit_decision Outcome.validation
admit-accepted session turn event_id runtime wall s t e =
    ground (arith, is_empty-concat event_id "-admit" e, s, t)

unknown-valid : (turn : String) → validate_invocation_outcome (unknown_invocation turn) ≡ ok tt
unfolding unknown_invocation validate_invocation_outcome has
unknown-valid turn = rw (is_empty-concat "pvi/" (fallback turn "unknown") refl) refl

pub invocations_or-valid :
    (req : ActiveInput) (os : List InvocationOutcomeEvidence)
    → req.provider_invocation_outcomes ≡ os
    → validate_invocations os ≡ ok tt
    → validate_invocations (invocations_or req os) ≡ ok tt
unfolding invocations_or validate_invocations
invocations_or-valid req (o ∷ os) e h = h
invocations_or-valid req [] e h = rw e (either req.provider_failure)
  where
    either :
        (b : Bool)
        → validate_invocations (if b then unknown_invocation req.turn_id ∷ [] else []) ≡ ok tt
    either true = rw (unknown-valid req.turn_id) refl
    either false = refl

pub plan-given : (turn_id : String) → is_empty (plan_label turn_id) ≡ false
unfolding plan_label
plan-given turn_id = is_empty-concat "plan/" (fallback turn_id "unknown") refl

pub marker-given : (sequence : ℤ) → is_empty (sequence_marker sequence) ≡ false
unfolding sequence_marker
marker-given sequence = is_empty-concat "runtime_sequence:" _ refl

pub epoch_or-sign : (own given : ℤ) → is_negative (epoch_or own given) ≡ false
unfolding epoch_or
epoch_or-sign own given = ground arith

pub sanitize-lone : (m : String) → is_empty m ≡ false → sanitize_ordering_markers (m ∷ []) ≡ m ∷ []
unfolding sanitize_ordering_markers sanitize_from has
sanitize-lone m h = rw h refl

pub validate-lone :
    (m a b : String) → is_empty m ≡ false → validate_distinct is_empty a b [] (m ∷ []) ≡ ok tt
unfolding validate_distinct has
validate-lone m a b h = rw h refl
