-- ===== src/TurnArbiter/Normal.antt =====
-- internal/runtime/turnarbiter/arbiter.go: normalizeBaselineEvidence and its helpers.
pub mod Parts
use realtime_speech_pipeline.Base.{
  String, true, ◌&&◌, ◌||◌, Option, none, some, List, [], ◌∷◌, Result, ok, ◌>>=◌, if◌then◌else◌,
}
use realtime_speech_pipeline.Base.Int.{ℤ, pos, ltℤ, non_negative, add64, sub64}
use realtime_speech_pipeline.Base.Members.{has}
use realtime_speech_pipeline.Base.Text.{is_empty, fallback}
use realtime_speech_pipeline.EventAbi.Types.{PayloadClass}
use realtime_speech_pipeline.ControlPlane.TurnPlan.{SnapshotProvenance}
use realtime_speech_pipeline.SecurityPolicy.{ensure_or02_redaction_decisions}
use realtime_speech_pipeline.Timeline.Baseline.{BaselineEvidence}
use realtime_speech_pipeline.TurnArbiter.Opening.{is_zero}
use realtime_speech_pipeline.TurnArbiter.Drafts.{
  ActiveInput, admit_decision, default_pipeline_version, default_snapshot_provenance, plan_label,
  provenance_or, sequence_marker,
}

unfoldable pub provenance_fallback : SnapshotProvenance → SnapshotProvenance → SnapshotProvenance
provenance_fallback s d = record {
  routing_view_snapshot = fallback s.routing_view_snapshot d.routing_view_snapshot;
  admission_policy_snapshot = fallback s.admission_policy_snapshot d.admission_policy_snapshot;
  abi_compatibility_snapshot = fallback s.abi_compatibility_snapshot d.abi_compatibility_snapshot;
  version_resolution_snapshot =
      fallback s.version_resolution_snapshot d.version_resolution_snapshot;
  policy_resolution_snapshot = fallback s.policy_resolution_snapshot d.policy_resolution_snapshot;
  provider_health_snapshot = fallback s.provider_health_snapshot d.provider_health_snapshot;
}

-- The loop of sanitizeOrderingMarkers, with the markers seen so far.
unfoldable pub sanitize_from : (seen : List String) → List String → List String
sanitize_from seen [] = []
sanitize_from seen (marker ∷ markers) =
    let rest = sanitize_from seen markers in
    let later = sanitize_from (marker ∷ seen) markers in
    if is_empty marker || has marker seen then rest else marker ∷ later

unfoldable pub sanitize_ordering_markers : List String → List String
sanitize_ordering_markers markers = sanitize_from [] markers

abbrev pub default_list {ℓ} : {A : Type ℓ} → List A → A → List A
default_list [] a = a ∷ []
default_list (b ∷ bs) a = b ∷ bs

abbrev pub default_time : Option ℤ → ℤ → Option ℤ
default_time none t = some t
default_time (some s) t = some s

-- `if cancelAccepted != nil && t == nil { t = … }`
abbrev pub time_if_cancelled : (accepted : Option ℤ) → Option ℤ → (ℤ → ℤ) → Option ℤ
time_if_cancelled (some accepted) none f = some (f accepted)
time_if_cancelled _ t f = t

unfoldable pub epoch_or : (own given : ℤ) → ℤ
epoch_or own given =
    if is_zero (non_negative own) && ltℤ (pos 0) given then given else non_negative own

abbrev pub accepted_at : ActiveInput → Option ℤ → Option ℤ
accepted_at req (some t) = some t
accepted_at req none =
    if req.cancel_accepted then some (non_negative req.runtime_timestamp_ms) else none

-- The times of the turn.
unfoldable pub normalize_times : ActiveInput → BaselineEvidence → BaselineEvidence
normalize_times req e =
    let runtime_ts = non_negative req.runtime_timestamp_ms in
    let accepted = accepted_at req e.cancel_accepted_at_ms in
    let fence = time_if_cancelled accepted e.cancel_fence_applied_at_ms (λ t. add64 t (pos 1)) in
    record e {
      turn_open_proposed_at_ms =
          default_time e.turn_open_proposed_at_ms (non_negative (sub64 runtime_ts (pos 1)));
      turn_open_at_ms = default_time e.turn_open_at_ms runtime_ts;
      cancel_accepted_at_ms = accepted;
      cancel_fence_applied_at_ms = fence;
      cancel_sent_at_ms = time_if_cancelled accepted e.cancel_sent_at_ms (λ t. t);
      cancel_ack_at_ms =
          time_if_cancelled accepted e.cancel_ack_at_ms (λ t. elim fence [ some f ↦ f | none ↦ t ]);
    }

-- Everything but the redaction decisions and the times.
unfoldable pub normalize_fields :
    ActiveInput
    → (terminal_outcome terminal_reason : String) → (defaults : SnapshotProvenance)
    → BaselineEvidence
    → BaselineEvidence
normalize_fields req terminal_outcome terminal_reason defaults e =
    let session_id = fallback e.session_id req.session_id in
    let turn_id = fallback e.turn_id req.turn_id in
    let event_id = fallback e.event_id (fallback req.event_id "evt-runtime-terminal") in
    record e {
      session_id = session_id;
      turn_id = turn_id;
      pipeline_version =
          fallback e.pipeline_version (default_pipeline_version req.pipeline_version);
      event_id = event_id;
      envelope_snapshot = fallback e.envelope_snapshot "eventabi/v1";
      payload_tags = default_list e.payload_tags PayloadClass.metadata;
      plan_hash = fallback e.plan_hash (plan_label req.turn_id);
      snapshot_provenance = provenance_fallback e.snapshot_provenance defaults;
      decision_outcomes = default_list e.decision_outcomes (
          admit_decision session_id turn_id event_id req.runtime_timestamp_ms
            req.wall_clock_timestamp_ms);
      ordering_markers =
          default_list (sanitize_ordering_markers e.ordering_markers)
            (sequence_marker req.runtime_sequence);
      merge_rule_id = fallback e.merge_rule_id "merge/default";
      merge_rule_version = fallback e.merge_rule_version "v1.0";
      authority_epoch = epoch_or e.authority_epoch req.authority_epoch;
      terminal_outcome = terminal_outcome;
      terminal_reason = terminal_reason;
      close_emitted = true;
    }

unfoldable pub normalize_baseline_evidence :
    BaselineEvidence
    → ActiveInput
    → (terminal_outcome terminal_reason : String) → (defaults : SnapshotProvenance)
    → Result BaselineEvidence
normalize_baseline_evidence e req terminal_outcome terminal_reason defaults = do
  decisions ←
      ensure_or02_redaction_decisions "L0" (default_list e.payload_tags PayloadClass.metadata)
        e.redaction_decisions
  ok (
      normalize_times req (
        normalize_fields req terminal_outcome terminal_reason
          (provenance_or defaults default_snapshot_provenance)
          (record e { redaction_decisions = decisions })))
