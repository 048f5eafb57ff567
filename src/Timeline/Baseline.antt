-- ===== src/Timeline/Baseline.antt =====
-- internal/observability/timeline/recorder.go: BaselineEvidence, what a turn leaves behind for a replay,
-- and the check that it is complete.
use realtime_speech_pipeline.Base.{
  String, Bool, true, false, not, ◌&&◌, ◌||◌, Option, none, some, List, [], ◌∷◌, Result, ok, ◌>>◌,
  refuse_if,
}
use realtime_speech_pipeline.Base.Int.{ℤ, is_negative}
use realtime_speech_pipeline.Base.Text.{is_empty}
use realtime_speech_pipeline.EventAbi.Types.{
  PayloadClass, RedactionDecision, is_payload_class, validate_redaction,
}
use realtime_speech_pipeline.ControlPlane.Outcome
use realtime_speech_pipeline.ControlPlane.Outcome.{DecisionOutcome}
use realtime_speech_pipeline.ControlPlane.TurnPlan.{
  SnapshotProvenance, validate_provenance, validate_distinct, no_entries,
}
use realtime_speech_pipeline.SecurityPolicy.{has_class}
use realtime_speech_pipeline.Timeline.{InvocationOutcomeEvidence, validate_invocation_outcome}
use text.Mathlib.Text.{◌==◌}

pub record BaselineEvidence : Type 0 where
  pub session_id : String
  pub turn_id : String
  pub pipeline_version : String
  pub event_id : String
  pub envelope_snapshot : String
  pub payload_tags : List PayloadClass
  pub redaction_decisions : List RedactionDecision
  pub plan_hash : String
  pub snapshot_provenance : SnapshotProvenance
  pub decision_outcomes : List DecisionOutcome
  pub invocation_outcomes : List InvocationOutcomeEvidence
  pub determinism_seed : ℤ
  pub ordering_markers : List String
  pub merge_rule_id : String
  pub merge_rule_version : String
  pub authority_epoch : ℤ
  pub migration_markers : List String
  pub terminal_outcome : String
  pub terminal_reason : String
  pub close_emitted : Bool
  pub turn_open_proposed_at_ms : Option ℤ
  pub turn_open_at_ms : Option ℤ
  pub first_output_at_ms : Option ℤ
  pub cancel_accepted_at_ms : Option ℤ
  pub cancel_fence_applied_at_ms : Option ℤ
  pub cancel_sent_at_ms : Option ℤ
  pub cancel_ack_at_ms : Option ℤ
  pub accepted_stale_epoch_output : Bool

unfoldable pub validate_tags : List PayloadClass → Result (Unit {0})
validate_tags [] = ok tt
validate_tags (tag ∷ tags) = do
  refuse_if (not (is_payload_class tag)) "invalid payload classification tag: %s"
  validate_tags tags

-- The loop over the redaction decisions, with the classes decided so far.
unfoldable pub validate_decisions :
    (decided : List PayloadClass) → List RedactionDecision → Result (Unit {0})
validate_decisions decided [] = ok tt
validate_decisions decided (d ∷ ds) = do
  validate_redaction d
  refuse_if (has_class d.payload_class decided) "duplicate redaction decision for payload class: %s"
  validate_decisions (d.payload_class ∷ decided) ds

-- The classes decided after the loop.
abbrev pub decided_classes :
    (decided : List PayloadClass) → List RedactionDecision → List PayloadClass
decided_classes decided [] = decided
decided_classes decided (d ∷ ds) = decided_classes (d.payload_class ∷ decided) ds

unfoldable pub require_decided : (decided tags : List PayloadClass) → Result (Unit {0})
require_decided decided [] = ok tt
require_decided decided (tag ∷ tags) = do
  refuse_if (not (has_class tag decided)) "missing redaction decision for payload class: %s"
  require_decided decided tags

unfoldable pub validate_outcomes : List DecisionOutcome → Result (Unit {0})
validate_outcomes [] = ok tt
validate_outcomes (out ∷ rest) = do Outcome.validate out; validate_outcomes rest

unfoldable pub validate_invocations : List InvocationOutcomeEvidence → Result (Unit {0})
validate_invocations [] = ok tt
validate_invocations (invocation ∷ rest) = do
  validate_invocation_outcome invocation
  validate_invocations rest

abbrev pub is_absent_time : Option ℤ → Bool
is_absent_time none = true
is_absent_time (some _) = false

-- The checks of an accepted cancellation.
unfoldable pub validate_cancel : BaselineEvidence → Result (Unit {0})
validate_cancel b = do
  refuse_if
      (not (is_absent_time b.cancel_accepted_at_ms) && is_absent_time b.cancel_fence_applied_at_ms)
      "cancel fence timestamp is required when cancel was accepted"
  refuse_if (not (is_absent_time b.cancel_accepted_at_ms) && is_absent_time b.cancel_sent_at_ms)
      "cancel_sent_at is required when cancel was accepted"

unfoldable pub validate_completeness : BaselineEvidence → Result (Unit {0})
validate_completeness b = do
  refuse_if
      (is_empty b.session_id
        || is_empty b.turn_id
        || is_empty b.pipeline_version
        || is_empty b.event_id)
      "session_id, turn_id, pipeline_version, and event_id are required"
  refuse_if (is_empty b.envelope_snapshot) "envelope snapshot is required"
  refuse_if (no_entries b.payload_tags) "at least one payload classification tag is required"
  validate_tags b.payload_tags
  refuse_if (no_entries b.redaction_decisions) "at least one redaction decision is required"
  validate_decisions [] b.redaction_decisions
  require_decided (decided_classes [] b.redaction_decisions) b.payload_tags
  refuse_if (is_empty b.plan_hash) "plan hash is required"
  validate_provenance b.snapshot_provenance
  refuse_if (no_entries b.decision_outcomes) "at least one decision outcome is required"
  validate_outcomes b.decision_outcomes
  validate_invocations b.invocation_outcomes
  refuse_if (no_entries b.ordering_markers) "at least one ordering marker is required"
  validate_distinct is_empty "ordering markers cannot contain empty values"
      "ordering markers must be unique" [] b.ordering_markers
  refuse_if (is_empty b.merge_rule_id || is_empty b.merge_rule_version)
      "merge rule id/version are required"
  refuse_if (is_negative b.authority_epoch) "authority epoch must be >= 0"
  refuse_if (not (b.terminal_outcome == "commit") && not (b.terminal_outcome == "abort"))
      "terminal outcome must be commit or abort"
  refuse_if (not b.close_emitted) "close marker is required"
  refuse_if (b.terminal_outcome == "abort" && is_empty b.terminal_reason)
      "terminal reason is required for abort outcomes"
  validate_cancel b

abbrev pub is_accepted_turn : BaselineEvidence → Bool
is_accepted_turn b = not (is_absent_time b.turn_open_at_ms)
