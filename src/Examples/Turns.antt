-- ===== src/Examples/Turns.antt =====
-- The theorems on the turn arbiter and its plans at concrete inputs.
use realtime_speech_pipeline.Base.{
  ap, ℕ, zero, suc, ◌^◌, ◌≡◌, ◌≢◌, ◌⊎◌, ◌↔◌, refl, String, true, false, Option, none, some, List,
  [], ◌∷◌, Result, ok, err, arith,
}
use realtime_speech_pipeline.Base.Int.{pos}
use realtime_speech_pipeline.Base.Lists.{All}
use realtime_speech_pipeline.ControlPlane.Outcome.{OutcomeKind, OutcomeScope}
use realtime_speech_pipeline.ControlPlane.Turn.{TurnState, TransitionTrigger}
use realtime_speech_pipeline.ControlPlane.Turn.Lifecycle.{Run}
use realtime_speech_pipeline.ControlPlane.TurnPlan.{
  SnapshotProvenance, ResolvedTurnPlan, validate_provenance,
}
use realtime_speech_pipeline.LocalAdmission.{CapacityDisposition}
use realtime_speech_pipeline.PlanResolver
use realtime_speech_pipeline.PlanResolver.{issue_context, context_of, with_defaults}
use realtime_speech_pipeline.PlanResolver.Seeds.{Byte, Digests, seed_word, issue_context-seed}
use realtime_speech_pipeline.PlanResolver.Materialized.{
  IsMaterializable, frozen, resolve-IsMaterializable,
}
use realtime_speech_pipeline.Timeline.Baseline.{validate_invocations}
use realtime_speech_pipeline.Timeline.Recorder.{
  Recorder, new_recorder, provider_attempt_entries_for_turn, entries_of_turn,
}
use realtime_speech_pipeline.TurnArbiter.{
  OpenRequest, OpenResult, TurnStartBundle, TurnStartBundleInput, validate_bundle,
}
use realtime_speech_pipeline.TurnArbiter.Opening.{
  handle_turn_open_proposed, proposed, activated, plan_input,
}
use realtime_speech_pipeline.TurnArbiter.Opening.Opens.{
  Permits, authority_of, handle_turn_open_proposed-Permits,
}
use realtime_speech_pipeline.TurnArbiter.Opening.Settles.{
  IsOpened, IsDenied, handle_turn_open_proposed-Settled,
}
use realtime_speech_pipeline.TurnArbiter.Drafts.{ActiveInput}
use realtime_speech_pipeline.TurnArbiter.Active.{
  ActiveResult, handle_active, committed, ended, event,
}
use realtime_speech_pipeline.TurnArbiter.Active.Endings.{
  Ends, ClosedBy, unavailable, handle_active-Ends,
}
use realtime_speech_pipeline.TurnArbiter.Active.Committed.{Recorded, handle_active-Recorded}
use realtime_speech_pipeline.TurnArbiter.Active.Commits.{
  IsReady, CanCommit, stored, evidence_with, handle_active-commits,
}

abbrev ones : ℕ → List ℕ
ones zero = []
ones (suc n) = 1 ∷ ones n

-- A digest that is the same for every text.
abbrev constant_digest : String → List ℕ
constant_digest s = ones 32

ones-Byte : (n : ℕ) → All Byte (ones n)
ones-Byte zero = tt
ones-Byte (suc n) = (omega arith, ones-Byte n)

constant-Digests : Digests constant_digest
constant-Digests = record { size = λ s. refl; bytes = λ s. ones-Byte 32 }

issue_context-seed_example :
    (seed_word constant_digest "plan" (pos 3) ≢ 2 ^ 63
      → issue_context constant_digest "plan" (pos 3)
        ≡ ok (context_of constant_digest "plan" (pos 3)))
    × (seed_word constant_digest "plan" (pos 3) ≡ 2 ^ 63
        → issue_context constant_digest "plan" (pos 3) ≡ err "determinism.seed must be >=0")
issue_context-seed_example = issue_context-seed constant_digest "plan" (pos 3) constant-Digests refl

abbrev snapshots : SnapshotProvenance
snapshots = record {
  routing_view_snapshot = "routing/v1";
  admission_policy_snapshot = "admission/v1";
  abi_compatibility_snapshot = "abi/v1";
  version_resolution_snapshot = "version/v1";
  policy_resolution_snapshot = "policy/v1";
  provider_health_snapshot = "health/v1";
}

abbrev plan_request : PlanResolver.Input
plan_request = record {
  turn_id = "t1";
  pipeline_version = "p1";
  graph_definition_ref = "";
  execution_profile = "";
  authority_epoch = pos 3;
  snapshot_provenance = snapshots;
  fail_materialization = false;
  allowed_adaptive_actions = some ("retry" ∷ []);
}

abbrev plan : ResolvedTurnPlan
plan = frozen constant_digest (with_defaults plan_request)

resolve-IsMaterializable_example : (PlanResolver.resolve constant_digest plan_request ≡ ok plan) ↔ (
    IsMaterializable constant_digest plan_request
    × (plan ≡ frozen constant_digest (with_defaults plan_request)))
resolve-IsMaterializable_example =
    resolve-IsMaterializable constant_digest plan_request plan constant-Digests

abbrev bundle : TurnStartBundle
bundle = record {
  pipeline_version = "p1";
  graph_definition_ref = "g1";
  execution_profile = "simple";
  graph_fingerprint = "f1";
  allowed_adaptive_actions = some ("retry" ∷ []);
  snapshot_provenance = snapshots;
  has_cp_admission_decision = true;
  cp_admission_outcome_kind = OutcomeKind.defer;
  cp_admission_scope = OutcomeScope.tenant;
  cp_admission_reason = "cp_capacity";
  has_lease_decision = true;
  lease_authority_epoch = pos 4;
  lease_authority_valid = true;
  lease_authority_granted = true;
}

abbrev resolver : TurnStartBundleInput → Result TurnStartBundle
resolver req = ok bundle

bundle-valid : validate_bundle bundle ≡ ok tt
unfolding validate_bundle validate_provenance
bundle-valid = refl

abbrev proposal : OpenRequest
proposal = record {
  session_id = "s1";
  turn_id = "t1";
  event_id = "e1";
  runtime_timestamp_ms = pos 10;
  wall_clock_timestamp_ms = pos 10;
  pipeline_version = "p1";
  authority_epoch = pos 3;
  snapshot_valid = true;
  capacity_disposition = CapacityDisposition.allow;
  authority_epoch_valid = true;
  authority_authorized = true;
  snapshot_failure_policy = OutcomeKind.defer;
  plan_failure_policy = OutcomeKind.reject;
  plan_should_fail = false;
}

only_bundle : (b : TurnStartBundle) → ok bundle ≡ ok b → bundle ≡ b
only_bundle b e = cc

-- The control plane defers the turn.
handle_turn_open_proposed-Settled_example :
    (r : OpenResult) × (handle_turn_open_proposed constant_digest resolver proposal ≡ ok r)
    × Run TurnState.idle r.transitions r.state
    × (IsOpened r ⊎ IsDenied r)
handle_turn_open_proposed-Settled_example =
    handle_turn_open_proposed-Settled constant_digest resolver proposal
      (record { session = refl; event = refl; runtime_time = refl; wall_time = refl }, refl)
      λ b e. rw (← only_bundle b e) bundle-valid

-- A bundle of a control plane that admits the turn, and the plan that is made for it.
abbrev admitting : TurnStartBundle
admitting = record bundle { cp_admission_outcome_kind = OutcomeKind.admit }

abbrev admit_all : TurnStartBundleInput → Result TurnStartBundle
admit_all req = ok admitting

abbrev opened_plan : ResolvedTurnPlan
opened_plan =
    frozen constant_digest
      (with_defaults (plan_input proposal admitting (authority_of proposal admitting)))

handle_turn_open_proposed-Permits_example :
    (handle_turn_open_proposed constant_digest admit_all proposal
      ≡ ok (activated proposed opened_plan))
    ↔ Permits constant_digest admit_all proposal opened_plan
handle_turn_open_proposed-Permits_example =
    handle_turn_open_proposed-Permits constant_digest admit_all proposal opened_plan

abbrev ready_turn : ActiveInput
ready_turn = record {
  session_id = "s1";
  turn_id = "t1";
  event_id = "e2";
  pipeline_version = "p1";
  snapshot_provenance = snapshots;
  transport_sequence = pos 1;
  runtime_sequence = pos 2;
  runtime_timestamp_ms = pos 20;
  wall_clock_timestamp_ms = pos 20;
  authority_epoch = pos 3;
  authority_revoked = false;
  cancel_accepted = false;
  provider_failure = false;
  provider_invocation_outcomes = [];
  node_timeout_or_failure = false;
  transport_disconnect_or_stall = false;
  baseline_evidence_append_failed = false;
  baseline_evidence = none;
  no_legal_continue_or_fallback = false;
  terminal_success_ready = true;
}

abbrev recorder : Recorder
recorder = new_recorder (pos 1) (pos 1) (pos 1) (pos 1) false

ready : IsReady ready_turn recorder
unfolding new_recorder provider_attempt_entries_for_turn entries_of_turn validate_invocations
ready = record {
  has_room = refl;
  no_attempts = refl;
  no_evidence = refl;
  has_session = refl;
  has_turn = refl;
  valid_outcomes = refl;
  may_append = refl;
}

abbrev can : CanCommit ready_turn
can = record {
  kept_authority = refl;
  not_cancelled = refl;
  provider_fine = refl;
  nodes_fine = refl;
  connected = refl;
  may_continue = refl;
  terminal_success = refl;
}

handle_active-commits_example : handle_active resolver ready_turn (some recorder) ≡ (
  some (stored recorder (evidence_with ready_turn "commit" "" bundle)),
  ok (ended committed TransitionTrigger.commit),
)
handle_active-commits_example =
    handle_active-commits resolver ready_turn recorder bundle ready can refl

abbrev done : ActiveResult
done = ended committed TransitionTrigger.commit

answered : (handle_active resolver ready_turn (some recorder)).1 ≡ ok done
answered =
    ap (λ (out : Option Recorder × Result ActiveResult). out.1)
      (handle_active-commits resolver ready_turn recorder bundle ready can refl)

handle_active-Ends_example :
    Ends resolver ready_turn (some recorder) (some (event "commit" "")) done
handle_active-Ends_example = handle_active-Ends resolver ready_turn (some recorder) done answered

handle_active-Recorded_example :
    (ClosedBy (event "commit" "") done
      × Recorded
          (event "commit" "")
          (some recorder)
          (handle_active resolver ready_turn (some recorder)).0)
    ⊎ (ClosedBy unavailable done
        × ((handle_active resolver ready_turn (some recorder)).0 ≡ some recorder))
handle_active-Recorded_example =
    handle_active-Recorded resolver ready_turn (some recorder) done (event "commit" "") answered
      refl
