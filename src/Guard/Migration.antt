-- ===== src/Guard/Migration.antt =====
-- internal/runtime/guard/migration.go: the signals of a migration, and the rejection of output from an
-- old placement.
pub mod Signals
use realtime_speech_pipeline.Base.{
  ℕ, suc, String, Bool, true, false, ◌||◌, some, List, [], ◌∷◌, ◌++◌, Result, ok, err, ◌>>=◌, ◌>>◌,
  refuse_if, if◌then◌else◌,
}
use realtime_speech_pipeline.Base.Int.{ℤ, pos, add64, non_negative}
use realtime_speech_pipeline.Base.Lists.{length}
use realtime_speech_pipeline.Base.Text.{is_empty, concat, decimal}
use realtime_speech_pipeline.ControlPlane.Outcome
use realtime_speech_pipeline.ControlPlane.Outcome.{
  OutcomeKind, OutcomePhase, OutcomeScope, OutcomeEmitter, DecisionOutcome,
}
use realtime_speech_pipeline.EventAbi.Types.{Lane, PayloadClass, SignalName, Emitter}
use realtime_speech_pipeline.EventAbi.Signal
use realtime_speech_pipeline.EventAbi.Signal.{ControlSignal, blank, scope_for, scope_text_for}

pub record MigrationInput : Type 0 where
  pub session_id : String
  pub turn_id : String
  pub pipeline_version : String
  pub event_id_base : String
  pub transport_sequence : ℤ
  pub runtime_sequence : ℤ
  pub authority_epoch : ℤ
  pub runtime_timestamp_ms : ℤ
  pub wall_clock_timestamp_ms : ℤ
  pub include_session_handoff : Bool

-- The literal of buildMigrationSignal.
unfoldable pub migration_signal :
    MigrationInput → SignalName → Emitter → String → (offset : ℕ) → ControlSignal
migration_signal req name emitter reason offset = record blank {
  schema_version = "v1.0";
  event_scope = scope_for req.turn_id;
  session_id = req.session_id;
  turn_id = req.turn_id;
  pipeline_version = req.pipeline_version;
  event_id = concat req.event_id_base (concat "-" (decimal offset));
  lane = Lane.control_lane;
  transport_sequence = some (non_negative (add64 req.transport_sequence (pos offset)));
  runtime_sequence = non_negative (add64 req.runtime_sequence (pos offset));
  authority_epoch = non_negative req.authority_epoch;
  runtime_timestamp_ms = non_negative (add64 req.runtime_timestamp_ms (pos offset));
  wall_clock_ms = non_negative (add64 req.wall_clock_timestamp_ms (pos offset));
  payload_class = PayloadClass.metadata;
  signal = name;
  emitted_by = emitter;
  reason = reason;
  scope = scope_text_for req.turn_id;
}

unfoldable pub build_migration_signal :
    MigrationInput → SignalName → Emitter → String → (offset : ℕ) → Result ControlSignal
build_migration_signal req name emitter reason offset = do
  Signal.validate (migration_signal req name emitter reason offset)
  ok (migration_signal req name emitter reason offset)

-- The steps of a migration with their emitters and reasons.
pub record MigrationStep : Type 0 where
  pub signal : SignalName
  pub emitter : Emitter
  pub reason : String

abbrev pub ordered : List MigrationStep
ordered =
    record {
      signal = SignalName.lease_rotated;
      emitter = Emitter.cp07;
      reason = "authority_epoch_rotation";
    }
    ∷ record {
      signal = SignalName.migration_start;
      emitter = Emitter.cp08;
      reason = "region_failover_start";
    }
    ∷ record {
      signal = SignalName.migration_finish;
      emitter = Emitter.cp08;
      reason = "region_failover_complete";
    }
    ∷ []

-- The loop from one index on.
unfoldable pub build_steps :
    MigrationInput → (index : ℕ) → List MigrationStep → Result (List ControlSignal)
build_steps req index [] = ok []
build_steps req index (s ∷ steps) = do
  sig ← build_migration_signal req s.signal s.emitter s.reason index
  sigs ← build_steps req (suc index) steps
  ok (sig ∷ sigs)

abbrev pub handoff : MigrationStep
handoff = record {
  signal = SignalName.session_handoff;
  emitter = Emitter.cp08;
  reason = "authoritative_handoff";
}

unfoldable pub build_migration_signals : MigrationInput → Result (List ControlSignal)
build_migration_signals req = do
  refuse_if (is_empty req.session_id || is_empty req.pipeline_version || is_empty req.event_id_base)
      "session_id, pipeline_version, and event_id_base are required"
  sigs ← build_steps req 0 ordered
  last ←
      (if req.include_session_handoff then build_steps req (length sigs) (handoff ∷ []) else ok [])
  ok (sigs ++ last)

unfoldable pub old_placement_outcome :
    (session_id turn_id event_id : String) (runtime_ts wall_ts authority_epoch : ℤ)
    → DecisionOutcome
old_placement_outcome session_id turn_id event_id runtime_ts wall_ts authority_epoch = record {
  outcome_kind = OutcomeKind.stale_epoch_reject;
  phase = OutcomePhase.scheduling_point;
  scope = OutcomeScope.node_dispatch;
  session_id = session_id;
  turn_id = turn_id;
  event_id = event_id;
  runtime_timestamp_ms = runtime_ts;
  wall_clock_ms = wall_ts;
  emitted_by = OutcomeEmitter.rk24;
  authority_epoch = some authority_epoch;
  reason = "authority_epoch_mismatch";
}

unfoldable pub old_placement_signal :
    (session_id turn_id event_id : String) (runtime_ts wall_ts authority_epoch : ℤ) → ControlSignal
old_placement_signal session_id turn_id event_id runtime_ts wall_ts authority_epoch = record blank {
  schema_version = "v1.0";
  event_scope = scope_for turn_id;
  session_id = session_id;
  turn_id = turn_id;
  pipeline_version = "pipeline-v1";
  event_id = event_id;
  lane = Lane.control_lane;
  transport_sequence = some (pos 0);
  runtime_sequence = pos 0;
  authority_epoch = authority_epoch;
  runtime_timestamp_ms = runtime_ts;
  wall_clock_ms = wall_ts;
  payload_class = PayloadClass.metadata;
  signal = SignalName.stale_epoch_reject;
  emitted_by = Emitter.rk24;
  reason = "authority_epoch_mismatch";
  scope = scope_text_for turn_id;
}

unfoldable pub reject_old_placement_output :
    (session_id turn_id event_id : String) (runtime_ts wall_ts authority_epoch : ℤ)
    → Result (DecisionOutcome × ControlSignal)
reject_old_placement_output session_id turn_id event_id runtime_ts wall_ts authority_epoch = do
  let outcome = old_placement_outcome session_id turn_id event_id runtime_ts wall_ts authority_epoch
  Outcome.validate outcome
  let sig = old_placement_signal session_id turn_id event_id runtime_ts wall_ts authority_epoch
  Signal.validate sig
  ok (outcome, sig)
