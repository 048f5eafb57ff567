-- ===== src/Examples/Migration.antt =====
-- The theorems on migrations at concrete inputs.
use realtime_speech_pipeline.Base.{◌≡◌, refl, true, ok}
use realtime_speech_pipeline.Base.Int.{pos, negsuc}
use realtime_speech_pipeline.Base.Lists.{All}
use realtime_speech_pipeline.EventAbi.Gateway.Batches.{IsAccepted}
use realtime_speech_pipeline.Guard.Migration.{MigrationInput, build_migration_signals}
use realtime_speech_pipeline.Guard.Migration.Signals.{
  planned_steps, steps_of, build_migration_signals-planned,
}

abbrev moving : MigrationInput
moving = record {
  session_id = "s1";
  turn_id = "t1";
  pipeline_version = "p1";
  event_id_base = "e1";
  transport_sequence = negsuc 0;
  runtime_sequence = pos 7;
  authority_epoch = pos 2;
  runtime_timestamp_ms = pos 100;
  wall_clock_timestamp_ms = pos 100;
  include_session_handoff = true;
}

build_migration_signals-planned_example :
    (build_migration_signals moving ≡ ok (planned_steps moving 0 (steps_of moving)))
    × All IsAccepted (planned_steps moving 0 (steps_of moving))
build_migration_signals-planned_example =
    build_migration_signals-planned moving
      (record { session = refl; pipeline = refl; event = refl })
