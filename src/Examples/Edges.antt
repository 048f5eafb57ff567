-- ===== src/Examples/Edges.antt =====
-- The theorems on edges at concrete inputs.
use realtime_speech_pipeline.Base.{◌≡◌, refl, true, false, ok}
use realtime_speech_pipeline.Base.Int.{pos}
use realtime_speech_pipeline.EventAbi.Types.{Lane, validate_seq_range}
use realtime_speech_pipeline.Buffering.{PressureInput, handle_edge_pressure}
use realtime_speech_pipeline.Buffering.SyncLoss.{SyncLossInput}
use realtime_speech_pipeline.Buffering.Pressure.{IsComplete, planned, handle_edge_pressure-planned}

abbrev pressed : PressureInput
pressed = record {
  session_id = "s1";
  turn_id = "t1";
  pipeline_version = "p1";
  edge_id = "edge1";
  event_id = "e1";
  transport_sequence = pos 4;
  runtime_sequence = pos 7;
  authority_epoch = pos 1;
  runtime_timestamp_ms = pos 100;
  wall_clock_timestamp_ms = pos 100;
  target_lane = Lane.data_lane;
  drop_range_start = pos 2;
  drop_range_end = pos 3;
  high_watermark = true;
  emit_recovery = true;
  shed = true;
}

pressed-IsComplete : IsComplete pressed
unfolding validate_seq_range
pressed-IsComplete = record {
  session = refl;
  pipeline = refl;
  edge = refl;
  event = refl;
  target = refl;
  range = refl;
  runtime_time = refl;
  wall_time = refl;
}

handle_edge_pressure-planned_example : handle_edge_pressure pressed ≡ ok (planned pressed)
handle_edge_pressure-planned_example = handle_edge_pressure-planned pressed pressed-IsComplete

abbrev lost : SyncLossInput
lost = record {
  session_id = "s1";
  turn_id = "";
  pipeline_version = "p1";
  event_id = "e1";
  transport_sequence = pos 4;
  runtime_sequence = pos 7;
  authority_epoch = pos 1;
  runtime_timestamp_ms = pos 100;
  wall_clock_timestamp_ms = pos 100;
  sync_domain = "av";
  discontinuity_id = "d1";
  use_atomic_drop = false;
  edge_id = "";
  target_lane = Lane.other "";
  drop_range_start = pos 0;
  drop_range_end = pos 0;
}
