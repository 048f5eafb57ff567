-- ===== src/EventAbi/Record.antt =====
-- api/eventabi/types.go: EventRecord and its validation.
use realtime_speech_pipeline.Base.{
  String, not, ◌&&◌, ◌||◌, Option, none, some, Result, ok, err, ◌>>◌, refuse_if,
}
use realtime_speech_pipeline.Base.Int.{ℤ, is_negative}
use realtime_speech_pipeline.Base.Text.{is_empty}
use realtime_speech_pipeline.EventAbi.Types.{
  Lane, EventScope, PayloadClass, MediaTime, is_lane, is_control_lane, is_turn_scope,
  is_session_scope, is_payload_class, is_absent, absent_or_negative, validate_media_time,
}
use realtime_speech_pipeline.EventAbi.SchemaVersion.{matches_schema_version}

pub record EventRecord : Type 0 where
  pub schema_version : String
  pub event_scope : EventScope
  pub session_id : String
  pub turn_id : String
  pub pipeline_version : String
  pub event_id : String
  pub lane : Lane
  pub transport_sequence : Option ℤ
  pub runtime_sequence : ℤ
  pub authority_epoch : Option ℤ
  pub runtime_timestamp_ms : ℤ
  pub wall_clock_ms : ℤ
  pub payload_class : PayloadClass
  pub media_time : Option MediaTime

-- Audio has media time.
unfoldable pub media_rule : PayloadClass → Option MediaTime → Result (Unit {0})
media_rule PayloadClass.audio_raw none = err "media_time is required for payload_class=audio_raw"
media_rule PayloadClass.audio_raw (some m) = validate_media_time m
media_rule _ _ = ok tt

unfoldable pub validate : EventRecord → Result (Unit {0})
validate e = do
  refuse_if (not (matches_schema_version e.schema_version)) "invalid schema_version: %q"
  refuse_if (not (is_session_scope e.event_scope) && not (is_turn_scope e.event_scope))
      "invalid event_scope: %q"
  refuse_if (is_turn_scope e.event_scope && is_empty e.turn_id)
      "turn_id is required when event_scope=turn"
  refuse_if (is_turn_scope e.event_scope && is_absent e.authority_epoch)
      "authority_epoch is required when event_scope=turn"
  refuse_if (is_empty e.session_id || is_empty e.pipeline_version || is_empty e.event_id)
      "session_id, pipeline_version, and event_id are required"
  refuse_if (not (is_lane e.lane)) "invalid lane: %q"
  refuse_if (is_control_lane e.lane) "event_record cannot be ControlLane"
  refuse_if (absent_or_negative e.transport_sequence)
      "transport_sequence is required and must be >=0"
  refuse_if (is_negative e.runtime_sequence) "runtime_sequence must be >=0"
  refuse_if (is_negative e.runtime_timestamp_ms || is_negative e.wall_clock_ms)
      "timestamps must be >= 0"
  refuse_if (not (is_payload_class e.payload_class)) "invalid payload_class: %q"
  media_rule e.payload_class e.media_time
  ok tt
