-- ===== src/EventAbi/Types.antt =====
-- api/eventabi/types.go: lanes, scopes, payload classes, redaction actions, names of control signals
-- and of their emitters. The last constructor of each enumeration is any other string.
use realtime_speech_pipeline.Base.{
  String, Bool, true, false, Option, Result, ok, ◌>>◌, refuse_if, not, ◌&&◌, some, none, ◌||◌,
}
use realtime_speech_pipeline.Base.Int.{ℤ, is_negative, ltℤ}
use realtime_speech_pipeline.Base.Text.{is_empty}

pub data Lane : Type 0 where
  data_lane control_lane telemetry_lane : Lane
  other : String → Lane

pub data EventScope : Type 0 where
  session turn : EventScope
  other : String → EventScope

pub data PayloadClass : Type 0 where
  pii phi audio_raw text_raw derived_summary metadata : PayloadClass
  other : String → PayloadClass

pub data RedactionAction : Type 0 where
  allow mask hash drop tokenize : RedactionAction
  other : String → RedactionAction

pub data SignalName : Type 0 where
  turn_open_proposed turn_open commit abort close barge_in stop cancel watermark : SignalName
  budget_warning budget_exhausted degrade fallback discontinuity drop_notice : SignalName
  flow_xoff flow_xon credit_grant provider_error circuit_event provider_switch : SignalName
  lease_issued lease_rotated migration_start migration_finish session_handoff : SignalName
  admit reject defer shed stale_epoch_reject deauthorized_drain : SignalName
  connected reconnecting disconnected ended silence stall : SignalName
  output_accepted playback_started playback_completed playback_cancelled : SignalName
  recording_level_downgraded : SignalName
  other : String → SignalName

pub data Emitter : Type 0 where
  rk02 rk03 rk06 rk11 rk12 rk13 rk14 rk15 rk16 rk17 rk22 rk23 rk24 rk25 : Emitter
  or02 cp05 cp07 cp08 : Emitter
  other : String → Emitter

abbrev pub is_lane : Lane → Bool
is_lane (Lane.other _) = false
is_lane _ = true

-- The zero value `""` of the enumeration.
abbrev pub no_lane : Lane → Bool
no_lane (Lane.other s) = is_empty s
no_lane _ = false

abbrev pub is_control_lane : Lane → Bool
is_control_lane Lane.control_lane = true
is_control_lane _ = false

abbrev pub is_turn_scope : EventScope → Bool
is_turn_scope EventScope.turn = true
is_turn_scope _ = false

abbrev pub is_session_scope : EventScope → Bool
is_session_scope EventScope.session = true
is_session_scope _ = false

abbrev pub is_payload_class : PayloadClass → Bool
is_payload_class (PayloadClass.other _) = false
is_payload_class _ = true

abbrev pub is_metadata : PayloadClass → Bool
is_metadata PayloadClass.metadata = true
is_metadata _ = false

abbrev pub is_audio_raw : PayloadClass → Bool
is_audio_raw PayloadClass.audio_raw = true
is_audio_raw _ = false

abbrev pub is_redaction_action : RedactionAction → Bool
is_redaction_action (RedactionAction.other _) = false
is_redaction_action _ = true

abbrev pub is_control_signal_name : SignalName → Bool
is_control_signal_name (SignalName.other _) = false
is_control_signal_name _ = true

abbrev pub no_signal : SignalName → Bool
no_signal (SignalName.other s) = is_empty s
no_signal _ = false

abbrev pub is_control_signal_emitter : Emitter → Bool
is_control_signal_emitter (Emitter.other _) = false
is_control_signal_emitter _ = true

pub record RedactionDecision : Type 0 where
  pub payload_class : PayloadClass
  pub action : RedactionAction

unfoldable pub validate_redaction : RedactionDecision → Result (Unit {0})
validate_redaction d = do
  refuse_if (not (is_payload_class d.payload_class))
      "invalid payload_class in redaction_decision: %q"
  refuse_if (not (is_redaction_action d.action)) "invalid redaction action: %q"
  ok tt

pub record MediaTime : Type 0 where
  pub sample_index : Option ℤ
  pub pts_ms : Option ℤ

abbrev pub is_absent {ℓ} : {A : Type ℓ} → Option A → Bool
is_absent none = true
is_absent (some _) = false

-- `p != nil && *p < 0`
abbrev pub given_negative : Option ℤ → Bool
given_negative none = false
given_negative (some n) = is_negative n

-- `p == nil || *p < 0`
abbrev pub absent_or_negative : Option ℤ → Bool
absent_or_negative none = true
absent_or_negative (some n) = is_negative n

unfoldable pub validate_media_time : MediaTime → Result (Unit {0})
validate_media_time m = do
  refuse_if (is_absent m.sample_index && is_absent m.pts_ms)
      "media_time requires sample_index or pts_ms"
  refuse_if (given_negative m.sample_index) "media_time.sample_index must be >=0"
  refuse_if (given_negative m.pts_ms) "media_time.pts_ms must be >=0"
  ok tt

pub record SeqRange : Type 0 where
  pub start : ℤ
  pub end : ℤ

unfoldable pub validate_seq_range : SeqRange → Result (Unit {0})
validate_seq_range r = do
  refuse_if (is_negative r.start || is_negative r.end) "seq_range start/end must be >=0"
  refuse_if (ltℤ r.end r.start) "seq_range end must be >= start"
  ok tt
