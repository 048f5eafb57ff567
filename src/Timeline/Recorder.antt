-- ===== src/Timeline/Recorder.antt =====
-- internal/observability/timeline/recorder.go, Recorder: what is appended, and what is dropped.
pub mod Capacity
pub mod Downgrades
use realtime_speech_pipeline.Base.{
  ℕ, zero, suc, ◌+◌, String, Bool, true, false, not, ◌&&◌, ◌||◌, Option, none, some, List, [], ◌∷◌,
  ◌++◌, Result, ok, err, ◌>>◌, ◌>>=◌, refuse_if, if◌then◌else◌, ltb, leb,
}
use realtime_speech_pipeline.Base.Int.{ℤ, pos, negsuc, is_negative, non_negative}
use realtime_speech_pipeline.Base.Lists.{length}
use realtime_speech_pipeline.Base.Members.{has}
use realtime_speech_pipeline.Base.Text.{is_empty, fallback, concat}
use realtime_speech_pipeline.EventAbi.Types.{Lane, PayloadClass, SignalName, Emitter}
use realtime_speech_pipeline.EventAbi.Signal
use realtime_speech_pipeline.EventAbi.Signal.{ControlSignal, blank, scope_for, scope_text_for}
use realtime_speech_pipeline.Timeline.Baseline.{BaselineEvidence, validate_completeness}
use text.Mathlib.Text.{◌==◌}
use realtime_speech_pipeline.Timeline.{
  ProviderAttemptEvidence, InvocationSnapshotEvidence, validate_attempt, validate_snapshot,
}

pub record DetailEvent : Type 0 where
  pub session_id : String
  pub turn_id : String
  pub pipeline_version : String
  pub event_id : String
  pub transport_sequence : ℤ
  pub runtime_sequence : ℤ
  pub authority_epoch : ℤ
  pub runtime_timestamp_ms : ℤ
  pub wall_clock_timestamp_ms : ℤ
  pub reason : String

-- `DowngradeEmitted` is true exactly where `DowngradeSignal` is there.
pub record DetailAppendResult : Type 0 where
  pub stored : Bool
  pub dropped : Bool
  pub downgrade_emitted : Bool
  pub downgrade_signal : Option ControlSignal
  pub dropped_detail_count : ℕ

pub record StageAConfig : Type 0 where
  pub baseline_capacity : ℕ
  pub detail_capacity : ℕ
  pub attempt_capacity : ℕ
  pub invocation_snapshot_cap : ℕ
  pub enable_invocation_snapshot : Bool

-- `downgrade_by_turn` holds the keys that the map holds as true.
pub record Recorder : Type 0 where
  pub cfg : StageAConfig
  pub baseline_entries : List BaselineEvidence
  pub detail_entries : List DetailEvent
  pub attempt_entries : List ProviderAttemptEvidence
  pub snapshot_entries : List InvocationSnapshotEvidence
  pub dropped_details : ℕ
  pub downgrade_by_turn : List String

-- `if capacity < 1 { capacity = default }`
abbrev pub capacity_or : ℕ → ℤ → ℕ
capacity_or default (pos zero) = default
capacity_or default (pos (suc n)) = suc n
capacity_or default (negsuc n) = default

unfoldable pub new_recorder : (baselines details attempts snapshots : ℤ) (enabled : Bool) → Recorder
new_recorder baselines details attempts snapshots enabled = record {
  cfg = record {
    baseline_capacity = capacity_or 128 baselines;
    detail_capacity = capacity_or 512 details;
    attempt_capacity = capacity_or 1024 attempts;
    invocation_snapshot_cap = capacity_or 1024 snapshots;
    enable_invocation_snapshot = enabled;
  };
  baseline_entries = [];
  detail_entries = [];
  attempt_entries = [];
  snapshot_entries = [];
  dropped_details = 0;
  downgrade_by_turn = [];
}

unfoldable pub append_baseline_checked :
    Result (Unit {0}) → BaselineEvidence → Recorder → Recorder × Result (Unit {0})
append_baseline_checked (err e) evidence r = (r, err e)
append_baseline_checked (ok _) evidence r =
    if leb r.cfg.baseline_capacity (length r.baseline_entries)
    then (r, err "timeline baseline stage-a capacity exhausted")
    else (record r { baseline_entries = r.baseline_entries ++ evidence ∷ [] }, ok tt)

unfoldable pub append_baseline : BaselineEvidence → Recorder → Recorder × Result (Unit {0})
append_baseline evidence r = append_baseline_checked (validate_completeness evidence) evidence r

-- The attempts of a session, and of one turn of it unless none is named.
abbrev of_turn : (session_id turn_id : String) → ProviderAttemptEvidence → Bool
of_turn session_id turn_id entry =
    entry.session_id == session_id && (is_empty turn_id || entry.turn_id == turn_id)

unfoldable pub entries_of_turn :
    (session_id turn_id : String) → List ProviderAttemptEvidence → List ProviderAttemptEvidence
entries_of_turn session_id turn_id [] = []
entries_of_turn session_id turn_id (entry ∷ entries) =
    let rest = entries_of_turn session_id turn_id entries in
    if of_turn session_id turn_id entry then entry ∷ rest else rest

unfoldable pub provider_attempt_entries_for_turn :
    (session_id turn_id : String) → Recorder → List ProviderAttemptEvidence
provider_attempt_entries_for_turn session_id turn_id r =
    if is_empty session_id then [] else entries_of_turn session_id turn_id r.attempt_entries

unfoldable pub validate_attempts : List ProviderAttemptEvidence → Result (Unit {0})
validate_attempts [] = ok tt
validate_attempts (attempt ∷ rest) = do validate_attempt attempt; validate_attempts rest

-- The recorder afterwards: the one before, where an error is returned.
unfoldable pub append_attempts_checked :
    Result (Unit {0}) → List ProviderAttemptEvidence → Recorder → Recorder × Result (Unit {0})
append_attempts_checked (err e) attempts r = (r, err e)
append_attempts_checked (ok _) attempts r =
    if ltb r.cfg.attempt_capacity (length r.attempt_entries + length attempts)
    then (r, err "timeline provider attempt stage-a capacity exhausted")
    else (record r { attempt_entries = r.attempt_entries ++ attempts }, ok tt)

unfoldable pub append_provider_invocation_attempts :
    List ProviderAttemptEvidence → Recorder → Recorder × Result (Unit {0})
append_provider_invocation_attempts [] r = (r, ok tt)
append_provider_invocation_attempts (attempt ∷ rest) r =
    append_attempts_checked (validate_attempts (attempt ∷ rest)) (attempt ∷ rest) r

unfoldable pub append_snapshot_checked :
    Result (Unit {0}) → InvocationSnapshotEvidence → Recorder → Recorder × Result (Unit {0})
append_snapshot_checked (err e) snapshot r = (r, err e)
append_snapshot_checked (ok _) snapshot r =
    if leb r.cfg.invocation_snapshot_cap (length r.snapshot_entries)
    then (r, err "timeline invocation snapshot stage-a capacity exhausted")
    else (record r { snapshot_entries = r.snapshot_entries ++ snapshot ∷ [] }, ok tt)

unfoldable pub append_invocation_snapshot :
    InvocationSnapshotEvidence → Recorder → Recorder × Result (Unit {0})
append_invocation_snapshot snapshot r =
    if r.cfg.enable_invocation_snapshot
    then append_snapshot_checked (validate_snapshot snapshot) snapshot r
    else (r, ok tt)

unfoldable pub downgrade_signal_of : DetailEvent → ControlSignal
downgrade_signal_of detail = record blank {
  schema_version = "v1.0";
  event_scope = scope_for detail.turn_id;
  session_id = detail.session_id;
  turn_id = detail.turn_id;
  pipeline_version = detail.pipeline_version;
  event_id = detail.event_id;
  lane = Lane.control_lane;
  transport_sequence = some (non_negative detail.transport_sequence);
  runtime_sequence = non_negative detail.runtime_sequence;
  authority_epoch = non_negative detail.authority_epoch;
  runtime_timestamp_ms = detail.runtime_timestamp_ms;
  wall_clock_ms = detail.wall_clock_timestamp_ms;
  payload_class = PayloadClass.metadata;
  signal = SignalName.recording_level_downgraded;
  emitted_by = Emitter.or02;
  reason = fallback detail.reason "stage_a_detail_overflow";
  scope = scope_text_for detail.turn_id;
}

unfoldable pub build_recording_downgrade_signal : DetailEvent → Result ControlSignal
build_recording_downgrade_signal detail = do
  Signal.validate (downgrade_signal_of detail)
  ok (downgrade_signal_of detail)

abbrev pub key_of : DetailEvent → String
key_of detail = concat detail.session_id (concat "/" detail.turn_id)

-- The result of the first drop of a turn.
unfoldable pub downgraded : Result ControlSignal → ℕ → Result DetailAppendResult
downgraded (err e) count = err e
downgraded (ok signal) count = ok (record {
  stored = false;
  dropped = true;
  downgrade_emitted = true;
  downgrade_signal = some signal;
  dropped_detail_count = count;
})

abbrev pub dropped_result : ℕ → DetailAppendResult
dropped_result count = record {
  stored = false;
  dropped = true;
  downgrade_emitted = false;
  downgrade_signal = none;
  dropped_detail_count = count;
}

-- The detail does not fit.
unfoldable pub drop_detail : DetailEvent → Recorder → Recorder × Result DetailAppendResult
drop_detail detail r =
    let count = suc r.dropped_details in
    if has (key_of detail) r.downgrade_by_turn
    then (record r { dropped_details = count }, ok (dropped_result count))
    else (
      record r { dropped_details = count; downgrade_by_turn = key_of detail ∷ r.downgrade_by_turn },
      downgraded (build_recording_downgrade_signal detail) count,
    )

abbrev pub stored_result : ℕ → DetailAppendResult
stored_result count = record {
  stored = true;
  dropped = false;
  downgrade_emitted = false;
  downgrade_signal = none;
  dropped_detail_count = count;
}

unfoldable pub check_detail : DetailEvent → Result (Unit {0})
check_detail detail = do
  refuse_if
      (is_empty detail.session_id || is_empty detail.pipeline_version || is_empty detail.event_id)
      "session_id, pipeline_version, and event_id are required"
  refuse_if (is_negative detail.runtime_timestamp_ms || is_negative detail.wall_clock_timestamp_ms)
      "timestamps must be >= 0"

unfoldable pub append_detail_checked :
    Result (Unit {0}) → DetailEvent → Recorder → Recorder × Result DetailAppendResult
append_detail_checked (err e) detail r = (r, err e)
append_detail_checked (ok _) detail r =
    if ltb (length r.detail_entries) r.cfg.detail_capacity
    then (
      record r { detail_entries = r.detail_entries ++ detail ∷ [] },
      ok (stored_result r.dropped_details),
    )
    else drop_detail detail r

unfoldable pub append_detail : DetailEvent → Recorder → Recorder × Result DetailAppendResult
append_detail detail r = append_detail_checked (check_detail detail) detail r

-- A call of the recorder, and the recorder after it, or after a sequence of them.
pub data Call : Type 0 where
  baseline : BaselineEvidence → Call
  attempts : List ProviderAttemptEvidence → Call
  snapshot : InvocationSnapshotEvidence → Call
  detail : DetailEvent → Call

abbrev pub after : Call → Recorder → Recorder
after (Call.baseline b) r = (append_baseline b r).0
after (Call.attempts l) r = (append_provider_invocation_attempts l r).0
after (Call.snapshot s) r = (append_invocation_snapshot s r).0
after (Call.detail d) r = (append_detail d r).0

abbrev pub run : List Call → Recorder → Recorder
run [] r = r
run (call ∷ calls) r = run calls (after call r)
