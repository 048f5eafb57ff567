-- ===== src/Examples/Records.antt =====
-- The theorems on the recorder at concrete inputs.
use realtime_speech_pipeline.Base.{◌≡◌, refl, false, String, true, suc, List, [], ◌∷◌, ok, err}
use realtime_speech_pipeline.Base.Int.{pos, ltℤ}
use realtime_speech_pipeline.Base.Members.{has}
use realtime_speech_pipeline.EventAbi.Signal
use realtime_speech_pipeline.Timeline.{ProviderAttemptEvidence, validate_attempt}
use realtime_speech_pipeline.Timeline.Outcomes.{invocation_outcomes_from_provider_attempts}
use realtime_speech_pipeline.Timeline.Outcomes.Lone.{lone_outcome, invocation_outcomes-lone}
use realtime_speech_pipeline.Timeline.Recorder.{
  Recorder, DetailEvent, new_recorder, append_detail, append_detail_checked,
  append_provider_invocation_attempts, append_attempts_checked, validate_attempts, drop_detail,
  check_detail, downgrade_signal_of, key_of, Call, run,
}
use realtime_speech_pipeline.Timeline.Recorder.Capacity.{IsSound, run-IsSound}
use realtime_speech_pipeline.Timeline.Recorder.Downgrades.{
  has_room, dropped_answer, dropped_before, append_detail-downgrades_once,
}

abbrev detail_of : (event_id turn_id : String) → DetailEvent
detail_of event_id turn_id = record {
  session_id = "s1";
  turn_id = turn_id;
  pipeline_version = "p1";
  event_id = event_id;
  transport_sequence = pos 0;
  runtime_sequence = pos 0;
  authority_epoch = pos 1;
  runtime_timestamp_ms = pos 10;
  wall_clock_timestamp_ms = pos 10;
  reason = "";
}

abbrev attempt : ProviderAttemptEvidence
attempt = record {
  session_id = "s1";
  turn_id = "t1";
  pipeline_version = "p1";
  event_id = "e1";
  provider_invocation_id = "i1";
  modality = "stt";
  provider_id = "a";
  attempt = pos 1;
  outcome_class = "timeout";
  retryable = true;
  retry_decision = "none";
  attempt_latency_ms = pos 0;
  transport_sequence = pos 0;
  runtime_sequence = pos 0;
  authority_epoch = pos 1;
  runtime_timestamp_ms = pos 10;
  wall_clock_timestamp_ms = pos 10;
}

-- Room for one detail and for one attempt.
abbrev small : Recorder
small = new_recorder (pos 1) (pos 1) (pos 1) (pos 1) true

-- The second detail is dropped, and the second list of attempts refused.
abbrev calls : List Call
calls =
    Call.detail (detail_of "e1" "t1")
    ∷ Call.attempts (attempt ∷ [])
    ∷ Call.detail (detail_of "e2" "t1")
    ∷ Call.attempts (attempt ∷ [])
    ∷ []

run-IsSound_example : IsSound (run calls (new_recorder (pos 1) (pos 1) (pos 1) (pos 1) true))
run-IsSound_example = run-IsSound (pos 1) (pos 1) (pos 1) (pos 1) true calls

small-untold : small.downgrade_by_turn ≡ []
unfolding new_recorder
small-untold = refl

small-full : has_room (run calls small) ≡ false
unfolding new_recorder append_detail append_provider_invocation_attempts append_attempts_checked
    validate_attempts validate_attempt has append_detail_checked check_detail drop_detail
small-full = refl

-- A third detail of the turn is dropped without a signal.
append_detail-downgrades_once_example :
    ((append_detail (detail_of "e3" "t1") (run calls small)).1
      ≡ ok (
          dropped_answer
            (detail_of "e3" "t1")
            (dropped_before (key_of (detail_of "e3" "t1")) calls small)
            (suc (run calls small).dropped_details)))
    × (Signal.validate (downgrade_signal_of (detail_of "e3" "t1")) ≡ ok tt)
append_detail-downgrades_once_example =
    append_detail-downgrades_once small calls (detail_of "e3" "t1") small-untold
      (record {
        session = refl;
        pipeline = refl;
        event = refl;
        runtime_time = refl;
        wall_time = refl;
      })
      small-full

-- An attempt that took 5 ms and is the only one.
abbrev timed : ProviderAttemptEvidence
timed = record attempt { attempt_latency_ms = pos 5 }

timed-valid : validate_attempt timed ≡ ok tt
unfolding validate_attempt has
timed-valid = refl

invocation_outcomes-lone_example :
    (ltℤ (pos 0) (pos 5) ≡ false
      → invocation_outcomes_from_provider_attempts (timed ∷ []) ≡ ok (lone_outcome timed ∷ []))
    × (ltℤ (pos 0) (pos 5) ≡ true
        → invocation_outcomes_from_provider_attempts (timed ∷ [])
          ≡ err "invocation total_invocation_latency_ms must be >= final_attempt_latency_ms")
invocation_outcomes-lone_example = invocation_outcomes-lone timed timed-valid
