-- ===== src/Timeline/Recorder/Downgrades.antt =====
-- internal/observability/timeline/recorder.go: the signal that details of a turn are dropped.
use text.Mathlib.Text.{◌==◌}
use realtime_speech_pipeline.Base.{
  ℕ, suc, ◌+◌, String, Bool, true, false, not, ◌&&◌, ◌||◌, ◌≡◌, refl, ap, ◌∙◌, inl, inr, none, some,
  List, [], ◌∷◌, Result, ok, err, is_err, if◌then◌else◌, ltb, leb, Bool-cases, arith,
}
use realtime_speech_pipeline.Base.Lists.{length}
use realtime_speech_pipeline.Base.Members.{has, has_of_eq}
use realtime_speech_pipeline.Base.Int.{is_negative}
use realtime_speech_pipeline.Base.Text.{is_empty, is_empty-fallback}
use realtime_speech_pipeline.EventAbi.Signal
use realtime_speech_pipeline.EventAbi.Signal.{ControlSignal}
use realtime_speech_pipeline.Timeline.Baseline.{BaselineEvidence, validate_completeness}
use realtime_speech_pipeline.Timeline.{
  ProviderAttemptEvidence, InvocationSnapshotEvidence, validate_snapshot,
}
use realtime_speech_pipeline.Timeline.Recorder.{
  append_baseline, append_baseline_checked, Recorder, DetailEvent, DetailAppendResult, key_of,
  downgrade_signal_of, build_recording_downgrade_signal, downgraded, validate_attempts,
  append_attempts_checked, append_provider_invocation_attempts, append_snapshot_checked,
  append_invocation_snapshot, append_detail, append_detail_checked, drop_detail, check_detail, Call,
  after, run,
}

-- There is room for another detail.
abbrev pub has_room : Recorder → Bool
has_room r = ltb (length r.detail_entries) r.cfg.detail_capacity

-- The call drops a detail of the turn with this key.
abbrev pub call_drops : String → Call → Recorder → Bool
call_drops key (Call.baseline b) r = false
call_drops key (Call.attempts l) r = false
call_drops key (Call.snapshot s) r = false
call_drops key (Call.detail d) r =
    not (is_err (check_detail d)) && not (has_room r) && key_of d == key

-- Some call of the sequence does.
abbrev pub dropped_before : String → List Call → Recorder → Bool
dropped_before key [] r = false
dropped_before key (call ∷ calls) r =
    call_drops key call r || dropped_before key calls (after call r)

same_attempts :
    (l : List ProviderAttemptEvidence) (r : Recorder) (v : Result (Unit {0}))
    → (append_attempts_checked v l r).0.downgrade_by_turn ≡ r.downgrade_by_turn
unfolding append_attempts_checked
same_attempts l r (err e) = refl
same_attempts l r (ok tt) =
    elim (Bool-cases (ltb r.cfg.attempt_capacity (length r.attempt_entries + length l))) [
      | inl e ↦ rw e refl
      | inr e ↦ rw e refl
    ]

same_baselines :
    (b : BaselineEvidence) (r : Recorder) (v : Result (Unit {0}))
    → (append_baseline_checked v b r).0.downgrade_by_turn ≡ r.downgrade_by_turn
unfolding append_baseline_checked
same_baselines b r (err e) = refl
same_baselines b r (ok tt) =
    elim (Bool-cases (leb r.cfg.baseline_capacity (length r.baseline_entries))) [
      | inl e ↦ rw e refl
      | inr e ↦ rw e refl
    ]

same_snapshots :
    (s : InvocationSnapshotEvidence) (r : Recorder) (v : Result (Unit {0}))
    → (append_snapshot_checked v s r).0.downgrade_by_turn ≡ r.downgrade_by_turn
unfolding append_snapshot_checked
same_snapshots s r (err e) = refl
same_snapshots s r (ok tt) =
    elim (Bool-cases (leb r.cfg.invocation_snapshot_cap (length r.snapshot_entries))) [
      | inl e ↦ rw e refl
      | inr e ↦ rw e refl
    ]

same_either :
    (b : Bool) (x y : Recorder × Result (Unit {0})) (keys : List String)
    → x.0.downgrade_by_turn ≡ keys
    → y.0.downgrade_by_turn ≡ keys
    → (if b then x else y).0.downgrade_by_turn ≡ keys
same_either true x y keys ex ey = ex
same_either false x y keys ex ey = ey

drop-marks :
    (key : String) (d : DetailEvent) (r : Recorder)
    → has key (drop_detail d r).0.downgrade_by_turn
      ≡ (key_of d == key || has key r.downgrade_by_turn)
unfolding drop_detail has
drop-marks key d r = elim (Bool-cases (has (key_of d) r.downgrade_by_turn)) [
  | inl e ↦ rw e (at (key_of d == key) refl e)
  | inr n ↦ rw n refl
]
  where
    at :
        (b : Bool)
        → (key_of d == key) ≡ b
        → has (key_of d) r.downgrade_by_turn ≡ true
        → has key r.downgrade_by_turn ≡ (key_of d == key || has key r.downgrade_by_turn)
    at true f e = rw f (has_of_eq (key_of d) key r.downgrade_by_turn f ∙ e)
    at false f e = rw f refl

detail-marks :
    (key : String) (d : DetailEvent) (r : Recorder) (v : Result (Unit {0}))
    → has key (append_detail_checked v d r).0.downgrade_by_turn
      ≡ (not (is_err v) && not (has_room r) && key_of d == key || has key r.downgrade_by_turn)
unfolding append_detail_checked
detail-marks key d r (err e) = refl
detail-marks key d r (ok tt) = elim (Bool-cases (has_room r)) [
  | inl e ↦ rw e refl
  | inr n ↦ rw n (drop-marks key d r)
]

call-marks :
    (key : String) (call : Call) (r : Recorder)
    → has key (after call r).downgrade_by_turn
      ≡ (call_drops key call r || has key r.downgrade_by_turn)
unfolding append_baseline append_provider_invocation_attempts append_invocation_snapshot
    append_detail
call-marks key (Call.baseline b) r = ap (has key) (same_baselines b r (validate_completeness b))
call-marks key (Call.attempts []) r = refl
call-marks key (Call.attempts (a ∷ l)) r =
    ap (has key) (same_attempts (a ∷ l) r (validate_attempts (a ∷ l)))
call-marks key (Call.snapshot s) r = ap (has key) (
    same_either r.cfg.enable_invocation_snapshot _ _ r.downgrade_by_turn
      (same_snapshots s r (validate_snapshot s)) refl)
call-marks key (Call.detail d) r = detail-marks key d r (check_detail d)

run-marks :
    (key : String) (calls : List Call) (r : Recorder)
    → has key (run calls r).downgrade_by_turn
      ≡ (dropped_before key calls r || has key r.downgrade_by_turn)
run-marks key [] r = refl
run-marks key (call ∷ calls) r =
    run-marks key calls (after call r) ∙ ground (arith, call-marks key call r)

-- A detail that append_detail takes.
pub record IsComplete (d : DetailEvent) : Type 0 where
  pub session : is_empty d.session_id ≡ false
  pub pipeline : is_empty d.pipeline_version ≡ false
  pub event : is_empty d.event_id ≡ false
  pub runtime_time : is_negative d.runtime_timestamp_ms ≡ false
  pub wall_time : is_negative d.wall_clock_timestamp_ms ≡ false

downgrade_signal-accepted :
    (d : DetailEvent) → IsComplete d → Signal.validate (downgrade_signal_of d) ≡ ok tt
unfolding downgrade_signal_of Signal.validation
downgrade_signal-accepted d c =
    ground (arith, is_empty-fallback d.reason "stage_a_detail_overflow" refl)

check_detail-ok : (d : DetailEvent) → IsComplete d → check_detail d ≡ ok tt
unfolding check_detail
check_detail-ok d c = rw (c.session, c.pipeline, c.event, c.runtime_time, c.wall_time) refl

-- What a drop answers: with the signal, if the turn has not had it.
abbrev pub dropped_answer : DetailEvent → (told : Bool) → (count : ℕ) → DetailAppendResult
dropped_answer d told count = record {
  stored = false;
  dropped = true;
  downgrade_emitted = not told;
  downgrade_signal = if told then none else some (downgrade_signal_of d);
  dropped_detail_count = count;
}

drop_detail-answers :
    (d : DetailEvent) (r : Recorder) (told : Bool)
    → IsComplete d
    → has (key_of d) r.downgrade_by_turn ≡ told
    → (drop_detail d r).1 ≡ ok (dropped_answer d told (suc r.dropped_details))
unfolding drop_detail downgraded build_recording_downgrade_signal
drop_detail-answers d r true c e = rw e refl
drop_detail-answers d r false c e = rw (e, downgrade_signal-accepted d c) refl

no_key : (key : String) → has key [] ≡ false
unfolding has
no_key key = refl

-- On a recorder on which no turn was told yet, after any calls, a complete detail for which there is no
-- room is dropped without an error, and the answer carries the downgrade signal, a valid one, exactly
-- if none of those calls dropped a detail of a turn with the same key.
pub append_detail-downgrades_once :
    (r : Recorder) (calls : List Call) (d : DetailEvent)
    → r.downgrade_by_turn ≡ []
    → IsComplete d
    → has_room (run calls r) ≡ false
    → ((append_detail d (run calls r)).1
        ≡ ok (
            dropped_answer d
              (dropped_before (key_of d) calls r)
              (suc (run calls r).dropped_details)))
      × (Signal.validate (downgrade_signal_of d) ≡ ok tt)
unfolding append_detail append_detail_checked
append_detail-downgrades_once r calls d new c full = (
  rw (check_detail-ok d c, full)
      (drop_detail-answers d (run calls r) (dropped_before (key_of d) calls r) c
        (run-marks (key_of d) calls r ∙ untold (dropped_before (key_of d) calls r))),
  downgrade_signal-accepted d c,
)
  where
    untold : (b : Bool) → (b || has (key_of d) r.downgrade_by_turn) ≡ b
    untold true = refl
    untold false = ap (has (key_of d)) new ∙ no_key (key_of d)
