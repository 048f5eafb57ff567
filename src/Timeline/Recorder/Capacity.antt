-- ===== src/Timeline/Recorder/Capacity.antt =====
-- internal/observability/timeline/recorder.go: what the entries of a recorder are, and how many.
use realtime_speech_pipeline.Base.{
  ℕ, ◌+◌, ◌≤◌, String, Bool, true, false, ◌≡◌, refl, inl, inr, List, [], ◌∷◌, Result, ok, err,
  >>-eq-ok, if◌then◌else◌, ltb, leb, Bool-cases, arith,
}
use realtime_speech_pipeline.Base.Int.{ℤ}
use realtime_speech_pipeline.Base.Lists.{length, length-append, All, All-append}
use realtime_speech_pipeline.Base.Members.{has}
use realtime_speech_pipeline.Timeline.Baseline.{BaselineEvidence, validate_completeness}
use realtime_speech_pipeline.Timeline.{
  ProviderAttemptEvidence, InvocationSnapshotEvidence, validate_attempt, validate_snapshot,
}
use realtime_speech_pipeline.Timeline.Recorder.{
  append_baseline, append_baseline_checked, Recorder, DetailEvent, key_of, new_recorder,
  validate_attempts, append_attempts_checked, append_provider_invocation_attempts,
  append_snapshot_checked, append_invocation_snapshot, append_detail, append_detail_checked,
  drop_detail, check_detail, Call, after, run,
}

-- Every kind of entry keeps to its capacity, and what is stored was accepted by its validation.
pub record IsSound (r : Recorder) : Type 0 where
  pub baselines : length r.baseline_entries ≤ r.cfg.baseline_capacity
  pub baselines_valid : All (λ b. validate_completeness b ≡ ok tt) r.baseline_entries
  pub details : length r.detail_entries ≤ r.cfg.detail_capacity
  pub attempts : length r.attempt_entries ≤ r.cfg.attempt_capacity
  pub snapshots : length r.snapshot_entries ≤ r.cfg.invocation_snapshot_cap
  pub attempts_valid : All (λ a. validate_attempt a ≡ ok tt) r.attempt_entries
  pub snapshots_valid : All (λ s. validate_snapshot s ≡ ok tt) r.snapshot_entries

validate_attempts-All :
    (l : List ProviderAttemptEvidence)
    → validate_attempts l ≡ ok tt
    → All (λ a. validate_attempt a ≡ ok tt) l
unfolding validate_attempts
validate_attempts-All [] h = tt
validate_attempts-All (a ∷ l) h =
    let (first, rest) = >>-eq-ok (validate_attempt a) (validate_attempts l) h in
    (first, validate_attempts-All l rest)

append_attempts-IsSound :
    (l : List ProviderAttemptEvidence) (r : Recorder)
    → validate_attempts l ≡ ok tt
    → IsSound r
    → IsSound (append_attempts_checked (ok tt) l r).0
unfolding append_attempts_checked
append_attempts-IsSound l r h s =
    elim (Bool-cases (ltb r.cfg.attempt_capacity (length r.attempt_entries + length l))) [
      | inl e ↦ rw e s
      | inr d ↦ rw d (record {
        baselines = s.baselines;
        baselines_valid = s.baselines_valid;
        details = s.details;
        attempts = ground (arith, d, length-append r.attempt_entries l);
        snapshots = s.snapshots;
        attempts_valid =
            All-append _ r.attempt_entries l s.attempts_valid (validate_attempts-All l h);
        snapshots_valid = s.snapshots_valid;
      })
    ]

checked-IsSound :
    (l : List ProviderAttemptEvidence) (r : Recorder) (v : Result (Unit {0}))
    → validate_attempts l ≡ v
    → IsSound r
    → IsSound (append_attempts_checked v l r).0
unfolding append_attempts_checked
checked-IsSound l r (err e) h s = s
checked-IsSound l r (ok tt) h s = append_attempts-IsSound l r h s

append_snapshot-IsSound :
    (e : InvocationSnapshotEvidence) (r : Recorder) (v : Result (Unit {0}))
    → validate_snapshot e ≡ v
    → IsSound r
    → IsSound (append_snapshot_checked v e r).0
unfolding append_snapshot_checked
append_snapshot-IsSound e r (err m) h s = s
append_snapshot-IsSound e r (ok tt) h s =
    elim (Bool-cases (leb r.cfg.invocation_snapshot_cap (length r.snapshot_entries))) [
      | inl f ↦ rw f s
      | inr d ↦ rw d (record {
        baselines = s.baselines;
        baselines_valid = s.baselines_valid;
        details = s.details;
        attempts = s.attempts;
        snapshots = ground (arith, d, length-append r.snapshot_entries (e ∷ []));
        attempts_valid = s.attempts_valid;
        snapshots_valid = All-append _ r.snapshot_entries (e ∷ []) s.snapshots_valid (h, tt);
      })
    ]

append_baseline-IsSound :
    (b : BaselineEvidence) (r : Recorder) (v : Result (Unit {0}))
    → validate_completeness b ≡ v
    → IsSound r
    → IsSound (append_baseline_checked v b r).0
unfolding append_baseline_checked
append_baseline-IsSound b r (err m) h s = s
append_baseline-IsSound b r (ok tt) h s =
    elim (Bool-cases (leb r.cfg.baseline_capacity (length r.baseline_entries))) [
      | inl f ↦ rw f s
      | inr d ↦ rw d (record {
        baselines = ground (arith, d, length-append r.baseline_entries (b ∷ []));
        baselines_valid = All-append _ r.baseline_entries (b ∷ []) s.baselines_valid (h, tt);
        details = s.details;
        attempts = s.attempts;
        snapshots = s.snapshots;
        attempts_valid = s.attempts_valid;
        snapshots_valid = s.snapshots_valid;
      })
    ]

-- A recorder with more drops counted, or more turns downgraded, holds what it held.
drop-IsSound : (d : DetailEvent) (r : Recorder) → IsSound r → IsSound (drop_detail d r).0
unfolding drop_detail
drop-IsSound d r s = elim (Bool-cases (has (key_of d) r.downgrade_by_turn)) [
  | inl e ↦ rw e (same s)
  | inr e ↦ rw e (same s)
]
  where
    same :
        {n : ℕ} {keys : List String}
        → IsSound r
        → IsSound (record r { dropped_details = n; downgrade_by_turn = keys })
    same s = record {
      baselines = s.baselines;
      baselines_valid = s.baselines_valid;
      details = s.details;
      attempts = s.attempts;
      snapshots = s.snapshots;
      attempts_valid = s.attempts_valid;
      snapshots_valid = s.snapshots_valid;
    }

append_detail-IsSound :
    (d : DetailEvent) (r : Recorder) (v : Result (Unit {0}))
    → IsSound r
    → IsSound (append_detail_checked v d r).0
unfolding append_detail_checked
append_detail-IsSound d r (err m) s = s
append_detail-IsSound d r (ok tt) s =
    elim (Bool-cases (ltb (length r.detail_entries) r.cfg.detail_capacity)) [
      | inl e ↦ rw e (record {
        baselines = s.baselines;
        baselines_valid = s.baselines_valid;
        details = ground (arith, e, length-append r.detail_entries (d ∷ []));
        attempts = s.attempts;
        snapshots = s.snapshots;
        attempts_valid = s.attempts_valid;
        snapshots_valid = s.snapshots_valid;
      })
      | inr n ↦ rw n (drop-IsSound d r s)
    ]

either-IsSound :
    (b : Bool) (x y : Recorder × Result (Unit {0}))
    → IsSound x.0
    → IsSound y.0
    → IsSound (if b then x else y).0
either-IsSound true x y sx sy = sx
either-IsSound false x y sx sy = sy

after-IsSound : (call : Call) (r : Recorder) → IsSound r → IsSound (after call r)
unfolding append_baseline append_provider_invocation_attempts append_invocation_snapshot
    append_detail
after-IsSound (Call.baseline b) r s = append_baseline-IsSound b r (validate_completeness b) refl s
after-IsSound (Call.attempts []) r s = s
after-IsSound (Call.attempts (a ∷ l)) r s =
    checked-IsSound (a ∷ l) r (validate_attempts (a ∷ l)) refl s
after-IsSound (Call.snapshot e) r s =
    either-IsSound r.cfg.enable_invocation_snapshot _ _
      (append_snapshot-IsSound e r (validate_snapshot e) refl s) s
after-IsSound (Call.detail d) r s = append_detail-IsSound d r (check_detail d) s

run-from : (calls : List Call) (r : Recorder) → IsSound r → IsSound (run calls r)
run-from [] r s = s
run-from (call ∷ calls) r s = run-from calls (after call r) (after-IsSound call r s)

-- After any sequence of calls on a new recorder, the baselines, the details, the attempts and the
-- snapshots each keep to their capacity, and every baseline, attempt and snapshot that is stored is one
-- that its check accepts.
pub run-IsSound :
    (baselines details attempts snapshots : ℤ) (enabled : Bool) (calls : List Call)
    → IsSound (run calls (new_recorder baselines details attempts snapshots enabled))
unfolding new_recorder
run-IsSound baselines details attempts snapshots enabled calls =
    run-from calls (new_recorder baselines details attempts snapshots enabled) (record {
      baselines = omega arith;
      baselines_valid = tt;
      details = omega arith;
      attempts = omega arith;
      snapshots = omega arith;
      attempts_valid = tt;
      snapshots_valid = tt;
    })
