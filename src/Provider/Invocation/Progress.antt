-- ===== src/Provider/Invocation/Progress.antt =====
-- What holds between two attempts of internal/runtime/provider/invocation/controller.go, and at a return.
use realtime_speech_pipeline.Base.{ℕ, suc, ◌≤◌, ◌≡◌, String, true, false, [], ◌∷◌, arith}
use realtime_speech_pipeline.Base.Lists.{All, length, length-append, All-append}
use realtime_speech_pipeline.Provider.Contracts.{Outcome, is_success}
use realtime_speech_pipeline.Provider.Requests.{InvocationAttempt, InvocationResult, record_attempt}
use realtime_speech_pipeline.Provider.Invocation.{Ended, returned, broke, failed, with_decision}
use realtime_speech_pipeline.Provider.Invocation.Tally.{
  Failed, InitFailed, InitFailed-of_All, Sound, Noted, failures-snoc, Latest-snoc, InitFailed-snoc,
}

-- Between two attempts: every attempt so far failed, and there are at least `least` and at most `most`.
pub record Running (least most : ℕ) (r : InvocationResult) : Type 0 where
  pub sound : Sound r
  pub all_failed : All Failed r.attempts
  pub at_least : least ≤ length r.attempts
  pub at_most : length r.attempts ≤ most

-- What is returned: only the last attempt may have succeeded.
pub record Answers (least most : ℕ) (r : InvocationResult) : Type 0 where
  pub sound : Sound r
  pub init_failed : InitFailed r.attempts
  pub at_least : least ≤ length r.attempts
  pub at_most : length r.attempts ≤ most

abbrev pub EndsWithin : (least most : ℕ) → Ended → Type 0
EndsWithin least most (returned r) = Answers least most r
EndsWithin least most (broke r) = Running least most r
EndsWithin least most (failed e) = Unit

pub Running-mono :
    (j k m n : ℕ) (r : InvocationResult) → j ≤ k → m ≤ n → Running k m r → Running j n r
Running-mono j k m n r low high h = record {
  sound = h.sound;
  all_failed = h.all_failed;
  at_least = omega (arith, h.at_least);
  at_most = omega (arith, h.at_most);
}

pub Answers-mono :
    (j k m n : ℕ) (r : InvocationResult) → j ≤ k → m ≤ n → Answers k m r → Answers j n r
Answers-mono j k m n r low high h = record {
  sound = h.sound;
  init_failed = h.init_failed;
  at_least = omega (arith, h.at_least);
  at_most = omega (arith, h.at_most);
}

pub EndsWithin-mono :
    (j k m n : ℕ) (e : Ended) → j ≤ k → m ≤ n → EndsWithin k m e → EndsWithin j n e
EndsWithin-mono j k m n (returned r) low high h = Answers-mono j k m n r low high h
EndsWithin-mono j k m n (broke r) low high h = Running-mono j k m n r low high h
EndsWithin-mono j k m n (failed e) low high h = tt

pub Answers-of_Running : {k m : ℕ} (r : InvocationResult) → Running k m r → Answers k m r
Answers-of_Running r h = record {
  sound = h.sound;
  init_failed = InitFailed-of_All r.attempts h.all_failed;
  at_least = h.at_least;
  at_most = h.at_most;
}

pub Running-decided :
    {k m : ℕ} (d : String) (r : InvocationResult) → Running k m r → Running k m (with_decision d r)
unfolding with_decision
Running-decided d r h = record {
  sound = record { announced = h.sound.announced; latest = h.sound.latest };
  all_failed = h.all_failed;
  at_least = h.at_least;
  at_most = h.at_most;
}

pub Running-Noted :
    {k m : ℕ} (r r' : InvocationResult) → Noted 0 r r' → Running k m r → Running k m r'
Running-Noted r r' s h = record {
  sound = record {
    announced = rw (s.same_attempts) (omega (arith, s.more_errors, h.sound.announced));
    latest = rw (s.same_attempts, s.same_outcome, s.same_provider) h.sound.latest;
  };
  all_failed = rw s.same_attempts h.all_failed;
  at_least = rw s.same_attempts h.at_least;
  at_most = rw s.same_attempts h.at_most;
}

-- A failed attempt with its signals.
pub Running-failed :
    {k m : ℕ} (id : String) (n : ℕ) (o : Outcome) (r r' : InvocationResult)
    → is_success o.class ≡ false
    → Running k m r
    → Noted 1 (record_attempt id n o r) r'
    → Running (suc k) (suc m) r'
unfolding record_attempt
Running-failed id n o r r' bad h s =
    let a : InvocationAttempt = record { provider_id = id; attempt = n; outcome = o } in
    record {
      sound = record {
        announced =
            rw (s.same_attempts, failures-snoc r.attempts a false bad)
              (omega (arith, s.more_errors, h.sound.announced));
        latest = rw (s.same_attempts, s.same_outcome, s.same_provider) (Latest-snoc r.attempts a);
      };
      all_failed =
          rw s.same_attempts (All-append Failed r.attempts (a ∷ []) h.all_failed (bad, tt));
      at_least =
          rw (s.same_attempts, length-append r.attempts (a ∷ [])) (omega (arith, h.at_least));
      at_most = rw (s.same_attempts, length-append r.attempts (a ∷ [])) (omega (arith, h.at_most));
    }

-- The attempt that succeeded.
pub Answers-succeeded :
    {k m : ℕ} (id : String) (n : ℕ) (o : Outcome) (r : InvocationResult)
    → is_success o.class ≡ true
    → Running k m r
    → Answers (suc k) (suc m) (record_attempt id n o r)
unfolding record_attempt
Answers-succeeded id n o r good h =
    let a : InvocationAttempt = record { provider_id = id; attempt = n; outcome = o } in
    record {
      sound = record {
        announced = rw (failures-snoc r.attempts a true good) (omega (arith, h.sound.announced));
        latest = Latest-snoc r.attempts a;
      };
      init_failed = InitFailed-snoc r.attempts a h.all_failed;
      at_least = rw (length-append r.attempts (a ∷ [])) (omega (arith, h.at_least));
      at_most = rw (length-append r.attempts (a ∷ [])) (omega (arith, h.at_most));
    }
