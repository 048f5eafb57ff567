-- ===== src/Provider/Invocation/Attempts.antt =====
-- The inner loop of Invoke in internal/runtime/provider/invocation/controller.go: the attempts at one
-- provider.
use realtime_speech_pipeline.Base.{
  ℕ, zero, suc, ◌+◌, ◌≤◌, ◌≡◌, refl, Bool, true, false, ◌&&◌, Result, ok, err, arith, ltb,
}
use realtime_speech_pipeline.Provider.Contracts.{Adapter, is_success, validate_outcome}
use realtime_speech_pipeline.Provider.Requests.{
  Config, InvocationInput, InvocationResult, Actions, note_failure, record_attempt, answered,
}
use realtime_speech_pipeline.Provider.Invocation.{
  Ended, returned, broke, with_decision, retry_or_break, after_attempt, if_valid, attempts_from,
  request,
}
use realtime_speech_pipeline.Provider.Invocation.Tally.{note_failure-Noted}
use realtime_speech_pipeline.Provider.Invocation.Progress.{
  Running, Answers, EndsWithin, EndsWithin-mono, Running-mono, Running-decided, Running-failed,
  Answers-succeeded,
}

-- How many rounds a loop of at most `limit` rounds may take, if each but the first needs permission.
abbrev pub rounds : (permitted : Bool) (limit : ℕ) → ℕ
rounds true limit = limit
rounds false zero = 0
rounds false (suc limit) = 1

pub rounds-positive : (b : Bool) (n : ℕ) → 1 ≤ rounds b (suc n)
rounds-positive true n = omega arith
rounds-positive false n = omega arith

module _ {World : Type 0} where
  retry_or_break-EndsWithin :
      (k m n : ℕ) (noted : Result InvocationResult) (more : Bool) (w : World)
      (again : InvocationResult → World → Ended × World)
      → ((r : InvocationResult) → noted ≡ ok r → Running k m r)
      → ((r : InvocationResult) → more ≡ true → Running k m r → EndsWithin k n (again r w).0)
      → m ≤ n
      → EndsWithin k n (retry_or_break noted more w again).0
  unfolding retry_or_break
  retry_or_break-EndsWithin k m n (err e) more w again here next fits = tt
  retry_or_break-EndsWithin k m n (ok r) true w again here next fits =
      next (with_decision "retry" r) refl (Running-decided "retry" r (here r refl))
  retry_or_break-EndsWithin k m n (ok r) false w again here next fits =
      EndsWithin-mono k k m n (broke r) (omega arith) fits (here r refl)

  after_attempt-EndsWithin :
      (k m n : ℕ) (success : Bool) (r : InvocationResult) (noted : Result InvocationResult)
      (more : Bool) (w : World) (again : InvocationResult → World → Ended × World)
      → (success ≡ true → Answers k m r)
      → (success ≡ false → (s : InvocationResult) → noted ≡ ok s → Running k m s)
      → ((s : InvocationResult) → more ≡ true → Running k m s → EndsWithin k n (again s w).0)
      → m ≤ n
      → EndsWithin k n (after_attempt success r noted more w again).0
  unfolding after_attempt
  after_attempt-EndsWithin k m n true r noted more w again won lost next fits =
      EndsWithin-mono k k m n (returned r) (omega arith) fits (won refl)
  after_attempt-EndsWithin k m n false r noted more w again won lost next fits =
      retry_or_break-EndsWithin k m n noted more w again (lost refl) next fits

  if_valid-EndsWithin :
      (k n : ℕ) (check : Result (Unit {0})) (w : World) (rest : Ended × World)
      → EndsWithin k n rest.0
      → EndsWithin k n (if_valid check w rest).0
  unfolding if_valid
  if_valid-EndsWithin k n (ok u) w rest h = h
  if_valid-EndsWithin k n (err e) w rest h = tt

permitted : (a b c : Bool) → (a && b && c) ≡ true → b ≡ true
permitted a b c h = ground arith

fits_again : (b : Bool) (m left : ℕ) → b ≡ true → suc m + rounds b left ≤ m + rounds b (suc left)
fits_again true m left h = omega arith
fits_again false m left h = cc

fits_once : (b : Bool) (m left : ℕ) → suc m ≤ m + rounds b (suc left)
fits_once b m left = omega (arith, rounds-positive b left)

abbrev pub least_after : (left k : ℕ) → ℕ
least_after zero k = k
least_after (suc left) k = suc k

pub least_after-le : (left k : ℕ) → k ≤ least_after left k
least_after-le zero k = omega arith
least_after-le (suc left) k = omega arith

module _ {World : Type 0} (cfg : Config) (req : InvocationInput) (actions : Actions) (count : ℕ)
    (adapter : Adapter World) where
  pub attempts_from-EndsWithin :
      (left attempt : ℕ) (r : InvocationResult) (w : World) (k m : ℕ)
      → Running k m r
      → EndsWithin
          (least_after left k)
          (m + rounds actions.retry left)
          (attempts_from cfg req actions count adapter left attempt r w).0
  unfolding attempts_from
  attempts_from-EndsWithin zero attempt r w k m h =
      Running-mono k k m (m + rounds actions.retry 0) r (omega arith) (omega arith) h
  attempts_from-EndsWithin (suc left) attempt r w k m h =
      let (answer, w') =
        adapter.invoke (request cfg req actions count adapter r.provider_invocation_id attempt) w in
      let o = answered answer in
      let recorded = record_attempt adapter.provider_id attempt o r in
      if_valid-EndsWithin (suc k) (m + rounds actions.retry (suc left)) (validate_outcome o) w' _ (
        after_attempt-EndsWithin (suc k) (suc m) (m + rounds actions.retry (suc left))
          (is_success o.class) recorded (note_failure req adapter.provider_id o recorded)
          (o.retryable && actions.retry && ltb attempt cfg.max_attempts_per_provider) w'
          (attempts_from cfg req actions count adapter left (suc attempt))
          (λ won. Answers-succeeded adapter.provider_id attempt o r won h)
          (λ lost s e.
            Running-failed adapter.provider_id attempt o r s lost h
              (note_failure-Noted req adapter.provider_id o recorded s e))
          (λ s more ready.
            EndsWithin-mono (suc k) (least_after left (suc k)) (suc m + rounds actions.retry left)
              (m + rounds actions.retry (suc left))
              (attempts_from cfg req actions count adapter left (suc attempt) s w').0
              (least_after-le left (suc k)) (fits_again actions.retry m left (permitted _ _ _ more))
              (attempts_from-EndsWithin left (suc attempt) s w' (suc k) (suc m) ready))
          (fits_once actions.retry m left))
