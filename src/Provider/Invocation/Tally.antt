-- ===== src/Provider/Invocation/Tally.antt =====
-- The signals of internal/runtime/provider/invocation/controller.go counted against its failed attempts.
use realtime_speech_pipeline.Base.{
  ℕ, ◌+◌, ◌≡◌, refl, String, Bool, true, false, List, [], ◌∷◌, ◌++◌, ◌∙◌, >>=-eq-ok, ok, >>-eq-ok,
  arith,
}
use realtime_speech_pipeline.Base.Lists.{All, length}
use realtime_speech_pipeline.EventAbi.Types.{SignalName}
use realtime_speech_pipeline.EventAbi.Signal
use realtime_speech_pipeline.EventAbi.Signal.{ControlSignal}
use realtime_speech_pipeline.Provider.Contracts.{Outcome, is_success}
use realtime_speech_pipeline.Provider.Requests.{
  InvocationInput, InvocationAttempt, InvocationResult, Notice, append_signal, notice_signal,
  note_failure, note_circuit, failure_reason,
}

-- How many of the signals are provider errors, and how many of the attempts failed.
abbrev is_error : SignalName → ℕ
is_error SignalName.provider_error = 1
is_error _ = 0

unfoldable pub errors : List ControlSignal → ℕ
errors [] = 0
errors (c ∷ cs) = is_error c.signal + errors cs

abbrev pub failed_once : Bool → ℕ
failed_once true = 0
failed_once false = 1

unfoldable pub failures : List InvocationAttempt → ℕ
failures [] = 0
failures (a ∷ as') = failed_once (is_success a.outcome.class) + failures as'

abbrev pub Failed : InvocationAttempt → Type 0
Failed a = is_success a.outcome.class ≡ false

-- The outcome and the provider are those of the last attempt.
abbrev pub Latest : List InvocationAttempt → Outcome → String → Type 0
Latest [] o p = Unit
Latest (a ∷ []) o p = (o ≡ a.outcome) × (p ≡ a.provider_id)
Latest (a ∷ b ∷ as') o p = Latest (b ∷ as') o p

-- Every attempt but the last failed.
abbrev pub InitFailed : List InvocationAttempt → Type 0
InitFailed [] = Unit
InitFailed (a ∷ []) = Unit
InitFailed (a ∷ b ∷ as') = Failed a × InitFailed (b ∷ as')

pub errors-append : (cs ds : List ControlSignal) → errors (cs ++ ds) ≡ errors cs + errors ds
unfolding errors
errors-append [] ds = omega arith
errors-append (c ∷ cs) ds = omega (arith, errors-append cs ds)

pub failures-append :
    (xs ys : List InvocationAttempt) → failures (xs ++ ys) ≡ failures xs + failures ys
unfolding failures
failures-append [] ys = omega arith
failures-append (x ∷ xs) ys = omega (arith, failures-append xs ys)

pub failures-snoc :
    (xs : List InvocationAttempt) (a : InvocationAttempt) (b : Bool)
    → is_success a.outcome.class ≡ b
    → failures (xs ++ a ∷ []) ≡ failures xs + failed_once b
unfolding failures
failures-snoc xs a b h = rw (failures-append xs (a ∷ []), h) (omega arith)

pub Latest-snoc :
    (xs : List InvocationAttempt) (a : InvocationAttempt)
    → Latest (xs ++ a ∷ []) a.outcome a.provider_id
Latest-snoc [] a = (refl, refl)
Latest-snoc (x ∷ []) a = (refl, refl)
Latest-snoc (x ∷ y ∷ xs) a = Latest-snoc (y ∷ xs) a

pub InitFailed-snoc :
    (xs : List InvocationAttempt) (a : InvocationAttempt)
    → All Failed xs
    → InitFailed (xs ++ a ∷ [])
InitFailed-snoc [] a h = tt
InitFailed-snoc (x ∷ []) a h = (h.0, tt)
InitFailed-snoc (x ∷ y ∷ xs) a h = (h.0, InitFailed-snoc (y ∷ xs) a h.1)

pub InitFailed-of_All : (xs : List InvocationAttempt) → All Failed xs → InitFailed xs
InitFailed-of_All [] h = tt
InitFailed-of_All (x ∷ []) h = tt
InitFailed-of_All (x ∷ y ∷ xs) h = (h.0, InitFailed-of_All (y ∷ xs) h.1)

-- A result so far: its signals announce each failed attempt, and its outcome is that of the last one.
pub record Sound (r : InvocationResult) : Type 0 where
  pub announced : errors r.signals ≡ failures r.attempts
  pub latest : Latest r.attempts r.outcome r.selected_provider

-- What a step that only adds signals leaves alone.
pub record Noted (extra : ℕ) (r r' : InvocationResult) : Type 0 where
  pub same_attempts : r'.attempts ≡ r.attempts
  pub same_outcome : r'.outcome ≡ r.outcome
  pub same_provider : r'.selected_provider ≡ r.selected_provider
  pub more_errors : errors r'.signals ≡ errors r.signals + extra

abbrev pub extra_of : Notice → ℕ
extra_of Notice.provider_error = 1
extra_of _ = 0

errors-notice :
    (req : InvocationInput) (n : Notice) (reason : String) (k : ℕ)
    → errors (notice_signal req n reason k ∷ []) ≡ extra_of n
unfolding errors notice_signal
errors-notice req Notice.provider_error reason k = refl
errors-notice req Notice.circuit_event reason k = refl
errors-notice req Notice.provider_switch reason k = refl

Noted-of_append :
    (n : ℕ) (r r' : InvocationResult) (c : ControlSignal)
    → errors (c ∷ []) ≡ n
    → ok (record r { signals = r.signals ++ c ∷ [] }) ≡ ok r'
    → Noted n r r'
Noted-of_append n r r' c one h =
    let e : record r { signals = r.signals ++ c ∷ [] } ≡ r' = cc in
    rw (← e) (record {
      same_attempts = refl;
      same_outcome = refl;
      same_provider = refl;
      more_errors = rw (errors-append r.signals (c ∷ []), one) refl;
    })

pub append_signal-Noted :
    (req : InvocationInput) (n : Notice) (reason : String) (r r' : InvocationResult)
    → append_signal req n reason r ≡ ok r'
    → Noted (extra_of n) r r'
unfolding append_signal
append_signal-Noted req n reason r r' h =
    let sig = notice_signal req n reason (length r.signals) in
    let (valid, e) = >>-eq-ok (Signal.validate sig) _ h in
    Noted-of_append (extra_of n) r r' sig (errors-notice req n reason (length r.signals)) e

pub Noted-trans :
    (m n : ℕ) (r s t : InvocationResult) → Noted m r s → Noted n s t → Noted (m + n) r t
Noted-trans m n r s t a b = record {
  same_attempts = b.same_attempts ∙ a.same_attempts;
  same_outcome = b.same_outcome ∙ a.same_outcome;
  same_provider = b.same_provider ∙ a.same_provider;
  more_errors = omega (arith, a.more_errors, b.more_errors);
}

note_circuit-Noted :
    (on : Bool) (req : InvocationInput) (id : String) (o : Outcome) (r r' : InvocationResult)
    → note_circuit on req id o r ≡ ok r'
    → Noted 0 r r'
unfolding note_circuit
note_circuit-Noted true req id o r r' h = append_signal-Noted req Notice.circuit_event _ r r' h
note_circuit-Noted false req id o r r' h =
    let e : r ≡ r' = cc in
    rw (← e) (record {
      same_attempts = refl;
      same_outcome = refl;
      same_provider = refl;
      more_errors = omega arith;
    })

-- The signals of a failed attempt: one provider error, and perhaps a circuit event.
pub note_failure-Noted :
    (req : InvocationInput) (id : String) (o : Outcome) (r r' : InvocationResult)
    → note_failure req id o r ≡ ok r'
    → Noted 1 r r'
unfolding note_failure
note_failure-Noted req id o r r' h =
    let (s, first, second) =
      >>=-eq-ok (append_signal req Notice.provider_error (failure_reason id o) r) _ h in
    Noted-trans 1 0 r s r' (append_signal-Noted req Notice.provider_error _ r s first)
      (note_circuit-Noted o.circuit_open req id o s r' second)
