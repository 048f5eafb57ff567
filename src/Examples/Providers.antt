-- ===== src/Examples/Providers.antt =====
-- The theorems on providers at concrete inputs: one provider that answers at its second call.
use realtime_speech_pipeline.Base.{
  ℕ, zero, suc, ◌≡◌, refl, String, true, false, some, [], ◌∷◌, Result, ok, err,
}
use realtime_speech_pipeline.Base.Int
use realtime_speech_pipeline.Base.Text
use realtime_speech_pipeline.Base.Int.{pos}
use native.Mathlib.Omega.{arith}
use realtime_speech_pipeline.EventAbi.Signal
use realtime_speech_pipeline.Provider.Contracts
use realtime_speech_pipeline.Provider.Contracts.{
  validate_outcome, Modality, OutcomeClass, AdaptiveAction, Outcome, Adapter, validate_modality,
}
use realtime_speech_pipeline.Provider.Catalog
use realtime_speech_pipeline.Provider.Catalog.{Catalog, candidates, find_adapter}
use realtime_speech_pipeline.Provider.Catalog.Candidates.{candidates-over_limit}
use realtime_speech_pipeline.Provider.Invocation
use realtime_speech_pipeline.Provider.Requests
use realtime_speech_pipeline.Provider.Requests.{
  validate_input, Config, InvocationInput, InvocationResult, Actions, parse_adaptive_actions,
  default_config,
}
use realtime_speech_pipeline.Provider.Invocation.{invoke, start_result}
use realtime_speech_pipeline.Provider.Invocation.Progress.{Answers}
use realtime_speech_pipeline.Provider.Invocation.Notices.{Headroom}
use realtime_speech_pipeline.Provider.Invocation.Returns.{IsSound, most_signals, invoke-returns}
use realtime_speech_pipeline.Provider.Invocation.Bounds.{invoke-Answers, most_attempts}

abbrev answer : ℕ → Outcome
answer zero = record {
  class = OutcomeClass.timeout;
  retryable = true;
  reason = "slow";
  circuit_open = false;
  backoff_ms = pos 5;
}
answer (suc n) = record {
  class = OutcomeClass.success;
  retryable = false;
  reason = "";
  circuit_open = false;
  backoff_ms = pos 0;
}

-- Its world counts the calls.
abbrev slow : String → Adapter ℕ
slow id = record {
  provider_id = id;
  modality = Modality.stt;
  invoke = λ req n. (ok (answer n), suc n);
}

abbrev two : Catalog ℕ
two = record { adapters = slow "a" ∷ slow "b" ∷ []; ordered = λ m. "a" ∷ "b" ∷ [] }

abbrev limits : Config
limits = record { max_attempts_per_provider = 3; max_candidate_providers = 0 }

abbrev asked : InvocationInput
asked = record {
  session_id = "s1";
  turn_id = "t1";
  pipeline_version = "p1";
  event_id = "e1";
  modality = Modality.stt;
  preferred_provider = "b";
  allowed_adaptive_actions = AdaptiveAction.retry ∷ [];
  provider_invocation_id = "";
  transport_sequence = pos 1;
  runtime_sequence = pos 1;
  authority_epoch = pos 1;
  runtime_timestamp_ms = pos 1;
  wall_clock_timestamp_ms = pos 1;
  cancel_requested = false;
}

abbrev retry_only : Actions
retry_only = record {
  retry = true;
  provider_switch = false;
  fallback = false;
  normalized = AdaptiveAction.retry ∷ [];
}

abbrev result_of : Result InvocationResult → InvocationResult
result_of (ok r) = r
result_of (err e) = start_result asked

found_two :
    candidates two Modality.stt "b" (default_config limits).max_candidate_providers
    ≡ ok (slow "b" ∷ slow "a" ∷ [])
unfolding candidates default_config Contracts.validate_modality Catalog.selected_ids
    Catalog.find_adapter Catalog.fetch Catalog.select_ids
found_two = refl

parsed_retry : parse_adaptive_actions (AdaptiveAction.retry ∷ []) ≡ ok retry_only
unfolding parse_adaptive_actions Contracts.normalize_adaptive_actions
parsed_retry = refl

answered_result : (invoke two limits asked 0).0 ≡ ok (result_of (invoke two limits asked 0).0)
unfolding invoke Invocation.invoke_candidates Requests.validate_input Contracts.validate_modality
    candidates Catalog.selected_ids Catalog.find_adapter Invocation.invoke_with
    parse_adaptive_actions Contracts.normalize_adaptive_actions Invocation.providers_from
    Catalog.fetch Invocation.after_provider Invocation.attempts_from default_config
    Invocation.if_valid Contracts.validate_outcome Requests.answered Int.add64 Text.decimal
    Signal.validation Catalog.select_ids Contracts.collect_actions Contracts.sort_actions
    Contracts.validate_class Invocation.after_attempt Requests.append_signal
    Invocation.cancelled_result Requests.circuit_reason Invocation.continue_with
    Requests.failure_reason Requests.invocation_id Requests.note_circuit Requests.note_failure
    Requests.notice_signal Requests.record_attempt Invocation.request Invocation.retry_or_break
    start_result Requests.switch_reason Invocation.with_decision
answered_result = refl

invoke-Answers_example :
    Answers 1 (most_attempts limits retry_only 2) (result_of (invoke two limits asked 0).0)
invoke-Answers_example =
    invoke-Answers two limits asked 0 (slow "b" ∷ slow "a" ∷ []) retry_only
      (result_of (invoke two limits asked 0).0) refl found_two parsed_retry answered_result

found_a : find_adapter Modality.stt "a" two.adapters ≡ some (slow "a")
unfolding find_adapter
found_a = refl

found_b : find_adapter Modality.stt "b" two.adapters ≡ some (slow "b")
unfolding find_adapter
found_b = refl

stt_valid : validate_modality Modality.stt ≡ ok tt
unfolding validate_modality
stt_valid = refl

candidates-over_limit_example : candidates two Modality.stt "b" 1 ≡ ok (slow "b" ∷ slow "a" ∷ [])
candidates-over_limit_example =
    candidates-over_limit two Modality.stt "b" "a" ("b" ∷ []) (slow "b") (slow "a") stt_valid refl
      refl refl found_b found_a

asked_valid : validate_input asked ≡ ok tt
unfolding validate_input validate_modality
asked_valid = refl

slow-IsSound : (id : String) → IsSound (slow id)
unfolding validate_outcome Requests.answered Contracts.validate_class
slow-IsSound id q zero = refl
slow-IsSound id q (suc n) = refl

asked-Headroom : Headroom asked (most_signals (default_config limits) 2)
unfolding default_config
asked-Headroom = record {
  transport = omega arith;
  runtime = omega arith;
  runtime_time = omega arith;
  wall_time = omega arith;
}

invoke-returns_example : (r : InvocationResult) × ((invoke two limits asked 0).0 ≡ ok r)
invoke-returns_example =
    invoke-returns two limits asked 0 (slow "b" ∷ slow "a" ∷ []) retry_only asked_valid refl
      found_two parsed_retry (slow-IsSound "b", (slow-IsSound "a", tt)) asked-Headroom
