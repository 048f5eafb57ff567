-- ===== src/Provider/Invocation.antt =====
-- internal/runtime/provider/invocation/controller.go: RK-11, the invocation of providers with retries and
-- switches. Telemetry is not modelled: it returns nothing. `World` is what the adapters' answers depend
-- on; it is threaded through the calls in their order.
pub mod Tally
pub mod Progress
pub mod Attempts
pub mod Bounds
pub mod Notices
pub mod Returns
use realtime_speech_pipeline.Base.{
  ℕ, zero, suc, ◌+◌, ◌-◌, String, Bool, true, false, ◌&&◌, ◌||◌, some, List, [], ◌∷◌, ◌++◌, Result,
  ok, err, ◌>>=◌, ◌>>◌, refuse_if, if◌then◌else◌, ltb,
}
use realtime_speech_pipeline.Base.Int.{ℤ, pos, non_negative, add64}
use realtime_speech_pipeline.Base.Lists.{length}
use realtime_speech_pipeline.Base.Text.{is_empty, fallback, concat, decimal}
use realtime_speech_pipeline.EventAbi.Types.{Lane, PayloadClass, SignalName, Emitter}
use realtime_speech_pipeline.EventAbi.Signal
use realtime_speech_pipeline.EventAbi.Signal.{ControlSignal, blank, scope_for}
use realtime_speech_pipeline.Provider.Contracts.{
  Modality, OutcomeClass, AdaptiveAction, Outcome, InvocationRequest, Adapter, validate_modality,
  validate_outcome, is_success, class_text, modality_text, has_action, normalize_adaptive_actions,
}
use realtime_speech_pipeline.Provider.Catalog.{Catalog, candidates}
use realtime_speech_pipeline.Provider.Requests.{
  Actions, Config, InvocationAttempt, InvocationInput, InvocationResult, Notice, answered,
  append_signal, circuit_reason, default_config, failure_reason, invocation_id, note_circuit,
  note_failure, notice_name, notice_signal, notice_text, parse_adaptive_actions, record_attempt,
  switch_reason, validate_input,
}

-- How the attempts at one provider end: a return, a `break`, or an error.
pub data Ended : Type 0 where
  returned broke : InvocationResult → Ended
  failed : String → Ended

unfoldable pub with_decision : String → InvocationResult → InvocationResult
with_decision decision result = record result { retry_decision = decision }

module _ {World : Type 0} where
  -- After the signals of a failed attempt: retry, or break.
  unfoldable pub retry_or_break :
      Result InvocationResult
      → Bool
      → World
      → (InvocationResult → World → Ended × World)
      → Ended × World
  retry_or_break (err e) more w again = (failed e, w)
  retry_or_break (ok result) more w again =
      if more then again (with_decision "retry" result) w else (broke result, w)

  -- After an attempt with a valid outcome.
  unfoldable pub after_attempt :
      (success : Bool) (result : InvocationResult) (noted : Result InvocationResult) (more : Bool)
      → World
      → (InvocationResult → World → Ended × World)
      → Ended × World
  after_attempt true result noted more w again = (returned result, w)
  after_attempt false result noted more w again = retry_or_break noted more w again

  unfoldable pub if_valid : Result (Unit {0}) → World → Ended × World → Ended × World
  if_valid (ok _) w rest = rest
  if_valid (err e) w rest = (failed e, w)

module _ {World : Type 0} (cfg : Config) (req : InvocationInput) (actions : Actions) (count : ℕ)
    (adapter : Adapter World) where
  unfoldable pub request : String → ℕ → InvocationRequest
  request id attempt = record {
    session_id = req.session_id;
    turn_id = req.turn_id;
    pipeline_version = req.pipeline_version;
    event_id = req.event_id;
    provider_invocation_id = id;
    provider_id = adapter.provider_id;
    modality = req.modality;
    attempt = attempt;
    transport_sequence = non_negative req.transport_sequence;
    runtime_sequence = non_negative req.runtime_sequence;
    authority_epoch = non_negative req.authority_epoch;
    runtime_timestamp_ms = non_negative req.runtime_timestamp_ms;
    wall_clock_timestamp_ms = non_negative req.wall_clock_timestamp_ms;
    cancel_requested = req.cancel_requested;
    allowed_adaptive_actions = actions.normalized;
    retry_budget_remaining = cfg.max_attempts_per_provider - attempt;
    candidate_provider_count = count;
  }

  -- The inner loop, with `left` attempts left; at 0 its condition fails.
  unfoldable pub attempts_from : (left attempt : ℕ) → InvocationResult → World → Ended × World
  attempts_from zero attempt result w = (broke result, w)
  attempts_from (suc left) attempt result w =
      let (answer, w') = adapter.invoke (request result.provider_invocation_id attempt) w in
      let o = answered answer in
      let recorded = record_attempt adapter.provider_id attempt o result in
      let more = o.retryable && actions.retry && ltb attempt cfg.max_attempts_per_provider in
      if_valid (validate_outcome o) w' (
        after_attempt (is_success o.class) recorded
          (note_failure req adapter.provider_id o recorded) more w'
          (attempts_from left (suc attempt)))

module _ {World : Type 0} where
  abbrev pub next_id : List (Adapter World) → String
  next_id [] = ""
  next_id (a ∷ as') = a.provider_id

  abbrev pub has_next : List (Adapter World) → Bool
  has_next [] = false
  has_next (a ∷ as') = true

-- `if providerSwitch { … } else { … }`
abbrev switch_decision : Actions → String
switch_decision actions = if actions.provider_switch then "provider_switch" else "fallback"

module _ {World : Type 0} where
  -- After the switch signal: on to the next provider.
  unfoldable pub continue_with :
      Result InvocationResult
      → String
      → World
      → (InvocationResult → World → Result InvocationResult × World)
      → Result InvocationResult × World
  continue_with (err e) decision w next = (err e, w)
  continue_with (ok result) decision w next = next (with_decision decision result) w

  -- The end of one round of the outer loop.
  unfoldable pub after_provider :
      InvocationInput
      → Actions
      → (from : String) (rest : List (Adapter World)) → Ended × World
      → (InvocationResult → World → Result InvocationResult × World)
      → Result InvocationResult × World
  after_provider req actions from rest (returned result, w) next = (ok result, w)
  after_provider req actions from rest (failed e, w) next = (err e, w)
  after_provider req actions from rest (broke result, w) next =
      if has_next rest && (actions.provider_switch || actions.fallback)
      then continue_with
          (append_signal req Notice.provider_switch (switch_reason from (next_id rest)) result)
          (switch_decision actions) w next
      else (ok result, w)

  -- The outer loop over the candidates that are left.
  unfoldable pub providers_from :
      Config
      → InvocationInput
      → Actions
      → (count : ℕ) → List (Adapter World)
      → InvocationResult
      → World
      → Result InvocationResult × World
  providers_from cfg req actions count [] result w = (ok result, w)
  providers_from cfg req actions count (a ∷ rest) result w =
      after_provider req actions a.provider_id rest
        (attempts_from cfg req actions count a cfg.max_attempts_per_provider 1 result w)
        (providers_from cfg req actions count rest)

abbrev no_outcome : Outcome
no_outcome = record {
  class = OutcomeClass.other "";
  retryable = false;
  reason = "";
  circuit_open = false;
  backoff_ms = pos 0;
}

unfoldable pub start_result : InvocationInput → InvocationResult
start_result req = record {
  provider_invocation_id = invocation_id req;
  selected_provider = "";
  outcome = no_outcome;
  retry_decision = "none";
  attempts = [];
  signals = [];
}

module _ {World : Type 0} where
  unfoldable pub cancelled_result : InvocationInput → List (Adapter World) → InvocationResult
  cancelled_result req found = record (start_result req) {
    selected_provider = next_id found;
    outcome = record {
      class = OutcomeClass.cancelled;
      retryable = false;
      reason = "cancel_requested_before_invoke";
      circuit_open = false;
      backoff_ms = pos 0;
    };
  }

  unfoldable pub invoke_with :
      Config
      → InvocationInput
      → List (Adapter World)
      → Result Actions
      → World
      → Result InvocationResult × World
  invoke_with cfg req found (err e) w = (err e, w)
  invoke_with cfg req found (ok actions) w =
      providers_from cfg req actions (length found) found (start_result req) w

  unfoldable pub invoke_candidates :
      Config
      → InvocationInput
      → Result (List (Adapter World))
      → World
      → Result InvocationResult × World
  invoke_candidates cfg req (err e) w = (err e, w)
  invoke_candidates cfg req (ok found) w =
      if req.cancel_requested
      then (ok (cancelled_result req found), w)
      else invoke_with cfg req found (parse_adaptive_actions req.allowed_adaptive_actions) w

  -- Invoke, for a controller with the given limits.
  unfoldable pub invoke :
      Catalog World → Config → InvocationInput → World → Result InvocationResult × World
  invoke catalog cfg req w =
      let limits = default_config cfg in
      invoke_candidates limits req
        (do
          validate_input req
          candidates catalog req.modality req.preferred_provider limits.max_candidate_providers)
        w
