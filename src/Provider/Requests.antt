-- ===== src/Provider/Requests.antt =====
-- internal/runtime/provider/invocation/controller.go: the requests and results of an invocation, its
-- adaptive actions, and the signals that it emits.
use realtime_speech_pipeline.Base.{
  ℕ, ◌+◌, String, Bool, true, false, ◌||◌, some, List, [], ◌∷◌, ◌++◌, Result, ok, err, ◌>>=◌, ◌>>◌,
  refuse_if, if◌then◌else◌, ltb,
}
use realtime_speech_pipeline.Base.Int.{ℤ, pos, non_negative, add64}
use realtime_speech_pipeline.Base.Lists.{length}
use realtime_speech_pipeline.Base.Text.{is_empty, fallback, concat, decimal}
use realtime_speech_pipeline.EventAbi.Types.{Lane, PayloadClass, SignalName, Emitter}
use realtime_speech_pipeline.EventAbi.Signal
use realtime_speech_pipeline.EventAbi.Signal.{ControlSignal, blank, scope_for}
use realtime_speech_pipeline.Provider.Contracts.{
  Modality, OutcomeClass, AdaptiveAction, Outcome, validate_modality, class_text, modality_text,
  has_action, normalize_adaptive_actions,
}

pub record Config : Type 0 where
  pub max_attempts_per_provider : ℕ
  pub max_candidate_providers : ℕ

pub record InvocationInput : Type 0 where
  pub session_id : String
  pub turn_id : String
  pub pipeline_version : String
  pub event_id : String
  pub modality : Modality
  pub preferred_provider : String
  pub allowed_adaptive_actions : List AdaptiveAction
  pub provider_invocation_id : String
  pub transport_sequence : ℤ
  pub runtime_sequence : ℤ
  pub authority_epoch : ℤ
  pub runtime_timestamp_ms : ℤ
  pub wall_clock_timestamp_ms : ℤ
  pub cancel_requested : Bool

pub record InvocationAttempt : Type 0 where
  pub provider_id : String
  pub attempt : ℕ
  pub outcome : Outcome

pub record InvocationResult : Type 0 where
  pub provider_invocation_id : String
  pub selected_provider : String
  pub outcome : Outcome
  pub retry_decision : String
  pub attempts : List InvocationAttempt
  pub signals : List ControlSignal

-- NewControllerWithConfig: the limits that are used.
unfoldable pub default_config : Config → Config
default_config cfg = record {
  max_attempts_per_provider =
      if ltb cfg.max_attempts_per_provider 1 then 2 else cfg.max_attempts_per_provider;
  max_candidate_providers =
      if ltb cfg.max_candidate_providers 1 then 5 else cfg.max_candidate_providers;
}

unfoldable pub validate_input : InvocationInput → Result (Unit {0})
validate_input req = do
  refuse_if (is_empty req.session_id || is_empty req.pipeline_version || is_empty req.event_id)
      "session_id, pipeline_version, and event_id are required"
  validate_modality req.modality

pub record Actions : Type 0 where
  pub retry : Bool
  pub provider_switch : Bool
  pub fallback : Bool
  pub normalized : List AdaptiveAction

unfoldable pub parse_adaptive_actions : List AdaptiveAction → Result Actions
parse_adaptive_actions actions = do
  normalized ← normalize_adaptive_actions actions
  ok (record {
    retry = has_action AdaptiveAction.retry normalized;
    provider_switch = has_action AdaptiveAction.provider_switch normalized;
    fallback = has_action AdaptiveAction.fallback normalized;
    normalized = normalized;
  })

unfoldable pub invocation_id : InvocationInput → String
invocation_id req =
    if is_empty req.provider_invocation_id
    then concat "pvi/" (
        concat req.session_id (
          concat "/" (
            concat (fallback req.turn_id "session")
              (concat "/" (concat req.event_id (concat "/" (modality_text req.modality)))))))
    else req.provider_invocation_id

-- The signals of the controller, with the string that each name stands for.
pub data Notice : Type 0 where
  provider_error circuit_event provider_switch : Notice

abbrev pub notice_name : Notice → SignalName
notice_name Notice.provider_error = SignalName.provider_error
notice_name Notice.circuit_event = SignalName.circuit_event
notice_name Notice.provider_switch = SignalName.provider_switch

abbrev pub notice_text : Notice → String
notice_text Notice.provider_error = "provider_error"
notice_text Notice.circuit_event = "circuit_event"
notice_text Notice.provider_switch = "provider_switch"

-- The literal of appendSignal; `offset` is the number of signals so far.
unfoldable pub notice_signal : InvocationInput → Notice → String → (offset : ℕ) → ControlSignal
notice_signal req notice reason offset = record blank {
  schema_version = "v1.0";
  event_scope = scope_for req.turn_id;
  session_id = req.session_id;
  turn_id = req.turn_id;
  pipeline_version = req.pipeline_version;
  event_id =
      concat req.event_id
        (concat "-" (concat (notice_text notice) (concat "-" (decimal (offset + 1)))));
  lane = Lane.control_lane;
  transport_sequence = some (add64 (non_negative req.transport_sequence) (pos offset));
  runtime_sequence = add64 (non_negative req.runtime_sequence) (pos offset);
  authority_epoch = non_negative req.authority_epoch;
  runtime_timestamp_ms = add64 (non_negative req.runtime_timestamp_ms) (pos offset);
  wall_clock_ms = add64 (non_negative req.wall_clock_timestamp_ms) (pos offset);
  payload_class = PayloadClass.metadata;
  signal = notice_name notice;
  emitted_by = Emitter.rk11;
  reason = reason;
  scope = "provider_invocation";
}

unfoldable pub append_signal :
    InvocationInput → Notice → String → InvocationResult → Result InvocationResult
append_signal req notice reason result = do
  let sig = notice_signal req notice reason (length result.signals)
  Signal.validate sig
  ok (record result { signals = result.signals ++ sig ∷ [] })

unfoldable pub failure_reason : String → Outcome → String
failure_reason provider_id o = concat "provider=" (
    concat provider_id (
      concat " class="
        (concat (class_text o.class) (concat " reason=" (fallback o.reason "provider_failure")))))

unfoldable pub circuit_reason : String → Outcome → String
circuit_reason provider_id o =
    concat "provider=" (concat provider_id (concat " class=" (class_text o.class)))

unfoldable pub switch_reason : String → String → String
switch_reason from to = concat "from=" (concat from (concat " to=" to))

-- `if invokeErr != nil { outcome = … }`
unfoldable pub answered : Result Outcome → Outcome
answered (ok o) = o
answered (err _) = record {
  class = OutcomeClass.infrastructure_failure;
  retryable = true;
  reason = "adapter_invoke_error";
  circuit_open = false;
  backoff_ms = pos 0;
}

unfoldable pub record_attempt : String → ℕ → Outcome → InvocationResult → InvocationResult
record_attempt provider_id attempt o result = record result {
  attempts =
      result.attempts ++ record { provider_id = provider_id; attempt = attempt; outcome = o } ∷ [];
  selected_provider = provider_id;
  outcome = o;
}

-- The signals of a failed attempt.
unfoldable pub note_circuit :
    Bool → InvocationInput → String → Outcome → InvocationResult → Result InvocationResult
note_circuit true req provider_id o result =
    append_signal req Notice.circuit_event (circuit_reason provider_id o) result
note_circuit false req provider_id o result = ok result

unfoldable pub note_failure :
    InvocationInput → String → Outcome → InvocationResult → Result InvocationResult
note_failure req provider_id o result = do
  noted ← append_signal req Notice.provider_error (failure_reason provider_id o) result
  note_circuit o.circuit_open req provider_id o noted
