-- ===== src/TurnArbiter/Active.antt =====
-- internal/runtime/turnarbiter/arbiter.go: HandleActive, which ends an active turn or leaves it as it is,
-- and Apply. The recorder that the arbiter writes to comes in and goes out.
pub mod Endings
pub mod Committed
pub mod Commits
use realtime_speech_pipeline.Base.{
  ℕ, String, Bool, true, false, Option, none, some, List, [], ◌∷◌, ◌++◌, Result, ok, err, ◌>>=◌,
  ◌>>◌, if◌then◌else◌,
}
use realtime_speech_pipeline.Base.Int.{ℤ, pos, add64}
use realtime_speech_pipeline.Base.Text.{fallback, concat}
use realtime_speech_pipeline.EventAbi.Types.{Lane, EventScope, PayloadClass, SignalName, Emitter}
use realtime_speech_pipeline.EventAbi.Signal
use realtime_speech_pipeline.EventAbi.Signal.{ControlSignal, blank}
use realtime_speech_pipeline.ControlPlane.Outcome
use realtime_speech_pipeline.ControlPlane.Outcome.{DecisionOutcome}
use realtime_speech_pipeline.ControlPlane.Turn.{TurnState, TransitionTrigger, TurnTransition}
use realtime_speech_pipeline.Guard.{active_turn_revoke_outcome}
use realtime_speech_pipeline.Egress.{ConnectionSignalInput, build_connection_signal}
use realtime_speech_pipeline.Timeline.Recorder.{Recorder}
use realtime_speech_pipeline.TurnArbiter.{
  LifecycleEvent, TurnStartBundle, TurnStartBundleInput, OpenRequest, OpenResult, transition,
  validate_transitions,
}
use realtime_speech_pipeline.TurnArbiter.Opening.{handle_turn_open_proposed}
use realtime_speech_pipeline.TurnArbiter.Drafts.{ActiveInput, default_pipeline_version}
use realtime_speech_pipeline.TurnArbiter.Evidence.{append_baseline_evidence}

pub record ActiveResult : Type 0 where
  pub state : TurnState
  pub transitions : List TurnTransition
  pub decision : Option DecisionOutcome
  pub events : List LifecycleEvent
  pub control_lane : List ControlSignal

-- The result with which the handler starts.
abbrev pub unchanged : ActiveResult
unchanged = record {
  state = TurnState.active;
  transitions = [];
  decision = none;
  events = [];
  control_lane = [];
}

abbrev pub event : (name reason : String) → LifecycleEvent
event name reason = record { name = name; reason = reason }

-- What appendTerminalTransitions appends.
abbrev pub terminal_transitions : TransitionTrigger → List TurnTransition
terminal_transitions trigger =
    transition TurnState.active trigger TurnState.terminal
    ∷ transition TurnState.terminal TransitionTrigger.close TurnState.closed
    ∷ []

unfoldable pub validate_signals : List ControlSignal → Result (Unit {0})
validate_signals [] = ok tt
validate_signals (c ∷ cs) = do Signal.validate c; validate_signals cs

unfoldable pub validate_active_result : ActiveResult → Result (Unit {0})
validate_active_result result = do
  validate_transitions result.transitions
  validate_signals result.control_lane

-- The result when the evidence was recorded, and when it could not be.
abbrev pub ended : ActiveResult → TransitionTrigger → ActiveResult
ended result trigger = record result {
  state = TurnState.closed;
  transitions = result.transitions ++ terminal_transitions trigger;
}

abbrev pub unrecorded : ActiveResult → ActiveResult
unrecorded result = record result {
  state = TurnState.closed;
  decision = none;
  events = event "abort" "recording_evidence_unavailable" ∷ event "close" "" ∷ [];
  transitions = terminal_transitions TransitionTrigger.abort;
}

abbrev pub ending : ActiveResult → TransitionTrigger → Result (Unit {0}) → ActiveResult
ending result trigger (ok _) = ended result trigger
ending result trigger (err _) = unrecorded result

unfoldable pub validated : ActiveResult → Result ActiveResult
validated result = do validate_active_result result; ok result

-- The deauthorized_drain signal: unlike the other signals it carries the sequences and times as they
-- are, also where they are negative.
unfoldable pub drain_signal : ActiveInput → (reason : String) → ControlSignal
drain_signal req reason = record blank {
  schema_version = "v1.0";
  event_scope = EventScope.turn;
  signal = SignalName.deauthorized_drain;
  emitted_by = Emitter.rk24;
  session_id = req.session_id;
  turn_id = req.turn_id;
  pipeline_version = default_pipeline_version req.pipeline_version;
  event_id = req.event_id;
  lane = Lane.control_lane;
  transport_sequence = some req.transport_sequence;
  runtime_sequence = req.runtime_sequence;
  authority_epoch = req.authority_epoch;
  runtime_timestamp_ms = req.runtime_timestamp_ms;
  wall_clock_ms = req.wall_clock_timestamp_ms;
  payload_class = PayloadClass.metadata;
  reason = reason;
}

unfoldable pub revoke_outcome : ActiveInput → DecisionOutcome
revoke_outcome req =
    active_turn_revoke_outcome req.session_id req.turn_id req.event_id req.runtime_timestamp_ms
      req.wall_clock_timestamp_ms req.authority_epoch

unfoldable pub revoked : ActiveInput → ActiveResult
revoked req = record unchanged {
  decision = some (revoke_outcome req);
  control_lane = drain_signal req (revoke_outcome req).reason ∷ [];
  events =
      event "deauthorized_drain" (revoke_outcome req).reason
      ∷ event "abort" "authority_loss"
      ∷ event "close" ""
      ∷ [];
}

abbrev pub aborted : (reason : String) → ActiveResult
aborted reason = record unchanged { events = event "abort" reason ∷ event "close" "" ∷ [] }

abbrev pub committed : ActiveResult
committed = record unchanged { events = event "commit" "" ∷ event "close" "" ∷ [] }

-- `at` gives the sequences and the times of the signal from those of the input.
unfoldable pub connection_input :
    ActiveInput → (suffix : String) → SignalName → (at : ℤ → ℤ) → ConnectionSignalInput
connection_input req suffix signal at = record {
  session_id = req.session_id;
  turn_id = req.turn_id;
  pipeline_version = default_pipeline_version req.pipeline_version;
  event_id = concat req.event_id suffix;
  signal = signal;
  transport_sequence = at req.transport_sequence;
  runtime_sequence = at req.runtime_sequence;
  authority_epoch = req.authority_epoch;
  runtime_timestamp_ms = at req.runtime_timestamp_ms;
  wall_clock_timestamp_ms = at req.wall_clock_timestamp_ms;
  reason = "transport_disconnect_or_stall";
}

abbrev pub one_later : ℤ → ℤ
one_later v = add64 v (pos 1)

-- The two signals of a lost connection.
unfoldable pub disconnect_signals : ActiveInput → Result (List ControlSignal)
disconnect_signals req = do
  disconnected ←
      build_connection_signal
        (connection_input req "-disconnected" SignalName.disconnected (λ v. v))
  stall ← build_connection_signal (connection_input req "-stall" SignalName.stall one_later)
  ok (disconnected ∷ stall ∷ [])

abbrev pub lost_connection : List ControlSignal → ActiveResult
lost_connection signals = record unchanged {
  control_lane = signals;
  events =
      event "disconnected" "transport_disconnect_or_stall"
      ∷ event "stall" "transport_disconnect_or_stall"
      ∷ event "abort" "transport_disconnect_or_stall"
      ∷ event "close" ""
      ∷ [];
}

module _ (resolver : TurnStartBundleInput → Result TurnStartBundle) where
  unfoldable pub finalize_terminal :
      ActiveInput
      → ActiveResult
      → (outcome reason : String) → TransitionTrigger
      → Option Recorder
      → Option Recorder × Result ActiveResult
  finalize_terminal req result outcome reason trigger recorder =
      let (after, answer) = append_baseline_evidence resolver req outcome reason recorder in
      (after, validated (ending result trigger answer))

  abbrev pub abort_with :
      ActiveInput
      → ActiveResult
      → (reason : String) → Option Recorder
      → Option Recorder × Result ActiveResult
  abort_with req result reason recorder =
      finalize_terminal req result "abort" reason TransitionTrigger.abort recorder

  unfoldable pub handle_revoked :
      Result (Unit {0}) → ActiveInput → Option Recorder → Option Recorder × Result ActiveResult
  handle_revoked (err e) req recorder = (recorder, err e)
  handle_revoked (ok _) req recorder = abort_with req (revoked req) "authority_loss" recorder

  unfoldable pub handle_disconnect :
      Result (List ControlSignal)
      → ActiveInput
      → Option Recorder
      → Option Recorder × Result ActiveResult
  handle_disconnect (err e) req recorder = (recorder, err e)
  handle_disconnect (ok signals) req recorder =
      abort_with req (lost_connection signals) "transport_disconnect_or_stall" recorder

  unfoldable pub handle_active :
      ActiveInput → Option Recorder → Option Recorder × Result ActiveResult
  handle_active req recorder =
      if req.authority_revoked
      then handle_revoked (Outcome.validate (revoke_outcome req)) req recorder
      else if req.cancel_accepted
      then abort_with req (aborted "cancelled") "cancelled" recorder
      else if req.provider_failure
      then abort_with req (aborted "provider_failure") "provider_failure" recorder
      else if req.node_timeout_or_failure
      then abort_with req (aborted "node_timeout_or_failure") "node_timeout_or_failure" recorder
      else if req.transport_disconnect_or_stall
      then handle_disconnect (disconnect_signals req) req recorder
      else if req.baseline_evidence_append_failed
      then abort_with req (aborted "recording_evidence_unavailable")
          "recording_evidence_unavailable" recorder
      else if req.no_legal_continue_or_fallback
      then abort_with req (aborted "deterministic_reason") "deterministic_reason" recorder
      else if req.terminal_success_ready
      then finalize_terminal req committed "commit" "" TransitionTrigger.commit recorder
      else (recorder, ok unchanged)

pub record ApplyInput : Type 0 where
  pub open_turn : Option OpenRequest
  pub active : Option ActiveInput

pub record ApplyResult : Type 0 where
  pub open_turn : Option OpenResult
  pub active : Option ActiveResult

abbrev opened_result : Result OpenResult → Result ApplyResult
opened_result (err e) = err e
opened_result (ok out) = ok (record { open_turn = some out; active = none })

abbrev active_result : Result ActiveResult → Result ApplyResult
active_result (err e) = err e
active_result (ok out) = ok (record { open_turn = none; active = some out })

module _ (sum256 : String → List ℕ) (resolver : TurnStartBundleInput → Result TurnStartBundle) where
  -- The switch on what the input sets.
  apply_to :
      Option OpenRequest
      → Option ActiveInput
      → Option Recorder
      → Option Recorder × Result ApplyResult
  apply_to (some _) (some _) recorder =
      (recorder, err "apply input must set only one of Open or Active")
  apply_to none none recorder = (recorder, err "apply input must set Open or Active")
  apply_to (some req) none recorder =
      (recorder, opened_result (handle_turn_open_proposed sum256 resolver req))
  apply_to none (some req) recorder =
      let (after, answer) = handle_active resolver req recorder in (after, active_result answer)

  unfoldable pub apply : ApplyInput → Option Recorder → Option Recorder × Result ApplyResult
  unfolding apply_to
  apply req recorder = apply_to req.open_turn req.active recorder
