-- ===== src/Examples.antt =====
-- The theorems of the library at concrete inputs.
pub mod Providers
pub mod Nodes
pub mod Edges
pub mod Migration
pub mod Plans
pub mod Pools
pub mod Runs
pub mod Records
pub mod Merges
pub mod Policies
pub mod Turns
use realtime_speech_pipeline.Base.{
  ◌≡◌, ◌↔◌, refl, Bool, true, false, ◌&&◌, ◌++◌, not, none, some, List, [], ◌∷◌, ok, ◌⊎◌,
}
use realtime_speech_pipeline.Base.Int.{pos, negsuc}
use realtime_speech_pipeline.Base.Text.{concat, trim_space}
use realtime_speech_pipeline.ControlPlane.Outcome
use realtime_speech_pipeline.ControlPlane.Outcome.{
  OutcomeKind, OutcomePhase, OutcomeScope, OutcomeEmitter, DecisionOutcome,
}
use realtime_speech_pipeline.ControlPlane.Outcome.Rules.{
  IsWellFormed, is_counted, validate-IsWellFormed,
}
use realtime_speech_pipeline.ControlPlane.Turn
use realtime_speech_pipeline.ControlPlane.Turn.{TurnState, TransitionTrigger, TurnTransition}
use realtime_speech_pipeline.ControlPlane.Turn.Lifecycle.{
  Run, count, is_open, is_finish, is_close, Run-once,
}
use realtime_speech_pipeline.EventAbi.Types.{Lane, EventScope, PayloadClass, SignalName, Emitter}
use realtime_speech_pipeline.EventAbi.Signal
use realtime_speech_pipeline.EventAbi.Signal.{ControlSignal, blank, validate_envelope, range_rule}
use realtime_speech_pipeline.EventAbi.Signal.Offices.{
  IsEntitled, IsChecked, IsLeftOpen, validate-IsEntitled,
}
use realtime_speech_pipeline.EventAbi.Gateway.{
  fill_signal, follows, normalize_signal, normalize_signals, validate_and_normalize_control_signals,
}
use realtime_speech_pipeline.EventAbi.Gateway.Batches.{Passes, gateway-Passes, gateway_idem}
use realtime_speech_pipeline.EventAbi.Gateway.Sequences.{Monotone, gateway-Monotone}
use realtime_speech_pipeline.Flow
use realtime_speech_pipeline.Flow.Plan.{planned_pressure, planned_recovery, evaluate-planned}
use realtime_speech_pipeline.Cancellation
use realtime_speech_pipeline.Cancellation.{Fence, new_fence, turn_key, accept, is_fenced}
use realtime_speech_pipeline.Cancellation.Keys.{IsPlain, is_fenced-accept, accept-fences_other}
use realtime_speech_pipeline.Egress.{
  OutputAttempt, output_signal, accept_cancel, evaluate_accepted, decide, evaluate_output,
}
use realtime_speech_pipeline.Egress.Outputs.{decision, fence_after, run_fence, cancelled_stays}
use realtime_speech_pipeline.LocalAdmission
use realtime_speech_pipeline.LocalAdmission.Decisions.{IsStamped, Decided}
use realtime_speech_pipeline.Guard

abbrev drained : DecisionOutcome
drained = record {
  outcome_kind = OutcomeKind.deauthorized_drain;
  phase = OutcomePhase.active_turn;
  scope = OutcomeScope.turn;
  session_id = "s1";
  turn_id = "t1";
  event_id = "e1";
  runtime_timestamp_ms = pos 10;
  wall_clock_ms = pos 11;
  emitted_by = OutcomeEmitter.rk24;
  authority_epoch = some (pos 3);
  reason = "authority_revoked_in_turn";
}

-- At the epoch -1, which the contract does not allow.
validate-IsWellFormed_example :
    (IsWellFormed drained
      ↔ ((Outcome.validate drained ≡ ok tt) × (is_counted drained.authority_epoch ≡ true)))
    × (Outcome.validate (record drained { authority_epoch = some (negsuc 0) })
        ≡ Outcome.validate (record drained { authority_epoch = some (pos 0) }))
validate-IsWellFormed_example = validate-IsWellFormed drained (negsuc 0)

drained_test : Outcome.validate drained ≡ ok tt
unfolding Outcome.validation
drained_test = refl

-- A commit of turn `t1`, as it reaches the gateway.
abbrev commit : ControlSignal
commit = record blank {
  event_scope = EventScope.turn;
  session_id = "s1";
  turn_id = "t1";
  pipeline_version = "p1";
  event_id = "e1";
  lane = Lane.control_lane;
  transport_sequence = some (pos 4);
  runtime_sequence = pos 7;
  payload_class = PayloadClass.metadata;
  signal = SignalName.commit;
  emitted_by = Emitter.rk03;
}

-- The close that follows it; its sequences are left out.
abbrev close : ControlSignal
close = record commit {
  event_id = "e2";
  signal = SignalName.close;
  transport_sequence = some (pos 5);
  runtime_sequence = pos 7;
  authority_epoch = negsuc 0;
}

abbrev sent : ControlSignal
sent = record commit { schema_version = "v1.0"; scope = "turn" }

validate-IsEntitled_example :
    ((Signal.validate sent ≡ ok tt)
      ↔ (IsChecked sent SignalName.commit × (range_rule none ≡ ok tt)))
    × (IsEntitled sent SignalName.commit
        ↔ (IsChecked sent SignalName.commit × IsLeftOpen sent SignalName.commit))
unfolding Signal.validation
validate-IsEntitled_example = validate-IsEntitled sent refl

abbrev batch : List ControlSignal
batch = commit ∷ close ∷ []

abbrev passed : List ControlSignal
passed =
    sent ∷ record close { schema_version = "v1.0"; scope = "turn"; authority_epoch = pos 0 } ∷ []

batch_passes : validate_and_normalize_control_signals batch ≡ ok passed
unfolding Signal.validation validate_and_normalize_control_signals follows fill_signal
    normalize_signals normalize_signal
batch_passes = refl

gateway-Passes_example :
    (validate_and_normalize_control_signals batch ≡ ok passed) ↔ Passes none batch passed
gateway-Passes_example = gateway-Passes batch passed

gateway_idem_example : validate_and_normalize_control_signals passed ≡ ok passed
gateway_idem_example = gateway_idem batch passed batch_passes

gateway-Monotone_example : Monotone passed
gateway-Monotone_example = gateway-Monotone batch passed batch_passes

abbrev congested : Flow.Input
congested = record {
  session_id = "s1";
  turn_id = "t1";
  pipeline_version = "p1";
  edge_id = "edge1";
  event_id = "e1";
  target_lane = Lane.data_lane;
  transport_sequence = negsuc 0;
  runtime_sequence = pos 7;
  authority_epoch = pos 1;
  runtime_timestamp_ms = pos 100;
  wall_clock_timestamp_ms = pos 100;
  high_watermark = true;
  emit_recovery = true;
  mode = Flow.Mode.credit;
  credit_amount = pos 0;
}

evaluate-planned_example :
    Flow.evaluate congested ≡ ok (planned_pressure congested ++ planned_recovery congested)
evaluate-planned_example =
    evaluate-planned congested
      (record { session = refl; pipeline = refl; edge = refl; event = refl; target = refl }) refl

key_of_cancelled : turn_key "s1" " t1" ≡ ok "s1/t1"
unfolding turn_key trim_space
key_of_cancelled = refl

is_fenced-accept_example :
    (is_fenced (accept new_fence "s1" " t1").0 "s1" "t2" ≡ true)
    ↔ ((turn_key "s1" "t2" ≡ ok "s1/t1") ⊎ (is_fenced new_fence "s1" "t2" ≡ true))
is_fenced-accept_example = is_fenced-accept new_fence "s1" " t1" "s1" "t2" key_of_cancelled

IsPlain-s : IsPlain "s"
unfolding trim_space
IsPlain-s = record { trimmed = refl; given = refl }

IsPlain-u : IsPlain "u"
unfolding trim_space
IsPlain-u = record { trimmed = refl; given = refl }

IsPlain-st : IsPlain (concat "s" (concat "/" "t"))
unfolding trim_space
IsPlain-st = record { trimmed = refl; given = refl }

IsPlain-tu : IsPlain (concat "t" (concat "/" "u"))
unfolding trim_space
IsPlain-tu = record { trimmed = refl; given = refl }

accept-fences_other_example : is_fenced (accept new_fence "s/t" "u").0 "s" "t/u" ≡ true
accept-fences_other_example =
    accept-fences_other new_fence "s" "t" "u" IsPlain-s IsPlain-u IsPlain-st IsPlain-tu

abbrev output : Bool → OutputAttempt
output cancel = record {
  session_id = "s1";
  turn_id = "t1";
  pipeline_version = "p1";
  event_id = "e1";
  transport_sequence = pos 1;
  runtime_sequence = pos 2;
  authority_epoch = pos 0;
  runtime_timestamp_ms = pos 3;
  wall_clock_timestamp_ms = pos 4;
  cancel_accepted = cancel;
}

key_of_output : turn_key "s1" "t1" ≡ ok "s1/t1"
unfolding turn_key trim_space
key_of_output = refl

fenced_run :
    (evaluate_output (run_fence new_fence (output true ∷ [])) (output false)).1
    ≡ ok (decision (output false) true)
unfolding run_fence evaluate_output turn_key is_fenced Cancellation.accept_key
    Cancellation.fenced_key Cancellation.has_key accept accept_cancel evaluate_accepted decide
    output_signal trim_space Signal.validation validate_and_normalize_control_signals
    normalize_signals normalize_signal follows fill_signal
fenced_run = refl

cancelled_stays_example : decision (output false) true ≡ decision (output false) true
cancelled_stays_example =
    cancelled_stays new_fence (output true) [] (output false) (decision (output false) true) refl
      refl key_of_output key_of_output fenced_run

stamped : IsStamped "s1" "e1" (pos 0) (pos 0)
stamped = record { session = refl; event = refl; runtime_time = refl; wall_time = refl }

abbrev opening : LocalAdmission.PreTurnInput
opening = record {
  session_id = "s1";
  turn_id = "t1";
  event_id = "e1";
  runtime_timestamp_ms = pos 0;
  wall_clock_timestamp_ms = pos 0;
  snapshot_valid = false;
  snapshot_failure_policy = OutcomeKind.admit;
  capacity_disposition = LocalAdmission.CapacityDisposition.allow;
}

abbrev dequeue : LocalAdmission.SchedulingPointInput
dequeue = record {
  session_id = "s1";
  turn_id = "t1";
  event_id = "e1";
  runtime_timestamp_ms = pos 0;
  wall_clock_timestamp_ms = pos 0;
  scope = OutcomeScope.edge_dequeue;
  shed = true;
  reason = "";
}

abbrev revoked : Guard.PreTurnInput
revoked = record {
  session_id = "s1";
  turn_id = "";
  event_id = "e1";
  runtime_timestamp_ms = pos 0;
  wall_clock_timestamp_ms = pos 0;
  authority_epoch = pos 3;
  authority_epoch_valid = true;
  authority_authorized = false;
}

abbrev turn_step : TurnState → TransitionTrigger → TurnState → TurnTransition
turn_step from trigger to = record {
  from_state = from;
  trigger = trigger;
  to_state = to;
  deterministic = true;
}

-- Proposed, deferred, proposed again, opened and aborted.
abbrev turn_run : List TurnTransition
turn_run =
    turn_step TurnState.idle TransitionTrigger.turn_open_proposed TurnState.opening
    ∷ turn_step TurnState.opening TransitionTrigger.defer TurnState.idle
    ∷ turn_step TurnState.idle TransitionTrigger.turn_open_proposed TurnState.opening
    ∷ turn_step TurnState.opening TransitionTrigger.turn_open TurnState.active
    ∷ turn_step TurnState.active TransitionTrigger.abort TurnState.terminal
    ∷ []

turn_run_accepted : Run TurnState.idle turn_run TurnState.terminal
unfolding Turn.validate
turn_run_accepted = (refl, refl, (refl, refl, (refl, refl, (refl, refl, (refl, refl, refl)))))

Run-once_example :
    (count is_open turn_run ≡ 1) × (count is_finish turn_run ≡ 1) × (count is_close turn_run ≡ 0)
Run-once_example = Run-once turn_run TurnState.terminal turn_run_accepted
