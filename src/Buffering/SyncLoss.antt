-- ===== src/Buffering/SyncLoss.antt =====
-- internal/runtime/buffering/pressure.go, HandleSyncLoss: the answer to the loss of synchronization.
use realtime_speech_pipeline.Base.{
  ◌≡◌, refl, String, Bool, true, false, ◌||◌, some, Result, ok, ◌>>◌, refuse_if, arith,
}
use realtime_speech_pipeline.Base.Int.{ℤ, non_negative}
use realtime_speech_pipeline.Base.Text.{is_empty}
use realtime_speech_pipeline.EventAbi.Types.{
  Lane, PayloadClass, SignalName, Emitter, is_lane, no_lane, validate_seq_range,
}
use realtime_speech_pipeline.EventAbi.Signal
use realtime_speech_pipeline.EventAbi.Signal.{ControlSignal, blank, scope_for, scope_text_for}
use realtime_speech_pipeline.EventAbi.Gateway.Batches.{IsAccepted}
use realtime_speech_pipeline.Buffering.{DropNoticeInput, drop_signal, build_drop_notice}

pub record SyncLossInput : Type 0 where
  pub session_id : String
  pub turn_id : String
  pub pipeline_version : String
  pub event_id : String
  pub transport_sequence : ℤ
  pub runtime_sequence : ℤ
  pub authority_epoch : ℤ
  pub runtime_timestamp_ms : ℤ
  pub wall_clock_timestamp_ms : ℤ
  pub sync_domain : String
  pub discontinuity_id : String
  pub use_atomic_drop : Bool
  pub edge_id : String
  pub target_lane : Lane
  pub drop_range_start : ℤ
  pub drop_range_end : ℤ

abbrev pub atomic_drop : SyncLossInput → DropNoticeInput
atomic_drop req = record {
  session_id = req.session_id;
  turn_id = req.turn_id;
  pipeline_version = req.pipeline_version;
  edge_id = req.edge_id;
  event_id = req.event_id;
  transport_sequence = req.transport_sequence;
  runtime_sequence = req.runtime_sequence;
  authority_epoch = req.authority_epoch;
  runtime_timestamp_ms = req.runtime_timestamp_ms;
  wall_clock_timestamp_ms = req.wall_clock_timestamp_ms;
  target_lane = req.target_lane;
  range_start = req.drop_range_start;
  range_end = req.drop_range_end;
  reason = "sync_atomic_drop";
  emitted_by = Emitter.rk12;
}

unfoldable pub discontinuity_signal : SyncLossInput → ControlSignal
discontinuity_signal req = record blank {
  schema_version = "v1.0";
  event_scope = scope_for req.turn_id;
  session_id = req.session_id;
  turn_id = req.turn_id;
  pipeline_version = req.pipeline_version;
  sync_domain = req.sync_domain;
  discontinuity_id = req.discontinuity_id;
  event_id = req.event_id;
  lane = Lane.control_lane;
  transport_sequence = some (non_negative req.transport_sequence);
  runtime_sequence = non_negative req.runtime_sequence;
  authority_epoch = non_negative req.authority_epoch;
  runtime_timestamp_ms = non_negative req.runtime_timestamp_ms;
  wall_clock_ms = non_negative req.wall_clock_timestamp_ms;
  payload_class = PayloadClass.metadata;
  signal = SignalName.discontinuity;
  emitted_by = Emitter.rk15;
  reason = "sync_domain_partial_loss";
  scope = scope_text_for req.turn_id;
}

-- From the early return for the atomic drop on.
unfoldable pub build_discontinuity : SyncLossInput → Result ControlSignal
build_discontinuity req = do
  refuse_if (is_empty req.session_id || is_empty req.pipeline_version || is_empty req.event_id)
      "session_id, pipeline_version, and event_id are required"
  refuse_if (is_empty req.sync_domain || is_empty req.discontinuity_id)
      "sync_domain and discontinuity_id are required"
  Signal.validate (discontinuity_signal req)
  ok (discontinuity_signal req)

unfoldable pub answer_with : (use_atomic_drop : Bool) → SyncLossInput → Result ControlSignal
answer_with true req = build_drop_notice (atomic_drop req)
answer_with false req = build_discontinuity req

unfoldable pub handle_sync_loss : SyncLossInput → Result ControlSignal
handle_sync_loss req = answer_with req.use_atomic_drop req

-- What each of the two answers needs, beside the ids that both need.
abbrev pub Needs : Bool → SyncLossInput → Type 0
Needs true req =
    (is_empty req.edge_id ≡ false)
    × (is_lane req.target_lane ≡ true)
    × (validate_seq_range (record { start = req.drop_range_start; end = req.drop_range_end })
        ≡ ok tt)
Needs false req = (is_empty req.sync_domain ≡ false) × (is_empty req.discontinuity_id ≡ false)

pub record IsComplete (req : SyncLossInput) : Type 0 where
  pub session : is_empty req.session_id ≡ false
  pub pipeline : is_empty req.pipeline_version ≡ false
  pub event : is_empty req.event_id ≡ false
  pub needs : Needs req.use_atomic_drop req

record HasIds (req : SyncLossInput) : Type 0 where
  session : is_empty req.session_id ≡ false
  pipeline : is_empty req.pipeline_version ≡ false
  event : is_empty req.event_id ≡ false

drop-IsAccepted :
    (req : SyncLossInput) → HasIds req → Needs true req → IsAccepted (drop_signal (atomic_drop req))
unfolding Signal.validation drop_signal
drop-IsAccepted req c (edge, target, range) = ground arith

discontinuity-IsAccepted :
    (req : SyncLossInput) → HasIds req → Needs false req → IsAccepted (discontinuity_signal req)
unfolding Signal.validation discontinuity_signal
discontinuity-IsAccepted req c (domain, id) = ground arith

lane-given : (l : Lane) → is_lane l ≡ true → no_lane l ≡ false
lane-given l h = ground arith

abbrev pub answer : Bool → SyncLossInput → ControlSignal
answer true req = drop_signal (atomic_drop req)
answer false req = discontinuity_signal req

answer_with-ok :
    (atomic : Bool) (req : SyncLossInput)
    → HasIds req
    → Needs atomic req
    → answer_with atomic req ≡ ok (answer atomic req)
unfolding answer_with build_drop_notice build_discontinuity
answer_with-ok true req c (edge, target, range) =
    rw
      (
        c.session,
        c.pipeline,
        edge,
        c.event,
        lane-given req.target_lane target,
        drop-IsAccepted req c (edge, target, range),
      )
      refl
answer_with-ok false req c (domain, id) =
    rw (c.session, c.pipeline, c.event, domain, id, discontinuity-IsAccepted req c (domain, id))
      refl

-- The loss of synchronization is always answered for a complete request, without an error: with a
-- drop_notice where the atomic drop is asked for (then the edge, a real lane and a valid range are
-- needed), and otherwise with a discontinuity (then the sync domain and the discontinuity are needed).
handle_sync_loss-answered :
    (req : SyncLossInput)
    → IsComplete req
    → handle_sync_loss req ≡ ok (answer req.use_atomic_drop req)
unfolding handle_sync_loss
handle_sync_loss-answered req c =
    answer_with-ok req.use_atomic_drop req
      (record { session = c.session; pipeline = c.pipeline; event = c.event }) c.needs
