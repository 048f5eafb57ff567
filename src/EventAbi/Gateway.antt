-- ===== src/EventAbi/Gateway.antt =====
-- internal/runtime/eventabi/gateway.go: the gateway that every batch of control signals and event
-- records passes before it is persisted or leaves the runtime.
pub mod Batches
pub mod Sequences
use realtime_speech_pipeline.Base.{
  String, Bool, true, false, ◌&&◌, Option, none, some, List, [], ◌∷◌, Result, ok, err, ◌>>=◌, ◌>>◌,
  refuse_if, if◌then◌else◌,
}
use realtime_speech_pipeline.Base.Int.{ℤ, pos, ltℤ, is_negative, non_negative}
use realtime_speech_pipeline.Base.Text.{is_empty}
use realtime_speech_pipeline.EventAbi.Types.{EventScope, is_turn_scope}
use realtime_speech_pipeline.EventAbi.Signal
use realtime_speech_pipeline.EventAbi.Signal.{ControlSignal}
use realtime_speech_pipeline.EventAbi.Record
use realtime_speech_pipeline.EventAbi.Record.{EventRecord}

-- `if p == nil { zero := 0; p = &zero }`
abbrev or_zero : Option ℤ → Option ℤ
or_zero none = some (pos 0)
or_zero (some n) = some n

-- The scope text that a signal without one is given.
abbrev default_scope : EventScope → String
default_scope EventScope.turn = "turn"
default_scope _ = "session"

-- The assignments of normalizeSignal.
unfoldable pub fill_signal : ControlSignal → ControlSignal
fill_signal sig = record sig {
  schema_version = if is_empty sig.schema_version then "v1.0" else sig.schema_version;
  scope = if is_empty sig.scope then default_scope sig.event_scope else sig.scope;
  transport_sequence = or_zero sig.transport_sequence;
  runtime_sequence = non_negative sig.runtime_sequence;
  authority_epoch = non_negative sig.authority_epoch;
  runtime_timestamp_ms = non_negative sig.runtime_timestamp_ms;
  wall_clock_ms = non_negative sig.wall_clock_ms;
}

unfoldable pub normalize_signal : ControlSignal → Result ControlSignal
normalize_signal sig = do
  refuse_if (is_turn_scope sig.event_scope && is_empty sig.turn_id)
      "turn scope signal requires turn_id"
  ok (fill_signal sig)

-- `a != nil && b != nil && *a < *b`
abbrev pub both_and_less : Option ℤ → Option ℤ → Bool
both_and_less (some a) (some b) = ltℤ a b
both_and_less _ _ = false

-- The comparison with the signal before, for every index but the first.
unfoldable pub follows : Option ControlSignal → ControlSignal → Result (Unit {0})
follows none sig = ok tt
follows (some prev) sig = do
  refuse_if (ltℤ sig.runtime_sequence prev.runtime_sequence)
      "runtime_sequence regression at index %d: %d < %d"
  refuse_if (both_and_less sig.transport_sequence prev.transport_sequence)
      "transport_sequence regression at index %d: %d < %d"
  ok tt

-- The loop from one index on; `prev` is `out[i-1]`.
unfoldable pub normalize_signals :
    Option ControlSignal → List ControlSignal → Result (List ControlSignal)
normalize_signals prev [] = ok []
normalize_signals prev (sig ∷ rest) = do
  normalized ← normalize_signal sig
  Signal.validate normalized
  follows prev normalized
  out ← normalize_signals (some normalized) rest
  ok (normalized ∷ out)

unfoldable pub validate_and_normalize_control_signals :
    List ControlSignal → Result (List ControlSignal)
validate_and_normalize_control_signals sigs = normalize_signals none sigs

abbrev fill_epoch : Option ℤ → Option ℤ
fill_epoch none = some (pos 0)
fill_epoch (some n) = some (non_negative n)

-- The assignments of normalizeEventRecord.
unfoldable pub fill_record : EventRecord → EventRecord
fill_record e = record e {
  schema_version = if is_empty e.schema_version then "v1.0" else e.schema_version;
  transport_sequence = or_zero e.transport_sequence;
  authority_epoch = fill_epoch e.authority_epoch;
  runtime_sequence = non_negative e.runtime_sequence;
  runtime_timestamp_ms = non_negative e.runtime_timestamp_ms;
  wall_clock_ms = non_negative e.wall_clock_ms;
}

unfoldable pub normalize_event_record : EventRecord → Result EventRecord
normalize_event_record e = do
  refuse_if (is_turn_scope e.event_scope && is_empty e.turn_id)
      "turn scope event record requires turn_id"
  ok (fill_record e)

unfoldable pub record_follows : Option EventRecord → EventRecord → Result (Unit {0})
record_follows none e = ok tt
record_follows (some prev) e = do
  refuse_if (ltℤ e.runtime_sequence prev.runtime_sequence)
      "event record runtime_sequence regression at index %d: %d < %d"
  refuse_if (both_and_less e.transport_sequence prev.transport_sequence)
      "event record transport_sequence regression at index %d: %d < %d"
  ok tt

unfoldable pub normalize_records : Option EventRecord → List EventRecord → Result (List EventRecord)
normalize_records prev [] = ok []
normalize_records prev (e ∷ rest) = do
  normalized ← normalize_event_record e
  Record.validate normalized
  record_follows prev normalized
  out ← normalize_records (some normalized) rest
  ok (normalized ∷ out)

unfoldable pub validate_and_normalize_event_records : List EventRecord → Result (List EventRecord)
validate_and_normalize_event_records es = normalize_records none es
