-- ===== src/Provider/Invocation/Notices.antt =====
-- When the notices of internal/runtime/provider/invocation/controller.go are valid control signals.
use realtime_speech_pipeline.Base.{
  ℕ, ◌+◌, ◌^◌, ◌≤◌, ◌<◌, ◌≡◌, refl, String, false, [], ◌∷◌, ◌++◌, Result, ok, >>-eq-ok, arith,
  refuse_if-eq-ok, or_false3,
}
use realtime_speech_pipeline.Base.Int.{
  ℤ, pos, negsuc, pos_part, is_negative, non_negative, add64, add64_pos,
}
use realtime_speech_pipeline.Base.Lists.{length, length-append}
use realtime_speech_pipeline.Base.Text.{is_empty-concat, is_empty}
use realtime_speech_pipeline.EventAbi.Signal
use realtime_speech_pipeline.Provider.Contracts.{Outcome, validate_modality}
use realtime_speech_pipeline.Provider.Requests.{
  InvocationInput, InvocationResult, Notice, append_signal, notice_signal, failure_reason,
  circuit_reason, switch_reason, validate_input,
}

-- A clock or a sequence that starts at `z` has room for `b` steps in an int64.
abbrev pub Room : ℤ → ℕ → Type 0
Room z b = pos_part (non_negative z) + b < 2 ^ 63

stays_positive :
    (z : ℤ) (k b : ℕ) → k ≤ b → Room z b → is_negative (add64 (non_negative z) (pos k)) ≡ false
stays_positive (pos n) k b h r = rw (add64_pos n k (omega arith)) refl
stays_positive (negsuc n) k b h r = rw (add64_pos 0 k (omega arith)) refl

pub record Headroom (req : InvocationInput) (b : ℕ) : Type 0 where
  pub transport : Room req.transport_sequence b
  pub runtime : Room req.runtime_sequence b
  pub runtime_time : Room req.runtime_timestamp_ms b
  pub wall_time : Room req.wall_clock_timestamp_ms b

pub record Named (req : InvocationInput) : Type 0 where
  pub session : is_empty req.session_id ≡ false
  pub pipeline : is_empty req.pipeline_version ≡ false
  pub event : is_empty req.event_id ≡ false

pub Named-of_valid : (req : InvocationInput) → validate_input req ≡ ok tt → Named req
unfolding validate_input
Named-of_valid req h =
    let (ids, rest) = >>-eq-ok _ (validate_modality req.modality) h in
    let (s, p, e) = or_false3 _ _ _ (refuse_if-eq-ok _ _ ids) in
    record { session = s; pipeline = p; event = e }

-- What the fields of a notice come to.
record Stamps (req : InvocationInput) (k : ℕ) : Type 0 where
  transport : is_negative (add64 (non_negative req.transport_sequence) (pos k)) ≡ false
  runtime : is_negative (add64 (non_negative req.runtime_sequence) (pos k)) ≡ false
  runtime_time : is_negative (add64 (non_negative req.runtime_timestamp_ms) (pos k)) ≡ false
  wall_time : is_negative (add64 (non_negative req.wall_clock_timestamp_ms) (pos k)) ≡ false

Stamps-of_Headroom : (req : InvocationInput) (k b : ℕ) → Headroom req b → k ≤ b → Stamps req k
Stamps-of_Headroom req k b room fits = record {
  transport = stays_positive req.transport_sequence k b fits room.transport;
  runtime = stays_positive req.runtime_sequence k b fits room.runtime;
  runtime_time = stays_positive req.runtime_timestamp_ms k b fits room.runtime_time;
  wall_time = stays_positive req.wall_clock_timestamp_ms k b fits room.wall_time;
}

accepted_of_Stamps :
    (req : InvocationInput) (n : Notice) (reason : String) (k : ℕ)
    → Named req
    → Stamps req k
    → is_empty reason ≡ false
    → is_empty (notice_signal req n reason k).event_id ≡ false
    → Signal.validate (notice_signal req n reason k) ≡ ok tt
unfolding Signal.validation notice_signal
accepted_of_Stamps req Notice.provider_error reason k named stamps given event = ground arith
accepted_of_Stamps req _ reason k named stamps given event = ground arith

event_id-given :
    (req : InvocationInput) (n : Notice) (reason : String) (k : ℕ)
    → Named req
    → is_empty (notice_signal req n reason k).event_id ≡ false
unfolding notice_signal
event_id-given req n reason k named = is_empty-concat req.event_id _ named.event

notice_signal-accepted :
    (req : InvocationInput) (n : Notice) (reason : String) (k b : ℕ)
    → Named req
    → Headroom req b
    → k ≤ b
    → is_empty reason ≡ false
    → Signal.validate (notice_signal req n reason k) ≡ ok tt
notice_signal-accepted req n reason k b named room fits given =
    accepted_of_Stamps req n reason k named (Stamps-of_Headroom req k b room fits) given
      (event_id-given req n reason k named)

-- A notice that is appended, and what it leaves.
pub record Grows (n : ℕ) (r : InvocationResult) (x : Result InvocationResult) : Type 0 where
  pub result : InvocationResult
  pub is_ok : x ≡ ok result
  pub size : length result.signals ≤ length r.signals + n

pub append_signal-Grows :
    (req : InvocationInput) (n : Notice) (reason : String) (r : InvocationResult) (b : ℕ)
    → Named req
    → Headroom req b
    → length r.signals ≤ b
    → is_empty reason ≡ false
    → Grows 1 r (append_signal req n reason r)
unfolding append_signal
append_signal-Grows req n reason r b named room fits given =
    let sig = notice_signal req n reason (length r.signals) in
    record {
      result = record r { signals = r.signals ++ sig ∷ [] };
      is_ok =
          rw (notice_signal-accepted req n reason (length r.signals) b named room fits given) refl;
      size = rw (length-append r.signals (sig ∷ [])) (omega arith);
    }

pub failure_reason-given : (id : String) (o : Outcome) → is_empty (failure_reason id o) ≡ false
unfolding failure_reason
failure_reason-given id o = is_empty-concat "provider=" _ refl

pub circuit_reason-given : (id : String) (o : Outcome) → is_empty (circuit_reason id o) ≡ false
unfolding circuit_reason
circuit_reason-given id o = is_empty-concat "provider=" _ refl

pub switch_reason-given : (a b : String) → is_empty (switch_reason a b) ≡ false
unfolding switch_reason
switch_reason-given a b = is_empty-concat "from=" _ refl
