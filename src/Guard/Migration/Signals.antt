-- ===== src/Guard/Migration/Signals.antt =====
-- What internal/runtime/guard/migration.go gives, for every request that is complete.
use realtime_speech_pipeline.Base.{
  ℕ, suc, ◌≡◌, refl, String, Bool, true, false, List, [], ◌∷◌, ◌++◌, ok, ◌>>=◌, arith,
  if◌then◌else◌,
}
use realtime_speech_pipeline.Base.Int.{ℤ, pos, negsuc, is_negative, non_negative, add64}
use realtime_speech_pipeline.Base.Lists.{All, length}
use realtime_speech_pipeline.Base.Text.{is_empty, is_empty-concat}
use realtime_speech_pipeline.ControlPlane.Outcome
use realtime_speech_pipeline.EventAbi.Types.{SignalName, Emitter}
use realtime_speech_pipeline.EventAbi.Signal
use realtime_speech_pipeline.EventAbi.Signal.{ControlSignal}
use realtime_speech_pipeline.EventAbi.Gateway.Batches.{IsAccepted}
use realtime_speech_pipeline.LocalAdmission.Decisions.{IsStamped}
use realtime_speech_pipeline.Guard.Migration.{
  MigrationInput, MigrationStep, migration_signal, build_migration_signal, build_steps, ordered,
  handoff, build_migration_signals, old_placement_outcome, old_placement_signal,
  reject_old_placement_output,
}

pub record IsComplete (req : MigrationInput) : Type 0 where
  pub session : is_empty req.session_id ≡ false
  pub pipeline : is_empty req.pipeline_version ≡ false
  pub event : is_empty req.event_id_base ≡ false

non_negative-given : (z : ℤ) → is_negative (non_negative z) ≡ false
non_negative-given (pos n) = refl
non_negative-given (negsuc n) = refl

-- The steps that a migration emits.
data Emits : SignalName → Emitter → Type 0 where
  rotated : Emits SignalName.lease_rotated Emitter.cp07
  started : Emits SignalName.migration_start Emitter.cp08
  finished : Emits SignalName.migration_finish Emitter.cp08
  handed : Emits SignalName.session_handoff Emitter.cp08

record Fields (req : MigrationInput) (c : ControlSignal) (k : ℕ) : Type 0 where
  event : is_empty c.event_id ≡ false
  transport : is_negative (non_negative (add64 req.transport_sequence (pos k))) ≡ false
  runtime : is_negative c.runtime_sequence ≡ false
  runtime_time : is_negative c.runtime_timestamp_ms ≡ false
  wall_time : is_negative c.wall_clock_ms ≡ false

migration_signal-Fields :
    (req : MigrationInput) (n : SignalName) (e : Emitter) (reason : String) (k : ℕ)
    → IsComplete req
    → Fields req (migration_signal req n e reason k) k
unfolding migration_signal
migration_signal-Fields req n e reason k c = record {
  event = is_empty-concat req.event_id_base _ c.event;
  transport = non_negative-given (add64 req.transport_sequence (pos k));
  runtime = non_negative-given (add64 req.runtime_sequence (pos k));
  runtime_time = non_negative-given (add64 req.runtime_timestamp_ms (pos k));
  wall_time = non_negative-given (add64 req.wall_clock_timestamp_ms (pos k));
}

IsAccepted-of_Fields :
    (req : MigrationInput) {n : SignalName} {e : Emitter} (reason : String) (k : ℕ)
    → IsComplete req
    → Emits n e
    → Fields req (migration_signal req n e reason k) k
    → IsAccepted (migration_signal req n e reason k)
unfolding Signal.validation migration_signal
IsAccepted-of_Fields req reason k c rotated f = ground arith
IsAccepted-of_Fields req reason k c started f = ground arith
IsAccepted-of_Fields req reason k c finished f = ground arith
IsAccepted-of_Fields req reason k c handed f = ground arith

migration_signal-IsAccepted :
    (req : MigrationInput) {n : SignalName} {e : Emitter} (reason : String) (k : ℕ)
    → IsComplete req
    → Emits n e
    → IsAccepted (migration_signal req n e reason k)
migration_signal-IsAccepted req {n} {e} reason k c em =
    IsAccepted-of_Fields req reason k c em (migration_signal-Fields req n e reason k c)

build-ok :
    (req : MigrationInput) {n : SignalName} {e : Emitter} (reason : String) (k : ℕ)
    → IsComplete req
    → Emits n e
    → build_migration_signal req n e reason k ≡ ok (migration_signal req n e reason k)
unfolding build_migration_signal
build-ok req reason k c em = rw (migration_signal-IsAccepted req reason k c em) refl

-- What the steps come to, from one index on.
pub planned_steps : MigrationInput → ℕ → List MigrationStep → List ControlSignal
planned_steps req k [] = []
planned_steps req k (s ∷ steps) =
    migration_signal req s.signal s.emitter s.reason k ∷ planned_steps req (suc k) steps

abbrev Emitted : MigrationStep → Type 0
Emitted s = Emits s.signal s.emitter

build_steps-planned :
    (req : MigrationInput) (k : ℕ) (steps : List MigrationStep)
    → IsComplete req
    → All Emitted steps
    → build_steps req k steps ≡ ok (planned_steps req k steps)
unfolding build_steps planned_steps
build_steps-planned req k [] c h = refl
build_steps-planned req k (s ∷ steps) c h =
    rw (build-ok req s.reason k c h.0, build_steps-planned req (suc k) steps c h.1) refl

planned_steps-IsAccepted :
    (req : MigrationInput) (k : ℕ) (steps : List MigrationStep)
    → IsComplete req
    → All Emitted steps
    → All IsAccepted (planned_steps req k steps)
unfolding planned_steps
planned_steps-IsAccepted req k [] c h = tt
planned_steps-IsAccepted req k (s ∷ steps) c h = (
  migration_signal-IsAccepted req s.reason k c h.0,
  planned_steps-IsAccepted req (suc k) steps c h.1,
)

-- All steps of a migration, in their order.
abbrev pub steps_of : MigrationInput → List MigrationStep
steps_of req = if req.include_session_handoff then ordered ++ handoff ∷ [] else ordered

Emitted-with : All Emitted (ordered ++ handoff ∷ [])
Emitted-with = (rotated, (started, (finished, (handed, tt))))

Emitted-without : All Emitted ordered
Emitted-without = (rotated, (started, (finished, tt)))

joined :
    (req : MigrationInput) (on : Bool)
    → IsComplete req
    → (do
      sigs ← build_steps req 0 ordered
      last ← (if on then build_steps req (length sigs) (handoff ∷ []) else ok [])
      ok (sigs ++ last))
      ≡ ok (planned_steps req 0 (if on then ordered ++ handoff ∷ [] else ordered))
unfolding planned_steps
joined req true c =
    rw
      (
        build_steps-planned req 0 ordered c Emitted-without,
        build_steps-planned req 3 (handoff ∷ []) c (handed, tt),
      )
      refl
joined req false c = rw (build_steps-planned req 0 ordered c Emitted-without) refl

steps-Emitted :
    (req : MigrationInput) (on : Bool)
    → All Emitted (if on then ordered ++ handoff ∷ [] else ordered)
steps-Emitted req true = Emitted-with
steps-Emitted req false = Emitted-without

-- For a complete request a migration is always announced, without an error: lease_rotated, then
-- migration_start, then migration_finish, then session_handoff if it is asked for, with offsets that
-- count up, and each of them is a signal that ControlSignal.Validate accepts.
pub build_migration_signals-planned :
    (req : MigrationInput)
    → IsComplete req
    → (build_migration_signals req ≡ ok (planned_steps req 0 (steps_of req)))
      × All IsAccepted (planned_steps req 0 (steps_of req))
unfolding build_migration_signals
build_migration_signals-planned req c = (
  rw (c.session, c.pipeline, c.event) (joined req req.include_session_handoff c),
  planned_steps-IsAccepted req 0 (steps_of req) c (steps-Emitted req req.include_session_handoff),
)

old_signal-IsAccepted :
    (s t v : String) (runtime wall epoch : ℤ)
    → IsStamped s v runtime wall
    → IsAccepted (old_placement_signal s t v runtime wall epoch)
unfolding Signal.validation old_placement_signal
old_signal-IsAccepted s t v runtime wall epoch h = ground arith

old_outcome-accepted :
    (s t v : String) (runtime wall epoch : ℤ)
    → IsStamped s v runtime wall
    → Outcome.validate (old_placement_outcome s t v runtime wall epoch) ≡ ok tt
unfolding Outcome.validation old_placement_outcome
old_outcome-accepted s t v runtime wall epoch h = ground arith

-- With a session, an event and times that are not negative, output from an old placement is always
-- rejected, in a turn or out of one: the outcome and the signal are built without an error.
reject_old_placement-returns :
    (s t v : String) (runtime wall epoch : ℤ)
    → IsStamped s v runtime wall
    → reject_old_placement_output s t v runtime wall epoch
      ≡ ok (
        old_placement_outcome s t v runtime wall epoch,
        old_placement_signal s t v runtime wall epoch,
      )
unfolding reject_old_placement_output
reject_old_placement-returns s t v runtime wall epoch h =
    rw
      (
        old_outcome-accepted s t v runtime wall epoch h,
        old_signal-IsAccepted s t v runtime wall epoch h,
      )
      refl
