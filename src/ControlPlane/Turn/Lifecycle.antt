-- ===== src/ControlPlane/Turn/Lifecycle.antt =====
-- The runs of a turn through the transitions that TurnTransition.Validate of api/controlplane/types.go
-- accepts.
use realtime_speech_pipeline.Base.{ℕ, ◌+◌, ◌≡◌, refl, true, ok, arith, List, [], ◌∷◌}
use realtime_speech_pipeline.ControlPlane.Turn.{
  TurnState, TransitionTrigger, TurnTransition, validate, is_allowed,
}

-- Which trigger takes a turn from one state to another.
pub data Step : TurnState → TransitionTrigger → TurnState → Type 0 where
  propose : Step TurnState.idle TransitionTrigger.turn_open_proposed TurnState.opening
  open_turn : Step TurnState.opening TransitionTrigger.turn_open TurnState.active
  reject : Step TurnState.opening TransitionTrigger.reject TurnState.idle
  defer : Step TurnState.opening TransitionTrigger.defer TurnState.idle
  stale : Step TurnState.opening TransitionTrigger.stale_epoch_reject TurnState.idle
  drain : Step TurnState.opening TransitionTrigger.deauthorized_drain TurnState.idle
  commit : Step TurnState.active TransitionTrigger.commit TurnState.terminal
  abort : Step TurnState.active TransitionTrigger.abort TurnState.terminal
  close : Step TurnState.terminal TransitionTrigger.close TurnState.closed

Step_of_allowed :
    (s : TurnState) (t : TransitionTrigger) (s' : TurnState)
    → is_allowed s t s' ≡ true
    → Step s t s'
Step_of_allowed TurnState.idle TransitionTrigger.turn_open_proposed TurnState.opening h = propose
Step_of_allowed TurnState.opening TransitionTrigger.turn_open TurnState.active h = open_turn
Step_of_allowed TurnState.opening TransitionTrigger.reject TurnState.idle h = reject
Step_of_allowed TurnState.opening TransitionTrigger.defer TurnState.idle h = defer
Step_of_allowed TurnState.opening TransitionTrigger.stale_epoch_reject TurnState.idle h = stale
Step_of_allowed TurnState.opening TransitionTrigger.deauthorized_drain TurnState.idle h = drain
Step_of_allowed TurnState.active TransitionTrigger.commit TurnState.terminal h = commit
Step_of_allowed TurnState.active TransitionTrigger.abort TurnState.terminal h = abort
Step_of_allowed TurnState.terminal TransitionTrigger.close TurnState.closed h = close
Step_of_allowed _ _ _ h = cc

Step_of_accepted :
    (t : TurnTransition) → validate t ≡ ok tt → Step t.from_state t.trigger t.to_state
unfolding validate
Step_of_accepted t h = Step_of_allowed t.from_state t.trigger t.to_state (ground arith)

-- A sequence of accepted transitions, each from the state in which the one before left the turn.
abbrev pub Run : TurnState → List TurnTransition → TurnState → Type 0
Run s [] e = s ≡ e
Run s (t ∷ ts) e = (t.from_state ≡ s) × (validate t ≡ ok tt) × Run t.to_state ts e

-- How often a turn was opened, finished (by commit or abort) and closed.
abbrev pub is_open : TransitionTrigger → ℕ
is_open TransitionTrigger.turn_open = 1
is_open _ = 0

abbrev pub is_finish : TransitionTrigger → ℕ
is_finish TransitionTrigger.commit = 1
is_finish TransitionTrigger.abort = 1
is_finish _ = 0

abbrev pub is_close : TransitionTrigger → ℕ
is_close TransitionTrigger.close = 1
is_close _ = 0

abbrev pub count : (TransitionTrigger → ℕ) → List TurnTransition → ℕ
count f [] = 0
count f (t ∷ ts) = f t.trigger + count f ts

-- What each state says of the past.
abbrev pub opened : TurnState → ℕ
opened TurnState.active = 1
opened TurnState.terminal = 1
opened TurnState.closed = 1
opened _ = 0

abbrev pub finished : TurnState → ℕ
finished TurnState.terminal = 1
finished TurnState.closed = 1
finished _ = 0

abbrev pub closed_once : TurnState → ℕ
closed_once TurnState.closed = 1
closed_once _ = 0

pub record Kept (f : TransitionTrigger → ℕ) (mark : TurnState → ℕ) : Type 0 where
  pub kept : {s s' : TurnState} {t : TransitionTrigger} → Step s t s' → mark s + f t ≡ mark s'

count-Kept :
    (f : TransitionTrigger → ℕ) (mark : TurnState → ℕ) (s : TurnState) (ts : List TurnTransition)
    (e : TurnState)
    → Kept f mark
    → Run s ts e
    → mark s + count f ts ≡ mark e
count-Kept f mark s [] e k h = rw h (omega arith)
count-Kept f mark s (t ∷ ts) e k (from, accepted, rest) =
    let step = k.kept (Step_of_accepted t accepted) in
    let later = count-Kept f mark t.to_state ts e k rest in rw (← from) (omega (arith, step, later))

opened-Kept : Kept is_open opened
opened-Kept = record { kept = λ s. by_cases s }
  where
    by_cases :
        {s s' : TurnState} {t : TransitionTrigger} → Step s t s' → opened s + is_open t ≡ opened s'
    by_cases propose = refl
    by_cases _ = refl

finished-Kept : Kept is_finish finished
finished-Kept = record { kept = λ s. by_cases s }
  where
    by_cases :
        {s s' : TurnState} {t : TransitionTrigger}
        → Step s t s'
        → finished s + is_finish t ≡ finished s'
    by_cases propose = refl
    by_cases _ = refl

closed-Kept : Kept is_close closed_once
closed-Kept = record { kept = λ s. by_cases s }
  where
    by_cases :
        {s s' : TurnState} {t : TransitionTrigger}
        → Step s t s'
        → closed_once s + is_close t ≡ closed_once s'
    by_cases propose = refl
    by_cases _ = refl

-- In any sequence of accepted transitions from idle, the turn was opened exactly once if it is active
-- or past it, and never otherwise; it was committed or aborted exactly once if it is terminal or
-- closed, and never otherwise; and it was closed exactly once if it is closed, and never otherwise.
pub Run-once :
    (ts : List TurnTransition) (e : TurnState)
    → Run TurnState.idle ts e
    → (count is_open ts ≡ opened e)
      × (count is_finish ts ≡ finished e)
      × (count is_close ts ≡ closed_once e)
Run-once ts e h = (
  omega (arith, count-Kept is_open opened TurnState.idle ts e opened-Kept h),
  omega (arith, count-Kept is_finish finished TurnState.idle ts e finished-Kept h),
  omega (arith, count-Kept is_close closed_once TurnState.idle ts e closed-Kept h),
)
