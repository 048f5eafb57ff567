-- ===== src/ControlPlane/Turn.antt =====
-- api/controlplane/types.go: the lifecycle of a turn, TurnTransition and its validation.
pub mod Lifecycle
use realtime_speech_pipeline.Base.{String, Bool, true, false, not, Result, ◌>>◌, refuse_if}

pub data TurnState : Type 0 where
  idle opening active terminal closed : TurnState
  other : String → TurnState

pub data TransitionTrigger : Type 0 where
  turn_open_proposed turn_open commit abort close : TransitionTrigger
  reject defer stale_epoch_reject deauthorized_drain : TransitionTrigger
  other : String → TransitionTrigger

pub record TurnTransition : Type 0 where
  pub from_state : TurnState
  pub trigger : TransitionTrigger
  pub to_state : TurnState
  pub deterministic : Bool

-- The five disjuncts of `isAllowed`.
abbrev is_allowed : TurnState → TransitionTrigger → TurnState → Bool
is_allowed TurnState.idle TransitionTrigger.turn_open_proposed TurnState.opening = true
is_allowed TurnState.opening TransitionTrigger.turn_open TurnState.active = true
is_allowed TurnState.opening TransitionTrigger.reject TurnState.idle = true
is_allowed TurnState.opening TransitionTrigger.defer TurnState.idle = true
is_allowed TurnState.opening TransitionTrigger.stale_epoch_reject TurnState.idle = true
is_allowed TurnState.opening TransitionTrigger.deauthorized_drain TurnState.idle = true
is_allowed TurnState.active TransitionTrigger.commit TurnState.terminal = true
is_allowed TurnState.active TransitionTrigger.abort TurnState.terminal = true
is_allowed TurnState.terminal TransitionTrigger.close TurnState.closed = true
is_allowed _ _ _ = false

unfoldable pub validate : TurnTransition → Result (Unit {0})
validate t = do
  refuse_if (not t.deterministic) "deterministic must be true"
  refuse_if (not (is_allowed t.from_state t.trigger t.to_state))
      "illegal turn transition: %s --%s--> %s"
