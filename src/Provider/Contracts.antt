-- ===== src/Provider/Contracts.antt =====
-- internal/runtime/provider/contracts/contracts.go: modalities, outcomes, adaptive actions, requests and
-- the adapter interface.
use realtime_speech_pipeline.Base.{
  ℕ, String, Bool, true, false, not, ◌&&◌, ◌||◌, List, [], ◌∷◌, Result, ok, err, ◌>>=◌, ◌>>◌,
  refuse_if, if◌then◌else◌,
}
use realtime_speech_pipeline.Base.Int.{ℤ, is_negative}
use realtime_speech_pipeline.Base.Text.{is_empty}

pub data Modality : Type 0 where
  stt llm tts : Modality
  other : String → Modality

unfoldable pub validate_modality : Modality → Result (Unit {0})
validate_modality (Modality.other _) = err "unsupported modality: %q"
validate_modality _ = ok tt

pub data OutcomeClass : Type 0 where
  success timeout overload blocked infrastructure_failure cancelled : OutcomeClass
  other : String → OutcomeClass

unfoldable pub validate_class : OutcomeClass → Result (Unit {0})
validate_class (OutcomeClass.other _) = err "unsupported outcome_class: %q"
validate_class _ = ok tt

abbrev pub is_success : OutcomeClass → Bool
is_success OutcomeClass.success = true
is_success _ = false

-- The string that the constant stands for.
abbrev pub class_text : OutcomeClass → String
class_text OutcomeClass.success = "success"
class_text OutcomeClass.timeout = "timeout"
class_text OutcomeClass.overload = "overload"
class_text OutcomeClass.blocked = "blocked"
class_text OutcomeClass.infrastructure_failure = "infrastructure_failure"
class_text OutcomeClass.cancelled = "cancelled"
class_text (OutcomeClass.other s) = s

abbrev pub modality_text : Modality → String
modality_text Modality.stt = "stt"
modality_text Modality.llm = "llm"
modality_text Modality.tts = "tts"
modality_text (Modality.other s) = s

pub data AdaptiveAction : Type 0 where
  retry provider_switch fallback : AdaptiveAction
  other : String → AdaptiveAction

-- Comparison of two supported actions.
abbrev pub same_action : AdaptiveAction → AdaptiveAction → Bool
same_action AdaptiveAction.retry AdaptiveAction.retry = true
same_action AdaptiveAction.provider_switch AdaptiveAction.provider_switch = true
same_action AdaptiveAction.fallback AdaptiveAction.fallback = true
same_action _ _ = false

pub has_action : AdaptiveAction → List AdaptiveAction → Bool
has_action a [] = false
has_action a (b ∷ bs) = same_action a b || has_action a bs

abbrev pub is_supported : AdaptiveAction → Bool
is_supported (AdaptiveAction.other _) = false
is_supported _ = true

-- The loop over the actions; `seen` holds those before. It returns them in the order given.
unfoldable pub collect_actions : (seen actions : List AdaptiveAction) → Result (List AdaptiveAction)
unfolding has_action
collect_actions seen [] = ok []
collect_actions seen (a ∷ rest) = do
  refuse_if (not (is_supported a)) "unsupported adaptive action: %q"
  refuse_if (has_action a seen) "duplicate adaptive action: %q"
  out ← collect_actions (a ∷ seen) rest
  ok (a ∷ out)

-- The order of the strings: fallback, provider_switch, retry.
abbrev action_leb : AdaptiveAction → AdaptiveAction → Bool
action_leb AdaptiveAction.fallback _ = true
action_leb AdaptiveAction.provider_switch AdaptiveAction.fallback = false
action_leb AdaptiveAction.provider_switch _ = true
action_leb AdaptiveAction.retry AdaptiveAction.fallback = false
action_leb AdaptiveAction.retry AdaptiveAction.provider_switch = false
action_leb _ _ = true

insert_action : AdaptiveAction → List AdaptiveAction → List AdaptiveAction
insert_action a [] = a ∷ []
insert_action a (b ∷ bs) = if action_leb a b then a ∷ b ∷ bs else b ∷ insert_action a bs

-- `sort.Strings` on the supported actions.
unfoldable pub sort_actions : List AdaptiveAction → List AdaptiveAction
unfolding insert_action
sort_actions [] = []
sort_actions (a ∷ bs) = insert_action a (sort_actions bs)

unfoldable pub normalize_adaptive_actions : List AdaptiveAction → Result (List AdaptiveAction)
unfolding collect_actions sort_actions
normalize_adaptive_actions actions = do out ← collect_actions [] actions; ok (sort_actions out)

pub record Outcome : Type 0 where
  pub class : OutcomeClass
  pub retryable : Bool
  pub reason : String
  pub circuit_open : Bool
  pub backoff_ms : ℤ

unfoldable pub validate_outcome : Outcome → Result (Unit {0})
unfolding validate_class
validate_outcome o = do
  validate_class o.class
  refuse_if (not (is_success o.class) && is_empty o.reason)
      "reason is required for non-success outcomes"
  refuse_if (is_negative o.backoff_ms) "backoff_ms must be >=0"
  refuse_if (o.circuit_open && is_success o.class) "circuit_open cannot be true for success"
  ok tt

pub record InvocationRequest : Type 0 where
  pub session_id : String
  pub turn_id : String
  pub pipeline_version : String
  pub event_id : String
  pub provider_invocation_id : String
  pub provider_id : String
  pub modality : Modality
  pub attempt : ℕ
  pub transport_sequence : ℤ
  pub runtime_sequence : ℤ
  pub authority_epoch : ℤ
  pub runtime_timestamp_ms : ℤ
  pub wall_clock_timestamp_ms : ℤ
  pub cancel_requested : Bool
  pub allowed_adaptive_actions : List AdaptiveAction
  pub retry_budget_remaining : ℕ
  pub candidate_provider_count : ℕ

-- The interface of a provider: `World` is whatever its answers depend on and change.
pub record Adapter (World : Type 0) : Type 0 where
  pub provider_id : String
  pub modality : Modality
  pub invoke : InvocationRequest → World → Result Outcome × World
