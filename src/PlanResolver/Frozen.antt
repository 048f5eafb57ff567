-- ===== src/PlanResolver/Frozen.antt =====
-- The plan literal that internal/runtime/planresolver/resolver.go freezes: its hexadecimal hash, and which
-- checks of its validation its content leaves open.
use Prim.Native.Char.{code}
use realtime_speech_pipeline.Base.{
  ◌/◌, ◌%◌, ℕ, zero, suc, ◌≡◌, refl, String, Bool, true, not, ◌&&◌, ◌||◌, List, [], ◌∷◌, Result, ok,
  ◌>>◌, refuse_if, arith,
}
use realtime_speech_pipeline.Base.Lists.{length}
use realtime_speech_pipeline.Base.Members.{has}
use realtime_speech_pipeline.Base.Int.{is_negative}
use realtime_speech_pipeline.Base.Text.{is_empty}
use realtime_speech_pipeline.ControlPlane.EdgePolicy.{
  validate_budgets, validate_edge_buffer_policy, validate_edge_watermarks, validate_given_threshold,
  validate_threshold, validate_lane_handling, validate_given_sync, validate_flow_control,
  validate_mode_by_lane, validate_flow_watermarks, validate_shedding,
}
use realtime_speech_pipeline.ControlPlane.TurnPlan.{
  ResolvedTurnPlan, Determinism, is_nil, validate_plan, validate_provenance, validate_distinct,
  not_in, adaptive_actions, items_of, hex_digits, is_hex_code, validate_bindings, validate_policies,
  validate_recording_policy, validate_determinism,
}
use realtime_speech_pipeline.PlanResolver.{Input, materialize, hex_encode, char_at}

abbrev pub all_hex : String → Bool
all_hex String.[] = true
all_hex (String.◌∷◌ c s) = is_hex_code (code c) && all_hex s

char_at-hex : (n : ℕ) (s : String) → all_hex s ≡ true → is_hex_code (code (char_at n s)) ≡ true
unfolding char_at
char_at-hex n String.[] h = refl
char_at-hex zero (String.◌∷◌ c s) h = ground arith
char_at-hex (suc n) (String.◌∷◌ c s) h = char_at-hex n s (ground arith)

abbrev pub double : ℕ → ℕ
double zero = zero
double (suc n) = suc (suc (double n))

-- The encoding of a list of bytes has two hexadecimal digits for each.
pub hex_encode-hex :
    (n : ℕ) (bytes : List ℕ) → length bytes ≡ n → hex_digits (double n) (hex_encode bytes) ≡ true
unfolding hex_encode hex_digits
hex_encode-hex zero [] h = refl
hex_encode-hex zero (b ∷ bytes) h = absurd (omega arith)
hex_encode-hex (suc n) [] h = absurd (omega arith)
hex_encode-hex (suc n) (b ∷ bytes) h =
    rw (char_at-hex (b / 16) "0123456789abcdef" refl, char_at-hex (b % 16) "0123456789abcdef" refl)
      (hex_encode-hex n bytes (omega arith))

-- What is left of the validation of a plan after its constant parts.
unfoldable pub open_checks : ResolvedTurnPlan → Result (Unit {0})
open_checks p = do
  refuse_if
      (is_empty p.turn_id
        || is_empty p.pipeline_version
        || is_empty p.graph_definition_ref
        || is_empty p.execution_profile)
      "resolved_turn_plan identity fields are required"
  refuse_if (not (hex_digits 64 p.plan_hash)) "plan_hash must be 64 hex chars"
  refuse_if (is_negative p.authority_epoch) "authority_epoch must be >= 0"
  refuse_if (is_nil p.allowed_adaptive_actions) "allowed_adaptive_actions is required"
  validate_distinct (not_in adaptive_actions) "invalid allowed adaptive action: %s"
      "duplicate adaptive action: %s" [] (items_of p.allowed_adaptive_actions)
  validate_provenance p.snapshot_provenance
  validate_determinism p.determinism

pub validate_plan-open :
    (req : Input) (h : String) (d : Determinism)
    → validate_plan (materialize req h d) ≡ open_checks (materialize req h d)
unfolding validate_plan materialize open_checks validate_budgets validate_bindings validate_policies
    validate_edge_buffer_policy validate_edge_watermarks validate_given_threshold validate_threshold
    validate_lane_handling validate_given_sync validate_flow_control validate_mode_by_lane
    validate_flow_watermarks validate_shedding validate_recording_policy validate_distinct has
    hex_digits
validate_plan-open req h d = refl

pub ok_injective : (p q : ResolvedTurnPlan) → ok p ≡ ok q → q ≡ p
ok_injective p q h = cc
