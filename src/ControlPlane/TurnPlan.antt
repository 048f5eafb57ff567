-- ===== src/ControlPlane/TurnPlan.antt =====
-- api/controlplane/types.go: ResolvedTurnPlan, the plan that a turn is frozen to, and its validation. A
-- Go slice that may be nil is an Option; a map is a list of its entries.
use Prim.Native.Char.{code}
use realtime_speech_pipeline.Base.{
  ℕ, zero, suc, String, Bool, true, false, not, ◌&&◌, ◌||◌, Option, none, some, List, [], ◌∷◌,
  Result, ok, ◌>>◌, refuse_if, leb,
}
use realtime_speech_pipeline.Base.Int.{ℤ, is_negative}
use realtime_speech_pipeline.Base.Members.{has}
use realtime_speech_pipeline.Base.Text.{is_empty}
use realtime_speech_pipeline.EventAbi.SchemaVersion.{matches_rule_version}
use realtime_speech_pipeline.ControlPlane.EdgePolicy.{
  Budgets, EdgeBufferPolicy, FlowControl, validate_budgets, validate_edge_buffer_policy,
  validate_flow_control,
}
pub mod Accepted

pub record SnapshotProvenance : Type 0 where
  pub routing_view_snapshot : String
  pub admission_policy_snapshot : String
  pub abi_compatibility_snapshot : String
  pub version_resolution_snapshot : String
  pub policy_resolution_snapshot : String
  pub provider_health_snapshot : String

unfoldable pub validate_provenance : SnapshotProvenance → Result (Unit {0})
validate_provenance s =
    refuse_if
      (is_empty s.routing_view_snapshot
        || is_empty s.admission_policy_snapshot
        || is_empty s.abi_compatibility_snapshot
        || is_empty s.version_resolution_snapshot
        || is_empty s.policy_resolution_snapshot
        || is_empty s.provider_health_snapshot)
      "all snapshot_provenance refs are required"

pub record RecordingPolicy : Type 0 where
  pub recording_level : String
  pub allowed_replay_modes : List String

abbrev pub replay_modes : List String
replay_modes =
    "re_simulate_nodes" ∷ "playback_recorded_provider_outputs" ∷ "replay_decisions"
    ∷ "recompute_decisions" ∷ []

-- The loop over texts with those seen so far: none is bad, and none comes twice.
unfoldable pub validate_distinct :
    (bad : String → Bool) (refusal repeated : String) (seen : List String)
    → List String
    → Result (Unit {0})
validate_distinct bad refusal repeated seen [] = ok tt
validate_distinct bad refusal repeated seen (name ∷ names) = do
  refuse_if (bad name) refusal
  refuse_if (has name seen) repeated
  validate_distinct bad refusal repeated (name ∷ seen) names

abbrev pub not_in : List String → String → Bool
not_in known name = not (has name known)

abbrev pub no_names : List String → Bool
no_names [] = true
no_names (_ ∷ _) = false

unfoldable pub validate_recording_policy : RecordingPolicy → Result (Unit {0})
validate_recording_policy r = do
  refuse_if (not (has r.recording_level ("L0" ∷ "L1" ∷ "L2" ∷ [])))
      "invalid recording_policy.recording_level"
  refuse_if (no_names r.allowed_replay_modes)
      "recording_policy.allowed_replay_modes requires at least one mode"
  validate_distinct (not_in replay_modes) "invalid replay mode: %s" "duplicate replay mode: %s" []
      r.allowed_replay_modes

pub record NondeterministicInput : Type 0 where
  pub input_key : String
  pub source : String
  pub evidence_ref : String

abbrev pub input_sources : List String
input_sources = "external_call" ∷ "system_time" ∷ "random" ∷ "operator_override" ∷ "other" ∷ []

unfoldable pub validate_nondeterministic_input : NondeterministicInput → Result (Unit {0})
validate_nondeterministic_input n = do
  refuse_if (is_empty n.input_key || is_empty n.evidence_ref)
      "nondeterministic input_key and evidence_ref are required"
  refuse_if (not (has n.source input_sources)) "invalid nondeterministic input source"

unfoldable pub validate_inputs : List NondeterministicInput → Result (Unit {0})
validate_inputs [] = ok tt
validate_inputs (item ∷ items) = do validate_nondeterministic_input item; validate_inputs items

pub record Determinism : Type 0 where
  pub seed : ℤ
  pub ordering_marker : String
  pub ordering_markers : List String
  pub merge_rule_id : String
  pub merge_rule_version : String
  pub nondeterministic_inputs : Option (List NondeterministicInput)

abbrev pub is_nil {ℓ} : {A : Type ℓ} → Option (List A) → Bool
is_nil none = true
is_nil (some _) = false

abbrev pub items_of {ℓ} : {A : Type ℓ} → Option (List A) → List A
items_of none = []
items_of (some items) = items

unfoldable pub validate_determinism : Determinism → Result (Unit {0})
validate_determinism d = do
  refuse_if (is_negative d.seed) "determinism.seed must be >=0"
  refuse_if (no_names d.ordering_markers) "determinism.ordering_markers requires at least one value"
  refuse_if (is_nil d.nondeterministic_inputs) "determinism.nondeterministic_inputs is required"
  validate_distinct is_empty "ordering marker cannot be empty" "duplicate ordering marker: %s" []
      d.ordering_markers
  refuse_if (is_empty d.merge_rule_id) "determinism.merge_rule_id is required"
  refuse_if (not (matches_rule_version d.merge_rule_version))
      "invalid determinism.merge_rule_version"
  validate_inputs (items_of d.nondeterministic_inputs)

abbrev pub is_hex_code : ℕ → Bool
is_hex_code c = leb b'0' c && leb c b'9' || leb b'a' c && leb c b'f' || leb b'A' c && leb c b'F'

-- Exactly `count` hexadecimal digits.
unfoldable pub hex_digits : (count : ℕ) → String → Bool
hex_digits zero String.[] = true
hex_digits zero (String.◌∷◌ c s) = false
hex_digits (suc n) String.[] = false
hex_digits (suc n) (String.◌∷◌ c s) = let rest = hex_digits n s in is_hex_code (code c) && rest

pub record ResolvedTurnPlan : Type 0 where
  pub turn_id : String
  pub pipeline_version : String
  pub plan_hash : String
  pub graph_definition_ref : String
  pub execution_profile : String
  pub authority_epoch : ℤ
  pub budgets : Budgets
  pub provider_bindings : List (String × String)
  pub edge_buffer_policies : List (String × EdgeBufferPolicy)
  pub flow_control : FlowControl
  pub allowed_adaptive_actions : Option (List String)
  pub snapshot_provenance : SnapshotProvenance
  pub recording_policy : RecordingPolicy
  pub determinism : Determinism

unfoldable pub validate_bindings : List (String × String) → Result (Unit {0})
validate_bindings [] = ok tt
validate_bindings ((key, value) ∷ entries) = do
  refuse_if (is_empty key || is_empty value) "provider_bindings keys and values must be non-empty"
  validate_bindings entries

unfoldable pub validate_policies : List (String × EdgeBufferPolicy) → Result (Unit {0})
validate_policies [] = ok tt
validate_policies ((id, policy) ∷ entries) = do
  refuse_if (is_empty id) "edge_buffer_policies key cannot be empty"
  validate_edge_buffer_policy policy
  validate_policies entries

abbrev pub no_entries {ℓ} : {A : Type ℓ} → List A → Bool
no_entries [] = true
no_entries (_ ∷ _) = false

abbrev pub adaptive_actions : List String
adaptive_actions = "retry" ∷ "provider_switch" ∷ "degrade" ∷ "fallback" ∷ []

unfoldable pub validate_plan : ResolvedTurnPlan → Result (Unit {0})
validate_plan p = do
  refuse_if
      (is_empty p.turn_id
        || is_empty p.pipeline_version
        || is_empty p.graph_definition_ref
        || is_empty p.execution_profile)
      "resolved_turn_plan identity fields are required"
  refuse_if (not (hex_digits 64 p.plan_hash)) "plan_hash must be 64 hex chars"
  refuse_if (is_negative p.authority_epoch) "authority_epoch must be >= 0"
  validate_budgets p.budgets
  refuse_if (no_entries p.provider_bindings) "provider_bindings must be non-empty"
  validate_bindings p.provider_bindings
  refuse_if (no_entries p.edge_buffer_policies) "edge_buffer_policies requires at least one entry"
  validate_policies p.edge_buffer_policies
  validate_flow_control p.flow_control
  refuse_if (is_nil p.allowed_adaptive_actions) "allowed_adaptive_actions is required"
  validate_distinct (not_in adaptive_actions) "invalid allowed adaptive action: %s"
      "duplicate adaptive action: %s" [] (items_of p.allowed_adaptive_actions)
  validate_provenance p.snapshot_provenance
  validate_recording_policy p.recording_policy
  validate_determinism p.determinism
