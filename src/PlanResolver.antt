-- ===== src/PlanResolver.antt =====
-- internal/runtime/planresolver/resolver.go and internal/runtime/determinism/service.go: the plan that a
-- turn is frozen to, and the seed and markers that make its run repeatable. `sha256.Sum256` is a
-- parameter: the bytes of the digest of a text.
pub mod Seeds
pub mod Frozen
pub mod Materialized
use realtime_speech_pipeline.Base.{
  ℕ, zero, suc, ◌+◌, ◌*◌, ◌/◌, ◌%◌, String, Bool, true, false, ◌||◌, Option, none, some, List, [],
  ◌∷◌, Result, ok, ◌>>=◌, ◌>>◌, refuse_if, if◌then◌else◌, ltb,
}
use realtime_speech_pipeline.Base.Int.{ℤ, pos, is_negative, wrap64, sub64}
use realtime_speech_pipeline.Base.Text.{is_empty, fallback, concat, decimal_int}
use realtime_speech_pipeline.ControlPlane.EdgePolicy.{BufferStrategy, EdgeBufferPolicy, FlowControl}
use realtime_speech_pipeline.ControlPlane.TurnPlan.{
  SnapshotProvenance, Determinism, ResolvedTurnPlan, validate_determinism, validate_plan, items_of,
}
use Prim.Native.Char.{Char}

-- The first `count` bytes, the most significant one first: `binary.BigEndian.Uint64(sum[:8])`.
unfoldable pub big_endian : (count read : ℕ) → List ℕ → ℕ
big_endian zero read bytes = read
big_endian (suc n) read [] = read
big_endian (suc n) read (b ∷ bytes) = big_endian n (read * 256 + b) bytes

-- `if value < 0 { return -value }; return value`, on an int64.
unfoldable pub absolute64 : ℤ → ℤ
absolute64 value = if is_negative value then sub64 (pos 0) value else value

-- The character at an index of the table of digits.
unfoldable pub char_at : ℕ → String → Char
char_at n String.[] = "0"
char_at zero (String.◌∷◌ c s) = c
char_at (suc n) (String.◌∷◌ c s) = char_at n s

-- `hex.EncodeToString`
unfoldable pub hex_encode : List ℕ → String
unfolding char_at
hex_encode [] = String.[]
hex_encode (b ∷ bytes) =
    let rest = hex_encode bytes in
    String.◌∷◌ (char_at (b / 16) "0123456789abcdef")
      (String.◌∷◌ (char_at (b % 16) "0123456789abcdef") rest)

pub record Input : Type 0 where
  pub turn_id : String
  pub pipeline_version : String
  pub graph_definition_ref : String
  pub execution_profile : String
  pub authority_epoch : ℤ
  pub snapshot_provenance : SnapshotProvenance
  pub fail_materialization : Bool
  pub allowed_adaptive_actions : Option (List String)

abbrev default_edge_policy : EdgeBufferPolicy
default_edge_policy = record {
  strategy = BufferStrategy.drop;
  max_queue_items = pos 64;
  max_queue_ms = pos 300;
  max_queue_bytes = pos 262144;
  max_latency_contribution_ms = pos 120;
  max_block_time_ms = pos 0;
  watermarks = record {
    queue_items = some (record { high = pos 48; low = pos 24 });
    queue_ms = none;
  };
  lane_handling = record {
    data_lane = "drop";
    control_lane = "non_blocking_priority";
    telemetry_lane = "best_effort_drop";
  };
  fairness_key = "";
  defaulting_source = "execution_profile_default";
  sync_drop_policy = none;
}

abbrev default_flow_control : FlowControl
default_flow_control = record {
  mode_by_lane = record {
    data_lane = "signal";
    control_lane = "signal";
    telemetry_lane = "signal";
  };
  watermarks = record {
    data_lane = record { high = pos 100; low = pos 50 };
    control_lane = record { high = pos 20; low = pos 10 };
    telemetry_lane = record { high = pos 200; low = pos 100 };
  };
  shedding_strategy_by_lane = record {
    data_lane = "drop";
    control_lane = "none";
    telemetry_lane = "sample";
  };
}

-- The literal of Resolve, over an input whose defaults are filled in.
unfoldable pub materialize : Input → (plan_hash : String) → Determinism → ResolvedTurnPlan
materialize req plan_hash determinism = record {
  turn_id = req.turn_id;
  pipeline_version = req.pipeline_version;
  plan_hash = plan_hash;
  graph_definition_ref = req.graph_definition_ref;
  execution_profile = req.execution_profile;
  authority_epoch = req.authority_epoch;
  budgets = record {
    turn_budget_ms = pos 5000;
    node_budget_ms_default = pos 1500;
    path_budget_ms_default = pos 3000;
    edge_budget_ms_default = pos 500;
  };
  provider_bindings = ("stt", "default-stt") ∷ ("llm", "default-llm") ∷ ("tts", "default-tts") ∷ [];
  edge_buffer_policies = ("default", default_edge_policy) ∷ [];
  flow_control = default_flow_control;
  allowed_adaptive_actions = req.allowed_adaptive_actions;
  snapshot_provenance = req.snapshot_provenance;
  recording_policy = record {
    recording_level = "L0";
    allowed_replay_modes = "replay_decisions" ∷ [];
  };
  determinism = determinism;
}

abbrev pub with_defaults : Input → Input
with_defaults req = record req {
  graph_definition_ref = fallback req.graph_definition_ref "graph/default";
  execution_profile = fallback req.execution_profile "simple";
  allowed_adaptive_actions = some (items_of req.allowed_adaptive_actions);
}

module _ (sum256 : String → List ℕ) where
  unfoldable pub derive_seed : (plan_hash : String) (runtime_sequence : ℤ) → ℤ
  unfolding big_endian absolute64
  derive_seed plan_hash runtime_sequence =
      let sum = sum256 (concat plan_hash (concat "|" (decimal_int runtime_sequence))) in
      absolute64 (wrap64 (pos (big_endian 8 0 sum)))

  -- The context before it is validated.
  unfoldable pub context_of : (plan_hash : String) (runtime_sequence : ℤ) → Determinism
  context_of plan_hash runtime_sequence = record {
    seed = derive_seed plan_hash runtime_sequence;
    ordering_marker = "";
    ordering_markers = "runtime_sequence" ∷ "event_id" ∷ [];
    merge_rule_id = "default-merge-rule";
    merge_rule_version = "v1.0.0";
    nondeterministic_inputs =
        some (record { input_key = "plan_hash"; source = "other"; evidence_ref = plan_hash } ∷ []);
  }

  unfoldable pub issue_context : (plan_hash : String) (runtime_sequence : ℤ) → Result Determinism
  issue_context plan_hash runtime_sequence = do
    refuse_if (is_empty plan_hash) "plan_hash is required"
    validate_determinism (context_of plan_hash runtime_sequence)
    ok (context_of plan_hash runtime_sequence)

  unfoldable pub hash_plan_identity :
      (turn_id pipeline_version graph_ref profile : String) (epoch : ℤ) → String
  unfolding hex_encode
  hash_plan_identity turn_id pipeline_version graph_ref profile epoch = hex_encode (
      sum256 (
        concat turn_id (
          concat "|" (
            concat pipeline_version (
              concat "|" (
                concat graph_ref
                  (concat "|" (concat profile (concat "|" (decimal_int epoch))))))))))

  abbrev pub hash_of : Input → String
  hash_of req =
      hash_plan_identity req.turn_id req.pipeline_version req.graph_definition_ref
        req.execution_profile req.authority_epoch

  -- From the filled-in input on.
  unfoldable pub freeze : Input → Result ResolvedTurnPlan
  freeze req = do
    determinism ← issue_context (hash_of req) req.authority_epoch
    validate_plan (materialize req (hash_of req) determinism)
    ok (materialize req (hash_of req) determinism)

  unfoldable pub resolve : Input → Result ResolvedTurnPlan
  resolve req = do
    refuse_if req.fail_materialization "resolved turn plan materialization failed"
    refuse_if (is_empty req.turn_id || is_empty req.pipeline_version)
        "turn_id and pipeline_version are required"
    freeze (with_defaults req)
