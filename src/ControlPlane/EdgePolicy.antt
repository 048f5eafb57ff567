-- ===== src/ControlPlane/EdgePolicy.antt =====
-- api/controlplane/types.go: the buffer policy of an edge and the flow control of the lanes, as a turn
-- plan carries them.
use realtime_speech_pipeline.Base.{
  String, Bool, true, false, not, ◌&&◌, ◌||◌, Option, none, some, List, [], ◌∷◌, Result, ok, ◌>>◌,
  refuse_if,
}
use realtime_speech_pipeline.Base.Int.{ℤ, pos, is_negative, ltℤ}
use realtime_speech_pipeline.Base.Members.{has}
use realtime_speech_pipeline.Base.Text.{is_empty}
use text.Mathlib.Text.{◌==◌}

pub data BufferStrategy : Type 0 where
  block drop merge sample latest_only : BufferStrategy
  other : String → BufferStrategy

abbrev pub is_strategy : BufferStrategy → Bool
is_strategy (BufferStrategy.other _) = false
is_strategy _ = true

abbrev pub is_block : BufferStrategy → Bool
is_block BufferStrategy.block = true
is_block _ = false

-- `v < 1`
abbrev pub under_one : ℤ → Bool
under_one v = ltℤ v (pos 1)

pub record WatermarkThreshold : Type 0 where
  pub high : ℤ
  pub low : ℤ

unfoldable pub validate_threshold : WatermarkThreshold → Result (Unit {0})
validate_threshold w =
    refuse_if (under_one w.high || is_negative w.low) "watermark high>=1 and low>=0 are required"

pub record EdgeWatermarks : Type 0 where
  pub queue_items : Option WatermarkThreshold
  pub queue_ms : Option WatermarkThreshold

-- `if w != nil { return w.Validate() }`
unfoldable pub validate_given_threshold : Option WatermarkThreshold → Result (Unit {0})
validate_given_threshold none = ok tt
validate_given_threshold (some w) = validate_threshold w

abbrev pub no_threshold : Option WatermarkThreshold → Bool
no_threshold none = true
no_threshold (some _) = false

unfoldable pub validate_edge_watermarks : EdgeWatermarks → Result (Unit {0})
validate_edge_watermarks w = do
  refuse_if (no_threshold w.queue_items && no_threshold w.queue_ms)
      "at least one watermark domain is required"
  validate_given_threshold w.queue_items
  validate_given_threshold w.queue_ms

pub record LaneHandling : Type 0 where
  pub data_lane : String
  pub control_lane : String
  pub telemetry_lane : String

unfoldable pub validate_lane_handling : LaneHandling → Result (Unit {0})
validate_lane_handling l = do
  refuse_if (not (has l.data_lane ("block" ∷ "drop" ∷ "merge" ∷ "sample" ∷ "latest_only" ∷ [])))
      "invalid lane_handling.DataLane"
  refuse_if (not (l.control_lane == "non_blocking_priority"))
      "lane_handling.ControlLane must be non_blocking_priority"
  refuse_if (not (has l.telemetry_lane ("drop" ∷ "sample" ∷ "best_effort_drop" ∷ [])))
      "invalid lane_handling.TelemetryLane"

pub record SyncDropPolicy : Type 0 where
  pub group_by : String
  pub policy : String
  pub scope : String
  pub sync_domain : String

unfoldable pub validate_sync_drop_policy : SyncDropPolicy → Result (Unit {0})
validate_sync_drop_policy s = do
  refuse_if (not (has s.policy ("atomic_drop" ∷ "drop_with_discontinuity" ∷ "no_sync" ∷ [])))
      "invalid sync_drop_policy.policy"
  refuse_if (not (has s.scope ("edge_local" ∷ "plan_wide" ∷ []))) "invalid sync_drop_policy.scope"
  refuse_if
      ((s.policy == "atomic_drop" || s.policy == "drop_with_discontinuity") && is_empty s.group_by)
      "sync_drop_policy.group_by is required for policy %s"
  refuse_if (s.policy == "drop_with_discontinuity" && is_empty s.sync_domain)
      "sync_drop_policy.sync_domain is required for drop_with_discontinuity"

unfoldable pub validate_given_sync : Option SyncDropPolicy → Result (Unit {0})
validate_given_sync none = ok tt
validate_given_sync (some s) = validate_sync_drop_policy s

pub record EdgeBufferPolicy : Type 0 where
  pub strategy : BufferStrategy
  pub max_queue_items : ℤ
  pub max_queue_ms : ℤ
  pub max_queue_bytes : ℤ
  pub max_latency_contribution_ms : ℤ
  pub max_block_time_ms : ℤ
  pub watermarks : EdgeWatermarks
  pub lane_handling : LaneHandling
  pub fairness_key : String
  pub defaulting_source : String
  pub sync_drop_policy : Option SyncDropPolicy

unfoldable pub validate_edge_buffer_policy : EdgeBufferPolicy → Result (Unit {0})
validate_edge_buffer_policy p = do
  refuse_if (not (is_strategy p.strategy)) "invalid edge_buffer_policies.*.strategy"
  refuse_if
      (under_one p.max_queue_items
        || under_one p.max_queue_ms
        || under_one p.max_queue_bytes
        || under_one p.max_latency_contribution_ms)
      "edge buffer numeric limits must be >=1"
  refuse_if (is_block p.strategy && under_one p.max_block_time_ms)
      "max_block_time_ms is required when strategy=block"
  validate_edge_watermarks p.watermarks
  validate_lane_handling p.lane_handling
  refuse_if
      (not (has p.defaulting_source ("explicit_edge_config" ∷ "execution_profile_default" ∷ [])))
      "invalid defaulting_source"
  validate_given_sync p.sync_drop_policy

pub record Budgets : Type 0 where
  pub turn_budget_ms : ℤ
  pub node_budget_ms_default : ℤ
  pub path_budget_ms_default : ℤ
  pub edge_budget_ms_default : ℤ

unfoldable pub validate_budgets : Budgets → Result (Unit {0})
validate_budgets b =
    refuse_if
      (under_one b.turn_budget_ms
        || under_one b.node_budget_ms_default
        || under_one b.path_budget_ms_default
        || under_one b.edge_budget_ms_default)
      "all budget defaults must be >=1"

pub record ModeByLane : Type 0 where
  pub data_lane : String
  pub control_lane : String
  pub telemetry_lane : String

abbrev pub modes : List String
modes = "signal" ∷ "credit" ∷ "hybrid" ∷ []

unfoldable pub validate_mode_by_lane : ModeByLane → Result (Unit {0})
validate_mode_by_lane m =
    refuse_if
      (not (has m.data_lane modes)
        || not (has m.control_lane modes)
        || not (has m.telemetry_lane modes))
      "invalid flow_control.mode_by_lane"

pub record FlowWatermarks : Type 0 where
  pub data_lane : WatermarkThreshold
  pub control_lane : WatermarkThreshold
  pub telemetry_lane : WatermarkThreshold

unfoldable pub validate_flow_watermarks : FlowWatermarks → Result (Unit {0})
validate_flow_watermarks w = do
  validate_threshold w.data_lane
  validate_threshold w.control_lane
  validate_threshold w.telemetry_lane

pub record SheddingStrategyByLane : Type 0 where
  pub data_lane : String
  pub control_lane : String
  pub telemetry_lane : String

unfoldable pub validate_shedding : SheddingStrategyByLane → Result (Unit {0})
validate_shedding s = do
  refuse_if (not (has s.data_lane ("drop" ∷ "merge" ∷ "latest_only" ∷ "degrade" ∷ "fallback" ∷ [])))
      "invalid flow_control.shedding_strategy_by_lane.DataLane"
  refuse_if (not (s.control_lane == "none"))
      "flow_control.shedding_strategy_by_lane.ControlLane must be none"
  refuse_if (not (has s.telemetry_lane ("drop" ∷ "sample" ∷ [])))
      "invalid flow_control.shedding_strategy_by_lane.TelemetryLane"

pub record FlowControl : Type 0 where
  pub mode_by_lane : ModeByLane
  pub watermarks : FlowWatermarks
  pub shedding_strategy_by_lane : SheddingStrategyByLane

unfoldable pub validate_flow_control : FlowControl → Result (Unit {0})
validate_flow_control f = do
  validate_mode_by_lane f.mode_by_lane
  validate_flow_watermarks f.watermarks
  validate_shedding f.shedding_strategy_by_lane
