-- ===== src/Lanes.antt =====
-- internal/runtime/lanes/router.go: the queue to which a node of a lane is dispatched. `strings.ToLower`
-- is the parameter `to_lower`; the map of overrides is the list of its entries.
use text.Mathlib.Text.{◌==◌}
use realtime_speech_pipeline.Base.{
  String, not, Option, none, some, List, [], ◌∷◌, Result, ok, ◌>>◌, refuse_if, if◌then◌else◌,
}
use realtime_speech_pipeline.Base.Text.{is_empty, concat, trim_space}
use realtime_speech_pipeline.EventAbi.Types.{Lane, is_lane}

pub record DispatchTarget : Type 0 where
  pub lane : Lane
  pub queue_key : String

abbrev pub lane_text : Lane → String
lane_text Lane.data_lane = "DataLane"
lane_text Lane.control_lane = "ControlLane"
lane_text Lane.telemetry_lane = "TelemetryLane"
lane_text (Lane.other s) = s

unfoldable pub validate_lane : Lane → Result (Unit {0})
validate_lane lane = refuse_if (not (is_lane lane)) "unsupported lane: %q"

unfoldable pub lane_id_for : Lane → String
lane_id_for Lane.data_lane = "data"
lane_id_for Lane.control_lane = "control"
lane_id_for _ = "telemetry"

abbrev pub Overrides : Type 0
Overrides = List (String × DispatchTarget)

-- `overrides[key]`; a later entry of the list is behind the earlier ones.
unfoldable pub override_of : String → Overrides → Option DispatchTarget
override_of key [] = none
override_of key ((k, target) ∷ rest) = if k == key then some target else override_of key rest

-- The loop of NewDefaultRouterWithOverrides over the entries, in the order that they come in.
unfoldable pub add_overrides : Overrides → List (String × DispatchTarget) → Result Overrides
add_overrides known [] = ok known
add_overrides known ((key, target) ∷ rest) = do
  refuse_if (is_empty (trim_space key)) "override key is required"
  validate_lane target.lane
  refuse_if (is_empty (trim_space target.queue_key)) "override queue key is required for %s"
  add_overrides ((trim_space key, target) ∷ known) rest

unfoldable pub new_default_router_with_overrides : List (String × DispatchTarget) → Result Overrides
new_default_router_with_overrides overrides = add_overrides [] overrides

module _ (to_lower : String → String) where
  unfoldable pub route_key : String → Lane → String
  route_key node_type lane = concat (to_lower (trim_space node_type)) (concat "|" (lane_text lane))

  unfoldable pub default_target : String → Lane → DispatchTarget
  default_target node_type lane = record {
    lane = lane;
    queue_key = concat "runtime/" (concat (lane_id_for lane) (concat "/" (to_lower node_type)));
  }

  unfoldable pub routed : Option DispatchTarget → DispatchTarget → DispatchTarget
  routed (some target) default = target
  routed none default = default

  unfoldable pub resolve : Overrides → (node_type : String) → Lane → Result DispatchTarget
  resolve overrides node_type lane = do
    refuse_if (is_empty (trim_space node_type)) "node_type is required"
    validate_lane lane
    ok (
        routed (override_of (route_key (trim_space node_type) lane) overrides)
          (default_target (trim_space node_type) lane))
