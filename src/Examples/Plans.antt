-- ===== src/Examples/Plans.antt =====
-- The theorems on execution plans at concrete inputs.
use realtime_speech_pipeline.Base.{◌↔◌, ◌≡◌, refl, String, false, none, [], ◌∷◌, ok, is_err}
use realtime_speech_pipeline.Base.Members.{has}
use realtime_speech_pipeline.EventAbi.Types.{Lane}
use realtime_speech_pipeline.Executor.Specs.{
  NodeSpec, ExecutionPlan, validate, register_nodes, validate_provider, validate_edges,
}
use realtime_speech_pipeline.Executor.Topology.{
  run_loop, topological_order, loop, next_round, start, sources, count_edges, no_edges, expand,
  visit_all, targets, visit,
}
use realtime_speech_pipeline.Executor.Topology.Orders.{IsOrderOf, topological_order-IsOrderOf}
use realtime_speech_pipeline.Executor.Topology.Cycles.{IsAcyclic, topological_order-ok_iff}

abbrev pub node : String → NodeSpec
node id = record {
  node_id = id;
  node_type = "stt";
  lane = Lane.data_lane;
  provider = none;
  shed = false;
  reason = "";
  allow_degrade = false;
  allow_fallback = false;
}

-- The nodes stand in an order that the edges forbid.
abbrev pub diamond : ExecutionPlan
diamond = record {
  nodes = node "out" ∷ node "left" ∷ node "right" ∷ node "in" ∷ [];
  edges =
      record { from = "in"; to = "left" }
      ∷ record { from = "in"; to = "right" }
      ∷ record { from = "left"; to = "out" }
      ∷ record { from = "right"; to = "out" }
      ∷ [];
}

pub diamond-valid : validate diamond ≡ ok diamond.nodes
unfolding validate register_nodes has validate_provider validate_edges
diamond-valid = refl

diamond-order : topological_order diamond diamond.nodes ≡ ok ("in" ∷ "left" ∷ "right" ∷ "out" ∷ [])
unfolding topological_order run_loop loop next_round start sources count_edges no_edges expand
    visit_all targets visit
diamond-order = refl

topological_order-IsOrderOf_example : IsOrderOf diamond ("in" ∷ "left" ∷ "right" ∷ "out" ∷ [])
topological_order-IsOrderOf_example =
    topological_order-IsOrderOf diamond diamond.nodes ("in" ∷ "left" ∷ "right" ∷ "out" ∷ [])
      diamond-valid diamond-order

topological_order-ok_iff_example :
    (is_err (topological_order diamond diamond.nodes) ≡ false) ↔ IsAcyclic diamond
topological_order-ok_iff_example = topological_order-ok_iff diamond diamond.nodes diamond-valid
