-- ===== src/Executor/Specs.antt =====
-- internal/runtime/executor/plan.go: the nodes and edges of an execution plan, and its validation.
pub mod Checked
use text.Mathlib.Text.{◌==◌}
use realtime_speech_pipeline.Base.{
  String, Bool, true, false, not, ◌&&◌, ◌||◌, Option, none, some, List, [], ◌∷◌, ◌++◌, Result, ok,
  err, ◌>>=◌, ◌>>◌, refuse_if, leb,
}
use realtime_speech_pipeline.Base.Lists.{length}
use realtime_speech_pipeline.Base.Members.{has}
use realtime_speech_pipeline.Base.Text.{is_empty}
use realtime_speech_pipeline.EventAbi.Types.{Lane, is_lane}
use realtime_speech_pipeline.Provider.Contracts.{Modality, AdaptiveAction, validate_modality}

pub record ProviderInvocationInput : Type 0 where
  pub modality : Modality
  pub preferred_provider : String
  pub allowed_adaptive_actions : List AdaptiveAction
  pub provider_invocation_id : String
  pub cancel_requested : Bool

pub record NodeSpec : Type 0 where
  pub node_id : String
  pub node_type : String
  pub lane : Lane
  pub provider : Option ProviderInvocationInput
  pub shed : Bool
  pub reason : String
  pub allow_degrade : Bool
  pub allow_fallback : Bool

pub record EdgeSpec : Type 0 where
  pub from : String
  pub to : String

pub record ExecutionPlan : Type 0 where
  pub nodes : List NodeSpec
  pub edges : List EdgeSpec

abbrev pub ids : List NodeSpec → List String
ids [] = []
ids (n ∷ ns) = n.node_id ∷ ids ns

-- `if node.Provider != nil { … }`
unfoldable pub validate_provider : Option ProviderInvocationInput → Result (Unit {0})
validate_provider none = ok tt
validate_provider (some p) = validate_modality p.modality

-- The loop over the nodes. `nodeByID` is the list of the nodes that it holds, in the order in which
-- they came in: a key is never written twice.
unfoldable pub register_nodes :
    (node_by_id : List NodeSpec) → List NodeSpec → Result (List NodeSpec)
register_nodes node_by_id [] = ok node_by_id
register_nodes node_by_id (node ∷ rest) = do
  refuse_if (is_empty node.node_id) "execution plan node_id is required"
  refuse_if (has node.node_id (ids node_by_id)) "duplicate execution plan node_id: %s"
  refuse_if (is_empty node.node_type) "execution plan node_type is required for node %s"
  refuse_if (not (is_lane node.lane)) "execution plan node %s has invalid lane %q"
  validate_provider node.provider
  register_nodes (node_by_id ++ node ∷ []) rest

-- The loop over the edges; `known` are the keys of `nodeByID`.
unfoldable pub validate_edges : (known : List String) → List EdgeSpec → Result (Unit {0})
validate_edges known [] = ok tt
validate_edges known (edge ∷ rest) = do
  refuse_if (is_empty edge.from || is_empty edge.to) "execution plan edge from/to are required"
  refuse_if (edge.from == edge.to) "execution plan self-cycle edge is not allowed: %s"
  refuse_if (not (has edge.from known)) "execution plan edge from references unknown node: %s"
  refuse_if (not (has edge.to known)) "execution plan edge to references unknown node: %s"
  validate_edges known rest

-- ExecutionPlan.validate; it returns `nodeByID`.
unfoldable pub validate : ExecutionPlan → Result (List NodeSpec)
validate plan = do
  refuse_if (leb (length plan.nodes) 0) "execution plan requires at least one node"
  node_by_id ← register_nodes [] plan.nodes
  validate_edges (ids node_by_id) plan.edges
  ok node_by_id
