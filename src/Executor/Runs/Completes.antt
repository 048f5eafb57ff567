-- ===== src/Executor/Runs/Completes.antt =====
-- internal/runtime/executor/plan.go, ExecutePlan: plans whose run is complete.
use text.Mathlib.Text.{◌==◌}
use realtime_speech_pipeline.Base.{
  ℕ, suc, String, Bool, true, false, ◌≡◌, refl, ◌∙◌, inl, inr, ◌⊎◌, List, [], ◌∷◌, append-nil, none,
  Result, ok, err, is_err, Result-cases, if◌then◌else◌, Bool-cases,
}
use realtime_speech_pipeline.Base.Lists.{All}
use realtime_speech_pipeline.Base.Members.{has, Within}
use realtime_speech_pipeline.Base.Text.{is_empty, fallback, is_empty-fallback, is_empty-concat}
use realtime_speech_pipeline.ControlPlane.Outcome.{OutcomeScope}
use realtime_speech_pipeline.EventAbi.Types.{Lane}
use realtime_speech_pipeline.EventAbi.Gateway.{
  validate_and_normalize_control_signals, normalize_signals,
}
use realtime_speech_pipeline.Lanes.{DispatchTarget}
use realtime_speech_pipeline.Executor.Specs.{NodeSpec, ExecutionPlan, ids, validate}
use realtime_speech_pipeline.Executor.Specs.Checked.{validate-facts}
use realtime_speech_pipeline.Executor.Topology.{topological_order}
use realtime_speech_pipeline.Executor.Topology.Orders.{topological_order-IsOrderOf}
use realtime_speech_pipeline.Executor.Topology.Cycles.{IsAcyclic, topological_order-ok_iff}
use realtime_speech_pipeline.Executor.Scheduler.{SchedulingInput, Services}
use realtime_speech_pipeline.Executor.Dispatch.{allowed_decision, node_dispatch}
use realtime_speech_pipeline.Executor.Dispatch.Points.{evaluate-passes}
use realtime_speech_pipeline.Executor.Runs.{
  NodeExecutionResult, ExecutionTrace, node_of, node_input, continues, goes_on, noted, after_node,
  submitted, dispatch_node, run_node, run_nodes, should_shape, should_shape_node_failure,
  failure_of, started, execute_plan,
}
use realtime_speech_pipeline.Executor.Runs.Order.{Ran}
use realtime_speech_pipeline.Executor.Runs.Waits.{executed, execute_plan-IsRunOf}

-- A run that is complete took the whole order.
executed-all :
    (order : List String) (rs : List NodeExecutionResult) → Ran order rs true → executed rs ≡ order
executed-all [] [] p = refl
executed-all [] (r ∷ rs) p = absurd p
executed-all (id ∷ order) [] p = absurd p
executed-all (id ∷ order) (r ∷ rs) (i, p) = at (continues r) p (executed-all order rs)
  where
    at :
        (b : Bool)
        → (if b then Ran order rs true else ((rs ≡ []) × (true ≡ false)))
        → (Ran order rs true → executed rs ≡ order)
        → executed (r ∷ rs) ≡ id ∷ order
    at true p again = rw (i, again p) refl
    at false (nothing, c) again = cc

module _ {World : Type 0} (s : Services World)
    (router : String → Lane → Result DispatchTarget) where
  -- A node without a provider that is not to be shed and that the router knows a queue for.
  pub record IsPlain (node : NodeSpec) : Type 0 where
    pub no_provider : node.provider ≡ none
    pub kept : node.shed ≡ false
    pub target : DispatchTarget
    pub routed : router node.node_type node.lane ≡ ok target

  node_of-IsPlain :
      (ns : List NodeSpec) (id : String)
      → All IsPlain ns
      → has id (ids ns) ≡ true
      → IsPlain (node_of ns id)
  unfolding has node_of
  node_of-IsPlain [] id a h = cc
  node_of-IsPlain (n ∷ ns) id (p, a) h = elim (Bool-cases (n.node_id == id)) [
    | inl e ↦ rw e p
    | inr d ↦ rw d (node_of-IsPlain ns id a (rw d at h))
  ]

  node_dispatch-passes :
      (req : SchedulingInput) (w : World)
      → is_empty req.event_id ≡ false
      → req.shed ≡ false
      → req.provider_invocation ≡ none
      → node_dispatch s req w ≡ (ok allowed_decision, w)
  unfolding node_dispatch
  node_dispatch-passes req w = evaluate-passes s OutcomeScope.node_dispatch req w

  abbrev plain_result : (node : NodeSpec) → IsPlain node → NodeExecutionResult
  plain_result node p = record {
    node_id = node.node_id;
    dispatch_target = p.target;
    decision = allowed_decision;
    failure = none;
  }

  run_node-plain :
      (node : NodeSpec) (req : SchedulingInput) (w : World)
      → (p : IsPlain node) → is_empty req.event_id ≡ false
      → req.shed ≡ false
      → req.provider_invocation ≡ none
      → run_node s router none node req w ≡ (ok (plain_result node p), w)
  unfolding run_node dispatch_node submitted should_shape should_shape_node_failure failure_of
  run_node-plain node req w p e d n = rw (p.routed, node_dispatch-passes req w e d n) refl

  run_nodes-completes :
      (ns : List NodeSpec) (req : SchedulingInput) (base : String) (index : ℕ) (order : List String)
      (trace : ExecutionTrace) (w : World)
      → is_empty base ≡ false
      → All IsPlain ns
      → All (Within (ids ns)) order
      → (out : ExecutionTrace) × (run_nodes s router none ns req base index order trace w
          ≡ (ok out, w))
        × (out.completed ≡ trace.completed)
        × (out.control_signals ≡ trace.control_signals)
  unfolding run_nodes after_node noted goes_on node_input
  run_nodes-completes ns req base index [] trace w b a known = (trace, refl, refl, refl)
  run_nodes-completes ns req base index (id ∷ rest) trace w b a (k, known) =
      let node = node_of ns id in
      let p = node_of-IsPlain ns id a k in
      let ran =
        run_node-plain node (node_input req base node index) w p (is_empty-concat base _ b) p.kept
          p.no_provider in
      let (out, e, c, g) =
        run_nodes-completes ns req base (suc index) rest (noted trace (plain_result node p)) w b a
          known in
      (out, rw ran e, c, g ∙ append-nil trace.control_signals)

  planned-completes :
      (req : SchedulingInput) (plan : ExecutionPlan) (nb : List NodeSpec) (order : List String)
      (w : World)
      → validate plan ≡ ok nb
      → topological_order plan nb ≡ ok order
      → All IsPlain nb
      → All (Within (ids nb)) order
      → (trace : ExecutionTrace) × (execute_plan s router none req plan w ≡ (ok trace, w))
        × (trace.completed ≡ true)
  unfolding execute_plan validate_and_normalize_control_signals normalize_signals
  planned-completes req plan nb order w v sorted plain known =
      let base = fallback req.event_id "evt-execution-plan" in
      let (out, e, c, g) =
        run_nodes-completes nb req base 0 order (started order) w
          (is_empty-fallback req.event_id "evt-execution-plan" refl) plain known in
      (record out { control_signals = [] }, rw (v, sorted, e, g) refl, c)

  -- Without an execution pool, a valid and acyclic plan whose nodes have no provider, are not to be shed
  -- and are known to the router runs to its end, without an error: every node of the order is run, and
  -- the world stays as it is.
  pub execute_plan-completes :
      (req : SchedulingInput) (plan : ExecutionPlan) (node_by_id : List NodeSpec) (w : World)
      → validate plan ≡ ok node_by_id
      → IsAcyclic plan
      → All IsPlain plan.nodes
      → (trace : ExecutionTrace) × (execute_plan s router none req plan w ≡ (ok trace, w))
        × (trace.completed ≡ true)
        × (executed trace.nodes ≡ trace.node_order)
  execute_plan-completes req plan nb w v acyclic plain =
      at (Result-cases (topological_order plan nb))
    where
      same : nb ≡ plan.nodes
      same = (validate-facts plan nb v).0.0

      refused : is_err (topological_order plan nb) ≡ false
      refused = (topological_order-ok_iff plan nb v).1 acyclic

      at :
          ((order : List String) × (topological_order plan nb ≡ ok order))
            ⊎ ((e : String) × (topological_order plan nb ≡ err e))
          → (trace : ExecutionTrace) × (execute_plan s router none req plan w ≡ (ok trace, w))
            × (trace.completed ≡ true)
            × (executed trace.nodes ≡ trace.node_order)
      at (inr (e, h)) = cc (rw h at refused)
      at (inl (order, h)) =
          let inside : All (Within (ids nb)) order =
            rw same (topological_order-IsOrderOf plan nb order v h).0.1 in
          let (trace, ran, c) = planned-completes req plan nb order w v h (rw same plain) inside in
          (
            trace,
            ran,
            c,
            executed-all trace.node_order trace.nodes
                (rw (← c) (execute_plan-IsRunOf s router none req plan trace w w ran).1),
          )
