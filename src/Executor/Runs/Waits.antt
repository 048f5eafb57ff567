-- ===== src/Executor/Runs/Waits.antt =====
-- internal/runtime/executor/plan.go, ExecutePlan: a whole run of a plan.
use text.Mathlib.Text.{◌==◌}
use realtime_speech_pipeline.Base.{
  String, Bool, true, false, ◌≡◌, refl, sym, ap, ◌∙◌, inl, inr, List, [], ◌∷◌, ◌++◌, Option, Result,
  ok, if◌then◌else◌, Bool-cases,
}
use realtime_speech_pipeline.Base.Effects.{Effect, lift, >>=-eq-ok, pure-eq-ok, lift-eq-ok}
use realtime_speech_pipeline.Base.Lists.{All}
use realtime_speech_pipeline.Base.Members.{has, Within}
use realtime_speech_pipeline.Base.Text.{is_empty, fallback}
use realtime_speech_pipeline.EventAbi.Signal.{ControlSignal}
use realtime_speech_pipeline.EventAbi.Types.{Lane}
use realtime_speech_pipeline.EventAbi.Gateway.{validate_and_normalize_control_signals}
use realtime_speech_pipeline.Lanes.{DispatchTarget}
use realtime_speech_pipeline.Executor.Specs.{EdgeSpec, ExecutionPlan, ids, validate}
use realtime_speech_pipeline.Executor.Specs.Checked.{validate-facts}
use realtime_speech_pipeline.Executor.Topology.{topological_order}
use realtime_speech_pipeline.Executor.Topology.Orders.{
  IsOrderOf, Follows, before, topological_order-IsOrderOf,
}
use realtime_speech_pipeline.Executor.Scheduler.{SchedulingInput, Services}
use realtime_speech_pipeline.Executor.Runs.{
  NodeExecutionResult, ExecutionTrace, continues, run_nodes, started, execute_plan,
}
use realtime_speech_pipeline.Executor.Runs.Order.{Ran, Extends, run_nodes-Extends}

-- The nodes that were run, in their order.
abbrev pub executed : List NodeExecutionResult → List String
executed [] = []
executed (r ∷ rs) = r.node_id ∷ executed rs

-- A run of a plan: along an order of the plan, and with a reason if it is not complete.
abbrev pub IsRunOf : ExecutionPlan → ExecutionTrace → Type 0
IsRunOf plan trace =
    IsOrderOf plan trace.node_order
    × Ran trace.node_order trace.nodes trace.completed
    × (trace.completed ≡ false → is_empty trace.terminal_reason ≡ false)

-- What was run is the beginning of the order.
executed-prefix :
    (order : List String) (rs : List NodeExecutionResult) (completed : Bool)
    → Ran order rs completed
    → (rest : List String) × (order ≡ executed rs ++ rest)
executed-prefix [] [] completed p = ([], refl)
executed-prefix [] (r ∷ rs) completed p = absurd p
executed-prefix (id ∷ order) [] completed p = absurd p
executed-prefix (id ∷ order) (r ∷ rs) completed (i, p) =
    at (continues r) refl p (executed-prefix order rs completed)
  where
    at :
        (b : Bool)
        → continues r ≡ b
        → (if b then Ran order rs completed else ((rs ≡ []) × (completed ≡ false)))
        → (Ran order rs completed → (rest : List String) × (order ≡ executed rs ++ rest))
        → (rest : List String) × (id ∷ order ≡ executed (r ∷ rs) ++ rest)
    at true d p again = let (rest, e) = again p in (rest, rw (i, e) refl)
    at false d (none, c) again = (order, rw (i, none) refl)

before-append :
    (v : String) (xs ys : List String) → has v xs ≡ true → before v (xs ++ ys) ≡ before v xs
unfolding has
before-append v [] ys h = cc
before-append v (x ∷ xs) ys h = elim (Bool-cases (x == v)) [
  | inl e ↦ rw e refl
  | inr d ↦ rw d (ap (λ l. x ∷ l) (before-append v xs ys (rw d at h)))
]

-- A node that was run had its predecessors run before it.
abbrev pub Waits : List String → EdgeSpec → Type 0
Waits run e = has e.to run ≡ true → Follows run e

Waits-of_Follows :
    (xs ys : List String) (es : List EdgeSpec) → All (Follows (xs ++ ys)) es → All (Waits xs) es
Waits-of_Follows xs ys [] a = tt
Waits-of_Follows xs ys (e ∷ es) (f, a) =
    ((λ h. ap (has e.from) (sym (before-append e.to xs ys h)) ∙ f), Waits-of_Follows xs ys es a)

run_of :
    (plan : ExecutionPlan) (order : List String) (out trace : ExecutionTrace)
    {signals : List ControlSignal}
    → IsOrderOf plan order
    → Extends (started order) out order
    → record out { control_signals = signals } ≡ trace
    → IsRunOf plan trace
run_of plan order out trace is_order x same =
    rw (← same) (rw x.same_order is_order, rw (x.same_order, x.nodes) x.ran, x.reason)

module _ {World : Type 0} (s : Services World) (router : String → Lane → Result DispatchTarget)
    (submit : Option (String → Effect World (Unit {0}))) where
  -- Whatever the services do, a run of a plan that gives a trace goes along an order of the plan, each
  -- node in its turn as long as the nodes before let it go on; the trace is complete exactly when all
  -- nodes did, and has a reason if it is not.
  pub execute_plan-IsRunOf :
      (req : SchedulingInput) (plan : ExecutionPlan) (trace : ExecutionTrace) (w after : World)
      → execute_plan s router submit req plan w ≡ (ok trace, after)
      → IsRunOf plan trace
  unfolding execute_plan
  execute_plan-IsRunOf req plan trace w after e =
      let (nb, w1, valid, e1) = >>=-eq-ok (lift (validate plan)) _ trace w after e in
      let (order, w2, sorted, e2) =
        >>=-eq-ok (lift (topological_order plan nb)) _ trace w1 after e1 in
      let (out, w3, run, e3) =
        >>=-eq-ok
          (run_nodes s router submit nb req (fallback req.event_id "evt-execution-plan") 0 order
            (started order))
          _ trace w2 after e2 in
      let (signals, w4, sent, e4) =
        >>=-eq-ok (lift (validate_and_normalize_control_signals out.control_signals)) _ trace w3
          after e3 in
      let is_order =
        topological_order-IsOrderOf plan nb order (lift-eq-ok _ nb w w1 valid)
          (lift-eq-ok _ order w1 w2 sorted) in
      let known : All (Within (ids nb)) order =
        rw ((validate-facts plan nb (lift-eq-ok _ nb w w1 valid)).0.0) (is_order.0.1) in
      run_of plan order out trace is_order
        (run_nodes-Extends s router submit nb req _ 0 order (started order) out w2 w3 known refl
          run)
        (pure-eq-ok _ trace w4 after e4)

  -- Whatever the services do, in a run of a plan that gives a trace every node that an edge of the plan
  -- puts before a node that was run was run before it.
  pub execute_plan-Waits :
      (req : SchedulingInput) (plan : ExecutionPlan) (trace : ExecutionTrace) (w after : World)
      → execute_plan s router submit req plan w ≡ (ok trace, after)
      → All (Waits (executed trace.nodes)) plan.edges
  execute_plan-Waits req plan trace w after e =
      let (is_order, ran, _) = execute_plan-IsRunOf req plan trace w after e in
      let (rest, p) = executed-prefix trace.node_order trace.nodes trace.completed ran in
      Waits-of_Follows (executed trace.nodes) rest plan.edges (rw (← p) is_order.1)
