-- ===== src/Executor/Runs/Order.antt =====
-- internal/runtime/executor/plan.go, ExecutePlan: which nodes a run takes, and in which order.
use text.Mathlib.Text.{◌==◌}
use text.Mathlib.TextEquality.{eq_iff}
use realtime_speech_pipeline.Base.{
  ℕ, suc, String, Bool, true, false, ◌≡◌, refl, sym, ap, ◌∙◌, inl, inr, List, [], ◌∷◌, ◌++◌,
  append_assoc, append-nil, Option, Result, ok, if◌then◌else◌, Bool-cases,
}
use realtime_speech_pipeline.Base.Effects.{Effect, lift, >>=-eq-ok, pure-eq-ok}
use realtime_speech_pipeline.Base.Lists.{All}
use realtime_speech_pipeline.Base.Members.{has, Within}
use realtime_speech_pipeline.Base.Text.{is_empty, is_empty-fallback}
use realtime_speech_pipeline.EventAbi.Types.{Lane}
use realtime_speech_pipeline.Lanes.{DispatchTarget}
use realtime_speech_pipeline.Executor.Specs.{NodeSpec, ids}
use realtime_speech_pipeline.Executor.Scheduler.{SchedulingInput, Services}
use realtime_speech_pipeline.Executor.Runs.{
  NodeExecutionResult, ExecutionTrace, node_of, node_input, continues, noted, denied, run_node,
  after_node, run_nodes, should_shape_node_failure, failure_of, dispatch_node,
}

-- A run along an order: each node in its turn, as long as the node before lets the run go on. It is
-- complete when the last node of the order did.
abbrev pub Ran : List String → List NodeExecutionResult → (completed : Bool) → Type 0
Ran [] [] completed = completed ≡ true
Ran [] (r ∷ rs) completed = ⊥
Ran (id ∷ rest) [] completed = ⊥
Ran (id ∷ rest) (r ∷ rs) completed =
    let others = Ran rest rs completed in
    (r.node_id ≡ id) × (if continues r then others else ((rs ≡ []) × (completed ≡ false)))

pub node_of-node_id :
    (ns : List NodeSpec) (id : String) → has id (ids ns) ≡ true → (node_of ns id).node_id ≡ id
unfolding has node_of
node_of-node_id [] id h = cc
node_of-node_id (n ∷ ns) id h = elim (Bool-cases (n.node_id == id)) [
  | inl e ↦ rw e ((eq_iff n.node_id id).0 e)
  | inr d ↦ rw d (node_of-node_id ns id (rw d at h))
]

-- What the rest of a run adds to the trace.
pub record Extends (trace out : ExecutionTrace) (order : List String) : Type 0 where
  pub results : List NodeExecutionResult
  pub nodes : out.nodes ≡ trace.nodes ++ results
  pub ran : Ran order results out.completed
  pub same_order : out.node_order ≡ trace.node_order
  pub reason : out.completed ≡ false → is_empty out.terminal_reason ≡ false

noted-order :
    (trace : ExecutionTrace) (r : NodeExecutionResult)
    → (noted trace r).node_order ≡ trace.node_order
unfolding noted
noted-order trace r = refl

noted-nodes :
    (trace : ExecutionTrace) (r : NodeExecutionResult)
    → (noted trace r).nodes ≡ trace.nodes ++ r ∷ []
unfolding noted
noted-nodes trace r = refl

noted-completed :
    (trace : ExecutionTrace) (r : NodeExecutionResult) → (noted trace r).completed ≡ trace.completed
unfolding noted
noted-completed trace r = refl

empty-Extends :
    (trace out : ExecutionTrace) → trace.completed ≡ true → trace ≡ out → Extends trace out []
empty-Extends trace out c e = record {
  results = [];
  nodes = ap (λ t. t.nodes) (sym e) ∙ sym (append-nil trace.nodes);
  ran = ap (λ t. t.completed) (sym e) ∙ c;
  same_order = ap (λ t. t.node_order) (sym e);
  reason = λ d. cc (ap (λ t. t.completed) e);
}

denied-Extends :
    (trace out : ExecutionTrace) (r : NodeExecutionResult) (id : String) (rest : List String)
    → r.node_id ≡ id
    → continues r ≡ false
    → denied (noted trace r) ≡ out
    → Extends trace out (id ∷ rest)
unfolding denied noted
denied-Extends trace out r id rest i d e = record {
  results = r ∷ [];
  nodes = ap (λ t. t.nodes) (sym e);
  ran = (i, rw d (refl, ap (λ t. t.completed) (sym e)));
  same_order = ap (λ t. t.node_order) (sym e);
  reason = λ _.
      ap (λ t. is_empty t.terminal_reason) (sym e)
      ∙ is_empty-fallback (noted trace r).terminal_reason "execution_plan_denied" refl;
}

step-Extends :
    (trace out : ExecutionTrace) (r : NodeExecutionResult) (id : String) (rest : List String)
    → r.node_id ≡ id
    → continues r ≡ true
    → Extends (noted trace r) out rest
    → Extends trace out (id ∷ rest)
unfolding noted
step-Extends trace out r id rest i d x = record {
  results = r ∷ x.results;
  nodes = x.nodes ∙ append_assoc trace.nodes (r ∷ []) x.results;
  ran = (i, rw d x.ran);
  same_order = x.same_order;
  reason = x.reason;
}

module _ {World : Type 0} (s : Services World) (router : String → Lane → Result DispatchTarget)
    (submit : Option (String → Effect World (Unit {0}))) where
  run_node-node_id :
      (node : NodeSpec) (req : SchedulingInput) (w after : World) (r : NodeExecutionResult)
      → run_node s router submit node req w ≡ (ok r, after)
      → r.node_id ≡ node.node_id
  unfolding run_node
  run_node-node_id node req w after r e =
      let (target, w1, _, e1) = >>=-eq-ok (lift (router node.node_type node.lane)) _ r w after e in
      let (decision, w2, _, e2) =
        >>=-eq-ok (dispatch_node s router submit node.node_id req) _ r w1 after e1 in
      let (failure, w3, _, e3) =
        >>=-eq-ok (lift (failure_of (should_shape_node_failure decision) req node)) _ r w2 after
          e2 in
      sym (ap (λ z. z.node_id) (pure-eq-ok _ r w3 after e3))

  pub run_nodes-Extends :
      (node_by_id : List NodeSpec) (req : SchedulingInput) (base : String) (index : ℕ)
      (order : List String) (trace out : ExecutionTrace) (w after : World)
      → All (Within (ids node_by_id)) order
      → trace.completed ≡ true
      → run_nodes s router submit node_by_id req base index order trace w ≡ (ok out, after)
      → Extends trace out order
  unfolding run_nodes after_node
  run_nodes-Extends nb req base index [] trace out w after known c e =
      empty-Extends trace out c (pure-eq-ok trace out w after e)
  run_nodes-Extends nb req base index (id ∷ rest) trace out w after (k, known) c e =
      let (r, w1, ran, e1) =
        >>=-eq-ok
          (run_node s router submit (node_of nb id) (node_input req base (node_of nb id) index)) _
          out w after e in
      let i = run_node-node_id (node_of nb id) _ w w1 r ran ∙ node_of-node_id nb id k in
      at r w1 i (continues r) refl e1 (λ e2.
        run_nodes-Extends nb req base (suc index) rest (noted trace r) out w1 after known
          (noted-completed trace r ∙ c) e2)
    where
      at :
          (r : NodeExecutionResult) (w1 : World)
          → r.node_id ≡ id
          → (b : Bool) → continues r ≡ b
          → after_node s router submit b
              (noted trace r)
              (run_nodes s router submit nb req base (suc index) rest)
              w1
            ≡ (ok out, after)
          → (run_nodes s router submit nb req base (suc index) rest (noted trace r) w1
                ≡ (ok out, after)
              → Extends (noted trace r) out rest)
          → Extends trace out (id ∷ rest)
      at r w1 i true d e1 again = step-Extends trace out r id rest i d (again e1)
      at r w1 i false d e1 again =
          denied-Extends trace out r id rest i d (pure-eq-ok _ out w1 after e1)
