-- ===== src/Executor/Topology/Orders.antt =====
-- internal/runtime/executor/plan.go: the orders that topologicalOrder returns, and the plans it refuses.
use text.Mathlib.Text.{◌==◌}
use text.Mathlib.TextEquality.{eq_iff}
use text.Mathlib.TextPositions.{eq_refl}
use realtime_speech_pipeline.Base.{
  suc, ◌≤◌, String, true, ◌≡◌, refl, sym, ap, ◌∙◌, List, [], ◌∷◌, ◌++◌, append_assoc, append-nil,
  inl, inr, if◌then◌else◌, arith, Bool-cases, ok, eqb,
}
use realtime_speech_pipeline.Base.Int.{pos}
use realtime_speech_pipeline.Base.Lists.{All, length, length-append}
use realtime_speech_pipeline.Base.Members.{
  has, Nodup, Within, length_of_Nodup, has_of_length, Within-of_has,
}
use realtime_speech_pipeline.Executor.Specs.{NodeSpec, EdgeSpec, ExecutionPlan, ids, validate}
use realtime_speech_pipeline.Executor.Topology.{
  targets, run_loop, topological_order, start, is_zero,
}
use realtime_speech_pipeline.Executor.Topology.Rounds.{left}
use realtime_speech_pipeline.Executor.Topology.Loop.{Progress, Schedule, loop-Progress}
use realtime_speech_pipeline.Executor.Topology.Start.{start-Progress}
use realtime_speech_pipeline.Executor.Specs.Checked.{Joins, validate-facts}

targets-inside :
    (known : List String) (c : String) (es : List EdgeSpec)
    → All (Joins known) es
    → All (Within known) (targets es c)
unfolding targets
targets-inside known c [] a = tt
targets-inside known c (e ∷ es) ((f, t), a) = elim (Bool-cases (e.from == c)) [
  | inl d ↦ rw d (t, targets-inside known c es a)
  | inr d ↦ rw d (targets-inside known c es a)
]

-- The nodes that come before `v`.
abbrev pub before : String → List String → List String
before v [] = []
before v (x ∷ xs) = let rest = x ∷ before v xs in if x == v then [] else rest

left_zero :
    (seen : List String) (n : String) (e : EdgeSpec) (es : List EdgeSpec)
    → left seen n (e ∷ es) ≡ 0
    → ((e.to == n) ≡ true → has e.from seen ≡ true) × (left seen n es ≡ 0)
unfolding left
left_zero seen n e es h = elim (Bool-cases (has e.from seen)) [
  | inl d ↦ ((λ t. d), rw d at h)
  | inr d ↦ elim (Bool-cases (e.to == n)) [
    | inl t ↦ cc (rw (d, t) at h)
    | inr t ↦ ((λ u. cc), rw (d, t) at h)
  ]
]

Schedule-before :
    (es : List EdgeSpec) (seen xs : List String) (v : String)
    → Schedule es seen xs
    → has v xs ≡ true
    → left (seen ++ before v xs) v es ≡ 0
unfolding has
Schedule-before es seen [] v p h = cc
Schedule-before es seen (x ∷ xs) v (first, p) h = elim (Bool-cases (x == v)) [
  | inl e ↦ rw e (ap (λ l. left l v es) (append-nil seen) ∙ (rw (← (eq_iff x v).0 e) first))
  | inr d ↦ rw d (
      ap (λ l. left l v es) (sym (append_assoc seen (x ∷ []) (before v xs)))
      ∙ Schedule-before es (seen ++ x ∷ []) xs v p (rw d at h))
]

-- Every edge starts at a node before the one it ends at.
abbrev pub Follows : List String → EdgeSpec → Type 0
Follows order e = has e.from (before e.to order) ≡ true

Follows-of_left :
    (order known : List String) (es : List EdgeSpec)
    → ((n : String) → has n known ≡ true → left (before n order) n es ≡ 0)
    → All (Joins known) es
    → All (Follows order) es
Follows-of_left order known [] h a = tt
Follows-of_left order known (e ∷ es) h ((f, t), a) = (
  (left_zero (before e.to order) e.to e es (h e.to t)).0 (eq_refl e.to),
  Follows-of_left order known es (λ n k. (left_zero (before n order) n e es (h n k)).1) a,
)

pub length-ids : (ns : List NodeSpec) → length (ids ns) ≡ length ns
length-ids [] = refl
length-ids (n ∷ ns) = ap suc (length-ids ns)

run_loop-Progress :
    (plan : ExecutionPlan) (node_by_id : List NodeSpec)
    → validate plan ≡ ok node_by_id
    → Progress (ids plan.nodes) plan.edges (run_loop plan) × ((run_loop plan).ready ≡ [])
unfolding run_loop start
run_loop-Progress plan node_by_id h =
    let ((same, single), joins) = validate-facts plan node_by_id h in
    loop-Progress (ids plan.nodes) plan.edges
      (λ c. targets-inside (ids plan.nodes) c plan.edges joins) (length plan.nodes) (start plan)
      (start-Progress plan single) (omega (arith, length-ids plan.nodes))

-- The loop over the queue of a valid plan ends with an empty queue, having taken no more nodes than
-- the plan has.
run_loop-IsFinished :
    (plan : ExecutionPlan) (node_by_id : List NodeSpec)
    → validate plan ≡ ok node_by_id
    → ((run_loop plan).ready ≡ []) × (length (run_loop plan).order ≤ length plan.nodes)
run_loop-IsFinished plan node_by_id h =
    let (p, empty) = run_loop-Progress plan node_by_id h in
    (
      empty,
      omega (
        arith,
        length-ids plan.nodes,
        length-append (run_loop plan).order (run_loop plan).ready,
        length_of_Nodup ((run_loop plan).order ++ (run_loop plan).ready) (ids plan.nodes)
            p.settled.single p.settled.inside,
      ),
    )

-- What the loop ends with.
pub record Outcome (plan : ExecutionPlan) (order : List String) : Type 0 where
  pub single : Nodup order
  pub inside : All (Within (ids plan.nodes)) order
  pub member :
      (n : String)
      → has n (ids plan.nodes) ≡ true
      → has n order ≡ is_zero (pos (left order n plan.edges))
  pub schedule : Schedule plan.edges [] order

pub run_loop-Outcome :
    (plan : ExecutionPlan) (node_by_id : List NodeSpec)
    → validate plan ≡ ok node_by_id
    → Outcome plan (run_loop plan).order
run_loop-Outcome plan node_by_id h =
    let (p, empty) = run_loop-Progress plan node_by_id h in
    let whole = ap (λ l. (run_loop plan).order ++ l) empty ∙ append-nil (run_loop plan).order in
    record {
      single = rw (← whole) p.settled.single;
      inside = rw (← whole) p.settled.inside;
      member = λ n k. ap (has n) (sym whole) ∙ p.settled.member n k ∙ ap is_zero (p.degree n);
      schedule = p.schedule;
    }

ok_inj : {xs ys : List String} → ok xs ≡ ok ys → xs ≡ ys
ok_inj h = cc

order_of_ok :
    (plan : ExecutionPlan) (node_by_id : List NodeSpec) (order : List String)
    → topological_order plan node_by_id ≡ ok order
    → ((run_loop plan).order ≡ order) × (length order ≡ length node_by_id)
unfolding topological_order
order_of_ok plan node_by_id order h = elim (Bool-cases (eqb (length found) (length node_by_id))) [
  | inl e ↦ (ok_inj (rw e at h), ap length (sym (ok_inj (rw e at h))) ∙ (ground (arith, e)))
  | inr d ↦ cc (rw d at h)
]
  where
    found : List String
    found = (run_loop plan).order

-- An order holds each node of the plan once, and every edge of the plan starts before it ends.
abbrev pub IsOrderOf : ExecutionPlan → List String → Type 0
IsOrderOf plan order =
    (Nodup order × All (Within (ids plan.nodes)) order × All (Within order) (ids plan.nodes))
    × All (Follows order) plan.edges

Outcome-IsOrderOf :
    (plan : ExecutionPlan) (order : List String)
    → All (Joins (ids plan.nodes)) plan.edges
    → Outcome plan order
    → length (ids plan.nodes) ≤ length order
    → IsOrderOf plan order
Outcome-IsOrderOf plan order joins o long = (
  (o.single, o.inside, Within-of_has (ids plan.nodes) order all),
  Follows-of_left order (ids plan.nodes) plan.edges
      (λ n k. Schedule-before plan.edges [] order n o.schedule (all n k)) joins,
)
  where
    all : (n : String) → has n (ids plan.nodes) ≡ true → has n order ≡ true
    all n k = has_of_length order (ids plan.nodes) n o.single o.inside long k

-- When a valid plan has an order, the order holds every node exactly once, and nothing else, and
-- each edge's start stands before its end.
pub topological_order-IsOrderOf :
    (plan : ExecutionPlan) (node_by_id : List NodeSpec) (order : List String)
    → validate plan ≡ ok node_by_id
    → topological_order plan node_by_id ≡ ok order
    → IsOrderOf plan order
topological_order-IsOrderOf plan node_by_id order h r =
    let ((same, single), joins) = validate-facts plan node_by_id h in
    let (e, long) = order_of_ok plan node_by_id order r in
    Outcome-IsOrderOf plan order joins (rw (← e) (run_loop-Outcome plan node_by_id h))
      (omega (arith, long, ap length same, length-ids plan.nodes))

pub full-topological_order :
    (plan : ExecutionPlan) (node_by_id : List NodeSpec)
    → length (run_loop plan).order ≡ length node_by_id
    → topological_order plan node_by_id ≡ ok (run_loop plan).order
unfolding topological_order
full-topological_order plan node_by_id e = ground (arith, e)
