-- ===== src/Executor/Topology/Cycles.antt =====
-- internal/runtime/executor/plan.go: the plans that topologicalOrder refuses, those with a cycle.
use text.Mathlib.Text.{◌==◌}
use text.Mathlib.TextEquality.{eq_iff}
use realtime_speech_pipeline.Base.{
  ℕ, zero, suc, ◌<◌, ◌↔◌, String, true, false, ◌≡◌, refl, ap, ◌∙◌, List, [], ◌∷◌, inl, inr, arith,
  Bool-cases, ok, is_err, Result-cases,
}
use realtime_speech_pipeline.Base.Int.{pos}
use realtime_speech_pipeline.Base.Lists.{All, length}
use realtime_speech_pipeline.Base.Members.{has, Nodup, length_of_Nodup, has-tail, Within-of_has}
use realtime_speech_pipeline.Executor.Specs.{NodeSpec, EdgeSpec, ExecutionPlan, ids, validate}
use realtime_speech_pipeline.Executor.Topology.{run_loop, topological_order, is_zero}
use realtime_speech_pipeline.Executor.Topology.Rounds.{left}
use realtime_speech_pipeline.Executor.Specs.Checked.{Joins, validate-facts}
use realtime_speech_pipeline.Executor.Topology.Orders.{
  before, Follows, length-ids, full-topological_order, topological_order-IsOrderOf, Outcome,
  run_loop-Outcome,
}

-- A plan is acyclic when its nodes can be numbered so that every edge goes up.
abbrev pub IsAcyclic : ExecutionPlan → Type 0
IsAcyclic plan = (rank : String → ℕ) × All (λ e. rank e.from < rank e.to) plan.edges

before-shorter :
    (x v : String) (xs : List String)
    → has x (before v xs) ≡ true
    → length (before x xs) < length (before v xs)
unfolding has
before-shorter x v [] h = cc
before-shorter x v (y ∷ xs) h = elim (Bool-cases (y == v)) [
  | inl e ↦ cc (rw e at h)
  | inr d ↦ rw d (elim (Bool-cases (y == x)) [
    | inl t ↦ rw t (omega arith)
    | inr n ↦ rw n (omega (arith, before-shorter x v xs (has-tail x y (before v xs) n (rw d at h))))
  ])
]

Follows-rank :
    (order : List String) (es : List EdgeSpec)
    → All (Follows order) es
    → All (λ e. length (before e.from order) < length (before e.to order)) es
Follows-rank order [] a = tt
Follows-rank order (e ∷ es) (f, a) = (before-shorter e.from e.to order f, Follows-rank order es a)

left-eq-zero :
    (seen : List String) (n : String) (es : List EdgeSpec)
    → All (λ e. (e.to == n) ≡ true → has e.from seen ≡ true) es
    → left seen n es ≡ 0
unfolding left
left-eq-zero seen n [] a = refl
left-eq-zero seen n (e ∷ es) (h, a) = elim (Bool-cases (has e.from seen)) [
  | inl d ↦ rw d (left-eq-zero seen n es a)
  | inr d ↦
      rw d (elim (Bool-cases (e.to == n)) [
        | inl t ↦ cc (h t)
        | inr t ↦ rw t (left-eq-zero seen n es a)
      ])
]

-- In an acyclic plan no node is left out: by induction on the rank.
ranked-has :
    (plan : ExecutionPlan) (order : List String) (rank : String → ℕ)
    → Outcome plan order
    → All (Joins (ids plan.nodes)) plan.edges
    → All (λ e. rank e.from < rank e.to) plan.edges
    → (bound : ℕ) (n : String) → rank n < bound
    → has n (ids plan.nodes) ≡ true
    → has n order ≡ true
ranked-has plan order rank o joins up zero n low k = absurd (omega (arith, low))
ranked-has plan order rank o joins up (suc bound) n low k =
    o.member n k
    ∙ ap (λ m. is_zero (pos m))
        (left-eq-zero order n plan.edges
          (starts plan.edges joins up (ranked-has plan order rank o joins up bound)))
  where
    starts :
        (es : List EdgeSpec)
        → All (Joins (ids plan.nodes)) es
        → All (λ e. rank e.from < rank e.to) es
        → ((m : String) → rank m < bound → has m (ids plan.nodes) ≡ true → has m order ≡ true)
        → All (λ e. (e.to == n) ≡ true → has e.from order ≡ true) es
    starts [] js us again = tt
    starts (e ∷ es) ((f, t), js) (u, us) again = (
      (λ same. again e.from (omega (arith, u, low, ap rank ((eq_iff e.to n).0 same))) f),
      starts es js us again,
    )

-- A valid plan gets an order exactly when it is acyclic; otherwise it is refused.
pub topological_order-ok_iff :
    (plan : ExecutionPlan) (node_by_id : List NodeSpec)
    → validate plan ≡ ok node_by_id
    → (is_err (topological_order plan node_by_id) ≡ false) ↔ IsAcyclic plan
topological_order-ok_iff plan node_by_id h = (numbered, complete)
  where
    facts :
        ((node_by_id ≡ plan.nodes) × Nodup (ids plan.nodes))
        × All (Joins (ids plan.nodes)) plan.edges
    facts = validate-facts plan node_by_id h

    outcome : Outcome plan (run_loop plan).order
    outcome = run_loop-Outcome plan node_by_id h

    numbered : is_err (topological_order plan node_by_id) ≡ false → IsAcyclic plan
    numbered r = elim (Result-cases (topological_order plan node_by_id)) [
      | inl (order, e) ↦ (
        (λ v. length (before v order)),
        Follows-rank order plan.edges (topological_order-IsOrderOf plan node_by_id order h e).1,
      )
      | inr (message, e) ↦ cc (rw e at r)
    ]

    complete : IsAcyclic plan → is_err (topological_order plan node_by_id) ≡ false
    complete (rank, up) = ap is_err (
        full-topological_order plan node_by_id (
          omega (
            arith,
            ap length facts.0.0,
            length-ids plan.nodes,
            length_of_Nodup (run_loop plan).order (ids plan.nodes) outcome.single outcome.inside,
            length_of_Nodup (ids plan.nodes) (run_loop plan).order facts.0.1 (
                Within-of_has (ids plan.nodes) (run_loop plan).order (λ n k.
                  ranked-has plan (run_loop plan).order rank outcome facts.1 up (suc (rank n)) n
                    (omega arith) k)),
          )))
