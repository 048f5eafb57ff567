-- ===== src/Executor/Topology.antt =====
-- internal/runtime/executor/plan.go, topologicalOrder: the order in which the nodes of a plan run.
mod Rounds
mod Loop
mod Start
pub mod Orders
pub mod Cycles
use text.Mathlib.Text.{◌==◌}
use realtime_speech_pipeline.Base.{
  ℕ, zero, suc, String, Bool, true, false, List, [], ◌∷◌, ◌++◌, Result, ok, err, if◌then◌else◌, eqb,
  not,
}
use realtime_speech_pipeline.Base.Int.{ℤ, pos, negsuc}
use realtime_speech_pipeline.Base.Lists.{length}
use realtime_speech_pipeline.Executor.Specs.{NodeSpec, EdgeSpec, ExecutionPlan, ids}

-- `adj[current]`, once the edges are in.
unfoldable pub targets : List EdgeSpec → String → List String
targets [] u = []
targets (e ∷ es) u = let rest = targets es u in if e.from == u then e.to ∷ rest else rest

abbrev pub inc : ℤ → ℤ
inc (pos n) = pos (suc n)
inc (negsuc zero) = pos zero
inc (negsuc (suc n)) = negsuc n

abbrev pub dec : ℤ → ℤ
dec (pos zero) = negsuc zero
dec (pos (suc n)) = pos n
dec (negsuc n) = negsuc (suc n)

abbrev pub is_zero : ℤ → Bool
is_zero (pos zero) = true
is_zero _ = false

-- `m[k] = v`
abbrev pub update : (String → ℤ) → String → ℤ → String → ℤ
update m k v = λ x. if k == x then v else m x

-- `indegree`, once the edges are in; it is zero at a text that is no node.
unfoldable pub count_edges : (String → ℤ) → List EdgeSpec → String → ℤ
count_edges m [] = m
count_edges m (e ∷ es) = count_edges (update m e.to (inc (m e.to))) es

unfoldable pub no_edges : String → ℤ
no_edges x = pos 0

unfoldable pub sources : (String → ℤ) → List String → List String
sources indegree [] = []
sources indegree (n ∷ ns) =
    let rest = sources indegree ns in if is_zero (indegree n) then n ∷ rest else rest

pub record Search : Type 0 where
  pub indegree : String → ℤ
  pub ready : List String
  pub order : List String

-- The body of the loop over `adj[current]`.
unfoldable pub visit : Search → String → Search
visit s next =
    let d = dec (s.indegree next) in
    record s {
      indegree = update s.indegree next d;
      ready = if is_zero d then s.ready ++ next ∷ [] else s.ready;
    }

unfoldable pub visit_all : Search → List String → Search
visit_all s [] = s
visit_all s (t ∷ ts) = visit_all (visit s t) ts

-- One round of the outer loop, after `current` left the head of the queue.
unfoldable pub expand : List EdgeSpec → Search → (current : String) (rest : List String) → Search
expand es s current rest =
    visit_all (record s { ready = rest; order = s.order ++ current ∷ [] }) (targets es current)

-- `for len(ready) > 0`, on fuel; `continues` is the round that follows.
unfoldable pub next_round : List EdgeSpec → Search → List String → (Search → Search) → Search
next_round es s [] again = s
next_round es s (current ∷ rest) again = again (expand es s current rest)

unfoldable pub loop : List EdgeSpec → (fuel : ℕ) → Search → Search
loop es zero s = s
loop es (suc fuel) s = next_round es s s.ready (loop es fuel)

unfoldable pub start : ExecutionPlan → Search
start plan =
    let indegree = count_edges no_edges plan.edges in
    record { indegree = indegree; ready = sources indegree (ids plan.nodes); order = [] }

-- As much fuel as there are nodes: no node is ready twice.
unfoldable pub run_loop : ExecutionPlan → Search
run_loop plan = loop plan.edges (length plan.nodes) (start plan)

unfoldable pub topological_order :
    ExecutionPlan → (node_by_id : List NodeSpec) → Result (List String)
topological_order plan node_by_id =
    let order = (run_loop plan).order in
    if eqb (length order) (length node_by_id) then ok order else err "execution plan contains cycle"
