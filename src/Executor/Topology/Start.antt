-- ===== src/Executor/Topology/Start.antt =====
-- internal/runtime/executor/plan.go: the degrees and the queue with which topologicalOrder starts.
use text.Mathlib.Text.{◌==◌}
use text.Mathlib.TextEquality.{eq_iff}
use realtime_speech_pipeline.Base.{
  ℕ, suc, ◌+◌, String, Bool, true, false, ◌&&◌, ◌≡◌, refl, ap, ◌∙◌, List, [], ◌∷◌, inl, inr,
  if◌then◌else◌, arith, Bool-cases,
}
use realtime_speech_pipeline.Base.Int.{ℤ, pos}
use realtime_speech_pipeline.Base.Members.{has, Nodup, Within-of_has}
use realtime_speech_pipeline.Executor.Specs.{EdgeSpec, ExecutionPlan, ids}
use realtime_speech_pipeline.Executor.Topology.{
  is_zero, inc, update, count_edges, no_edges, sources, start,
}
use realtime_speech_pipeline.Executor.Topology.Rounds.{left}
use realtime_speech_pipeline.Executor.Topology.Loop.{Progress}

count_edges-left :
    (m : String → ℤ) (g : String → ℕ) (es : List EdgeSpec)
    → ((n : String) → m n ≡ pos (g n))
    → (n : String) → count_edges m es n ≡ pos (g n + left [] n es)
unfolding count_edges left has
count_edges-left m g [] h n = h n ∙ ap pos (omega arith)
count_edges-left m g (e ∷ es) h n =
    count_edges-left (update m e.to (inc (m e.to))) more es (λ x. at x (e.to == x) refl) n
    ∙ ap pos (ground arith)
  where
    more : String → ℕ
    more x = if e.to == x then suc (g x) else g x

    at :
        (x : String) (b : Bool)
        → (e.to == x) ≡ b
        → update m e.to (inc (m e.to)) x ≡ pos (if e.to == x then suc (g x) else g x)
    at x true d = rw (d, h e.to, (eq_iff e.to x).0 d) refl
    at x false d = rw d (h x)

has-sources :
    (d : String → ℤ) (n : String) (ns : List String)
    → has n (sources d ns) ≡ (has n ns && is_zero (d n))
unfolding sources has
has-sources d n [] = refl
has-sources d n (m ∷ ns) = at (m == n) refl (has-sources d n ns)
  where
    at :
        (b : Bool)
        → (m == n) ≡ b
        → has n (sources d ns) ≡ (has n ns && is_zero (d n))
        → has n (sources d (m ∷ ns)) ≡ (has n (m ∷ ns) && is_zero (d n))
    at true e ih = ground (arith, e, ih, ap (λ z. is_zero (d z)) ((eq_iff m n).0 e))
    at false e ih = ground (arith, e, ih)

sources-Nodup : (d : String → ℤ) (ns : List String) → Nodup ns → Nodup (sources d ns)
unfolding sources
sources-Nodup d [] p = tt
sources-Nodup d (n ∷ ns) (fresh, p) = elim (Bool-cases (is_zero (d n))) [
  | inl e ↦ rw e (has-sources d n ns ∙ rw fresh refl, sources-Nodup d ns p)
  | inr e ↦ rw e (sources-Nodup d ns p)
]

pub start-Progress :
    (plan : ExecutionPlan)
    → Nodup (ids plan.nodes)
    → Progress (ids plan.nodes) plan.edges (start plan)
unfolding start no_edges
start-Progress plan p = record {
  degree = degree;
  settled = record {
    member = λ n h. has-sources counted n known ∙ rw h refl;
    single = sources-Nodup counted known p;
    inside =
        Within-of_has (sources counted known) known
          (λ x h. ground (arith, has-sources counted x known, h));
  };
  schedule = tt;
}
  where
    known : List String
    known = ids plan.nodes

    counted : String → ℤ
    counted = count_edges no_edges plan.edges

    degree : (n : String) → counted n ≡ pos (left [] n plan.edges)
    degree n = count_edges-left no_edges (λ x. 0) plan.edges (λ x. refl) n ∙ ap pos (omega arith)
