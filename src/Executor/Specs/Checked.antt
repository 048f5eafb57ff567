-- ===== src/Executor/Specs/Checked.antt =====
-- internal/runtime/executor/plan.go: what the plans that are valid have.
use text.Mathlib.Text.{◌==◌}
use realtime_speech_pipeline.Base.{
  String, true, not, ◌||◌, ◌≡◌, refl, sym, ap, ◌∙◌, List, [], ◌∷◌, ◌++◌, append_assoc, append-nil,
  arith, ok, >>=-eq-ok, >>-eq-ok, refuse_if->>-eq-ok, leb,
}
use realtime_speech_pipeline.Base.Lists.{All, length}
use realtime_speech_pipeline.Base.Members.{has, Nodup, Nodup-snoc}
use realtime_speech_pipeline.Base.Text.{is_empty}
use realtime_speech_pipeline.EventAbi.Types.{is_lane}
use realtime_speech_pipeline.Executor.Specs.{
  NodeSpec, EdgeSpec, ExecutionPlan, ids, validate_provider, register_nodes, validate_edges,
  validate,
}

ids-append : (xs ys : List NodeSpec) → ids (xs ++ ys) ≡ ids xs ++ ids ys
ids-append [] ys = refl
ids-append (x ∷ xs) ys = ap (λ l. x.node_id ∷ l) (ids-append xs ys)

-- Both ends of an edge are nodes.
abbrev pub Joins : List String → EdgeSpec → Type 0
Joins known e = (has e.from known ≡ true) × (has e.to known ≡ true)

ok_inj : {xs ys : List NodeSpec} → ok xs ≡ ok ys → xs ≡ ys
ok_inj h = cc

register_nodes-facts :
    (acc ns out : List NodeSpec)
    → Nodup (ids acc)
    → register_nodes acc ns ≡ ok out
    → (out ≡ acc ++ ns) × Nodup (ids out)
unfolding register_nodes
register_nodes-facts acc [] out p h = (sym (append-nil acc ∙ ok_inj h), rw (← ok_inj h) p)
register_nodes-facts acc (n ∷ ns) out p h =
    let (a, h1) = refuse_if->>-eq-ok (is_empty n.node_id) _ _ h in
    let (fresh, h2) = refuse_if->>-eq-ok (has n.node_id (ids acc)) _ _ h1 in
    let (c, h3) = refuse_if->>-eq-ok (is_empty n.node_type) _ _ h2 in
    let (d, h4) = refuse_if->>-eq-ok (not (is_lane n.lane)) _ _ h3 in
    let (e, h5) = >>-eq-ok (validate_provider n.provider) _ h4 in
    let (same, single) =
      register_nodes-facts (acc ++ n ∷ []) ns out
        (rw (ids-append acc (n ∷ [])) (Nodup-snoc (ids acc) n.node_id p fresh)) h5 in
    (same ∙ append_assoc acc (n ∷ []) ns, single)

validate_edges-facts :
    (known : List String) (es : List EdgeSpec)
    → validate_edges known es ≡ ok tt
    → All (Joins known) es
unfolding validate_edges
validate_edges-facts known [] h = tt
validate_edges-facts known (e ∷ es) h =
    let (a, h1) = refuse_if->>-eq-ok (is_empty e.from || is_empty e.to) _ _ h in
    let (b, h2) = refuse_if->>-eq-ok (e.from == e.to) _ _ h1 in
    let (c, h3) = refuse_if->>-eq-ok (not (has e.from known)) _ _ h2 in
    let (d, h4) = refuse_if->>-eq-ok (not (has e.to known)) _ _ h3 in
    ((ground (arith, c), ground (arith, d)), validate_edges-facts known es h4)

pub validate-facts :
    (plan : ExecutionPlan) (node_by_id : List NodeSpec)
    → validate plan ≡ ok node_by_id
    → ((node_by_id ≡ plan.nodes) × Nodup (ids plan.nodes)) × All (Joins (ids plan.nodes)) plan.edges
unfolding validate
validate-facts plan node_by_id h =
    let (a, h1) = refuse_if->>-eq-ok (leb (length plan.nodes) 0) _ _ h in
    let (nodes, b, h2) = >>=-eq-ok (register_nodes [] plan.nodes) _ h1 in
    let (c, h3) = >>-eq-ok (validate_edges (ids nodes) plan.edges) _ h2 in
    let (same, single) = register_nodes-facts [] plan.nodes nodes tt b in
    (
      (sym (ok_inj h3) ∙ same, rw (← same) single),
      rw (← same) (validate_edges-facts (ids nodes) plan.edges c),
    )
