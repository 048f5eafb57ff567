-- ===== src/Executor/Topology/Rounds.antt =====
-- internal/runtime/executor/plan.go: what one round of topologicalOrder keeps.
use text.Mathlib.Text.{◌==◌}
use text.Mathlib.TextEquality.{eq_iff}
use text.Mathlib.TextPositions.{eq_refl}
use realtime_speech_pipeline.Base.{
  ℕ, zero, suc, ◌+◌, String, Bool, true, false, ◌||◌, ◌≡◌, refl, ap, ◌∙◌, List, [], ◌∷◌, ◌++◌,
  append_assoc, if◌then◌else◌, arith,
}
use realtime_speech_pipeline.Base.Int.{ℤ, pos}
use realtime_speech_pipeline.Base.Lists.{All, All-append}
use realtime_speech_pipeline.Base.Members.{
  has, count_of, Nodup, Within, has-snoc, Nodup-snoc, has_of_eq,
}
use realtime_speech_pipeline.Executor.Specs.{EdgeSpec}
use realtime_speech_pipeline.Executor.Topology.{is_zero, update, Search, visit, visit_all}

-- The edges into `n` whose start is not in `seen`.
unfoldable pub left : List String → String → List EdgeSpec → ℕ
left seen n [] = 0
left seen n (e ∷ es) =
    let rest = left seen n es in
    if has e.from seen then rest else if e.to == n then suc rest else rest

-- The nodes that came into the queue are those without an edge left, each of them once.
pub record Settled (known : List String) (indegree : String → ℤ) (seen : List String) : Type 0 where
  pub member : (n : String) → has n known ≡ true → has n seen ≡ is_zero (indegree n)
  pub single : Nodup seen
  pub inside : All (Within known) seen

module _ (known : List String) (indegree : String → ℤ) (seen : List String) (t : String) where
  snoc-Settled :
      Settled known indegree seen
      → has t known ≡ true
      → indegree t ≡ pos 1
      → Settled known (update indegree t (pos 0)) (seen ++ t ∷ [])
  snoc-Settled p h e = record {
    member = λ n k. rw (has-snoc n seen t) (at n k (t == n) refl);
    single = Nodup-snoc seen t p.single (p.member t h ∙ rw e refl);
    inside = All-append (Within known) seen (t ∷ []) p.inside (h, tt);
  }
    where
      at :
          (n : String)
          → has n known ≡ true
          → (b : Bool) → (t == n) ≡ b
          → (has n seen || t == n) ≡ is_zero (update indegree t (pos 0) n)
      at n k true d = rw d (ground arith)
      at n k false d = rw (d, p.member n k) (ground arith)

  update-Settled :
      (k : ℕ)
      → Settled known indegree seen
      → has t known ≡ true
      → indegree t ≡ pos (suc (suc k))
      → Settled known (update indegree t (pos (suc k))) seen
  update-Settled k p h e = record {
    member = λ n q. at n q (t == n) refl;
    single = p.single;
    inside = p.inside;
  }
    where
      at :
          (n : String)
          → has n known ≡ true
          → (b : Bool) → (t == n) ≡ b
          → has n seen ≡ is_zero (update indegree t (pos (suc k)) n)
      at n q true d = rw d (has_of_eq t n seen d ∙ p.member t h ∙ rw e refl)
      at n q false d = rw d (p.member n q)

abbrev pub SettledSearch : List String → Search → Type 0
SettledSearch known s = Settled known s.indegree (s.order ++ s.ready)

visit-Settled :
    (known : List String) (s : Search) (t : String) (k : ℕ)
    → SettledSearch known s
    → has t known ≡ true
    → s.indegree t ≡ pos (suc k)
    → SettledSearch known (visit s t)
unfolding visit
visit-Settled known s t zero p h e =
    rw (e, ← append_assoc s.order s.ready (t ∷ []))
      (snoc-Settled known s.indegree (s.order ++ s.ready) t p h e)
visit-Settled known s t (suc k) p h e =
    rw e (update-Settled known s.indegree (s.order ++ s.ready) t k p h e)

visit-indegree :
    (s : Search) (t : String) (k : ℕ) (n : String)
    → s.indegree t ≡ pos (suc k)
    → (visit s t).indegree n ≡ (if t == n then pos k else s.indegree n)
unfolding visit
visit-indegree s t k n e = rw e refl

-- What is left of the degrees when `ts` are visited.
abbrev pub Owes : (String → ℕ) → List String → Search → Type 0
Owes g ts s = (n : String) → s.indegree n ≡ pos (g n + count_of n ts)

visit-Owes :
    (g : String → ℕ) (t : String) (ts : List String) (s : Search)
    → Owes g (t ∷ ts) s
    → (s.indegree t ≡ pos (suc (g t + count_of t ts))) × Owes g ts (visit s t)
unfolding count_of
visit-Owes g t ts s owes =
    (first, λ n. visit-indegree s t (g t + count_of t ts) n first ∙ at n (t == n) refl)
  where
    first : s.indegree t ≡ pos (suc (g t + count_of t ts))
    first = owes t ∙ rw (eq_refl t) (ap pos (omega arith))

    at :
        (n : String) (b : Bool)
        → (t == n) ≡ b
        → (if t == n then pos (g t + count_of t ts) else s.indegree n) ≡ pos (g n + count_of n ts)
    at n true d = rw (d, (eq_iff t n).0 d) refl
    at n false d = rw d (owes n ∙ ap pos (rw d (omega arith)))

visit-order : (s : Search) (t : String) → (visit s t).order ≡ s.order
unfolding visit
visit-order s t = refl

pub visit_all-keeps :
    (known : List String) (g : String → ℕ) (ts : List String) (s : Search)
    → SettledSearch known s
    → All (Within known) ts
    → Owes g ts s
    → (SettledSearch known (visit_all s ts)
        × ((n : String) → (visit_all s ts).indegree n ≡ pos (g n)))
      × ((visit_all s ts).order ≡ s.order)
unfolding visit_all count_of
visit_all-keeps known g [] s p h owes = ((p, λ n. owes n ∙ ap pos (omega arith)), refl)
visit_all-keeps known g (t ∷ ts) s p (h, hs) owes =
    let next = visit-Owes g t ts s owes in
    let rest =
      visit_all-keeps known g ts (visit s t)
        (visit-Settled known s t (g t + count_of t ts) p h next.0) hs next.1 in
    (rest.0, rest.1 ∙ visit-order s t)
