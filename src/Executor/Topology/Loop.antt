-- ===== src/Executor/Topology/Loop.antt =====
-- internal/runtime/executor/plan.go: the loop of topologicalOrder, its invariant and its end.
use text.Mathlib.Text.{◌==◌}
use realtime_speech_pipeline.Base.{
  ℕ, zero, suc, ◌+◌, String, Bool, true, false, ◌≡◌, refl, sym, ap, ◌∙◌, List, [], ◌∷◌, ◌++◌,
  append_assoc, append-nil, arith,
}
use realtime_speech_pipeline.Base.Int.{pos}
use realtime_speech_pipeline.Base.Lists.{All, length, length-append}
use realtime_speech_pipeline.Base.Members.{
  has, count_of, Nodup, Within, has-append, has-snoc, eq_comm, has_of_eq, length_of_Nodup, has-here,
}
use realtime_speech_pipeline.Executor.Specs.{EdgeSpec}
use realtime_speech_pipeline.Executor.Topology.{
  targets, is_zero, Search, visit_all, expand, next_round, loop,
}
use realtime_speech_pipeline.Executor.Topology.Rounds.{
  left, Settled, SettledSearch, visit_all-keeps,
}

left-snoc :
    (seen : List String) (c n : String) (es : List EdgeSpec)
    → has c seen ≡ false
    → left seen n es ≡ left (seen ++ c ∷ []) n es + count_of n (targets es c)
unfolding left count_of targets
left-snoc seen c n [] h = omega arith
left-snoc seen c n (e ∷ es) h = at (e.from == c) refl (left-snoc seen c n es h)
  where
    at :
        (b : Bool)
        → (e.from == c) ≡ b
        → left seen n es ≡ left (seen ++ c ∷ []) n es + count_of n (targets es c)
        → left seen n (e ∷ es) ≡ left (seen ++ c ∷ []) n (e ∷ es) + count_of n (targets (e ∷ es) c)
    at true d ih =
        rw (d, has-snoc e.from seen c, sym (has_of_eq e.from c seen d) ∙ h, eq_comm c e.from ∙ d)
          (ground (arith, ih))
    at false d ih = rw (d, has-snoc e.from seen c, eq_comm c e.from ∙ d) (ground (arith, ih))

-- Each node follows the starts of its edges.
abbrev pub Schedule : List EdgeSpec → (seen : List String) → List String → Type 0
Schedule es seen [] = Unit
Schedule es seen (n ∷ ns) = (left seen n es ≡ 0) × Schedule es (seen ++ n ∷ []) ns

Schedule-snoc :
    (es : List EdgeSpec) (seen ns : List String) (c : String)
    → Schedule es seen ns
    → left (seen ++ ns) c es ≡ 0
    → Schedule es seen (ns ++ c ∷ [])
Schedule-snoc es seen [] c p h = (ap (λ l. left l c es) (sym (append-nil seen)) ∙ h, tt)
Schedule-snoc es seen (n ∷ ns) c (head, p) h = (
  head,
  Schedule-snoc es (seen ++ n ∷ []) ns c p
      (ap (λ l. left l c es) (append_assoc seen (n ∷ []) ns) ∙ h),
)

-- The invariant of the loop over the queue.
pub record Progress (known : List String) (es : List EdgeSpec) (s : Search) : Type 0 where
  pub degree : (n : String) → s.indegree n ≡ pos (left s.order n es)
  pub settled : SettledSearch known s
  pub schedule : Schedule es [] s.order

middle-IsFresh :
    (xs : List String) (c : String) (ys : List String) → Nodup (xs ++ c ∷ ys) → has c xs ≡ false
unfolding has
middle-IsFresh [] c ys p = refl
middle-IsFresh (x ∷ xs) c ys (fresh, p) =
    ground (arith, eq_comm x c, has-append x xs (c ∷ ys), middle-IsFresh xs c ys p)

has-middle : (xs : List String) (c : String) (ys : List String) → has c (xs ++ c ∷ ys) ≡ true
has-middle xs c ys = ground (arith, has-append c xs (c ∷ ys), has-here c ys)

Within-middle :
    (known xs : List String) (c : String) (ys : List String)
    → All (Within known) (xs ++ c ∷ ys)
    → has c known ≡ true
Within-middle known [] c ys (h, p) = h
Within-middle known (x ∷ xs) c ys (h, p) = Within-middle known xs c ys p

zero_of : (n : ℕ) → is_zero (pos n) ≡ true → n ≡ 0
zero_of zero e = refl
zero_of (suc n) e = cc

expand-Progress :
    (known : List String) (es : List EdgeSpec) (s : Search) (c : String) (rest : List String)
    → All (Within known) (targets es c)
    → Progress known es s
    → s.ready ≡ c ∷ rest
    → Progress known es (expand es s c rest) × ((expand es s c rest).order ≡ s.order ++ c ∷ [])
unfolding expand
expand-Progress known es s c rest inside p e = (
  record {
    degree = λ n. rw kept.1 (kept.0.1 n);
    settled = kept.0.0;
    schedule = rw kept.1 (Schedule-snoc es [] s.order c p.schedule done);
  },
  kept.1,
)
  where
    settled : Settled known s.indegree (s.order ++ c ∷ rest)
    settled = rw (← e) p.settled

    fresh : has c s.order ≡ false
    fresh = middle-IsFresh s.order c rest settled.single

    done : left s.order c es ≡ 0
    done = zero_of (left s.order c es) (
        ap is_zero (sym (p.degree c))
        ∙ sym (settled.member c (Within-middle known s.order c rest settled.inside))
        ∙ has-middle s.order c rest)

    popped : Search
    popped = record s { ready = rest; order = s.order ++ c ∷ [] }

    kept :
        (SettledSearch known (visit_all popped (targets es c))
          × ((n : String)
              → (visit_all popped (targets es c)).indegree n ≡ pos (left (s.order ++ c ∷ []) n es)))
        × ((visit_all popped (targets es c)).order ≡ s.order ++ c ∷ [])
    kept =
        visit_all-keeps known (λ n. left (s.order ++ c ∷ []) n es) (targets es c) popped
          (rw (append_assoc s.order (c ∷ []) rest) settled) inside
          (λ n. p.degree n ∙ ap pos (left-snoc s.order c n es fresh))

-- No more nodes than there are come into the queue.
ready-IsNil :
    (known : List String) (es : List EdgeSpec) (s : Search)
    → Progress known es s
    → length s.order ≡ length known
    → s.ready ≡ []
ready-IsNil known es s p full = nil_of s.ready (
    omega (
      arith,
      full,
      length-append s.order s.ready,
      length_of_Nodup (s.order ++ s.ready) known p.settled.single p.settled.inside,
    ))
  where
    nil_of : (xs : List String) → length xs ≡ 0 → xs ≡ []
    nil_of [] e = refl
    nil_of (x ∷ xs) e = cc

pub loop-Progress :
    (known : List String) (es : List EdgeSpec)
    (inside : (c : String) → All (Within known) (targets es c)) (fuel : ℕ) (s : Search)
    → Progress known es s
    → fuel + length s.order ≡ length known
    → Progress known es (loop es fuel s) × ((loop es fuel s).ready ≡ [])
unfolding loop next_round
loop-Progress known es inside zero s p e = (p, ready-IsNil known es s p (omega (arith, e)))
loop-Progress known es inside (suc fuel) s p e =
    at s.ready refl (λ c rest. loop-Progress known es inside fuel (expand es s c rest))
  where
    at :
        (queue : List String)
        → s.ready ≡ queue
        → ((c : String) (rest : List String)
            → Progress known es (expand es s c rest)
            → fuel + length (expand es s c rest).order ≡ length known
            → Progress known es (loop es fuel (expand es s c rest))
              × ((loop es fuel (expand es s c rest)).ready ≡ []))
        → Progress known es (next_round es s queue (loop es fuel))
          × ((next_round es s queue (loop es fuel)).ready ≡ [])
    at [] d again = (p, d)
    at (c ∷ rest) d again = (round (expand-Progress known es s c rest (inside c) p d))
      where
        round :
            Progress known es (expand es s c rest)
              × ((expand es s c rest).order ≡ s.order ++ c ∷ [])
            → Progress known es (loop es fuel (expand es s c rest))
              × ((loop es fuel (expand es s c rest)).ready ≡ [])
        round (next, longer) =
            again c rest next (rw longer (omega (arith, e, length-append s.order (c ∷ []))))
