-- ===== src/Buffering/Merge/Lineage.antt =====
-- internal/runtime/buffering/merge.go: what a merge says of its sources.
use realtime_speech_pipeline.Base.{
  String, false, ◌≡◌, refl, sym, ap, ◌∙◌, List, [], ◌∷◌, ◌++◌, append_assoc, append-nil, ok, arith,
  ltb,
}
use realtime_speech_pipeline.Base.Int.{◌≤ℤ◌, is_negative}
use realtime_speech_pipeline.Base.Lists.{length, All}
use realtime_speech_pipeline.Base.Members.{count_of}
use realtime_speech_pipeline.Base.Text.{is_empty}
use realtime_speech_pipeline.EventAbi.Types.{SeqRange, validate_seq_range}
use realtime_speech_pipeline.Buffering.Merge.{
  MergeSource, MergeInput, MergeResult, sort_sources, collect_ids, first_sequence, last_sequence,
  span_of, merge_coalesced_events,
}
use realtime_speech_pipeline.Buffering.Merge.Sorting.{
  ids, Earlier, Sorted, sort-All, All-sort, sort-Sorted, count_of-sort,
}

-- A source with an event id and a sequence that is not negative.
abbrev pub IsComplete : MergeSource → Type 0
IsComplete s = (is_empty s.event_id ≡ false) × (is_negative s.runtime_sequence ≡ false)

abbrev pub Spans : SeqRange → MergeSource → Type 0
Spans span s = (span.start ≤ℤ s.runtime_sequence) × (s.runtime_sequence ≤ℤ span.end)

collect_ids-ok :
    (before : List String) (ss : List MergeSource)
    → All IsComplete ss
    → collect_ids before ss ≡ ok (before ++ ids ss)
unfolding collect_ids
collect_ids-ok before [] a = ap ok (sym (append-nil before))
collect_ids-ok before (s ∷ ss) ((e, n), a) =
    rw (e, n)
      (collect_ids-ok (before ++ s.event_id ∷ []) ss a
        ∙ ap ok (append_assoc before (s.event_id ∷ []) (ids ss)))

last-Earlier :
    (x : MergeSource) (xs : List MergeSource)
    → Sorted (x ∷ xs)
    → All (λ s. s.runtime_sequence ≤ℤ last_sequence (x ∷ xs)) (x ∷ xs)
unfolding last_sequence
last-Earlier x [] s = (omega arith, tt)
last-Earlier x (y ∷ ys) ((h, hs), s) = let ih = last-Earlier y ys s in (omega (arith, h, ih.0), ih)

both :
    (P Q : MergeSource → Type 0) (ss : List MergeSource)
    → All P ss
    → All Q ss
    → All (λ s. P s × Q s) ss
both P Q [] a b = tt
both P Q (s ∷ ss) (p, a) (q, b) = ((p, q), both P Q ss a b)

-- The first and the last sequence of sorted sources bound all of them.
Sorted-Spans : (ss : List MergeSource) → Sorted ss → All (Spans (span_of ss)) ss
unfolding span_of first_sequence
Sorted-Spans [] s = tt
Sorted-Spans (x ∷ xs) (h, s) =
    both (Earlier x) (λ s. s.runtime_sequence ≤ℤ last_sequence (x ∷ xs)) (x ∷ xs) (omega arith, h)
      (last-Earlier x xs (h, s))

first-IsNatural :
    (ss : List MergeSource) → All IsComplete ss → is_negative (first_sequence ss) ≡ false
unfolding first_sequence
first-IsNatural [] a = refl
first-IsNatural (x ∷ xs) ((e, n), a) = n

last-IsNatural :
    (ss : List MergeSource) → All IsComplete ss → is_negative (last_sequence ss) ≡ false
unfolding last_sequence
last-IsNatural [] a = refl
last-IsNatural (x ∷ []) ((e, n), a) = n
last-IsNatural (x ∷ y ∷ ys) (c, a) = last-IsNatural (y ∷ ys) a

span-accepted :
    (ss : List MergeSource)
    → All IsComplete ss
    → Sorted ss
    → validate_seq_range (span_of ss) ≡ ok tt
unfolding validate_seq_range span_of first_sequence last_sequence
span-accepted [] a s = refl
span-accepted (x ∷ xs) a s =
    let below = (last-Earlier x xs s).0 in
    ground (arith, below, first-IsNatural (x ∷ xs) a, last-IsNatural (x ∷ xs) a)

-- For a group id and at least two sources, each with an event id and a sequence that is not negative, the
-- merge never fails: it keeps the group id, names every source id as often as the sources do, and its
-- span holds the sequence of every source.
pub merge_coalesced_events-keeps :
    (req : MergeInput)
    → is_empty req.merge_group_id ≡ false
    → ltb (length req.sources) 2 ≡ false
    → All IsComplete req.sources
    → (out : MergeResult) × (merge_coalesced_events req ≡ ok out)
      × (out.merge_group_id ≡ req.merge_group_id)
      × ((id : String) → count_of id out.source_event_ids ≡ count_of id (ids req.sources))
      × All (Spans out.source_span) req.sources
unfolding merge_coalesced_events
merge_coalesced_events-keeps req g two a =
    let complete = sort-All IsComplete req.sources a in
    let sorted = sort-Sorted req.sources in
    (
      record {
        merge_group_id = req.merge_group_id;
        source_event_ids = ids (sort_sources req.sources);
        source_span = span_of (sort_sources req.sources);
      },
      rw
          (
            g,
            two,
            collect_ids-ok [] (sort_sources req.sources) complete,
            span-accepted (sort_sources req.sources) complete sorted,
          )
          refl,
      refl,
      (λ id. count_of-sort id req.sources),
      All-sort (Spans (span_of (sort_sources req.sources))) req.sources
          (Sorted-Spans (sort_sources req.sources) sorted),
    )
