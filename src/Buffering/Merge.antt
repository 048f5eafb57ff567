-- ===== src/Buffering/Merge.antt =====
-- internal/runtime/buffering/merge.go: the merge of events into one, with the lineage of its sources.
pub mod Sorting
pub mod Lineage
use text.Mathlib.Text.{◌==◌, is_lt}
use Prim.Native.String.{compare}
use realtime_speech_pipeline.Base.{
  ℕ, zero, suc, String, Bool, true, false, not, ◌&&◌, ◌||◌, List, [], ◌∷◌, ◌++◌, Result, ok, err,
  ◌>>=◌, ◌>>◌, refuse_if, if◌then◌else◌, ltb,
}
use realtime_speech_pipeline.Base.Int.{ℤ, pos, ltℤ, is_negative}
use realtime_speech_pipeline.Base.Lists.{length}
use realtime_speech_pipeline.Base.Text.{is_empty}
use realtime_speech_pipeline.EventAbi.Types.{SeqRange, validate_seq_range}

pub record MergeSource : Type 0 where
  pub event_id : String
  pub runtime_sequence : ℤ
  pub source_ref : String

pub record MergeInput : Type 0 where
  pub merge_group_id : String
  pub sources : List MergeSource

pub record MergeResult : Type 0 where
  pub merge_group_id : String
  pub source_event_ids : List String
  pub source_span : SeqRange

-- `a == b`
abbrev pub same_sequence : MergeSource → MergeSource → Bool
same_sequence a b =
    not (ltℤ a.runtime_sequence b.runtime_sequence)
    && not (ltℤ b.runtime_sequence a.runtime_sequence)

-- The order that sort.Slice is given.
unfoldable pub less : MergeSource → MergeSource → Bool
less a b =
    if same_sequence a b
    then is_lt (compare a.event_id b.event_id)
    else ltℤ a.runtime_sequence b.runtime_sequence

unfoldable pub insert : MergeSource → List MergeSource → List MergeSource
insert x [] = x ∷ []
insert x (y ∷ ys) = let rest = insert x ys in if less x y then x ∷ y ∷ ys else y ∷ rest

-- sort.Slice: sources that are alike in sequence and id may come in any order, and the result does not
-- show which.
unfoldable pub sort_sources : List MergeSource → List MergeSource
sort_sources [] = []
sort_sources (x ∷ xs) = insert x (sort_sources xs)

-- The loop over the sorted sources.
unfoldable pub collect_ids : (ids : List String) → List MergeSource → Result (List String)
collect_ids ids [] = ok ids
collect_ids ids (src ∷ rest) = do
  refuse_if (is_empty src.event_id) "source event id is required"
  refuse_if (is_negative src.runtime_sequence) "source runtime sequence must be >= 0"
  collect_ids (ids ++ src.event_id ∷ []) rest

-- The sequences of `sources[0]` and `sources[len(sources)-1]`; there is at least one.
unfoldable pub first_sequence : List MergeSource → ℤ
first_sequence [] = pos 0
first_sequence (x ∷ xs) = x.runtime_sequence

unfoldable pub last_sequence : List MergeSource → ℤ
last_sequence [] = pos 0
last_sequence (x ∷ []) = x.runtime_sequence
last_sequence (x ∷ y ∷ ys) = last_sequence (y ∷ ys)

unfoldable pub span_of : List MergeSource → SeqRange
span_of sources = record { start = first_sequence sources; end = last_sequence sources }

unfoldable pub merge_coalesced_events : MergeInput → Result MergeResult
merge_coalesced_events req = do
  refuse_if (is_empty req.merge_group_id) "merge_group_id is required"
  refuse_if (ltb (length req.sources) 2) "at least two source events are required"
  source_event_ids ← collect_ids [] (sort_sources req.sources)
  validate_seq_range (span_of (sort_sources req.sources))
  ok (record {
    merge_group_id = req.merge_group_id;
    source_event_ids = source_event_ids;
    source_span = span_of (sort_sources req.sources);
  })
