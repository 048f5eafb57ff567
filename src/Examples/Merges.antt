-- ===== src/Examples/Merges.antt =====
-- The theorem on merged events at a concrete input.
use realtime_speech_pipeline.Base.{◌≡◌, refl, String, [], ◌∷◌, ok}
use realtime_speech_pipeline.Base.Int.{pos}
use realtime_speech_pipeline.Base.Lists.{All}
use realtime_speech_pipeline.Base.Members.{count_of}
use realtime_speech_pipeline.Buffering.Merge.{MergeInput, MergeResult, merge_coalesced_events}
use realtime_speech_pipeline.Buffering.Merge.Sorting.{ids}
use realtime_speech_pipeline.Buffering.Merge.Lineage.{Spans, merge_coalesced_events-keeps}

-- Two of the sources have the same sequence.
abbrev three : MergeInput
three = record {
  merge_group_id = "g1";
  sources =
      record { event_id = "e3"; runtime_sequence = pos 7; source_ref = "" }
      ∷ record { event_id = "e2"; runtime_sequence = pos 4; source_ref = "" }
      ∷ record { event_id = "e1"; runtime_sequence = pos 4; source_ref = "" }
      ∷ [];
}

merge_coalesced_events-keeps_example :
    (out : MergeResult) × (merge_coalesced_events three ≡ ok out)
    × (out.merge_group_id ≡ "g1")
    × ((id : String) → count_of id out.source_event_ids ≡ count_of id (ids three.sources))
    × All (Spans out.source_span) three.sources
merge_coalesced_events-keeps_example =
    merge_coalesced_events-keeps three refl refl ((refl, refl), ((refl, refl), ((refl, refl), tt)))
