-- ===== src/Timeline/Outcomes.antt =====
-- internal/observability/timeline/recorder.go: the invocation outcomes that are made up from the attempts
-- of a turn.
pub mod Lone
use realtime_speech_pipeline.Base.{
  ℕ, zero, suc, ◌+◌, String, Bool, true, false, not, ◌&&◌, ◌||◌, Option, none, some, List, [], ◌∷◌,
  Result, ok, err, ◌>>=◌, ◌>>◌, refuse_if, if◌then◌else◌,
}
use realtime_speech_pipeline.Base.Int.{ℤ, pos, ltℤ, sub64}
use realtime_speech_pipeline.Base.Lists.{length}
use realtime_speech_pipeline.Base.Members.{has}
use realtime_speech_pipeline.Base.Text.{is_empty, fallback}
use realtime_speech_pipeline.Timeline.{
  ProviderAttemptEvidence, InvocationOutcomeEvidence, validate_attempt, validate_invocation_outcome,
}
use realtime_speech_pipeline.Timeline.Recorder.{validate_attempts}
use text.Mathlib.Text.{◌==◌, is_lt}
use Prim.Native.String.{compare}

-- `a < b` on texts, and `a != b` on int64s.
abbrev text_less : String → String → Bool
text_less a b = is_lt (compare a b)

abbrev differ : ℤ → ℤ → Bool
differ a b = ltℤ a b || ltℤ b a

unfoldable pub provider_attempt_less : ProviderAttemptEvidence → ProviderAttemptEvidence → Bool
provider_attempt_less a b =
    if differ a.runtime_timestamp_ms b.runtime_timestamp_ms
    then ltℤ a.runtime_timestamp_ms b.runtime_timestamp_ms
    else if differ a.wall_clock_timestamp_ms b.wall_clock_timestamp_ms
    then ltℤ a.wall_clock_timestamp_ms b.wall_clock_timestamp_ms
    else if differ a.runtime_sequence b.runtime_sequence
    then ltℤ a.runtime_sequence b.runtime_sequence
    else if differ a.transport_sequence b.transport_sequence
    then ltℤ a.transport_sequence b.transport_sequence
    else if differ a.attempt b.attempt
    then ltℤ a.attempt b.attempt
    else if not (a.provider_id == b.provider_id)
    then text_less a.provider_id b.provider_id
    else text_less a.event_id b.event_id

-- Before the first element that is not smaller: what came first stays first.
unfoldable pub insert_attempt :
    ProviderAttemptEvidence → List ProviderAttemptEvidence → List ProviderAttemptEvidence
insert_attempt x [] = x ∷ []
insert_attempt x (y ∷ ys) =
    let rest = insert_attempt x ys in if provider_attempt_less y x then y ∷ rest else x ∷ y ∷ ys

-- `sort.SliceStable`
unfoldable pub sort_attempts : List ProviderAttemptEvidence → List ProviderAttemptEvidence
sort_attempts [] = []
sort_attempts (x ∷ xs) = insert_attempt x (sort_attempts xs)

-- `sort.Strings`, of ids that are all different.
unfoldable pub insert_id : String → List String → List String
insert_id x [] = x ∷ []
insert_id x (y ∷ ys) = let rest = insert_id x ys in if text_less x y then x ∷ y ∷ ys else y ∷ rest

unfoldable pub sort_ids : List String → List String
sort_ids [] = []
sort_ids (x ∷ xs) = insert_id x (sort_ids xs)

-- The keys of the map by invocation id, and what it holds under one.
unfoldable pub invocation_ids : (seen : List String) → List ProviderAttemptEvidence → List String
invocation_ids seen [] = []
invocation_ids seen (a ∷ attempts) =
    let known = invocation_ids seen attempts in
    let new = invocation_ids (a.provider_invocation_id ∷ seen) attempts in
    if has a.provider_invocation_id seen then known else a.provider_invocation_id ∷ new

unfoldable pub group_of : String → List ProviderAttemptEvidence → List ProviderAttemptEvidence
group_of id [] = []
group_of id (a ∷ attempts) =
    let rest = group_of id attempts in if a.provider_invocation_id == id then a ∷ rest else rest

-- The first, the last, and the one before the last, of the attempts after `first` and `prev`.
unfoldable pub last_of :
    ProviderAttemptEvidence → List ProviderAttemptEvidence → ProviderAttemptEvidence
last_of a [] = a
last_of a (b ∷ rest) = last_of b rest

unfoldable pub previous_of :
    Option ProviderAttemptEvidence
    → ProviderAttemptEvidence
    → List ProviderAttemptEvidence
    → Option ProviderAttemptEvidence
previous_of prev a [] = prev
previous_of prev a (b ∷ rest) = previous_of (some a) b rest

-- `if later > earlier { return later - earlier }; return 0`
abbrev elapsed : (earlier later : ℤ) → ℤ
elapsed earlier later = if ltℤ earlier later then sub64 later earlier else pos 0

abbrev since_previous : Option ProviderAttemptEvidence → ProviderAttemptEvidence → ℤ
since_previous none final = pos 0
since_previous (some prev) final =
    elapsed prev.wall_clock_timestamp_ms final.wall_clock_timestamp_ms

unfoldable pub derive_final_attempt_latency_ms : List ProviderAttemptEvidence → ℤ
derive_final_attempt_latency_ms [] = pos 0
derive_final_attempt_latency_ms (a ∷ rest) =
    let final = last_of a rest in
    if ltℤ (pos 0) final.attempt_latency_ms
    then final.attempt_latency_ms
    else since_previous (previous_of none a rest) final

unfoldable pub derive_total_invocation_latency_ms : List ProviderAttemptEvidence → ℤ
derive_total_invocation_latency_ms [] = pos 0
derive_total_invocation_latency_ms (a ∷ rest) =
    elapsed a.wall_clock_timestamp_ms (last_of a rest).wall_clock_timestamp_ms

-- The outcome of one group, sorted. A group is never empty; Go would panic.
unfoldable pub outcome_of : String → List ProviderAttemptEvidence → Option InvocationOutcomeEvidence
outcome_of id [] = none
outcome_of id (a ∷ rest) =
    let final = last_of a rest in
    some (record {
      provider_invocation_id = id;
      modality = final.modality;
      provider_id = final.provider_id;
      outcome_class = final.outcome_class;
      retryable = final.retryable;
      retry_decision = fallback final.retry_decision "none";
      attempt_count = pos (length (a ∷ rest));
      final_attempt_latency_ms = derive_final_attempt_latency_ms (a ∷ rest);
      total_invocation_latency_ms = derive_total_invocation_latency_ms (a ∷ rest);
    })

unfoldable pub validated_outcome :
    Option InvocationOutcomeEvidence → Result InvocationOutcomeEvidence
validated_outcome none = err "index out of range"
validated_outcome (some outcome) = do validate_invocation_outcome outcome; ok outcome

unfoldable pub outcomes_of :
    List ProviderAttemptEvidence → List String → Result (List InvocationOutcomeEvidence)
outcomes_of attempts [] = ok []
outcomes_of attempts (id ∷ ids) = do
  outcome ← validated_outcome (outcome_of id (sort_attempts (group_of id attempts)))
  later ← outcomes_of attempts ids
  ok (outcome ∷ later)

unfoldable pub invocation_outcomes_from_provider_attempts :
    List ProviderAttemptEvidence → Result (List InvocationOutcomeEvidence)
invocation_outcomes_from_provider_attempts attempts = do
  validate_attempts attempts
  outcomes_of attempts (sort_ids (invocation_ids [] attempts))
