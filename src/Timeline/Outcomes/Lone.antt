-- ===== src/Timeline/Outcomes/Lone.antt =====
-- What internal/observability/timeline/recorder.go makes of a single attempt.
use realtime_speech_pipeline.Base.{
  some, ◌>>=◌, ◌≡◌, refl, String, true, false, not, ◌||◌, [], ◌∷◌, Result, ok, err, ◌>>◌, arith,
  refuse_if->>-eq-ok, ◌∙◌,
}
use realtime_speech_pipeline.Base.Int.{ℤ, pos, ltℤ, is_negative}
use realtime_speech_pipeline.Base.Members.{has}
use realtime_speech_pipeline.Base.Text.{is_empty, fallback}
use realtime_speech_pipeline.Timeline.{
  ProviderAttemptEvidence, InvocationOutcomeEvidence, validate_attempt, validate_invocation_outcome,
  modalities, outcome_classes, retry_decisions,
}
use realtime_speech_pipeline.Timeline.Outcomes.{
  invocation_outcomes_from_provider_attempts, outcomes_of, validated_outcome, outcome_of,
  sort_attempts, insert_attempt, sort_ids, insert_id, invocation_ids, group_of, last_of,
  previous_of, derive_final_attempt_latency_ms, derive_total_invocation_latency_ms,
}
use realtime_speech_pipeline.Timeline.Recorder.{validate_attempts}
use text.Mathlib.TextPositions.{eq_refl}

-- The outcome of an attempt that was the only one: both latencies are 0.
abbrev pub lone_outcome : ProviderAttemptEvidence → InvocationOutcomeEvidence
lone_outcome a = record {
  provider_invocation_id = a.provider_invocation_id;
  modality = a.modality;
  provider_id = a.provider_id;
  outcome_class = a.outcome_class;
  retryable = a.retryable;
  retry_decision = a.retry_decision;
  attempt_count = pos 1;
  final_attempt_latency_ms = pos 0;
  total_invocation_latency_ms = pos 0;
}

ltℤ-irrefl : (a : ℤ) → ltℤ a a ≡ false
ltℤ-irrefl a = ground arith

given_decision : (s : String) → has s retry_decisions ≡ true → fallback s "none" ≡ s
unfolding has
given_decision String.[] h = cc
given_decision (String.◌∷◌ c s) h = refl

given_modality : (s : String) → has s modalities ≡ true → is_empty s ≡ false
unfolding has
given_modality String.[] h = cc
given_modality (String.◌∷◌ c s) h = refl

-- What the validation of an attempt says of the texts that go into the outcome.
abbrev Texts : ProviderAttemptEvidence → Type 0
Texts a =
    (is_empty a.provider_invocation_id ≡ false)
    × (is_empty a.provider_id ≡ false)
    × (has a.modality modalities ≡ true)
    × (has a.outcome_class outcome_classes ≡ true)
    × (has a.retry_decision retry_decisions ≡ true)

attempt-Texts : (a : ProviderAttemptEvidence) → validate_attempt a ≡ ok tt → Texts a
unfolding validate_attempt
attempt-Texts a h =
    let (ids, h1) =
      refuse_if->>-eq-ok
        (is_empty a.session_id
          || is_empty a.pipeline_version
          || is_empty a.event_id
          || is_empty a.provider_invocation_id)
        _ _ h in
    let (provider, h2) = refuse_if->>-eq-ok (is_empty a.provider_id) _ _ h1 in
    let (modality, h3) = refuse_if->>-eq-ok (not (has a.modality modalities)) _ _ h2 in
    let (class, h4) = refuse_if->>-eq-ok (not (has a.outcome_class outcome_classes)) _ _ h3 in
    let (decision, _) = refuse_if->>-eq-ok (not (has a.retry_decision retry_decisions)) _ _ h4 in
    (
      ground (arith, ids),
      provider,
      ground (arith, modality),
      ground (arith, class),
      ground (arith, decision),
    )

-- The outcome of a lone attempt, with the latency that the attempt has.
abbrev timed_outcome : ProviderAttemptEvidence → InvocationOutcomeEvidence
timed_outcome a = record (lone_outcome a) {
  final_attempt_latency_ms = derive_final_attempt_latency_ms (a ∷ []);
}

lone-group : (a : ProviderAttemptEvidence) → group_of a.provider_invocation_id (a ∷ []) ≡ a ∷ []
unfolding group_of
lone-group a = rw (eq_refl a.provider_invocation_id) refl

lone-ids :
    (a : ProviderAttemptEvidence)
    → sort_ids (invocation_ids [] (a ∷ [])) ≡ a.provider_invocation_id ∷ []
unfolding sort_ids insert_id invocation_ids has
lone-ids a = refl

lone-outcome :
    (a : ProviderAttemptEvidence)
    → has a.retry_decision retry_decisions ≡ true
    → outcome_of a.provider_invocation_id (sort_attempts (a ∷ [])) ≡ some (timed_outcome a)
unfolding outcome_of sort_attempts insert_attempt last_of derive_total_invocation_latency_ms
lone-outcome a h = rw (ltℤ-irrefl a.wall_clock_timestamp_ms, given_decision a.retry_decision h) refl

one_outcome :
    (o : InvocationOutcomeEvidence) (v : Result (Unit {0}))
    → ((v >> ok o) >>= (λ outcome. ok (outcome ∷ []))) ≡ (v >> ok (o ∷ []))
one_outcome o (err m) = refl
one_outcome o (ok tt) = refl

lone-run :
    (a : ProviderAttemptEvidence)
    → validate_attempt a ≡ ok tt
    → Texts a
    → invocation_outcomes_from_provider_attempts (a ∷ [])
      ≡ (validate_invocation_outcome (timed_outcome a) >> ok (timed_outcome a ∷ []))
unfolding invocation_outcomes_from_provider_attempts validate_attempts outcomes_of validated_outcome
lone-run a valid (id, provider, modality, class, decision) =
    rw (valid, lone-ids a, lone-group a, lone-outcome a decision)
      (one_outcome (timed_outcome a) (validate_invocation_outcome (timed_outcome a)))

lone-quick :
    (a : ProviderAttemptEvidence)
    → Texts a
    → ltℤ (pos 0) a.attempt_latency_ms ≡ false
    → (validate_invocation_outcome (timed_outcome a) >> ok (timed_outcome a ∷ []))
      ≡ ok (lone_outcome a ∷ [])
unfolding validate_invocation_outcome derive_final_attempt_latency_ms last_of previous_of
lone-quick a (id, provider, modality, class, decision) n =
    rw (n, id, provider, given_modality a.modality modality, modality, class, decision) refl

lone-slow :
    (a : ProviderAttemptEvidence)
    → Texts a
    → ltℤ (pos 0) a.attempt_latency_ms ≡ true
    → (validate_invocation_outcome (timed_outcome a) >> ok (timed_outcome a ∷ []))
      ≡ err "invocation total_invocation_latency_ms must be >= final_attempt_latency_ms"
unfolding validate_invocation_outcome derive_final_attempt_latency_ms last_of
lone-slow a (id, provider, modality, class, decision) l =
    rw
      (
        l,
        id,
        provider,
        given_modality a.modality modality,
        modality,
        class,
        decision,
        positive a.attempt_latency_ms l,
        l,
      )
      refl
  where
    positive : (v : ℤ) → ltℤ (pos 0) v ≡ true → is_negative v ≡ false
    positive v h = ground arith

-- A single attempt that its validation accepts makes one outcome, that of the attempt, if the attempt has
-- no latency of its own; with a latency of its own it makes none, since the total of one attempt is 0 and
-- an outcome whose last attempt took longer than the whole is refused.
pub invocation_outcomes-lone :
    (a : ProviderAttemptEvidence)
    → validate_attempt a ≡ ok tt
    → (ltℤ (pos 0) a.attempt_latency_ms ≡ false
        → invocation_outcomes_from_provider_attempts (a ∷ []) ≡ ok (lone_outcome a ∷ []))
      × (ltℤ (pos 0) a.attempt_latency_ms ≡ true
          → invocation_outcomes_from_provider_attempts (a ∷ [])
            ≡ err "invocation total_invocation_latency_ms must be >= final_attempt_latency_ms")
invocation_outcomes-lone a valid =
    let texts = attempt-Texts a valid in
    (
      (λ n. lone-run a valid texts ∙ lone-quick a texts n),
      λ l. lone-run a valid texts ∙ lone-slow a texts l,
    )
