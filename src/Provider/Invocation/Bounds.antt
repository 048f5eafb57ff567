-- ===== src/Provider/Invocation/Bounds.antt =====
-- The loops of internal/runtime/provider/invocation/controller.go: how often the adapters are called, and
-- what is returned, whatever they answer.
use Prim.Native.Nat.{◌*◌}
use realtime_speech_pipeline.Base.{
  ℕ, zero, suc, ◌+◌, ◌*◌, ◌≤◌, ◌≡◌, refl, sym, ap, String, Bool, true, false, ◌&&◌, ◌||◌, List, [],
  ◌∷◌, ◌∙◌, Result, ok, err, Result-cases, inl, inr, arith, if◌then◌else◌,
}
use realtime_speech_pipeline.Base.Lists.{length}
use realtime_speech_pipeline.Provider.Contracts.{Adapter}
use realtime_speech_pipeline.Provider.Catalog.{Catalog, candidates}
use realtime_speech_pipeline.Provider.Requests.{
  Config, InvocationInput, InvocationResult, Actions, Notice, append_signal, switch_reason,
  default_config, validate_input, parse_adaptive_actions,
}
use realtime_speech_pipeline.Provider.Invocation.{
  Ended, returned, broke, failed, has_next, next_id, switch_decision, with_decision, after_provider,
  continue_with, providers_from, start_result, invoke_with, invoke_candidates, invoke,
}
use realtime_speech_pipeline.Provider.Invocation.Tally.{errors, failures, append_signal-Noted}
use realtime_speech_pipeline.Provider.Invocation.Progress.{
  Running, Answers, EndsWithin, Answers-mono, Answers-of_Running, Running-decided, Running-Noted,
}
use realtime_speech_pipeline.Provider.Invocation.Attempts.{
  rounds, least_after, least_after-le, attempts_from-EndsWithin,
}

abbrev pub Returns : (least most : ℕ) → Result InvocationResult → Type 0
Returns least most (ok r) = Answers least most r
Returns least most (err e) = Unit

Returns-mono :
    (j k m n : ℕ) (r : Result InvocationResult) → j ≤ k → m ≤ n → Returns k m r → Returns j n r
Returns-mono j k m n (ok r) low high h = Answers-mono j k m n r low high h
Returns-mono j k m n (err e) low high h = tt

module _ {World : Type 0} where
  continue_with-Returns :
      (k m n : ℕ) (noted : Result InvocationResult) (decision : String) (w : World)
      (next : InvocationResult → World → Result InvocationResult × World)
      → ((r : InvocationResult) → noted ≡ ok r → Running k m r)
      → ((r : InvocationResult) → Running k m r → Returns k n (next r w).0)
      → Returns k n (continue_with noted decision w next).0
  unfolding continue_with
  continue_with-Returns k m n (err e) decision w next here after = tt
  continue_with-Returns k m n (ok r) decision w next here after =
      after (with_decision decision r) (Running-decided decision r (here r refl))

  switch-Returns :
      (k m n : ℕ) (go : Bool) (noted : Result InvocationResult) (decision : String)
      (r : InvocationResult) (w : World)
      (next : InvocationResult → World → Result InvocationResult × World)
      → ((s : InvocationResult) → noted ≡ ok s → Running k m s)
      → Running k m r
      → (go ≡ true → (s : InvocationResult) → Running k m s → Returns k n (next s w).0)
      → m ≤ n
      → Returns k n (if go then continue_with noted decision w next else (ok r, w)).0
  switch-Returns k m n true noted decision r w next here stop after fits =
      continue_with-Returns k m n noted decision w next here (after refl)
  switch-Returns k m n false noted decision r w next here stop after fits =
      Answers-mono k k m n r (omega arith) fits (Answers-of_Running r stop)

  after_provider-Returns :
      (k m n : ℕ) (req : InvocationInput) (actions : Actions) (from : String)
      (rest : List (Adapter World)) (e : Ended × World)
      (next : InvocationResult → World → Result InvocationResult × World)
      → EndsWithin k m e.0
      → ((has_next rest && (actions.provider_switch || actions.fallback)) ≡ true
          → (s : InvocationResult) (w : World) → Running k m s
          → Returns k n (next s w).0)
      → m ≤ n
      → Returns k n (after_provider req actions from rest e next).0
  unfolding after_provider
  after_provider-Returns k m n req actions from rest (returned r, w) next h after fits =
      Answers-mono k k m n r (omega arith) fits h
  after_provider-Returns k m n req actions from rest (failed e, w) next h after fits = tt
  after_provider-Returns k m n req actions from rest (broke r, w) next h after fits =
      switch-Returns k m n (has_next rest && (actions.provider_switch || actions.fallback))
        (append_signal req Notice.provider_switch (switch_reason from (next_id rest)) r)
        (switch_decision actions) r w next
        (λ s e. Running-Noted r s (append_signal-Noted req Notice.provider_switch _ r s e) h) h
        (λ go s. after go s w) fits

another_fits :
    (sw : Bool) (m t n : ℕ) → sw ≡ true → m + t + t * rounds sw n ≤ m + t * rounds sw (suc n)
another_fits true m t n h = omega arith
another_fits false m t n h = cc

one_fits : (sw : Bool) (m t n : ℕ) → m + t ≤ m + t * rounds sw (suc n)
one_fits true m t n = omega arith
one_fits false m t n = omega arith

second_of : (a b : Bool) → (a && b) ≡ true → b ≡ true
second_of a b h = ground arith

-- At least one attempt is made unless there is no candidate, or none is allowed.
abbrev least_over : (providers max k : ℕ) → ℕ
least_over zero max k = k
least_over (suc n) max k = least_after max k

least_over-le : (providers max k : ℕ) → k ≤ least_over providers max k
least_over-le zero max k = omega arith
least_over-le (suc n) max k = least_after-le max k

module _ {World : Type 0} (cfg : Config) (req : InvocationInput) (actions : Actions)
    (count : ℕ) where
  providers_from-Returns :
      (as' : List (Adapter World)) (r : InvocationResult) (w : World) (k m : ℕ)
      → Running k m r
      → Returns
          (least_over (length as') cfg.max_attempts_per_provider k)
          (m
            + rounds actions.retry cfg.max_attempts_per_provider
              * rounds (actions.provider_switch || actions.fallback) (length as'))
          (providers_from cfg req actions count as' r w).0
  unfolding providers_from
  providers_from-Returns [] r w k m h =
      Answers-mono k k m _ r (omega arith) (omega arith) (Answers-of_Running r h)
  providers_from-Returns (a ∷ rest) r w k m h =
      let max = cfg.max_attempts_per_provider in
      let t = rounds actions.retry max in
      let sw = actions.provider_switch || actions.fallback in
      let k' = least_after max k in
      after_provider-Returns k' (m + t) (m + t * rounds sw (suc (length rest))) req actions
        a.provider_id rest _ (providers_from cfg req actions count rest)
        (attempts_from-EndsWithin cfg req actions count a max 1 r w k m h)
        (λ go s w' ready.
          Returns-mono k' (least_over (length rest) max k') (m + t + t * rounds sw (length rest))
            (m + t * rounds sw (suc (length rest))) _ (least_over-le (length rest) max k')
            (another_fits sw m t (length rest) (second_of _ _ go))
            (providers_from-Returns rest s w' k' (m + t) ready))
        (one_fits sw m t (length rest))

start_result-Running : (req : InvocationInput) → Running 0 0 (start_result req)
unfolding start_result errors failures
start_result-Running req = record {
  sound = record { announced = refl; latest = tt };
  all_failed = tt;
  at_least = omega arith;
  at_most = omega arith;
}

default_config-positive : (cfg : Config) → 1 ≤ (default_config cfg).max_attempts_per_provider
unfolding default_config
default_config-positive cfg = ground arith

one_tried : (n max : ℕ) → 1 ≤ max → rounds false n ≤ least_over n max 0
one_tried zero max h = omega arith
one_tried (suc n) zero h = omega arith
one_tried (suc n) (suc max) h = omega arith

-- The most attempts that an invocation makes.
abbrev pub most_attempts : Config → Actions → (found : ℕ) → ℕ
most_attempts cfg actions found =
    rounds actions.retry (default_config cfg).max_attempts_per_provider
    * rounds (actions.provider_switch || actions.fallback) found

Answers-of_Returns :
    (k m : ℕ) (x : Result InvocationResult) (r : InvocationResult)
    → x ≡ ok r
    → Returns k m x
    → Answers k m r
Answers-of_Returns k m (err e) r h a = cc
Answers-of_Returns k m (ok s) r h a = let e : s ≡ r = cc in rw (← e) a

module _ {World : Type 0} (cfg : Config) (req : InvocationInput) (found : List (Adapter World))
    (actions : Actions) (w : World) where
  invoke_with-Returns :
      Returns
        (rounds false (length found))
        (most_attempts cfg actions (length found))
        (invoke_with (default_config cfg) req found (ok actions) w).0
  unfolding invoke_with
  invoke_with-Returns =
      let max = (default_config cfg).max_attempts_per_provider in
      let most = most_attempts cfg actions (length found) in
      Returns-mono (rounds false (length found)) (least_over (length found) max 0) (0 + most) most _
        (one_tried (length found) max (default_config-positive cfg)) (omega arith)
        (providers_from-Returns (default_config cfg) req actions (length found) found
          (start_result req) w 0 0 (start_result-Running req))

module _ {World : Type 0} (catalog : Catalog World) (cfg : Config) (req : InvocationInput)
    (w : World) where
  pub invoke_live :
      (found : List (Adapter World)) (actions : Actions)
      → validate_input req ≡ ok tt
      → req.cancel_requested ≡ false
      → candidates catalog req.modality req.preferred_provider
          (default_config cfg).max_candidate_providers
        ≡ ok found
      → parse_adaptive_actions req.allowed_adaptive_actions ≡ ok actions
      → invoke catalog cfg req w ≡ invoke_with (default_config cfg) req found (ok actions) w
  unfolding invoke invoke_candidates
  invoke_live found actions valid live some_found parsed = rw (valid, some_found, live, parsed) refl

  invoke_refused : (e : String) → validate_input req ≡ err e → (invoke catalog cfg req w).0 ≡ err e
  unfolding invoke invoke_candidates
  invoke_refused e refused = rw refused refl

-- Whatever the adapters answer, an invocation that is not cancelled and that returns a result made at
-- least one attempt (if there is a candidate) and at most one per provider, or as many as configured
-- with the retry action, at one provider, or at every candidate with a switch or fallback action. All
-- attempts but the last failed, the outcome and the provider are those of the last attempt, and the
-- result announces exactly one provider_error for each failed attempt.
pub invoke-Answers :
    {World : Type 0} (catalog : Catalog World) (cfg : Config) (req : InvocationInput) (w : World)
    (found : List (Adapter World)) (actions : Actions) (r : InvocationResult)
    → req.cancel_requested ≡ false
    → candidates catalog req.modality req.preferred_provider
        (default_config cfg).max_candidate_providers
      ≡ ok found
    → parse_adaptive_actions req.allowed_adaptive_actions ≡ ok actions
    → (invoke catalog cfg req w).0 ≡ ok r
    → Answers (rounds false (length found)) (most_attempts cfg actions (length found)) r
invoke-Answers catalog cfg req w found actions r live some_found parsed h =
    elim (Result-cases (validate_input req)) [
      | inl (tt, valid) ↦
          Answers-of_Returns (rounds false (length found))
            (most_attempts cfg actions (length found)) _ r
            (ap (λ x. x.0)
                (sym (invoke_live catalog cfg req w found actions valid live some_found parsed))
              ∙ h)
            (invoke_with-Returns cfg req found actions w)
      | inr (e, refused) ↦ refused_ok e (sym (invoke_refused catalog cfg req w e refused) ∙ h)
    ]
  where
    refused_ok :
        (e : String)
        → err e ≡ ok r
        → Answers (rounds false (length found)) (most_attempts cfg actions (length found)) r
    refused_ok e bad = cc
