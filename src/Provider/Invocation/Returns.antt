-- ===== src/Provider/Invocation/Returns.antt =====
-- When Invoke of internal/runtime/provider/invocation/controller.go returns a result and no error.
use realtime_speech_pipeline.Base.{
  ℕ, zero, suc, ◌+◌, ◌*◌, ◌≤◌, ◌≡◌, refl, ap, String, Bool, true, false, ◌&&◌, ◌||◌, List, [], ◌∷◌,
  Result, ok, err, arith, if◌then◌else◌, ltb,
}
use realtime_speech_pipeline.Base.Lists.{All, length}
use realtime_speech_pipeline.Provider.Contracts.{
  Outcome, Adapter, InvocationRequest, is_success, validate_outcome,
}
use realtime_speech_pipeline.Provider.Catalog.{Catalog, candidates}
use realtime_speech_pipeline.Provider.Requests.{
  Config, InvocationInput, InvocationResult, Actions, Notice, note_failure, note_circuit,
  failure_reason, circuit_reason, record_attempt, switch_reason, answered, default_config,
  validate_input, parse_adaptive_actions,
}
use realtime_speech_pipeline.Provider.Invocation.{
  Ended, returned, broke, failed, has_next, next_id, switch_decision, with_decision, retry_or_break,
  after_attempt, if_valid, attempts_from, request, after_provider, continue_with, providers_from,
  start_result, invoke_with, invoke,
}
use realtime_speech_pipeline.Provider.Invocation.Bounds.{invoke_live}
use realtime_speech_pipeline.Provider.Invocation.Notices.{
  Headroom, Named, Named-of_valid, Grows, append_signal-Grows, failure_reason-given,
  circuit_reason-given, switch_reason-given,
}

-- An adapter keeps its contract: each outcome that it gives is one that Outcome.Validate accepts.
abbrev pub IsSound : {World : Type 0} → Adapter World → Type 0
IsSound {World} a =
    (q : InvocationRequest) (w : World) → validate_outcome (answered (a.invoke q w).0) ≡ ok tt

note_circuit-Grows :
    (on : Bool) (req : InvocationInput) (id : String) (o : Outcome) (r : InvocationResult) (b : ℕ)
    → Named req
    → Headroom req b
    → length r.signals ≤ b
    → Grows 1 r (note_circuit on req id o r)
unfolding note_circuit
note_circuit-Grows true req id o r b named room fits =
    append_signal-Grows req Notice.circuit_event (circuit_reason id o) r b named room fits
      (circuit_reason-given id o)
note_circuit-Grows false req id o r b named room fits = record {
  result = r;
  is_ok = refl;
  size = omega arith;
}

note_failure-Grows :
    (req : InvocationInput) (id : String) (o : Outcome) (r : InvocationResult) (b : ℕ)
    → Named req
    → Headroom req b
    → length r.signals + 1 ≤ b
    → Grows 2 r (note_failure req id o r)
unfolding note_failure
note_failure-Grows req id o r b named room fits =
    let first =
      append_signal-Grows req Notice.provider_error (failure_reason id o) r b named room
        (omega (arith, fits)) (failure_reason-given id o) in
    let second =
      note_circuit-Grows o.circuit_open req id o first.result b named room
        (omega (arith, fits, first.size)) in
    record {
      result = second.result;
      is_ok = rw first.is_ok second.is_ok;
      size = omega (arith, first.size, second.size);
    }

-- The end of a round that is no error, with at most `b` signals where the loop goes on.
abbrev EndsWell : ℕ → Ended → Type 0
EndsWell b (returned r) = Unit
EndsWell b (broke r) = length r.signals ≤ b
EndsWell b (failed e) = ⊥

module _ {World : Type 0} where
  retry_or_break-EndsWell :
      (b n : ℕ) (r : InvocationResult) (noted : Result InvocationResult) (more : Bool) (w : World)
      (again : InvocationResult → World → Ended × World)
      → Grows n r noted
      → length r.signals + n ≤ b
      → ((s : InvocationResult)
          → length s.signals ≤ length r.signals + n
          → EndsWell b (again s w).0)
      → EndsWell b (retry_or_break noted more w again).0
  unfolding retry_or_break with_decision
  retry_or_break-EndsWell b n r (err e) more w again g fits next = cc g.is_ok
  retry_or_break-EndsWell b n r (ok s) true w again g fits next =
      next (with_decision "retry" s) (same s g)
    where
      same : (s : InvocationResult) → Grows n r (ok s) → length s.signals ≤ length r.signals + n
      same s g = let e : s ≡ g.result = cc g.is_ok in rw e g.size
  retry_or_break-EndsWell b n r (ok s) false w again g fits next =
      let e : s ≡ g.result = cc g.is_ok in rw e (omega (arith, g.size, fits))

  after_attempt-EndsWell :
      (b n : ℕ) (success : Bool) (r : InvocationResult) (noted : Result InvocationResult)
      (more : Bool) (w : World) (again : InvocationResult → World → Ended × World)
      → Grows n r noted
      → length r.signals + n ≤ b
      → ((s : InvocationResult)
          → length s.signals ≤ length r.signals + n
          → EndsWell b (again s w).0)
      → EndsWell b (after_attempt success r noted more w again).0
  unfolding after_attempt
  after_attempt-EndsWell b n true r noted more w again g fits next = tt
  after_attempt-EndsWell b n false r noted more w again g fits next =
      retry_or_break-EndsWell b n r noted more w again g fits next

  if_valid-EndsWell :
      (b : ℕ) (check : Result (Unit {0})) (w : World) (rest : Ended × World)
      → check ≡ ok tt
      → EndsWell b rest.0
      → EndsWell b (if_valid check w rest).0
  unfolding if_valid
  if_valid-EndsWell b (ok u) w rest valid h = h
  if_valid-EndsWell b (err e) w rest valid h = cc valid

record_attempt-signals :
    (id : String) (n : ℕ) (o : Outcome) (r : InvocationResult)
    → (record_attempt id n o r).signals ≡ r.signals
unfolding record_attempt
record_attempt-signals id n o r = refl

module _ {World : Type 0} (cfg : Config) (req : InvocationInput) (actions : Actions) (count : ℕ)
    (adapter : Adapter World) (b : ℕ) (named : Named req) (room : Headroom req b)
    (sound : IsSound adapter) where
  attempts_from-EndsWell :
      (left attempt : ℕ) (r : InvocationResult) (w : World) (c : ℕ)
      → length r.signals + 2 * left ≤ c
      → c ≤ b
      → EndsWell c (attempts_from cfg req actions count adapter left attempt r w).0
  unfolding attempts_from
  attempts_from-EndsWell zero attempt r w c fits top = omega (arith, fits)
  attempts_from-EndsWell (suc left) attempt r w c fits top =
      let q = request cfg req actions count adapter r.provider_invocation_id attempt in
      let o = answered (adapter.invoke q w).0 in
      let recorded = record_attempt adapter.provider_id attempt o r in
      let kept = record_attempt-signals adapter.provider_id attempt o r in
      let size : length recorded.signals ≡ length r.signals = ap length kept in
      if_valid-EndsWell c (validate_outcome o) (adapter.invoke q w).1 _ (sound q w) (
        after_attempt-EndsWell c 2 (is_success o.class) recorded
          (note_failure req adapter.provider_id o recorded)
          (o.retryable && actions.retry && ltb attempt cfg.max_attempts_per_provider)
          (adapter.invoke q w).1 (attempts_from cfg req actions count adapter left (suc attempt))
          (note_failure-Grows req adapter.provider_id o recorded b named room
            (omega (arith, size, fits, top)))
          (omega (arith, size, fits))
          (λ s grown.
            attempts_from-EndsWell left (suc attempt) s (adapter.invoke q w).1 c
              (omega (arith, size, fits, grown)) top))

abbrev IsOk : Result InvocationResult → Type 0
IsOk (ok r) = Unit
IsOk (err e) = ⊥

module _ {World : Type 0} where
  continue_with-IsOk :
      (n : ℕ) (r : InvocationResult) (noted : Result InvocationResult) (decision : String)
      (w : World) (next : InvocationResult → World → Result InvocationResult × World)
      → Grows n r noted
      → ((s : InvocationResult) → length s.signals ≤ length r.signals + n → IsOk (next s w).0)
      → IsOk (continue_with noted decision w next).0
  unfolding continue_with with_decision
  continue_with-IsOk n r (err e) decision w next g after = cc g.is_ok
  continue_with-IsOk n r (ok s) decision w next g after =
      let e : s ≡ g.result = cc g.is_ok in after (with_decision decision s) (rw e g.size)

  either-IsOk :
      (go : Bool) (x : Result InvocationResult × World) (r : InvocationResult) (w : World)
      → IsOk x.0
      → IsOk (if go then x else (ok r, w)).0
  either-IsOk true x r w h = h
  either-IsOk false x r w h = tt

  after_provider-IsOk :
      (c b : ℕ) (req : InvocationInput) (actions : Actions) (from : String)
      (rest : List (Adapter World)) (e : Ended × World)
      (next : InvocationResult → World → Result InvocationResult × World)
      → Named req
      → Headroom req b
      → c ≤ b
      → EndsWell c e.0
      → ((s : InvocationResult) (w : World) → length s.signals ≤ c + 1 → IsOk (next s w).0)
      → IsOk (after_provider req actions from rest e next).0
  unfolding after_provider
  after_provider-IsOk c b req actions from rest (returned r, w) next named room top h after = tt
  after_provider-IsOk c b req actions from rest (failed e, w) next named room top h after = h
  after_provider-IsOk c b req actions from rest (broke r, w) next named room top h after =
      either-IsOk (has_next rest && (actions.provider_switch || actions.fallback)) _ r w (
        continue_with-IsOk 1 r _ (switch_decision actions) w next
          (append_signal-Grows req Notice.provider_switch (switch_reason from (next_id rest)) r b
            named room (omega (arith, h, top)) (switch_reason-given from (next_id rest)))
          (λ s grown. after s w (omega (arith, grown, h))))

-- The most signals of an invocation: two for each attempt and one for each switch.
abbrev pub most_signals : Config → (found : ℕ) → ℕ
most_signals cfg found = (2 * cfg.max_attempts_per_provider + 1) * found

module _ {World : Type 0} (cfg : Config) (req : InvocationInput) (actions : Actions) (count b : ℕ)
    (named : Named req) (room : Headroom req b) where
  providers_from-IsOk :
      (as' : List (Adapter World)) (r : InvocationResult) (w : World)
      → All IsSound as'
      → length r.signals + most_signals cfg (length as') ≤ b
      → IsOk (providers_from cfg req actions count as' r w).0
  unfolding providers_from
  providers_from-IsOk [] r w sound fits = tt
  providers_from-IsOk (a ∷ rest) r w sound fits =
      let max = cfg.max_attempts_per_provider in
      let c = length r.signals + 2 * max in
      after_provider-IsOk c b req actions a.provider_id rest _
        (providers_from cfg req actions count rest) named room (omega (arith, fits))
        (attempts_from-EndsWell cfg req actions count a b named room sound.0 max 1 r w c
          (omega arith) (omega (arith, fits)))
        (λ s w' grown. providers_from-IsOk rest s w' sound.1 (omega (arith, grown, fits)))

start_result-signals : (req : InvocationInput) → length (start_result req).signals ≡ 0
unfolding start_result
start_result-signals req = refl

result_of_ok : (x : Result InvocationResult) → IsOk x → (r : InvocationResult) × (x ≡ ok r)
result_of_ok (ok r) h = (r, refl)
result_of_ok (err e) h = absurd h

module _ {World : Type 0} where
  invoke_with-IsOk :
      (cfg : Config) (req : InvocationInput) (found : List (Adapter World)) (actions : Actions)
      (w : World)
      → Named req
      → Headroom req (most_signals cfg (length found))
      → All IsSound found
      → IsOk (invoke_with cfg req found (ok actions) w).0
  unfolding invoke_with
  invoke_with-IsOk cfg req found actions w named room sound =
      providers_from-IsOk cfg req actions (length found) (most_signals cfg (length found)) named
        room found (start_result req) w sound (omega (arith, start_result-signals req))

-- A valid request that is not cancelled, with known adaptive actions and some candidates, always gets
-- a result and no error, if each candidate's outcomes are valid ones and the sequences and times of the
-- request leave room for the signals: two per attempt and one per provider.
pub invoke-returns :
    {World : Type 0} (catalog : Catalog World) (cfg : Config) (req : InvocationInput) (w : World)
    (found : List (Adapter World)) (actions : Actions)
    → validate_input req ≡ ok tt
    → req.cancel_requested ≡ false
    → candidates catalog req.modality req.preferred_provider
        (default_config cfg).max_candidate_providers
      ≡ ok found
    → parse_adaptive_actions req.allowed_adaptive_actions ≡ ok actions
    → All IsSound found
    → Headroom req (most_signals (default_config cfg) (length found))
    → (r : InvocationResult) × ((invoke catalog cfg req w).0 ≡ ok r)
invoke-returns catalog cfg req w found actions valid live some_found parsed sound room =
    result_of_ok (invoke catalog cfg req w).0 (
      rw (invoke_live catalog cfg req w found actions valid live some_found parsed) (
        invoke_with-IsOk (default_config cfg) req found actions w (Named-of_valid req valid) room
          sound))
