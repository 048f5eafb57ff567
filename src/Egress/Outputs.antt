-- ===== src/Egress/Outputs.antt =====
-- What internal/runtime/transport/fence.go lets out, over any sequence of attempts.
use realtime_speech_pipeline.Base.{
  ◌≡◌, refl, String, Bool, true, false, not, List, [], ◌∷◌, Result, ok, err, arith, Bool-cases, inl,
  inr, ◌⊎◌,
}
use realtime_speech_pipeline.EventAbi.Signal
use realtime_speech_pipeline.EventAbi.Gateway.{fill_signal, follows}
use realtime_speech_pipeline.EventAbi.Gateway.Batches.{IsAccepted, gateway_of_filled}
use realtime_speech_pipeline.Cancellation.{Fence, turn_key, is_fenced}
use realtime_speech_pipeline.Cancellation.Keys.{is_fenced-accept, accept-keeps}
use realtime_speech_pipeline.Egress.{
  OutputAttempt, OutputDecision, output_signal, decide, accept_cancel, evaluate_accepted, lacks_id,
  evaluate_output,
}

output_signal-IsAccepted :
    (req : OutputAttempt) (canceled : Bool)
    → lacks_id req ≡ false
    → IsAccepted (output_signal req canceled)
unfolding Signal.validation output_signal
output_signal-IsAccepted req true h = ground arith
output_signal-IsAccepted req false h = ground arith

fill-output_signal :
    (req : OutputAttempt) (canceled : Bool)
    → fill_signal (output_signal req canceled) ≡ output_signal req canceled
unfolding fill_signal output_signal
fill-output_signal req canceled = ground arith

abbrev pub decision : OutputAttempt → Bool → OutputDecision
decision req canceled = record { accepted = not canceled; signal = output_signal req canceled }

decide-ok :
    (req : OutputAttempt) (canceled : Bool)
    → lacks_id req ≡ false
    → decide req canceled ≡ ok (decision req canceled)
unfolding decide follows
decide-ok req canceled h =
    let valid = output_signal-IsAccepted req canceled h in
    let passes =
      gateway_of_filled (output_signal req canceled ∷ []) (cc (fill-output_signal req canceled))
        (valid, tt) (refl, tt) in
    rw (valid, passes) refl

-- The fence after the attempt's own cancellation, if it carries one.
abbrev pub fence_after : OutputAttempt → Fence → Fence
fence_after req f = (accept_cancel req.cancel_accepted req f).0

decided_ok :
    (req : OutputAttempt) (g : Fence)
    → lacks_id req ≡ false
    → evaluate_accepted req (g, ok tt)
      ≡ (g, ok (decision req (is_fenced g req.session_id req.turn_id)))
unfolding evaluate_accepted
decided_ok req g ids = rw (decide-ok req (is_fenced g req.session_id req.turn_id) ids) refl

-- An attempt with all of its ids, whose cancellation (if it carries one) names a turn, is always
-- decided: it is let out exactly when the fence, with that cancellation taken in, does not hold its
-- turn, and the marker says which.
evaluate_output-decided :
    (f : Fence) (req : OutputAttempt)
    → lacks_id req ≡ false
    → (accept_cancel req.cancel_accepted req f).1 ≡ ok tt
    → evaluate_output f req ≡ (
      fence_after req f,
      ok (decision req (is_fenced (fence_after req f) req.session_id req.turn_id)),
    )
unfolding evaluate_output
evaluate_output-decided f req ids taken =
    rw ids (decided (accept_cancel req.cancel_accepted req f) taken)
  where
    decided :
        (r : Fence × Result (Unit {0}))
        → r.1 ≡ ok tt
        → evaluate_accepted req r
          ≡ (r.0, ok (decision req (is_fenced r.0 req.session_id req.turn_id)))
    decided (g, ok tt) h = decided_ok req g ids
    decided (g, err e) h = cc

-- The fence after a sequence of attempts, in the order in which they take effect.
unfoldable pub run_fence : Fence → List OutputAttempt → Fence
run_fence f [] = f
run_fence f (req ∷ reqs) = run_fence (evaluate_output f req).0 reqs

evaluate_accepted-fence :
    (req : OutputAttempt) (r : Fence × Result (Unit {0})) → (evaluate_accepted req r).0 ≡ r.0
unfolding evaluate_accepted
evaluate_accepted-fence req (f, ok u) = refl
evaluate_accepted-fence req (f, err e) = refl

evaluate_output-fence :
    (f : Fence) (req : OutputAttempt)
    → ((evaluate_output f req).0 ≡ f) ⊎ ((evaluate_output f req).0 ≡ fence_after req f)
unfolding evaluate_output
evaluate_output-fence f req = elim (Bool-cases (lacks_id req)) [
  | inl lacks ↦ inl (rw lacks refl)
  | inr has ↦ inr (rw has (evaluate_accepted-fence req (accept_cancel req.cancel_accepted req f)))
]

accept_cancel-keeps :
    (b : Bool) (req : OutputAttempt) (f : Fence) (s t : String)
    → is_fenced f s t ≡ true
    → is_fenced (accept_cancel b req f).0 s t ≡ true
unfolding accept_cancel
accept_cancel-keeps true req f s t h = accept-keeps f req.session_id req.turn_id s t h
accept_cancel-keeps false req f s t h = h

evaluate_output-keeps :
    (f : Fence) (req : OutputAttempt) (s t : String)
    → is_fenced f s t ≡ true
    → is_fenced (evaluate_output f req).0 s t ≡ true
evaluate_output-keeps f req s t h = elim (evaluate_output-fence f req) [
  | inl same ↦ rw same h
  | inr taken ↦ rw taken (accept_cancel-keeps req.cancel_accepted req f s t h)
]

run_fence-keeps :
    (f : Fence) (reqs : List OutputAttempt) (s t : String)
    → is_fenced f s t ≡ true
    → is_fenced (run_fence f reqs) s t ≡ true
unfolding run_fence
run_fence-keeps f [] s t h = h
run_fence-keeps f (req ∷ reqs) s t h =
    run_fence-keeps (evaluate_output f req).0 reqs s t (evaluate_output-keeps f req s t h)

cancel_fences_at :
    (c : Bool) (a : OutputAttempt) (f : Fence) (s t : String) {key : String}
    → c ≡ true
    → turn_key a.session_id a.turn_id ≡ ok key
    → turn_key s t ≡ ok key
    → is_fenced (accept_cancel c a f).0 s t ≡ true
unfolding accept_cancel
cancel_fences_at true a f s t on ka kb =
    (is_fenced-accept f a.session_id a.turn_id s t ka).1 (inl kb)
cancel_fences_at false a f s t on ka kb = cc

cancel_fences :
    (f : Fence) (a : OutputAttempt) (s t : String) {key : String}
    → a.cancel_accepted ≡ true
    → lacks_id a ≡ false
    → turn_key a.session_id a.turn_id ≡ ok key
    → turn_key s t ≡ ok key
    → is_fenced (evaluate_output f a).0 s t ≡ true
unfolding evaluate_output
cancel_fences f a s t on ids ka kb =
    rw (ids, evaluate_accepted-fence a (accept_cancel a.cancel_accepted a f))
      (cancel_fences_at a.cancel_accepted a f s t on ka kb)

fenced_out_at :
    (b : OutputAttempt) (d : OutputDecision) (r : Fence × Result (Unit {0}))
    → lacks_id b ≡ false
    → is_fenced r.0 b.session_id b.turn_id ≡ true
    → (evaluate_accepted b r).1 ≡ ok d
    → d ≡ decision b true
unfolding evaluate_accepted
fenced_out_at b d (g, err e) ids held h = cc
fenced_out_at b d (g, ok u) ids held h = cc (decide-ok b true ids)

-- What an attempt of a turn that the fence already holds can come to.
fenced_out :
    (f : Fence) (b : OutputAttempt) (d : OutputDecision)
    → is_fenced f b.session_id b.turn_id ≡ true
    → (evaluate_output f b).1 ≡ ok d
    → d ≡ decision b true
unfolding evaluate_output
fenced_out f b d held h = elim (Bool-cases (lacks_id b)) [
  | inl lacks ↦ absurd_ok (rw lacks at h)
  | inr has ↦
      fenced_out_at b d (accept_cancel b.cancel_accepted b f) has
        (accept_cancel-keeps b.cancel_accepted b f b.session_id b.turn_id held) (rw has at h)
]
  where
    absurd_ok :
        err "session_id, turn_id, pipeline_version, and event_id are required" ≡ ok d
        → d ≡ decision b true
    absurd_ok e = cc

-- After an attempt that carried the accepted cancellation of a turn, whatever attempts come between,
-- every output of a turn with the same key is held back and marked playback_cancelled, or refused
-- with an error: none is let out.
pub cancelled_stays :
    (f : Fence) (a : OutputAttempt) (between : List OutputAttempt) (b : OutputAttempt)
    (d : OutputDecision) {key : String}
    → a.cancel_accepted ≡ true
    → lacks_id a ≡ false
    → turn_key a.session_id a.turn_id ≡ ok key
    → turn_key b.session_id b.turn_id ≡ ok key
    → (evaluate_output (run_fence f (a ∷ between)) b).1 ≡ ok d
    → d ≡ decision b true
unfolding run_fence
cancelled_stays f a between b d on ids ka kb h =
    fenced_out (run_fence (evaluate_output f a).0 between) b d
      (run_fence-keeps (evaluate_output f a).0 between b.session_id b.turn_id
        (cancel_fences f a b.session_id b.turn_id on ids ka kb))
      h
