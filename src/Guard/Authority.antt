-- ===== src/Guard/Authority.antt =====
-- What the authority decisions of internal/runtime/guard/guard.go are.
use realtime_speech_pipeline.Base.{◌≡◌, String, false, ◌&&◌, ok, arith}
use realtime_speech_pipeline.Base.Int.{ℤ}
use realtime_speech_pipeline.Base.Text.{is_empty}
use realtime_speech_pipeline.ControlPlane.Outcome
use realtime_speech_pipeline.LocalAdmission.Decisions.{IsStamped, Decided}
use realtime_speech_pipeline.Guard.{
  PreTurnInput, evaluate, authority_outcome, active_turn_revoke_outcome,
}

-- For a stamped request the guard lets a turn open exactly when its epoch is valid and it is
-- authorized, and then says nothing; otherwise its outcome is one that the control plane accepts.
evaluate-Decided :
    (req : PreTurnInput)
    → IsStamped req.session_id req.event_id req.runtime_timestamp_ms req.wall_clock_timestamp_ms
    → ((evaluate req).allowed ≡ (req.authority_epoch_valid && req.authority_authorized))
      × Decided (evaluate req).allowed (evaluate req).outcome
unfolding evaluate authority_outcome Outcome.validation
evaluate-Decided req s = (ground arith, ground arith)

pub revoke-accepted :
    (s t v : String) (runtime wall epoch : ℤ)
    → IsStamped s v runtime wall
    → is_empty t ≡ false
    → Outcome.validate (active_turn_revoke_outcome s t v runtime wall epoch) ≡ ok tt
unfolding active_turn_revoke_outcome Outcome.validation
revoke-accepted s t v runtime wall epoch h g = ground arith
