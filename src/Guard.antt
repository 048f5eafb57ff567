-- ===== src/Guard.antt =====
-- internal/runtime/guard: RK-24 authority checks before a turn and in it and ingress enrichment.
pub mod Migration
pub mod Authority
use realtime_speech_pipeline.Base.{
  String, Bool, true, false, Option, none, some, Result, ok, err, ◌>>◌, refuse_if, if◌then◌else◌,
}
use realtime_speech_pipeline.Base.Int.{ℤ, is_negative}
use realtime_speech_pipeline.Base.Text.{is_empty}
use realtime_speech_pipeline.ControlPlane.Outcome.{
  OutcomeKind, OutcomePhase, OutcomeScope, OutcomeEmitter, DecisionOutcome,
}

pub record PreTurnInput : Type 0 where
  pub session_id : String
  pub turn_id : String
  pub event_id : String
  pub runtime_timestamp_ms : ℤ
  pub wall_clock_timestamp_ms : ℤ
  pub authority_epoch : ℤ
  pub authority_epoch_valid : Bool
  pub authority_authorized : Bool

pub record PreTurnResult : Type 0 where
  pub allowed : Bool
  pub outcome : Option DecisionOutcome

unfoldable pub authority_outcome : PreTurnInput → OutcomeKind → String → DecisionOutcome
authority_outcome req kind reason = record {
  outcome_kind = kind;
  phase = OutcomePhase.pre_turn;
  scope = if is_empty req.turn_id then OutcomeScope.session else OutcomeScope.turn;
  session_id = req.session_id;
  turn_id = req.turn_id;
  event_id = req.event_id;
  runtime_timestamp_ms = req.runtime_timestamp_ms;
  wall_clock_ms = req.wall_clock_timestamp_ms;
  emitted_by = OutcomeEmitter.rk24;
  authority_epoch = some req.authority_epoch;
  reason = reason;
}

unfoldable pub evaluate_pre_turn : PreTurnInput → PreTurnResult
evaluate_pre_turn req =
    if req.authority_epoch_valid
    then (if req.authority_authorized then record { allowed = true; outcome = none } else record {
      allowed = false;
      outcome =
          some
            (authority_outcome req OutcomeKind.deauthorized_drain "authority_revoked_before_open");
    })
    else record {
      allowed = false;
      outcome =
          some (authority_outcome req OutcomeKind.stale_epoch_reject "authority_epoch_mismatch");
    }

-- Evaluate is EvaluatePreTurn.
unfoldable pub evaluate : PreTurnInput → PreTurnResult
unfolding evaluate_pre_turn
evaluate req = evaluate_pre_turn req

unfoldable pub active_turn_revoke_outcome :
    (session_id turn_id event_id : String) (runtime_ts wall_ts authority_epoch : ℤ)
    → DecisionOutcome
active_turn_revoke_outcome session_id turn_id event_id runtime_ts wall_ts authority_epoch = record {
  outcome_kind = OutcomeKind.deauthorized_drain;
  phase = OutcomePhase.active_turn;
  scope = OutcomeScope.turn;
  session_id = session_id;
  turn_id = turn_id;
  event_id = event_id;
  runtime_timestamp_ms = runtime_ts;
  wall_clock_ms = wall_ts;
  emitted_by = OutcomeEmitter.rk24;
  authority_epoch = some authority_epoch;
  reason = "authority_revoked_in_turn";
}

pub record IngressAuthorityInput : Type 0 where
  pub session_id : String
  pub turn_id : String
  pub carrier_authority_epoch : Option ℤ
  pub routing_view_epoch : ℤ

pub record IngressAuthorityResult : Type 0 where
  pub authority_epoch : ℤ
  pub enriched : Bool
  pub source : String

-- From the carrier's epoch on.
unfoldable pub enrich_from : Option ℤ → ℤ → Result IngressAuthorityResult
enrich_from (some epoch) routing = do
  refuse_if (is_negative epoch) "carrier authority epoch must be >= 0"
  ok (record { authority_epoch = epoch; enriched = false; source = "carrier" })
enrich_from none routing =
    ok (record { authority_epoch = routing; enriched = true; source = "routing_view" })

unfoldable pub enrich_ingress_authority : IngressAuthorityInput → Result IngressAuthorityResult
enrich_ingress_authority req = do
  refuse_if (is_empty req.session_id) "session_id is required"
  refuse_if (is_negative req.routing_view_epoch) "routing view epoch must be >= 0"
  enrich_from req.carrier_authority_epoch req.routing_view_epoch
