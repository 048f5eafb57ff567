-- ===== src/EventAbi/Signal/Rules.antt =====
-- What an accepted control signal of api/eventabi/types.go is: who may emit it and what it carries.
use realtime_speech_pipeline.Base.{
  ◌≡◌, refl, Bool, true, false, not, ◌&&◌, ◌||◌, List, [], ◌∷◌, Result, ok, refuse_if, Passed,
  Passed-of_all_pass, refuse_if-eq-ok, or_false3, arith,
}
use realtime_speech_pipeline.Base.Int.{is_negative}
use realtime_speech_pipeline.Base.Text.{is_empty}
use realtime_speech_pipeline.EventAbi.Types.{
  is_lane, no_lane, is_control_lane, is_turn_scope, is_session_scope, is_metadata,
  is_control_signal_name, no_signal, is_control_signal_emitter, absent_or_negative,
}
use realtime_speech_pipeline.EventAbi.SchemaVersion.{matches_schema_version}
use realtime_speech_pipeline.EventAbi.Signal.{
  ControlSignal, validate, validate_envelope, early_rules, range_rule, late_rules, given_below_one,
}

-- The parts of a validation that passed.
pub record Validated (c : ControlSignal) : Type 0 where
  pub envelope : validate_envelope c ≡ ok tt
  pub early : early_rules c.signal c ≡ ok tt
  pub range : range_rule c.seq_range ≡ ok tt
  pub late : late_rules c.signal c ≡ ok tt

pub validate-Validated : (c : ControlSignal) → validate c ≡ ok tt → Validated c
unfolding validate
validate-Validated c h =
    let (a, (b, (d, (e, _)))) =
      Passed-of_all_pass
        (validate_envelope c
          ∷ early_rules c.signal c
          ∷ range_rule c.seq_range
          ∷ late_rules c.signal c
          ∷ [])
        h in
    record { envelope = a; early = b; range = d; late = e }

-- The facts of the envelope.
pub record Envelope (c : ControlSignal) : Type 0 where
  pub version : matches_schema_version c.schema_version ≡ true
  pub scoped : (is_session_scope c.event_scope || is_turn_scope c.event_scope) ≡ true
  pub turn_given : (is_turn_scope c.event_scope && is_empty c.turn_id) ≡ false
  pub session_given : is_empty c.session_id ≡ false
  pub pipeline_given : is_empty c.pipeline_version ≡ false
  pub event_given : is_empty c.event_id ≡ false
  pub on_control_lane : is_control_lane c.lane ≡ true
  pub target_known : (not (no_lane c.target_lane) && not (is_lane c.target_lane)) ≡ false
  pub metadata_only : is_metadata c.payload_class ≡ true
  pub transport_given : absent_or_negative c.transport_sequence ≡ false
  pub runtime_counted : is_negative c.runtime_sequence ≡ false
  pub runtime_time : is_negative c.runtime_timestamp_ms ≡ false
  pub wall_time : is_negative c.wall_clock_ms ≡ false
  pub amount_positive : given_below_one c.amount ≡ false
  pub named : is_control_signal_name c.signal ≡ true
  pub emitter_known : is_control_signal_emitter c.emitted_by ≡ true

false_of_not : (b : Bool) → not b ≡ false → b ≡ true
false_of_not b h = ground arith

not_both : (a b : Bool) → (not a && not b) ≡ false → (a || b) ≡ true
not_both a b h = ground arith

pub validate_envelope-Envelope : (c : ControlSignal) → validate_envelope c ≡ ok tt → Envelope c
unfolding validate_envelope
validate_envelope-Envelope c h = facts (Passed-of_all_pass checks h)
  where
    checks : List (Result (Unit {0}))
    checks =
        refuse_if (not (matches_schema_version c.schema_version)) "invalid schema_version: %q"
        ∷ refuse_if (not (is_session_scope c.event_scope) && not (is_turn_scope c.event_scope))
            "invalid event_scope: %q"
        ∷ refuse_if (is_turn_scope c.event_scope && is_empty c.turn_id)
            "turn_id is required when event_scope=turn"
        ∷ refuse_if (is_empty c.session_id || is_empty c.pipeline_version || is_empty c.event_id)
            "session_id, pipeline_version, and event_id are required"
        ∷ refuse_if (not (is_control_lane c.lane)) "control_signal lane must be ControlLane"
        ∷ refuse_if (not (no_lane c.target_lane) && not (is_lane c.target_lane))
            "invalid target_lane: %q"
        ∷ refuse_if (not (is_metadata c.payload_class))
            "control_signal payload_class must be metadata"
        ∷ refuse_if (absent_or_negative c.transport_sequence)
            "transport_sequence is required and must be >=0"
        ∷ refuse_if
            (is_negative c.runtime_sequence
              || is_negative c.runtime_timestamp_ms
              || is_negative c.wall_clock_ms)
            "runtime sequence and timestamps must be >=0"
        ∷ refuse_if (given_below_one c.amount) "amount must be >=1 when present"
        ∷ refuse_if (no_signal c.signal) "signal is required"
        ∷ refuse_if (not (is_control_signal_name c.signal)) "invalid signal: %q"
        ∷ refuse_if (not (is_control_signal_emitter c.emitted_by)) "invalid emitted_by: %q"
        ∷ []

    facts : Passed checks → Envelope c
    facts (v, (sc, (tn, (ids, (l, (tl, (pc, (ts, (nums, (am, (sg, (nm, (em, _))))))))))))) =
        let (s, p, e) = or_false3 _ _ _ (refuse_if-eq-ok _ _ ids) in
        let (rs, rt, wt) = or_false3 _ _ _ (refuse_if-eq-ok _ _ nums) in
        record {
          version = false_of_not _ (refuse_if-eq-ok _ _ v);
          scoped = not_both _ _ (refuse_if-eq-ok _ _ sc);
          turn_given = refuse_if-eq-ok _ _ tn;
          session_given = s;
          pipeline_given = p;
          event_given = e;
          on_control_lane = false_of_not _ (refuse_if-eq-ok _ _ l);
          target_known = refuse_if-eq-ok _ _ tl;
          metadata_only = false_of_not _ (refuse_if-eq-ok _ _ pc);
          transport_given = refuse_if-eq-ok _ _ ts;
          runtime_counted = rs;
          runtime_time = rt;
          wall_time = wt;
          amount_positive = refuse_if-eq-ok _ _ am;
          named = false_of_not _ (refuse_if-eq-ok _ _ nm);
          emitter_known = false_of_not _ (refuse_if-eq-ok _ _ em);
        }

pub validate-Envelope : (c : ControlSignal) → validate c ≡ ok tt → Envelope c
validate-Envelope c h = validate_envelope-Envelope c (validate-Validated c h).envelope

pub Validated-validate : (c : ControlSignal) → Validated c → validate c ≡ ok tt
unfolding validate
Validated-validate c v = rw (v.envelope, v.early, v.range, v.late) refl
