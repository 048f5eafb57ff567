-- ===== src/ControlPlane/Outcome/Rules.antt =====
-- Which decision outcomes the contract allows, as a table of who may decide what, where, and which of
-- them api/controlplane/types.go accepts.
use realtime_speech_pipeline.Base.{
  ◌≡◌, ◌↔◌, Bool, true, false, Option, none, some, refl, or_false, or_false3, List, [], ◌∷◌, Result,
  ok, refuse_if, Passed, Passed-of_all_pass, refuse_if-eq-ok, not, ◌&&◌, ◌||◌, arith,
}
use realtime_speech_pipeline.Base.Int.{ℤ, pos, is_negative}
use realtime_speech_pipeline.Base.Text.{is_empty}
use realtime_speech_pipeline.ControlPlane.Outcome.{
  OutcomeKind, OutcomePhase, OutcomeScope, OutcomeEmitter, DecisionOutcome, is_outcome_kind,
  is_outcome_phase, is_outcome_scope, is_outcome_emitter, is_turn, is_none, validate_kind,
  validate_cp05, validate_phase, validate_deauthorized, validate_stale_epoch, validate, validation,
}

-- The local admission of the runtime decides anywhere but never about a tenant inside a turn.
abbrev pub local_scope : OutcomePhase → OutcomeScope → Bool
local_scope OutcomePhase.pre_turn OutcomeScope.tenant = true
local_scope OutcomePhase.pre_turn OutcomeScope.session = true
local_scope OutcomePhase.pre_turn OutcomeScope.turn = true
local_scope OutcomePhase.scheduling_point OutcomeScope.edge_enqueue = true
local_scope OutcomePhase.scheduling_point OutcomeScope.edge_dequeue = true
local_scope OutcomePhase.scheduling_point OutcomeScope.node_dispatch = true
local_scope OutcomePhase.active_turn OutcomeScope.turn = true
local_scope OutcomePhase.active_turn OutcomeScope.edge_enqueue = true
local_scope OutcomePhase.active_turn OutcomeScope.edge_dequeue = true
local_scope OutcomePhase.active_turn OutcomeScope.node_dispatch = true
local_scope _ _ = false

abbrev pub shed_scope : OutcomePhase → OutcomeScope → Bool
shed_scope OutcomePhase.scheduling_point OutcomeScope.edge_enqueue = true
shed_scope OutcomePhase.scheduling_point OutcomeScope.edge_dequeue = true
shed_scope OutcomePhase.scheduling_point OutcomeScope.node_dispatch = true
shed_scope _ _ = false

abbrev pub stale_scope : OutcomePhase → OutcomeScope → Bool
stale_scope OutcomePhase.pre_turn OutcomeScope.session = true
stale_scope OutcomePhase.pre_turn OutcomeScope.turn = true
stale_scope phase scope = shed_scope phase scope

abbrev pub drain_scope : OutcomePhase → OutcomeScope → Bool
drain_scope OutcomePhase.pre_turn OutcomeScope.session = true
drain_scope OutcomePhase.pre_turn OutcomeScope.turn = true
drain_scope OutcomePhase.active_turn OutcomeScope.turn = true
drain_scope _ _ = false

-- Admission is decided by RK-25 and, before a turn and not about a turn, by CP-05.
abbrev pub admission_scope : OutcomeEmitter → OutcomePhase → OutcomeScope → Bool
admission_scope OutcomeEmitter.rk25 phase scope = local_scope phase scope
admission_scope OutcomeEmitter.cp05 OutcomePhase.pre_turn OutcomeScope.tenant = true
admission_scope OutcomeEmitter.cp05 OutcomePhase.pre_turn OutcomeScope.session = true
admission_scope _ _ _ = false

abbrev pub permits : OutcomeKind → OutcomeEmitter → OutcomePhase → OutcomeScope → Bool
permits OutcomeKind.admit e p s = admission_scope e p s
permits OutcomeKind.reject e p s = admission_scope e p s
permits OutcomeKind.defer e p s = admission_scope e p s
permits OutcomeKind.shed OutcomeEmitter.rk25 p s = shed_scope p s
permits OutcomeKind.stale_epoch_reject OutcomeEmitter.rk24 p s = stale_scope p s
permits OutcomeKind.deauthorized_drain OutcomeEmitter.rk24 p s = drain_scope p s
permits _ _ _ _ = false

-- An outcome about a turn, or in one, names the turn.
abbrev pub names_turn : OutcomePhase → OutcomeScope → Bool
names_turn OutcomePhase.active_turn _ = true
names_turn _ OutcomeScope.turn = true
names_turn _ _ = false

-- Decisions about authority say for which epoch.
abbrev pub states_epoch : OutcomeKind → Bool
states_epoch OutcomeKind.stale_epoch_reject = true
states_epoch OutcomeKind.deauthorized_drain = true
states_epoch _ = false

-- An epoch that is given is not negative.
abbrev pub is_counted : Option ℤ → Bool
is_counted none = true
is_counted (some e) = not (is_negative e)

-- A well-formed outcome, by the decision_outcome of docs/ContractArtifacts.schema.json.
pub record IsWellFormed (d : DecisionOutcome) : Type 0 where
  pub permitted : permits d.outcome_kind d.emitted_by d.phase d.scope ≡ true
  pub has_session : is_empty d.session_id ≡ false
  pub has_event : is_empty d.event_id ≡ false
  pub has_reason : is_empty d.reason ≡ false
  pub runtime_time : is_negative d.runtime_timestamp_ms ≡ false
  pub wall_time : is_negative d.wall_clock_ms ≡ false
  pub turn_named : names_turn d.phase d.scope ≡ true → is_empty d.turn_id ≡ false
  pub epoch_stated : states_epoch d.outcome_kind ≡ true → (e : ℤ) × (d.authority_epoch ≡ some e)
  pub epoch_counted : is_counted d.authority_epoch ≡ true

complete : (d : DecisionOutcome) → IsWellFormed d → validate d ≡ ok tt
unfolding validation
complete d h = ground arith

-- The nine checks of the validation.
abbrev checks : DecisionOutcome → List (Result (Unit {0}))
checks d =
    refuse_if
      (not (is_outcome_kind d.outcome_kind)
        || not (is_outcome_phase d.phase)
        || not (is_outcome_scope d.scope)
        || not (is_outcome_emitter d.emitted_by))
      "invalid enum value in decision_outcome"
    ∷ refuse_if (is_empty d.session_id || is_empty d.event_id || is_empty d.reason)
        "session_id, event_id, and reason are required"
    ∷ refuse_if (is_negative d.runtime_timestamp_ms || is_negative d.wall_clock_ms)
        "timestamps must be >= 0"
    ∷ validate_kind d.outcome_kind d
    ∷ validate_cp05 d.emitted_by d
    ∷ validate_phase d.phase d
    ∷ refuse_if (is_turn d.scope && is_empty d.turn_id) "turn_id is required when scope=turn"
    ∷ validate_deauthorized d.outcome_kind d
    ∷ validate_stale_epoch d.outcome_kind d
    ∷ []

validate-Passed : (d : DecisionOutcome) → validate d ≡ ok tt → Passed (checks d)
unfolding validate
validate-Passed d h = Passed-of_all_pass (checks d) h

permits_of_checks :
    (k : OutcomeKind) (d : DecisionOutcome)
    → not (is_outcome_kind k)
        || not (is_outcome_phase d.phase)
        || not (is_outcome_scope d.scope)
        || not (is_outcome_emitter d.emitted_by)
      ≡ false
    → validate_kind k d ≡ ok tt
    → validate_cp05 d.emitted_by d ≡ ok tt
    → validate_phase d.phase d ≡ ok tt
    → validate_deauthorized k d ≡ ok tt
    → validate_stale_epoch k d ≡ ok tt
    → permits k d.emitted_by d.phase d.scope ≡ true
unfolding validation
permits_of_checks OutcomeKind.admit d a b c e f g = ground arith
permits_of_checks _ d a b c e f g = ground arith

named_of_checks :
    (d : DecisionOutcome)
    → validate_phase d.phase d ≡ ok tt
    → (is_turn d.scope && is_empty d.turn_id) ≡ false
    → names_turn d.phase d.scope ≡ true
    → is_empty d.turn_id ≡ false
unfolding validation
named_of_checks d a b e = ground arith

epoch_given :
    (d : DecisionOutcome)
    → validate_kind d.outcome_kind d ≡ ok tt
    → states_epoch d.outcome_kind ≡ true
    → is_none d.authority_epoch ≡ false
unfolding validation
epoch_given d a e = ground arith

some_of_given : (o : Option ℤ) → is_none o ≡ false → (e : ℤ) × (o ≡ some e)
some_of_given none h = cc
some_of_given (some e) h = (e, refl)

sound :
    (d : DecisionOutcome)
    → validate d ≡ ok tt
    → is_counted d.authority_epoch ≡ true
    → IsWellFormed d
sound d h counted =
    let (enums, (ids, (times, (kind, (cp, (phase, (turn, (drain, (stale, _))))))))) =
      validate-Passed d h in
    let (s, v, r) = or_false3 _ _ _ (refuse_if-eq-ok _ _ ids) in
    let (rt, wt) = or_false _ _ (refuse_if-eq-ok _ _ times) in
    record {
      permitted =
          permits_of_checks d.outcome_kind d (refuse_if-eq-ok _ _ enums) kind cp phase drain stale;
      has_session = s;
      has_event = v;
      has_reason = r;
      runtime_time = rt;
      wall_time = wt;
      turn_named = named_of_checks d phase (refuse_if-eq-ok _ _ turn);
      epoch_stated = λ e. some_of_given _ (epoch_given d kind e);
      epoch_counted = counted;
    }

any_epoch :
    (d : DecisionOutcome) (e : ℤ)
    → validate (record d { authority_epoch = some e })
      ≡ validate (record d { authority_epoch = some (pos 0) })
unfolding validation
any_epoch d e = ground arith

-- An outcome is well formed by the contract (the table permits its kind, emitter, phase and scope
-- together, its session, event and reason are given, its times are not negative, it names the turn that
-- it is about, an authority decision says its epoch, and no epoch is negative) exactly when the
-- validation accepts it and its epoch, if there is one, is not negative. The validation does not see the
-- sign: whatever epoch `e` the outcome is given, the answer is that for epoch 0.
pub validate-IsWellFormed :
    (d : DecisionOutcome) (e : ℤ)
    → (IsWellFormed d ↔ ((validate d ≡ ok tt) × (is_counted d.authority_epoch ≡ true)))
      × (validate (record d { authority_epoch = some e })
          ≡ validate (record d { authority_epoch = some (pos 0) }))
validate-IsWellFormed d e = (
  (λ w. (complete d w, w.epoch_counted), λ (accepted, counted). sound d accepted counted),
  any_epoch d e,
)
