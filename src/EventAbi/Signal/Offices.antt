-- ===== src/EventAbi/Signal/Offices.antt =====
-- Who may emit which control signal by docs/ContractArtifacts.schema.json, and what the signal has to
-- carry: the rules as tables, one question at a time; and which of them the validation of
-- api/eventabi/types.go, signal by signal, asks.
use realtime_speech_pipeline.Base.{◌≡◌, ◌↔◌, refl, Bool, true, false, ok, arith}
use realtime_speech_pipeline.Base.Int.{is_negative}
use realtime_speech_pipeline.Base.Text.{is_empty}
use realtime_speech_pipeline.EventAbi.Types.{
  SignalName, no_lane, is_turn_scope, is_session_scope, is_absent,
}
use realtime_speech_pipeline.EventAbi.Signal.{
  ControlSignal, validate, validate_envelope, range_rule, early_rules, late_rules,
}
use realtime_speech_pipeline.EventAbi.Signal.Rules.{validate-Validated, Validated-validate}
use realtime_speech_pipeline.EventAbi.Signal.Contract.{
  belongs_to_session, belongs_to_turn, grants, holds, is_cancel, is_credit_grant, is_discontinuity,
  is_drop_notice, known_scope, needs_edge, needs_reason, office,
}

-- What the contract asks of a signal with a valid envelope.
pub record IsEntitled (c : ControlSignal) (s : SignalName) : Type 0 where
  pub emitter : holds (office s) c.emitted_by ≡ true
  pub reason : needs_reason s ≡ true → is_empty c.reason ≡ false
  pub edge : needs_edge s ≡ true → (is_empty c.edge_id ≡ false) × (no_lane c.target_lane ≡ false)
  pub turn :
      belongs_to_turn s ≡ true → (is_turn_scope c.event_scope ≡ true) × (is_empty c.turn_id ≡ false)
  pub session : belongs_to_session s ≡ true → is_session_scope c.event_scope ≡ true
  pub cancel_scope : is_cancel s ≡ true → is_empty c.scope ≡ false
  pub credit : is_credit_grant s ≡ true → grants c.amount ≡ true
  pub dropped_range : is_drop_notice s ≡ true → is_absent c.seq_range ≡ false
  pub sync :
      is_discontinuity s ≡ true
      → (is_empty c.sync_domain ≡ false) × (is_empty c.discontinuity_id ≡ false)
  pub domain_named : is_empty c.discontinuity_id ≡ false → is_empty c.sync_domain ≡ false
  pub scope_known : known_scope c.scope ≡ true
  pub epoch_counted : is_negative c.authority_epoch ≡ false

-- The names for which the validation has no rule of its own but that a cancel gives a scope.
abbrev pub is_unruled : SignalName → Bool
is_unruled SignalName.turn_open_proposed = true
is_unruled SignalName.barge_in = true
is_unruled SignalName.stop = true
is_unruled SignalName.cancel = true
is_unruled SignalName.budget_warning = true
is_unruled SignalName.budget_exhausted = true
is_unruled SignalName.degrade = true
is_unruled SignalName.fallback = true
is_unruled _ = false

-- The part of it that the validation asks.
pub record IsChecked (c : ControlSignal) (s : SignalName) : Type 0 where
  pub emitter : is_unruled s ≡ false → holds (office s) c.emitted_by ≡ true
  pub reason : is_unruled s ≡ false → needs_reason s ≡ true → is_empty c.reason ≡ false
  pub edge : needs_edge s ≡ true → (is_empty c.edge_id ≡ false) × (no_lane c.target_lane ≡ false)
  pub turn :
      belongs_to_turn s ≡ true → (is_turn_scope c.event_scope ≡ true) × (is_empty c.turn_id ≡ false)
  pub session :
      is_unruled s ≡ false → belongs_to_session s ≡ true → is_session_scope c.event_scope ≡ true
  pub cancel_scope : is_cancel s ≡ true → is_empty c.scope ≡ false
  pub credit : is_credit_grant s ≡ true → grants c.amount ≡ true
  pub dropped_range : is_drop_notice s ≡ true → is_absent c.seq_range ≡ false
  pub sync :
      is_discontinuity s ≡ true
      → (is_empty c.sync_domain ≡ false) × (is_empty c.discontinuity_id ≡ false)

-- The part of it that the validation leaves open.
pub record IsLeftOpen (c : ControlSignal) (s : SignalName) : Type 0 where
  pub emitter : is_unruled s ≡ true → holds (office s) c.emitted_by ≡ true
  pub reason : is_unruled s ≡ true → needs_reason s ≡ true → is_empty c.reason ≡ false
  pub session :
      is_unruled s ≡ true → belongs_to_session s ≡ true → is_session_scope c.event_scope ≡ true
  pub domain_named : is_empty c.discontinuity_id ≡ false → is_empty c.sync_domain ≡ false
  pub scope_known : known_scope c.scope ≡ true
  pub epoch_counted : is_negative c.authority_epoch ≡ false

rules_sound :
    (s : SignalName) (c : ControlSignal)
    → early_rules s c ≡ ok tt
    → late_rules s c ≡ ok tt
    → IsChecked c s
unfolding early_rules late_rules
rules_sound SignalName.abort c a b = ground arith
rules_sound _ c a b = ground arith

rules_complete :
    (s : SignalName) (c : ControlSignal)
    → IsChecked c s
    → (early_rules s c ≡ ok tt) × (late_rules s c ≡ ok tt)
unfolding early_rules late_rules
rules_complete SignalName.abort c e = ground arith
rules_complete _ c e = ground arith

either_way : {P : Type 0} → (b : Bool) → (b ≡ false → P) → (b ≡ true → P) → P
either_way true f t = t refl
either_way false f t = f refl

parts-IsEntitled :
    (c : ControlSignal) (s : SignalName) → IsChecked c s → IsLeftOpen c s → IsEntitled c s
parts-IsEntitled c s a b = record {
  emitter = either_way (is_unruled s) a.emitter b.emitter;
  reason = λ n. either_way (is_unruled s) (λ e. a.reason e n) (λ e. b.reason e n);
  edge = a.edge;
  turn = a.turn;
  session = λ n. either_way (is_unruled s) (λ e. a.session e n) (λ e. b.session e n);
  cancel_scope = a.cancel_scope;
  credit = a.credit;
  dropped_range = a.dropped_range;
  sync = a.sync;
  domain_named = b.domain_named;
  scope_known = b.scope_known;
  epoch_counted = b.epoch_counted;
}

IsEntitled-parts :
    (c : ControlSignal) (s : SignalName) → IsEntitled c s → IsChecked c s × IsLeftOpen c s
IsEntitled-parts c s w = (
  record {
    emitter = λ e. w.emitter;
    reason = λ e. w.reason;
    edge = w.edge;
    turn = w.turn;
    session = λ e. w.session;
    cancel_scope = w.cancel_scope;
    credit = w.credit;
    dropped_range = w.dropped_range;
    sync = w.sync;
  },
  record {
    emitter = λ e. w.emitter;
    reason = λ e. w.reason;
    session = λ e. w.session;
    domain_named = w.domain_named;
    scope_known = w.scope_known;
    epoch_counted = w.epoch_counted;
  },
)

-- A signal whose envelope is valid is accepted exactly when its sequence range, if there is one, is valid
-- and it keeps the rules that the validation asks; and it keeps the rules of the contract (emitter,
-- reason, edge and lane, turn, session scope, cancel scope, amount, sequence range, sync domain, known
-- scope, epoch) exactly when it keeps both those and the ones that are left open: for a proposed turn, an
-- interruption, the budget, degrade and fallback the emitter, the reason and the session scope, and for
-- every signal the sync domain of a discontinuity id, the known scope and the sign of the epoch.
pub validate-IsEntitled :
    (c : ControlSignal)
    → validate_envelope c ≡ ok tt
    → ((validate c ≡ ok tt) ↔ (IsChecked c c.signal × (range_rule c.seq_range ≡ ok tt)))
      × (IsEntitled c c.signal ↔ (IsChecked c c.signal × IsLeftOpen c c.signal))
validate-IsEntitled c env = (
  (
    λ h. let v = validate-Validated c h in (rules_sound c.signal c v.early v.late, v.range),
    λ (checked, range).
        let (early, late) = rules_complete c.signal c checked in
        Validated-validate c (record { envelope = env; early = early; range = range; late = late }),
  ),
  (
    IsEntitled-parts c c.signal,
    λ (checked, left_open). parts-IsEntitled c c.signal checked left_open,
  ),
)
