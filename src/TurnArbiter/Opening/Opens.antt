-- ===== src/TurnArbiter/Opening/Opens.antt =====
-- When HandleTurnOpenProposed of internal/runtime/turnarbiter/arbiter.go opens a turn.
use realtime_speech_pipeline.Base.{
  ℕ, ◌≡◌, ◌↔◌, ◌∙◌, sym, ap, refl, String, Bool, true, false, not, ◌&&◌, List, Result, ok, err,
  arith, if◌then◌else◌,
}
use realtime_speech_pipeline.ControlPlane.TurnPlan.{ResolvedTurnPlan}
use realtime_speech_pipeline.LocalAdmission
use realtime_speech_pipeline.LocalAdmission.{CapacityDisposition}
use realtime_speech_pipeline.Guard
use realtime_speech_pipeline.PlanResolver
use realtime_speech_pipeline.PlanResolver.Materialized.{resolve-valid}
use realtime_speech_pipeline.TurnArbiter.{
  OpenRequest, TurnStartBundle, TurnStartBundleInput, is_admit,
}
use realtime_speech_pipeline.TurnArbiter.Opening.{
  proposed, plan_materialization_failure, admission_input, guard_input, Authority, requested,
  leased, plan_input, activated, settle_plan, bundle_input, settle_admitted, settle_leased,
  settle_bundle, settle_guarded, handle_turn_open_proposed,
}
use realtime_speech_pipeline.TurnArbiter.Opening.Gates.{
  Opened, never_denied, Gate-opens, Gate-passes, settle_plan-opens, open_with-opens, unless_denied,
  unless-passes, leased_step, leased-passes,
}

-- The capacity leaves room for a turn.
abbrev pub has_room : CapacityDisposition → Bool
has_room CapacityDisposition.reject = false
has_room CapacityDisposition.defer = false
has_room _ = true

admission-allows :
    (req : OpenRequest)
    → (LocalAdmission.evaluate_pre_turn (admission_input req)).allowed
      ≡ (req.snapshot_valid && has_room req.capacity_disposition)
unfolding LocalAdmission.evaluate_pre_turn LocalAdmission.evaluate_capacity admission_input
admission-allows req = ground arith

guard-allows :
    (req : OpenRequest) (a : Authority)
    → (Guard.evaluate (guard_input req a)).allowed ≡ (a.valid && a.authorized)
unfolding Guard.evaluate guard_input
guard-allows req a = ground arith

-- The authority that the plan of the turn is made under.
abbrev pub authority_of : OpenRequest → TurnStartBundle → Authority
authority_of req b = if b.has_lease_decision then leased (requested req) b else requested req

-- What it takes to open the turn of a request with a plan. `bundle` is the start bundle it gets.
pub record Permits (sum256 : String → List ℕ)
    (resolver : TurnStartBundleInput → Result TurnStartBundle) (req : OpenRequest)
    (plan : ResolvedTurnPlan) : Type 0 where
  pub has_snapshot : req.snapshot_valid ≡ true
  pub room : has_room req.capacity_disposition ≡ true
  pub current : req.authority_epoch_valid ≡ true
  pub authorized : req.authority_authorized ≡ true
  pub bundle : TurnStartBundle
  pub resolved : resolver (bundle_input req) ≡ ok bundle
  pub not_revoked :
      (bundle.has_lease_decision
        && not (bundle.lease_authority_valid && bundle.lease_authority_granted))
      ≡ false
  pub admitted :
      (bundle.has_cp_admission_decision && not (is_admit bundle.cp_admission_outcome_kind)) ≡ false
  pub planned :
      PlanResolver.resolve sum256 (plan_input req bundle (authority_of req bundle)) ≡ ok plan

module _ (sum256 : String → List ℕ) (req : OpenRequest) (plan : ResolvedTurnPlan) where
  settle_admitted-opens :
      (b : TurnStartBundle) (a : Authority)
      → Opened (settle_admitted sum256 proposed req b a) plan
      → ((b.has_cp_admission_decision && not (is_admit b.cp_admission_outcome_kind)) ≡ false)
        × (PlanResolver.resolve sum256 (plan_input req b a) ≡ ok plan)
  unfolding settle_admitted
  settle_admitted-opens b a h =
      let (admitted, settled) = unless_denied _ _ _ plan h in
      (admitted, settle_plan-opens req _ plan settled)

  settle_admitted-passes :
      (b : TurnStartBundle) (a : Authority)
      → (b.has_cp_admission_decision && not (is_admit b.cp_admission_outcome_kind)) ≡ false
      → PlanResolver.resolve sum256 (plan_input req b a) ≡ ok plan
      → Opened (settle_admitted sum256 proposed req b a) plan
  unfolding settle_admitted settle_plan
  settle_admitted-passes b a admitted planned =
      unless-passes _ _ _ plan admitted
        (rw planned (open_with-opens plan (resolve-valid sum256 (plan_input req b a) plan planned)))

  abbrev lease_gate : TurnStartBundle → Bool
  lease_gate b = (Guard.evaluate (guard_input req (leased (requested req) b))).allowed

  settle_leased-opens :
      (b : TurnStartBundle)
      → Opened (settle_leased sum256 proposed req b (requested req)) plan
      → ((b.has_lease_decision && not (lease_gate b)) ≡ false)
        × Opened (settle_admitted sum256 proposed req b (authority_of req b)) plan
  unfolding settle_leased
  settle_leased-opens b h =
      leased_step b.has_lease_decision (lease_gate b) _ _ (settle_admitted sum256 proposed req b) _
        _ plan h

  settle_leased-passes :
      (b : TurnStartBundle)
      → (b.has_lease_decision && not (lease_gate b)) ≡ false
      → Opened (settle_admitted sum256 proposed req b (authority_of req b)) plan
      → Opened (settle_leased sum256 proposed req b (requested req)) plan
  unfolding settle_leased
  settle_leased-passes b e h =
      leased-passes b.has_lease_decision (lease_gate b) _ (settle_admitted sum256 proposed req b) _
        _ plan e h

  -- The request was authorized, so the gate of the lease looks at the lease alone.
  lease_gate_of :
      (b : TurnStartBundle)
      → (req.authority_epoch_valid && req.authority_authorized) ≡ true
      → lease_gate b ≡ (b.lease_authority_valid && b.lease_authority_granted)
  unfolding leased
  lease_gate_of b h = guard-allows req (leased (requested req) b) ∙ (ground (arith, h))

  settle_bundle-opens :
      (answer : Result TurnStartBundle)
      → Opened (settle_bundle sum256 proposed req answer) plan
      → (b : TurnStartBundle) × (answer ≡ ok b)
        × Opened (settle_leased sum256 proposed req b (requested req)) plan
  unfolding settle_bundle plan_materialization_failure
  settle_bundle-opens (err e) h = absurd (never_denied _ plan h)
  settle_bundle-opens (ok b) h = (b, refl, h)

module _ (sum256 : String → List ℕ) (resolver : TurnStartBundleInput → Result TurnStartBundle)
    (req : OpenRequest) (plan : ResolvedTurnPlan) where
  opens-permitted :
      Opened (handle_turn_open_proposed sum256 resolver req) plan → Permits sum256 resolver req plan
  unfolding handle_turn_open_proposed settle_guarded
  opens-permitted h =
      let (e1, h1) = Gate-opens _ _ _ _ plan h in
      let (e2, h2) = Gate-opens _ _ _ _ plan h1 in
      let (b, resolved, h3) =
        settle_bundle-opens sum256 req plan (resolver (bundle_input req)) h2 in
      let (lease, h4) = settle_leased-opens sum256 req plan b h3 in
      let (admitted, planned) = settle_admitted-opens sum256 req plan b (authority_of req b) h4 in
      let room : (req.snapshot_valid && has_room req.capacity_disposition) ≡ true =
        sym (admission-allows req) ∙ e1 in
      let granted : (req.authority_epoch_valid && req.authority_authorized) ≡ true =
        sym (guard-allows req (requested req)) ∙ e2 in
      record {
        has_snapshot = ground (arith, room);
        room = ground (arith, room);
        current = ground (arith, granted);
        authorized = ground (arith, granted);
        bundle = b;
        resolved = resolved;
        not_revoked =
            ap (λ g. b.has_lease_decision && not g) (sym (lease_gate_of sum256 req plan b granted))
            ∙ lease;
        admitted = admitted;
        planned = planned;
      }

  permitted-opens :
      Permits sum256 resolver req plan → Opened (handle_turn_open_proposed sum256 resolver req) plan
  unfolding handle_turn_open_proposed settle_guarded settle_bundle
  permitted-opens p =
      let granted : (req.authority_epoch_valid && req.authority_authorized) ≡ true =
        ground (arith, p.current, p.authorized) in
      Gate-passes _ _ _ plan (admission-allows req ∙ ground (arith, p.has_snapshot, p.room)) (
        Gate-passes _ _ _ plan (guard-allows req (requested req) ∙ granted) (
          rw p.resolved (
            settle_leased-passes sum256 req plan p.bundle
              (ap (λ g. p.bundle.has_lease_decision && not g)
                  (lease_gate_of sum256 req plan p.bundle granted)
                ∙ p.not_revoked)
              (settle_admitted-passes sum256 req plan p.bundle (authority_of req p.bundle)
                p.admitted p.planned))))

-- A proposal makes its turn active with a plan exactly when the snapshots are valid, the capacity leaves
-- room, the request's authority is current and granted, a start bundle is resolved whose lease, if it has
-- one, is valid and granted and whose admission, if it has one, is to admit, and the plan resolver returns
-- that plan for the bundle, under the epoch that the lease leaves.
pub handle_turn_open_proposed-Permits :
    (sum256 : String → List ℕ) (resolver : TurnStartBundleInput → Result TurnStartBundle)
    (req : OpenRequest) (plan : ResolvedTurnPlan)
    → (handle_turn_open_proposed sum256 resolver req ≡ ok (activated proposed plan))
      ↔ Permits sum256 resolver req plan
handle_turn_open_proposed-Permits sum256 resolver req plan =
    (opens-permitted sum256 resolver req plan, permitted-opens sum256 resolver req plan)
