-- ===== src/NodeHost/Limits.antt =====
-- The budget limits of internal/runtime/nodehost/failure.go, and what the budget manager says at them.
use realtime_speech_pipeline.Base.{◌≡◌, refl, Bool, true, false, ok, err, arith, if◌then◌else◌}
use realtime_speech_pipeline.Base.Int.{ℤ, pos, negsuc, ltℤ, is_negative}
use realtime_speech_pipeline.Budget
use realtime_speech_pipeline.Budget.{BudgetSpec, or_default}
use realtime_speech_pipeline.NodeHost.{NodeFailureInput, warn_at, exhaust_at, observed, at_least_or}

abbrev is_positive : ℤ → Bool
is_positive z = ltℤ (pos 0) z

or_default_positive : (z d : ℤ) → is_positive z ≡ true → or_default z d ≡ z
or_default_positive (pos n) d h = rw h refl
or_default_positive (negsuc n) d h = refl

at_least_or-positive :
    (low d v : ℤ)
    → is_positive low ≡ true
    → is_positive d ≡ true
    → is_positive (at_least_or low d v) ≡ true
at_least_or-positive low d v hl hd = ground arith

positive_not_negative : (z : ℤ) → is_positive z ≡ true → is_negative z ≡ false
positive_not_negative (pos n) h = refl
positive_not_negative (negsuc n) h = ground arith

abbrev pub spec_of : ℤ → ℤ → Bool → Bool → BudgetSpec
spec_of w e may_degrade may_fall_back = record {
  warn_at_ms = w;
  exhaust_at_ms = e;
  allow_degrade = may_degrade;
  allow_fallback = may_fall_back;
}

-- The budget manager at positive limits and a positive time.
module _ (w e o : ℤ) (may_degrade may_fall_back : Bool) (hw : is_positive w ≡ true)
    (he : is_positive e ≡ true) (ho : is_positive o ≡ true) where
  pub budget_ordered :
      ltℤ e w ≡ false
      → Budget.evaluate (spec_of w e may_degrade may_fall_back) (record { elapsed_ms = o })
        ≡ ok (Budget.decide (spec_of w e may_degrade may_fall_back) o)
  unfolding Budget.evaluate
  budget_ordered h =
      rw
        (
          positive_not_negative w hw,
          positive_not_negative e he,
          positive_not_negative o ho,
          or_default_positive e (pos 1) he,
          or_default_positive w e hw,
          h,
        )
        refl

  pub budget_reversed :
      ltℤ e w ≡ true
      → Budget.evaluate (spec_of w e may_degrade may_fall_back) (record { elapsed_ms = o })
        ≡ err "warn_at_ms must be <= exhaust_at_ms"
  unfolding Budget.evaluate
  budget_reversed h =
      rw
        (
          positive_not_negative w hw,
          positive_not_negative e he,
          positive_not_negative o ho,
          or_default_positive e (pos 1) he,
          or_default_positive w e hw,
          h,
        )
        refl

  pub decide_ordered : Budget.decide (spec_of w e may_degrade may_fall_back) o ≡ (
      if ltℤ o w
      then Budget.within_budget
      else if ltℤ o e
      then Budget.budget_warning
      else Budget.budget_exhausted (spec_of w e may_degrade may_fall_back))
  unfolding Budget.decide
  decide_ordered = rw (or_default_positive e (pos 1) he, or_default_positive w e hw) refl

pub warn_at-positive : (req : NodeFailureInput) → is_positive (warn_at req) ≡ true
warn_at-positive req = at_least_or-positive (pos 1) (pos 1200) req.node_budget_warning_ms refl refl

pub exhaust_at-positive : (req : NodeFailureInput) → is_positive (exhaust_at req) ≡ true
exhaust_at-positive req =
    at_least_or-positive (warn_at req) (pos 1500) req.node_budget_exhaust_ms (warn_at-positive req)
      refl

pub observed-positive : (req : NodeFailureInput) → is_positive (observed req) ≡ true
observed-positive req =
    at_least_or-positive (pos 1) (exhaust_at req) req.observed_runtime_ms refl
      (exhaust_at-positive req)

pub below_both : (o w e : ℤ) → ltℤ e w ≡ false → ltℤ o w ≡ true → ltℤ o e ≡ true
below_both o w e h k = ground arith

pub reversed :
    (req : NodeFailureInput)
    → ltℤ (pos 1500) req.node_budget_warning_ms ≡ true
    → ltℤ req.node_budget_exhaust_ms req.node_budget_warning_ms ≡ true
    → ltℤ (exhaust_at req) (warn_at req) ≡ true
reversed req high below = ground arith
