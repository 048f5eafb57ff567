-- ===== src/Budget.antt =====
-- internal/runtime/budget/manager.go: the decision on an execution budget.
pub mod Levels
use realtime_speech_pipeline.Base.{
  String, Bool, true, false, ◌||◌, Result, ok, err, ◌>>◌, refuse_if, if◌then◌else◌,
}
use realtime_speech_pipeline.Base.Int.{ℤ, pos, ltℤ, is_negative}

-- The zero value of `Action` is `other ""`.
pub data Action : Type 0 where
  continue degrade fallback terminate : Action
  other : String → Action

pub record BudgetSpec : Type 0 where
  pub warn_at_ms : ℤ
  pub exhaust_at_ms : ℤ
  pub allow_degrade : Bool
  pub allow_fallback : Bool

pub record Usage : Type 0 where
  pub elapsed_ms : ℤ

pub record Decision : Type 0 where
  pub action : Action
  pub reason : String
  pub emit_warning : Bool
  pub emit_exhausted : Bool

-- `if v == 0 { v = default }`
abbrev pub or_default : ℤ → ℤ → ℤ
or_default (pos n) default = if ltℤ (pos 0) (pos n) then pos n else default
or_default z default = z

abbrev pub exhaust_at : BudgetSpec → ℤ
exhaust_at spec = or_default spec.exhaust_at_ms (pos 1)

abbrev pub warn_at : BudgetSpec → ℤ
warn_at spec = or_default spec.warn_at_ms (exhaust_at spec)

abbrev pub exhausted_action : BudgetSpec → Action
exhausted_action spec =
    if spec.allow_degrade
    then Action.degrade
    else if spec.allow_fallback
    then Action.fallback
    else Action.terminate

abbrev pub within_budget : Decision
within_budget = record {
  action = Action.continue;
  reason = "within_budget";
  emit_warning = false;
  emit_exhausted = false;
}

abbrev pub budget_warning : Decision
budget_warning = record {
  action = Action.continue;
  reason = "budget_warning";
  emit_warning = true;
  emit_exhausted = false;
}

abbrev pub budget_exhausted : BudgetSpec → Decision
budget_exhausted spec = record {
  action = exhausted_action spec;
  reason = "budget_exhausted";
  emit_warning = true;
  emit_exhausted = true;
}

-- From the comparisons with the elapsed time on.
unfoldable pub decide : BudgetSpec → ℤ → Decision
decide spec elapsed =
    if ltℤ elapsed (warn_at spec)
    then within_budget
    else if ltℤ elapsed (exhaust_at spec)
    then budget_warning
    else budget_exhausted spec

unfoldable pub evaluate : BudgetSpec → Usage → Result Decision
evaluate spec usage = do
  refuse_if (is_negative spec.warn_at_ms || is_negative spec.exhaust_at_ms)
      "budget thresholds must be >=0"
  refuse_if (is_negative usage.elapsed_ms) "usage elapsed_ms must be >=0"
  refuse_if (ltℤ (exhaust_at spec) (warn_at spec)) "warn_at_ms must be <= exhaust_at_ms"
  ok (decide spec usage.elapsed_ms)
