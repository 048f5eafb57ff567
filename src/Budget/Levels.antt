-- ===== src/Budget/Levels.antt =====
-- How the decisions of internal/runtime/budget/manager.go follow the elapsed time.
use realtime_speech_pipeline.Base.{
  ℕ, ◌+◌, ◌≤◌, ◌≡◌, Bool, true, false, ◌||◌, ok, arith, >>-eq-ok, refuse_if, refuse_if-eq-ok,
}
use realtime_speech_pipeline.Base.Int.{ℤ, ltℤ, is_negative, ◌≤ℤ◌}
use realtime_speech_pipeline.Budget.{
  BudgetSpec, Usage, Decision, decide, evaluate, warn_at, exhaust_at,
}

-- Within the budget, past the warning, exhausted.
abbrev flag : Bool → ℕ
flag true = 1
flag false = 0

abbrev pub level : Decision → ℕ
level d = flag d.emit_warning + flag d.emit_exhausted

decide-level :
    (spec : BudgetSpec) (a b : ℤ)
    → a ≤ℤ b
    → ltℤ (exhaust_at spec) (warn_at spec) ≡ false
    → level (decide spec a) ≤ level (decide spec b)
unfolding decide
decide-level spec a b h ordered = ground arith

decided :
    (spec : BudgetSpec) (u : Usage) (d : Decision)
    → evaluate spec u ≡ ok d
    → (ltℤ (exhaust_at spec) (warn_at spec) ≡ false) × (decide spec u.elapsed_ms ≡ d)
unfolding evaluate
decided spec u d h =
    let (thresholds, h1) =
      >>-eq-ok
        (refuse_if (is_negative spec.warn_at_ms || is_negative spec.exhaust_at_ms)
          "budget thresholds must be >=0")
        _ h in
    let (elapsed, h2) =
      >>-eq-ok (refuse_if (is_negative u.elapsed_ms) "usage elapsed_ms must be >=0") _ h1 in
    let (ordered, h3) =
      >>-eq-ok
        (refuse_if (ltℤ (exhaust_at spec) (warn_at spec)) "warn_at_ms must be <= exhaust_at_ms")
        (ok (decide spec u.elapsed_ms)) h2 in
    let e : decide spec u.elapsed_ms ≡ d = cc h3 in (refuse_if-eq-ok _ _ ordered, e)

-- Under one budget, more elapsed time never gives a milder decision: once the warning was given it is
-- given, and once the budget was exhausted it is exhausted.
pub evaluate-monotone :
    (spec : BudgetSpec) (u v : Usage) (d e : Decision)
    → u.elapsed_ms ≤ℤ v.elapsed_ms
    → evaluate spec u ≡ ok d
    → evaluate spec v ≡ ok e
    → level d ≤ level e
evaluate-monotone spec u v d e h eu ev =
    let (ordered, is_d) = decided spec u d eu in
    let (_, is_e) = decided spec v e ev in
    rw (← is_d, ← is_e) (decide-level spec u.elapsed_ms v.elapsed_ms h ordered)
