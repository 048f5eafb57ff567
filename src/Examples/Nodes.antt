-- ===== src/Examples/Nodes.antt =====
-- The theorems on budgets and failed nodes at concrete inputs.
use native.Mathlib.Omega.{arith}
use realtime_speech_pipeline.Base.{◌≤◌, ◌≡◌, refl, true, false, ok, err}
use realtime_speech_pipeline.Base.Int.{ℤ, pos}
use realtime_speech_pipeline.Budget
use realtime_speech_pipeline.Budget.{BudgetSpec, Usage, evaluate, budget_warning, budget_exhausted}
use realtime_speech_pipeline.Budget.Levels.{level, evaluate-monotone}
use realtime_speech_pipeline.NodeHost.{NodeFailureInput, handle_failure}
use realtime_speech_pipeline.NodeHost.Failures.{
  IsComplete, planned, remedy, handle_failure-planned, handle_failure-refuses,
}

abbrev second : BudgetSpec
second = record {
  warn_at_ms = pos 800;
  exhaust_at_ms = pos 1000;
  allow_degrade = false;
  allow_fallback = true;
}

abbrev after : ℤ → Usage
after n = record { elapsed_ms = n }

warned : evaluate second (after (pos 900)) ≡ ok budget_warning
unfolding evaluate Budget.decide
warned = refl

exhausted : evaluate second (after (pos 1000)) ≡ ok (budget_exhausted second)
unfolding evaluate Budget.decide
exhausted = refl

evaluate-monotone_example : level budget_warning ≤ level (budget_exhausted second)
evaluate-monotone_example =
    evaluate-monotone second (after (pos 900)) (after (pos 1000)) budget_warning
      (budget_exhausted second) (omega arith) warned exhausted

abbrev failing : ℤ → NodeFailureInput
failing warning = record {
  session_id = "s1";
  turn_id = "t1";
  pipeline_version = "p1";
  event_id = "e1";
  transport_sequence = pos 1;
  runtime_sequence = pos 1;
  authority_epoch = pos 1;
  runtime_timestamp_ms = pos 1;
  wall_clock_timestamp_ms = pos 1;
  node_budget_warning_ms = warning;
  node_budget_exhaust_ms = pos 0;
  observed_runtime_ms = pos 0;
  allow_degrade = false;
  allow_fallback = true;
}

failing-IsComplete : (warning : ℤ) → IsComplete (failing warning)
failing-IsComplete warning = record { session = refl; pipeline = refl; event = refl }

handle_failure-planned_example :
    (handle_failure (failing (pos 0)) ≡ ok (planned (remedy (failing (pos 0))) (failing (pos 0))))
    × ((planned (remedy (failing (pos 0))) (failing (pos 0))).terminal ≡ false)
handle_failure-planned_example =
    handle_failure-planned (failing (pos 0)) (failing-IsComplete (pos 0)) refl

handle_failure-refuses_example :
    handle_failure (failing (pos 2000)) ≡ err "warn_at_ms must be <= exhaust_at_ms"
handle_failure-refuses_example =
    handle_failure-refuses (failing (pos 2000)) (failing-IsComplete (pos 2000)) refl refl
