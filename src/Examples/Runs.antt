-- ===== src/Examples/Runs.antt =====
-- The theorems on scheduling points and runs of plans at concrete inputs.
use text.Mathlib.Text.{◌==◌}
use realtime_speech_pipeline.Base.{
  ℕ, ◌≡◌, refl, arith, String, true, none, [], ok, Result, if◌then◌else◌,
}
use realtime_speech_pipeline.Base.Int.{pos}
use realtime_speech_pipeline.Base.Lists.{All}
use realtime_speech_pipeline.Base.Text.{trim_space}
use realtime_speech_pipeline.EventAbi.Types.{Lane}
use realtime_speech_pipeline.Lanes.{
  DispatchTarget, resolve, validate_lane, override_of, routed, default_target, lane_id_for,
}
use realtime_speech_pipeline.Executor.Scheduler.{SchedulingInput, Services}
use realtime_speech_pipeline.Executor.Topology.Cycles.{IsAcyclic}
use realtime_speech_pipeline.Executor.Runs.{ExecutionTrace, execute_plan}
use realtime_speech_pipeline.Executor.Runs.Waits.{
  IsRunOf, Waits, executed, execute_plan-IsRunOf, execute_plan-Waits,
}
use realtime_speech_pipeline.Executor.Runs.Completes.{IsPlain, execute_plan-completes}
use realtime_speech_pipeline.Examples.Plans.{node, diamond, diamond-valid}

-- A scheduler that is wired to nothing, over a world of one number.
abbrev no_services : Services ℕ
no_services = record {
  invoke = none;
  append_attempts = none;
  append_snapshot = none;
  new_event_id = none;
}

abbrev router : String → Lane → Result DispatchTarget
router = resolve (λ text. text) []

abbrev request : SchedulingInput
request = record {
  session_id = "s1";
  turn_id = "t1";
  event_id = "e1";
  pipeline_version = "";
  transport_sequence = pos 3;
  runtime_sequence = pos 5;
  authority_epoch = pos 1;
  runtime_timestamp_ms = pos 100;
  wall_clock_timestamp_ms = pos 100;
  shed = true;
  reason = "";
  provider_invocation = none;
}

depth : String → ℕ
depth id = if id == "in" then 0 else (if id == "out" then 2 else 1)

diamond-IsAcyclic : IsAcyclic diamond
unfolding depth
diamond-IsAcyclic = (depth, (omega arith, (omega arith, (omega arith, (omega arith, tt)))))

plain : (id : String) → IsPlain no_services router (node id)
unfolding resolve validate_lane override_of routed default_target lane_id_for trim_space
plain id = record { no_provider = refl; kept = refl; target = _; routed = refl }

nodes_plain : All (IsPlain no_services router) diamond.nodes
nodes_plain = (plain "out", (plain "left", (plain "right", (plain "in", tt))))

execute_plan-completes_example :
    (trace : ExecutionTrace) × (execute_plan no_services router none request diamond 7
      ≡ (ok trace, 7))
    × (trace.completed ≡ true)
    × (executed trace.nodes ≡ trace.node_order)
execute_plan-completes_example =
    execute_plan-completes no_services router request diamond diamond.nodes 7 diamond-valid
      diamond-IsAcyclic nodes_plain

completed_run :
    (trace : ExecutionTrace) × (execute_plan no_services router none request diamond 7
      ≡ (ok trace, 7))
    × (trace.completed ≡ true)
    × (executed trace.nodes ≡ trace.node_order)
completed_run =
    execute_plan-completes no_services router request diamond diamond.nodes 7 diamond-valid
      diamond-IsAcyclic nodes_plain

execute_plan-IsRunOf_example : IsRunOf diamond completed_run.0
execute_plan-IsRunOf_example =
    execute_plan-IsRunOf no_services router none request diamond completed_run.0 7 7 completed_run.1

execute_plan-Waits_example : All (Waits (executed completed_run.0.nodes)) diamond.edges
execute_plan-Waits_example =
    execute_plan-Waits no_services router none request diamond completed_run.0 7 7 completed_run.1
