-- ===== src/Examples/Pools.antt =====
-- The theorems on the execution pool at concrete inputs.
use realtime_speech_pipeline.Base.{◌≡◌, refl, arith, String, true, some, [], ◌∷◌}
use realtime_speech_pipeline.Base.Int.{pos}
use realtime_speech_pipeline.Base.Lists.{length}
use realtime_speech_pipeline.ExecutionPool.{
  Task, Pool, new_manager, Steps, done, ◌then◌, submit_open, send, count_submitted, receive, enter,
  execute, complete, leave, stop, drain_empty, drain_idle, swap_closed, close_channel, join,
}
use realtime_speech_pipeline.ExecutionPool.Invariant.{Sound, run-Sound}
use realtime_speech_pipeline.ExecutionPool.Refinement.{Moves, line_of, Steps-Moves}
use realtime_speech_pipeline.ExecutionPool.Drains.{drain-finishes, drain-panics}

abbrev greet : Task String
greet = record { id = "n1"; run = some "greet" }

abbrev one_place : Pool String
one_place = new_manager (pos 1)

-- A task is accepted, run, and the pool is drained.
whole_run :
    (p : Pool String) × Steps one_place p
    × (p.drained ≡ 1)
    × (p.executed ≡ greet ∷ [])
    × (p.queue ≡ [])
unfolding new_manager
whole_run = (
  _,
  submit_open greet refl refl
      then send [] [] greet refl refl (omega arith)
      then receive refl refl
      then count_submitted refl
      then enter refl
      then execute refl
      then complete refl
      then leave refl refl
      then drain_empty refl
      then drain_idle refl refl
      then swap_closed refl refl
      then close_channel refl
      then stop refl refl refl
      then join refl refl
      then done,
  refl,
  refl,
  refl,
)

run-Sound_example : Sound whole_run.0
run-Sound_example = run-Sound (pos 1) whole_run.0 whole_run.1

Steps-Moves_example : Moves (line_of one_place) (line_of whole_run.0)
Steps-Moves_example = Steps-Moves one_place whole_run.0 whole_run.1

drain-finishes_example :
    (whole_run.0.executed ≡ whole_run.0.accepted)
    × (whole_run.0.completed ≡ length whole_run.0.accepted)
    × (whole_run.0.in_flight ≡ 0)
drain-finishes_example = drain-finishes (pos 1) whole_run.0 0 whole_run.1 whole_run.2

drain-panics_example : (after : Pool String) × Steps one_place after × (after.panicked ≡ true)
unfolding new_manager
drain-panics_example = drain-panics one_place greet refl refl refl refl
