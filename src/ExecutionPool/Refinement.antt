-- ===== src/ExecutionPool/Refinement.antt =====
-- internal/runtime/executionpool/pool.go: the pool as a first-in first-out queue of tasks.
use realtime_speech_pipeline.Base.{◌≡◌, refl, sym, List, [], ◌∷◌, ◌++◌, append_assoc}
use realtime_speech_pipeline.ExecutionPool.{
  Task, Pool, Step, Steps, done, submit_open, submit_closed, send, send_full, send_closed,
  count_submitted, count_rejected, receive, enter, execute, complete, leave, stop, drain_empty,
  drain_idle, drain_busy, swap_closed, swap_fails, close_channel, join, give_up_joining, ◌then◌,
}
use realtime_speech_pipeline.ExecutionPool.Invariant.{held}

-- What a caller may know: the tasks that wait to be run, and those that were.
pub record Line (Run : Type 0) : Type 0 where
  pub waiting : List (Task Run)
  pub finished : List (Task Run)

-- The specification: a task joins the end of the line, or the first task of the line is run.
pub data Move {Run : Type 0} (l : Line Run) : Line Run → Type 0 where
  stays : Move l l
  joins : (t : Task Run) → Move l (record { waiting = l.waiting ++ t ∷ []; finished = l.finished })
  is_run :
      (t : Task Run) (rest : List (Task Run))
      → l.waiting ≡ t ∷ rest
      → Move l (record { waiting = rest; finished = l.finished ++ t ∷ [] })

pub data Moves {Run : Type 0} : Line Run → Line Run → Type 0 where
  finish : {l : Line Run} → Moves l l
  move : {k l n : Line Run} → Move k l → Moves l n → Moves k n

abbrev pub line_of : {Run : Type 0} → Pool Run → Line Run
line_of p = record { waiting = held p.worker ++ p.queue; finished = p.executed }

Step-Move : {Run : Type 0} (p after : Pool Run) → Step p after → Move (line_of p) (line_of after)
Step-Move p after (submit_open t v c) = stays
Step-Move p after (submit_closed t v c) = stays
Step-Move p after (send front back t e c room) =
    rw (sym (append_assoc (held p.worker) p.queue (t ∷ []))) (joins t)
Step-Move p after (send_full front back t e c full) = stays
Step-Move p after (send_closed front back t e c) = stays
Step-Move p after (count_submitted e) = stays
Step-Move p after (count_rejected e) = stays
Step-Move p after (receive w q) = rw (w, q) stays
Step-Move p after (enter w) = rw w stays
Step-Move p after (execute {t = t} w) = is_run t p.queue (rw w refl)
Step-Move p after (complete w) = rw w stays
Step-Move p after (leave w e) = rw w stays
Step-Move p after (stop w q c) = rw w stays
Step-Move p after (drain_empty q) = stays
Step-Move p after (drain_idle e i) = stays
Step-Move p after (drain_busy e i) = stays
Step-Move p after (swap_closed e c) = stays
Step-Move p after (swap_fails e c) = stays
Step-Move p after (close_channel e) = stays
Step-Move p after (join e w) = stays
Step-Move p after (give_up_joining e) = stays

-- Every interleaving of Submit, the worker and Drain does to the tasks what a first-in first-out queue
-- does: between any two states of the pool there is a run of that queue.
pub Steps-Moves :
    {Run : Type 0} (p after : Pool Run) → Steps p after → Moves (line_of p) (line_of after)
Steps-Moves p after done = finish
Steps-Moves p after (first then rest) = move (Step-Move p _ first) (Steps-Moves _ after rest)
