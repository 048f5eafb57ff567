-- ===== src/ExecutionPool/Drains.antt =====
-- internal/runtime/executionpool/pool.go: the end of a pool, by its worker and by Drain.
use realtime_speech_pipeline.Base.{
  ℕ, suc, true, false, ◌≡◌, refl, sym, ap, ◌∙◌, List, [], ◌∷◌, ◌++◌, append-nil, arith,
}
use realtime_speech_pipeline.Base.Int.{ℤ}
use realtime_speech_pipeline.Base.Lists.{length}
use realtime_speech_pipeline.ExecutionPool.{
  Task, is_valid, Worker, receiving, received, running, ran, leaving, stopped, Pool, new_manager,
  Step, Steps, done, ◌then◌, submit_open, send_closed, receive, enter, execute, complete, leave,
  drain_empty, drain_idle, swap_closed, close_channel,
}
use realtime_speech_pipeline.ExecutionPool.Invariant.{
  held, in_hand, uncounted, Sound, Step-Sound, run-Sound,
}

all_run :
    {Run : Type 0} (p : Pool Run)
    → Sound p
    → held p.worker ≡ []
    → p.queue ≡ []
    → p.accepted ≡ p.executed
all_run p s w q = s.0 ∙ ap (λ l. p.executed ++ l) (rw (w, q) refl) ∙ append-nil p.executed

-- Once a call of Drain has returned nil, every task that was accepted has been run, in the order in
-- which they were accepted, and counted as completed, and none is in flight.
pub drain-finishes :
    {Run : Type 0} (capacity : ℤ) (p : Pool Run) (n : ℕ)
    → Steps (new_manager capacity) p
    → p.drained ≡ suc n
    → (p.executed ≡ p.accepted) × (p.completed ≡ length p.accepted) × (p.in_flight ≡ 0)
drain-finishes capacity p n steps d =
    let s = run-Sound capacity p steps in
    let w = s.2.2 n d in
    let all = all_run p s (ap held w) (s.2.1 w).0 in
    (sym all, omega (arith, ap length all, s.1.2, ap uncounted w), s.1.3 ∙ rw w refl)

-- The worker can go on until all is run.
abbrev pub Finishes : {Run : Type 0} → Pool Run → Type 0
Finishes {Run} p =
    (after : Pool Run) × Steps p after
    × (after.executed ≡ p.accepted)
    × (after.accepted ≡ p.accepted)
    × (after.queue ≡ [])

go_on :
    {Run : Type 0} (p next : Pool Run)
    → Step p next
    → next.accepted ≡ p.accepted
    → Finishes next
    → Finishes p
go_on p next first same (after, rest, all, kept, empty) =
    (after, first then rest, all ∙ same, kept ∙ same, empty)

-- What follows when the worker is back at the receive, with the queue as it was.
abbrev Continues : {Run : Type 0} → Pool Run → Type 0
Continues {Run} p =
    (next : Pool Run) → next.worker ≡ receiving → next.queue ≡ p.queue → Sound next → Finishes next

from_leaving :
    {Run : Type 0} (p : Pool Run) → p.worker ≡ leaving → Sound p → Continues p → Finishes p
from_leaving p w s k =
    let step = leave w (s.1.3 ∙ ap in_hand w) in
    go_on p (record p { worker = receiving; in_flight = 0 }) step refl
      (k (record p { worker = receiving; in_flight = 0 }) refl refl (Step-Sound p _ step s))

from_ran : {Run : Type 0} (p : Pool Run) → p.worker ≡ ran → Sound p → Continues p → Finishes p
from_ran p w s k =
    let next = record p { worker = leaving; completed = suc p.completed } in
    go_on p next (complete w) refl (from_leaving next refl (Step-Sound p next (complete w) s) k)

from_running :
    {Run : Type 0} (p : Pool Run) (t : Task Run)
    → p.worker ≡ running t
    → Sound p
    → Continues p
    → Finishes p
from_running p t w s k =
    let next = record p { worker = ran; executed = p.executed ++ t ∷ [] } in
    go_on p next (execute w) refl (from_ran next refl (Step-Sound p next (execute w) s) k)

from_received :
    {Run : Type 0} (p : Pool Run) (t : Task Run)
    → p.worker ≡ received t
    → Sound p
    → Continues p
    → Finishes p
from_received p t w s k =
    let next = record p { worker = running t; in_flight = suc p.in_flight } in
    go_on p next (enter w) refl (from_running next t refl (Step-Sound p next (enter w) s) k)

from_receiving :
    {Run : Type 0} (queue : List (Task Run)) (p : Pool Run)
    → p.worker ≡ receiving
    → p.queue ≡ queue
    → Sound p
    → Finishes p
from_receiving [] p w q s = (p, done, sym (all_run p s (ap held w) q), refl, q)
from_receiving (t ∷ rest) p w q s =
    let next = record p { worker = received t; queue = rest } in
    go_on p next (receive w q) refl
      (from_received next t refl (Step-Sound p next (receive w q) s) (from_receiving rest))

from_any : {Run : Type 0} (w : Worker Run) (p : Pool Run) → p.worker ≡ w → Sound p → Finishes p
from_any receiving p w s = from_receiving p.queue p w refl s
from_any (received t) p w s = from_received p t w s (from_receiving p.queue)
from_any (running t) p w s = from_running p t w s (from_receiving p.queue)
from_any ran p w s = from_ran p w s (from_receiving p.queue)
from_any leaving p w s = from_leaving p w s (from_receiving p.queue)
from_any stopped p w s = (p, done, sym (all_run p s (ap held w) (s.2.1 w).0), refl, (s.2.1 w).0)

-- From every state that a pool comes to there is a way on that accepts no other task, runs all those
-- accepted so far in their order, and leaves the queue empty.
worker-Finishes :
    {Run : Type 0} (capacity : ℤ) (p : Pool Run) → Steps (new_manager capacity) p → Finishes p
worker-Finishes capacity p steps = from_any p.worker p refl (run-Sound capacity p steps)

-- From every open pool with an empty queue and no task in flight, and for every valid task, there is a
-- run in which a send on the closed channel panics.
pub drain-panics :
    {Run : Type 0} (p : Pool Run) (t : Task Run)
    → is_valid t ≡ true
    → p.closed ≡ false
    → p.queue ≡ []
    → p.in_flight ≡ 0
    → (after : Pool Run) × Steps p after × (after.panicked ≡ true)
drain-panics p t v c q i = (
  _,
  submit_open t v c
      then drain_empty q
      then drain_idle refl i
      then swap_closed refl c
      then close_channel refl
      then send_closed [] p.sending t refl refl
      then done,
  refl,
)
