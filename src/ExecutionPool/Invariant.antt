-- ===== src/ExecutionPool/Invariant.antt =====
-- internal/runtime/executionpool/pool.go: what every interleaving of the pool keeps.
use realtime_speech_pipeline.Base.{
  ℕ, suc, ◌+◌, ◌≤◌, Bool, true, false, ◌≡◌, refl, ap, ◌∙◌, List, [], ◌∷◌, ◌++◌, append_assoc, arith,
}
use realtime_speech_pipeline.Base.Int.{ℤ}
use realtime_speech_pipeline.Base.Lists.{length, length-append}
use realtime_speech_pipeline.ExecutionPool.{
  Task, Worker, receiving, received, running, ran, leaving, stopped, Pool, new_manager, Step, Steps,
  done, submit_open, submit_closed, send, send_full, send_closed, count_submitted, count_rejected,
  receive, enter, execute, complete, leave, stop, drain_empty, drain_idle, drain_busy, swap_closed,
  swap_fails, close_channel, join, give_up_joining, ◌then◌,
}

abbrev pub held : {Run : Type 0} → Worker Run → List (Task Run)
held (received t) = t ∷ []
held (running t) = t ∷ []
held receiving = []
held ran = []
held leaving = []
held stopped = []

-- The worker is between the two updates of `inFlight`.
abbrev pub in_hand : {Run : Type 0} → Worker Run → ℕ
in_hand (running t) = 1
in_hand ran = 1
in_hand leaving = 1
in_hand receiving = 0
in_hand (received t) = 0
in_hand stopped = 0

abbrev pub uncounted : {Run : Type 0} → Worker Run → ℕ
uncounted ran = 1
uncounted receiving = 0
uncounted (received t) = 0
uncounted (running t) = 0
uncounted leaving = 0
uncounted stopped = 0

abbrev bit : Bool → ℕ
bit true = 1
bit false = 0

bit-bound : (b : Bool) → bit b ≤ 1
bit-bound true = omega arith
bit-bound false = omega arith

-- The tasks are run in the order in which they were sent, each once.
abbrev Fifo : {Run : Type 0} → Pool Run → Type 0
Fifo p = p.accepted ≡ p.executed ++ (held p.worker ++ p.queue)

abbrev Counted : {Run : Type 0} → Pool Run → Type 0
Counted p =
    (length p.queue ≤ p.capacity)
    × (length p.accepted ≡ p.submitted + p.counting)
    × (length p.executed ≡ p.completed + uncounted p.worker)
    × (p.in_flight ≡ in_hand p.worker)

-- The channel is closed at most once; the worker stops, and a Drain returns nil, only when all is run.
abbrev Closes : {Run : Type 0} → Pool Run → Type 0
Closes p =
    (bit p.closed ≡ p.closing + bit p.channel_closed)
    × (p.worker ≡ stopped → (p.queue ≡ []) × (p.channel_closed ≡ true))
    × ((n : ℕ) → p.drained ≡ suc n → p.worker ≡ stopped)

abbrev pub Sound : {Run : Type 0} → Pool Run → Type 0
Sound p = Fifo p × Counted p × Closes p

snoc_fifo :
    {Run : Type 0} (p : Pool Run) (t : Task Run)
    → p.accepted ≡ p.executed ++ (held p.worker ++ p.queue)
    → p.accepted ++ t ∷ [] ≡ p.executed ++ (held p.worker ++ (p.queue ++ t ∷ []))
snoc_fifo p t fifo =
    ap (λ l. l ++ t ∷ []) fifo
    ∙ append_assoc p.executed (held p.worker ++ p.queue) (t ∷ [])
    ∙ ap (λ l. p.executed ++ l) (append_assoc (held p.worker) p.queue (t ∷ []))

new_manager-Sound : {Run : Type 0} (capacity : ℤ) → Sound (new_manager {Run = Run} capacity)
unfolding new_manager
new_manager-Sound capacity = (refl, (omega arith, refl, refl, refl), (refl, λ e. cc, λ n e. cc))

pub Step-Sound : {Run : Type 0} (p after : Pool Run) → Step p after → Sound p → Sound after
Step-Sound p after (submit_open t v c) s = s
Step-Sound p after (submit_closed t v c) s = s
Step-Sound p after (send front back t e c room)
      (fifo, (bound, sent, finished, busy), (latch, halted, joined)) =
    (
      snoc_fifo p t fifo,
      (
        omega (arith, room, length-append p.queue (t ∷ [])),
        omega (arith, sent, length-append p.accepted (t ∷ [])),
        finished,
        busy,
      ),
      (latch, (λ w. cc (halted w).1), joined),
    )
Step-Sound p after (send_full front back t e c full) s = s
Step-Sound p after (send_closed front back t e c) s = s
Step-Sound p after (count_submitted e) (fifo, (bound, sent, finished, busy), closes) =
    (fifo, (bound, omega (arith, sent, e), finished, busy), closes)
Step-Sound p after (count_rejected e) s = s
Step-Sound p after (receive w q) (fifo, (bound, sent, finished, busy), (latch, halted, joined)) = (
  fifo ∙ rw (w, q) refl,
  (omega (arith, bound, ap length q), sent, finished ∙ rw w refl, busy ∙ rw w refl),
  (latch, (λ e. cc), λ n d. cc (joined n d)),
)
Step-Sound p after (enter w) (fifo, (bound, sent, finished, busy), (latch, halted, joined)) = (
  fifo ∙ rw w refl,
  (bound, sent, finished ∙ rw w refl, ap suc busy ∙ rw w refl),
  (latch, (λ e. cc), λ n d. cc (joined n d)),
)
Step-Sound p after (execute {t = t} w)
      (fifo, (bound, sent, finished, busy), (latch, halted, joined)) =
    (
      fifo ∙ rw (w, append_assoc p.executed (t ∷ []) p.queue) refl,
      (
        bound,
        sent,
        omega (arith, length-append p.executed (t ∷ []), finished, ap uncounted w),
        busy ∙ rw w refl,
      ),
      (latch, (λ e. cc), λ n d. cc (joined n d)),
    )
Step-Sound p after (complete w) (fifo, (bound, sent, finished, busy), (latch, halted, joined)) = (
  fifo ∙ rw w refl,
  (bound, sent, omega (arith, finished, ap uncounted w), busy ∙ rw w refl),
  (latch, (λ e. cc), λ n d. cc (joined n d)),
)
Step-Sound p after (leave w e) (fifo, (bound, sent, finished, busy), (latch, halted, joined)) = (
  fifo ∙ rw w refl,
  (bound, sent, finished ∙ rw w refl, omega (arith, e, busy, ap in_hand w)),
  (latch, (λ e. cc), λ n d. cc (joined n d)),
)
Step-Sound p after (stop w q c) (fifo, (bound, sent, finished, busy), (latch, halted, joined)) = (
  fifo ∙ rw w refl,
  (bound, sent, finished ∙ rw w refl, busy ∙ rw w refl),
  (latch, (λ e. (q, c)), λ n d. refl),
)
Step-Sound p after (drain_empty q) s = s
Step-Sound p after (drain_idle e i) s = s
Step-Sound p after (drain_busy e i) s = s
Step-Sound p after (swap_closed e c) (fifo, counted, (latch, halted, joined)) =
    (fifo, counted, (omega (arith, latch, ap bit c), halted, joined))
Step-Sound p after (swap_fails e c) s = s
Step-Sound p after (close_channel e) (fifo, counted, (latch, halted, joined)) = (
  fifo,
  counted,
  (
    omega (arith, latch, e, bit-bound p.closed, bit-bound p.channel_closed),
    (λ w. ((halted w).0, refl)),
    joined,
  ),
)
Step-Sound p after (join e w) (fifo, counted, (latch, halted, joined)) =
    (fifo, counted, (latch, halted, λ n d. w))
Step-Sound p after (give_up_joining e) s = s

pub Steps-Sound : {Run : Type 0} (p after : Pool Run) → Steps p after → Sound p → Sound after
Steps-Sound p q done s = s
Steps-Sound p r (first then rest) s = Steps-Sound _ r rest (Step-Sound p _ first s)

-- Whatever the interleaving, the tasks that were accepted are those that were run, then the one that the
-- worker holds, then the queue, in this order; the queue keeps to its capacity; the counters say how many
-- were accepted and run, but for the calls that are about to count; `inFlight` is one while the worker is
-- in a task, and zero otherwise; the channel is closed at most once; the worker stops, and a Drain
-- returns nil, only when the queue is empty and closed.
pub run-Sound :
    {Run : Type 0} (capacity : ℤ) (p : Pool Run) → Steps (new_manager capacity) p → Sound p
run-Sound capacity p steps = Steps-Sound (new_manager capacity) p steps (new_manager-Sound capacity)
