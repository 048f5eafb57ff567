-- ===== src/ExecutionPool.antt =====
-- internal/runtime/executionpool/pool.go: the execution pool, one worker over a bounded queue.
-- Its goroutines run interleaved: a step is one of their operations on the channel or on an atomic.
pub mod Invariant
pub mod Refinement
pub mod Drains
use realtime_speech_pipeline.Base.{
  ℕ, zero, suc, ◌≤◌, ◌<◌, String, Bool, true, false, not, ◌&&◌, ◌≡◌, Option, none, some, List, [],
  ◌∷◌, ◌++◌, if◌then◌else◌, ltb,
}
use realtime_speech_pipeline.Base.Int.{ℤ, pos, negsuc}
use realtime_speech_pipeline.Base.Lists.{length}
use realtime_speech_pipeline.Base.Text.{is_empty}

-- `Run` is the type of the functions that are executed; what they do is not the pool's.
pub record Task (Run : Type 0) : Type 0 where
  pub id : String
  pub run : Option Run

abbrev pub is_some : {A : Type 0} → Option A → Bool
is_some none = false
is_some (some a) = true

-- The first two guards of Submit.
abbrev pub is_valid : {Run : Type 0} → Task Run → Bool
is_valid t = not (is_empty t.id) && is_some t.run

-- Where the worker's loop stands: at the receive, before `inFlight.Add(1)`, before `task.Run()`,
-- before `completed.Add(1)`, before `inFlight.Add(-1)`, and past the loop.
pub data Worker (Run : Type 0) : Type 0 where
  receiving : Worker Run
  received : Task Run → Worker Run
  running : Task Run → Worker Run
  ran : Worker Run
  leaving : Worker Run
  stopped : Worker Run

pub record Pool (Run : Type 0) : Type 0 where
  -- the channel and the atomics of Manager; the counters are counted without bound
  pub capacity : ℕ
  pub queue : List (Task Run)
  pub channel_closed : Bool
  pub submitted : ℕ
  pub completed : ℕ
  pub rejected : ℕ
  pub in_flight : ℕ
  pub closed : Bool
  -- the worker, and the calls of Submit past the test of `closed`, past the send, and before
  -- `rejected.Add(1)`
  pub worker : Worker Run
  pub sending : List (Task Run)
  pub counting : ℕ
  pub refusing : ℕ
  -- a send on the closed channel was tried
  pub panicked : Bool
  -- the calls of Drain past the test of the queue, past that of `inFlight`, past the swap of `closed`,
  -- before the wait for the worker, and those that returned nil
  pub observing : ℕ
  pub idle_seen : ℕ
  pub closing : ℕ
  pub joining : ℕ
  pub drained : ℕ
  -- the tasks that were sent, and those that were run, in their order
  pub accepted : List (Task Run)
  pub executed : List (Task Run)

abbrev pub capacity_of : ℤ → ℕ
capacity_of (pos zero) = 64
capacity_of (pos (suc n)) = suc n
capacity_of (negsuc n) = 64

unfoldable pub new_manager : {Run : Type 0} → ℤ → Pool Run
new_manager capacity = record {
  capacity = capacity_of capacity;
  queue = [];
  channel_closed = false;
  submitted = 0;
  completed = 0;
  rejected = 0;
  in_flight = 0;
  closed = false;
  worker = receiving;
  sending = [];
  counting = 0;
  refusing = 0;
  panicked = false;
  observing = 0;
  idle_seen = 0;
  closing = 0;
  joining = 0;
  drained = 0;
  accepted = [];
  executed = [];
}

-- The steps of Submit, of the worker and of Drain, in the order of the source.
pub data Step {Run : Type 0} (p : Pool Run) : Pool Run → Type 0 where
  submit_open :
      (t : Task Run)
      → is_valid t ≡ true
      → p.closed ≡ false
      → Step p (record p { sending = t ∷ p.sending })
  submit_closed :
      (t : Task Run)
      → is_valid t ≡ true
      → p.closed ≡ true
      → Step p (record p { refusing = suc p.refusing })
  send :
      (front back : List (Task Run)) (t : Task Run)
      → p.sending ≡ front ++ t ∷ back
      → p.channel_closed ≡ false
      → length p.queue < p.capacity
      → Step p (record p {
        sending = front ++ back;
        queue = p.queue ++ t ∷ [];
        accepted = p.accepted ++ t ∷ [];
        counting = suc p.counting;
      })
  send_full :
      (front back : List (Task Run)) (t : Task Run)
      → p.sending ≡ front ++ t ∷ back
      → p.channel_closed ≡ false
      → p.capacity ≤ length p.queue
      → Step p (record p { sending = front ++ back; refusing = suc p.refusing })
  send_closed :
      (front back : List (Task Run)) (t : Task Run)
      → p.sending ≡ front ++ t ∷ back
      → p.channel_closed ≡ true
      → Step p (record p { sending = front ++ back; panicked = true })
  count_submitted :
      {n : ℕ} → p.counting ≡ suc n → Step p (record p { counting = n; submitted = suc p.submitted })
  count_rejected :
      {n : ℕ} → p.refusing ≡ suc n → Step p (record p { refusing = n; rejected = suc p.rejected })
  receive :
      {t : Task Run} {rest : List (Task Run)}
      → p.worker ≡ receiving
      → p.queue ≡ t ∷ rest
      → Step p (record p { worker = received t; queue = rest })
  enter :
      {t : Task Run}
      → p.worker ≡ received t
      → Step p (record p { worker = running t; in_flight = suc p.in_flight })
  execute :
      {t : Task Run}
      → p.worker ≡ running t
      → Step p (record p { worker = ran; executed = p.executed ++ t ∷ [] })
  complete : p.worker ≡ ran → Step p (record p { worker = leaving; completed = suc p.completed })
  leave :
      {n : ℕ}
      → p.worker ≡ leaving
      → p.in_flight ≡ suc n
      → Step p (record p { worker = receiving; in_flight = n })
  stop :
      p.worker ≡ receiving
      → p.queue ≡ []
      → p.channel_closed ≡ true
      → Step p (record p { worker = stopped })
  drain_empty : p.queue ≡ [] → Step p (record p { observing = suc p.observing })
  drain_idle :
      {n : ℕ}
      → p.observing ≡ suc n
      → p.in_flight ≡ 0
      → Step p (record p { observing = n; idle_seen = suc p.idle_seen })
  drain_busy :
      {n m : ℕ} → p.observing ≡ suc n → p.in_flight ≡ suc m → Step p (record p { observing = n })
  swap_closed :
      {n : ℕ}
      → p.idle_seen ≡ suc n
      → p.closed ≡ false
      → Step p (record p { idle_seen = n; closed = true; closing = suc p.closing })
  swap_fails :
      {n : ℕ}
      → p.idle_seen ≡ suc n
      → p.closed ≡ true
      → Step p (record p { idle_seen = n; joining = suc p.joining })
  close_channel :
      {n : ℕ}
      → p.closing ≡ suc n
      → Step p (record p { closing = n; channel_closed = true; joining = suc p.joining })
  join :
      {n : ℕ}
      → p.joining ≡ suc n
      → p.worker ≡ stopped
      → Step p (record p { joining = n; drained = suc p.drained })
  -- a Drain whose context is done returns its error
  give_up_joining : {n : ℕ} → p.joining ≡ suc n → Step p (record p { joining = n })

infixr 5 ◌then◌
pub data Steps {Run : Type 0} : Pool Run → Pool Run → Type 0 where
  done : {p : Pool Run} → Steps p p
  ◌then◌ : {p q r : Pool Run} → Step p q → Steps q r → Steps p r
