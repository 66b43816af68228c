-- ===== src/Timer.antt =====
-- include/util/timer.hpp: the timers, the queue of deadlines and the thread that serves it. What a
-- thread does between taking the mutex and giving it back is one step. Times count the clock's
-- nanoseconds; `pick` says which of the queue's items is its top.
pub mod Queue
pub mod Cancel
pub mod Serve
pub mod Sleep
mod Tests
use code_knife.Prelude.{
  ℕ, zero, suc, ◌+◌, ◌*◌, ◌%◌, ◌^◌, ◌==◌, ltb, leb, if◌then◌else◌, Bool, true, false, not, ◌&&◌,
  ◌||◌, Option, none, some, List, [], ◌∷◌, ◌++◌,
}

-- TimerItem; a callback is a name.
pub record TimerItem : Type 0 where
  pub id : ℕ
  pub next_time : ℕ
  pub callback : ℕ
  pub interval_ms : ℕ
  pub cancelled : Bool

-- Where the thread gives the mutex back: at the top of its loop, in the wait for a timer, in the
-- wait for a time, before a callback, or at its end.
pub data Phase : Type 0 where
  at_top : Phase
  idle : Phase
  sleeping : ℕ → Phase
  calling : TimerItem → Phase
  finished : Phase

pub record Timer : Type 0 where
  pub running : Bool
  pub next_timer_id : ℕ
  pub timers : ℕ → Option TimerItem
  pub timer_queue : List TimerItem
  pub phase : Phase

-- The map: timers_[id] = item, and timers_.erase(id).
abbrev pub set_timer : ℕ → Option TimerItem → (ℕ → Option TimerItem) → ℕ → Option TimerItem
set_timer id item timers j = if j == id then item else timers j

abbrev pub milliseconds : ℕ → ℕ
milliseconds n = n * 1000000

-- The item at a position, and the others.
pub take_at : {A : Type 0} → ℕ → List A → Option (A × List A)
take_at n [] = none
take_at zero (x ∷ xs) = some (x, xs)
take_at (suc n) (x ∷ xs) = elim (take_at n xs) [ none ↦ none | some (y, rest) ↦ some (y, x ∷ rest) ]

-- The constructor, once its thread runs.
abbrev pub create : Timer
create = record {
  running = true;
  next_timer_id = 1;
  timers = λ id. none;
  timer_queue = [];
  phase = at_top;
}

-- schedule_at, with the id that it returns.
pub schedule_at : ℕ → ℕ → ℕ → Timer → ℕ × Timer
schedule_at time callback interval_ms t =
    let id = t.next_timer_id in
    let item : TimerItem = record {
      id = id;
      next_time = time;
      callback = callback;
      interval_ms = interval_ms;
      cancelled = false;
    } in
    (
      id,
      record t {
        next_timer_id = (t.next_timer_id + 1) % 2 ^ 64;
        timers = set_timer id (some item) t.timers;
        timer_queue = item ∷ t.timer_queue;
      },
    )

pub schedule_once : ℕ → ℕ → ℕ → Timer → ℕ × Timer
unfolding schedule_at
schedule_once now delay_ms callback t = schedule_at (now + milliseconds delay_ms) callback 0 t

pub schedule_repeated : ℕ → ℕ → ℕ → ℕ → Timer → ℕ × Timer
unfolding schedule_at
schedule_repeated now delay_ms interval_ms callback t =
    schedule_at (now + milliseconds delay_ms) callback interval_ms t

pub cancel : ℕ → Timer → Bool × Timer
cancel id t = elim (t.timers id) [
  | none ↦ (false, t)
  | some item ↦
      (true, record t { timers = set_timer id (some (record item { cancelled = true })) t.timers })
]

-- stop, up to the thread's end, for which it waits.
pub stop : Timer → Timer
stop t =
    if not t.running then t else record t { running = false; timers = λ id. none; timer_queue = [] }

-- timers_.find(id) != timers_.end() and not cancelled
pub is_live : ℕ → Timer → Bool
is_live id t = elim (t.timers id) [ none ↦ false | some item ↦ not item.cancelled ]

-- A periodic timer gets its next time, counted from now; a one-time timer leaves the map.
pub reschedule : ℕ → TimerItem → Timer → Timer
reschedule now item t =
    let next : TimerItem = record item { next_time = now + milliseconds item.interval_ms } in
    if ltb 0 item.interval_ms
    then record t {
      timer_queue = next ∷ t.timer_queue;
      timers = set_timer item.id (some next) t.timers;
      phase = calling item;
    }
    else record t { timers = set_timer item.id none t.timers; phase = calling item }

-- A pass of the loop with its top item, which is out of the queue.
pub serve : ℕ → TimerItem → Timer → Timer
unfolding is_live reschedule
serve now item t =
    if not (is_live item.id t)
    then t
    else if ltb now item.next_time
    then record t { timer_queue = item ∷ t.timer_queue; phase = sleeping item.next_time }
    else reschedule now item t

module _ (pick : List TimerItem → ℕ) where
  -- A pass of the loop, until it waits, calls or is at its top again.
  pub pass : ℕ → Timer → Timer
  unfolding take_at serve
  pass now t =
      if not t.running
      then record t { phase = finished }
      else elim (take_at (pick t.timer_queue) t.timer_queue) [
        | none ↦ record t { phase = idle }
        | some (item, rest) ↦ serve now item (record t { timer_queue = rest })
      ]

  abbrev pub is_empty : List TimerItem → Bool
  is_empty [] = true
  is_empty (x ∷ xs) = false

  -- The end of a wait: the loop ends or goes on.
  abbrev pub wake : Timer → Timer
  wake t = record t { phase = if t.running then at_top else finished }

  -- The thread's next step at a time, from its phase, with the callback that it calls.
  pub timer_loop : ℕ → Timer → List TimerItem × Timer
  unfolding pass
  timer_loop now t = elim t.phase [
    | at_top ↦ ([], pass now t)
    | idle ↦ ([], if not t.running || not (is_empty t.timer_queue) then wake t else t)
    | sleeping until ↦ ([], if not t.running || leb until now then wake t else t)
    | calling item ↦ (if t.running then item ∷ [] else [], record t { phase = at_top })
    | finished ↦ ([], t)
  ]

  -- What other threads and the timer's own thread do, in the order in which they get the mutex.
  pub data Action : Type 0 where
    schedule_action : ℕ → ℕ → ℕ → Action
    cancel_action : ℕ → Action
    stop_action : Action
    loop_action : ℕ → Action

  pub perform : Action → Timer → List TimerItem × Timer
  unfolding schedule_at cancel stop timer_loop
  perform (schedule_action time callback interval_ms) t =
      ([], (schedule_at time callback interval_ms t).1)
  perform (cancel_action id) t = ([], (cancel id t).1)
  perform stop_action t = ([], stop t)
  perform (loop_action now) t = timer_loop now t

  -- A run, with its calls in order.
  pub run : List Action → Timer → List TimerItem × Timer
  unfolding perform
  run [] t = ([], t)
  run (a ∷ as') t =
      let (calls, next) = perform a t in let (later, last) = run as' next in (calls ++ later, last)
