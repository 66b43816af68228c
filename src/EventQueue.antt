-- ===== src/EventQueue.antt =====
-- include/cobject/capplication.hpp and src/cobject/capplication.cpp, with CObject::sendEvent,
-- deleteLater and the events of include/cobject/event.hpp: the queue of posted events and the main
-- loop.
-- A pointer is an address, 0 for null. The static pointer to the application is an optional
-- application; the application that `exec` is called on is that one. An event handler (the virtual
-- `event`), the dispatcher's `wakeUp` and its `processEvents` are parameters that act on the whole
-- state.
pub mod Rounds
pub mod Removal
pub mod MainLoop
mod Tests
use code_knife.Prelude.{
  ℕ, zero, suc, ◌≡◌, ◌==◌, if◌then◌else◌, Bool, true, false, not, ◌&&◌, ◌||◌, Option, none, some,
  List, [], ◌∷◌, ◌++◌, map, filter,
}

pub data EventType : Type 0 where
  no_type timer thread_change meta_call socket_act deferred_delete child_added child_removed :
      EventType
  user : ℕ → EventType

pub type_code : EventType → ℕ
type_code EventType.no_type = 0
type_code EventType.timer = 1
type_code EventType.thread_change = 2
type_code EventType.meta_call = 3
type_code EventType.socket_act = 4
type_code EventType.deferred_delete = 5
type_code EventType.child_added = 6
type_code EventType.child_removed = 7
type_code (EventType.user n) = n

pub record Event : Type 0 where
  pub address : ℕ
  pub event_type : EventType

pub record PostedEvent : Type 0 where
  pub receiver : ℕ
  pub event : Event
  pub priority : ℕ

pub record Application : Type 0 where
  pub dispatcher : ℕ
  pub event_queue : List PostedEvent
  pub quit_flag : Bool
  pub return_code : ℕ

-- `deleted` lists the events that were deleted, in order; `world` is the state that handlers own.
pub record State (W : Type 0) : Type 0 where
  pub instance' : Option Application
  pub deleted : List Event
  pub world : W

abbrev pub Handler : Type 0 → Type 0
Handler W = ℕ → Event → State W → Bool × State W

-- What `exec` comes to: no dispatcher (-1), the return code, or still running when the fuel is out.
pub data ExecResult : Type 0 where
  no_dispatcher : ExecResult
  returned : ℕ → ExecResult
  running : ExecResult

abbrev pub enqueue : PostedEvent → Application → Application
enqueue posted app = record app { event_queue = app.event_queue ++ (posted ∷ []) }

-- The test of `removePostedEvents`.
pub is_removed : ℕ → EventType → PostedEvent → Bool
unfolding type_code
is_removed receiver kind posted =
    (receiver == 0 || posted.receiver == receiver)
    && (type_code kind == 0 || type_code posted.event.event_type == type_code kind)

module _ {W : Type 0} where
  abbrev pub delete : Option Event → State W → State W
  delete none s = s
  delete (some e) s = record s { deleted = s.deleted ++ (e ∷ []) }

  pub post_event : (W → W) → ℕ → Option Event → State W → State W
  post_event wake_up receiver none s = s
  post_event wake_up receiver (some e) s = elim s.instance' [
    | none ↦ delete (some e) s
    | some app ↦ if receiver == 0 then delete (some e) s else record s {
      instance' = some (enqueue (record { receiver = receiver; event = e; priority = 0 }) app);
      world = if app.dispatcher == 0 then s.world else wake_up s.world;
    }
  ]

  -- CObject::deleteLater, with the new event's address.
  pub delete_later : (W → W) → ℕ → ℕ → State W → State W
  unfolding post_event
  delete_later wake_up object fresh s =
      post_event wake_up object
        (some (record { address = fresh; event_type = EventType.deferred_delete })) s

  pub send_event : Handler W → ℕ → Option Event → State W → Bool × State W
  send_event handle receiver none s = (false, s)
  send_event handle receiver (some e) s = if receiver == 0 then (false, s) else handle receiver e s

  pub remove_posted_events : ℕ → EventType → State W → State W
  unfolding is_removed
  remove_posted_events receiver kind s = elim s.instance' [
    | none ↦ s
    | some app ↦ record s {
      instance' = some (record app {
        event_queue = filter (λ p. not (is_removed receiver kind p)) app.event_queue;
      });
      deleted = s.deleted ++ map (λ p. p.event) (filter (is_removed receiver kind) app.event_queue);
    }
  ]

  -- The loop of `processPostedEvents` over the events that it took.
  pub deliver : Handler W → List PostedEvent → State W → State W
  deliver handle [] s = s
  deliver handle (p ∷ ps) s = deliver handle ps (
      delete (some p.event)
        (if p.receiver == 0 then s else (send_event handle p.receiver (some p.event) s).1))

  pub process_posted_events : Handler W → State W → State W
  unfolding deliver
  process_posted_events handle s = elim s.instance' [
    | none ↦ s
    | some app ↦
        deliver handle app.event_queue
          (record s { instance' = some (record app { event_queue = [] }) })
  ]

  abbrev pub with_app : (Application → Application) → State W → State W
  with_app f s = elim s.instance' [ none ↦ s | some app ↦ record s { instance' = some (f app) } ]

  pub quit : State W → State W
  quit s = with_app (λ app. record app { quit_flag = true }) s

  pub exit : ℕ → State W → State W
  exit code s = with_app (λ app. record app { quit_flag = true; return_code = code }) s

  -- One turn of the loop of `exec`.
  pub turn : Handler W → (State W → State W) → State W → State W
  unfolding process_posted_events
  turn handle process_events s = process_posted_events handle (process_events s)

  -- The loop of `exec` for at most `fuel` turns.
  pub loop : ℕ → Handler W → (State W → State W) → State W → ExecResult × State W
  unfolding turn
  loop zero handle process_events s = (running, s)
  loop (suc fuel) handle process_events s = elim s.instance' [
    | none ↦ (running, s)
    | some app ↦
        if app.quit_flag
        then (returned app.return_code, s)
        else loop fuel handle process_events (turn handle process_events s)
  ]

  pub exec : ℕ → Handler W → (State W → State W) → State W → ExecResult × State W
  unfolding loop
  exec fuel handle process_events s = elim s.instance' [
    | none ↦ (running, s)
    | some app ↦
        if app.dispatcher == 0
        then (no_dispatcher, s)
        else loop fuel handle process_events
            (record s { instance' = some (record app { quit_flag = false; return_code = 0 }) })
  ]
