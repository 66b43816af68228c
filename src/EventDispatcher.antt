-- ===== src/EventDispatcher.antt =====
-- include/cobject/event_dispatcher.hpp, src/cobject/event_dispatcher_linux.cpp and the timer calls of
-- src/cobject/cobject.cpp: the dispatcher's timers and socket notifiers. Times count milliseconds of
-- the steady clock and are arguments; they are unbounded, where the source has int64_t and a sum
-- beyond its range is undefined. GLib's turn is the parameter `iteration`, and the handlers of
-- events are the parameter `send`; they act on the rest of the world.
pub mod Timeout
pub mod Ids
pub mod Timers
pub mod Delivery
mod Tests
use code_knife.Prelude.{
  ℕ, zero, suc, ◌+◌, ◌-◌, ◌^◌, ◌%◌, ◌==◌, ltb, leb, if◌then◌else◌, Bool, true, false, not, ◌&&◌,
  ◌||◌, Option, none, some, List, [], ◌∷◌, ◌++◌, filter, length, find_if,
}

-- A signed number: n, or -(n + 1).
pub data ℤ : Type 0 where
  pos : ℕ → ℤ
  negsuc : ℕ → ℤ

abbrev pub difference : ℕ → ℕ → ℤ
difference m n = if leb n m then pos (m - n) else negsuc (n - m - 1)

abbrev pub is_less : ℤ → ℤ → Bool
is_less (pos m) (pos n) = ltb m n
is_less (pos m) (negsuc n) = false
is_less (negsuc m) (pos n) = true
is_less (negsuc m) (negsuc n) = ltb n m

abbrev pub int_max : ℕ
int_max = 2147483647

abbrev pub int64_max : ℕ
int64_max = 9223372036854775807

pub record TimerInfo : Type 0 where
  pub id : ℕ
  pub interval : ℕ
  pub next_timeout : ℕ
  pub receiver : ℕ
  pub activated : Bool

-- GTimerSource
pub record TimerSource : Type 0 where
  pub timer_list : List TimerInfo
  pub run_with_idle_priority : Bool

pub data SocketNotifierType : Type 0 where
  read_type : SocketNotifierType
  write_type : SocketNotifierType
  exception_type : SocketNotifierType

pub record SocketNotifier : Type 0 where
  pub socket : ℕ
  pub notifier_type : SocketNotifierType
  pub receiver : ℕ
  pub enable : Bool

-- GPollFDWithSocketNotifier; of `revents` the model has whether it has G_IO_INVAL, and whether it has
-- one of `events`.
pub record PollFd : Type 0 where
  pub notifier : ℕ
  pub fd : ℕ
  pub events : ℕ
  pub is_invalid : Bool
  pub is_ready : Bool

-- An EventDispatcherLinux; a source that was not set up, or is shut down, is none. `notifiers` is the
-- memory of the notifiers, at their addresses.
pub record Dispatcher : Type 0 where
  pub timer_source : Option TimerSource
  pub socket_notifier_source : Option (List PollFd)
  pub idle_timer_source : Bool
  pub notifiers : ℕ → SocketNotifier

-- The loop of getNextTimerTimeout, from the least difference so far.
pub least_timeout : ℕ → ℤ → List TimerInfo → ℤ
least_timeout now least [] = least
least_timeout now least (t ∷ ts) =
    let timeout = difference t.next_timeout now in
    least_timeout now (if is_less timeout least then timeout else least) ts

pub get_next_timer_timeout : ℕ → TimerSource → ℤ
unfolding least_timeout
get_next_timer_timeout now s = elim s.timer_list [
  | [] ↦ negsuc 0
  | t ∷ ts ↦ least_timeout now (pos int64_max) (t ∷ ts)
]

pub saturate_cast : ℤ → ℤ
saturate_cast (negsuc n) = pos 0
saturate_cast (pos n) = if ltb int_max n then pos int_max else pos n

-- timerSourcePrepare: the timeout that it stores, and what it returns.
pub timer_source_prepare : ℕ → TimerSource → ℤ × Bool
unfolding get_next_timer_timeout saturate_cast
timer_source_prepare now s =
    let remaining = get_next_timer_timeout now s in
    if s.run_with_idle_priority
    then (negsuc 0, false)
    else if is_less remaining (pos 0)
    then (negsuc 0, false)
    else if not (is_less (pos 0) remaining)
    then (pos 0, true)
    else (saturate_cast remaining, false)

pub any_due : ℕ → List TimerInfo → Bool
any_due now [] = false
any_due now (t ∷ ts) = leb t.next_timeout now || any_due now ts

pub timer_source_check : ℕ → TimerSource → Bool
unfolding any_due
timer_source_check now s = if s.run_with_idle_priority then false else any_due now s.timer_list

-- The loop of timerSourceDispatch and idleTimerSourceDispatch.
pub activate : ℕ → List TimerInfo → List TimerInfo
activate now [] = []
activate now (t ∷ ts) =
    let rest = activate now ts in
    if leb t.next_timeout now
    then record t { activated = true; next_timeout = now + t.interval } ∷ rest
    else t ∷ rest

pub timer_source_dispatch : ℕ → TimerSource → TimerSource
unfolding activate
timer_source_dispatch now s = record s { timer_list = activate now s.timer_list }

pub idle_timer_source_dispatch : ℕ → TimerSource → TimerSource
unfolding activate
idle_timer_source_dispatch now s = record s {
  timer_list = activate now s.timer_list;
  run_with_idle_priority = true;
}

abbrev pub replace_timer : ℕ → TimerInfo → List TimerInfo → List TimerInfo
replace_timer id timer [] = []
replace_timer id timer (t ∷ ts) =
    let rest = replace_timer id timer ts in if t.id == id then timer ∷ ts else t ∷ rest

-- The list of a registration, and of its end.
pub register_in : ℕ → TimerInfo → List TimerInfo → List TimerInfo
register_in id timer ts = elim (find_if (λ t. t.id == id) ts) [
  | some old ↦ replace_timer id timer ts
  | none ↦ ts ++ (timer ∷ [])
]

abbrev pub erase_timer : ℕ → List TimerInfo → List TimerInfo
erase_timer id [] = []
erase_timer id (t ∷ ts) = let rest = erase_timer id ts in if t.id == id then ts else t ∷ rest

pub register_timer : ℕ → ℕ → ℕ → ℕ → Dispatcher → Dispatcher
unfolding register_in
register_timer now id interval receiver d = elim d.timer_source [
  | none ↦ d
  | some s ↦
      let timer : TimerInfo = record {
        id = id;
        interval = interval;
        next_timeout = now + interval;
        receiver = receiver;
        activated = false;
      } in
      record d { timer_source = some (record s { timer_list = register_in id timer s.timer_list }) }
]

pub unregister_timer : ℕ → Dispatcher → Bool × Dispatcher
unregister_timer id d = elim d.timer_source [
  | none ↦ (false, d)
  | some s ↦ elim (find_if (λ t. t.id == id) s.timer_list) [
    | none ↦ (false, d)
    | some old ↦ (
      true,
      record d { timer_source = some (record s { timer_list = erase_timer id s.timer_list }) },
    )
  ]
]

pub unregister_timers : ℕ → Dispatcher → Bool × Dispatcher
unregister_timers object d = elim d.timer_source [
  | none ↦ (false, d)
  | some s ↦
      let kept = filter (λ t. not (t.receiver == object)) s.timer_list in
      if object == 0 then (false, d) else (
        not (length kept == length s.timer_list),
        record d { timer_source = some (record s { timer_list = kept }) },
      )
]

pub remaining_time : ℕ → ℕ → Dispatcher → ℤ
remaining_time now id d = elim d.timer_source [
  | none ↦ negsuc 0
  | some s ↦ elim (find_if (λ t. t.id == id) s.timer_list) [
    | none ↦ negsuc 0
    | some t ↦
        let remain = t.next_timeout - now in
        if ltb t.next_timeout now
        then pos 0
        else if ltb remain int_max
        then pos remain
        else pos int_max
  ]
]

-- socketNotifierSourceCheck: whether one is pending, and the notifiers it leaves.
pub check_sockets : Bool → List PollFd → (ℕ → SocketNotifier) → Bool × (ℕ → SocketNotifier)
check_sockets pending [] notifiers = (pending, notifiers)
check_sockets pending (p ∷ ps) notifiers =
    if p.is_invalid
    then check_sockets pending ps
        (λ a. if a == p.notifier then record (notifiers a) { enable = false } else notifiers a)
    else if (notifiers p.notifier).enable
    then check_sockets (pending || p.is_ready) ps notifiers
    else check_sockets pending ps notifiers

module _ {W : Type 0} where
  -- The loop of socketNotifierSourceDispatch; `send` gives an event to a receiver.
  pub dispatch_sockets : (ℕ → W → W) → (ℕ → SocketNotifier) → List PollFd → W → W
  dispatch_sockets send notifiers [] w = w
  dispatch_sockets send notifiers (p ∷ ps) w = dispatch_sockets send notifiers ps (
      if (notifiers p.notifier).enable && p.is_ready
      then send (notifiers p.notifier).receiver w
      else w)

  -- The loop of processEvents; `send` gives a timer's id to its receiver.
  pub deliver_timers : (ℕ → ℕ → W → W) → List TimerInfo → W → List TimerInfo × W
  deliver_timers send [] w = ([], w)
  deliver_timers send (t ∷ ts) w =
      let (rest, last) =
        deliver_timers send ts (if t.activated then send t.receiver t.id w else w) in
      (record t { activated = false } ∷ rest, last)

  pub process_events :
      (Dispatcher × W → Dispatcher × W) → (ℕ → ℕ → W → W) → Dispatcher × W → Dispatcher × W
  unfolding deliver_timers
  process_events iteration send state =
      let (d, w) = iteration state in
      elim d.timer_source [
        | none ↦ (d, w)
        | some s ↦
            let (delivered, last) = deliver_timers send s.timer_list w in
            (
              record d {
                timer_source =
                    some (record s { timer_list = delivered; run_with_idle_priority = false });
              },
              last,
            )
      ]

-- registerSocketNotifier; `condition` gives GLib's bit of a type.
pub register_socket_notifier : (SocketNotifierType → ℕ) → ℕ → Dispatcher → Dispatcher
register_socket_notifier condition notifier d = elim d.socket_notifier_source [
  | none ↦ d
  | some fds ↦
      let n = d.notifiers notifier in
      let p : PollFd = record {
        notifier = notifier;
        fd = n.socket;
        events = condition n.notifier_type;
        is_invalid = false;
        is_ready = false;
      } in
      if notifier == 0 then d else record d { socket_notifier_source = some (fds ++ (p ∷ [])) }
]

abbrev pub erase_poll_fd : ℕ → List PollFd → List PollFd
erase_poll_fd notifier [] = []
erase_poll_fd notifier (p ∷ ps) =
    let rest = erase_poll_fd notifier ps in if p.notifier == notifier then ps else p ∷ rest

pub unregister_socket_notifier : ℕ → Dispatcher → Dispatcher
unregister_socket_notifier notifier d = elim d.socket_notifier_source [
  | none ↦ d
  | some fds ↦
      if notifier == 0
      then d
      else record d { socket_notifier_source = some (erase_poll_fd notifier fds) }
]

-- startingUp with a main context, and shuttingDown.
pub starting_up : Dispatcher → Dispatcher
starting_up d = record d {
  socket_notifier_source = some [];
  timer_source = some (record { timer_list = []; run_with_idle_priority = false });
  idle_timer_source = true;
}

pub shutting_down : Dispatcher → Dispatcher
shutting_down d = record d {
  socket_notifier_source = none;
  timer_source = none;
  idle_timer_source = false;
}

-- CObject::startTimer: the timer's id, or 0, with the next id, an int's 32 bits; `application` is
-- whether there is an application instance with a dispatcher.
pub start_timer : ℕ → Bool → ℕ → ℤ → ℕ → Dispatcher → ℕ × ℕ × Dispatcher
unfolding register_timer
start_timer now application object (negsuc n) next_id d = (0, next_id, d)
start_timer now application object (pos interval) next_id d =
    if application
    then (next_id, (next_id + 1) % 2 ^ 32, register_timer now next_id interval object d)
    else (0, next_id, d)

-- CObject::killTimer; an id from 2 ^ 31 on is negative.
pub kill_timer : Bool → ℕ → Dispatcher → Dispatcher
unfolding unregister_timer
kill_timer application id d =
    if (id == 0) || leb 2147483648 id
    then d
    else if application
    then (unregister_timer id d).1
    else d
