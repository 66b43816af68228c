-- ===== src/EventDispatcher/Tests.antt =====
-- A dispatcher with two timers, and the theorems of the dispatcher on it.
use code_knife.Prelude.{
  arith, ◌&&◌, ℕ, ◌≡◌, ◌==◌, if◌then◌else◌, refl, true, false, none, some, List, [], ◌∷◌, ◌++◌,
}
use code_knife.EventDispatcher.{
  pos, negsuc, int_max, TimerSource, SocketNotifier, read_type, Dispatcher, saturate_cast,
  timer_source_prepare, timer_source_check, timer_source_dispatch, register_timer, unregister_timer,
  remaining_time, check_sockets, process_events, start_timer,
}
use code_knife.EventDispatcher.Timeout.{timer_source_prepare_lem, timer_source_prepare-late}
use code_knife.EventDispatcher.Ids.{timer_of, has_unique_ids}
use code_knife.EventDispatcher.Timers.{
  deadlines_fit, new_timer, register_timer_lem, unregister_timer_lem,
}
use code_knife.EventDispatcher.Delivery.{process_events_lem}

abbrev notifiers : ℕ → SocketNotifier
notifiers a = record { socket = 3; notifier_type = read_type; receiver = 8; enable = true }

abbrev timers : TimerSource
timers = record {
  timer_list =
      record { id = 1; interval = 10; next_timeout = 110; receiver = 8; activated = false }
      ∷ record { id = 2; interval = 30; next_timeout = 130; receiver = 9; activated = false }
      ∷ [];
  run_with_idle_priority = false;
}

abbrev dispatcher : Dispatcher
dispatcher = record {
  timer_source = some timers;
  socket_notifier_source = some [];
  idle_timer_source = true;
  notifiers = notifiers;
}

-- The events as a list of receivers and ids.
abbrev log : ℕ → ℕ → List (ℕ × ℕ) → List (ℕ × ℕ)
log receiver id events = events ++ ((receiver, id) ∷ [])

abbrev dispatch_turn : ℕ → Dispatcher × List (ℕ × ℕ) → Dispatcher × List (ℕ × ℕ)
dispatch_turn now (d, w) = (record d { timer_source = some (timer_source_dispatch now timers) }, w)

test_remaining : remaining_time 125 2 dispatcher ≡ pos 5
unfolding remaining_time
test_remaining = refl

test_saturated : saturate_cast (pos 3000000000) ≡ pos int_max
unfolding saturate_cast
test_saturated = refl

test_start : (start_timer 100 true 8 (negsuc 4) 7 dispatcher).0 ≡ 0
unfolding start_timer
test_start = refl

test_invalid :
    (check_sockets false
      (record { notifier = 5; fd = 3; events = 1; is_invalid = true; is_ready = true } ∷ [])
      notifiers).0
    ≡ false
unfolding check_sockets
test_invalid = refl

timer_source_prepare_lem_example : timer_source_prepare 105 timers ≡ (pos 5, false)
timer_source_prepare_lem_example = timer_source_prepare_lem 105 timers refl

timer_source_prepare-late_example :
    (timer_source_prepare 111 timers ≡ (negsuc 0, false)) × (timer_source_check 111 timers ≡ true)
timer_source_prepare-late_example = timer_source_prepare-late 111 timers refl refl refl

process_events_lem_example : process_events (dispatch_turn 115) log (dispatcher, []) ≡ (
  record dispatcher {
    timer_source = some (record {
      timer_list =
          record { id = 1; interval = 10; next_timeout = 125; receiver = 8; activated = false }
          ∷ record { id = 2; interval = 30; next_timeout = 130; receiver = 9; activated = false }
          ∷ [];
      run_with_idle_priority = false;
    });
  },
  (8, 1) ∷ [],
)
process_events_lem_example =
    process_events_lem log 115 (dispatch_turn 115) dispatcher timers [] [] refl

register_timer_lem_example :
    ((other : ℕ)
      → timer_of other (register_timer 120 2 5 8 dispatcher)
        ≡ (if (other == 2) && true then some (new_timer 120 2 5 8) else timer_of other dispatcher))
    × (has_unique_ids (register_timer 120 2 5 8 dispatcher) ≡ true)
    × (deadlines_fit (register_timer 120 2 5 8 dispatcher) ≡ true)
register_timer_lem_example = register_timer_lem 120 2 5 8 dispatcher refl refl (omega arith)

unregister_timer_lem_example :
    ((unregister_timer 1 dispatcher).0 ≡ true)
    × ((other : ℕ)
        → timer_of other (unregister_timer 1 dispatcher).1
          ≡ (if other == 1 then none else timer_of other dispatcher))
    × (has_unique_ids (unregister_timer 1 dispatcher).1 ≡ true)
unregister_timer_lem_example = unregister_timer_lem 1 dispatcher refl
