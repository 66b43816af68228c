-- ===== src/EventQueue/Tests.antt =====
-- An application with three posted events, and the theorems applied to it.
use code_knife.Prelude.{
  ℕ, zero, suc, ◌+◌, ◌≡◌, ◌<◌, ◌==◌, if◌then◌else◌, refl, arith, true, false, some, List, [], ◌∷◌,
  ◌++◌, map,
}
use code_knife.EventQueue.{
  EventType, Event, PostedEvent, Application, State, Handler, returned, post_event,
  remove_posted_events, deliver, process_posted_events, turn, exec, exit, send_event,
}
use code_knife.EventQueue.Rounds.{
  waiting, OnlyPosts, all_replies, process_posted_events_lem, KeepsFlags,
}
use code_knife.EventQueue.Removal.{IsOther, remove_posted_events_lem}
use code_knife.EventQueue.MainLoop.{turns, HasFlag, started, exec-turns}

abbrev call : ℕ → Event
call a = record { address = a; event_type = EventType.meta_call }

abbrev posting : ℕ → ℕ → PostedEvent
posting receiver a = record { receiver = receiver; event = call a; priority = 0 }

abbrev app : Application
app = record {
  dispatcher = 8;
  event_queue = posting 100 1 ∷ posting 200 2 ∷ posting 100 3 ∷ [];
  quit_flag = false;
  return_code = 0;
}

abbrev state : State ℕ
state = record { instance' = some app; deleted = []; world = 0 }

-- A handler that posts an event back to the receiver.
abbrev reply : Event → Event
reply e = record { address = e.address + 10; event_type = EventType.meta_call }

abbrev echo : Handler ℕ
echo receiver e s = (true, post_event (λ w. w) receiver (some (reply e)) s)

abbrev replies : ℕ → Event → List PostedEvent
replies receiver e = record { receiver = receiver; event = reply e; priority = 0 } ∷ []

echo_queue :
    (receiver : ℕ) (e : Event) (s : State ℕ) (a : Application)
    → 0 < receiver
    → s.instance' ≡ some a
    → ((echo receiver e s).1.instance'
        ≡ some (record a { event_queue = a.event_queue ++ replies receiver e }))
      × ((echo receiver e s).1.deleted ≡ s.deleted)
unfolding post_event
echo_queue receiver e s a live there = (ground (arith, there, live), ground (arith, there, live))

echo-OnlyPosts : OnlyPosts echo replies
echo-OnlyPosts receiver e s a live there =
    let q = echo_queue receiver e s a live there in
    (record a { event_queue = a.event_queue ++ replies receiver e }, q.0, refl, q.1)

echo-KeepsFlags : KeepsFlags echo
echo-KeepsFlags receiver e s a live there =
    let q = echo_queue receiver e s a live there in
    (record a { event_queue = a.event_queue ++ replies receiver e }, q.0, refl, refl)

process_posted_events_lem_example :
    (waiting (process_posted_events echo state) ≡ all_replies echo replies app.event_queue)
    × ((process_posted_events echo state).deleted ≡ [] ++ map (λ p. p.event) app.event_queue)
process_posted_events_lem_example =
    process_posted_events_lem echo replies state app echo-OnlyPosts refl

test_replies :
    all_replies echo replies app.event_queue ≡ posting 100 11 ∷ posting 200 12 ∷ posting 100 13 ∷ []
test_replies = refl

remove_posted_events_lem_example :
    ((handle other : Handler ℕ)
      → ((receiver : ℕ) (e : Event) (t : State ℕ)
          → IsOther 100 EventType.no_type receiver e
          → handle receiver e t ≡ other receiver e t)
      → process_posted_events handle (remove_posted_events 100 EventType.no_type state)
        ≡ process_posted_events other (remove_posted_events 100 EventType.no_type state))
    × ((wake_up : ℕ → ℕ) (receiver : ℕ) (e : Event)
        → 0 < receiver
        → IsOther 100 EventType.no_type receiver e
        → waiting (
            remove_posted_events 100 EventType.no_type (post_event wake_up receiver (some e) state))
          ≡ waiting (
              post_event wake_up receiver
                (some e)
                (remove_posted_events 100 EventType.no_type state)))
remove_posted_events_lem_example =
    remove_posted_events_lem 100 EventType.no_type (omega arith) state app refl

-- A dispatcher whose second turn exits.
abbrev exiting : State ℕ → State ℕ
exiting s = if s.world == 0 then record s { world = 1 } else exit 7 s

-- The application when its quit flag is set.
abbrev quit_app : Application
quit_app = record {
  dispatcher = 8;
  event_queue = all_replies echo replies app.event_queue;
  quit_flag = true;
  return_code = 7;
}

not_yet :
    (i : ℕ)
    → i < 2
    → HasFlag echo exiting false (turns echo exiting i (started echo exiting state app))
unfolding turn process_posted_events deliver send_event post_event
not_yet zero h = (record app { quit_flag = false }, refl, refl)
not_yet (suc zero) h =
    (record app { event_queue = all_replies echo replies app.event_queue }, refl, refl)
not_yet (suc (suc i)) h = ground (arith, h)

exec-turns_example :
    (exec 3 echo exiting state ≡ (
      returned 7,
      process_posted_events echo (exiting (turns echo exiting 1 (started echo exiting state app))),
    ))
    × (waiting (
          process_posted_events echo
            (exiting (turns echo exiting 1 (started echo exiting state app))))
        ≡ all_replies echo replies quit_app.event_queue)
    × ((process_posted_events echo
          (exiting (turns echo exiting 1 (started echo exiting state app)))).deleted
        ≡ (exiting (turns echo exiting 1 (started echo exiting state app))).deleted
          ++ map (λ p. p.event) quit_app.event_queue)
unfolding turn process_posted_events deliver send_event post_event exit
exec-turns_example =
    exec-turns echo exiting 1 0 state app quit_app replies refl (omega arith) not_yet refl refl
      echo-OnlyPosts echo-KeepsFlags
