-- ===== src/EventQueue/MainLoop.antt =====
-- When the loop of `exec` ends, and what it has done by then.
use code_knife.Prelude.{
  ℕ, zero, suc, ◌+◌, ◌≡◌, ◌<◌, ap, ◌∙◌, arith, Bool, true, false, some, List, ◌++◌, map,
}
use code_knife.EventQueue.{
  Event, PostedEvent, Application, State, Handler, returned, process_posted_events, turn, loop,
  exec,
}
use code_knife.EventQueue.Rounds.{
  waiting, OnlyPosts, all_replies, process_posted_events_lem, flags_kept, KeepsFlags,
}

module _ {W : Type 0} (handle : Handler W) (process_events : State W → State W) where
  -- The state after a number of turns.
  abbrev pub turns : ℕ → State W → State W
  turns zero s = s
  turns (suc n) s = turns n (turn handle process_events s)

  -- There is an application, and its quit flag is this.
  abbrev pub HasFlag : Bool → State W → Type 0
  HasFlag flag s = (app : Application) × (s.instance' ≡ some app) × (app.quit_flag ≡ flag)

  turning :
      (fuel : ℕ) (s : State W)
      → HasFlag false s
      → loop (suc fuel) handle process_events s
        ≡ loop fuel handle process_events (turn handle process_events s)
  unfolding loop
  turning fuel s f = ground (arith, f.1, f.2)

  quitting :
      (fuel : ℕ) (s : State W) (app : Application)
      → s.instance' ≡ some app
      → app.quit_flag ≡ true
      → loop (suc fuel) handle process_events s ≡ (returned app.return_code, s)
  unfolding loop
  quitting fuel s app there q = ground (arith, there, q)

  loop-turns :
      (n fuel : ℕ) (s : State W)
      → ((i : ℕ) → i < suc n → HasFlag false (turns i s))
      → loop (suc n + fuel) handle process_events s
        ≡ loop fuel handle process_events (turn handle process_events (turns n s))
  loop-turns zero fuel s h =
      ap (λ (m : ℕ). loop m handle process_events s) {x = 1 + fuel} {y = suc fuel} (omega arith)
      ∙ turning fuel s (h 0 (omega arith))
  loop-turns (suc n) fuel s h =
      ap (λ (m : ℕ). loop m handle process_events s) {x = suc (suc n) + fuel}
        {y = suc (suc n + fuel)} (omega arith)
      ∙ turning (suc n + fuel) s (h 0 (omega arith))
      ∙ loop-turns n fuel (turn handle process_events s) (λ i k. h (suc i) (omega arith))

  abbrev pub started : State W → Application → State W
  started s app = record s { instance' = some (record app { quit_flag = false; return_code = 0 }) }

  starting :
      (fuel : ℕ) (s : State W) (app : Application)
      → s.instance' ≡ some app
      → 0 < app.dispatcher
      → exec fuel handle process_events s ≡ loop fuel handle process_events (started s app)
  unfolding exec
  starting fuel s app there live = ground (arith, there, live)

  -- Where there is an application in every turn, its quit flag is first set by the dispatcher in turn n,
  -- counted from 0, and the handlers of posted events only post and keep the flag and the return code,
  -- exec of an application with a dispatcher returns after that turn, given fuel for two more tests than n, with the return code set by then, and not before a
  -- last round of the posted events: the events that waited when the flag was set are deleted, in
  -- order, and what then waits is what the handlers posted for them.
  pub exec-turns :
      (n fuel : ℕ) (s : State W) (app quit_app : Application)
      (replies : ℕ → Event → List PostedEvent)
      → s.instance' ≡ some app
      → 0 < app.dispatcher
      → ((i : ℕ) → i < suc n → HasFlag false (turns i (started s app)))
      → (process_events (turns n (started s app))).instance' ≡ some quit_app
      → quit_app.quit_flag ≡ true
      → OnlyPosts handle replies
      → KeepsFlags handle
      → (exec (n + 2 + fuel) handle process_events s ≡ (
        returned quit_app.return_code,
        process_posted_events handle (process_events (turns n (started s app))),
      ))
        × (waiting (process_posted_events handle (process_events (turns n (started s app))))
            ≡ all_replies handle replies quit_app.event_queue)
        × ((process_posted_events handle (process_events (turns n (started s app)))).deleted
            ≡ (process_events (turns n (started s app))).deleted
              ++ map (λ p. p.event) quit_app.event_queue)
  unfolding turn
  exec-turns n fuel s app quit_app replies there live runs quits flag posts keeps =
      let before = process_events (turns n (started s app)) in
      let end = process_posted_events handle before in
      let kept = flags_kept handle before quit_app keeps quits in
      let round = process_posted_events_lem handle replies before quit_app posts quits in
      (
        ap (λ (m : ℕ). exec m handle process_events s) {x = n + 2 + fuel} {y = suc n + suc fuel}
              (omega arith)
            ∙ starting (suc n + suc fuel) s app there live
            ∙ loop-turns n (suc fuel) (started s app) runs
            ∙ quitting fuel end kept.0 kept.1 (kept.2 ∙ flag)
            ∙ ap (λ (c : ℕ). (returned c, end)) kept.3,
        round.0,
        round.1,
      )
