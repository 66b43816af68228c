-- ===== src/EventQueue/Rounds.antt =====
-- What a round of posted events does, what removing them leaves, and when the main loop ends.
use code_knife.Prelude.{
  ℕ, ◌≡◌, ◌<◌, ◌==◌, if◌then◌else◌, refl, sym, ap, ◌∙◌, arith, Bool-cases, inl, inr, Option, none,
  some, List, [], ◌∷◌, ◌++◌, map, append-nil, append_assoc,
}
use code_knife.EventQueue.{
  Event, PostedEvent, Application, State, Handler, delete, send_event, deliver,
  process_posted_events,
}

abbrev or_no_events : Option Application → List PostedEvent
or_no_events none = []
or_no_events (some app) = app.event_queue

-- The events that wait.
abbrev pub waiting : {W : Type 0} → State W → List PostedEvent
waiting s = or_no_events s.instance'

taken :
    {W : Type 0} (handle : Handler W) (s : State W) (app : Application)
    → s.instance' ≡ some app
    → process_posted_events handle s
      ≡ deliver handle app.event_queue
          (record s { instance' = some (record app { event_queue = [] }) })
unfolding process_posted_events
taken handle s app there = ground (arith, there)

module _ {W : Type 0} (handle : Handler W) (replies : ℕ → Event → List PostedEvent) where
  -- With an application, a handler posts its replies behind the waiting events, removes none, deletes
  -- none and keeps the application.
  abbrev pub OnlyPosts : Type 0
  OnlyPosts =
      (receiver : ℕ) (e : Event) (s : State W) (app : Application)
      → 0 < receiver
      → s.instance' ≡ some app
      → (after : Application) × ((handle receiver e s).1.instance' ≡ some after)
        × (after.event_queue ≡ app.event_queue ++ replies receiver e)
        × ((handle receiver e s).1.deleted ≡ s.deleted)

  -- The replies to a list of events, in order.
  abbrev pub all_replies : List PostedEvent → List PostedEvent
  all_replies [] = []
  all_replies (p ∷ ps) =
      (if p.receiver == 0 then [] else replies p.receiver p.event) ++ all_replies ps

  delivered :
      (ps : List PostedEvent) (s : State W) (app : Application)
      → OnlyPosts
      → s.instance' ≡ some app
      → (after : Application) × ((deliver handle ps s).instance' ≡ some after)
        × (after.event_queue ≡ app.event_queue ++ all_replies ps)
        × ((deliver handle ps s).deleted ≡ s.deleted ++ map (λ p. p.event) ps)
  unfolding deliver send_event
  delivered [] s app h there =
      (app, there, sym (append-nil app.event_queue), sym (append-nil s.deleted))
  delivered (p ∷ ps) s app h there = elim (Bool-cases (p.receiver == 0)) [
    | inl null ↦
        let rest = delivered ps (delete (some p.event) s) app h there in
        simp null (
          rest.0,
          rest.1,
          rest.2,
          rest.3 ∙ append_assoc s.deleted (p.event ∷ []) (map (λ q. q.event) ps),
        )
    | inr live ↦
        let handled = h p.receiver p.event s app (ground (arith, live)) there in
        let rest =
          delivered ps (delete (some p.event) (handle p.receiver p.event s).1) handled.0 h
            handled.1 in
        simp live (
          rest.0,
          rest.1,
          rest.2
              ∙ ap (λ (q : List PostedEvent). q ++ all_replies ps) handled.2
              ∙ append_assoc app.event_queue (replies p.receiver p.event) (all_replies ps),
          rest.3
              ∙ ap (λ (d : List Event). (d ++ (p.event ∷ [])) ++ map (λ q. q.event) ps) handled.3
              ∙ append_assoc s.deleted (p.event ∷ []) (map (λ q. q.event) ps),
        )
  ]

  -- Where each handler, called with an application, posts its replies behind the waiting events and
  -- neither removes nor deletes events, a round of the posted events of an application deletes each
  -- event that waited, once and in the order of posting, and what waits afterwards is exactly the
  -- replies to the events that had a receiver, in order.
  pub process_posted_events_lem :
      (s : State W) (app : Application)
      → OnlyPosts
      → s.instance' ≡ some app
      → (waiting (process_posted_events handle s) ≡ all_replies app.event_queue)
        × ((process_posted_events handle s).deleted
            ≡ s.deleted ++ map (λ p. p.event) app.event_queue)
  process_posted_events_lem s app h there =
      let empty : Application = record app { event_queue = [] } in
      let d = delivered app.event_queue (record s { instance' = some empty }) empty h refl in
      simp (taken handle s app there) (ap or_no_events d.1 ∙ d.2, d.3)

module _ {W : Type 0} (handle : Handler W) where
  -- A handler keeps the application, its quit flag and its return code.
  abbrev pub KeepsFlags : Type 0
  KeepsFlags =
      (receiver : ℕ) (e : Event) (s : State W) (app : Application)
      → 0 < receiver
      → s.instance' ≡ some app
      → (after : Application) × ((handle receiver e s).1.instance' ≡ some after)
        × (after.quit_flag ≡ app.quit_flag)
        × (after.return_code ≡ app.return_code)

  flags_delivered :
      (ps : List PostedEvent) (s : State W) (app : Application)
      → KeepsFlags
      → s.instance' ≡ some app
      → (after : Application) × ((deliver handle ps s).instance' ≡ some after)
        × (after.quit_flag ≡ app.quit_flag)
        × (after.return_code ≡ app.return_code)
  unfolding deliver send_event
  flags_delivered [] s app h there = (app, there, refl, refl)
  flags_delivered (p ∷ ps) s app h there = elim (Bool-cases (p.receiver == 0)) [
    | inl null ↦ simp null (flags_delivered ps (delete (some p.event) s) app h there)
    | inr live ↦
        let handled = h p.receiver p.event s app (ground (arith, live)) there in
        let rest =
          flags_delivered ps (delete (some p.event) (handle p.receiver p.event s).1) handled.0 h
            handled.1 in
        simp live (rest.0, rest.1, rest.2 ∙ handled.2, rest.3 ∙ handled.3)
  ]

  -- A round of posted events keeps the flags too.
  pub flags_kept :
      (s : State W) (app : Application)
      → KeepsFlags
      → s.instance' ≡ some app
      → (after : Application) × ((process_posted_events handle s).instance' ≡ some after)
        × (after.quit_flag ≡ app.quit_flag)
        × (after.return_code ≡ app.return_code)
  flags_kept s app h there =
      let empty : Application = record app { event_queue = [] } in
      simp (taken handle s app there)
        (flags_delivered app.event_queue (record s { instance' = some empty }) empty h refl)
