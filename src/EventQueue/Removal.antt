-- ===== src/EventQueue/Removal.antt =====
-- removePostedEvents, and the round after it.
use code_knife.Prelude.{
  ℕ, ◌≡◌, ◌≢◌, ◌<◌, ◌==◌, if◌then◌else◌, refl, sym, ap, ◌∙◌, arith, Bool, false, not, ◌⊎◌,
  Bool-cases, inl, inr, Option, none, some, List, [], ◌∷◌, ◌++◌, filter, filter-append, any_of,
  any_of-filter_none,
}
use code_knife.EventQueue.{
  EventType, Event, PostedEvent, Application, State, Handler, type_code, enqueue, delete,
  post_event, send_event, is_removed, remove_posted_events, deliver, process_posted_events,
}
use code_knife.EventQueue.Rounds.{waiting}

-- An event that the call leaves: it has another receiver, or another type than the one that is named.
abbrev pub IsOther : ℕ → EventType → ℕ → Event → Type 0
IsOther object kind receiver e =
    (receiver ≢ object) ⊎ ((0 < type_code kind) × (type_code e.event_type ≢ type_code kind))

module _ (object : ℕ) (kind : EventType) (live : 0 < object) where
  unnamed :
      (p : PostedEvent) → is_removed object kind p ≡ false → IsOther object kind p.receiver p.event
  unfolding is_removed
  unnamed p h = elim (Bool-cases (p.receiver == object)) [
    | inr apart ↦ inl (ground (arith, apart))
    | inl same ↦ inr (ground (arith, same, h, live), ground (arith, same, h, live))
  ]

  not_removed :
      (receiver : ℕ) (e : Event)
      → IsOther object kind receiver e
      → is_removed object kind (record { receiver = receiver; event = e; priority = 0 }) ≡ false
  unfolding is_removed
  not_removed receiver e (inl apart) = ground (arith, apart, live)
  not_removed receiver e (inr types) = ground (arith, types.0, types.1)

  module _ {W : Type 0} where
    -- Events that are left are handled alike by handlers that agree on them.
    same_round :
        (handle other : Handler W) (ps : List PostedEvent) (s : State W)
        → ((receiver : ℕ) (e : Event) (t : State W)
            → IsOther object kind receiver e
            → handle receiver e t ≡ other receiver e t)
        → any_of (is_removed object kind) ps ≡ false
        → deliver handle ps s ≡ deliver other ps s
    unfolding deliver send_event
    same_round handle other [] s agree h = refl
    same_round handle other (p ∷ ps) s agree h =
        let this = agree p.receiver p.event s (unnamed p (ground (arith, h))) in
        let next = λ (r : Bool × State W).
          delete (some p.event)
            (if p.receiver == 0 then s else (if p.receiver == 0 then (false, s) else r).1) in
        ap (λ (r : Bool × State W). deliver handle ps (next r)) this
        ∙ same_round handle other ps (next (other p.receiver p.event s)) agree (ground (arith, h))

    left :
        (s : State W) (app : Application)
        → s.instance' ≡ some app
        → waiting (remove_posted_events object kind s)
          ≡ filter (λ p. not (is_removed object kind p)) app.event_queue
    unfolding remove_posted_events
    left s app there = rw (there, remove_posted_events) refl

    round_of :
        (handle : Handler W) (s : State W) (app : Application)
        → s.instance' ≡ some app
        → process_posted_events handle s
          ≡ deliver handle app.event_queue
              (record s { instance' = some (record app { event_queue = [] }) })
    unfolding process_posted_events
    round_of handle s app there = ground (arith, there)

    removed_app :
        (s : State W) (app : Application)
        → s.instance' ≡ some app
        → (remove_posted_events object kind s).instance'
          ≡ some (record app {
            event_queue = filter (λ p. not (is_removed object kind p)) app.event_queue;
          })
    unfolding remove_posted_events
    removed_app s app there = rw (there, remove_posted_events) refl

    posted :
        (wake_up : W → W) (receiver : ℕ) (e : Event) (s : State W) (app : Application)
        → s.instance' ≡ some app
        → 0 < receiver
        → (post_event wake_up receiver (some e) s).instance'
          ≡ some (enqueue (record { receiver = receiver; event = e; priority = 0 }) app)
    unfolding post_event
    posted wake_up receiver e s app there l = ground (arith, there, l)

    -- After removePostedEvents of an object that is not null, with an application, the next round
    -- gives the object no event of the type, or none at all where the type is None: it is the same
    -- round whatever handlers do with such events. An event posted to an object that is not null, where
    -- that is another receiver or the event has another type than a named one, is left as if it had
    -- been posted after the call.
    pub remove_posted_events_lem :
        (s : State W) (app : Application)
        → s.instance' ≡ some app
        → ((handle other : Handler W)
            → ((receiver : ℕ) (e : Event) (t : State W)
                → IsOther object kind receiver e
                → handle receiver e t ≡ other receiver e t)
            → process_posted_events handle (remove_posted_events object kind s)
              ≡ process_posted_events other (remove_posted_events object kind s))
          × ((wake_up : W → W) (receiver : ℕ) (e : Event)
              → 0 < receiver
              → IsOther object kind receiver e
              → waiting (remove_posted_events object kind (post_event wake_up receiver (some e) s))
                ≡ waiting
                    (post_event wake_up receiver (some e) (remove_posted_events object kind s)))
    remove_posted_events_lem s app there =
        let kept = filter (λ p. not (is_removed object kind p)) app.event_queue in
        let removed = remove_posted_events object kind s in
        let after : Application = record app { event_queue = kept } in
        let gone = removed_app s app there in
        (
          λ handle other agree.
              round_of handle removed after gone
              ∙ same_round handle other kept
                  (record removed { instance' = some (record after { event_queue = [] }) }) agree
                  (any_of-filter_none (is_removed object kind) (λ p. not (is_removed object kind p))
                    app.event_queue (λ p k. ground arith))
              ∙ sym (round_of other removed after gone),
          λ wake_up receiver e l out.
              let p : PostedEvent = record { receiver = receiver; event = e; priority = 0 } in
              let stays = not_removed receiver e out in
              left (post_event wake_up receiver (some e) s) (enqueue p app)
                (posted wake_up receiver e s app there l)
              ∙ filter-append (λ q. not (is_removed object kind q)) app.event_queue (p ∷ [])
              ∙ ap (λ (l : List PostedEvent). kept ++ l) (simp stays refl)
              ∙ sym (ap queue (posted wake_up receiver e removed after gone l)),
        )
      where
        queue : Option Application → List PostedEvent
        queue none = []
        queue (some a) = a.event_queue
