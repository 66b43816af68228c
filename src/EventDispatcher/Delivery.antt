-- ===== src/EventDispatcher/Delivery.antt =====
-- A turn of the dispatcher in which the timer source is dispatched.
use code_knife.Prelude.{
  ℕ, ◌+◌, ◌≡◌, leb, if◌then◌else◌, refl, ap, ◌∙◌, Bool, false, ◌||◌, some, List, [], ◌∷◌, map,
  filter, inl, inr, Bool-cases,
}
use code_knife.EventDispatcher.{
  TimerInfo, TimerSource, Dispatcher, activate, timer_source_dispatch, deliver_timers,
  process_events,
}

-- A timer that gets an event in the turn at `now`, and what it is afterwards.
abbrev pub is_served : ℕ → TimerInfo → Bool
is_served now t = leb t.next_timeout now || t.activated

abbrev pub after_turn : ℕ → TimerInfo → TimerInfo
after_turn now t = record t {
  next_timeout = if leb t.next_timeout now then now + t.interval else t.next_timeout;
  activated = false;
}

module _ {W : Type 0} (send : ℕ → ℕ → W → W) where
  -- An event to each timer's receiver, in order.
  abbrev pub send_all : List TimerInfo → W → W
  send_all [] w = w
  send_all (t ∷ ts) w = send_all ts (send t.receiver t.id w)

  deliver_timers-activate :
      (now : ℕ) (ts : List TimerInfo) (w : W)
      → deliver_timers send (activate now ts) w
        ≡ (map (after_turn now) ts, send_all (filter (is_served now) ts) w)
  unfolding deliver_timers activate
  deliver_timers-activate now [] w = refl
  deliver_timers-activate now (t ∷ ts) w = elim (Bool-cases (leb t.next_timeout now)) [
    | inl due ↦ simp due (
        behind (record t { next_timeout = now + t.interval; activated = false })
          (deliver_timers-activate now ts (send t.receiver t.id w)))
    | inr not_due ↦ elim (Bool-cases t.activated) [
      | inl waiting ↦
          simp (not_due, waiting)
            (behind (record t { activated = false })
              (deliver_timers-activate now ts (send t.receiver t.id w)))
      | inr silent ↦
          simp (not_due, silent)
            (behind (record t { activated = false }) (deliver_timers-activate now ts w))
    ]
  ]
    where
      behind :
          (x : TimerInfo) {p q : List TimerInfo × W}
          → p ≡ q
          → ◌≡◌ {A = List TimerInfo × W} (x ∷ p.0, p.1) (x ∷ q.0, q.1)
      behind x e = ap (λ (r : List TimerInfo × W). (x ∷ r.0, r.1)) e

  -- In a turn that dispatches the timer source, each timer whose time has come, or that an earlier
  -- dispatch activated, gets one event, in the order of the list, and no other timer does; afterwards
  -- none is activated, and the next time of those that were due is their interval from now. Handlers
  -- that change the timers are excepted.
  pub process_events_lem :
      (now : ℕ) (iteration : Dispatcher × W → Dispatcher × W) (d : Dispatcher) (s : TimerSource)
      (w v : W)
      → iteration (d, w) ≡ (record d { timer_source = some (timer_source_dispatch now s) }, v)
      → process_events iteration send (d, w) ≡ (
        record d {
          timer_source = some (record {
            timer_list = map (after_turn now) s.timer_list;
            run_with_idle_priority = false;
          });
        },
        send_all (filter (is_served now) s.timer_list) v,
      )
  unfolding process_events timer_source_dispatch
  process_events_lem now iteration d s w v e =
      ap (process_events (λ state. state) send) e
      ∙ ap
          (λ (r : List TimerInfo × W). (
            record d {
              timer_source = some (record { timer_list = r.0; run_with_idle_priority = false });
            },
            r.1,
          ))
          (deliver_timers-activate now s.timer_list v)
