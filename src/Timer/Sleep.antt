-- ===== src/Timer/Sleep.antt =====
-- The thread in its wait for a time.
use code_knife.Prelude.{
  ℕ, ◌≡◌, ◌<◌, ltb, leb, refl, ap, ◌∙◌, arith, Bool, true, false, ◌&&◌, List, [], ◌∷◌, ◌++◌, ◌⊎◌,
  inl, inr, Bool-cases, Option-cases,
}
use code_knife.Timer.{
  TimerItem, Timer, sleeping, finished, schedule_at, cancel, stop, timer_loop, Action,
  schedule_action, cancel_action, stop_action, loop_action, perform, run,
}

-- The thread's steps are at times before the given one.
abbrev pub are_before : (pick : List TimerItem → ℕ) → ℕ → List (Action pick) → Bool
are_before pick until [] = true
are_before pick until (schedule_action time callback interval_ms ∷ as') = are_before pick until as'
are_before pick until (cancel_action id ∷ as') = are_before pick until as'
are_before pick until (stop_action ∷ as') = are_before pick until as'
are_before pick until (loop_action now ∷ as') = ltb now until && are_before pick until as'

module _ (pick : List TimerItem → ℕ) (until : ℕ) where
  abbrev IsWaiting : Timer → Type 0
  IsWaiting t = (t.phase ≡ sleeping until) ⊎ (t.phase ≡ finished)

  sleeping_step :
      (now : ℕ) (t : Timer)
      → now < until
      → t.phase ≡ sleeping until
      → ((timer_loop pick now t).0 ≡ []) × IsWaiting (timer_loop pick now t).1
  unfolding timer_loop
  sleeping_step now t h e =
      let early : leb until now ≡ false = ground (arith, h) in
      elim (Bool-cases t.running) [
        | inl on ↦ rw (e, timer_loop, on, early) (refl, inl e)
        | inr off ↦ rw (e, timer_loop, off) (refl, inr refl)
      ]

  finished_step :
      (now : ℕ) (t : Timer)
      → t.phase ≡ finished
      → ((timer_loop pick now t).0 ≡ []) × IsWaiting (timer_loop pick now t).1
  unfolding timer_loop
  finished_step now t e = rw (e, timer_loop) (refl, inr e)

  cancel-phase : (id : ℕ) (t : Timer) → (cancel id t).1.phase ≡ t.phase
  unfolding cancel
  cancel-phase id t = elim (Option-cases (t.timers id)) [
    | inl absent ↦ simp (absent, cancel) refl
    | inr (item, there) ↦ simp (there, cancel) refl
  ]

  stop-phase : (t : Timer) → (stop t).phase ≡ t.phase
  unfolding stop
  stop-phase t = ground arith

  moved : (t u : Timer) → u.phase ≡ t.phase → IsWaiting t → IsWaiting u
  moved t u e (inl w) = inl (e ∙ w)
  moved t u e (inr w) = inr (e ∙ w)

  waiting-run :
      (actions : List (Action pick)) (t : Timer)
      → are_before pick until actions ≡ true
      → IsWaiting t
      → (run pick actions t).0 ≡ []
  unfolding run perform schedule_at
  waiting-run [] t h w = refl
  waiting-run (schedule_action time callback interval_ms ∷ as') t h w =
      let u = (schedule_at time callback interval_ms t).1 in waiting-run as' u h (moved t u refl w)
  waiting-run (cancel_action id ∷ as') t h w =
      let u = (cancel id t).1 in waiting-run as' u h (moved t u (cancel-phase id t) w)
  waiting-run (stop_action ∷ as') t h w =
      waiting-run as' (stop t) h (moved t (stop t) (stop-phase t) w)
  waiting-run (loop_action now ∷ as') t h w =
      let next = (timer_loop pick now t).1 in
      let step : ((timer_loop pick now t).0 ≡ []) × IsWaiting next = elim w [
        | inl e ↦ sleeping_step now t (ground arith) e
        | inr e ↦ finished_step now t e
      ] in
      ap (◌++ (run pick as' next).0) step.0 ∙ waiting-run as' next (ground arith) step.1

-- Once the thread waits for a time, it calls nothing before it, whatever is scheduled meanwhile:
-- also a timer whose own time is earlier is not called until then.
pub sleeping-run :
    (pick : List TimerItem → ℕ) (until : ℕ) (actions : List (Action pick)) (t : Timer)
    → t.phase ≡ sleeping until
    → are_before pick until actions ≡ true
    → (run pick actions t).0 ≡ []
sleeping-run pick until actions t e h = waiting-run pick until actions t h (inl e)
