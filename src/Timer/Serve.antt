-- ===== src/Timer/Serve.antt =====
-- Due timers are called.
use code_knife.Prelude.{
  ℕ, zero, suc, ◌+◌, ◌-◌, ◌*◌, ◌≡◌, ◌≢◌, ◌<◌, ◌≤◌, ◌==◌, ltb, leb, refl, ap, ◌∙◌, sym, arith, Bool,
  true, false, ◌&&◌, ◌||◌, some, List, [], ◌∷◌, length, any_of, any_of-append, inl, inr, Bool-cases,
}
use code_knife.Timer.{
  TimerItem, Timer, at_top, calling, milliseconds, is_live, reschedule, serve, take_at, pass,
  timer_loop, Action, loop_action, perform, run,
}
use code_knife.Timer.Queue.{
  IsTop, IsTaken, take_at-IsTaken, any_of-IsTaken, count_due, count_due-IsTaken, count_due-le,
}
use code_knife.Timer.Cancel.{calls_id}

and_false : (b : Bool) → (b && false) ≡ false
and_false true = refl
and_false false = refl

-- The thread's steps, all at one time.
abbrev pub turns : (pick : List TimerItem → ℕ) → ℕ → ℕ → List (Action pick)
turns pick now zero = []
turns pick now (suc k) = loop_action now ∷ turns pick now k

abbrev pub is_due : ℕ → ℕ → TimerItem → Bool
is_due id now item = (item.id == id) && leb item.next_time now

module _ (pick : List TimerItem → ℕ) (top : IsTop pick) (id now : ℕ) where
  some_due : (q : List TimerItem) → any_of (is_due id now) q ≡ true → 0 < count_due now q
  some_due [] h = ground arith
  some_due (x ∷ xs) h = elim (Bool-cases (is_due id now x)) [
    | inl here' ↦ ground arith
    | inr not_here ↦ ground (arith, some_due xs (ground (arith, not_here)))
  ]

  late_items :
      (time : ℕ) (q : List TimerItem)
      → any_of (is_due id now) q ≡ true
      → any_of (λ b. ltb b.next_time time) q ≡ false
      → leb time now ≡ true
  late_items time [] h none_before = ground arith
  late_items time (x ∷ xs) h none_before = elim (Bool-cases (is_due id now x)) [
    | inl here' ↦ ground arith
    | inr not_here ↦ late_items time xs (ground (arith, not_here)) (ground arith)
  ]

  -- The top of a queue that has a due item is due.
  due_top :
      (q : List TimerItem)
      → any_of (is_due id now) q ≡ true
      → (p : TimerItem × List TimerItem) × (take_at (pick q) q ≡ some p)
        × (leb (p.0).next_time now ≡ true)
  due_top [] h = ground arith
  due_top (x ∷ xs) h =
      let t = top.top x xs in ((t.0, t.1), t.2, late_items (t.0).next_time (x ∷ xs) h t.3)

  -- What a pass makes of its due top item.
  record IsWaiting (n : ℕ) (t : Timer) : Type 0 where
    on : t.running ≡ true
    due : any_of (is_due id now) t.timer_queue ≡ true
    live : is_live id t ≡ true
    few : count_due now t.timer_queue ≤ n

  pass_due :
      (t : Timer)
      → t.running ≡ true
      → any_of (is_due id now) t.timer_queue ≡ true
      → (p : TimerItem × List TimerItem) × IsTaken p.0 t.timer_queue p.1
        × (leb (p.0).next_time now ≡ true)
        × (pass pick now t ≡ serve now p.0 (record t { timer_queue = p.1 }))
  unfolding pass
  pass_due t on h =
      let d = due_top t.timer_queue h in
      (
        d.0,
        take_at-IsTaken (pick t.timer_queue) t.timer_queue d.0 d.1,
        d.2,
        ground (arith, on, d.1),
      )

  -- A rescheduled item is not due.
  reschedule_queue :
      (item : TimerItem) (t : Timer)
      → (count_due now (reschedule now item t).timer_queue ≡ count_due now t.timer_queue)
        × (any_of (is_due id now) (reschedule now item t).timer_queue
            ≡ any_of (is_due id now) t.timer_queue)
        × ((reschedule now item t).phase ≡ calling item)
        × ((reschedule now item t).running ≡ t.running)
        × (id ≢ item.id → is_live id (reschedule now item t) ≡ is_live id t)
  unfolding reschedule is_live
  reschedule_queue item t = elim (Bool-cases (ltb 0 item.interval_ms)) [
    | inr once ↦ simp once (refl, refl, refl, refl, λ n. ground (arith, n))
    | inl periodic ↦
        let later : leb (now + milliseconds item.interval_ms) now ≡ false = ground arith in
        simp (periodic, later)
          (
            refl,
            ap (λ (b : Bool). b || any_of (is_due id now) t.timer_queue)
                (and_false (item.id == id)),
            refl,
            refl,
            λ n. ground (arith, n),
          )
  ]

  abbrev called : ℕ → Timer → Bool
  called k t = calls_id id (run pick (turns pick now k) t).0

  from_step :
      (k : ℕ) (t : Timer) (r : List TimerItem × Timer)
      → timer_loop pick now t ≡ r
      → called (suc k) t ≡ (calls_id id r.0 || called k r.1)
  unfolding run perform
  from_step k t r e =
      any_of-append (λ item. item.id == id) (timer_loop pick now t).0
        (run pick (turns pick now k) (timer_loop pick now t).1).0
      ∙ ap (λ (q : List TimerItem × Timer). calls_id id q.0 || called k q.1) e

  at_top_step : (t : Timer) → t.phase ≡ at_top → timer_loop pick now t ≡ ([], pass pick now t)
  unfolding timer_loop
  at_top_step t e = rw (e, timer_loop) refl

  calling_step :
      (item : TimerItem) (t : Timer)
      → t.phase ≡ calling item
      → t.running ≡ true
      → timer_loop pick now t ≡ (item ∷ [], record t { phase = at_top })
  unfolding timer_loop
  calling_step item t e on = rw (e, on, timer_loop) refl

  -- A pass and the call after it.
  waiting_call :
      (k : ℕ) (item : TimerItem) (t u : Timer)
      → t.phase ≡ at_top
      → pass pick now t ≡ u
      → u.phase ≡ calling item
      → u.running ≡ true
      → ((item.id == id) ≡ false → called k (record u { phase = at_top }) ≡ true)
      → called (suc (suc k)) t ≡ true
  waiting_call k item t u e passed calls on rest =
      let one =
        from_step (suc k) t ([], u) (at_top_step t e ∙ ap (λ (v : Timer). ([], v)) passed) in
      let two =
        from_step k u (item ∷ [], record u { phase = at_top }) (calling_step item u calls on) in
      elim (Bool-cases (item.id == id)) [
        | inl it ↦ one ∙ two ∙ ground (arith, it)
        | inr other ↦ one ∙ two ∙ ground (arith, other, rest other)
      ]

  serve_dead : (item : TimerItem) (t : Timer) → is_live item.id t ≡ false → serve now item t ≡ t
  unfolding serve
  serve_dead item t dead = rw (dead, serve) refl

  serve_due :
      (item : TimerItem) (t : Timer)
      → is_live item.id t ≡ true
      → leb item.next_time now ≡ true
      → serve now item t ≡ reschedule now item t
  unfolding serve
  serve_due item t live due =
      let on_time : ltb now item.next_time ≡ false = ground arith in rw (live, on_time, serve) refl

  -- The other items after the top is out of the queue.
  waiting_rest :
      (n : ℕ) (item : TimerItem) (rest : List TimerItem) (t : Timer)
      → IsWaiting n t
      → IsTaken item t.timer_queue rest
      → leb item.next_time now ≡ true
      → (item.id == id) ≡ false
      → (any_of (is_due id now) rest ≡ true) × (suc (count_due now rest) ≤ n)
  waiting_rest n item rest t w taken due other =
      let found = sym (any_of-IsTaken (is_due id now) item t.timer_queue rest taken) ∙ w.due in
      let counted = count_due-IsTaken now item t.timer_queue rest taken due in
      (ground (arith, found, other), omega (arith, counted, w.few))

  served : (k n : ℕ) (t : Timer) → t.phase ≡ at_top → IsWaiting n t → 2 * n ≤ k → called k t ≡ true
  unfolding is_live
  served zero n t e w enough =
      let some' = some_due t.timer_queue w.due in ground (arith, some', w.few, enough)
  served (suc zero) n t e w enough =
      let some' = some_due t.timer_queue w.due in ground (arith, some', w.few, enough)
  served (suc (suc k)) n t e w enough =
      let d = pass_due t w.on w.due in
      let item = d.0.0 in
      let rest = d.0.1 in
      let t1 : Timer = record t { timer_queue = rest } in
      elim (Bool-cases (is_live item.id t)) [
        | inr dead ↦
            let other : (item.id == id) ≡ false = elim (Bool-cases (item.id == id)) [
              | inr no' ↦ no'
              | inl same ↦
                  let here : item.id ≡ id = ground (arith, same) in
                  let live : is_live item.id t ≡ true = ap (λ (j : ℕ). is_live j t) here ∙ w.live in
                  ground (arith, live, dead)
            ] in
            let r = waiting_rest n item rest t w d.1 d.2 other in
            from_step (suc k) t ([], t1)
              (at_top_step t e ∙ ap (λ (v : Timer). ([], v)) (d.3 ∙ serve_dead item t1 dead))
            ∙ served (suc k) (n - 1) t1 e
                (record { on = w.on; due = r.0; live = w.live; few = omega (arith, r.1) })
                (omega (arith, r.1, enough))
        | inl live ↦
            let u = reschedule now item t1 in
            let q = reschedule_queue item t1 in
            waiting_call k item t u e (d.3 ∙ serve_due item t1 live d.2) q.2 (q.3 ∙ w.on) (λ other.
              let r = waiting_rest n item rest t w d.1 d.2 other in
              served k (n - 1) (record u { phase = at_top }) refl
                (record {
                  on = q.3 ∙ w.on;
                  due = q.1 ∙ r.0;
                  live = q.4 (λ same. ground (arith, other, same)) ∙ w.live;
                  few = omega (arith, q.0, r.1);
                })
                (omega (arith, r.1, enough)))
      ]

-- While the timer runs and its thread is at the top of its loop, so not in a wait, and takes all its
-- steps at one time with no other thread in between, a timer in the queue that is due at that time and
-- not cancelled is called within twice as many steps as the queue has items, whichever of the items
-- with the same time the queue gives first, and also where other timers are due before it or repeat.
pub run-due :
    (pick : List TimerItem → ℕ) (id now : ℕ) (t : Timer)
    → IsTop pick
    → t.phase ≡ at_top
    → t.running ≡ true
    → any_of (is_due id now) t.timer_queue ≡ true
    → is_live id t ≡ true
    → calls_id id (run pick (turns pick now (2 * length t.timer_queue)) t).0 ≡ true
run-due pick id now t top e on due live =
    served pick top id now (2 * length t.timer_queue) (length t.timer_queue) t e
      (record { on = on; due = due; live = live; few = count_due-le now t.timer_queue })
      (omega arith)
