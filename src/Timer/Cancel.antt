-- ===== src/Timer/Cancel.antt =====
-- Cancelled timers, over every run.
use code_knife.Prelude.{
  ℕ, ◌+◌, ◌%◌, ◌^◌, ◌≡◌, ◌≢◌, ◌<◌, ◌≤◌, ◌==◌, ltb, leb, if◌then◌else◌, refl, ap, ◌∙◌, sym, arith,
  Bool, true, false, not, ◌||◌, some, List, [], ◌∷◌, any_of, any_of-append, Option-cases, inl, inr,
  Bool-cases,
}
use code_knife.Timer.{
  TimerItem, Timer, Phase, at_top, idle, sleeping, calling, finished, schedule_at, set_timer,
  cancel, stop, is_live, reschedule, serve, take_at, pass, wake, is_empty, timer_loop, Action,
  schedule_action, cancel_action, stop_action, loop_action, perform, run,
}

-- The thread is not before a call of the timer.
abbrev pub is_calling : ℕ → Timer → Bool
is_calling id t = elim t.phase [
  | at_top ↦ false
  | idle ↦ false
  | sleeping until ↦ false
  | calling item ↦ item.id == id
  | finished ↦ false
]

abbrev pub calls_id : ℕ → List TimerItem → Bool
calls_id id calls = any_of (λ item. item.id == id) calls

-- How many ids an action uses, and a run of them.
abbrev pub ids_used : {pick : List TimerItem → ℕ} → Action pick → ℕ
ids_used (schedule_action time callback interval_ms) = 1
ids_used (cancel_action id) = 0
ids_used stop_action = 0
ids_used (loop_action now) = 0

abbrev pub schedules : {pick : List TimerItem → ℕ} → List (Action pick) → ℕ
schedules [] = 0
schedules (a ∷ as') = ids_used a + schedules as'

-- A timer that is not called again.
pub record IsBarred (id limit : ℕ) (t : Timer) : Type 0 where
  pub not_live : is_live id t ≡ false
  pub not_calling : is_calling id t ≡ false
  pub used : id < t.next_timer_id
  pub room : t.next_timer_id ≤ limit

reschedule-IsBarred :
    (id limit now : ℕ) (item : TimerItem) (t : Timer)
    → id ≢ item.id
    → IsBarred id limit t
    → IsBarred id limit (reschedule now item t)
unfolding reschedule is_live
reschedule-IsBarred id limit now item t n b = elim (Bool-cases (ltb 0 item.interval_ms)) [
  | inl periodic ↦ simp periodic (record {
    not_live = ground (arith, b.not_live, n);
    not_calling = ground (arith, n);
    used = b.used;
    room = b.room;
  })
  | inr once ↦ simp once (record {
    not_live = ground (arith, b.not_live, n);
    not_calling = ground (arith, n);
    used = b.used;
    room = b.room;
  })
]

serve-IsBarred :
    (id limit now : ℕ) (item : TimerItem) (t : Timer)
    → IsBarred id limit t
    → IsBarred id limit (serve now item t)
unfolding serve is_live
serve-IsBarred id limit now item t b = elim (Bool-cases (is_live item.id t)) [
  | inr dead ↦ rw (dead, serve) b
  | inl live ↦ elim (Bool-cases (ltb now item.next_time)) [
    | inl early ↦
        rw (live, early, serve)
          (record { not_live = b.not_live; not_calling = refl; used = b.used; room = b.room })
    | inr due ↦
        let other : id ≢ item.id = λ e.
          let same : is_live item.id t ≡ false = ap (λ (j : ℕ). is_live j t) (sym e) ∙ b.not_live in
          ground (arith, same, live) in
        rw (live, due, serve) (reschedule-IsBarred id limit now item t other b)
  ]
]

module _ (pick : List TimerItem → ℕ) (id limit : ℕ) where
  pass-IsBarred : (now : ℕ) (t : Timer) → IsBarred id limit t → IsBarred id limit (pass pick now t)
  unfolding pass is_live
  pass-IsBarred now t b = elim (Bool-cases t.running) [
    | inr stopped ↦
        rw (stopped, pass)
          (record { not_live = b.not_live; not_calling = refl; used = b.used; room = b.room })
    | inl on ↦ elim (Option-cases (take_at (pick t.timer_queue) t.timer_queue)) [
      | inl empty ↦
          rw (on, empty, pass)
            (record { not_live = b.not_live; not_calling = refl; used = b.used; room = b.room })
      | inr (q, found) ↦
          rw (on, found, pass)
            (serve-IsBarred id limit now q.0 (record t { timer_queue = q.1 })
              (record {
                not_live = b.not_live;
                not_calling = b.not_calling;
                used = b.used;
                room = b.room;
              }))
    ]
  ]

  -- A step of the thread from each phase; none of its calls is the timer's.
  timer_loop-IsBarred :
      (now : ℕ) (t : Timer)
      → IsBarred id limit t
      → IsBarred id limit (timer_loop pick now t).1
        × (calls_id id (timer_loop pick now t).0 ≡ false)
  unfolding timer_loop is_live
  timer_loop-IsBarred now t b = from t.phase refl
    where
      still :
          (q : Phase)
          → (is_calling id (record t { phase = q }) ≡ false)
          → IsBarred id limit (record t { phase = q })
      still q n = record { not_live = b.not_live; not_calling = n; used = b.used; room = b.room }

      phase_at :
          (r : Bool) → is_calling id (record t { phase = if r then at_top else finished }) ≡ false
      phase_at true = refl
      phase_at false = refl

      woken : IsBarred id limit (wake pick t)
      woken = still (if t.running then at_top else finished) (phase_at t.running)

      from :
          (p : Phase)
          → t.phase ≡ p
          → IsBarred id limit (timer_loop pick now t).1
            × (calls_id id (timer_loop pick now t).0 ≡ false)
      from at_top e = rw (e, timer_loop) (pass-IsBarred now t b, refl)
      from idle e = elim (Bool-cases (not t.running || not (is_empty pick t.timer_queue))) [
        | inl on ↦ rw (e, timer_loop, on) (woken, refl)
        | inr off ↦ rw (e, timer_loop, off) (b, refl)
      ]
      from (sleeping until) e = elim (Bool-cases (not t.running || leb until now)) [
        | inl on ↦ rw (e, timer_loop, on) (woken, refl)
        | inr off ↦ rw (e, timer_loop, off) (b, refl)
      ]
      from (calling item) e =
          let other : (item.id == id) ≡ false =
            ap (λ (p : Phase). is_calling id (record t { phase = p })) (sym e) ∙ b.not_calling in
          rw (e, timer_loop) (still at_top refl, ground (arith, other))
      from finished e = rw (e, timer_loop) (b, refl)

  more_room : (n : ℕ) (t : Timer) → IsBarred id limit t → IsBarred id (limit + n) t
  more_room n t b = record {
    not_live = b.not_live;
    not_calling = b.not_calling;
    used = b.used;
    room = omega (arith, b.room);
  }

  perform-IsBarred :
      (a : Action pick) (t : Timer)
      → limit + ids_used a < 2 ^ 64
      → IsBarred id limit t
      → IsBarred id (limit + ids_used a) (perform pick a t).1
        × (calls_id id (perform pick a t).0 ≡ false)
  unfolding perform schedule_at stop cancel is_live
  perform-IsBarred (schedule_action time callback interval_ms) t h b =
      let next : (t.next_timer_id + 1) % 2 ^ 64 ≡ t.next_timer_id + 1 = omega (arith, h, b.room) in
      (
        record {
          not_live = ground (arith, b.not_live, b.used);
          not_calling = b.not_calling;
          used = omega (arith, next, b.used);
          room = omega (arith, next, b.room);
        },
        refl,
      )
  perform-IsBarred (cancel_action other) t h b = (
    elim (Option-cases (t.timers other)) [
      | inl absent ↦ simp (absent, cancel) (more_room 0 t b)
      | inr (item, there) ↦
          simp (there, cancel)
            (record {
              not_live = ground (arith, b.not_live);
              not_calling = b.not_calling;
              used = b.used;
              room = omega (arith, b.room);
            })
    ],
    refl,
  )
  perform-IsBarred stop_action t h b = (
    elim (Bool-cases (not t.running)) [
      | inl off ↦ simp (off, stop) (more_room 0 t b)
      | inr on ↦
          simp (on, stop)
            (record {
              not_live = refl;
              not_calling = b.not_calling;
              used = b.used;
              room = omega (arith, b.room);
            })
    ],
    refl,
  )
  perform-IsBarred (loop_action now) t h b =
      let after = timer_loop-IsBarred now t b in
      (more_room 0 (timer_loop pick now t).1 after.0, after.1)

-- A barred timer is not called in any run whose schedules do not use up the ids.
run-IsBarred :
    (pick : List TimerItem → ℕ) (id limit : ℕ) (actions : List (Action pick)) (t : Timer)
    → limit + schedules actions < 2 ^ 64
    → IsBarred id limit t
    → calls_id id (run pick actions t).0 ≡ false
unfolding run
run-IsBarred pick id limit [] t h b = refl
run-IsBarred pick id limit (a ∷ as') t h b =
    let first = perform-IsBarred pick id limit a t (omega (arith, h)) b in
    let next = (perform pick a t).1 in
    let rest = run-IsBarred pick id (limit + ids_used a) as' next (omega (arith, h)) first.0 in
    any_of-append (λ item. item.id == id) (perform pick a t).0 (run pick as' next).0
    ∙ ground (arith, first.1, rest)

-- A timer whose id is below the next id and whose cancellation succeeds, while the thread is not just
-- before its call, is never called again, whatever is scheduled, cancelled, stopped and run
-- afterwards, as long as the schedules among it do not take the next id to 2 ^ 64.
pub cancel-run :
    (pick : List TimerItem → ℕ) (id : ℕ) (actions : List (Action pick)) (t : Timer)
    → (cancel id t).0 ≡ true
    → is_calling id t ≡ false
    → id < t.next_timer_id
    → t.next_timer_id + schedules actions < 2 ^ 64
    → calls_id id (run pick actions (cancel id t).1).0 ≡ false
unfolding cancel is_live
cancel-run pick id actions t yes' apart used h = elim (Option-cases (t.timers id)) [
  | inl absent ↦
      let no' : (cancel id t).0 ≡ false = simp (absent, cancel) refl in ground (arith, yes', no')
  | inr (item, there) ↦
      simp (there, cancel)
        (run-IsBarred pick id t.next_timer_id actions
          (record t { timers = set_timer id (some (record item { cancelled = true })) t.timers }) h
          (record {
            not_live = ground arith;
            not_calling = apart;
            used = used;
            room = omega arith;
          }))
]
