-- ===== src/EventDispatcher/Timeout.antt =====
-- The timeout that the timer source gives to the main loop.
use code_knife.Prelude.{
  ℕ, ◌-◌, ◌≡◌, ◌≤◌, ◌==◌, ltb, leb, if◌then◌else◌, refl, ap, ◌∙◌, sym, arith, Bool, true, false,
  ◌||◌, List, [], ◌∷◌, ◌⊎◌, inl, inr, Bool-cases, any_of,
}
use code_knife.EventDispatcher.{
  ℤ, pos, negsuc, difference, is_less, int_max, int64_max, TimerInfo, TimerSource, least_timeout,
  get_next_timer_timeout, saturate_cast, timer_source_prepare, any_due, timer_source_check,
}

abbrev earlier : ℕ → ℕ → ℕ
earlier m n = if ltb n m then n else m

abbrev pub at_most_int_max : ℕ → ℕ
at_most_int_max n = if ltb int_max n then int_max else n

-- The first of a time and the times of a list.
abbrev pub earliest : ℕ → List TimerInfo → ℕ
earliest m [] = m
earliest m (t ∷ ts) = earliest (earlier m t.next_timeout) ts

-- What the main loop is told, from the first deadline.
abbrev pub prepared : ℕ → TimerSource → ℤ × Bool
prepared now s = if s.run_with_idle_priority then (negsuc 0, false) else elim s.timer_list [
  | [] ↦ (negsuc 0, false)
  | t ∷ ts ↦
      let deadline = earliest t.next_timeout ts in
      if ltb deadline now
      then (negsuc 0, false)
      else (pos (at_most_int_max (deadline - now)), deadline == now)
]

is_less-difference : (a m now : ℕ) → is_less (difference a now) (difference m now) ≡ ltb a m
is_less-difference a m now = elim (Bool-cases (leb now a)) [
  | inl x ↦ elim (Bool-cases (leb now m)) [
    | inl y ↦ simp (x, y) (ground (arith, x, y))
    | inr y ↦ simp (x, y) (ground (arith, x, y))
  ]
  | inr x ↦ elim (Bool-cases (leb now m)) [
    | inl y ↦ simp (x, y) (ground (arith, x, y))
    | inr y ↦ simp (x, y) (ground (arith, x, y))
  ]
]

least_timeout_lem :
    (now m : ℕ) (ts : List TimerInfo)
    → least_timeout now (difference m now) ts ≡ difference (earliest m ts) now
unfolding least_timeout
least_timeout_lem now m [] = refl
least_timeout_lem now m (t ∷ ts) = elim (Bool-cases (ltb t.next_timeout m)) [
  | inl sooner ↦
      simp (is_less-difference t.next_timeout m now, sooner)
        (least_timeout_lem now t.next_timeout ts)
  | inr later ↦ simp (is_less-difference t.next_timeout m now, later) (least_timeout_lem now m ts)
]

first_timeout :
    (now : ℕ) (t : TimerInfo) (ts : List TimerInfo)
    → t.next_timeout ≤ int64_max
    → least_timeout now (pos int64_max) (t ∷ ts) ≡ difference (earliest t.next_timeout ts) now
unfolding least_timeout
first_timeout now t ts h =
    ap (λ (m : ℤ). least_timeout now m ts) (first (Bool-cases (leb now t.next_timeout)))
    ∙ least_timeout_lem now t.next_timeout ts
  where
    first :
        ((leb now t.next_timeout ≡ true) ⊎ (leb now t.next_timeout ≡ false))
        → (if is_less (difference t.next_timeout now) (pos int64_max)
            then difference t.next_timeout now
            else pos int64_max)
          ≡ difference t.next_timeout now
    first (inr past) = simp past refl
    first (inl future) = elim (Bool-cases (ltb (t.next_timeout - now) int64_max)) [
      | inl less ↦ simp (future, less) refl
      | inr not_less ↦ simp (future, not_less) (ap pos (ground (arith, not_less)))
    ]

-- The timeout and the readiness, for a list that is not empty.
prepare_some :
    (now : ℕ) (s : TimerSource) (t : TimerInfo) (ts : List TimerInfo)
    → s.run_with_idle_priority ≡ false
    → get_next_timer_timeout now s ≡ difference (earliest t.next_timeout ts) now
    → timer_source_prepare now s ≡ (
        let deadline = earliest t.next_timeout ts in
        if ltb deadline now
        then (negsuc 0, false)
        else (pos (at_most_int_max (deadline - now)), deadline == now))
unfolding timer_source_prepare saturate_cast
prepare_some now s t ts idle e =
    split (earliest t.next_timeout ts) e (Bool-cases (leb now (earliest t.next_timeout ts)))
  where
    split :
        (deadline : ℕ)
        → get_next_timer_timeout now s ≡ difference deadline now
        → ((leb now deadline ≡ true) ⊎ (leb now deadline ≡ false))
        → timer_source_prepare now s ≡ (
            if ltb deadline now
            then (negsuc 0, false)
            else (pos (at_most_int_max (deadline - now)), deadline == now))
    split deadline e (inr past) =
        let late : ltb deadline now ≡ true = ground (arith, past) in
        rw (timer_source_prepare, e, idle, past, late) refl
    split deadline e (inl future) =
        let late : ltb deadline now ≡ false = ground (arith, future) in
        elim (Bool-cases (deadline == now)) [
          | inl here ↦
              let none_left : deadline - now ≡ 0 = ground (arith, here) in
              rw (timer_source_prepare, e, idle, future, late, here, none_left) refl
          | inr there ↦
              let left : ltb 0 (deadline - now) ≡ true = ground (arith, there, future) in
              let not_negative : ltb (deadline - now) 0 ≡ false = ground arith in
              elim (Bool-cases (ltb int_max (deadline - now))) [
                | inl far ↦
                    rw (timer_source_prepare, e, idle, future, late, there, left, not_negative, far)
                      refl
                | inr near ↦
                    rw
                      (timer_source_prepare, e, idle, future, late, there, left, not_negative, near)
                      refl
              ]
        ]

-- timerSourcePrepare, for deadlines that an int64_t holds: with no timer, in idle priority, or once the
-- first deadline is past, it stores -1, which lets the main loop wait without end, and is not ready;
-- else it stores the time until the first deadline, at most INT_MAX, and is ready exactly when that
-- deadline is now.
pub timer_source_prepare_lem :
    (now : ℕ) (s : TimerSource)
    → any_of (λ t. ltb int64_max t.next_timeout) s.timer_list ≡ false
    → timer_source_prepare now s ≡ prepared now s
unfolding timer_source_prepare get_next_timer_timeout
timer_source_prepare_lem now s h = elim (Bool-cases s.run_with_idle_priority) [
  | inl idle ↦ simp (timer_source_prepare, idle) refl
  | inr active ↦ from s.timer_list refl active
]
  where
    from :
        (list : List TimerInfo)
        → s.timer_list ≡ list
        → s.run_with_idle_priority ≡ false
        → timer_source_prepare now s ≡ prepared now s
    from [] e active = rw (timer_source_prepare, active, e) refl
    from (t ∷ ts) e active =
        let bound : any_of (λ t. ltb int64_max t.next_timeout) (t ∷ ts) ≡ false =
          ap (any_of (λ t. ltb int64_max t.next_timeout)) (sym e) ∙ h in
        let timeout : get_next_timer_timeout now s ≡ difference (earliest t.next_timeout ts) now =
          rw e (first_timeout now t ts (ground (arith, bound))) in
        prepare_some now s t ts active timeout ∙ sym (rw (active, e) refl)

earliest-late :
    (now m : ℕ) (ts : List TimerInfo)
    → (ltb m now || any_of (λ t. ltb t.next_timeout now) ts) ≡ true
    → ltb (earliest m ts) now ≡ true
earliest-late now m [] h = ground arith
earliest-late now m (t ∷ ts) h = earliest-late now (earlier m t.next_timeout) ts (ground (arith, h))

-- Outside idle priority, where an int64_t holds every deadline: while some timer is past its time, and
-- not just at the millisecond itself, timerSourcePrepare is not ready and stores the timeout -1, with
-- which the main loop waits without end, though timerSourceCheck finds a timer to dispatch.
pub timer_source_prepare-late :
    (now : ℕ) (s : TimerSource)
    → any_of (λ t. ltb int64_max t.next_timeout) s.timer_list ≡ false
    → s.run_with_idle_priority ≡ false
    → any_of (λ t. ltb t.next_timeout now) s.timer_list ≡ true
    → (timer_source_prepare now s ≡ (negsuc 0, false)) × (timer_source_check now s ≡ true)
unfolding timer_source_check any_due
timer_source_prepare-late now s h active late = (
  timer_source_prepare_lem now s h ∙ first s.timer_list refl late,
  rw active (due s.timer_list late),
)
  where
    first :
        (list : List TimerInfo)
        → s.timer_list ≡ list
        → any_of (λ t. ltb t.next_timeout now) list ≡ true
        → prepared now s ≡ (negsuc 0, false)
    first [] e l = ground (arith, l)
    first (t ∷ ts) e l = rw (active, e, earliest-late now t.next_timeout ts l) refl

    due :
        (list : List TimerInfo)
        → any_of (λ t. ltb t.next_timeout now) list ≡ true
        → any_due now list ≡ true
    due [] l = ground (arith, l)
    due (t ∷ ts) l = elim (Bool-cases (ltb t.next_timeout now)) [
      | inl here ↦ ground (arith, here)
      | inr there ↦ ground (arith, due ts (ground (arith, l, there)))
    ]
