-- ===== src/Timer/Tests.antt =====
-- A queue that gives the first of the earliest items, and the theorems of the timer on small states.
use code_knife.Prelude.{
  ℕ, suc, ◌≡◌, ◌==◌, ltb, if◌then◌else◌, refl, ap, ◌∙◌, arith, Bool, true, false, none, some, List,
  [], ◌∷◌, any_of, inl, inr, Bool-cases,
}
use code_knife.Timer.{
  TimerItem, Timer, at_top, sleeping, take_at, cancel, schedule_action, loop_action, is_live, run,
}
use code_knife.Timer.Queue.{IsTop}
use code_knife.Timer.Cancel.{calls_id, cancel-run}
use code_knife.Timer.Serve.{turns, run-due}
use code_knife.Timer.Sleep.{sleeping-run}

abbrev is_earlier : TimerItem → TimerItem → Bool
is_earlier item b = ltb b.next_time item.next_time

abbrev first_earliest : List TimerItem → ℕ
first_earliest [] = 0
first_earliest (x ∷ xs) =
    let later = first_earliest xs in if any_of (is_earlier x) xs then suc later else 0

none_earlier :
    (x y : TimerItem) (xs : List TimerItem)
    → any_of (is_earlier x) xs ≡ true
    → any_of (is_earlier y) xs ≡ false
    → is_earlier y x ≡ false
none_earlier x y [] h n = ground (arith, h)
none_earlier x y (z ∷ zs) h n = elim (Bool-cases (is_earlier x z)) [
  | inl z_first ↦ ground (arith, z_first, n)
  | inr z_later ↦ none_earlier x y zs (ground (arith, h, z_later)) (ground (arith, n))
]

take_at-suc :
    (n : ℕ) (x a : TimerItem) (xs rest : List TimerItem)
    → take_at n xs ≡ some (a, rest)
    → take_at (suc n) (x ∷ xs) ≡ some (a, x ∷ rest)
unfolding take_at
take_at-suc n x a xs rest e = rw e refl

first_earliest_top :
    (x : TimerItem) (xs : List TimerItem)
    → (item : TimerItem) × (rest : List TimerItem) × (take_at (first_earliest (x ∷ xs)) (x ∷ xs)
        ≡ some (item, rest))
      × (any_of (λ b. ltb b.next_time item.next_time) (x ∷ xs) ≡ false)
unfolding take_at
first_earliest_top x [] = (x, [], refl, ground arith)
first_earliest_top x (y ∷ ys) =
    let rest = first_earliest_top y ys in
    elim (Bool-cases (any_of (is_earlier x) (y ∷ ys))) [
      | inl later ↦ (
        rest.0,
        x ∷ rest.1,
        ap (λ (n : ℕ). take_at n (x ∷ y ∷ ys)) (chosen later)
            ∙ take_at-suc (first_earliest (y ∷ ys)) x rest.0 (y ∷ ys) rest.1 rest.2,
        ground (arith, none_earlier x rest.0 (y ∷ ys) later rest.3, rest.3),
      )
      | inr here ↦ (x, y ∷ ys, rw here refl, ground (arith, here))
    ]
  where
    chosen :
        any_of (is_earlier x) (y ∷ ys) ≡ true
        → first_earliest (x ∷ y ∷ ys) ≡ suc (first_earliest (y ∷ ys))
    chosen later = simp later refl

first_earliest-IsTop : IsTop first_earliest
first_earliest-IsTop = record { top = first_earliest_top }

-- Timer 1 once at 10, timer 2 every 2 ms from 5 on.
abbrev scheduled : Timer
scheduled = record {
  running = true;
  next_timer_id = 3;
  timers = λ id.
      if id == 1
      then some
          (record { id = 1; next_time = 10; callback = 7; interval_ms = 0; cancelled = false })
      else if id == 2
      then some (record { id = 2; next_time = 5; callback = 8; interval_ms = 2; cancelled = false })
      else none;
  timer_queue =
      record { id = 1; next_time = 10; callback = 7; interval_ms = 0; cancelled = false }
      ∷ record { id = 2; next_time = 5; callback = 8; interval_ms = 2; cancelled = false }
      ∷ [];
  phase = at_top;
}

test_order :
    (elim (run first_earliest (turns first_earliest 12 4) scheduled).0 [
      | [] ↦ []
      | x ∷ xs ↦ x.id ∷ []
    ])
    ≡ 2 ∷ []
unfolding run
test_order = refl

cancel-run_example :
    calls_id 2
      (run first_earliest
        (loop_action 12 ∷ schedule_action 12 9 0 ∷ loop_action 13 ∷ loop_action 14 ∷ [])
        (cancel 2 scheduled).1).0
    ≡ false
unfolding cancel
cancel-run_example =
    cancel-run first_earliest 2
      (loop_action 12 ∷ schedule_action 12 9 0 ∷ loop_action 13 ∷ loop_action 14 ∷ []) scheduled
      refl refl (omega arith) (omega arith)

run-due_example : calls_id 1 (run first_earliest (turns first_earliest 12 4) scheduled).0 ≡ true
unfolding is_live
run-due_example = run-due first_earliest 1 12 scheduled first_earliest-IsTop refl refl refl refl

abbrev asleep : Timer
asleep = record scheduled { phase = sleeping 10 }

sleeping-run_example :
    (run first_earliest (schedule_action 6 9 0 ∷ loop_action 7 ∷ loop_action 8 ∷ []) asleep).0 ≡ []
sleeping-run_example =
    sleeping-run first_earliest 10 (schedule_action 6 9 0 ∷ loop_action 7 ∷ loop_action 8 ∷ [])
      asleep refl refl
