-- ===== src/EventDispatcher/Timers.antt =====
-- Registered timers as a map from ids.
use code_knife.Prelude.{
  ℕ, ◌+◌, ◌≡◌, ◌==◌, if◌then◌else◌, refl, ap, ◌∙◌, arith, Bool, true, false, not, ◌&&◌, ◌⊎◌, Option,
  none, some, List, [], ◌∷◌, ◌++◌, inl, inr, Bool-cases, Option-cases, any_of, ltb, ◌≤◌,
}
use code_knife.EventDispatcher.{
  TimerInfo, TimerSource, Dispatcher, replace_timer, register_in, register_timer, unregister_timer,
  int64_max,
}
use code_knife.EventDispatcher.Ids.{
  timer_in, timer_of, is_some, has_id, unique_ids, has_unique_ids, none-has_id,
  timer_in-replace_timer, unique_ids-replace_timer, unique_ids-append, timer_in-append,
  unique_ids-erase_timer, timer_in-erase_timer,
}

-- Whether there is a list of timers, as from startingUp to shuttingDown, and whether an int64_t
-- holds every deadline in it.
abbrev pub is_set_up : Dispatcher → Bool
is_set_up d = elim d.timer_source [ none ↦ false | some s ↦ true ]

abbrev fit : List TimerInfo → Bool
fit ts = not (any_of (λ t. ltb int64_max t.next_timeout) ts)

abbrev pub deadlines_fit : Dispatcher → Bool
deadlines_fit d = elim d.timer_source [ none ↦ true | some s ↦ fit s.timer_list ]

module _ (now id interval receiver : ℕ) where
  abbrev pub new_timer : TimerInfo
  new_timer = record {
    id = id;
    interval = interval;
    next_timeout = now + interval;
    receiver = receiver;
    activated = false;
  }

  replace_timer-fits :
      (ts : List TimerInfo)
      → now + interval ≤ int64_max
      → fit ts ≡ true
      → fit (replace_timer id new_timer ts) ≡ true
  replace_timer-fits [] small f = refl
  replace_timer-fits (t ∷ ts) small f =
      let rest = replace_timer-fits ts small (ground (arith, f)) in ground (arith, small, f, rest)

  append-fits :
      (ts : List TimerInfo)
      → now + interval ≤ int64_max
      → fit ts ≡ true
      → fit (ts ++ (new_timer ∷ [])) ≡ true
  append-fits [] small f = ground (arith, small)
  append-fits (t ∷ ts) small f =
      let rest = append-fits ts small (ground (arith, f)) in ground (arith, f, rest)

  registered :
      (ts : List TimerInfo)
      → now + interval ≤ int64_max
      → unique_ids ts ≡ true
      → fit ts ≡ true
      → ((other : ℕ)
          → timer_in other (register_in id new_timer ts)
            ≡ (if other == id then some new_timer else timer_in other ts))
        × (unique_ids (register_in id new_timer ts) ≡ true)
        × (fit (register_in id new_timer ts) ≡ true)
  unfolding register_in
  registered ts small u f = elim (Option-cases (timer_in id ts)) [
    | inl absent ↦
        let free = none-has_id id ts absent in
        rw (absent, register_in)
          (
            λ other. timer_in-append other new_timer ts free,
            unique_ids-append new_timer ts free u,
            append-fits ts small f,
          )
    | inr (old, there) ↦
        let used : has_id id ts ≡ true = found ts old there in
        rw (there, register_in)
          (
            λ other. timer_in-replace_timer id other new_timer ts refl used,
            unique_ids-replace_timer id new_timer ts refl ∙ u,
            replace_timer-fits ts small f,
          )
  ]
    where
      found :
          (ts : List TimerInfo) (old : TimerInfo) → timer_in id ts ≡ some old → has_id id ts ≡ true
      found [] old e = ground (arith, e)
      found (t ∷ ts) old e = elim (Bool-cases (t.id == id)) [
        | inl here ↦ ground (arith, here)
        | inr there ↦ ground (arith, there, found ts old (ground (arith, there, e)))
      ]

  -- registerTimer, while the ids in the list are all different and an int64_t holds every deadline
  -- and the new one: where there is a list, the id has the new timer, whose time is the interval
  -- from now; each other id, and each id where there is no list, has the timer that it had; the ids
  -- stay different, and an int64_t still holds every deadline.
  pub register_timer_lem :
      (d : Dispatcher)
      → has_unique_ids d ≡ true
      → deadlines_fit d ≡ true
      → now + interval ≤ int64_max
      → ((other : ℕ)
          → timer_of other (register_timer now id interval receiver d)
            ≡ (if (other == id) && is_set_up d then some new_timer else timer_of other d))
        × (has_unique_ids (register_timer now id interval receiver d) ≡ true)
        × (deadlines_fit (register_timer now id interval receiver d) ≡ true)
  unfolding register_timer
  register_timer_lem d u f small = elim (Option-cases d.timer_source) [
    | inl absent ↦
        rw (absent, register_timer)
          (λ other. ground arith, ground (arith, absent), ground (arith, absent))
    | inr (s, e) ↦
        let there = registered s.timer_list small (ground (arith, e, u)) (ground (arith, e, f)) in
        rw (e, register_timer)
          (
            λ other.
                there.0 other ∙ agree (other == id) (some new_timer) (timer_in other s.timer_list),
            there.1,
            there.2,
          )
  ]
    where
      agree :
          {A : Type 0} (b : Bool) (x y : A) → (if b then x else y) ≡ (if b && true then x else y)
      agree true x y = refl
      agree false x y = refl

-- unregisterTimer, while the ids in the list are all different: it returns whether the id had a timer;
-- the id has none, each other id has the timer that it had, and the ids stay different.
pub unregister_timer_lem :
    (id : ℕ) (d : Dispatcher)
    → has_unique_ids d ≡ true
    → ((unregister_timer id d).0 ≡ is_some (timer_of id d))
      × ((other : ℕ)
          → timer_of other (unregister_timer id d).1
            ≡ (if other == id then none else timer_of other d))
      × (has_unique_ids (unregister_timer id d).1 ≡ true)
unfolding unregister_timer
unregister_timer_lem id d u = from d.timer_source refl
  where
    kept :
        (other : ℕ) (ts : List TimerInfo)
        → timer_in id ts ≡ none
        → ((other == id) ≡ true) ⊎ ((other == id) ≡ false)
        → timer_in other ts ≡ (if other == id then none else timer_in other ts)
    kept other ts absent (inl it) =
        let is_it : other ≡ id = ground (arith, it) in
        simp it (ap (λ (n : ℕ). timer_in n ts) is_it ∙ absent)
    kept other ts absent (inr not_it) = simp not_it refl

    from :
        (source : Option TimerSource)
        → d.timer_source ≡ source
        → ((unregister_timer id d).0 ≡ is_some (timer_of id d))
          × ((other : ℕ)
              → timer_of other (unregister_timer id d).1
                ≡ (if other == id then none else timer_of other d))
          × (has_unique_ids (unregister_timer id d).1 ≡ true)
    from none e = rw (e, unregister_timer) (refl, λ other. ground (arith, e), ground (arith, u))
    from (some s) e =
        let unique : unique_ids s.timer_list ≡ true = ground (arith, e, u) in
        let view : (other : ℕ) → timer_of other d ≡ timer_in other s.timer_list =
          λ other. ground (arith, e) in
        elim (Option-cases (timer_in id s.timer_list)) [
          | inl absent ↦
              rw (e, absent, unregister_timer)
                (
                  refl,
                  λ other. view other ∙ kept other s.timer_list absent (Bool-cases (other == id)),
                  u,
                )
          | inr (old, there) ↦
              rw (e, there, unregister_timer)
                (
                  refl,
                  λ other. timer_in-erase_timer id other s.timer_list unique,
                  unique_ids-erase_timer id s.timer_list unique,
                )
        ]
