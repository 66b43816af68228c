-- ===== src/EventDispatcher/Ids.antt =====
-- The lists of timers as maps from ids.
use code_knife.Prelude.{
  ℕ, ◌≡◌, ◌==◌, if◌then◌else◌, refl, ap, ap₂, ◌∙◌, sym, arith, Bool, true, false, not, ◌&&◌, ◌||◌,
  Option, none, some, List, [], ◌∷◌, ◌++◌, inl, inr, Bool-cases, any_of, any_of-append, find_if,
}
use code_knife.EventDispatcher.{TimerInfo, Dispatcher, replace_timer, erase_timer}

-- The timer of an id, and whether no two timers have one id.
abbrev pub timer_in : ℕ → List TimerInfo → Option TimerInfo
timer_in id ts = find_if (λ t. t.id == id) ts

abbrev pub timer_of : ℕ → Dispatcher → Option TimerInfo
timer_of id d = elim d.timer_source [ none ↦ none | some s ↦ timer_in id s.timer_list ]

abbrev pub is_some : {A : Type 0} → Option A → Bool
is_some none = false
is_some (some a) = true

abbrev pub has_id : ℕ → List TimerInfo → Bool
has_id id ts = any_of (λ t. t.id == id) ts

abbrev pub unique_ids : List TimerInfo → Bool
unique_ids [] = true
unique_ids (t ∷ ts) = not (has_id t.id ts) && unique_ids ts

abbrev pub has_unique_ids : Dispatcher → Bool
has_unique_ids d = elim d.timer_source [ none ↦ true | some s ↦ unique_ids s.timer_list ]

timer_in-none : (id : ℕ) (ts : List TimerInfo) → has_id id ts ≡ false → timer_in id ts ≡ none
timer_in-none id [] h = refl
timer_in-none id (t ∷ ts) h = ground (arith, h, timer_in-none id ts (ground (arith, h)))

pub none-has_id : (id : ℕ) (ts : List TimerInfo) → timer_in id ts ≡ none → has_id id ts ≡ false
none-has_id id [] h = refl
none-has_id id (t ∷ ts) h = ground (arith, h, none-has_id id ts (ground (arith, h)))

pub timer_in-replace_timer :
    (id other : ℕ) (timer : TimerInfo) (ts : List TimerInfo)
    → timer.id ≡ id
    → has_id id ts ≡ true
    → timer_in other (replace_timer id timer ts)
      ≡ (if other == id then some timer else timer_in other ts)
timer_in-replace_timer id other timer [] e h = ground (arith, h)
timer_in-replace_timer id other timer (t ∷ ts) e h = elim (Bool-cases (t.id == id)) [
  | inl here ↦ ground (arith, here, e)
  | inr there ↦
      ground
        (arith, there, e, timer_in-replace_timer id other timer ts e (ground (arith, h, there)))
]

has_id-replace_timer :
    (id other : ℕ) (timer : TimerInfo) (ts : List TimerInfo)
    → timer.id ≡ id
    → has_id other (replace_timer id timer ts) ≡ has_id other ts
has_id-replace_timer id other timer [] e = refl
has_id-replace_timer id other timer (t ∷ ts) e = elim (Bool-cases (t.id == id)) [
  | inl here ↦
      let same : t.id ≡ timer.id = ground (arith, here, e) in
      simp here (ap (λ (n : ℕ). (n == other) || has_id other ts) (sym same))
  | inr there ↦
      simp there
        (ap (λ (b : Bool). (t.id == other) || b) (has_id-replace_timer id other timer ts e))
]

pub unique_ids-replace_timer :
    (id : ℕ) (timer : TimerInfo) (ts : List TimerInfo)
    → timer.id ≡ id
    → unique_ids (replace_timer id timer ts) ≡ unique_ids ts
unique_ids-replace_timer id timer [] e = refl
unique_ids-replace_timer id timer (t ∷ ts) e = elim (Bool-cases (t.id == id)) [
  | inl here ↦
      let same : t.id ≡ timer.id = ground (arith, here, e) in
      simp here (ap (λ (n : ℕ). not (has_id n ts) && unique_ids ts) (sym same))
  | inr there ↦ simp there (
      ap₂ (λ (a b : Bool). not a && b) (has_id-replace_timer id t.id timer ts e)
        (unique_ids-replace_timer id timer ts e))
]

pub unique_ids-append :
    (timer : TimerInfo) (ts : List TimerInfo)
    → has_id timer.id ts ≡ false
    → unique_ids ts ≡ true
    → unique_ids (ts ++ (timer ∷ [])) ≡ true
unique_ids-append timer [] h u = refl
unique_ids-append timer (t ∷ ts) h u =
    let both = any_of-append (λ a. a.id == t.id) ts (timer ∷ []) in
    ground (arith, both, h, u, unique_ids-append timer ts (ground (arith, h)) (ground (arith, u)))

pub timer_in-append :
    (other : ℕ) (timer : TimerInfo) (ts : List TimerInfo)
    → has_id timer.id ts ≡ false
    → timer_in other (ts ++ (timer ∷ []))
      ≡ (if other == timer.id then some timer else timer_in other ts)
timer_in-append other timer [] h = ground arith
timer_in-append other timer (t ∷ ts) h =
    ground (arith, h, timer_in-append other timer ts (ground (arith, h)))

has_id-erase_timer :
    (id other : ℕ) (ts : List TimerInfo)
    → has_id other ts ≡ false
    → has_id other (erase_timer id ts) ≡ false
has_id-erase_timer id other [] h = refl
has_id-erase_timer id other (t ∷ ts) h =
    ground (arith, h, has_id-erase_timer id other ts (ground (arith, h)))

pub unique_ids-erase_timer :
    (id : ℕ) (ts : List TimerInfo) → unique_ids ts ≡ true → unique_ids (erase_timer id ts) ≡ true
unique_ids-erase_timer id [] u = refl
unique_ids-erase_timer id (t ∷ ts) u =
    let apart = has_id-erase_timer id t.id ts (ground (arith, u)) in
    ground (arith, u, apart, unique_ids-erase_timer id ts (ground (arith, u)))

pub timer_in-erase_timer :
    (id other : ℕ) (ts : List TimerInfo)
    → unique_ids ts ≡ true
    → timer_in other (erase_timer id ts) ≡ (if other == id then none else timer_in other ts)
timer_in-erase_timer id other [] u = ground arith
timer_in-erase_timer id other (t ∷ ts) u = elim (Bool-cases (t.id == id)) [
  | inl here ↦
      let gone = timer_in-none t.id ts (ground (arith, u)) in
      let same : t.id ≡ id = ground (arith, here) in
      let gone_id : timer_in id ts ≡ none = ap (λ (n : ℕ). timer_in n ts) (sym same) ∙ gone in
      elim (Bool-cases (other == id)) [
        | inl it ↦
            let is_it : other ≡ id = ground (arith, it) in
            simp (here, it) (ap (λ (n : ℕ). timer_in n ts) is_it ∙ gone_id)
        | inr not_it ↦
            let apart : (t.id == other) ≡ false = ground (arith, same, not_it) in
            simp (here, not_it, apart) refl
      ]
  | inr there ↦ ground (arith, there, timer_in-erase_timer id other ts (ground (arith, u)))
]
