-- ===== src/Timer/Queue.antt =====
-- The top of the queue, and the items that are due.
use code_knife.Prelude.{
  ℕ, zero, suc, ◌≡◌, ◌≤◌, ltb, leb, if◌then◌else◌, refl, ap, ◌∙◌, sym, subst, arith, Bool, true,
  false, ◌||◌, Option, none, some, List, [], ◌∷◌, length, any_of, Option-cases, inl, inr,
}
use code_knife.Timer.{TimerItem, take_at}

-- What the timer takes of a priority queue: its top is one of its items, and none is before it.
pub record IsTop (pick : List TimerItem → ℕ) : Type 0 where
  pub top :
      (x : TimerItem) (xs : List TimerItem)
      → (item : TimerItem) × (rest : List TimerItem) × (take_at (pick (x ∷ xs)) (x ∷ xs)
          ≡ some (item, rest))
        × (any_of (λ b. ltb b.next_time item.next_time) (x ∷ xs) ≡ false)

abbrev get_or_else : {B : Type 0} → B → Option B → B
get_or_else b none = b
get_or_else b (some a) = a

module _ {A : Type 0} where
  -- What is left of a list with one of its elements out.
  pub data IsTaken (item : A) : List A → List A → Type 0 where
    here : (rest : List A) → IsTaken item (item ∷ rest) rest
    there : (x : A) (xs rest : List A) → IsTaken item xs rest → IsTaken item (x ∷ xs) (x ∷ rest)

  pub take_at-IsTaken :
      (n : ℕ) (xs : List A) (p : A × List A) → take_at n xs ≡ some p → IsTaken p.0 xs p.1
  unfolding take_at
  take_at-IsTaken n [] p e = ground (arith, e)
  take_at-IsTaken zero (x ∷ xs) p e =
      subst (λ (q : A × List A). IsTaken q.0 (x ∷ xs) q.1) (ap (get_or_else (x, xs)) e) (here xs)
  take_at-IsTaken (suc n) (x ∷ xs) p e = elim (Option-cases (take_at n xs)) [
    | inl out ↦ let lost : take_at (suc n) (x ∷ xs) ≡ none = rw out refl in ground (arith, lost, e)
    | inr (q, found) ↦
        let taken : take_at (suc n) (x ∷ xs) ≡ some (q.0, x ∷ q.1) = rw found refl in
        subst (λ (r : A × List A). IsTaken r.0 (x ∷ xs) r.1)
          (ap (get_or_else (x, xs)) (sym taken ∙ e)) (there x xs q.1 (take_at-IsTaken n xs q found))
  ]

  pub any_of-IsTaken :
      (test : A → Bool) (item : A) (xs rest : List A)
      → IsTaken item xs rest
      → any_of test xs ≡ (test item || any_of test rest)
  any_of-IsTaken test item xs' rest' (here rest) = refl
  any_of-IsTaken test item xs' rest' (there x xs rest t) =
      ground (arith, any_of-IsTaken test item xs rest t)

-- How many items are due.
abbrev pub count_due : ℕ → List TimerItem → ℕ
count_due now [] = 0
count_due now (x ∷ xs) =
    let rest = count_due now xs in if leb x.next_time now then suc rest else rest

pub count_due-IsTaken :
    (now : ℕ) (item : TimerItem) (xs rest : List TimerItem)
    → IsTaken item xs rest
    → leb item.next_time now ≡ true
    → count_due now xs ≡ suc (count_due now rest)
count_due-IsTaken now item xs' rest' (here rest) h = ground arith
count_due-IsTaken now item xs' rest' (there x xs rest t) h =
    ground (arith, count_due-IsTaken now item xs rest t h)

pub count_due-le : (now : ℕ) (xs : List TimerItem) → count_due now xs ≤ length xs
count_due-le now [] = omega arith
count_due-le now (x ∷ xs) = ground (arith, count_due-le now xs)
