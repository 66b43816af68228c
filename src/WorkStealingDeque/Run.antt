-- ===== src/WorkStealingDeque/Run.antt =====
-- A client's calls in order, against a plain list.
use code_knife.Prelude.{
  ℕ, ◌+◌, ◌^◌, ◌≤◌, ◌<◌, ◌≡◌, refl, ap, ap₂, subst, arith, Option, none, some, List, [], ◌∷◌, ◌++◌,
  length, ltb, if◌then◌else◌,
}
use native.Mathlib.Nat.{one-le-pow, pow-le-pow_right}
use code_knife.WorkStealingDeque.{
  Deque, push_bottom, pop_bottom, steal_top, normalize_capacity, create, new_buffer,
}
use code_knife.WorkStealingDeque.Capacity.{
  IsFit, normalize_capacity-IsFit, new_buffer-IsRing, log_lt,
}
use code_knife.WorkStealingDeque.Grow.{Represents}
use code_knife.WorkStealingDeque.Refines.{
  push_bottom_lem, pop_bottom_lem, pop_bottom_empty, steal_top_lem, steal_top_empty,
}

pub data Call (A : Type 0) : Type 0 where
  pushes : A → Call A
  pops : Call A
  steals : Call A

module _ {A : Type 0} where
  -- The replies of a run of calls on the deque.
  unfoldable pub run : Deque A → List (Call A) → List (Option A)
  run d [] = []
  run d (pushes value ∷ calls) = none ∷ run (push_bottom value d) calls
  run d (pops ∷ calls) = let (item, d') = pop_bottom d in item ∷ run d' calls
  run d (steals ∷ calls) = let (item, d') = steal_top d in item ∷ run d' calls

  -- The last of a list that is not empty, and the rest before it.
  abbrev pub last : A → List A → A
  last x [] = x
  last x (y ∷ ys) = last y ys

  abbrev pub before_last : A → List A → List A
  before_last x [] = []
  before_last x (y ∷ ys) = x ∷ before_last y ys

  -- The same calls on the list of items, oldest first.
  unfoldable pub replies : List A → List (Call A) → List (Option A)
  replies xs [] = []
  replies xs (pushes value ∷ calls) = none ∷ replies (xs ++ value ∷ []) calls
  replies [] (pops ∷ calls) = none ∷ replies [] calls
  replies (x ∷ xs) (pops ∷ calls) = some (last x xs) ∷ replies (before_last x xs) calls
  replies [] (steals ∷ calls) = none ∷ replies [] calls
  replies (x ∷ xs) (steals ∷ calls) = some x ∷ replies xs calls

  split_last : (x : A) (xs : List A) → x ∷ xs ≡ before_last x xs ++ last x xs ∷ []
  split_last x [] = refl
  split_last x (y ∷ ys) = ap (◌∷◌ x) (split_last y ys)

  push_bottom_bound : (d : Deque A) (v : A) → (push_bottom v d).bottom ≤ d.bottom + 1
  unfolding push_bottom
  push_bottom_bound d v = omega arith

  pop_bottom_bound : (d : Deque A) → (pop_bottom d).1.bottom ≤ d.bottom
  unfolding pop_bottom
  pop_bottom_bound d = ground arith

  steal_top_bound : (d : Deque A) → (steal_top d).1.bottom ≤ d.bottom
  unfolding steal_top
  steal_top_bound d = ground arith

  -- A deque that represents a list answers every sequence of pushes, pops and steals as the
  -- list does, as long as its bottom position and the number of calls stay below 2^60
  -- together.
  pub run_refines :
      (d : Deque A) (xs : List A) (calls : List (Call A))
      → Represents d xs
      → d.bottom + length calls < 2 ^ 60
      → run d calls ≡ replies xs calls
  unfolding run replies
  run_refines d xs [] r h = refl
  run_refines d xs (pushes value ∷ calls) r h = ap (◌∷◌ none) (
      run_refines (push_bottom value d) (xs ++ value ∷ []) calls
        (push_bottom_lem d xs value r (omega arith)) (omega (arith, push_bottom_bound d value)))
  run_refines d [] (pops ∷ calls) r h =
      rw (pop_bottom_empty d r) (ap (◌∷◌ none) (run_refines d [] calls r (omega arith)))
  run_refines d (x ∷ xs) (pops ∷ calls) r h =
      let popped =
        pop_bottom_lem d (before_last x xs) (last x xs)
          (subst (Represents d) (split_last x xs) r) in
      ap₂ ◌∷◌ popped.0 (
        run_refines (pop_bottom d).1 (before_last x xs) calls popped.1
          (omega (arith, pop_bottom_bound d)))
  run_refines d [] (steals ∷ calls) r h =
      rw (steal_top_empty d r) (ap (◌∷◌ none) (run_refines d [] calls r (omega arith)))
  run_refines d (x ∷ xs) (steals ∷ calls) r h =
      let stolen = steal_top_lem d x xs r in
      ap₂ ◌∷◌ stolen.0
        (run_refines (steal_top d).1 xs calls stolen.1 (omega (arith, steal_top_bound d)))

  -- For up to 2^62 slots the constructor makes an empty deque, with its bottom position at 0.
  pub create-Represents :
      (initial_capacity : ℕ)
      → initial_capacity ≤ 2 ^ 62
      → (d : Deque A) × (create initial_capacity ≡ some d) × Represents d [] × (d.bottom ≡ 0)
  unfolding create
  create-Represents initial_capacity h = (
    record { top = 0; bottom = 0; buffer = new_buffer (2 ^ fit.log) },
    rw (fit.returns, create),
    record {
      ring = new_buffer-IsRing A fit.log fit.in_word;
      span = refl;
      room = omega (arith, size, one-le-pow fit.log 2 (omega arith));
      small = omega (arith, size, bounded);
      in_word = omega arith;
      items = tt;
    },
    refl,
  )
    where
      fit :
          IsFit
            (if ltb initial_capacity 2 then 2 else initial_capacity)
            (normalize_capacity initial_capacity)
      fit = normalize_capacity-IsFit initial_capacity (omega arith)

      size : (new_buffer {A = A} (2 ^ fit.log)).capacity ≡ 2 ^ fit.log
      size = unfold new_buffer in refl

      below : 2 ^ fit.log < 2 ^ 63
      below = ground (arith, fit.tight)

      bounded : 2 ^ fit.log ≤ 2 ^ 62
      bounded =
          pow-le-pow_right {n = 2} (omega arith) {i = fit.log} {j = 62}
            (omega (arith, log_lt fit.log fit.in_word below))
