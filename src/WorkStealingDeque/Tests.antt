-- ===== src/WorkStealingDeque/Tests.antt =====
-- Runs and instances of the theorems on work_stealing_deque.hpp.
use code_knife.Prelude.{ℕ, ◌+◌, ◌^◌, ◌≡◌, refl, arith, none, some, List, [], ◌∷◌}
use code_knife.WorkStealingDeque.{Deque, double_until, normalize_capacity, pop_bottom, steal_top}
use code_knife.WorkStealingDeque.Capacity.{IsFit, normalize_capacity-IsFit, double_until-endless}
use code_knife.WorkStealingDeque.Grow.{Represents}
use code_knife.WorkStealingDeque.Refines.{pop_bottom_lem, steal_top_lem}
use code_knife.WorkStealingDeque.Run.{Call, pushes, pops, steals, run, replies, run_refines}

abbrev fresh : Deque ℕ
fresh = record {
  top = 0;
  bottom = 0;
  buffer = record { capacity = 2; mask = 1; slots = none ∷ none ∷ [] };
}

fresh-Represents : Represents fresh []
fresh-Represents = record {
  ring = record { log = 1; size = refl; low_bits = refl; filled = refl };
  span = refl;
  room = omega arith;
  small = omega arith;
  in_word = omega arith;
  items = tt;
}

abbrev calls : List (Call ℕ)
calls = pushes 1 ∷ pushes 2 ∷ pushes 3 ∷ steals ∷ pops ∷ pops ∷ pops ∷ []

-- Three pushes grow the ring of two slots.
abbrev two_items : Deque ℕ
two_items = record {
  top = 0;
  bottom = 2;
  buffer = record { capacity = 4; mask = 3; slots = some 7 ∷ some 8 ∷ none ∷ none ∷ [] };
}

two_items-Represents : Represents two_items (7 ∷ 8 ∷ [])
two_items-Represents = record {
  ring = record { log = 2; size = refl; low_bits = refl; filled = refl };
  span = refl;
  room = omega arith;
  small = omega arith;
  in_word = omega arith;
  items = (refl, (refl, tt));
}

run_refines_example : run fresh calls ≡ none ∷ none ∷ none ∷ some 1 ∷ some 3 ∷ some 2 ∷ none ∷ []
unfolding replies
run_refines_example = run_refines fresh [] calls fresh-Represents (omega arith)

pop_bottom_lem_example :
    ((pop_bottom two_items).0 ≡ some 8) × Represents (pop_bottom two_items).1 (7 ∷ [])
pop_bottom_lem_example = pop_bottom_lem two_items (7 ∷ []) 8 two_items-Represents

steal_top_lem_example :
    ((steal_top two_items).0 ≡ some 7) × Represents (steal_top two_items).1 (8 ∷ [])
steal_top_lem_example = steal_top_lem two_items 7 (8 ∷ []) two_items-Represents

normalize_capacity-IsFit_example : IsFit 5 (normalize_capacity 5)
normalize_capacity-IsFit_example = normalize_capacity-IsFit 5 (omega arith)

double_until-endless_example : double_until 1000 1 (2 ^ 63 + 1) ≡ none
double_until-endless_example = double_until-endless 1000 (2 ^ 63 + 1) (omega arith)
