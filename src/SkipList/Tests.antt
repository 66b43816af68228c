-- ===== src/SkipList/Tests.antt =====
-- A list of two nodes, and the theorems of the skip list on it.
use code_knife.Prelude.{
  ℕ, suc, zero, ◌≡◌, ◌≢◌, ◌<◌, ◌≤◌, ltb, ◌==◌, if◌then◌else◌, refl, arith, true, false, none, some,
  List, [], ◌∷◌,
}
use code_knife.SkipList.{
  Node, SkipList, find_node, lower_bound, upper_bound, create_node, emplace, unsafe_erase,
  random_level, contains,
}
use code_knife.SkipList.Chains.{Chain}
use code_knife.SkipList.Levels.{at_level}
use code_knife.SkipList.Search.{IsOrder, heights}
use code_knife.SkipList.Ordered.{Represents, lower_bound_lem, upper_bound_lem}
use code_knife.SkipList.Find.{find_node_lem}
use code_knife.SkipList.Emplaced.{IsEmplaced, emplace_new, emplace_again}
use code_knife.SkipList.EraseKey.{IsErased, unsafe_erase_lem}
use code_knife.SkipList.Heights.{random_level_lem}

ltb-IsOrder : IsOrder ltb
ltb-IsOrder = record { irreflexive = λ a. ground arith; transitive = λ a b c p q. ground arith }

-- Key 3 at the address 2 on one level, key 5 at the address 1 on two.
abbrev node_at : ℕ → Node ℕ ℕ
node_at a =
    if a == 1
    then record { key = 5; value = 50; height = 2; next = λ level. 0 }
    else record { key = 3; value = 30; height = 1; next = λ level. if level == 0 then 1 else 0 }

abbrev two : SkipList ℕ ℕ
two = record {
  head = λ level. if level == 0 then 2 else if level == 1 then 1 else 0;
  node = node_at;
  size = 2;
  max_height = 2;
}

abbrev nodes : List ℕ
nodes = 2 ∷ 1 ∷ []

two_chained :
    (level : ℕ) → level < 16 → Chain two level (two.head level) (at_level (heights two) level nodes)
two_chained zero h = (refl, omega arith, (refl, omega arith, refl))
two_chained (suc zero) h = (refl, omega arith, refl)
two_chained (suc (suc level)) h =
    let short : ltb (suc (suc level)) 1 ≡ false = ground arith in
    let middle : ltb (suc (suc level)) 2 ≡ false = ground arith in rw (short, middle) (ground arith)

two-Represents : Represents ltb two nodes
two-Represents = record {
  linked = record {
    chained = two_chained;
    tall = refl;
    some_level = omega arith;
    few_levels = omega arith;
  };
  ascending = (refl, (refl, tt));
  counted = refl;
}

test_find : find_node ltb 3 5 two ≡ some 1
unfolding find_node
test_find = refl

test_contains : contains ltb 3 4 two ≡ some false
unfolding contains
test_contains = refl

test_out_of_fuel : find_node ltb 1 9 two ≡ none
unfolding find_node
test_out_of_fuel = refl

find_node_lem_example : find_node ltb 3 5 two ≡ some 1
find_node_lem_example = find_node_lem ltb ltb-IsOrder 3 5 two nodes two-Represents (omega arith)

lower_bound_lem_example : lower_bound ltb 3 4 two ≡ some 1
lower_bound_lem_example = lower_bound_lem ltb 3 4 two nodes ltb-IsOrder two-Represents (omega arith)

upper_bound_lem_example : upper_bound ltb 3 3 two ≡ some 1
upper_bound_lem_example = upper_bound_lem ltb 3 3 two nodes ltb-IsOrder two-Represents (omega arith)

emplace_new_example :
    (t : SkipList ℕ ℕ) × (emplace ltb 2 3 7 3 4 40 two ≡ some ((7, true), t))
    × IsEmplaced ltb 0 3 7 3 4 40 two nodes t
emplace_new_example =
    emplace_new ltb 0 3 7 3 4 40 two nodes ltb-IsOrder two-Represents (omega arith) refl
      (omega arith) (omega arith) (omega arith) refl

emplace_again_example :
    (emplace ltb 2 3 7 3 5 99 two ≡ some ((1, false), create_node ltb 7 3 5 99 two))
    × Represents ltb (create_node ltb 7 3 5 99 two) nodes
emplace_again_example =
    emplace_again ltb 1 3 7 3 5 99 two nodes 1 ltb-IsOrder two-Represents refl (omega arith) refl

unsafe_erase_lem_example :
    (t : SkipList ℕ ℕ) × (unsafe_erase ltb 3 3 two ≡ some (1, t))
    × IsErased ltb ltb-IsOrder 3 3 two nodes two-Represents (omega arith) t
unsafe_erase_lem_example =
    unsafe_erase_lem ltb ltb-IsOrder 3 3 two nodes two-Represents (omega arith)

random_level_lem_example :
    (1 ≤ random_level (λ j. 0))
    × (random_level (λ j. 0) ≤ 16)
    × ((j : ℕ) → 1 ≤ j → j < random_level (λ j. 0) → zero ≡ 0)
    × (random_level (λ j. 0) < 16 → zero ≢ 0)
random_level_lem_example = random_level_lem (λ j. 0)
