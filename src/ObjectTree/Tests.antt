-- ===== src/ObjectTree/Tests.antt =====
-- An object that gets a parent, and the theorem applied to it.
use code_knife.Prelude.{◌≡◌, refl, arith, [], ◌∷◌}
use code_knife.ObjectTree.{Store, add_child, remove_child, set_parent}
use code_knife.ObjectTree.Linked.{IsLinked, set_parent-IsLinked}

abbrev alone : Store
alone o = record { parent = 0; children = [] }

alone-IsLinked : IsLinked alone
unfolding IsLinked
alone-IsLinked p o lp lo = ground arith

children_test : (set_parent 16 32 alone 32).children ≡ 16 ∷ []
unfolding set_parent add_child
children_test = refl

moved_test : (set_parent 16 48 (set_parent 16 32 alone) 32).children ≡ []
unfolding set_parent add_child remove_child
moved_test = refl

set_parent-IsLinked_example : IsLinked (set_parent 16 48 (set_parent 16 32 alone))
set_parent-IsLinked_example =
    set_parent-IsLinked 16 48 (set_parent 16 32 alone) (omega arith)
      (set_parent-IsLinked 16 32 alone (omega arith) alone-IsLinked)
