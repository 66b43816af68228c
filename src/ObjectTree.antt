-- ===== src/ObjectTree.antt =====
-- The tree of objects in src/cobject/cobject.cpp: setParent, addChild and removeChild on a store of
-- objects. A pointer to an object is its address, 0 for null.
pub mod Linked
mod Tests
use code_knife.Prelude.{
  ℕ, ◌==◌, if◌then◌else◌, Bool, true, false, not, ◌||◌, List, [], ◌∷◌, ◌++◌, filter, any_of,
}

-- parent_ and children_
pub record Node : Type 0 where
  pub parent : ℕ
  pub children : List ℕ

abbrev pub Store : Type 0
Store = ℕ → Node

abbrev pub update : Store → ℕ → Node → Store
update s object node o = if o == object then node else s o

abbrev pub contains : List ℕ → ℕ → Bool
contains list object = any_of (λ o. o == object) list

pub add_child : ℕ → ℕ → Store → Store
add_child object child s =
    if child == 0 || contains (s object).children child
    then s
    else update s object (record (s object) { children = (s object).children ++ (child ∷ []) })

pub remove_child : ℕ → ℕ → Store → Store
remove_child object child s =
    if child == 0
    then s
    else update s object
        (record (s object) { children = filter (λ o. not (o == child)) (s object).children })

pub set_parent : ℕ → ℕ → Store → Store
unfolding add_child remove_child
set_parent object parent s =
    if (s object).parent == parent
    then s
    else let left = if (s object).parent == 0 then s else remove_child (s object).parent object s in
      let moved = update left object (record (left object) { parent = parent }) in
      if parent == 0 then moved else add_child parent object moved
