-- ===== src/MetaObject.antt =====
-- include/cobject/meta_object.hpp and src/cobject/meta_object.cpp, src/cobject/meta_registry.cpp.
-- A pointer to an object is its address, 0 for null. `std::any` is an optional value of a type V.
-- Functions stored in the tables, which are the client's, act on a state of a type W.
pub mod Chain
mod Tests
use code_knife.Prelude.{
  ℕ, ◌≡◌, ◌==◌, ltb, leb, if◌then◌else◌, Bool, true, false, not, ◌&&◌, ◌||◌, Option, none, some,
  List, [], ◌∷◌, ◌++◌, map, length, get_elem?, same, or_else, find_if,
}

abbrev pub Name : Type 0
Name = List ℕ

pub record MetaProperty (W V : Type 0) : Type 0 where
  pub name : Name
  pub type_name : Name
  pub getter : ℕ → W → Option V
  pub setter : ℕ → Option V → W → W
  pub notify_signal : Option (ℕ → W → W)

pub record MetaMethod (W V : Type 0) : Type 0 where
  pub name : Name
  pub signature : Name
  pub invoker : Option (ℕ → List (Option V) → W → Option V × W)

pub record MetaSignal (W V : Type 0) : Type 0 where
  pub name : Name
  pub signature : Name
  pub invoker : Option (ℕ → List (Option V) → W → W)

-- What a MetaObject holds besides its parent; `address` is that of the MetaObject.
pub record MetaClass (W V : Type 0) : Type 0 where
  pub address : ℕ
  pub class_name : Name
  pub factory : Option (W → ℕ × W)
  pub properties : List (MetaProperty W V)
  pub methods : List (MetaMethod W V)
  pub signals : List (MetaSignal W V)

-- A MetaObject whose parent is null, or not.
pub data MetaObject (W V : Type 0) : Type 0 where
  root : MetaClass W V → MetaObject W V
  derived : MetaClass W V → MetaObject W V → MetaObject W V

module _ {W V : Type 0} where
  -- MetaProperty::notify and MetaProperty::set
  pub notify : MetaProperty W V → ℕ → W → W
  notify p object w = elim p.notify_signal [
    | none ↦ w
    | some f ↦ if object == 0 then w else f object w
  ]

  pub set_value : MetaProperty W V → ℕ → Option V → W → W
  unfolding notify
  set_value p object value w = notify p object (p.setter object value w)

  -- MetaMethod::invoke
  unfoldable pub invoke : MetaMethod W V → ℕ → List (Option V) → W → Option V × W
  invoke m object args w = elim m.invoker [
    | none ↦ (none, w)
    | some f ↦ if object == 0 then (none, w) else f object args w
  ]

  abbrev pub this : MetaObject W V → MetaClass W V
  this (root c) = c
  this (derived c parent) = c

  pub find_property : MetaObject W V → Name → Option (MetaProperty W V)
  find_property (root c) name = find_if (λ p. same name p.name) c.properties
  find_property (derived c parent) name =
      or_else (find_if (λ p. same name p.name) c.properties) (find_property parent name)

  unfoldable pub find_method : MetaObject W V → Name → Option (MetaMethod W V)
  find_method (root c) name = find_if (λ m. same name m.name) c.methods
  find_method (derived c parent) name =
      or_else (find_if (λ m. same name m.name) c.methods) (find_method parent name)

  unfoldable pub find_signal : MetaObject W V → Name → Option (MetaSignal W V)
  find_signal (root c) name = find_if (λ s. same name s.name) c.signals
  find_signal (derived c parent) name =
      or_else (find_if (λ s. same name s.name) c.signals) (find_signal parent name)

  -- The loop of `inherits`, from `current` on.
  pub parents_include : MetaObject W V → ℕ → Bool
  parents_include (root c) target = c.address == target
  parents_include (derived c parent) target =
      let above = parents_include parent target in if c.address == target then true else above

  pub inherits : MetaObject W V → ℕ → Bool
  unfolding parents_include
  inherits (root c) target =
      if target == 0 then false else if c.address == target then true else false
  inherits (derived c parent) target =
      if target == 0
      then false
      else if c.address == target
      then true
      else parents_include parent target

  pub create_instance : MetaObject W V → W → ℕ × W
  create_instance m w = elim (this m).factory [ none ↦ (0, w) | some f ↦ f w ]

-- MetaRegistry: the map from class names, as an association list with one entry for a name.
abbrev pub MetaRegistry : Type 0 → Type 0 → Type 0
MetaRegistry W V = List (Name × MetaObject W V)

module _ {W V : Type 0} where
  pub find_meta : MetaRegistry W V → Name → Option (MetaObject W V)
  find_meta [] name = none
  find_meta ((key, m) ∷ entries) name =
      let rest = find_meta entries name in if same key name then some m else rest

  -- metaMap_[name] = m
  pub assign : MetaRegistry W V → Name → MetaObject W V → MetaRegistry W V
  assign [] name m = (name, m) ∷ []
  assign ((key, old) ∷ entries) name m =
      let rest = assign entries name m in
      if same key name then (key, m) ∷ entries else (key, old) ∷ rest

  pub register_meta : Option (MetaObject W V) → MetaRegistry W V → MetaRegistry W V
  unfolding assign
  register_meta none r = r
  register_meta (some m) r = assign r (this m).class_name m

  pub create_registered : MetaRegistry W V → Name → W → ℕ × W
  unfolding find_meta create_instance
  create_registered r name w = elim (find_meta r name) [
    | none ↦ (0, w)
    | some m ↦ create_instance m w
  ]

  pub registered_classes : MetaRegistry W V → List Name
  registered_classes r = map (λ e. e.0) r

  pub is_class_registered : MetaRegistry W V → Name → Bool
  unfolding find_meta
  is_class_registered r name = elim (find_meta r name) [ none ↦ false | some m ↦ true ]
