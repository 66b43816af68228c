-- ===== src/MetaObject/Tests.antt =====
-- A button class above the root class, its lookups, and the theorems applied to it.
use code_knife.Prelude.{
  ℕ, ◌≡◌, ◌==◌, if◌then◌else◌, refl, true, false, none, some, [], ◌∷◌, same, find_if, any_of,
}
use code_knife.MetaObject.{
  MetaMethod, MetaSignal, MetaObject, root, derived, find_method, parents_include, inherits,
}
use code_knife.MetaObject.Chain.{chain, all_methods, is_at, find_method_lem, inherits_lem}

abbrev press : MetaMethod ℕ ℕ
press = record {
  name = 112 ∷ [];
  signature = 112 ∷ 40 ∷ 41 ∷ [];
  invoker = some (λ object args w. (some w, w));
}

abbrev changed : MetaSignal ℕ ℕ
changed = record { name = 99 ∷ []; signature = 99 ∷ 40 ∷ 41 ∷ []; invoker = none }

abbrev object : MetaObject ℕ ℕ
object = root (record {
  address = 16;
  class_name = 111 ∷ [];
  factory = none;
  properties = [];
  methods = press ∷ [];
  signals = [];
})

abbrev button : MetaObject ℕ ℕ
button =
    derived
      (record {
        address = 32;
        class_name = 98 ∷ [];
        factory = some (λ w. (64, w));
        properties = [];
        methods = [];
        signals = changed ∷ [];
      })
      object

button-inherits_object : inherits button 16 ≡ true
unfolding inherits parents_include
button-inherits_object = refl

find_method_lem_example :
    find_method button (112 ∷ [])
    ≡ find_if (λ f. same (112 ∷ []) f.name) (all_methods (chain button))
find_method_lem_example = find_method_lem button (112 ∷ [])

inherits_lem_example :
    inherits button 16 ≡ (if 16 == 0 then false else any_of (is_at 16) (chain button))
inherits_lem_example = inherits_lem button 16
