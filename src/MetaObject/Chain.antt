-- ===== src/MetaObject/Chain.antt =====
-- The lookups of a MetaObject against its chain of classes, itself first and the root last, and the
-- registry against the classes that were registered.
use code_knife.Prelude.{
  ℕ, ◌≡◌, ◌==◌, if◌then◌else◌, refl, sym, ap, ◌∙◌, arith, Bool, true, false, Bool-cases, inl, inr,
  some, List, [], ◌∷◌, ◌++◌, same, same_refl, same→eq, or_else, find_if, find_if-append, any_of,
  append-nil,
}
use code_knife.MetaObject.{
  Name, MetaProperty, MetaMethod, MetaSignal, MetaClass, MetaObject, root, derived, this,
  find_property, find_method, find_signal, parents_include, inherits, MetaRegistry, find_meta,
  assign, register_meta,
}

module _ {W V : Type 0} where
  -- The classes of the chain.
  abbrev pub chain : MetaObject W V → List (MetaClass W V)
  chain (root c) = c ∷ []
  chain (derived c parent) = c ∷ chain parent

  abbrev pub all_methods : List (MetaClass W V) → List (MetaMethod W V)
  all_methods [] = []
  all_methods (c ∷ cs) = c.methods ++ all_methods cs

  abbrev pub all_signals : List (MetaClass W V) → List (MetaSignal W V)
  all_signals [] = []
  all_signals (c ∷ cs) = c.signals ++ all_signals cs

  abbrev pub all_properties : List (MetaClass W V) → List (MetaProperty W V)
  all_properties [] = []
  all_properties (c ∷ cs) = c.properties ++ all_properties cs

  -- `findMethod` gives the first method of that name among all methods of the chain, a class's
  -- before its parent's, so that a class overrides its parent.
  pub find_method_lem :
      (m : MetaObject W V) (name : Name)
      → find_method m name ≡ find_if (λ f. same name f.name) (all_methods (chain m))
  unfolding find_method
  find_method_lem (root c) name = ap (find_if (λ f. same name f.name)) (sym (append-nil c.methods))
  find_method_lem (derived c parent) name =
      ap (or_else (find_if (λ f. same name f.name) c.methods)) (find_method_lem parent name)
      ∙ sym (find_if-append (λ f. same name f.name) c.methods (all_methods (chain parent)))

  pub find_signal_lem :
      (m : MetaObject W V) (name : Name)
      → find_signal m name ≡ find_if (λ f. same name f.name) (all_signals (chain m))
  unfolding find_signal
  find_signal_lem (root c) name = ap (find_if (λ f. same name f.name)) (sym (append-nil c.signals))
  find_signal_lem (derived c parent) name =
      ap (or_else (find_if (λ f. same name f.name) c.signals)) (find_signal_lem parent name)
      ∙ sym (find_if-append (λ f. same name f.name) c.signals (all_signals (chain parent)))

  pub find_property_lem :
      (m : MetaObject W V) (name : Name)
      → find_property m name ≡ find_if (λ f. same name f.name) (all_properties (chain m))
  unfolding find_property
  find_property_lem (root c) name =
      ap (find_if (λ f. same name f.name)) (sym (append-nil c.properties))
  find_property_lem (derived c parent) name =
      ap (or_else (find_if (λ f. same name f.name) c.properties)) (find_property_lem parent name)
      ∙ sym (find_if-append (λ f. same name f.name) c.properties (all_properties (chain parent)))

  abbrev pub is_at : ℕ → MetaClass W V → Bool
  is_at target c = c.address == target

  parents_include_lem :
      (m : MetaObject W V) (target : ℕ) → parents_include m target ≡ any_of (is_at target) (chain m)
  unfolding parents_include
  parents_include_lem (root c) target = ground arith
  parents_include_lem (derived c parent) target =
      simp (parents_include_lem parent target) (ground arith)

  -- `inherits` holds of exactly the addresses, null excepted, of the chain.
  pub inherits_lem :
      (m : MetaObject W V) (target : ℕ)
      → inherits m target ≡ (if target == 0 then false else any_of (is_at target) (chain m))
  unfolding inherits parents_include
  inherits_lem (root c) target = ground arith
  inherits_lem (derived c parent) target = simp (parents_include_lem parent target) (ground arith)

  find_meta-assign :
      (r : MetaRegistry W V) (key name : Name) (m : MetaObject W V)
      → find_meta (assign r key m) name ≡ (if same key name then some m else find_meta r name)
  unfolding find_meta assign
  find_meta-assign [] key name m = refl
  find_meta-assign ((old_key, old) ∷ entries) key name m = elim (Bool-cases (same old_key key)) [
    | inl yes' ↦
        let moved = ap (λ k. same k name) (same→eq old_key key yes') in ground (arith, yes', moved)
    | inr no' ↦
        let apart : same old_key name ≡ true → same key name ≡ false =
          λ h. apart_from old_key key name no' h in
        ground (arith, no', apart, find_meta-assign entries key name m)
  ]
    where
      apart_from : (xs ys zs : Name) → same xs ys ≡ false → same xs zs ≡ true → same ys zs ≡ false
      apart_from xs ys zs h e = elim (Bool-cases (same ys zs)) [
        | inr no' ↦ no'
        | inl yes' ↦
            let both : same xs ys ≡ true =
              ap (same xs) (same→eq ys zs yes' ∙ sym (same→eq xs zs e)) ∙ same_refl xs in
            ground (arith, both, h)
      ]

  -- After `registerMeta` its class name finds the new MetaObject, and every other name finds what it
  -- found before.
  pub find_meta-register_meta :
      (r : MetaRegistry W V) (m : MetaObject W V) (name : Name)
      → find_meta (register_meta (some m) r) name
        ≡ (if same (this m).class_name name then some m else find_meta r name)
  unfolding register_meta
  find_meta-register_meta r m name = find_meta-assign r (this m).class_name name m
