-- ===== src/ObjectTree/Linked.antt =====
-- Parents and children agree.
use code_knife.Prelude.{
  ℕ, ◌≡◌, ◌==◌, ◌<◌, if◌then◌else◌, refl, sym, ap, ◌∙◌, arith, Bool, true, false, not, ◌&&◌, ◌||◌,
  Bool-cases, inl, inr, ◌⊎◌, List, [], ◌∷◌, filter, any_of-append,
}
use code_knife.ObjectTree.{Store, update, contains, add_child, remove_child, set_parent}

-- An object lists another as its child exactly if it is the parent of that one.
unfoldable pub IsLinked : Store → Type 0
IsLinked s = (p o : ℕ) → 0 < p → 0 < o → contains (s p).children o ≡ ((s o).parent == p)

contains-filter :
    (list : List ℕ) (child o : ℕ)
    → contains (filter (λ c. not (c == child)) list) o ≡ (contains list o && not (o == child))
contains-filter [] child o = refl
contains-filter (x ∷ xs) child o = elim (Bool-cases (x == child)) [
  | inl same ↦ simp same (contains-filter xs child o ∙ ground arith)
  | inr other ↦ simp other (ground (arith, contains-filter xs child o))
]

parent-remove_child :
    (object child o : ℕ) (s : Store) → (remove_child object child s o).parent ≡ (s o).parent
unfolding remove_child
parent-remove_child object child o s =
    let here : o == object ≡ true → (s object).parent ≡ (s o).parent =
      λ h. ap (λ t. (s t).parent) {x = object} {y = o} (ground arith) in
    ground (arith, here)

children-remove_child :
    (object child p o : ℕ) (s : Store)
    → 0 < child
    → contains (remove_child object child s p).children o ≡ (
        if p == object
        then contains (s p).children o && not (o == child)
        else contains (s p).children o)
unfolding remove_child
children-remove_child object child p o s live =
    let here : p == object ≡ true → (s object).children ≡ (s p).children =
      λ h. ap (λ t. (s t).children) {x = object} {y = p} (ground arith) in
    elim (Bool-cases (p == object)) [
      | inl same ↦
          simp (some_child, same)
            (contains-filter (s object).children child o
              ∙ ap (λ (l : List ℕ). contains l o && not (o == child)) (here same))
      | inr other ↦ simp (some_child, other) refl
    ]
  where
    some_child : child == 0 ≡ false
    some_child = ground arith

parent-add_child :
    (object child o : ℕ) (s : Store) → (add_child object child s o).parent ≡ (s o).parent
unfolding add_child
parent-add_child object child o s =
    let here : o == object ≡ true → (s object).parent ≡ (s o).parent =
      λ h. ap (λ t. (s t).parent) {x = object} {y = o} (ground arith) in
    ground (arith, here)

children-add_child :
    (object child p o : ℕ) (s : Store)
    → 0 < child
    → contains (add_child object child s p).children o ≡ (
        if p == object
        then contains (s p).children o || (o == child)
        else contains (s p).children o)
unfolding add_child
children-add_child object child p o s live =
    let here : p == object ≡ true → (s object).children ≡ (s p).children =
      λ h. ap (λ t. (s t).children) {x = object} {y = p} (ground arith) in
    elim (Bool-cases (contains (s object).children child)) [
      | inl listed ↦ elim (Bool-cases (p == object)) [
        | inr other ↦ simp (some_child, listed, other) refl
        | inl same ↦
            simp (some_child, listed, same) (already (here same) listed (Bool-cases (o == child)))
      ]
      | inr absent ↦ elim (Bool-cases (p == object)) [
        | inl same ↦
            simp (some_child, absent, same)
              (any_of-append (λ c. c == o) (s object).children (child ∷ [])
                ∙ ap (λ (l : List ℕ). contains l o || ((child == o) || false)) (here same)
                ∙ flipped (contains (s p).children o))
        | inr other ↦ simp (some_child, absent, other) refl
      ]
    ]
  where
    some_child : child == 0 ≡ false
    some_child = ground arith

    flipped : (b : Bool) → (b || ((child == o) || false)) ≡ (b || (o == child))
    flipped b = ground arith

    already :
        (s object).children ≡ (s p).children
        → contains (s object).children child ≡ true
        → ((o == child) ≡ true) ⊎ ((o == child) ≡ false)
        → contains (s p).children o ≡ (contains (s p).children o || (o == child))
    already same listed (inl is_child) =
        let found : contains (s p).children o ≡ true =
          ap (contains (s p).children) {x = o} {y = child} (ground arith)
          ∙ ap (λ (l : List ℕ). contains l child) (sym same)
          ∙ listed in
        ground (arith, found)
    already same listed (inr other) = ground (arith, other)

-- The store after the object left its parent, and after its parent was set.
abbrev without : ℕ → Store → Store
without object s = if (s object).parent == 0 then s else remove_child (s object).parent object s

abbrev moved : ℕ → ℕ → Store → Store
moved object parent s =
    update (without object s) object (record (without object s object) { parent = parent })

parent-without : (object o : ℕ) (s : Store) → (without object s o).parent ≡ (s o).parent
parent-without object o s = elim (Bool-cases ((s object).parent == 0)) [
  | inl none_set ↦ simp none_set refl
  | inr some_set ↦ simp some_set (parent-remove_child (s object).parent object o s)
]

parent-moved :
    (object parent o : ℕ) (s : Store)
    → (moved object parent s o).parent ≡ (if o == object then parent else (s o).parent)
parent-moved object parent o s = elim (Bool-cases (o == object)) [
  | inl same ↦ simp same refl
  | inr other ↦ simp other (parent-without object o s)
]

children-moved :
    (object parent p : ℕ) (s : Store)
    → (moved object parent s p).children ≡ (without object s p).children
children-moved object parent p s = elim (Bool-cases (p == object)) [
  | inl same ↦
      simp same (ap (λ t. (without object s t).children) {x = object} {y = p} (ground arith))
  | inr other ↦ simp other refl
]

children-without :
    (object p o : ℕ) (s : Store)
    → 0 < object
    → 0 < p
    → contains (without object s p).children o ≡ (
        if p == (s object).parent
        then contains (s p).children o && not (o == object)
        else contains (s p).children o)
children-without object p o s live lp = elim (Bool-cases ((s object).parent == 0)) [
  | inl none_set ↦
      let apart : p == (s object).parent ≡ false = ground arith in simp (none_set, apart) refl
  | inr some_set ↦ simp some_set (children-remove_child (s object).parent object p o s live)
]

parent-set_parent :
    (object parent o : ℕ) (s : Store)
    → (set_parent object parent s o).parent ≡ (if o == object then parent else (s o).parent)
unfolding set_parent
parent-set_parent object parent o s = elim (Bool-cases ((s object).parent == parent)) [
  | inl kept ↦
      let there : o == object ≡ true → (s o).parent ≡ parent =
        λ h. ap (λ t. (s t).parent) {x = o} {y = object} (ground arith) ∙ ground arith in
      simp kept (ground (arith, there))
  | inr changed ↦ elim (Bool-cases (parent == 0)) [
    | inl null ↦ simp (changed, null) (parent-moved object parent o s)
    | inr some_parent ↦
        simp (changed, some_parent)
          (parent-add_child parent object o (moved object parent s)
            ∙ parent-moved object parent o s)
  ]
]

children-set_parent :
    (object parent p o : ℕ) (s : Store)
    → 0 < object
    → 0 < p
    → contains (set_parent object parent s p).children o ≡ (
        if (s object).parent == parent
        then contains (s p).children o
        else if p == parent
        then contains (s p).children o || (o == object)
        else if p == (s object).parent
        then contains (s p).children o && not (o == object)
        else contains (s p).children o)
unfolding set_parent
children-set_parent object parent p o s live lp =
    let kept =
      ap (λ (l : List ℕ). contains l o) (children-moved object parent p s)
      ∙ children-without object p o s live lp in
    elim (Bool-cases ((s object).parent == parent)) [
      | inl same ↦ simp same refl
      | inr changed ↦ elim (Bool-cases (parent == 0)) [
        | inl null ↦
            let apart : p == parent ≡ false = ground arith in simp (changed, null, apart) kept
        | inr some_parent ↦
            simp (changed, some_parent)
              (children-add_child parent object p o (moved object parent s) live
                ∙ ground (arith, kept))
      ]
    ]

-- Where every object lists as its children exactly the objects whose parent it is, that is so again
-- after `setParent` of an object that is not null, with any parent, null included.
pub set_parent-IsLinked :
    (object parent : ℕ) (s : Store)
    → 0 < object
    → IsLinked s
    → IsLinked (set_parent object parent s)
unfolding IsLinked
set_parent-IsLinked object parent s live linked p o lp lo =
    children-set_parent object parent p o s live lp
    ∙ ground (arith, linked p o lp lo, parent-set_parent object parent o s)
