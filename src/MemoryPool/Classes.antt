-- ===== src/MemoryPool/Classes.antt =====
-- FindSizeClass: the smallest class that a size fits in.
use code_knife.Prelude.{
  ℕ, zero, suc, ◌+◌, ◌≡◌, ◌<◌, ◌≤◌, ◌==◌, ltb, leb, if◌then◌else◌, ap, subst, ◌∙◌, sym, arith, List,
  [], ◌∷◌, length, inl, inr, Bool-cases,
}
use code_knife.MemoryPool.{size_classes, find_class, find_size_class, class_size}

-- An index into a list of classes: the first that the size fits in, or their number.
abbrev IsFirst : ℕ → List ℕ → ℕ → Type 0
IsFirst size cs j =
    (j ≤ length cs)
    × (j < length cs → size ≤ class_size j cs)
    × ((i : ℕ) → i < j → class_size i cs < size)

find_class_lem :
    (size n : ℕ) (cs : List ℕ) → (j : ℕ) × (find_class size n cs ≡ n + j) × IsFirst size cs j
unfolding find_class
find_class_lem size n [] = (0, omega arith, (omega arith, λ h. omega arith, λ i h. omega arith))
find_class_lem size n (c ∷ cs) = elim (Bool-cases (leb size c)) [
  | inl fits ↦
      (0, simp fits (omega arith), (omega arith, λ h. ground (arith, fits), λ i h. omega arith))
  | inr small ↦
      let rest = find_class_lem size (n + 1) cs in
      (
        suc rest.0,
        simp small (rest.1 ∙ omega arith),
        (
          omega (arith, rest.2.0),
          λ h. rest.2.1 (omega arith),
          λ i h. below i rest.0 (ground (arith, small)) rest.2.2 h,
        ),
      )
]
  where
    below :
        (i j : ℕ)
        → c < size
        → ((k : ℕ) → k < j → class_size k cs < size)
        → i < suc j
        → class_size i (c ∷ cs) < size
    below zero j less rest h = less
    below (suc i) j less rest h = rest i (omega arith)

-- For a size from 1 to 2048 FindSizeClass gives one of the nine classes, whose blocks the size fits
-- in, and no smaller class has such blocks; for a larger size it gives 9.
pub find_size_class_lem :
    (size : ℕ)
    → 0 < size
    → (size ≤ 2048
        → (find_size_class size < 9) × (size ≤ class_size (find_size_class size) size_classes))
      × (2048 < size → find_size_class size ≡ 9)
      × ((i : ℕ) → i < find_size_class size → class_size i size_classes < size)
unfolding find_size_class
find_size_class_lem size pos =
    let found = find_class_lem size 0 size_classes in
    let same : find_size_class size ≡ found.0 =
      ap (λ (n : ℕ). find_class n 0 size_classes) {x = if size == 0 then 1 else size} {y = size}
        (ground (arith, pos))
      ∙ found.1
      ∙ omega arith in
    subst
      (λ (k : ℕ).
        (size ≤ 2048 → (k < 9) × (size ≤ class_size k size_classes))
        × (2048 < size → k ≡ 9)
        × ((i : ℕ) → i < k → class_size i size_classes < size))
      (sym same) (λ h. within found.0 found.2 h, λ h. beyond found.0 found.2 h, found.2.2)
  where
    within :
        (j : ℕ)
        → IsFirst size size_classes j
        → size ≤ 2048
        → (j < 9) × (size ≤ class_size j size_classes)
    within j f h = elim (Bool-cases (ltb j 9)) [
      | inl small ↦ (ground (arith, small), f.1 (ground (arith, small)))
      | inr large ↦
          let last : 2048 < size = f.2 8 (ground (arith, large)) in ground (arith, last, h)
    ]

    beyond : (j : ℕ) → IsFirst size size_classes j → 2048 < size → j ≡ 9
    beyond j f h = elim (Bool-cases (ltb j 9)) [
      | inr large ↦ ground (arith, large, f.0)
      | inl small ↦
          let fits = f.1 (ground (arith, small)) in
          let bound : class_size j size_classes ≤ 2048 = at_most j (ground (arith, small)) in
          ground (arith, fits, bound, h)
    ]
      where
        at_most : (j : ℕ) → j < 9 → class_size j size_classes ≤ 2048
        at_most zero h = omega arith
        at_most (suc zero) h = omega arith
        at_most (suc (suc zero)) h = omega arith
        at_most (suc (suc (suc zero))) h = omega arith
        at_most (suc (suc (suc (suc zero)))) h = omega arith
        at_most (suc (suc (suc (suc (suc zero))))) h = omega arith
        at_most (suc (suc (suc (suc (suc (suc zero)))))) h = omega arith
        at_most (suc (suc (suc (suc (suc (suc (suc zero))))))) h = omega arith
        at_most (suc (suc (suc (suc (suc (suc (suc (suc zero)))))))) h = omega arith
        at_most (suc (suc (suc (suc (suc (suc (suc (suc (suc j))))))))) h = omega arith
