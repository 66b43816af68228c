-- ===== src/SkipList/Heights.antt =====
-- random_level: the heights that new nodes get.
use code_knife.Prelude.{
  ℕ, suc, zero, ◌+◌, ◌≡◌, ◌≢◌, ◌<◌, ◌≤◌, ◌==◌, arith, Bool-cases, inl, inr, ap, ◌∙◌,
}
use code_knife.SkipList.{random_level_from, random_level}

-- A height that the draws from a level on give, `left` levels above it.
abbrev IsHeight : (ℕ → ℕ) → ℕ → ℕ → ℕ → Type 0
IsHeight draws left level height =
    (level ≤ height)
    × (height ≤ level + left)
    × ((j : ℕ) → level ≤ j → j < height → draws j ≡ 0)
    × (height < level + left → draws height ≢ 0)

random_level_from_lem :
    (draws : ℕ → ℕ) (left level : ℕ)
    → IsHeight draws left level (random_level_from draws left level)
unfolding random_level_from
random_level_from_lem draws zero level =
    (omega arith, omega arith, λ j a b. omega arith, λ h. omega arith)
random_level_from_lem draws (suc left) level =
    let rest = random_level_from_lem draws left (level + 1) in
    elim (Bool-cases (draws level == 0)) [
      | inl zero_draw ↦ simp zero_draw (
        omega (arith, rest.0),
        omega (arith, rest.1),
        λ j a b. elim (Bool-cases (j == level)) [
          | inl here ↦ let same : j ≡ level = ground arith in ap draws same ∙ ground arith
          | inr there ↦ rest.2 j (ground arith) b
        ],
        λ h. rest.3 (omega arith),
      )
      | inr other ↦ simp other (omega arith, omega arith, λ j a b. omega arith, λ h. ground arith)
    ]

-- A height is at least 1 and at most 16; the draws below it were all 0, and where it is less than
-- 16, the draw at it was not.
pub random_level_lem :
    (draws : ℕ → ℕ)
    → (1 ≤ random_level draws)
      × (random_level draws ≤ 16)
      × ((j : ℕ) → 1 ≤ j → j < random_level draws → draws j ≡ 0)
      × (random_level draws < 16 → draws (random_level draws) ≢ 0)
unfolding random_level
random_level_lem draws = random_level_from_lem draws 15 1
