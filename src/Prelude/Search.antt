-- ===== src/Prelude/Search.antt =====
-- Searching and filtering lists with Boolean tests, and names as lists of characters.
use Prim.Native.Nat.{ℕ}
use mathlib.Core.Path.{◌≡◌, refl, ap}
use mathlib.Core.Logic.{inl, inr}
use mathlib.Core.Bool.{Bool, true, false, ◌&&◌, ◌||◌}
use mathlib.Core.Option.{Option, none, some}
use mathlib.Core.List.{List, [], ◌∷◌, ◌++◌}
use native.Mathlib.Omega.{arith}
use code_knife.Prelude.Tests.{◌==◌, if◌then◌else◌, Bool-cases}

unfoldable pub same : List ℕ → List ℕ → Bool
same [] [] = true
same [] (y ∷ ys) = false
same (x ∷ xs) [] = false
same (x ∷ xs) (y ∷ ys) = x == y && same xs ys

pub same_refl : (xs : List ℕ) → same xs xs ≡ true
unfolding same
same_refl [] = refl
same_refl (x ∷ xs) = ground (arith, same_refl xs)

pub same→eq : (xs ys : List ℕ) → same xs ys ≡ true → xs ≡ ys
unfolding same
same→eq [] [] h = refl
same→eq [] (y ∷ ys) h = ground arith
same→eq (x ∷ xs) [] h = ground arith
same→eq (x ∷ xs) (y ∷ ys) h =
    let first : x ≡ y = ground arith in
    let rest : same xs ys ≡ true = ground arith in λ i. first i ∷ same→eq xs ys rest i

module _ {ℓ} {A : Type ℓ} where
  abbrev pub filter : (A → Bool) → List A → List A
  filter test [] = []
  filter test (x ∷ xs) = let rest = filter test xs in if test x then x ∷ rest else rest

  abbrev pub find_if : (A → Bool) → List A → Option A
  find_if test [] = none
  find_if test (x ∷ xs) = let rest = find_if test xs in if test x then some x else rest

  abbrev pub or_else : Option A → Option A → Option A
  or_else none o = o
  or_else (some x) o = some x

  abbrev pub any_of : (A → Bool) → List A → Bool
  any_of test [] = false
  any_of test (x ∷ xs) = test x || any_of test xs

  pub filter-append :
      (test : A → Bool) (xs ys : List A) → filter test (xs ++ ys) ≡ filter test xs ++ filter test ys
  filter-append test [] ys = refl
  filter-append test (x ∷ xs) ys = elim (Bool-cases (test x)) [
    | inl yes' ↦ simp yes' (ap (◌∷◌ x) (filter-append test xs ys))
    | inr no' ↦ simp no' (filter-append test xs ys)
  ]

  -- A first match in two lists is one in the first list or else in the second.
  pub find_if-append :
      (test : A → Bool) (xs ys : List A)
      → find_if test (xs ++ ys) ≡ or_else (find_if test xs) (find_if test ys)
  find_if-append test [] ys = refl
  find_if-append test (x ∷ xs) ys = elim (Bool-cases (test x)) [
    | inl yes' ↦ simp yes' refl
    | inr no' ↦ simp no' (find_if-append test xs ys)
  ]

  pub any_of-append :
      (test : A → Bool) (xs ys : List A)
      → any_of test (xs ++ ys) ≡ (any_of test xs || any_of test ys)
  any_of-append test [] ys = refl
  any_of-append test (x ∷ xs) ys = elim (Bool-cases (test x)) [
    | inl yes' ↦ simp yes' refl
    | inr no' ↦ simp no' (any_of-append test xs ys)
  ]

  -- Nothing that was filtered out is found.
  pub any_of-filter_none :
      (test keep : A → Bool) (xs : List A)
      → ((x : A) → keep x ≡ true → test x ≡ false)
      → any_of test (filter keep xs) ≡ false
  any_of-filter_none test keep [] h = refl
  any_of-filter_none test keep (x ∷ xs) h = elim (Bool-cases (keep x)) [
    | inl yes' ↦ simp (yes', h x yes') (any_of-filter_none test keep xs h)
    | inr no' ↦ simp no' (any_of-filter_none test keep xs h)
  ]

  pub any_of-filter :
      (test keep : A → Bool) (xs : List A)
      → any_of test xs ≡ false
      → any_of test (filter keep xs) ≡ false
  any_of-filter test keep [] h = refl
  any_of-filter test keep (x ∷ xs) h =
      let rest : any_of test xs ≡ false = ground arith in
      let first : test x ≡ false = ground arith in
      elim (Bool-cases (keep x)) [
        | inl yes' ↦ simp (yes', first) (any_of-filter test keep xs rest)
        | inr no' ↦ simp no' (any_of-filter test keep xs rest)
      ]
