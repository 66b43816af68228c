-- ===== src/SkipList/Ordered.antt =====
-- A skip list as an ascending list of nodes, and the bounds and lookups that searches give.
use code_knife.Prelude.{
  ℕ, ◌≡◌, ◌<◌, ◌≤◌, ltb, leb, if◌then◌else◌, refl, sym, ap, subst, ◌∙◌, arith, Bool, true, false,
  not, ◌&&◌, Bool-cases, inl, inr, ◌⊎◌, Option, none, some, List, [], ◌∷◌, ◌++◌, length, filter,
  find_if,
}
use code_knife.SkipList.{SkipList, next_of, descend, lower_bound, upper_bound}
use code_knife.SkipList.Levels.{
  last_or, first_or_null, all_of, all_of-append, all_of_mono, at_level,
}
use code_knife.SkipList.Search.{
  IsOrder, heights, keys, IsChained, empty_above, Splits, last_below, first_above, next-last_below,
  descend_lem,
}

abbrev pub or_null : Option ℕ → ℕ
or_null none = 0
or_null (some a) = a

-- The nodes up to the first that fails a test, and the rest.
abbrev pub passing : {A : Type 0} → (A → Bool) → List A → List A
passing test [] = []
passing test (x ∷ xs) = let rest = passing test xs in if test x then x ∷ rest else []

abbrev pub failing : {A : Type 0} → (A → Bool) → List A → List A
failing test [] = []
failing test (x ∷ xs) = let rest = failing test xs in if test x then rest else x ∷ xs

pub passing-failing :
    {A : Type 0} (test : A → Bool) (xs : List A) → passing test xs ++ failing test xs ≡ xs
passing-failing test [] = refl
passing-failing test (x ∷ xs) = elim (Bool-cases (test x)) [
  | inl yes' ↦ simp yes' (ap (◌∷◌ x) (passing-failing test xs))
  | inr no' ↦ simp no' refl
]

pub all_of-passing :
    {A : Type 0} (test : A → Bool) (xs : List A) → all_of test (passing test xs) ≡ true
all_of-passing test [] = refl
all_of-passing test (x ∷ xs) = elim (Bool-cases (test x)) [
  | inl yes' ↦ simp yes' (ground (arith, yes', all_of-passing test xs))
  | inr no' ↦ simp no' refl
]

first-failing :
    (test : ℕ → Bool) (xs : List ℕ)
    → first_or_null (failing test xs) ≡ or_null (find_if (λ a. not (test a)) xs)
first-failing test [] = refl
first-failing test (x ∷ xs) = elim (Bool-cases (test x)) [
  | inl yes' ↦ simp yes' (first-failing test xs)
  | inr no' ↦ simp no' refl
]

length-passing-le :
    {A : Type 0} (test : A → Bool) (xs : List A) → length (passing test xs) ≤ length xs
length-passing-le test [] = omega arith
length-passing-le test (x ∷ xs) = ground (arith, length-passing-le test xs)

find_if-not-not :
    {A : Type 0} (test : A → Bool) (xs : List A)
    → find_if (λ a. not (not (test a))) xs ≡ find_if test xs
find_if-not-not test [] = refl
find_if-not-not test (x ∷ xs) = ground (arith, find_if-not-not test xs)

keep_all :
    {A : Type 0} (test : A → Bool) (xs : List A) → all_of test xs ≡ true → filter test xs ≡ xs
keep_all test [] h = refl
keep_all test (x ∷ xs) h =
    let first : test x ≡ true = ground arith in
    simp first (ap (◌∷◌ x) (keep_all test xs (ground arith)))

module _ {K : Type 0} (before : K → K → Bool) where
  -- The keys ascend.
  abbrev pub Ascending : (ℕ → K) → List ℕ → Type 0
  Ascending key [] = Unit {0}
  Ascending key (x ∷ xs) = (all_of (λ b. before (key x) (key b)) xs ≡ true) × Ascending key xs

  -- A test that holds below every key where it holds.
  abbrev pub IsLower : (K → Bool) → Type 0
  IsLower test = (a b : K) → before a b ≡ true → test b ≡ true → test a ≡ true

  pub all_of-failing :
      (key : ℕ → K) (test : K → Bool) (xs : List ℕ)
      → IsLower test
      → Ascending key xs
      → all_of (λ a. not (test (key a))) (failing (λ a. test (key a)) xs) ≡ true
  all_of-failing key test [] low up = refl
  all_of-failing key test (x ∷ xs) low up = elim (Bool-cases (test (key x))) [
    | inl yes' ↦ simp yes' (all_of-failing key test xs low up.1)
    | inr no' ↦
        let rest =
          all_of_mono (λ b. before (key x) (key b)) (λ b. not (test (key b))) xs
            (λ b h. fails b no' h (Bool-cases (test (key b)))) up.0 in
        simp no' (ground (arith, no', rest))
  ]
    where
      fails :
          (b : ℕ)
          → test (key x) ≡ false
          → before (key x) (key b) ≡ true
          → ((test (key b) ≡ true) ⊎ (test (key b) ≡ false))
          → not (test (key b)) ≡ true
      fails b f h (inl t) = let impossible = low (key x) (key b) h t in ground (arith, impossible)
      fails b f h (inr g) = simp g refl

module _ {K V : Type 0} (before : K → K → Bool) where
  -- The skip list holds the nodes of the list, in the order of their keys.
  pub record Represents (s : SkipList K V) (xs : List ℕ) : Type 0 where
    pub linked : IsChained s xs
    pub ascending : Ascending before (keys s) xs
    pub counted : s.size ≡ length xs

  module _ (test : K → Bool) (s : SkipList K V) (xs : List ℕ) (fuel : ℕ) where
    abbrev pub lower_part : List ℕ
    lower_part = passing (λ a. test (keys s a)) xs

    abbrev pub upper_part : List ℕ
    upper_part = failing (λ a. test (keys s a)) xs

    pub splits :
        IsLower before test
        → Represents s xs
        → length xs < fuel
        → Splits test s lower_part upper_part fuel
    splits low r h = record {
      whole = subst (IsChained s) (sym (passing-failing (λ a. test (keys s a)) xs)) r.linked;
      low = all_of-passing (λ a. test (keys s a)) xs;
      high = all_of-failing before (keys s) test xs low r.ascending;
      enough = omega (arith, h, length-passing-le (λ a. test (keys s a)) xs);
    }

    pub tall_parts :
        Represents s xs
        → (all_of (λ a. ltb 0 (heights s a) && leb (heights s a) s.max_height) lower_part ≡ true)
          × (all_of (λ a. ltb 0 (heights s a) && leb (heights s a) s.max_height) upper_part ≡ true)
    tall_parts r =
        let both =
          sym (
            all_of-append (λ a. ltb 0 (heights s a) && leb (heights s a) s.max_height) lower_part
              upper_part)
          ∙ ap (all_of (λ a. ltb 0 (heights s a) && leb (heights s a) s.max_height))
              (passing-failing (λ a. test (keys s a)) xs)
          ∙ r.linked.tall in
        (ground (arith, both), ground (arith, both))

    -- Every node is on the lowest level.
    pub bottom : Represents s xs → at_level (heights s) 0 upper_part ≡ upper_part
    bottom r =
        keep_all (λ a. ltb 0 (heights s a)) upper_part
          (all_of_mono (λ a. ltb 0 (heights s a) && leb (heights s a) s.max_height)
            (λ a. ltb 0 (heights s a)) upper_part (λ a h. ground arith) (tall_parts r).1)

    pub top_null : Represents s xs → last_below test s lower_part upper_part fuel s.max_height ≡ 0
    top_null r = ap (last_or 0) (
        empty_above (heights s) s.max_height s.max_height lower_part (tall_parts r).0 (omega arith))

    first :
        Represents s xs
        → first_above test s lower_part upper_part fuel 0
          ≡ or_null (find_if (λ a. not (test (keys s a))) xs)
    first r = ap first_or_null (bottom r) ∙ first-failing (λ a. test (keys s a)) xs

    -- A search by descent ends before the first node that fails the test.
    pub found_below :
        IsLower before test
        → Represents s xs
        → length xs < fuel
        → (prev : ℕ) × (descend test s fuel s.max_height 0 ≡ some prev)
          × (next_of s prev 0 ≡ or_null (find_if (λ a. not (test (keys s a))) xs))
    found_below low r h =
        let sp = splits low r h in
        (
          last_below test s lower_part upper_part fuel 0,
          ap (descend test s fuel s.max_height) (sym (top_null r))
              ∙ descend_lem test s lower_part upper_part fuel s.max_height sp r.linked.few_levels,
          next-last_below test s lower_part upper_part fuel 0 sp (omega arith) ∙ first r,
        )

  -- lower_bound gives the first node whose key is not before the given one, or null.
  pub lower_bound_lem :
      (fuel : ℕ) (key : K) (s : SkipList K V) (xs : List ℕ)
      → IsOrder before
      → Represents s xs
      → length xs < fuel
      → lower_bound before fuel key s
        ≡ some (or_null (find_if (λ a. not (before (keys s a) key)) xs))
  unfolding lower_bound
  lower_bound_lem fuel key s xs o r h =
      let f = found_below (λ k. before k key) s xs fuel (λ a b p q. o.transitive a b key p q) r h in
      ground (arith, f.1, f.2)

  -- upper_bound gives the first node whose key the given one is before, or null.
  pub upper_bound_lem :
      (fuel : ℕ) (key : K) (s : SkipList K V) (xs : List ℕ)
      → IsOrder before
      → Represents s xs
      → length xs < fuel
      → upper_bound before fuel key s ≡ some (or_null (find_if (λ a. before key (keys s a)) xs))
  unfolding upper_bound
  upper_bound_lem fuel key s xs o r h =
      let f =
        found_below (λ k. not (before key k)) s xs fuel
          (λ a b p q. lower a b p q (Bool-cases (before key a))) r h in
      ground (arith, f.1, f.2, find_if-not-not (λ a. before key (keys s a)) xs)
    where
      lower :
          (a b : K)
          → before a b ≡ true
          → not (before key b) ≡ true
          → ((before key a ≡ true) ⊎ (before key a ≡ false))
          → not (before key a) ≡ true
      lower a b p q (inl e) =
          let impossible = o.transitive key a b e p in ground (arith, impossible)
      lower a b p q (inr e) = simp e refl
