-- ===== src/SkipList/Chains.antt =====
-- The pointers of a level as a chain through a list of addresses, and a walk along it.
use code_knife.Prelude.{
  ℕ, suc, zero, ◌≡◌, ◌≢◌, ◌<◌, ◌==◌, sym, ap, subst, ◌∙◌, arith, Bool, true, false, not, some, List,
  [], ◌∷◌, ◌++◌, length,
}
use code_knife.SkipList.{SkipList, next_of, walk}
use code_knife.SkipList.Levels.{last_or, first_or_null, all_of}

module _ {K V : Type 0} (s : SkipList K V) (level : ℕ) where
  -- The pointers of a level lead from p through the list to null.
  abbrev pub Chain : ℕ → List ℕ → Type 0
  Chain p [] = p ≡ 0
  Chain p (x ∷ xs) = (p ≡ x) × (0 < x) × Chain ((s.node x).next level) xs

  pub Chain-first : (p : ℕ) (xs : List ℕ) → Chain p xs → p ≡ first_or_null xs
  Chain-first p [] c = c
  Chain-first p (x ∷ xs) c = c.0

  -- From behind a part of a chain the rest of it follows.
  pub Chain-after :
      (p q : ℕ) (xs ys : List ℕ)
      → Chain p (xs ++ ys)
      → p ≡ next_of s q level
      → Chain (next_of s (last_or q xs) level) ys
  Chain-after p q [] ys c e = subst (λ t. Chain t ys) e c
  Chain-after p q (x ∷ xs) ys c e =
      Chain-after ((s.node x).next level) x xs ys c.2 (ground (arith, c.1))

  -- A walk passes the nodes whose keys pass the test and ends before the first that fails.
  pub walk_lem :
      (test : K → Bool) (fuel prev p : ℕ) (xs ys : List ℕ)
      → Chain p (xs ++ ys)
      → all_of (λ a. test (s.node a).key) xs ≡ true
      → all_of (λ a. not (test (s.node a).key)) ys ≡ true
      → length xs < fuel
      → walk test s level fuel prev p ≡ some (last_or prev xs, first_or_null ys)
  unfolding walk
  walk_lem test zero prev p xs ys c low high h = elim h [ ]
  walk_lem test (suc fuel) prev p [] [] c low high h = ground (arith, c)
  walk_lem test (suc fuel) prev p [] (y ∷ ys) c low high h =
      let failed : test (s.node p).key ≡ false =
        ap (λ (a : ℕ). test (s.node a).key) (c.0) ∙ ground arith in
      ground (arith, failed, c.0)
  walk_lem test (suc fuel) prev p (x ∷ xs) ys c low high h =
      let rest =
        walk_lem test fuel x ((s.node x).next level) xs ys c.2 (ground arith) high (omega arith) in
      let passed : test (s.node x).key ≡ true = ground arith in
      let live : (x == 0) ≡ false = ground (arith, c.1) in simp (c.0, live, passed) rest

-- No element of a list is the address, and no two of its elements are one.
abbrev pub lacks : ℕ → List ℕ → Bool
lacks a xs = all_of (λ b. not (b == a)) xs

abbrev pub Distinct : List ℕ → Type 0
Distinct [] = Unit {0}
Distinct (x ∷ xs) = (lacks x xs ≡ true) × Distinct xs

lacks-last_or : (q x : ℕ) (xs : List ℕ) → lacks q (x ∷ xs) ≡ true → q ≢ last_or x xs
lacks-last_or q x [] h = ground arith
lacks-last_or q x (y ∷ ys) h = lacks-last_or q y ys (ground arith)

module _ {K V : Type 0} (s t : SkipList K V) (level : ℕ) where
  -- A chain whose nodes' pointers are the same in another state is a chain there.
  pub Chain-frame :
      (keep : ℕ → Bool) (p : ℕ) (xs : List ℕ)
      → ((a : ℕ) → keep a ≡ true → 0 < a → (t.node a).next level ≡ (s.node a).next level)
      → all_of keep xs ≡ true
      → Chain s level p xs
      → Chain t level p xs
  Chain-frame keep p [] same h c = c
  Chain-frame keep p (x ∷ xs) same h c = (
    c.0,
    c.1,
    subst (λ q. Chain t level q xs) (sym (same x (ground arith) c.1))
        (Chain-frame keep ((s.node x).next level) xs same (ground arith) c.2),
  )

  -- A chain up to the node behind which the pointer changed, and then another chain from there.
  pub Chain-splice :
      (fresh q p : ℕ) (xs ys zs : List ℕ)
      → Chain s level p (xs ++ ys)
      → p ≡ next_of s q level
      → lacks q xs ≡ true
      → Distinct xs
      → q ≢ fresh
      → lacks fresh xs ≡ true
      → ((a : ℕ) → a ≢ last_or q xs → a ≢ fresh → next_of t a level ≡ next_of s a level)
      → Chain t level (next_of t (last_or q xs) level) zs
      → Chain t level (next_of t q level) (xs ++ zs)
  Chain-splice fresh q p [] ys zs c e out d n m same rest = rest
  Chain-splice fresh q p (x ∷ xs) ys zs c e out d n m same rest =
      let here = same q (lacks-last_or q x xs out) n ∙ sym e ∙ c.0 in
      let there : next_of t x level ≡ (t.node x).next level = ground (arith, c.1) in
      let next : (s.node x).next level ≡ next_of s x level = ground (arith, c.1) in
      (
        here,
        c.1,
        subst (λ r. Chain t level r (xs ++ zs)) there
            (Chain-splice fresh x ((s.node x).next level) xs ys zs c.2 next d.0 d.1 (ground arith)
              (ground arith) same rest),
      )
