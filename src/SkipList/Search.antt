-- ===== src/SkipList/Search.antt =====
-- Searches: what the loops over the levels find, for a test that the keys pass up to some point of
-- the order and fail from there on.
use code_knife.Prelude.{
  ℕ, suc, zero, ◌≡◌, ◌<◌, ◌≤◌, ltb, leb, if◌then◌else◌, refl, sym, ap, subst, ◌∙◌, arith, Bool,
  true, false, not, ◌&&◌, some, List, [], ◌∷◌, ◌++◌, length, length-append, filter-append,
  append_assoc,
}
use code_knife.SkipList.{SkipList, Pointers, next_of, put, walk, descend, find_levels}
use code_knife.SkipList.Levels.{
  last_or, first_or_null, last_or-append, all_of, all_of-filter, all_of-append, length-filter-le,
  at_level, cut,
}
use code_knife.SkipList.Chains.{Chain, Chain-first, Chain-after, walk_lem}

-- What the searches use of the order of the keys.
pub record IsOrder {K : Type 0} (before : K → K → Bool) : Type 0 where
  pub irreflexive : (k : K) → before k k ≡ false
  pub transitive : (a b c : K) → before a b ≡ true → before b c ≡ true → before a c ≡ true

-- No node reaches a level above the list's height.
pub empty_above :
    (h : ℕ → ℕ) (top level : ℕ) (xs : List ℕ)
    → all_of (λ a. ltb 0 (h a) && leb (h a) top) xs ≡ true
    → top ≤ level
    → at_level h level xs ≡ []
empty_above h top level [] t l = refl
empty_above h top level (x ∷ xs) t l =
    let short : ltb level (h x) ≡ false = ground arith in
    simp short (empty_above h top level xs (ground arith) l)

module _ {K V : Type 0} where
  abbrev pub keys : SkipList K V → ℕ → K
  keys s a = (s.node a).key

  abbrev pub heights : SkipList K V → ℕ → ℕ
  heights s a = (s.node a).height

  -- The chains of the levels lead through the nodes of the list that are tall enough, and no node
  -- is taller than the list's height.
  pub record IsChained (s : SkipList K V) (xs : List ℕ) : Type 0 where
    pub chained :
        (level : ℕ) → level < 16 → Chain s level (s.head level) (at_level (heights s) level xs)
    pub tall : all_of (λ a. ltb 0 (heights s a) && leb (heights s a) s.max_height) xs ≡ true
    pub some_level : 0 < s.max_height
    pub few_levels : s.max_height ≤ 16

  -- One level of a search that has found the last node below on the level above.
  module _ (test : K → Bool) (s : SkipList K V) (lo hi : List ℕ) (fuel : ℕ) where
    abbrev pub last_below : ℕ → ℕ
    last_below level = last_or 0 (at_level (heights s) level lo)

    abbrev pub first_above : ℕ → ℕ
    first_above level = first_or_null (at_level (heights s) level hi)

    -- The test holds of the keys of lo and fails at those of hi, and the fuel exceeds the nodes.
    pub record Splits : Type 0 where
      pub whole : IsChained s (lo ++ hi)
      pub low : all_of (λ a. test (s.node a).key) lo ≡ true
      pub high : all_of (λ a. not (test (s.node a).key)) hi ≡ true
      pub enough : length lo < fuel

    both_levels :
        (level : ℕ)
        → Splits
        → level < 16
        → Chain s level
            (s.head level)
            (at_level (heights s) level lo ++ at_level (heights s) level hi)
    both_levels level sp h =
        subst (Chain s level (s.head level)) (filter-append (λ a. ltb level (heights s a)) lo hi)
          (sp.whole.chained level h)

    pub next-last_below :
        (level : ℕ) → Splits → level < 16 → next_of s (last_below level) level ≡ first_above level
    next-last_below level sp h =
        Chain-first s level (next_of s (last_below level) level) (at_level (heights s) level hi) (
          Chain-after s level (s.head level) 0 (at_level (heights s) level lo)
            (at_level (heights s) level hi) (both_levels level sp h) refl)

    level_lem :
        (level : ℕ)
        → Splits
        → level < 16
        → walk test s level fuel (last_below (suc level)) (next_of s (last_below (suc level)) level)
          ≡ some (last_below level, first_above level)
    level_lem level sp h =
        let c = cut (heights s) level lo in
        let high = at_level (heights s) level hi in
        let parts = ap (λ (l : List ℕ). l ++ high) c.joined ∙ append_assoc c.left c.right high in
        let chain =
          Chain-after s level (s.head level) 0 c.left (c.right ++ high)
            (subst (Chain s level (s.head level)) parts (both_levels level sp h)) refl in
        let here =
          subst (λ q. Chain s level (next_of s q level) (c.right ++ high)) (c.last 0) chain in
        let right_low =
          sym (all_of-append (λ a. test (s.node a).key) c.left c.right)
          ∙ ap (all_of (λ a. test (s.node a).key)) (sym c.joined)
          ∙ all_of-filter (λ a. test (s.node a).key) (λ a. ltb level (heights s a)) lo sp.low in
        let short : length c.right < fuel = omega (
          arith,
          sp.enough,
          length-append c.left c.right,
          ap length c.joined,
          length-filter-le (λ a. ltb level (heights s a)) lo,
        ) in
        walk_lem s level test fuel (last_below (suc level))
          (next_of s (last_below (suc level)) level) c.right high here (ground (arith, right_low))
          (all_of-filter (λ a. not (test (s.node a).key)) (λ a. ltb level (heights s a)) hi sp.high)
          short
        ∙ ap (λ (t : ℕ). some (t, first_above level))
            (ap (λ (q : ℕ). last_or q c.right) (sym (c.last 0))
              ∙ sym (last_or-append 0 c.left c.right)
              ∙ ap (last_or 0) (sym c.joined))

    pub descend_lem :
        (level : ℕ)
        → Splits
        → level ≤ 16
        → descend test s fuel level (last_below level) ≡ some (last_below 0)
    unfolding descend
    descend_lem zero sp h = refl
    descend_lem (suc level) sp h =
        ground (arith, level_lem level sp (omega arith), descend_lem level sp (omega arith))

    -- What the arrays of a search from a level down hold.
    pub record Fills (level : ℕ) (before_prevs before_nexts prevs nexts : Pointers) : Type 0 where
      pub prevs_at : (j : ℕ) → prevs j ≡ (if ltb j level then last_below j else before_prevs j)
      pub nexts_at : (j : ℕ) → nexts j ≡ (if ltb j level then first_above j else before_nexts j)

    pub find_levels_lem :
        (level : ℕ) (ps ns : Pointers)
        → Splits
        → level ≤ 16
        → (prevs nexts : Pointers) × (find_levels test s fuel level (last_below level) ps ns
            ≡ some (prevs, nexts))
          × Fills level ps ns prevs nexts
    unfolding find_levels
    find_levels_lem zero ps ns sp h =
        (ps, ns, refl, record { prevs_at = λ j. ground arith; nexts_at = λ j. ground arith })
    find_levels_lem (suc level) ps ns sp h =
        let rest =
          find_levels_lem level (put ps level (last_below level)) (put ns level (first_above level))
            sp (omega arith) in
        (
          rest.0,
          rest.1,
          ground (arith, level_lem level sp (omega arith), rest.2),
          record {
            prevs_at = λ j. rest.3.prevs_at j ∙ filled last_below ps level j;
            nexts_at = λ j. rest.3.nexts_at j ∙ filled first_above ns level j;
          },
        )
      where
        filled :
            (f old : Pointers) (k j : ℕ)
            → (if ltb j k then f j else put old k (f k) j) ≡ (if ltb j (suc k) then f j else old j)
        filled f old k j = let here : j ≡ k → f k ≡ f j = λ e. ap f (sym e) in ground (arith, here)
