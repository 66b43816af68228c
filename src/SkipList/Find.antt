-- ===== src/SkipList/Find.antt =====
-- find_path and find: the neighbours of a key on each level, and the node with the key.
use code_knife.Prelude.{
  ℕ, ◌≡◌, ◌<◌, ltb, leb, ◌==◌, if◌then◌else◌, refl, sym, ap, ◌∙◌, arith, Bool, true, false, not,
  ◌&&◌, Bool-cases, inl, inr, ◌⊎◌, Option, none, some, List, [], ◌∷◌, ◌++◌, length, filter-append,
  find_if, or_else, find_if-append,
}
use code_knife.SkipList.{SkipList, Pointers, find_levels, keys_equal, find_path, find_node}
use code_knife.SkipList.Levels.{last_or, first_or_null, all_of, all_of-append, at_level}
use code_knife.SkipList.Chains.{Chain}
use code_knife.SkipList.Search.{
  IsOrder, heights, keys, empty_above, Splits, last_below, first_above, find_levels_lem,
}
use code_knife.SkipList.Ordered.{
  or_null, passing, failing, passing-failing, Ascending, Represents, tall_parts, splits, bottom,
  top_null,
}

Ascending-part :
    {K : Type 0} (before : K → K → Bool) (key : ℕ → K) (test : ℕ → Bool) (xs : List ℕ)
    → Ascending before key xs
    → Ascending before key (failing test xs)
Ascending-part before key test [] up = tt
Ascending-part before key test (x ∷ xs) up = elim (Bool-cases (test x)) [
  | inl yes' ↦ simp yes' (Ascending-part before key test xs up.1)
  | inr no' ↦ simp no' up
]

module _ {K V : Type 0} (before : K → K → Bool) where
  abbrev pub lower_nodes : K → SkipList K V → List ℕ → List ℕ
  lower_nodes key s xs = passing (λ a. before (keys s a) key) xs

  abbrev pub upper_nodes : K → SkipList K V → List ℕ → List ℕ
  upper_nodes key s xs = failing (λ a. before (keys s a) key) xs

  -- The node with a key that is neither before nor after the given one, if there is one.
  abbrev pub node_with : K → SkipList K V → List ℕ → Option ℕ
  node_with key s xs = find_if (λ a. keys_equal before (keys s a) key) xs

  -- The predecessors and successors of a key on the sixteen levels.
  pub record Around (key : K) (s : SkipList K V) (xs : List ℕ) (prevs nexts : Pointers)
      : Type 0 where
    pub prevs_at : (j : ℕ) → prevs j ≡ last_or 0 (at_level (heights s) j (lower_nodes key s xs))
    pub nexts_at : (j : ℕ) → nexts j ≡ first_or_null (at_level (heights s) j (upper_nodes key s xs))

  -- Among ascending nodes none of which is before the key, the first alone can have it.
  node_with-upper :
      (o : IsOrder before) (key : K) (s : SkipList K V) (x : ℕ) (xs : List ℕ)
      → all_of (λ b. before (keys s x) (keys s b)) xs ≡ true
      → before (keys s x) key ≡ false
      → keys_equal before (keys s x) key ≡ false
      → node_with key s xs ≡ none
  node_with-upper o key s x [] up not_before different = refl
  node_with-upper o key s x (b ∷ bs) up not_before different =
      let after : before key (keys s x) ≡ true = ground arith in
      let above : before (keys s x) (keys s b) ≡ true = ground arith in
      let there = o.transitive key (keys s x) (keys s b) after above in
      ground (arith, there, node_with-upper o key s x bs (ground arith) not_before different)

  pub node_with-lower :
      (key : K) (s : SkipList K V) (xs : List ℕ)
      → all_of (λ a. before (keys s a) key) xs ≡ true
      → node_with key s xs ≡ none
  node_with-lower key s [] h = refl
  node_with-lower key s (x ∷ xs) h =
      let first : before (keys s x) key ≡ true = ground arith in
      ground (arith, first, node_with-lower key s xs (ground arith))

  -- The first node that is not before the key is the one with the key, or there is none.
  first-node_with :
      (key : K) (s : SkipList K V) (xs : List ℕ)
      → IsOrder before
      → Ascending before (keys s) xs
      → all_of (λ a. not (before (keys s a) key)) xs ≡ true
      → all_of (λ a. ltb 0 a) xs ≡ true
      → node_with key s xs ≡ (
          if not (first_or_null xs == 0) && keys_equal before (keys s (first_or_null xs)) key
          then some (first_or_null xs)
          else none)
  first-node_with key s [] o up high live = refl
  first-node_with key s (x ∷ xs) o up high live =
      let not_before : before (keys s x) key ≡ false = ground arith in
      let some_node : (x == 0) ≡ false = ground arith in
      elim (Bool-cases (keys_equal before (keys s x) key)) [
        | inl same ↦ simp (some_node, same) refl
        | inr different ↦
            simp (some_node, different) (node_with-upper o key s x xs up.0 not_before different)
      ]

  all_live :
      (s : SkipList K V) (level p : ℕ) (xs : List ℕ)
      → Chain s level p xs
      → all_of (λ a. ltb 0 a) xs ≡ true
  all_live s level p [] c = refl
  all_live s level p (x ∷ xs) c =
      ground (arith, c.1, all_live s level ((s.node x).next level) xs c.2)

  module _ (o : IsOrder before) (fuel : ℕ) (key : K) (s : SkipList K V) (xs : List ℕ)
      (r : Represents before s xs) (h : length xs < fuel) where
    abbrev test : K → Bool
    test k = before k key

    sp : Splits test s (lower_nodes key s xs) (upper_nodes key s xs) fuel
    sp = splits before test s xs fuel (λ a b p q. o.transitive a b key p q) r h

    none_high :
        (j : ℕ) (ys : List ℕ)
        → all_of (λ a. ltb 0 (heights s a) && leb (heights s a) s.max_height) ys ≡ true
        → ltb j s.max_height ≡ false
        → at_level (heights s) j ys ≡ []
    none_high j ys t e = empty_above (heights s) s.max_height j ys t (ground arith)

    found_path :
        (prevs nexts : Pointers) × (find_levels test s fuel s.max_height 0 (λ level. 0) (λ level. 0)
          ≡ some (prevs, nexts))
        × Around key s xs prevs nexts
    found_path =
        let f =
          find_levels_lem test s (lower_nodes key s xs) (upper_nodes key s xs) fuel s.max_height
            (λ level. 0) (λ level. 0) sp r.linked.few_levels in
        let parts = tall_parts before test s xs fuel r in
        (
          f.0,
          f.1,
          ap (λ (q : ℕ). find_levels test s fuel s.max_height q (λ level. 0) (λ level. 0))
                (sym (top_null before test s xs fuel r))
              ∙ f.2,
          record {
            prevs_at = λ j. f.3.prevs_at j ∙ below j (Bool-cases (ltb j s.max_height)) parts.0;
            nexts_at = λ j. f.3.nexts_at j ∙ above j (Bool-cases (ltb j s.max_height)) parts.1;
          },
        )
      where
        below :
            (j : ℕ)
            → ((ltb j s.max_height ≡ true) ⊎ (ltb j s.max_height ≡ false))
            → all_of
                (λ a. ltb 0 (heights s a) && leb (heights s a) s.max_height)
                (lower_nodes key s xs)
              ≡ true
            → (if ltb j s.max_height
                then last_below test s (lower_nodes key s xs) (upper_nodes key s xs) fuel j
                else 0)
              ≡ last_or 0 (at_level (heights s) j (lower_nodes key s xs))
        below j (inl e) t = simp e refl
        below j (inr e) t = simp e (sym (ap (last_or 0) (none_high j (lower_nodes key s xs) t e)))

        above :
            (j : ℕ)
            → ((ltb j s.max_height ≡ true) ⊎ (ltb j s.max_height ≡ false))
            → all_of
                (λ a. ltb 0 (heights s a) && leb (heights s a) s.max_height)
                (upper_nodes key s xs)
              ≡ true
            → (if ltb j s.max_height
                then first_above test s (lower_nodes key s xs) (upper_nodes key s xs) fuel j
                else 0)
              ≡ first_or_null (at_level (heights s) j (upper_nodes key s xs))
        above j (inl e) t = simp e refl
        above j (inr e) t = simp e (sym (ap first_or_null (none_high j (upper_nodes key s xs) t e)))

    live_upper : all_of (λ a. ltb 0 a) (upper_nodes key s xs) ≡ true
    live_upper =
        let nodes = at_level (heights s) 0 in
        let both =
          sym (
            all_of-append (λ a. ltb 0 a) (nodes (lower_nodes key s xs))
              (nodes (upper_nodes key s xs)))
          ∙ ap (all_of (λ a. ltb 0 a)) (
              sym (
                filter-append (λ a. ltb 0 (heights s a)) (lower_nodes key s xs)
                  (upper_nodes key s xs)))
          ∙ all_live s 0 (s.head 0) (nodes (lower_nodes key s xs ++ upper_nodes key s xs))
              (sp.whole.chained 0 (omega arith)) in
        ap (all_of (λ a. ltb 0 a)) (sym (bottom before test s xs fuel r)) ∙ ground (arith, both)

    whole : node_with key s xs ≡ (
        if not (first_or_null (upper_nodes key s xs) == 0)
          && keys_equal before (keys s (first_or_null (upper_nodes key s xs))) key
        then some (first_or_null (upper_nodes key s xs))
        else none)
    whole =
        ap (node_with key s) (sym (passing-failing (λ a. before (keys s a) key) xs))
        ∙ find_if-append (λ a. keys_equal before (keys s a) key) (lower_nodes key s xs)
            (upper_nodes key s xs)
        ∙ ap (λ (t : Option ℕ). or_else t (node_with key s (upper_nodes key s xs)))
            (node_with-lower key s (lower_nodes key s xs) sp.low)
        ∙ first-node_with key s (upper_nodes key s xs) o
            (Ascending-part before (keys s) (λ a. before (keys s a) key) xs r.ascending) sp.high
            live_upper

    -- find_path ends with the neighbours of the key on each level, and tells whether its node is
    -- there, which is then the successor on the lowest level.
    pub find_path_lem :
        (found : Bool) × (prevs nexts : Pointers) × (find_path before fuel key s
          ≡ some (found, prevs, nexts))
        × Around key s xs prevs nexts
        × (node_with key s xs ≡ (if found then some (nexts 0) else none))
    unfolding find_path
    find_path_lem =
        let f = found_path in
        let prevs = f.0 in
        let nexts = f.1 in
        let lowest : nexts 0 ≡ first_or_null (upper_nodes key s xs) =
          f.3.nexts_at 0 ∙ ap first_or_null (bottom before test s xs fuel r) in
        (
          not (nexts 0 == 0) && keys_equal before (keys s (nexts 0)) key,
          prevs,
          nexts,
          ground (arith, f.2),
          f.3,
          whole
              ∙ ap
                  (λ (a : ℕ).
                    if not (a == 0) && keys_equal before (keys s a) key then some a else none)
                  (sym lowest),
        )

    -- find gives the node whose key is neither before nor after the given one, or null.
    pub find_node_lem : find_node before fuel key s ≡ some (or_null (node_with key s xs))
    unfolding find_node
    find_node_lem =
        let (found, prevs, nexts, run, path, result) = find_path_lem in
        let ran : find_node before fuel key s ≡ some (if found then nexts 0 else 0) =
          ground (arith, run) in
        ran ∙ ap some (sym (ap or_null result ∙ chosen found (nexts 0)))
      where
        chosen : (b : Bool) (a : ℕ) → or_null (if b then some a else none) ≡ (if b then a else 0)
        chosen true a = refl
        chosen false a = refl
