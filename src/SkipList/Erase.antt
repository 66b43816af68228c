-- ===== src/SkipList/Erase.antt =====
-- unsafe_erase against the ascending list: the node with the key leaves it.
use code_knife.Prelude.{
  ℕ, ◌-◌, ◌≡◌, ◌<◌, ltb, leb, ◌==◌, if◌then◌else◌, refl, sym, ap₂, subst, ◌∙◌, arith, Bool, true,
  false, not, ◌&&◌, Bool-cases, inl, inr, List, [], ◌∷◌, ◌++◌, length-append, filter-append,
}
use code_knife.SkipList.{SkipList, next_of, trim_max_height}
use code_knife.SkipList.Levels.{last_or, all_of, at_level}
use code_knife.SkipList.Chains.{Chain, Chain-after, lacks, Distinct, Chain-frame, Chain-splice}
use code_knife.SkipList.Search.{IsOrder, keys, heights}
use code_knife.SkipList.Ordered.{Ascending, Represents}
use code_knife.SkipList.Pointers.{Distinct-filter, lacks-last, Distinct-left, Ascending-Distinct}
use code_knife.SkipList.Inserted.{lacks-null, all_of-parts}
use code_knife.SkipList.Erased.{IsUnlinked, trim_lem}

all_of_drop :
    (test : ℕ → Bool) (xs : List ℕ) (x : ℕ) (ys : List ℕ)
    → all_of test (xs ++ (x ∷ ys)) ≡ true
    → all_of test (xs ++ ys) ≡ true
all_of_drop test [] x ys h = ground arith
all_of_drop test (y ∷ xs) x ys h = ground (arith, all_of_drop test xs x ys (ground arith))

Ascending-drop :
    {K : Type 0} (before : K → K → Bool) (key : ℕ → K) (xs : List ℕ) (x : ℕ) (ys : List ℕ)
    → Ascending before key (xs ++ (x ∷ ys))
    → Ascending before key (xs ++ ys)
Ascending-drop before key [] x ys up = up.1
Ascending-drop before key (y ∷ xs) x ys up =
    (all_of_drop (λ b. before (key y) (key b)) xs x ys up.0, Ascending-drop before key xs x ys up.1)

lacks-middle : (xs : List ℕ) (x : ℕ) (ys : List ℕ) → Distinct (xs ++ (x ∷ ys)) → lacks x xs ≡ true
lacks-middle [] x ys d = refl
lacks-middle (y ∷ xs) x ys d =
    let apart = all_of-parts (λ b. not (b == y)) xs (x ∷ ys) d.0 in
    ground (arith, apart.1, lacks-middle xs x ys d.1)

module _ {K V : Type 0} (before : K → K → Bool) (x : ℕ) (lo hi : List ℕ) (prevs : ℕ → ℕ)
    (s t : SkipList K V) (o : IsOrder before) (r : Represents before s (lo ++ (x ∷ hi)))
    (u : IsUnlinked x (heights s x) prevs s t)
    (prevs_at : (j : ℕ) → prevs j ≡ last_or 0 (at_level (heights s) j lo)) where
  -- The nodes of a level before and after the one that leaves.
  nodes_of :
      (level : ℕ)
      → at_level (heights s) level (lo ++ (x ∷ hi))
        ≡ at_level (heights s) level lo
          ++ (if ltb level (heights s x)
              then x ∷ at_level (heights s) level hi
              else at_level (heights s) level hi)
  nodes_of level = filter-append (λ a. ltb level (heights s a)) lo (x ∷ hi)

  tall_level :
      (level : ℕ)
      → level < 16
      → ltb level (heights s x) ≡ true
      → Chain t level
          (t.head level)
          (at_level (heights s) level lo ++ at_level (heights s) level hi)
  tall_level level h tall =
      let low = at_level (heights s) level lo in
      let high = at_level (heights s) level hi in
      let split : at_level (heights s) level (lo ++ (x ∷ hi)) ≡ low ++ (x ∷ high) =
        nodes_of level ∙ simp tall refl in
      let c = subst (Chain s level (s.head level)) split (r.linked.chained level h) in
      let whole : Distinct (low ++ (x ∷ high)) = subst Distinct split (
        Distinct-filter (λ a. ltb level (heights s a)) (lo ++ (x ∷ hi))
          (Ascending-Distinct before o (keys s) (lo ++ (x ∷ hi)) r.ascending)) in
      let nulls =
        all_of-parts (λ b. not (b == 0)) low (x ∷ high)
          (lacks-null s level (s.head level) (low ++ (x ∷ high)) c) in
      let rest = Chain-after s level (s.head level) 0 low (x ∷ high) c refl in
      let skipped : next_of t (last_or 0 low) level ≡ (s.node x).next level =
        u.next_at (last_or 0 low) level ∙ ground (arith, tall, prevs_at level, rest.1) in
      let behind : lacks (last_or 0 low) high ≡ true =
        ground (arith, lacks-last 0 low (x ∷ high) whole nulls.1) in
      Chain-splice s t level x 0 (s.head level) low (x ∷ high) high c refl nulls.0
        (Distinct-left low (x ∷ high) whole) (omega (arith, rest.1)) (lacks-middle low x high whole)
        (λ a n m. u.next_at a level ∙ ground (arith, n, prevs_at level))
        (subst (λ p. Chain t level p high) (sym skipped)
          (Chain-frame s t level (λ a. not (a == last_or 0 low)) ((s.node x).next level) high
            (λ a k live. ground (arith, u.next_at a level, k, live, prevs_at level)) behind rest.2))

  short_level :
      (level : ℕ)
      → level < 16
      → ltb level (heights s x) ≡ false
      → Chain t level
          (t.head level)
          (at_level (heights s) level lo ++ at_level (heights s) level hi)
  short_level level h short =
      let both = at_level (heights s) level lo ++ at_level (heights s) level hi in
      let split : at_level (heights s) level (lo ++ (x ∷ hi)) ≡ both =
        nodes_of level ∙ simp short refl in
      subst (λ p. Chain t level p both) {x = s.head level} {y = t.head level}
        (sym (u.next_at 0 level ∙ ground (arith, short)))
        (Chain-frame s t level (λ a. ltb 0 a) (s.head level) both
          (λ a k live. ground (arith, u.next_at a level, live, short))
          (live_nodes level (s.head level) both
            (subst (Chain s level (s.head level)) split (r.linked.chained level h)))
          (subst (Chain s level (s.head level)) split (r.linked.chained level h)))
    where
      live_nodes : (j p : ℕ) (xs : List ℕ) → Chain s j p xs → all_of (λ a. ltb 0 a) xs ≡ true
      live_nodes j p [] c = refl
      live_nodes j p (y ∷ ys) c = ground (arith, c.1, live_nodes j ((s.node y).next j) ys c.2)

  same_levels :
      (level : ℕ) (xs : List ℕ) → at_level (heights t) level xs ≡ at_level (heights s) level xs
  same_levels level [] = refl
  same_levels level (a ∷ xs) = ground (arith, u.heights_at a, same_levels level xs)

  chained :
      (level : ℕ)
      → level < 16
      → Chain t level (t.head level) (at_level (heights t) level (lo ++ hi))
  chained level h =
      subst (Chain t level (t.head level))
        (sym (same_levels level (lo ++ hi) ∙ filter-append (λ a. ltb level (heights s a)) lo hi))
        (elim (Bool-cases (ltb level (heights s x))) [
          | inl tall ↦ tall_level level h tall
          | inr short ↦ short_level level h short
        ])

  pub Represents-IsUnlinked :
      Represents before (trim_max_height (record t { size = t.size - 1 })) (lo ++ hi)
  unfolding trim_max_height
  Represents-IsUnlinked =
      let n : SkipList K V = record t { size = t.size - 1 } in
      let within : (xs : List ℕ)
          → all_of (λ a. ltb 0 (heights s a) && leb (heights s a) s.max_height) xs ≡ true
          → all_of (λ a. ltb 0 (heights t a) && leb (heights t a) t.max_height) xs ≡ true =
        carried in
      let tall = within (lo ++ hi) (
        all_of_drop (λ a. ltb 0 (heights s a) && leb (heights s a) s.max_height) lo x hi
          r.linked.tall) in
      let trimmed =
        trim_lem n (lo ++ hi) t.max_height chained (omega (arith, u.max_at, r.linked.some_level))
          (omega (arith, u.max_at, r.linked.few_levels)) tall in
      record {
        linked = record {
          chained = chained;
          tall = trimmed.2;
          some_level = trimmed.0;
          few_levels = omega (arith, trimmed.1, u.max_at, r.linked.few_levels);
        };
        ascending = kept (lo ++ hi) (Ascending-drop before (keys s) lo x hi r.ascending);
        counted =
            omega (arith, u.size_at, r.counted, length-append lo (x ∷ hi), length-append lo hi);
      }
    where
      carried :
          (xs : List ℕ)
          → all_of (λ a. ltb 0 (heights s a) && leb (heights s a) s.max_height) xs ≡ true
          → all_of (λ a. ltb 0 (heights t a) && leb (heights t a) t.max_height) xs ≡ true
      carried [] h = refl
      carried (a ∷ xs) h = ground (arith, u.heights_at a, u.max_at, carried xs (ground arith))

      kept_tests :
          (a : ℕ) (xs : List ℕ)
          → all_of (λ b. before (keys s a) (keys s b)) xs ≡ true
          → all_of (λ b. before (keys t a) (keys t b)) xs ≡ true
      kept_tests a [] h = refl
      kept_tests a (b ∷ xs) h =
          let here = ap₂ before (u.keys_at a) (u.keys_at b) in
          ground (arith, here, kept_tests a xs (ground arith))

      kept : (xs : List ℕ) → Ascending before (keys s) xs → Ascending before (keys t) xs
      kept [] up = tt
      kept (a ∷ xs) up = (kept_tests a xs up.0, kept xs up.1)
