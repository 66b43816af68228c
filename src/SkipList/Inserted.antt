-- ===== src/SkipList/Inserted.antt =====
-- The state after an insertion holds the old nodes with the new one between its neighbours.
use code_knife.Prelude.{
  ℕ, ◌+◌, ◌≡◌, ◌≢◌, ◌<◌, ◌≤◌, ltb, leb, ◌==◌, if◌then◌else◌, refl, sym, ap, ap₂, subst, ◌∙◌, arith,
  Bool, true, false, not, ◌&&◌, Bool-cases, inl, inr, List, [], ◌∷◌, ◌++◌, length-append,
  filter-append,
}
use code_knife.SkipList.{SkipList, next_of}
use code_knife.SkipList.Levels.{
  last_or, first_or_null, all_of, all_of-filter, all_of-append, at_level,
}
use code_knife.SkipList.Chains.{
  Chain, Chain-first, Chain-after, lacks, Distinct, Chain-frame, Chain-splice,
}
use code_knife.SkipList.Search.{IsOrder, keys, heights}
use code_knife.SkipList.Ordered.{Ascending, Represents}
use code_knife.SkipList.Pointers.{
  last_or-lacks, Distinct-filter, lacks-last, Distinct-left, Ascending-Distinct, at_level_ext,
  all_of_ext, Ascending-ext,
}

-- A list of addresses has no null, as its chain shows.
pub lacks-null :
    {K V : Type 0} (s : SkipList K V) (level p : ℕ) (xs : List ℕ)
    → Chain s level p xs
    → lacks 0 xs ≡ true
lacks-null s level p [] c = refl
lacks-null s level p (x ∷ xs) c =
    ground (arith, c.1, lacks-null s level ((s.node x).next level) xs c.2)

pub all_of-parts :
    (test : ℕ → Bool) (xs ys : List ℕ)
    → all_of test (xs ++ ys) ≡ true
    → (all_of test xs ≡ true) × (all_of test ys ≡ true)
all_of-parts test xs ys h =
    let both = sym (all_of-append test xs ys) ∙ h in (ground (arith, both), ground (arith, both))

pub all_of_both :
    (p q : ℕ → Bool) (xs : List ℕ)
    → all_of p xs ≡ true
    → all_of q xs ≡ true
    → all_of (λ a. p a && q a) xs ≡ true
all_of_both p q [] h k = refl
all_of_both p q (x ∷ xs) h k = ground (arith, all_of_both p q xs (ground arith) (ground arith))

module _ {K V : Type 0} (before : K → K → Bool) (fresh height : ℕ) (lo hi : List ℕ)
    (s t : SkipList K V) where
  abbrev pub prev_at : ℕ → ℕ
  prev_at j = last_or 0 (at_level (heights s) j lo)

  abbrev pub next_at : ℕ → ℕ
  next_at j = first_or_null (at_level (heights s) j hi)

  -- t is s with the node `fresh` linked on its levels.
  pub record IsInserted : Type 0 where
    pub live : 0 < fresh
    pub unused : lacks fresh (lo ++ hi) ≡ true
    pub some_height : 0 < height
    pub few : height ≤ 16
    pub pointers :
        (a j : ℕ)
        → next_of t a j ≡ (
            if ltb j height && (a == prev_at j)
            then fresh
            else if a == fresh
            then (if ltb j height then next_at j else 0)
            else next_of s a j)
    pub same_keys : (a : ℕ) → a ≢ fresh → keys t a ≡ keys s a
    pub same_heights : (a : ℕ) → a ≢ fresh → heights t a ≡ heights s a
    pub new_height : heights t fresh ≡ height
    pub above_low : all_of (λ a. before (keys s a) (keys t fresh)) lo ≡ true
    pub below_high : all_of (λ a. before (keys t fresh) (keys s a)) hi ≡ true
    pub new_size : t.size ≡ s.size + 1
    pub new_max : t.max_height ≡ (if ltb s.max_height height then height else s.max_height)

  module _ (o : IsOrder before) (r : Represents before s (lo ++ hi)) (i : IsInserted) where
    unused_parts : (lacks fresh lo ≡ true) × (lacks fresh hi ≡ true)
    unused_parts = all_of-parts (λ b. not (b == fresh)) lo hi i.unused

    Chain-of :
        (level : ℕ)
        → level < 16
        → Chain s level
            (s.head level)
            (at_level (heights s) level lo ++ at_level (heights s) level hi)
    Chain-of level h =
        subst (Chain s level (s.head level)) (filter-append (λ a. ltb level (heights s a)) lo hi)
          (r.linked.chained level h)

    nodes_of :
        (level : ℕ)
        → at_level (heights t) level (lo ++ (fresh ∷ hi))
          ≡ at_level (heights s) level lo
            ++ (if ltb level height
                then fresh ∷ at_level (heights s) level hi
                else at_level (heights s) level hi)
    nodes_of level =
        filter-append (λ a. ltb level (heights t a)) lo (fresh ∷ hi)
        ∙ ap₂ ◌++◌
            (at_level_ext fresh (heights s) (heights t) level lo i.same_heights unused_parts.0)
            (ap₂ (λ (n : ℕ) (l : List ℕ). if ltb level n then fresh ∷ l else l) i.new_height
              (at_level_ext fresh (heights s) (heights t) level hi i.same_heights unused_parts.1))

    prev_apart : (level : ℕ) → prev_at level ≢ fresh
    prev_apart level =
        last_or-lacks fresh 0 (at_level (heights s) level lo) (omega (arith, i.live))
          (all_of-filter (λ b. not (b == fresh)) (λ a. ltb level (heights s a)) lo unused_parts.0)

    -- The new node's chain on one of its levels.
    linked_level :
        (level : ℕ)
        → level < 16
        → ltb level height ≡ true
        → Chain t level
            (t.head level)
            (at_level (heights s) level lo ++ (fresh ∷ at_level (heights s) level hi))
    linked_level level h tall =
        let low = at_level (heights s) level lo in
        let high = at_level (heights s) level hi in
        let c = Chain-of level h in
        let whole : Distinct (low ++ high) =
          subst Distinct (filter-append (λ a. ltb level (heights s a)) lo hi) (
            Distinct-filter (λ a. ltb level (heights s a)) (lo ++ hi)
              (Ascending-Distinct before o (keys s) (lo ++ hi) r.ascending)) in
        let nulls =
          all_of-parts (λ b. not (b == 0)) low high
            (lacks-null s level (s.head level) (low ++ high) c) in
        let rest = Chain-after s level (s.head level) 0 low high c refl in
        let first = Chain-first s level (next_of s (prev_at level) level) high rest in
        let after : (t.node fresh).next level ≡ next_of s (prev_at level) level =
          ground (arith, i.pointers fresh level, tall, prev_apart level, i.live, first) in
        Chain-splice s t level fresh 0 (s.head level) low high (fresh ∷ high) c refl nulls.0
          (Distinct-left low high whole) (omega (arith, i.live))
          (all_of-filter (λ b. not (b == fresh)) (λ a. ltb level (heights s a)) lo unused_parts.0)
          (λ a n m. i.pointers a level ∙ ground (arith, n, m))
          (
            i.pointers (prev_at level) level ∙ ground (arith, tall),
            i.live,
            subst (λ p. Chain t level p high) (sym after)
                (Chain-frame s t level (λ a. not (a == prev_at level) && not (a == fresh))
                  (next_of s (prev_at level) level) high
                  (λ a k live. ground (arith, i.pointers a level, k, live))
                  (all_of_both (λ a. not (a == prev_at level)) (λ a. not (a == fresh)) high
                    (lacks-last 0 low high whole nulls.1)
                    (all_of-filter (λ b. not (b == fresh)) (λ a. ltb level (heights s a)) hi
                      unused_parts.1))
                  rest),
          )

    -- A level above the new node's height.
    unlinked_level :
        (level : ℕ)
        → level < 16
        → ltb level height ≡ false
        → Chain t level
            (t.head level)
            (at_level (heights s) level lo ++ at_level (heights s) level hi)
    unlinked_level level h short =
        let both = at_level (heights s) level lo ++ at_level (heights s) level hi in
        let out =
          ap (lacks fresh) (sym (filter-append (λ a. ltb level (heights s a)) lo hi))
          ∙ all_of-filter (λ b. not (b == fresh)) (λ a. ltb level (heights s a)) (lo ++ hi)
              i.unused in
        subst (λ p. Chain t level p both) {x = s.head level} {y = t.head level}
          (sym (i.pointers 0 level ∙ ground (arith, short, i.live)))
          (Chain-frame s t level (λ a. not (a == fresh)) (s.head level) both
            (λ a k live. ground (arith, i.pointers a level, k, live, short)) out (Chain-of level h))

    chained :
        (level : ℕ)
        → level < 16
        → Chain t level (t.head level) (at_level (heights t) level (lo ++ (fresh ∷ hi)))
    chained level h = elim (Bool-cases (ltb level height)) [
      | inl tall ↦ rw (nodes_of level, tall) (linked_level level h tall)
      | inr short ↦ rw (nodes_of level, short) (unlinked_level level h short)
    ]

    within :
        (list : List ℕ)
        → lacks fresh list ≡ true
        → all_of (λ a. ltb 0 (heights s a) && leb (heights s a) s.max_height) list ≡ true
        → all_of (λ a. ltb 0 (heights t a) && leb (heights t a) t.max_height) list ≡ true
    within [] l h = refl
    within (a ∷ rest) l h = ground (
      arith,
      i.same_heights a (ground arith),
      i.new_max,
      within rest (ground arith) (ground arith),
    )

    Ascending-both :
        (xs : List ℕ)
        → lacks fresh xs ≡ true
        → all_of (λ a. before (keys s a) (keys t fresh)) xs ≡ true
        → Ascending before (keys s) (xs ++ hi)
        → Ascending before (keys t) (xs ++ (fresh ∷ hi))
    Ascending-both [] l below up = (
      all_of_ext fresh (λ b. before (keys t fresh) (keys s b))
            (λ b. before (keys t fresh) (keys t b)) hi
            (λ a n. ap (before (keys t fresh)) (i.same_keys a n)) unused_parts.1
          ∙ i.below_high,
      Ascending-ext fresh before (keys s) (keys t) hi i.same_keys unused_parts.1 up,
    )
    Ascending-both (x ∷ xs) l below up =
        let here = i.same_keys x (ground arith) in
        let parts = all_of-parts (λ b. before (keys s x) (keys s b)) xs hi up.0 in
        let same = λ (a : ℕ) (n : a ≢ fresh). ap₂ before here (i.same_keys a n) in
        let low =
          all_of_ext fresh (λ b. before (keys s x) (keys s b)) (λ b. before (keys t x) (keys t b))
            xs same (ground arith)
          ∙ parts.0 in
        let high =
          all_of_ext fresh (λ b. before (keys s x) (keys s b)) (λ b. before (keys t x) (keys t b))
            hi same unused_parts.1
          ∙ parts.1 in
        let mid : before (keys t x) (keys t fresh) ≡ true =
          ap (λ k. before k (keys t fresh)) here ∙ ground arith in
        (
          all_of-append (λ b. before (keys t x) (keys t b)) xs (fresh ∷ hi)
              ∙ ground (arith, low, mid, high),
          Ascending-both xs (ground arith) (ground arith) up.1,
        )

    pub Represents-IsInserted : Represents before t (lo ++ (fresh ∷ hi))
    Represents-IsInserted =
        let tall =
          all_of-parts (λ a. ltb 0 (heights s a) && leb (heights s a) s.max_height) lo hi
            r.linked.tall in
        record {
          linked = record {
            chained = chained;
            tall =
                all_of-append (λ a. ltb 0 (heights t a) && leb (heights t a) t.max_height) lo
                  (fresh ∷ hi)
                ∙ ground (
                  arith,
                  within lo unused_parts.0 tall.0,
                  within hi unused_parts.1 tall.1,
                  i.new_height,
                  i.new_max,
                  i.some_height,
                );
            some_level = ground (arith, i.new_max, r.linked.some_level);
            few_levels = ground (arith, i.new_max, r.linked.few_levels, i.few);
          };
          ascending = Ascending-both lo unused_parts.0 i.above_low r.ascending;
          counted =
              omega
                (arith, i.new_size, r.counted, length-append lo hi, length-append lo (fresh ∷ hi));
        }
