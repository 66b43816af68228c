-- ===== src/SkipList/Erased.antt =====
-- The state after a node was taken out of the levels that it is on.
use code_knife.Prelude.{
  ℕ, suc, zero, ◌+◌, ◌≡◌, ◌<◌, ◌≤◌, ltb, leb, ◌==◌, if◌then◌else◌, refl, sym, ap, subst, ◌∙◌, arith,
  true, ◌&&◌, Bool-cases, inl, inr, List, [], ◌∷◌,
}
use code_knife.SkipList.{SkipList, next_of, set_next_after, unlink_levels, trim}
use code_knife.SkipList.Levels.{all_of, at_level}
use code_knife.SkipList.Chains.{Chain}
use code_knife.SkipList.Search.{keys, heights}
use code_knife.SkipList.Pointers.{
  next_of-set_next_after, keys-set_next_after, heights-set_next_after, values-set_next_after,
  size-set_next_after, max_height-set_next_after,
}

module _ {K V : Type 0} where
  -- The state t after the node x was taken out of the levels below `level`, from the state p.
  pub record IsUnlinked (x level : ℕ) (prevs : ℕ → ℕ) (p t : SkipList K V) : Type 0 where
    pub next_at :
        (a j : ℕ)
        → next_of t a j ≡ (if ltb j level && (a == prevs j) then next_of p x j else next_of p a j)
    pub keys_at : (a : ℕ) → keys t a ≡ keys p a
    pub heights_at : (a : ℕ) → heights t a ≡ heights p a
    pub values_at : (a : ℕ) → (t.node a).value ≡ (p.node a).value
    pub size_at : t.size ≡ p.size
    pub max_at : t.max_height ≡ p.max_height

  IsUnlinked-more :
      (x level : ℕ) (prevs : ℕ → ℕ) (p t : SkipList K V)
      → 0 < x
      → IsUnlinked x level prevs p t
      → IsUnlinked x
          (suc level)
          prevs
          p
          (set_next_after (prevs level) level ((t.node x).next level) t)
  IsUnlinked-more x level prevs p t live u =
      let target = (t.node x).next level in
      let read : target ≡ next_of p x level = ground (arith, u.next_at x level, live) in
      record {
        next_at = λ a j.
            let here : j ≡ level → prevs level ≡ prevs j = λ e. ap prevs (sym e) in
            let there : j ≡ level → next_of p x j ≡ next_of p x level = λ e. ap (next_of p x) e in
            next_of-set_next_after (prevs level) level target t a j
            ∙ ground (arith, u.next_at a j, here, there, read);
        keys_at = λ a. keys-set_next_after (prevs level) level target t a ∙ u.keys_at a;
        heights_at = λ a. heights-set_next_after (prevs level) level target t a ∙ u.heights_at a;
        values_at = λ a. values-set_next_after (prevs level) level target t a ∙ u.values_at a;
        size_at = size-set_next_after (prevs level) level target t ∙ u.size_at;
        max_at = max_height-set_next_after (prevs level) level target t ∙ u.max_at;
      }

  unlink_levels-IsUnlinked :
      (x left level : ℕ) (prevs : ℕ → ℕ) (p t : SkipList K V)
      → 0 < x
      → IsUnlinked x level prevs p t
      → IsUnlinked x (level + left) prevs p (unlink_levels x left level prevs t)
  unfolding unlink_levels
  unlink_levels-IsUnlinked x zero level prevs p t live u =
      subst (λ n. IsUnlinked x n prevs p t) {x = level} {y = level + 0} (omega arith) u
  unlink_levels-IsUnlinked x (suc left) level prevs p t live u =
      let next = set_next_after (prevs level) level ((t.node x).next level) t in
      let one : suc level ≡ level + 1 = omega arith in
      subst (λ n. IsUnlinked x n prevs p (unlink_levels x left (level + 1) prevs next))
        {x = level + 1 + left} {y = level + suc left} (omega arith)
        (unlink_levels-IsUnlinked x left (level + 1) prevs p next live
          (subst (λ n. IsUnlinked x n prevs p next) one (IsUnlinked-more x level prevs p t live u)))

  pub unlink_levels_lem :
      (x height : ℕ) (prevs : ℕ → ℕ) (s : SkipList K V)
      → 0 < x
      → IsUnlinked x height prevs s (unlink_levels x height 0 prevs s)
  unlink_levels_lem x height prevs s live =
      subst (λ n. IsUnlinked x n prevs s (unlink_levels x height 0 prevs s)) {x = 0 + height}
        {y = height} (omega arith)
        (unlink_levels-IsUnlinked x height 0 prevs s s live (record {
          next_at = λ a j. ground arith;
          keys_at = λ a. refl;
          heights_at = λ a. refl;
          values_at = λ a. refl;
          size_at = refl;
          max_at = refl;
        }))

  -- A level on which no node is left.
  all_lower :
      (s : SkipList K V) (level : ℕ) (xs : List ℕ)
      → all_of (λ a. ltb 0 (heights s a) && leb (heights s a) (suc level)) xs ≡ true
      → at_level (heights s) level xs ≡ []
      → all_of (λ a. ltb 0 (heights s a) && leb (heights s a) level) xs ≡ true
  all_lower s level [] h e = refl
  all_lower s level (x ∷ xs) h e = elim (Bool-cases (ltb level (heights s x))) [
    | inl tall ↦ ground (arith, e, tall)
    | inr short ↦
        ground (arith, short, all_lower s level xs (ground arith) (ground (arith, e, short)))
  ]

  null-empty : (s : SkipList K V) (level p : ℕ) (xs : List ℕ) → Chain s level p xs → p ≡ 0 → xs ≡ []
  null-empty s level p [] c e = refl
  null-empty s level p (x ∷ xs) c e = ground (arith, c.0, c.1)

  -- trim keeps a height that all nodes are within.
  pub trim_lem :
      (s : SkipList K V) (xs : List ℕ) (n : ℕ)
      → ((level : ℕ) → level < 16 → Chain s level (s.head level) (at_level (heights s) level xs))
      → 0 < n
      → n ≤ 16
      → all_of (λ a. ltb 0 (heights s a) && leb (heights s a) n) xs ≡ true
      → (0 < trim s n)
        × (trim s n ≤ n)
        × (all_of (λ a. ltb 0 (heights s a) && leb (heights s a) (trim s n)) xs ≡ true)
  unfolding trim
  trim_lem s xs zero c pos few h = elim pos [ ]
  trim_lem s xs (suc n) c pos few h = elim (Bool-cases (ltb 1 (suc n) && (s.head n == 0))) [
    | inr stop ↦ simp stop (pos, omega arith, h)
    | inl lower ↦
        let null : s.head n ≡ 0 = ground arith in
        let empty =
          null-empty s n (s.head n) (at_level (heights s) n xs) (c n (omega arith)) null in
        let rest = trim_lem s xs n c (ground arith) (omega arith) (all_lower s n xs h empty) in
        simp lower (rest.0, omega (arith, rest.1), rest.2)
  ]
