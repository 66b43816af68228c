-- ===== src/SkipList/Insert.antt =====
-- emplace: the new node is linked on each of its levels behind the nodes before it.
use code_knife.Prelude.{
  ℕ, suc, zero, ◌+◌, ◌≡◌, ◌<◌, ltb, ◌==◌, if◌then◌else◌, refl, sym, ap, subst, ◌∙◌, arith, Bool,
  true, ◌&&◌, some,
}
use code_knife.SkipList.{SkipList, next_of, set_next_after, link_after, link_level, link_levels}
use code_knife.SkipList.Search.{keys, heights}
use code_knife.SkipList.Pointers.{
  next_of-set_next_after, keys-set_next_after, heights-set_next_after, values-set_next_after,
  size-set_next_after, max_height-set_next_after,
}

module _ {K V : Type 0} (before : K → K → Bool) where
  -- The state t after the levels below `level` were linked, from the prepared state p.
  pub record IsLinked (fresh level : ℕ) (prevs : ℕ → ℕ) (p t : SkipList K V) : Type 0 where
    pub next_at :
        (a j : ℕ) → next_of t a j ≡ (if ltb j level && (a == prevs j) then fresh else next_of p a j)
    pub keys_at : (a : ℕ) → keys t a ≡ keys p a
    pub heights_at : (a : ℕ) → heights t a ≡ heights p a
    pub values_at : (a : ℕ) → (t.node a).value ≡ (p.node a).value
    pub size_at : t.size ≡ p.size

  -- One more level.
  pub linked_more :
      (fresh level : ℕ) (prevs : ℕ → ℕ) (p t : SkipList K V)
      → IsLinked fresh level prevs p t
      → IsLinked fresh (suc level) prevs p (set_next_after (prevs level) level fresh t)
  linked_more fresh level prevs p t l = record {
    next_at = λ a j.
        let here : j ≡ level → prevs level ≡ prevs j = λ e. ap prevs (sym e) in
        next_of-set_next_after (prevs level) level fresh t a j
        ∙ ground (arith, l.next_at a j, here);
    keys_at = λ a. keys-set_next_after (prevs level) level fresh t a ∙ l.keys_at a;
    heights_at = λ a. heights-set_next_after (prevs level) level fresh t a ∙ l.heights_at a;
    values_at = λ a. values-set_next_after (prevs level) level fresh t a ∙ l.values_at a;
    size_at = size-set_next_after (prevs level) level fresh t ∙ l.size_at;
  }

  -- The pointer that a level's compare-and-exchange expects is there.
  pub link_after_lem :
      (fresh level : ℕ) (prevs nexts : ℕ → ℕ) (p t : SkipList K V)
      → IsLinked fresh level prevs p t
      → next_of p (prevs level) level ≡ nexts level
      → link_after (prevs level) level (nexts level) fresh t
        ≡ (true, set_next_after (prevs level) level fresh t)
  unfolding link_after
  link_after_lem fresh level prevs nexts p t l e =
      let there : next_of t (prevs level) level ≡ nexts level =
        l.next_at (prevs level) level ∙ ground (arith, e) in
      ground (arith, there)

  link_level_lem :
      (tries fuel fresh level : ℕ) (prevs nexts : ℕ → ℕ) (p t : SkipList K V)
      → IsLinked fresh level prevs p t
      → next_of p (prevs level) level ≡ nexts level
      → link_level before (suc tries) fuel fresh level prevs nexts t
        ≡ some (prevs, nexts, set_next_after (prevs level) level fresh t)
  unfolding link_level
  link_level_lem tries fuel fresh level prevs nexts p t l e =
      ground (arith, link_after_lem fresh level prevs nexts p t l e)

  pub link_levels_lem :
      (tries fuel fresh left level : ℕ) (prevs nexts : ℕ → ℕ) (p t : SkipList K V)
      → IsLinked fresh level prevs p t
      → ((j : ℕ) → j < level + left → next_of p (prevs j) j ≡ nexts j)
      → (u : SkipList K V) × (link_levels before (suc tries) fuel fresh left level prevs nexts t
          ≡ some u)
        × IsLinked fresh (level + left) prevs p u
        × (u.max_height ≡ t.max_height)
  unfolding link_levels
  link_levels_lem tries fuel fresh zero level prevs nexts p t l e = (
    t,
    refl,
    subst (λ n. IsLinked fresh n prevs p t) {x = level} {y = level + 0} (omega arith) l,
    refl,
  )
  link_levels_lem tries fuel fresh (suc left) level prevs nexts p t l e =
      let next = set_next_after (prevs level) level fresh t in
      let rest =
        link_levels_lem tries fuel fresh left (suc level) prevs nexts p next
          (linked_more fresh level prevs p t l) (λ j h. e j (omega arith)) in
      let add_one : level + 1 ≡ suc level = omega arith in
      (
        rest.0,
        ground (
          arith,
          link_level_lem tries fuel fresh level prevs nexts p t l (e level (omega arith)),
          add_one,
          rest.1,
        ),
        subst (λ n. IsLinked fresh n prevs p rest.0) {x = suc level + left} {y = level + suc left}
            (omega arith) rest.2,
        rest.3 ∙ max_height-set_next_after (prevs level) level fresh t,
      )
