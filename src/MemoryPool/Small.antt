-- ===== src/MemoryPool/Small.antt =====
-- DeallocateSmall: the block goes back to a bin, and its owner's references are those that are left.
use code_knife.Prelude.{
  ℕ, ◌+◌, ◌-◌, ◌%◌, ◌^◌, ◌≡◌, ◌==◌, if◌then◌else◌, refl, ap, subst, ◌∙◌, arith, Bool, true, false,
  List, inl, inr, Bool-cases,
}
use code_knife.MemoryPool.{Pool, keep_block, release, post_block, reown, deallocate_small}
use code_knife.MemoryPool.Blocks.{occurrences, owned, without, IsCounted, IsSound}
use code_knife.MemoryPool.Moves.{
  occurrences-without, owned-without, owned_ext, IsPut, moved-IsPut, release_bins, release_ref,
  release_dead, keep_bins, post_bins, keep_counts, post_counts,
}

module _ (tc a : ℕ) (p : Pool) (out : List ℕ) (s : IsSound p out)
    (one : occurrences a out ≡ 1) where
  abbrev owner : ℕ
  owner = (p.headers a).owner

  abbrev class : ℕ
  class = (p.headers a).size_class

  -- The references of a state in which the owner has lost one.
  fewer :
      (q : Pool)
      → ((c : ℕ)
          → ((q.caches c).ref_count ≡ (
              if c == owner
              then ((p.caches owner).ref_count + (2 ^ 64 - 1)) % 2 ^ 64
              else (p.caches c).ref_count))
            × ((q.caches c).dead ≡ (p.caches c).dead))
      → ((c : ℕ) → owned q.headers c (without a out) ≡ owned p.headers c (without a out))
      → (c : ℕ) → IsCounted q (without a out) c
  fewer q moved same c =
      let parted = owned-without p.headers c a out (omega (arith, one)) in
      elim (Bool-cases (c == owner)) [
        | inr other ↦ ground (arith, moved c, same c, parted, s.counted c, other)
        | inl it ↦
            let at_c : owner ≡ c = ground (arith, it) in
            let refs = ap (λ (d : ℕ). (p.caches d).ref_count) at_c in
            ground (arith, moved c, same c, parted, s.counted c, it, refs)
      ]

  own_block : owner ≡ tc → IsPut tc a p (release tc (keep_block tc class a p)) out
  own_block e =
      let kept = keep_block tc class a p in
      moved-IsPut tc a p (release tc kept) out s one
        (λ c j b. release_bins tc kept c j b ∙ keep_bins tc p class a c j b) (λ b n. (refl, refl)) e
        refl
        (fewer (release tc kept)
          (λ c.
            let counts = keep_counts tc p class a in
            let refs = ap (λ (d : ℕ). (p.caches d).ref_count) e in
            (
              release_ref tc kept c ∙ ground (arith, counts tc, counts c, e, refs),
              release_dead tc kept c ∙ (counts c).1,
            ))
          (λ c. refl))

  reclaimed_block : IsPut tc a p (keep_block tc class a (reown tc a (release owner p))) out
  reclaimed_block =
      let released = release owner p in
      let owned_by = reown tc a released in
      let q = keep_block tc class a owned_by in
      moved-IsPut tc a p q out s one
        (λ c j b. ground (arith, keep_bins tc owned_by class a c j b, release_bins owner p c j b))
        (λ b n. (ground (arith, n), ground (arith, n))) (ground arith) (ground arith)
        (fewer q
          (λ c.
            let counts = keep_counts tc owned_by class a c in
            (counts.0 ∙ release_ref owner p c, counts.1 ∙ release_dead owner p c))
          (λ c.
            owned_ext p.headers q.headers c a (without a out) (λ b n. ground (arith, n))
              (ground (arith, occurrences-without a a out, one))))

  posted_block :
      (n : ℕ)
      → IsPut owner a p
          (post_block owner class a (release owner (record p { cross_thread_frees = n })))
          out
  posted_block n =
      let other : Pool = record p { cross_thread_frees = n } in
      let released = release owner other in
      let q = post_block owner class a released in
      moved-IsPut owner a p q out s one
        (λ c j b.
          ground (arith, post_bins owner released class a c j b, release_bins owner other c j b))
        (λ b m. (refl, refl)) refl refl
        (fewer q
          (λ c.
            let counts = post_counts owner released class a c in
            (counts.0 ∙ release_ref owner other c, counts.1 ∙ release_dead owner other c))
          (λ c. refl))

  -- DeallocateSmall of a block of the program's, whichever thread calls it and whether the owner's
  -- thread lives or has ended: the block leaves the program's and is then in its bin, once, that of the
  -- caller's cache where the owner is dead and else the owner's, and of its class; no other block moves.
  -- Each block stays in no bin but the one that its header names, and each cache's reference count is
  -- its thread, if it lives, and the blocks of its that the program still has.
  pub deallocate_small_lem :
      IsPut (if (p.caches owner).dead then tc else owner) a p (deallocate_small tc a p) out
  unfolding deallocate_small
  deallocate_small_lem =
      chosen (owner == tc) (p.caches owner).dead (λ own. ground (arith, own))
        (λ own. own_block (ground (arith, own))) reclaimed_block
        (posted_block (p.cross_thread_frees + 1))
    where
      chosen :
          (own dead : Bool) {x y z : Pool}
          → (own ≡ true → tc ≡ owner)
          → (own ≡ true → IsPut tc a p x out)
          → IsPut tc a p y out
          → IsPut owner a p z out
          → IsPut (if dead then tc else owner) a p (if own then x else if dead then y else z) out
      chosen true true e x y z = x refl
      chosen true false {x} e px y z = subst (λ (c : ℕ). IsPut c a p x out) (e refl) (px refl)
      chosen false true e x y z = y
      chosen false false e x y z = z
