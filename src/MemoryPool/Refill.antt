-- ===== src/MemoryPool/Refill.antt =====
-- RefillFromSlab: the blocks of a new slab in the private list.
use code_knife.Prelude.{
  ℕ, zero, suc, ◌≡◌, ◌<◌, ◌≤◌, ◌==◌, if◌then◌else◌, refl, ap, ◌∙◌, sym, arith, Bool, true, false,
  ◌&&◌, List, [], ◌∷◌, inl, inr, ◌⊎◌, Bool-cases,
}
use code_knife.MemoryPool.{Pool, set_at, with_cache, with_bin, refill_blocks, slab_blocks, slab_of}
use code_knife.MemoryPool.Blocks.{occurrences, in_bin, IsSound}
use code_knife.MemoryPool.Moves.{owned_ext, put_bins}

-- Blocks that are in no bin and not the program's, each of them once.
abbrev pub IsFresh : Pool → List ℕ → List ℕ → Type 0
IsFresh p out [] = Unit {0}
IsFresh p out (a ∷ as') =
    ((c k : ℕ) → in_bin a ((p.caches c).bins k) ≡ 0)
    × (occurrences a out ≡ 0)
    × (occurrences a as' ≡ 0)
    × IsFresh p out as'

abbrev pub is_empty : List ℕ → Bool
is_empty [] = true
is_empty (x ∷ xs) = false

module _ (tc k : ℕ) where
  -- One block of the slab.
  abbrev add_block : ℕ → Pool → Pool
  add_block a p =
      let cache = p.caches tc in
      let bin = cache.bins k in
      with_cache tc (with_bin k (record bin { private_list = a ∷ bin.private_list }) cache)
        (record p {
          headers = set_at a (record (p.headers a) { size_class = k; owner = tc }) p.headers;
        })

  add_bins :
      (a : ℕ) (p : Pool) (c j b : ℕ)
      → in_bin b (((add_block a p).caches c).bins j) ≡ (
          if ((c == tc) && (j == k)) && (a == b)
          then suc (in_bin b ((p.caches c).bins j))
          else in_bin b ((p.caches c).bins j))
  add_bins a p =
      put_bins tc
        (record p {
          headers = set_at a (record (p.headers a) { size_class = k; owner = tc }) p.headers;
        })
        k a
        (record ((p.caches tc).bins k) { private_list = a ∷ ((p.caches tc).bins k).private_list })
        (p.caches tc) refl (λ b. ground arith)

  add_block-IsSound :
      (a : ℕ) (p : Pool) (out : List ℕ)
      → IsSound p out
      → ((c j : ℕ) → in_bin a ((p.caches c).bins j) ≡ 0)
      → occurrences a out ≡ 0
      → IsSound (add_block a p) out
  add_block-IsSound a p out s free unknown = record {
    placed = λ c j b. elim (Bool-cases (a == b)) [
      | inr other ↦ ground (arith, add_bins a p c j b, other, s.placed c j b)
      | inl it ↦
          let e : a ≡ b = ground (arith, it) in
          let none_in = ap (λ (d : ℕ). in_bin d ((p.caches c).bins j)) (sym e) ∙ free c j in
          let none_out = ap (λ (d : ℕ). occurrences d out) (sym e) ∙ unknown in
          ground (arith, add_bins a p c j b, none_in, none_out)
    ];
    named = λ c j b h. elim (Bool-cases (a == b)) [
      | inr other ↦
          let found = s.named c j b (ground (arith, add_bins a p c j b, other, h)) in
          (ground (arith, found.0, other), ground (arith, found.1, other))
      | inl it ↦
          let e : a ≡ b = ground (arith, it) in
          let none_in = ap (λ (d : ℕ). in_bin d ((p.caches c).bins j)) (sym e) ∙ free c j in
          let here : ((c == tc) && (j == k)) ≡ true =
            ground (arith, add_bins a p c j b, none_in, h) in
          (ground (arith, here, e), ground (arith, here, e))
    ];
    counted = λ c.
        let same =
          owned_ext p.headers (add_block a p).headers c a out (λ b n. ground (arith, n)) unknown in
        let refs : c ≡ tc → (p.caches tc).ref_count ≡ (p.caches c).ref_count =
          λ e. ap (λ (d : ℕ). (p.caches d).ref_count) (sym e) in
        let deaths : c ≡ tc → (p.caches tc).dead ≡ (p.caches c).dead =
          λ e. ap (λ (d : ℕ). (p.caches d).dead) (sym e) in
        let ref : ((add_block a p).caches c).ref_count ≡ (p.caches c).ref_count =
          ground (arith, refs) in
        let dead : ((add_block a p).caches c).dead ≡ (p.caches c).dead = ground (arith, deaths) in
        ref ∙ s.counted c ∙ ground (arith, same, dead);
  }

  IsFresh-add_block :
      (a : ℕ) (p : Pool) (out blocks : List ℕ)
      → occurrences a blocks ≡ 0
      → IsFresh p out blocks
      → IsFresh (add_block a p) out blocks
  IsFresh-add_block a p out [] h f = tt
  IsFresh-add_block a p out (b ∷ bs) h f =
      let other : (a == b) ≡ false = ground (arith, h) in
      (
        λ c j. ground (arith, add_bins a p c j b, other, f.0 c j),
        f.1,
        f.2,
        IsFresh-add_block a p out bs (ground (arith, h)) f.3,
      )

  pub refill_blocks-IsSound :
      (blocks : List ℕ) (p : Pool) (out : List ℕ)
      → IsSound p out
      → IsFresh p out blocks
      → IsSound (refill_blocks tc k blocks p) out
  unfolding refill_blocks
  refill_blocks-IsSound [] p out s f = s
  refill_blocks-IsSound (a ∷ as') p out s f =
      refill_blocks-IsSound as' (add_block a p) out (add_block-IsSound a p out s f.0 f.1)
        (IsFresh-add_block a p out as' f.2 f.3)

  -- No block leaves a bin.
  pub refill_blocks-keeps :
      (blocks : List ℕ) (p : Pool) (c j b : ℕ)
      → in_bin b ((p.caches c).bins j) ≤ in_bin b (((refill_blocks tc k blocks p).caches c).bins j)
  unfolding refill_blocks
  refill_blocks-keeps [] p c j b = omega arith
  refill_blocks-keeps (a ∷ as') p c j b =
      let rest = refill_blocks-keeps as' (add_block a p) c j b in
      ground (arith, add_bins a p c j b, rest)

  -- Blocks stay in the private list, and those of a slab come into it.
  pub refill_blocks-some :
      (blocks : List ℕ) (p : Pool)
      → ((is_empty blocks ≡ false) ⊎ (is_empty ((p.caches tc).bins k).private_list ≡ false))
      → is_empty (((refill_blocks tc k blocks p).caches tc).bins k).private_list ≡ false
  unfolding refill_blocks
  refill_blocks-some [] p (inl e) = ground (arith, e)
  refill_blocks-some [] p (inr e) = e
  refill_blocks-some (a ∷ as') p some' = refill_blocks-some as' (add_block a p) (inr (ground arith))

pub slab_of-some : (memory k : ℕ) → k < 9 → is_empty (slab_of memory k) ≡ false
unfolding slab_blocks
slab_of-some memory zero h = refl
slab_of-some memory (suc zero) h = refl
slab_of-some memory (suc (suc zero)) h = refl
slab_of-some memory (suc (suc (suc zero))) h = refl
slab_of-some memory (suc (suc (suc (suc zero)))) h = refl
slab_of-some memory (suc (suc (suc (suc (suc zero))))) h = refl
slab_of-some memory (suc (suc (suc (suc (suc (suc zero)))))) h = refl
slab_of-some memory (suc (suc (suc (suc (suc (suc (suc zero))))))) h = refl
slab_of-some memory (suc (suc (suc (suc (suc (suc (suc (suc zero)))))))) h = refl
slab_of-some memory (suc (suc (suc (suc (suc (suc (suc (suc (suc k))))))))) h = ground (arith, h)
