-- ===== src/MemoryPool/Medium.antt =====
-- Medium blocks: the cache of a thread and its bound.
use code_knife.Prelude.{
  ℕ, ◌≡◌, ◌≤◌, ◌==◌, ltb, arith, true, [], ◌∷◌, length, length-append, inl, inr, Bool-cases,
}
use code_knife.MemoryPool.{Pool, deallocate_medium}

-- The cache of medium blocks never has more entries than its array.
pub deallocate_medium-length :
    (tc a : ℕ) (p : Pool)
    → length (p.caches tc).medium_cache ≤ 8
    → length ((deallocate_medium tc a p).caches tc).medium_cache ≤ 8
unfolding deallocate_medium
deallocate_medium-length tc a p h =
    let longer = length-append (p.caches tc).medium_cache ((a, (p.headers a).actual_size) ∷ []) in
    let same : (tc == tc) ≡ true = ground arith in
    elim (Bool-cases ((p.headers a).owner == tc)) [
      | inr foreign ↦ simp (deallocate_medium, foreign) h
      | inl own ↦ elim (Bool-cases (ltb (length (p.caches tc).medium_cache) 8)) [
        | inl room ↦ simp (deallocate_medium, own, room, same) (ground (arith, room, longer))
        | inr full ↦ simp (deallocate_medium, own, full, same) h
      ]
    ]
