-- ===== src/MemoryPool/Tests.antt =====
-- Small pools, and the theorems of the pool on them.
use code_knife.Prelude.{
  ℕ, ◌≡◌, ◌≤◌, ◌==◌, if◌then◌else◌, refl, arith, Bool, true, false, ◌&&◌, List, [], ◌∷◌, inl, inr,
  Bool-cases,
}
use code_knife.MemoryPool.{
  ThreadCache, Pool, size_classes, class_size, find_size_class, slab_blocks, slab_of,
  allocate_small, deallocate_small,
}
use code_knife.MemoryPool.Blocks.{occurrences, IsSound}
use code_knife.MemoryPool.Refill.{IsFresh}
use code_knife.MemoryPool.Moves.{IsPut}
use code_knife.MemoryPool.Small.{deallocate_small_lem}
use code_knife.MemoryPool.Attempts.{IsResult}
use code_knife.MemoryPool.Allocate.{allocate_small_lem}

abbrev new_cache : ThreadCache
new_cache = record {
  bins = λ k. record { private_list = []; mailbox = [] };
  medium_cache = [];
  ref_count = 1;
  dead = false;
  alloc_count = 0;
  free_count = 0;
}

abbrev new_pool : Pool
new_pool = record {
  headers = λ a. record { size_class = 3; owner = 1; actual_size = 0 };
  caches = λ c. new_cache;
  cross_thread_frees = 0;
  slab_refills = 0;
  mailbox_drains = 0;
}

new_pool-IsSound : IsSound new_pool []
new_pool-IsSound = record {
  placed = λ c k a. omega arith;
  named = λ c k a h. elim h [ ];
  counted = λ c. refl;
}

abbrev are_distinct : List ℕ → Bool
are_distinct [] = true
are_distinct (a ∷ as') = (occurrences a as' == 0) && are_distinct as'

new_pool-IsFresh : (blocks : List ℕ) → are_distinct blocks ≡ true → IsFresh new_pool [] blocks
new_pool-IsFresh [] h = tt
new_pool-IsFresh (a ∷ as') h =
    (λ c k. refl, refl, ground (arith, h), new_pool-IsFresh as' (ground (arith, h)))

test_class : find_size_class 100 ≡ 4
unfolding find_size_class
test_class = refl

test_null : (allocate_small 1 2000 0 new_pool).0 ≡ 0
unfolding allocate_small find_size_class
test_null = refl

test_last_block : (allocate_small 1 2000 4096 new_pool).0 ≡ 33216
unfolding allocate_small find_size_class
test_last_block = refl

slab_distinct : are_distinct (slab_of 4096 (find_size_class 2000)) ≡ true
unfolding find_size_class slab_blocks
slab_distinct = refl

allocate_small_lem_example :
    IsResult 1 (find_size_class 2000) [] 4096 new_pool (allocate_small 1 2000 4096 new_pool)
    × (2000 ≤ class_size (find_size_class 2000) size_classes)
allocate_small_lem_example =
    allocate_small_lem 1 2000 4096 new_pool [] (omega arith) (omega arith) new_pool-IsSound
      (λ got. new_pool-IsFresh (slab_of 4096 (find_size_class 2000)) slab_distinct)

-- The program has the block 7 of the cache 1.
abbrev one_out : Pool
one_out = record new_pool {
  caches = λ c. if c == 1 then record new_cache { ref_count = 2; alloc_count = 1 } else new_cache;
}

one_out-IsSound : IsSound one_out (7 ∷ [])
one_out-IsSound = record {
  placed = λ c k a. ground arith;
  named = λ c k a h. ground (arith, h);
  counted = λ c. elim (Bool-cases (c == 1)) [
    | inl it ↦ let other_way : (1 == c) ≡ true = ground (arith, it) in simp (it, other_way) refl
    | inr other ↦
        let other_way : (1 == c) ≡ false = ground (arith, other) in simp (other, other_way) refl
  ];
}

deallocate_small_lem_example : IsPut 1 7 one_out (deallocate_small 2 7 one_out) (7 ∷ [])
deallocate_small_lem_example = deallocate_small_lem 2 7 one_out (7 ∷ []) one_out-IsSound refl
