-- ===== src/MemoryPool.antt =====
-- include/util/memory_pool_v2.hpp and src/util/memory_pool_v2.cpp: the caches of the threads and their
-- blocks of small and medium size. A block is the address of its header; a free list, which the source
-- threads through the headers, is the list of its blocks. What malloc returns is an argument, 0 where
-- it fails. `tc` is the calling thread's cache, which is there; a call runs alone.
pub mod Classes
pub mod Blocks
pub mod Moves
pub mod Small
pub mod Refill
pub mod Attempts
pub mod Allocate
pub mod Medium
mod Tests
use code_knife.Prelude.{
  ℕ, zero, suc, ◌+◌, ◌-◌, ◌*◌, ◌/◌, ◌%◌, ◌^◌, ◌==◌, ltb, leb, if◌then◌else◌, Bool, true, false, not,
  ◌&&◌, ◌||◌, Option, none, some, List, [], ◌∷◌, ◌++◌, length,
}

abbrev pub size_classes : List ℕ
size_classes = 8 ∷ 16 ∷ 32 ∷ 64 ∷ 128 ∷ 256 ∷ 512 ∷ 1024 ∷ 2048 ∷ []

abbrev pub slab_size : ℕ
slab_size = 32768

-- sizeof(BlockHeader) on a 64-bit machine
abbrev pub block_header_size : ℕ
block_header_size = 32

pub record BlockHeader : Type 0 where
  pub size_class : ℕ
  pub owner : ℕ
  pub actual_size : ℕ

pub record SizeClassBin : Type 0 where
  pub private_list : List ℕ
  pub mailbox : List ℕ

pub record ThreadCache : Type 0 where
  pub bins : ℕ → SizeClassBin
  pub medium_cache : List (ℕ × ℕ)
  pub ref_count : ℕ
  pub dead : Bool
  pub alloc_count : ℕ
  pub free_count : ℕ

pub record Pool : Type 0 where
  pub headers : ℕ → BlockHeader
  pub caches : ℕ → ThreadCache
  pub cross_thread_frees : ℕ
  pub slab_refills : ℕ
  pub mailbox_drains : ℕ

-- FindSizeClass
pub find_class : ℕ → ℕ → List ℕ → ℕ
find_class size i [] = i
find_class size i (c ∷ cs) = let rest = find_class size (i + 1) cs in if leb size c then i else rest

pub find_size_class : ℕ → ℕ
unfolding find_class
find_size_class size = find_class (if size == 0 then 1 else size) 0 size_classes

abbrev pub class_size : ℕ → List ℕ → ℕ
class_size i [] = 0
class_size zero (c ∷ cs) = c
class_size (suc i) (c ∷ cs) = class_size i cs

module _ {A : Type 0} where
  abbrev pub set_at : ℕ → A → (ℕ → A) → ℕ → A
  set_at i a f j = if j == i then a else f j

abbrev pub with_cache : ℕ → ThreadCache → Pool → Pool
with_cache c cache p = record p { caches = set_at c cache p.caches }

abbrev pub with_bin : ℕ → SizeClassBin → ThreadCache → ThreadCache
with_bin k bin cache = record cache { bins = set_at k bin cache.bins }

-- The addresses of the blocks of a slab.
pub slab_blocks : ℕ → ℕ → ℕ → List ℕ
slab_blocks memory total zero = []
slab_blocks memory total (suc n) = memory ∷ slab_blocks (memory + total) total n

abbrev pub slab_of : ℕ → ℕ → List ℕ
slab_of memory k =
    let total = class_size k size_classes + block_header_size in
    slab_blocks memory total (slab_size / total)

-- The loop of RefillFromSlab: each block gets its header and goes to the front of the private list.
pub refill_blocks : ℕ → ℕ → List ℕ → Pool → Pool
refill_blocks tc k [] p = p
refill_blocks tc k (a ∷ as') p =
    let cache = p.caches tc in
    let bin = cache.bins k in
    refill_blocks tc k as' (
      with_cache tc (with_bin k (record bin { private_list = a ∷ bin.private_list }) cache)
        (record p {
          headers = set_at a (record (p.headers a) { size_class = k; owner = tc }) p.headers;
        }))

pub refill_from_slab : ℕ → ℕ → ℕ → Pool → Pool
unfolding refill_blocks slab_blocks
refill_from_slab tc k memory p =
    if memory == 0
    then p
    else let q = refill_blocks tc k (slab_of memory k) p in
      record q { slab_refills = q.slab_refills + 1 }

-- A block leaves a bin for the caller.
abbrev pub take_block : ℕ → ℕ → SizeClassBin → Pool → Pool
take_block tc k bin p =
    let cache = p.caches tc in
    with_cache tc
      (with_bin k bin (record cache {
        alloc_count = cache.alloc_count + 1;
        ref_count = (cache.ref_count + 1) % 2 ^ 64;
      }))
      p

-- The first attempt of AllocateSmall, and the last, from the private list.
pub take_private : ℕ → ℕ → Pool → Option (ℕ × Pool)
take_private tc k p =
    let bin = (p.caches tc).bins k in
    elim bin.private_list [
      | [] ↦ none
      | a ∷ rest ↦ some (a, take_block tc k (record bin { private_list = rest }) p)
    ]

-- The second attempt: the whole mailbox becomes the private list.
pub take_mailbox : ℕ → ℕ → Pool → Option (ℕ × Pool)
take_mailbox tc k p =
    let bin = (p.caches tc).bins k in
    elim bin.mailbox [
      | [] ↦ none
      | a ∷ rest ↦ some (
        a,
        take_block tc k (record { private_list = rest; mailbox = [] })
            (record p { mailbox_drains = p.mailbox_drains + 1 }),
      )
    ]

-- AllocateSmall; 0 is the null pointer.
pub allocate_small : ℕ → ℕ → ℕ → Pool → ℕ × Pool
unfolding take_private take_mailbox refill_from_slab
allocate_small tc size memory p =
    let k = find_size_class size in
    if leb 9 k then (0, p) else elim (take_private tc k p) [
      | some taken ↦ taken
      | none ↦ elim (take_mailbox tc k p) [
        | some taken ↦ taken
        | none ↦
            let refilled = refill_from_slab tc k memory p in
            elim (take_private tc k refilled) [ some taken ↦ taken | none ↦ (0, refilled) ]
      ]
    ]

-- The block goes to the front of the caller's private list.
abbrev pub keep_block : ℕ → ℕ → ℕ → Pool → Pool
keep_block tc k a p =
    let cache = p.caches tc in
    let bin = cache.bins k in
    with_cache tc
      (with_bin k (record bin { private_list = a ∷ bin.private_list })
        (record cache { free_count = cache.free_count + 1 }))
      p

-- A cache loses a reference; the counter is a 64-bit word.
abbrev pub release : ℕ → Pool → Pool
release c p =
    let cache = p.caches c in
    with_cache c (record cache { ref_count = (cache.ref_count + (2 ^ 64 - 1)) % 2 ^ 64 }) p

-- The block goes to the front of its owner's mailbox.
abbrev pub post_block : ℕ → ℕ → ℕ → Pool → Pool
post_block c k a p =
    let cache = p.caches c in
    let bin = cache.bins k in
    with_cache c (with_bin k (record bin { mailbox = a ∷ bin.mailbox }) cache) p

-- header->owner = tc
abbrev pub reown : ℕ → ℕ → Pool → Pool
reown tc a p = record p { headers = set_at a (record (p.headers a) { owner = tc }) p.headers }

-- DeallocateSmall, of a block that is not null.
pub deallocate_small : ℕ → ℕ → Pool → Pool
deallocate_small tc a p =
    let h = p.headers a in
    if h.owner == tc
    then release tc (keep_block tc h.size_class a p)
    else if (p.caches h.owner).dead
    then keep_block tc h.size_class a (reown tc a (release h.owner p))
    else post_block h.owner h.size_class a
        (release h.owner (record p { cross_thread_frees = p.cross_thread_frees + 1 }))

abbrev pub medium_object : ℕ
medium_object = 65534

abbrev pub medium_cache_size : ℕ
medium_cache_size = 8

-- The last of a list comes to its front.
abbrev pub last_first : {A : Type 0} → List A → List A
last_first [] = []
last_first (x ∷ xs) = elim (last_first xs) [ [] ↦ x ∷ [] | y ∷ ys ↦ y ∷ x ∷ ys ]

-- The search of AllocateMedium: the block that it takes, and the entries left, of which the last has
-- come to the block's place.
pub take_medium : ℕ → List (ℕ × ℕ) → Option (ℕ × List (ℕ × ℕ))
take_medium size [] = none
take_medium size ((a, s) ∷ entries) =
    let rest = take_medium size entries in
    if leb size s && ltb s (size * 2)
    then some (a, last_first entries)
    else elim rest [ none ↦ none | some (b, left) ↦ some (b, (a, s) ∷ left) ]

-- AllocateMedium; 0 is the null pointer.
pub allocate_medium : ℕ → ℕ → ℕ → Pool → ℕ × Pool
unfolding take_medium
allocate_medium tc size memory p =
    let cache = p.caches tc in
    elim (take_medium size cache.medium_cache) [
      | some (a, left) ↦ (
        a,
        with_cache tc (record cache { medium_cache = left; alloc_count = cache.alloc_count + 1 }) p,
      )
      | none ↦
          let h : BlockHeader = record {
            size_class = medium_object;
            owner = tc;
            actual_size = size;
          } in
          if memory == 0 then (0, p) else (
            memory,
            with_cache tc (record cache { alloc_count = cache.alloc_count + 1 })
                (record p { headers = set_at memory h p.headers }),
          )
    ]

-- DeallocateMedium, of a block that is not null; a block that is freed is gone.
pub deallocate_medium : ℕ → ℕ → Pool → Pool
deallocate_medium tc a p =
    let h = p.headers a in
    let cache = p.caches tc in
    let freed : ThreadCache = record cache { free_count = cache.free_count + 1 } in
    if not (h.owner == tc)
    then p
    else if ltb (length cache.medium_cache) medium_cache_size
    then with_cache tc
        (record freed { medium_cache = cache.medium_cache ++ ((a, h.actual_size) ∷ []) }) p
    else with_cache tc freed p
