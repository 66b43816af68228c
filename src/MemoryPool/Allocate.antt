-- ===== src/MemoryPool/Allocate.antt =====
-- AllocateSmall: a block that the program does not have yet, or the null pointer.
use code_knife.Prelude.{
  ℕ, ◌≡◌, ◌<◌, ◌≤◌, ◌==◌, leb, refl, arith, false, List, inl, inr, Bool-cases, Option-cases,
}
use code_knife.MemoryPool.{
  Pool, size_classes, class_size, find_size_class, take_private, take_mailbox, refill_from_slab,
  slab_of, allocate_small,
}
use code_knife.MemoryPool.Classes.{find_size_class_lem}
use code_knife.MemoryPool.Blocks.{IsSound}
use code_knife.MemoryPool.Refill.{IsFresh}
use code_knife.MemoryPool.Attempts.{
  take_private-Attempt, private_empty, take_mailbox-Attempt, refilled-IsSound, refilled_some,
  IsAllocated-refilled, refill_null, IsResult, allocated,
}

-- AllocateSmall of a size from 1 to 2048, in any state in which each block has its place, and where
-- the slab that malloc may give is new memory: it returns a block that the program does not have, of
-- the caller's cache and of the class of the size, which the size fits in; no other block leaves its
-- bin, and the blocks, headers and reference counts are right again. Only where malloc fails may it
-- return null, and then nothing has changed.
pub allocate_small_lem :
    (tc size memory : ℕ) (p : Pool) (out : List ℕ)
    → 0 < size
    → size ≤ 2048
    → IsSound p out
    → ((memory == 0) ≡ false → IsFresh p out (slab_of memory (find_size_class size)))
    → IsResult tc (find_size_class size) out memory p (allocate_small tc size memory p)
      × (size ≤ class_size (find_size_class size) size_classes)
unfolding allocate_small
allocate_small_lem tc size memory p out pos h s fresh =
    let k = find_size_class size in
    let class = (find_size_class_lem size pos).0 h in
    let small : leb 9 k ≡ false = ground (arith, class.0) in
    let refilled = refill_from_slab tc k memory p in
    (
      elim (Option-cases (take_private tc k p)) [
        | inr (r, e) ↦
            rw (small, e, allocate_small)
              (inl (
                allocated tc k out p (take_private tc k p) r e (take_private-Attempt tc k out p s)))
        | inl none_private ↦
            let mail = take_mailbox-Attempt tc k out p s (private_empty tc k out p none_private) in
            elim (Option-cases (take_mailbox tc k p)) [
              | inr (r, e) ↦
                  rw (small, none_private, e, allocate_small)
                    (inl (allocated tc k out p (take_mailbox tc k p) r e mail))
              | inl none_mail ↦
                  let sound = refilled-IsSound tc k out memory p s fresh in
                  elim (Option-cases (take_private tc k refilled)) [
                    | inr (r, e) ↦
                        rw (small, none_private, none_mail, e, allocate_small)
                          (inl (
                            IsAllocated-refilled tc k out memory p r (
                              allocated tc k out refilled (take_private tc k refilled) r e
                                (take_private-Attempt tc k out refilled sound))))
                    | inl none_left ↦
                        let failed : memory ≡ 0 = elim (Bool-cases (memory == 0)) [
                          | inl oom ↦ ground (arith, oom)
                          | inr got ↦
                              elim (refilled_some tc k out memory p got class.0 none_left) [ ]
                        ] in
                        rw (small, none_private, none_mail, none_left, allocate_small)
                          (inr (refl, failed, refill_null tc k out memory p failed))
                  ]
            ]
      ],
      class.1,
    )
