-- ===== src/MemoryPool/Attempts.antt =====
-- The steps of AllocateSmall: taking a block from a list, and the refill.
use code_knife.Prelude.{
  ℕ, suc, ◌+◌, ◌≡◌, ◌<◌, ◌≤◌, ◌==◌, if◌then◌else◌, refl, ap, subst, ◌∙◌, sym, arith, true, false,
  ap₂, ◌&&◌, ◌^◌, ◌%◌, Option, none, some, List, [], ◌∷◌, inl, inr, ◌⊎◌, Bool-cases, ◌≢◌,
}
use code_knife.MemoryPool.{
  SizeClassBin, Pool, take_block, take_private, take_mailbox, refill_blocks, refill_from_slab,
  slab_of,
}
use code_knife.MemoryPool.Blocks.{occurrences, in_bin, IsSound, take_block-IsSound, bins_at}
use code_knife.MemoryPool.Refill.{
  IsFresh, refill_blocks-IsSound, refill_blocks-keeps, is_empty, refill_blocks-some, slab_of-some,
}

-- The block of an allocation that succeeded: it was not the program's, its header names the caller's
-- cache and the class, and no other block has left its bin.
pub record IsAllocated (tc k : ℕ) (out : List ℕ) (p : Pool) (r : ℕ × Pool) : Type 0 where
  new_block : occurrences r.0 out ≡ 0
  owner : (r.1.headers r.0).owner ≡ tc
  pub class : (r.1.headers r.0).size_class ≡ k
  pub sound : IsSound r.1 (r.0 ∷ out)
  keeps :
      (c j b : ℕ)
      → in_bin b ((p.caches c).bins j)
        ≤ in_bin b ((r.1.caches c).bins j) + (if r.0 == b then 1 else 0)

-- An attempt: none, of an empty list, or a block.
abbrev Attempt : ℕ → ℕ → List ℕ → Pool → Option (ℕ × Pool) → Type 0
Attempt tc k out p none = Unit {0}
Attempt tc k out p (some r) = IsAllocated tc k out p r

module _ (tc k : ℕ) (out : List ℕ) where
  taken :
      (a : ℕ) (bin : SizeClassBin) (p : Pool)
      → IsSound p out
      → ((b : ℕ)
          → in_bin b ((p.caches tc).bins k) ≡ (if a == b then suc (in_bin b bin) else in_bin b bin))
      → IsAllocated tc k out p (a, take_block tc k bin p)
  taken a bin p s e =
      let here : 0 < in_bin a ((p.caches tc).bins k) = ground (arith, e a) in
      let name = s.named tc k a here in
      let bins =
        bins_at tc k bin
          (record (p.caches tc) {
            alloc_count = (p.caches tc).alloc_count + 1;
            ref_count = ((p.caches tc).ref_count + 1) % 2 ^ 64;
          })
          p refl in
      record {
        new_block = omega (arith, here, s.placed tc k a);
        owner = name.0;
        class = name.1;
        sound = take_block-IsSound tc k a bin p out s e;
        keeps = λ c j b. elim (Bool-cases ((c == tc) && (j == k))) [
          | inr apart ↦ ground (arith, bins c j b, apart)
          | inl it ↦
              let at_c : tc ≡ c = ground (arith, it) in
              let at_j : k ≡ j = ground (arith, it) in
              let before : in_bin b ((p.caches tc).bins k) ≡ in_bin b ((p.caches c).bins j) =
                ap₂ (λ (d i : ℕ). in_bin b ((p.caches d).bins i)) at_c at_j in
              ground (arith, bins c j b, it, e b, before)
        ];
      }

  pub take_private-Attempt : (p : Pool) → IsSound p out → Attempt tc k out p (take_private tc k p)
  unfolding take_private
  take_private-Attempt p s = from ((p.caches tc).bins k).private_list refl
    where
      from :
          (list : List ℕ)
          → ((p.caches tc).bins k).private_list ≡ list
          → Attempt tc k out p (take_private tc k p)
      from [] e = rw (e, take_private) tt
      from (a ∷ rest) e =
          rw (e, take_private)
            (taken a (record ((p.caches tc).bins k) { private_list = rest }) p s
              (λ b.
                ap (λ (l : List ℕ). occurrences b l + occurrences b ((p.caches tc).bins k).mailbox)
                  e
                ∙ ground arith))

  pub private_empty :
      (p : Pool) → take_private tc k p ≡ none → ((p.caches tc).bins k).private_list ≡ []
  unfolding take_private
  private_empty p n = from ((p.caches tc).bins k).private_list refl
    where
      from :
          (list : List ℕ)
          → ((p.caches tc).bins k).private_list ≡ list
          → ((p.caches tc).bins k).private_list ≡ []
      from [] e = e
      from (a ∷ rest) e =
          let bin = record ((p.caches tc).bins k) { private_list = rest } in
          let found : take_private tc k p ≡ some (a, take_block tc k bin p) =
            rw (e, take_private) refl in
          ground (arith, n, found)

  pub take_mailbox-Attempt :
      (p : Pool)
      → IsSound p out
      → ((p.caches tc).bins k).private_list ≡ []
      → Attempt tc k out p (take_mailbox tc k p)
  unfolding take_mailbox
  take_mailbox-Attempt p s empty = from ((p.caches tc).bins k).mailbox refl
    where
      drained : (n : ℕ) → IsSound (record p { mailbox_drains = n }) out
      drained n = record { placed = s.placed; named = s.named; counted = s.counted }

      undrained :
          (n : ℕ) (r : ℕ × Pool)
          → IsAllocated tc k out (record p { mailbox_drains = n }) r
          → IsAllocated tc k out p r
      undrained n r i = record {
        new_block = i.new_block;
        owner = i.owner;
        class = i.class;
        sound = i.sound;
        keeps = i.keeps;
      }

      from :
          (list : List ℕ)
          → ((p.caches tc).bins k).mailbox ≡ list
          → Attempt tc k out p (take_mailbox tc k p)
      from [] e = rw (e, take_mailbox) tt
      from (a ∷ rest) e =
          rw (e, take_mailbox)
            (undrained (p.mailbox_drains + 1)
              (
                a,
                take_block tc k (record { private_list = rest; mailbox = [] })
                    (record p { mailbox_drains = p.mailbox_drains + 1 }),
              )
              (taken a (record { private_list = rest; mailbox = [] })
                (record p { mailbox_drains = p.mailbox_drains + 1 })
                (drained (p.mailbox_drains + 1))
                (λ b.
                  ap
                    (λ (l : List ℕ). occurrences b l + occurrences b ((p.caches tc).bins k).mailbox)
                    empty
                  ∙ ap (λ (l : List ℕ). occurrences b [] + occurrences b l) e
                  ∙ ground arith)))

  pub refilled-IsSound :
      (memory : ℕ) (p : Pool)
      → IsSound p out
      → ((memory == 0) ≡ false → IsFresh p out (slab_of memory k))
      → IsSound (refill_from_slab tc k memory p) out
  unfolding refill_from_slab
  refilled-IsSound memory p s fresh = elim (Bool-cases (memory == 0)) [
    | inl oom ↦ rw (oom, refill_from_slab) s
    | inr got ↦
        let q = refill_blocks-IsSound tc k (slab_of memory k) p out s (fresh got) in
        rw (got, refill_from_slab)
          (record { placed = q.placed; named = q.named; counted = q.counted })
  ]

  -- After a refill there is a block.
  pub refilled_some :
      (memory : ℕ) (p : Pool)
      → (memory == 0) ≡ false
      → k < 9
      → take_private tc k (refill_from_slab tc k memory p) ≢ none
  unfolding refill_from_slab
  refilled_some memory p got h e =
      let empty = private_empty (refill_from_slab tc k memory p) e in
      let has = refill_blocks-some tc k (slab_of memory k) p (inl (slab_of-some memory k h)) in
      let same : (((refill_from_slab tc k memory p).caches tc).bins k).private_list
          ≡ (((refill_blocks tc k (slab_of memory k) p).caches tc).bins k).private_list =
        rw (got, refill_from_slab) refl in
      let none_there = ap is_empty (sym same ∙ empty) in ground (arith, has, none_there)

  refilled-keeps :
      (memory : ℕ) (p : Pool) (c j b : ℕ)
      → in_bin b ((p.caches c).bins j)
        ≤ in_bin b (((refill_from_slab tc k memory p).caches c).bins j)
  unfolding refill_from_slab
  refilled-keeps memory p c j b = elim (Bool-cases (memory == 0)) [
    | inl oom ↦ rw (oom, refill_from_slab) (omega arith)
    | inr got ↦ rw (got, refill_from_slab) (refill_blocks-keeps tc k (slab_of memory k) p c j b)
  ]

  -- A block that was taken after the refill.
  pub IsAllocated-refilled :
      (memory : ℕ) (p : Pool) (r : ℕ × Pool)
      → IsAllocated tc k out (refill_from_slab tc k memory p) r
      → IsAllocated tc k out p r
  IsAllocated-refilled memory p r i = record {
    new_block = i.new_block;
    owner = i.owner;
    class = i.class;
    sound = i.sound;
    keeps = λ c j b. omega (arith, refilled-keeps memory p c j b, i.keeps c j b);
  }

  pub refill_null : (memory : ℕ) (p : Pool) → memory ≡ 0 → refill_from_slab tc k memory p ≡ p
  unfolding refill_from_slab
  refill_null memory p e =
      let oom : (memory == 0) ≡ true = ground (arith, e) in rw (oom, refill_from_slab) refl

  -- What AllocateSmall gives: a block, or, where malloc failed, the null pointer with nothing changed.
  abbrev pub IsResult : ℕ → Pool → ℕ × Pool → Type 0
  IsResult memory p r = IsAllocated tc k out p r ⊎ ((r.0 ≡ 0) × (memory ≡ 0) × (r.1 ≡ p))

  pub allocated :
      (p : Pool) (o : Option (ℕ × Pool)) (r : ℕ × Pool)
      → o ≡ some r
      → Attempt tc k out p o
      → IsAllocated tc k out p r
  allocated p o r e h = subst (Attempt tc k out p) e h
