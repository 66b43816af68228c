-- ===== src/WorkStealingDeque/Grow.antt =====
-- What it means for a deque to hold a list of items, and that `grow` keeps them and makes room.
use code_knife.Prelude.{
  ◌-◌, ap₂, ℕ, suc, ◌+◌, ◌^◌, ◌≤◌, ◌<◌, ◌≡◌, refl, sym, ap, subst, ◌∙◌, arith, Option, some, List,
  [], ◌∷◌, ◌++◌, length, length-append, append-nil, append_assoc,
}
use native.Mathlib.Nat.{pow-suc}
use code_knife.WorkStealingDeque.{
  Buffer, Deque, add_size, sub_size, mul_size, new_buffer, load_slot, store_slot, double_beyond,
  copy_slots, grow,
}
use code_knife.WorkStealingDeque.Slots.{
  IsRing, Holds, slot_at, load_slot_lem, store_slot-IsRing, capacity-store_slot, slot_at-store_self,
  Holds-store_after, Holds-snoc, capacity-pos,
}
use code_knife.WorkStealingDeque.Capacity.{new_buffer-IsRing, log_le, double_beyond_stop}

module _ {A : Type 0} where
  -- The deque holds the items, oldest first. No index has come near the end of a word, and one
  -- slot stays free.
  pub record Represents (d : Deque A) (xs : List A) : Type 0 where
    pub ring : IsRing d.buffer
    pub span : d.bottom ≡ d.top + length xs
    pub room : length xs < d.buffer.capacity
    pub small : d.buffer.capacity ≤ 2 ^ 62
    pub in_word : d.bottom < 2 ^ 63
    pub items : Holds d.buffer d.top xs

  -- What the copy loop leaves: the items at the same indices, in the larger ring.
  pub record IsCopy (i : ℕ) (xs : List A) (cap : ℕ) (b : Buffer A) : Type 0 where
    pub copied : Holds b i xs
    pub is_ring : IsRing b
    pub same_size : b.capacity ≡ cap

  copy_slots-IsCopy :
      (current expanded : Buffer A) (i j : ℕ) (done xs : List A)
      → IsRing current
      → IsRing expanded
      → j ≡ i + length done
      → j + length xs < 2 ^ 63
      → length done + length xs < expanded.capacity
      → Holds current j xs
      → Holds expanded i done
      → IsCopy i (done ++ xs) expanded.capacity (copy_slots (length xs) j current expanded)
  unfolding copy_slots
  copy_slots-IsCopy current expanded i j done [] rc re e w r h k = record {
    copied = subst (Holds expanded i) (sym (append-nil done)) k;
    is_ring = re;
    same_size = refl;
  }
  copy_slots-IsCopy current expanded i j done (x ∷ xs) rc re e w r h k =
      subst (λ (b : Buffer A). IsCopy i (done ++ x ∷ xs) expanded.capacity b)
        (sym (
          ap
            (λ (n : ℕ).
              copy_slots (length xs) n current (store_slot expanded j (load_slot current j)))
            next
          ∙ ap (λ (v : Option A). copy_slots (length xs) (j + 1) current (store_slot expanded j v))
              (load_slot_lem current j rc ∙ h.0)))
        (subst
          (λ (ys : List A).
            IsCopy i ys expanded.capacity (copy_slots (length xs) (j + 1) current after))
          (append_assoc done (x ∷ []) xs)
          (subst
            (λ (c : ℕ).
              IsCopy i ((done ++ x ∷ []) ++ xs) c (copy_slots (length xs) (j + 1) current after))
            same
            (copy_slots-IsCopy current after i (j + 1) (done ++ x ∷ []) xs rc
              (store_slot-IsRing expanded j (some x) re)
              (omega (arith, length-append done (x ∷ []), e)) (omega arith)
              (omega (arith, length-append done (x ∷ []), same)) h.1 grown)))
    where
      after : Buffer A
      after = store_slot expanded j (some x)

      same : after.capacity ≡ expanded.capacity
      same = capacity-store_slot expanded j (some x)

      next : add_size j 1 ≡ j + 1
      next = omega arith

      grown : Holds after i (done ++ x ∷ [])
      grown =
          Holds-snoc after i done x
            (Holds-store_after expanded i j (some x) done re (omega arith) (omega arith) k)
            (ap (slot_at after) (sym e) ∙ slot_at-store_self expanded j (some x) re)

  -- A ring with room for one more item.
  pub record IsRoomy (i : ℕ) (xs : List A) (b : Buffer A) : Type 0 where
    pub sound : IsRing b
    pub free : length xs + 1 < b.capacity
    pub bounded : b.capacity ≤ 2 ^ 62
    pub kept : Holds b i xs

  pub grow-IsRoomy :
      (d : Deque A) (xs : List A)
      → Represents d xs
      → d.bottom < 2 ^ 60
      → d.buffer.capacity ≤ length xs + 1
      → IsRoomy d.top xs (grow d.buffer d.top d.bottom)
  unfolding grow
  grow-IsRoomy d xs r w full =
      subst (IsRoomy d.top xs)
        (sym (
          ap₂
            (λ (m n : ℕ).
              copy_slots m d.top d.buffer (new_buffer (double_beyond 64 (mul_size cap 2) n)))
            rounds count
          ∙ ap (λ (n : ℕ). copy_slots (length xs) d.top d.buffer (new_buffer n)) doubled))
        (record {
          sound = made.is_ring;
          free = omega (
            arith,
            made.same_size,
            capacity-new_buffer (2 ^ suc r.ring.log),
            pow-suc 2 r.ring.log,
            r.ring.size,
            r.room,
            capacity-pos d.buffer r.ring,
          );
          bounded = omega (
            arith,
            made.same_size,
            capacity-new_buffer (2 ^ suc r.ring.log),
            pow-suc 2 r.ring.log,
            r.ring.size,
            r.span,
          );
          kept = made.copied;
        })
    where
      cap : ℕ
      cap = d.buffer.capacity

      rounds : d.bottom - d.top ≡ length xs
      rounds = omega (arith, r.span)

      count : sub_size d.bottom d.top ≡ length xs
      count = omega (arith, r.span, r.in_word)

      doubled : double_beyond 64 (mul_size cap 2) (length xs) ≡ 2 ^ suc r.ring.log
      doubled =
          let e : mul_size cap 2 ≡ 2 ^ suc r.ring.log =
            omega (arith, r.ring.size, r.small, pow-suc 2 r.ring.log) in
          ap (λ (n : ℕ). double_beyond 64 n (length xs)) e
          ∙ double_beyond_stop 63 (2 ^ suc r.ring.log) (length xs)
              (omega (arith, r.ring.size, r.small, r.room, pow-suc 2 r.ring.log))

      capacity-new_buffer : (n : ℕ) → (new_buffer {A = A} n).capacity ≡ n
      capacity-new_buffer n = unfold new_buffer in refl

      log_small : suc r.ring.log ≤ 63
      log_small = omega (arith, log_le r.ring.log (omega (arith, r.ring.size, r.small)))

      made :
          IsCopy d.top xs
            (new_buffer {A = A} (2 ^ suc r.ring.log)).capacity
            (copy_slots (length xs) d.top d.buffer (new_buffer (2 ^ suc r.ring.log)))
      made =
          copy_slots-IsCopy d.buffer (new_buffer (2 ^ suc r.ring.log)) d.top d.top [] xs r.ring
            (new_buffer-IsRing A (suc r.ring.log) log_small) (omega arith)
            (omega (arith, r.span, r.in_word))
            (omega (
              arith,
              capacity-new_buffer (2 ^ suc r.ring.log),
              pow-suc 2 r.ring.log,
              r.ring.size,
              r.room,
            ))
            r.items tt
