-- ===== src/WorkStealingDeque/Refines.antt =====
-- Calls one after another: the deque is the list of its items, pushed and popped at one end and
-- stolen at the other.
use code_knife.Prelude.{
  ◌+◌, ◌-◌, ◌^◌, ◌==◌, ◌<◌, ◌≡◌, leb, if◌then◌else◌, sym, ap, subst, ◌∙◌, arith, false, Bool-cases,
  inl, inr, Option, none, some, List, [], ◌∷◌, ◌++◌, length, length-append,
}
use code_knife.WorkStealingDeque.{
  Buffer, Deque, sub_size, load_slot, store_slot, grow, push_bottom, pop_bottom, steal_top,
}
use code_knife.WorkStealingDeque.Slots.{
  Holds, slot_at, load_slot_lem, store_slot-IsRing, capacity-store_slot, slot_at-store_self,
  Holds-store_after, Holds-store_before, Holds-snoc, Holds-last,
}
use code_knife.WorkStealingDeque.Grow.{Represents, IsRoomy, grow-IsRoomy}

module _ {A : Type 0} where
  -- A push below position 2^60 adds the item behind the others, growing the ring where it is
  -- full.
  pub push_bottom_lem :
      (d : Deque A) (xs : List A) (value : A)
      → Represents d xs
      → d.bottom < 2 ^ 60
      → Represents (push_bottom value d) (xs ++ value ∷ [])
  unfolding push_bottom
  push_bottom_lem d xs value r w = record {
    ring = store_slot-IsRing current d.bottom (some value) now.sound;
    span = omega (arith, length-append xs (value ∷ []), r.span);
    room = omega (arith, length-append xs (value ∷ []), same, now.free);
    small = omega (arith, same, now.bounded);
    in_word = omega arith;
    items =
        Holds-snoc (store_slot current d.bottom (some value)) d.top xs value
          (Holds-store_after current d.top d.bottom (some value) xs now.sound
            (omega (arith, r.span)) (omega (arith, r.span, now.free)) now.kept)
          (ap (slot_at (store_slot current d.bottom (some value))) (sym r.span)
            ∙ slot_at-store_self current d.bottom (some value) now.sound);
  }
    where
      current : Buffer A
      current =
          if leb (sub_size d.buffer.capacity 1) (sub_size d.bottom d.top)
          then grow d.buffer d.top d.bottom
          else d.buffer

      room :
          leb (sub_size d.buffer.capacity 1) (sub_size d.bottom d.top) ≡ false
          → length xs + 1 < d.buffer.capacity
      room free = ground (arith, r.span, r.in_word, r.small, r.room)

      now : IsRoomy d.top xs current
      now = elim (Bool-cases (leb (sub_size d.buffer.capacity 1) (sub_size d.bottom d.top))) [
        | inl full ↦ simp full (grow-IsRoomy d xs r w (ground (arith, r.span, r.in_word, r.small)))
        | inr free ↦
            simp free
              (record { sound = r.ring; free = room free; bounded = r.small; kept = r.items })
      ]

      same : (store_slot current d.bottom (some value)).capacity ≡ current.capacity
      same = capacity-store_slot current d.bottom (some value)

  -- A pop takes the youngest item; from an empty deque it takes nothing and changes nothing.
  pub pop_bottom_lem :
      (d : Deque A) (xs : List A) (x : A)
      → Represents d (xs ++ x ∷ [])
      → ((pop_bottom d).0 ≡ some x) × Represents (pop_bottom d).1 xs
  unfolding pop_bottom
  pop_bottom_lem d xs x r = (
    ap (λ (p : Option A × Deque A). p.0) result,
    subst (λ (p : Option A × Deque A). Represents p.1 xs) (sym result) left,
  )
    where
      held : Holds d.buffer d.top xs × (slot_at d.buffer (d.top + length xs) ≡ some x)
      held = Holds-last d.buffer d.top xs x r.items

      count : d.bottom ≡ d.top + length xs + 1
      count = omega (arith, r.span, length-append xs (x ∷ []))

      index : d.bottom - 1 ≡ d.top + length xs
      index = omega (arith, count)

      item : load_slot d.buffer (d.bottom - 1) ≡ some x
      item =
          ap (load_slot d.buffer) index ∙ load_slot_lem d.buffer (d.top + length xs) r.ring ∙ held.1

      cleared : Buffer A
      cleared = store_slot d.buffer (d.bottom - 1) none

      after : Deque A
      after =
          if d.top == d.bottom - 1
          then record { top = d.top + 1; bottom = d.bottom; buffer = cleared }
          else record { top = d.top; bottom = d.bottom - 1; buffer = cleared }

      result : pop_bottom d ≡ (some x, after)
      result = ground (arith, item, count, r.in_word)

      same : cleared.capacity ≡ d.buffer.capacity
      same = capacity-store_slot d.buffer (d.bottom - 1) none

      none_left : (ys : List A) → length ys ≡ 0 → Holds cleared (d.top + 1) ys
      none_left [] e = tt
      none_left (y ∷ ys) e = absurd (omega arith)

      left : Represents after xs
      left = elim (Bool-cases (d.top == d.bottom - 1)) [
        | inl last ↦ simp last (record {
          ring = store_slot-IsRing d.buffer (d.bottom - 1) none r.ring;
          span = ground (arith, count);
          room = omega (arith, same, r.room, length-append xs (x ∷ []));
          small = omega (arith, same, r.small);
          in_word = r.in_word;
          items = none_left xs (ground (arith, count));
        })
        | inr more ↦ simp more (record {
          ring = store_slot-IsRing d.buffer (d.bottom - 1) none r.ring;
          span = index;
          room = omega (arith, same, r.room, length-append xs (x ∷ []));
          small = omega (arith, same, r.small);
          in_word = omega (arith, r.in_word);
          items =
              Holds-store_after d.buffer d.top (d.bottom - 1) none xs r.ring (omega (arith, index))
                (omega (arith, index, r.room, length-append xs (x ∷ []))) held.0;
        })
      ]

  pub pop_bottom_empty : (d : Deque A) → Represents d [] → pop_bottom d ≡ (none, d)
  unfolding pop_bottom
  pop_bottom_empty d r = ground (arith, r.span, r.in_word)

  -- A steal takes the oldest item; from an empty deque it takes nothing and changes nothing.
  pub steal_top_lem :
      (d : Deque A) (x : A) (xs : List A)
      → Represents d (x ∷ xs)
      → ((steal_top d).0 ≡ some x) × Represents (steal_top d).1 xs
  unfolding steal_top
  steal_top_lem d x xs r = (
    ap (λ (p : Option A × Deque A). p.0) result,
    subst (λ (p : Option A × Deque A). Represents p.1 xs) (sym result) left,
  )
    where
      item : load_slot d.buffer d.top ≡ some x
      item = load_slot_lem d.buffer d.top r.ring ∙ r.items.0

      cleared : Buffer A
      cleared = store_slot d.buffer d.top none

      after : Deque A
      after = record { top = d.top + 1; bottom = d.bottom; buffer = cleared }

      same : cleared.capacity ≡ d.buffer.capacity
      same = capacity-store_slot d.buffer d.top none

      result : steal_top d ≡ (some x, after)
      result = ground (arith, item, r.span, r.in_word)

      left : Represents after xs
      left = record {
        ring = store_slot-IsRing d.buffer d.top none r.ring;
        span = omega (arith, r.span);
        room = omega (arith, same, r.room);
        small = omega (arith, same, r.small);
        in_word = r.in_word;
        items =
            Holds-store_before d.buffer (d.top + 1) d.top none xs r.ring (omega arith)
              (omega (arith, r.room)) r.items.1;
      }

  pub steal_top_empty : (d : Deque A) → Represents d [] → steal_top d ≡ (none, d)
  unfolding steal_top
  steal_top_empty d r = ground (arith, r.span)
