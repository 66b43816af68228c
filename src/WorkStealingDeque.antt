-- ===== src/WorkStealingDeque.antt =====
-- include/util/work_stealing_deque.hpp: a Chase-Lev deque over a ring of slots that grows.
-- Each operation is written with its loads, stores and compare-exchanges in the source's order;
-- here they run with no other thread in between. A slot is a pointer, null or to an item.
pub mod Slots
pub mod Capacity
pub mod Grow
pub mod Refines
pub mod Run
mod Tests
use code_knife.Prelude.{
  ◌-◌, ℕ, zero, suc, ◌+◌, ◌-◌, ◌*◌, ◌%◌, ◌^◌, ◌==◌, ltb, leb, if◌then◌else◌, Bool, true, false, not,
  Option, none, some, List, [], ◌∷◌, get_or, set, replicate, bit_and,
}

-- size_t arithmetic
abbrev pub add_size : ℕ → ℕ → ℕ
add_size a b = (a + b) % 2 ^ 64

abbrev pub sub_size : ℕ → ℕ → ℕ
sub_size a b = (2 ^ 64 + a - b) % 2 ^ 64

abbrev pub mul_size : ℕ → ℕ → ℕ
mul_size a b = a * b % 2 ^ 64

pub record Buffer {ℓ} (A : Type ℓ) : Type ℓ where
  pub capacity : ℕ
  pub mask : ℕ
  pub slots : List (Option A)

pub record Deque {ℓ} (A : Type ℓ) : Type ℓ where
  pub top : ℕ
  pub bottom : ℕ
  pub buffer : Buffer A

-- while (normalized < capacity) normalized <<= 1, on fuel; `none` means that the fuel ran out.
pub double_until : ℕ → ℕ → ℕ → Option ℕ
double_until zero normalized capacity = none
double_until (suc fuel) normalized capacity =
    let again = double_until fuel (mul_size normalized 2) capacity in
    if ltb normalized capacity then again else some normalized

-- A doubling 64 times leaves no bit of a 64-bit word.
pub normalize_capacity : ℕ → Option ℕ
unfolding double_until
normalize_capacity requested = double_until 65 1 (if ltb requested 2 then 2 else requested)

-- compare_exchange_strong(expected, desired): whether it stored, and the new value.
abbrev pub compare_exchange : ℕ → ℕ → ℕ → Bool × ℕ
compare_exchange current expected desired =
    if current == expected then (true, desired) else (false, current)

-- while (bottom - top >= new_capacity - 1) new_capacity *= 2, on fuel.
pub double_beyond : ℕ → ℕ → ℕ → ℕ
double_beyond zero new_capacity count = new_capacity
double_beyond (suc fuel) new_capacity count =
    let again = double_beyond fuel (mul_size new_capacity 2) count in
    if leb (sub_size new_capacity 1) count then again else new_capacity

module _ {ℓ} {A : Type ℓ} where
  pub new_buffer : ℕ → Buffer A
  new_buffer size = record { capacity = size; mask = sub_size size 1; slots = replicate size none }

  pub load_slot : Buffer A → ℕ → Option A
  load_slot b index = get_or b.slots (bit_and index b.mask) none

  pub store_slot : Buffer A → ℕ → Option A → Buffer A
  store_slot b index item = record b { slots = set b.slots (bit_and index b.mask) item }

  -- for (index = top; index < bottom; ++index); the first argument counts the rounds, none where bottom
  -- is below top.
  pub copy_slots : ℕ → ℕ → Buffer A → Buffer A → Buffer A
  copy_slots zero index current expanded = expanded
  copy_slots (suc left) index current expanded =
      copy_slots left (add_size index 1) current
        (store_slot expanded index (load_slot current index))

  pub grow : Buffer A → ℕ → ℕ → Buffer A
  grow current top bottom =
      copy_slots (bottom - top) top current
        (new_buffer (double_beyond 64 (mul_size current.capacity 2) (sub_size bottom top)))

  -- The constructor; `none` where the loop over the capacity does not end.
  pub create : ℕ → Option (Deque A)
  create initial_capacity = elim (normalize_capacity initial_capacity) [
    | none ↦ none
    | some capacity ↦ some (record { top = 0; bottom = 0; buffer = new_buffer capacity })
  ]

  pub push_bottom : A → Deque A → Deque A
  push_bottom value d =
      let current =
        if leb (sub_size d.buffer.capacity 1) (sub_size d.bottom d.top)
        then grow d.buffer d.top d.bottom
        else d.buffer in
      record d { buffer = store_slot current d.bottom (some value); bottom = add_size d.bottom 1 }

  -- What follows once an item is taken: clear its slot and hand it out.
  pub take_slot : Deque A → ℕ → Option A → Option A × Deque A
  take_slot d index item = (item, record d { buffer = store_slot d.buffer index none })

  pub pop_bottom : Deque A → Option A × Deque A
  unfolding take_slot
  pop_bottom d =
      if d.bottom == 0
      then (none, d)
      else let bottom = d.bottom - 1 in
        if ltb bottom d.top
        then (none, record d { bottom = add_size bottom 1 })
        else let item = load_slot d.buffer bottom in
          if d.top == bottom
          then (let (won, top') = compare_exchange d.top d.top (add_size d.top 1) in
              let restored = record d { top = top'; bottom = add_size bottom 1 } in
              if not won then (none, restored) else take_slot restored bottom item)
          else take_slot (record d { bottom = bottom }) bottom item

  pub steal_top : Deque A → Option A × Deque A
  unfolding take_slot
  steal_top d =
      if leb d.bottom d.top
      then (none, d)
      else let item = load_slot d.buffer d.top in
        let (won, top') = compare_exchange d.top d.top (add_size d.top 1) in
        if not won then (none, d) else take_slot (record d { top = top' }) d.top item

  pub is_empty : Deque A → Bool
  is_empty d = leb d.bottom d.top

  pub capacity : Deque A → ℕ
  capacity d = d.buffer.capacity
