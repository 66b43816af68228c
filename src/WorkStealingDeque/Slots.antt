-- ===== src/WorkStealingDeque/Slots.antt =====
-- Which items the slots of a ring hold, from a running index on.
use code_knife.Prelude.{
  ℕ, suc, ◌+◌, ◌-◌, ◌%◌, ◌^◌, ◌≤◌, ◌<◌, ◌≡◌, ◌≢◌, refl, sym, ap, ◌∙◌, arith, Option, none, some,
  List, [], ◌∷◌, ◌++◌, length, get_or, set, length-set, bit_and, get_or-set_self, get_or-set_ne,
}
use native.Mathlib.Nat.{mod-lt, one-le-pow, div-add-mod}
use code_knife.Prelude.Bits.{bit_and_mask}
use code_knife.WorkStealingDeque.{Buffer, load_slot, store_slot}

-- Two indices less than a ring's length apart fall on different slots.
pub mod-ne : (i j cap : ℕ) → i < j → j < i + cap → i % cap ≢ j % cap
mod-ne i j cap h k e = grind (arith, div-add-mod i cap, div-add-mod j cap)

module _ {ℓ} {A : Type ℓ} where
  -- A ring of a power of two slots.
  pub record IsRing (b : Buffer A) : Type ℓ where
    pub log : ℕ
    pub size : b.capacity ≡ 2 ^ log
    pub low_bits : b.mask ≡ 2 ^ log - 1
    pub filled : length b.slots ≡ b.capacity

  abbrev pub slot_at : Buffer A → ℕ → Option A
  slot_at b i = get_or b.slots (i % b.capacity) none

  -- The slots from index i on hold the items, in order.
  abbrev pub Holds : Buffer A → ℕ → List A → Type ℓ
  Holds b i [] = Unit
  Holds b i (x ∷ xs) = (slot_at b i ≡ some x) × Holds b (i + 1) xs

  mask_lem : (b : Buffer A) (i : ℕ) → IsRing b → bit_and i b.mask ≡ i % b.capacity
  mask_lem b i r =
      ap (bit_and i) r.low_bits ∙ bit_and_mask r.log i ∙ ap (λ (t : ℕ). i % t) (sym r.size)

  pub capacity-pos : (b : Buffer A) → IsRing b → 0 < b.capacity
  capacity-pos b r = omega (arith, one-le-pow r.log 2 (omega arith), r.size)

  pub load_slot_lem : (b : Buffer A) (i : ℕ) → IsRing b → load_slot b i ≡ slot_at b i
  unfolding load_slot
  load_slot_lem b i r = ap (λ (t : ℕ). get_or b.slots t none) (mask_lem b i r)

  pub store_slot-IsRing :
      (b : Buffer A) (i : ℕ) (v : Option A) → IsRing b → IsRing (store_slot b i v)
  unfolding store_slot
  store_slot-IsRing b i v r = record {
    log = r.log;
    size = r.size;
    low_bits = r.low_bits;
    filled = length-set b.slots (bit_and i b.mask) v ∙ r.filled;
  }

  pub capacity-store_slot :
      (b : Buffer A) (i : ℕ) (v : Option A) → (store_slot b i v).capacity ≡ b.capacity
  unfolding store_slot
  capacity-store_slot b i v = refl

  pub slot_at-store_self :
      (b : Buffer A) (i : ℕ) (v : Option A) → IsRing b → slot_at (store_slot b i v) i ≡ v
  unfolding store_slot
  slot_at-store_self b i v r =
      ap (λ (t : ℕ). get_or (set b.slots t v) (i % b.capacity) none) (mask_lem b i r)
      ∙ get_or-set_self b.slots (i % b.capacity) v none
          (omega (arith, r.filled, mod-lt i (capacity-pos b r)))

  pub slot_at-store_ne :
      (b : Buffer A) (i j : ℕ) (v : Option A)
      → IsRing b
      → i % b.capacity ≢ j % b.capacity
      → slot_at (store_slot b i v) j ≡ slot_at b j
  unfolding store_slot
  slot_at-store_ne b i j v r ne =
      ap (λ (t : ℕ). get_or (set b.slots t v) (j % b.capacity) none) (mask_lem b i r)
      ∙ get_or-set_ne b.slots (i % b.capacity) (j % b.capacity) v none ne

  -- A store to an index behind the items, less than a ring's length from the first.
  pub Holds-store_after :
      (b : Buffer A) (i j : ℕ) (v : Option A) (xs : List A)
      → IsRing b
      → i + length xs ≤ j
      → j < i + b.capacity
      → Holds b i xs
      → Holds (store_slot b j v) i xs
  Holds-store_after b i j v [] r p q h = tt
  Holds-store_after b i j v (x ∷ xs) r p q h = (
    slot_at-store_ne b j i v r (λ e. mod-ne i j b.capacity (omega arith) q (sym e)) ∙ h.0,
    Holds-store_after b (i + 1) j v xs r (omega arith) (omega arith) h.1,
  )

  -- A store to an index before the items, less than a ring's length from the last.
  pub Holds-store_before :
      (b : Buffer A) (i j : ℕ) (v : Option A) (xs : List A)
      → IsRing b
      → j < i
      → i + length xs ≤ j + b.capacity
      → Holds b i xs
      → Holds (store_slot b j v) i xs
  Holds-store_before b i j v [] r p q h = tt
  Holds-store_before b i j v (x ∷ xs) r p q h = (
    slot_at-store_ne b j i v r (mod-ne j i b.capacity p (omega arith)) ∙ h.0,
    Holds-store_before b (i + 1) j v xs r (omega arith) (omega arith) h.1,
  )

  pub Holds-snoc :
      (b : Buffer A) (i : ℕ) (xs : List A) (x : A)
      → Holds b i xs
      → slot_at b (i + length xs) ≡ some x
      → Holds b i (xs ++ x ∷ [])
  Holds-snoc b i [] x h e = (ap (slot_at b) {x = i} {y = i + 0} (omega arith) ∙ e, tt)
  Holds-snoc b i (y ∷ ys) x h e = (
    h.0,
    Holds-snoc b (i + 1) ys x h.1
        (ap (slot_at b) {x = i + 1 + length ys} {y = i + suc (length ys)} (omega arith) ∙ e),
  )

  pub Holds-last :
      (b : Buffer A) (i : ℕ) (xs : List A) (x : A)
      → Holds b i (xs ++ x ∷ [])
      → Holds b i xs × (slot_at b (i + length xs) ≡ some x)
  Holds-last b i [] x h = (tt, ap (slot_at b) {x = i + 0} {y = i} (omega arith) ∙ h.0)
  Holds-last b i (y ∷ ys) x h =
      let rest = Holds-last b (i + 1) ys x h.1 in
      (
        (h.0, rest.0),
        ap (slot_at b) {x = i + suc (length ys)} {y = i + 1 + length ys} (omega arith) ∙ rest.1,
      )
