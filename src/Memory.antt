-- ===== src/Memory.antt =====
-- Byte-addressed memory: `memcpy` into it and out of it.
use code_knife.Prelude.{
  ℕ, zero, suc, ◌+◌, ◌-◌, ◌≤◌, ◌<◌, ◌≡◌, ltb, leb, if◌then◌else◌, refl, sym, ap, ap₂, ◌∙◌, arith,
  ◌⊎◌, ◌&&◌, List, [], ◌∷◌, ◌++◌, length, get_or, get_or-append_left, get_or-append_right,
  length-append,
}
use mathlib.Core.Path.{fun_ext}

abbrev pub Memory : Type 0
Memory = ℕ → ℕ

-- memcpy(memory + at, bytes, length)
unfoldable pub write : Memory → ℕ → List ℕ → Memory
write memory at bytes i =
    if leb at i && ltb i (at + length bytes) then get_or bytes (i - at) 0 else memory i

-- memcpy(out, memory + at, n)
unfoldable pub read : Memory → ℕ → ℕ → List ℕ
read memory at zero = []
read memory at (suc n) = memory at ∷ read memory (at + 1) n

pub length-read : (m : Memory) (at n : ℕ) → length (read m at n) ≡ n
unfolding read
length-read m at zero = refl
length-read m at (suc n) = ap suc (length-read m (at + 1) n)

pub get_or-read : (m : Memory) (at n i : ℕ) → i < n → get_or (read m at n) i 0 ≡ m (at + i)
unfolding read
get_or-read m at zero i h = elim h [ ]
get_or-read m at (suc n) zero h = ap m {x = at} {y = at + zero} (omega arith)
get_or-read m at (suc n) (suc i) h =
    get_or-read m (at + 1) n i (omega arith) ∙ ap m {x = at + 1 + i} {y = at + suc i} (omega arith)

-- A read depends on the bytes that it covers.
pub read_ext :
    (m m' : Memory) (at at' n : ℕ)
    → ((i : ℕ) → i < n → m (at + i) ≡ m' (at' + i))
    → read m at n ≡ read m' at' n
unfolding read
read_ext m m' at at' zero h = refl
read_ext m m' at at' (suc n) h =
    ap₂ ◌∷◌
      (ap m {x = at} {y = at + 0} (omega arith)
        ∙ h 0 (omega arith)
        ∙ ap m' {x = at' + 0} {y = at'} (omega arith))
      (read_ext m m' (at + 1) (at' + 1) n (λ i p.
        ap m {x = at + 1 + i} {y = at + suc i} (omega arith)
        ∙ h (suc i) (omega arith)
        ∙ ap m' {x = at' + suc i} {y = at' + 1 + i} (omega arith)))

pub read-append : (m : Memory) (at k n : ℕ) → read m at (k + n) ≡ read m at k ++ read m (at + k) n
unfolding read
read-append m at zero n =
    let e : 0 + n ≡ n = omega arith in
    let e' : at ≡ at + 0 = omega arith in ap (read m at) e ∙ ap (λ (t : ℕ). read m t n) e'
read-append m at (suc k) n =
    let e : suc k + n ≡ suc (k + n) = omega arith in
    let e' : at + 1 + k ≡ at + suc k = omega arith in
    ap (read m at) e
    ∙ ap (◌∷◌ (m at))
        (read-append m (at + 1) k n ∙ ap (λ (t : ℕ). read m (at + 1) k ++ read m t n) e')

-- Two writes side by side are one.
pub write-append :
    (m : Memory) (at : ℕ) (xs ys : List ℕ)
    → write (write m at xs) (at + length xs) ys ≡ write m at (xs ++ ys)
unfolding write
write-append m at xs ys = fun_ext (λ i. ground (
  arith,
  length-append xs ys,
  get_or-append_left xs ys (i - at) 0,
  get_or-append_right xs ys (i - (at + length xs)) 0,
  index i,
))
  where
    index : (i : ℕ) → at + length xs ≤ i → i - at ≡ length xs + (i - (at + length xs))
    index i h = omega arith

write_head : (m : Memory) (at b : ℕ) (bs : List ℕ) → write m at (b ∷ bs) at ≡ b
unfolding write
write_head m at b bs =
    let e : at - at ≡ 0 = omega arith in
    let first = ap (λ (t : ℕ). get_or (b ∷ bs) t 0) e in ground (arith, first)

-- What was written is read back.
pub read-write_self :
    (m : Memory) (at : ℕ) (bytes : List ℕ) → read (write m at bytes) at (length bytes) ≡ bytes
unfolding read
read-write_self m at [] = refl
read-write_self m at (b ∷ bs) = ap₂ ◌∷◌ (write_head m at b bs) (
    ap (λ (f : Memory). read f (at + 1) (length bs)) (sym (write-append m at (b ∷ []) bs))
    ∙ read-write_self (write m at (b ∷ [])) (at + 1) bs)

-- A read beside what was written.
pub read-write_apart :
    (m : Memory) (at : ℕ) (bytes : List ℕ) (from n : ℕ)
    → (from + n ≤ at) ⊎ (at + length bytes ≤ from)
    → read (write m at bytes) from n ≡ read m from n
unfolding write
read-write_apart m at bytes from n h =
    read_ext (write m at bytes) m from from n (λ i p. ground arith)
