-- ===== src/IpcSharedMemory/Ring.antt =====
-- The ring of bytes: reads and writes that go round the end, against one circular read.
use code_knife.Prelude.{
  ℕ, zero, suc, ◌+◌, ◌-◌, ◌%◌, ◌≤◌, ◌<◌, ◌≡◌, ltb, if◌then◌else◌, refl, sym, ap, ap₂, ◌∙◌, arith,
  Bool-cases, inl, inr, List, [], ◌∷◌, ◌++◌, length, get_or, none, some,
}
use code_knife.Memory.{Memory, write, read, length-read, get_or-read, read-write_self}
use code_knife.IpcPacket.{IpcPacket}
use code_knife.IpcPacket.Wire.{IsSound, wire, length-wire, serialize_lem}
use code_knife.IpcSharedMemory.{shm_buffer_size, read_ring, write_ring}

-- n bytes from a position on, going round at the end of the buffer.
unfoldable pub circular : Memory → ℕ → ℕ → List ℕ
circular m pos zero = []
circular m pos (suc n) = m (pos % shm_buffer_size) ∷ circular m (pos + 1) n

pub length-circular : (m : Memory) (pos n : ℕ) → length (circular m pos n) ≡ n
unfolding circular
length-circular m pos zero = refl
length-circular m pos (suc n) = ap suc (length-circular m (pos + 1) n)

pub circular_ext :
    (m m' : Memory) (pos pos' n : ℕ)
    → ((i : ℕ) → i < n → m ((pos + i) % shm_buffer_size) ≡ m' ((pos' + i) % shm_buffer_size))
    → circular m pos n ≡ circular m' pos' n
unfolding circular
circular_ext m m' pos pos' zero h = refl
circular_ext m m' pos pos' (suc n) h =
    ap₂ ◌∷◌
      (ap (λ (t : ℕ). m (t % shm_buffer_size)) {x = pos} {y = pos + 0} (omega arith)
        ∙ h 0 (omega arith)
        ∙ ap (λ (t : ℕ). m' (t % shm_buffer_size)) {x = pos' + 0} {y = pos'} (omega arith))
      (circular_ext m m' (pos + 1) (pos' + 1) n (λ i p.
        ap (λ (t : ℕ). m (t % shm_buffer_size)) {x = pos + 1 + i} {y = pos + suc i} (omega arith)
        ∙ h (suc i) (omega arith)
        ∙ ap (λ (t : ℕ). m' (t % shm_buffer_size)) {x = pos' + suc i} {y = pos' + 1 + i}
            (omega arith)))

-- A position counts modulo the size.
pub circular_mod :
    (m : Memory) (pos n : ℕ) → circular m (pos % shm_buffer_size) n ≡ circular m pos n
circular_mod m pos n = circular_ext m m (pos % shm_buffer_size) pos n (λ i p.
    ap m {x = (pos % shm_buffer_size + i) % shm_buffer_size} {y = (pos + i) % shm_buffer_size}
      (omega arith))

pub circular-append :
    (m : Memory) (pos k n : ℕ) → circular m pos (k + n) ≡ circular m pos k ++ circular m (pos + k) n
unfolding circular
circular-append m pos zero n =
    let e : 0 + n ≡ n = omega arith in
    let e' : pos ≡ pos + 0 = omega arith in
    ap (circular m pos) e ∙ ap (λ (t : ℕ). circular m t n) e'
circular-append m pos (suc k) n =
    let e : suc k + n ≡ suc (k + n) = omega arith in
    let e' : pos + 1 + k ≡ pos + suc k = omega arith in
    ap (circular m pos) e
    ∙ ap (◌∷◌ (m (pos % shm_buffer_size))) (
        circular-append m (pos + 1) k n
        ∙ ap (λ (t : ℕ). circular m (pos + 1) k ++ circular m t n) e')

-- Short of the end a circular read is a read.
circular-read :
    (m : Memory) (pos n : ℕ) → pos + n ≤ shm_buffer_size → circular m pos n ≡ read m pos n
unfolding circular read
circular-read m pos zero h = refl
circular-read m pos (suc n) h =
    ap₂ ◌∷◌ (ap m {x = pos % shm_buffer_size} {y = pos} (omega arith))
      (circular-read m (pos + 1) n (omega arith))

-- The code's read in one or two pieces is the circular read.
pub read_ring_lem :
    (m : Memory) (pos n : ℕ)
    → pos < shm_buffer_size
    → n ≤ shm_buffer_size
    → read_ring m pos n ≡ circular m pos n
unfolding read_ring
read_ring_lem m pos n p q = elim (Bool-cases (ltb shm_buffer_size (pos + n))) [
  | inr whole ↦ simp whole (sym (circular-read m pos n (ground arith)))
  | inl split ↦
      let first = shm_buffer_size - pos in
      let total : n ≡ first + (n - first) = ground arith in
      simp split (
        sym (
          ap (circular m pos) total
          ∙ circular-append m pos first (n - first)
          ∙ ap₂ ◌++◌ (circular-read m pos first (omega arith)) (
              ap (λ (t : ℕ). circular m t (n - first)) {x = pos + first} {y = shm_buffer_size}
                (omega arith)
              ∙ sym (circular_mod m shm_buffer_size (n - first))
              ∙ circular-read m 0 (n - first) (omega arith))))
]

-- The memory with bytes stored from a position on, going round at the end.
unfoldable pub stored : Memory → ℕ → List ℕ → Memory
stored m pos bytes j =
    let k = (j + shm_buffer_size - pos) % shm_buffer_size in
    if ltb k (length bytes) then get_or bytes k 0 else m j

write-stored :
    (m : Memory) (pos j : ℕ) (bytes : List ℕ)
    → pos + length bytes ≤ shm_buffer_size
    → j < shm_buffer_size
    → write m pos bytes j ≡ stored m pos bytes j
unfolding write stored
write-stored m pos j bytes h q =
    let index : pos ≤ j → j - pos ≡ (j + shm_buffer_size - pos) % shm_buffer_size =
      λ p. omega arith in
    ground (arith, index)

temp_at : (bytes : List ℕ) (i : ℕ) → i < length bytes → write (λ _. 0) 0 bytes i ≡ get_or bytes i 0
unfolding write
temp_at bytes i h = ground arith

write_two-stored :
    (m : Memory) (pos j : ℕ) (bytes : List ℕ)
    → pos < shm_buffer_size
    → shm_buffer_size < pos + length bytes
    → length bytes ≤ shm_buffer_size
    → j < shm_buffer_size
    → let temp = write (λ _. 0) 0 bytes in
      let first = shm_buffer_size - pos in
      write (write m pos (read temp 0 first)) 0 (read temp first (length bytes - first)) j
      ≡ stored m pos bytes j
unfolding write stored
write_two-stored m pos j bytes p over fits q =
    let temp = write (λ _. 0) 0 bytes in
    let first = shm_buffer_size - pos in
    let rest = length bytes - first in
    let high : pos ≤ j → j - pos ≡ (j + shm_buffer_size - pos) % shm_buffer_size =
      λ h. omega arith in
    let low : j < pos → first + (j - 0) ≡ (j + shm_buffer_size - pos) % shm_buffer_size =
      λ h. omega arith in
    let late : ¬ (pos ≤ j)
        → j < rest
        → get_or (read temp first rest) (j - 0) 0 ≡ get_or bytes (first + (j - 0)) 0 =
      λ h h'.
        get_or-read temp first rest (j - 0) (omega arith)
        ∙ temp_at bytes (first + (j - 0)) (omega arith) in
    let early : pos ≤ j → get_or (read temp 0 first) (j - pos) 0 ≡ get_or bytes (0 + (j - pos)) 0 =
      λ h.
        get_or-read temp 0 first (j - pos) (omega arith)
        ∙ temp_at bytes (0 + (j - pos)) (omega arith) in
    ground (arith, high, low, late, early, length-read temp 0 first, length-read temp first rest)

-- `write_ring` of a sound packet stores its bytes round the ring.
pub write_ring_lem :
    (p : IpcPacket) (m : Memory) (pos : ℕ)
    → IsSound p
    → p.total_size ≤ shm_buffer_size
    → pos < shm_buffer_size
    → (m' : Memory) × (write_ring p m pos ≡ some m')
      × ((j : ℕ) → j < shm_buffer_size → m' j ≡ stored m pos (wire p) j)
unfolding write_ring
write_ring_lem p m pos s fits h = elim (Bool-cases (ltb shm_buffer_size (pos + p.total_size))) [
  | inr whole ↦ (
    write m pos (wire p),
    simp whole (
        serialize_lem p m pos (shm_buffer_size - pos) s
        ∙ room (shm_buffer_size - pos) (write m pos (wire p)) (ground arith)),
    λ j q. write-stored m pos j (wire p) (ground (arith, length-wire p s)) q,
  )
  | inl split ↦
      let temp = write (λ _. 0) 0 (wire p) in
      let first = shm_buffer_size - pos in
      let parts =
        λ (n : ℕ). write (write m pos (read temp 0 first)) 0 (read temp first (n - first)) in
      (
        parts p.total_size,
        simp (
          split,
          serialize_lem p (λ _. 0) 0 p.total_size s ∙ room p.total_size temp (omega arith),
        ),
        λ j q.
            ap (λ (n : ℕ). parts n j) (sym (length-wire p s))
            ∙ write_two-stored m pos j (wire p) h (ground (arith, length-wire p s))
                (omega (arith, length-wire p s)) q,
      )
]
  where
    room :
        (size : ℕ) (m' : Memory)
        → p.total_size ≤ size
        → (if ltb size p.total_size then none else some m') ≡ some m'
    room size m' h = ground arith

-- What was stored round the ring is read back from there.
pub circular-stored :
    (m m' : Memory) (pos : ℕ) (bytes : List ℕ)
    → pos < shm_buffer_size
    → length bytes ≤ shm_buffer_size
    → ((j : ℕ) → j < shm_buffer_size → m' j ≡ stored m pos bytes j)
    → circular m' pos (length bytes) ≡ bytes
unfolding stored
circular-stored m m' pos bytes h fits same =
    circular_ext m' (write (λ _. 0) 0 bytes) pos 0 (length bytes) (λ i p.
      same ((pos + i) % shm_buffer_size) (omega arith)
      ∙ stored_at i p
      ∙ sym (temp_at bytes i p)
      ∙ ap (write (λ _. 0) 0 bytes) {x = i} {y = (0 + i) % shm_buffer_size} (omega arith))
    ∙ circular-read (write (λ _. 0) 0 bytes) 0 (length bytes) (omega arith)
    ∙ read-write_self (λ _. 0) 0 bytes
  where
    stored_at :
        (i : ℕ)
        → i < length bytes
        → stored m pos bytes ((pos + i) % shm_buffer_size) ≡ get_or bytes i 0
    stored_at i p =
        let e : ((pos + i) % shm_buffer_size + shm_buffer_size - pos) % shm_buffer_size ≡ i =
          omega arith in
        ground (arith, e)

-- Storing behind a region of the ring keeps the region.
pub circular-stored_behind :
    (m m' : Memory) (pos k : ℕ) (bytes : List ℕ)
    → k + length bytes ≤ shm_buffer_size
    → ((j : ℕ) → j < shm_buffer_size → m' j ≡ stored m ((pos + k) % shm_buffer_size) bytes j)
    → circular m' pos k ≡ circular m pos k
unfolding stored
circular-stored_behind m m' pos k bytes fits same =
    circular_ext m' m pos pos k (λ i p. same ((pos + i) % shm_buffer_size) (omega arith) ∙ kept i p)
  where
    kept :
        (i : ℕ)
        → i < k
        → stored m ((pos + k) % shm_buffer_size) bytes ((pos + i) % shm_buffer_size)
          ≡ m ((pos + i) % shm_buffer_size)
    kept i p =
        let start = (pos + k) % shm_buffer_size in
        let far : length bytes
            ≤ ((pos + i) % shm_buffer_size + shm_buffer_size - start) % shm_buffer_size =
          omega arith in
        ground (arith, far)
