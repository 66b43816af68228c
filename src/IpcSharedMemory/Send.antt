-- ===== src/IpcSharedMemory/Send.antt =====
-- WritePacket against the queue of packets that the ring holds.
use code_knife.Prelude.{
  ℕ, ◌+◌, ◌%◌, ◌≤◌, ◌<◌, ◌≡◌, ltb, if◌then◌else◌, refl, sym, ap, ap₂, ◌∙◌, arith, Bool, true, false,
  Bool-cases, inl, inr, ◌&&◌, List, [], ◌∷◌, ◌++◌, length, length-append, append-nil, some,
}
use code_knife.Memory.{Memory}
use code_knife.IpcPacket.{IpcPacket}
use code_knife.IpcPacket.Wire.{IsSound, wire, length-wire}
use code_knife.IpcSharedMemory.{
  Direction, shm_buffer_size, try_wait, signal, available_space, write_ring, write_direction,
}
use code_knife.IpcSharedMemory.Ring.{
  circular, circular_mod, circular-append, write_ring_lem, circular-stored, circular-stored_behind,
  stored,
}
use code_knife.IpcSharedMemory.Queue.{
  stream, Represents, stream-append, AllSound-append, available_space_lem,
}

-- When a queue of a ring takes one more packet: its write semaphore is free and more than one byte
-- stays free.
unfoldable pub accepts : Direction → List IpcPacket → IpcPacket → Bool
accepts d ps p = ltb 0 d.write_sem && ltb (length (stream ps) + p.total_size + 1) shm_buffer_size

abbrev written : Memory → IpcPacket → ℕ → Direction → Direction
written m p sem_max d = record d {
  buffer = m;
  write_pos = (d.write_pos + p.total_size) % shm_buffer_size;
  read_sem = signal sem_max d.read_sem;
}

write_accepted :
    (sem_max : ℕ) (p : IpcPacket) (d : Direction) (ps : List IpcPacket) (m : Memory)
    → Represents d ps
    → d.write_sem ≤ sem_max
    → accepts d ps p ≡ true
    → write_ring p d.buffer d.write_pos ≡ some m
    → write_direction sem_max p d ≡ (true, written m p sem_max d)
unfolding write_direction accepts try_wait signal
write_accepted sem_max p d ps m r free yes' placed =
    let space =
      ap (λ (w : ℕ). available_space w d.read_pos) r.ahead
      ∙ available_space_lem d.read_pos (length (stream ps)) r.read_in r.room in
    ground (arith, space, placed)

write_refused :
    (sem_max : ℕ) (p : IpcPacket) (d : Direction) (ps : List IpcPacket)
    → Represents d ps
    → d.write_sem ≤ sem_max
    → accepts d ps p ≡ false
    → write_direction sem_max p d ≡ (false, d)
unfolding write_direction accepts try_wait signal
write_refused sem_max p d ps r free no' =
    let space =
      ap (λ (w : ℕ). available_space w d.read_pos) r.ahead
      ∙ available_space_lem d.read_pos (length (stream ps)) r.read_in r.room in
    ground (arith, space)

length-snoc : (ps : List IpcPacket) (p : IpcPacket) → length (ps ++ (p ∷ [])) ≡ length ps + 1
length-snoc ps p = length-append ps (p ∷ [])

stream-snoc : (ps : List IpcPacket) (p : IpcPacket) → stream (ps ++ (p ∷ [])) ≡ stream ps ++ wire p
unfolding stream
stream-snoc ps p = stream-append ps (p ∷ []) ∙ ap (◌++◌ (stream ps)) (append-nil (wire p))

-- The ring with the packet's bytes stored at the write position holds one more packet.
written-Represents :
    (sem_max : ℕ) (p : IpcPacket) (d : Direction) (ps : List IpcPacket) (m : Memory)
    → IsSound p
    → Represents d ps
    → length ps < sem_max
    → length (stream ps) + p.total_size + 1 < shm_buffer_size
    → ((j : ℕ) → j < shm_buffer_size → m j ≡ stored d.buffer d.write_pos (wire p) j)
    → Represents (written m p sem_max d) (ps ++ (p ∷ []))
unfolding signal
written-Represents sem_max p d ps m s r few fits same = record {
  sound = AllSound-append ps p r.sound s;
  read_in = r.read_in;
  room = omega (arith, total);
  ahead = omega (arith, total, r.ahead);
  held =
      ap (circular m d.read_pos) (ap length (stream-snoc ps p) ∙ length-append (stream ps) (wire p))
      ∙ circular-append m d.read_pos (length (stream ps)) (length (wire p))
      ∙ ap₂ ◌++◌
          (circular-stored_behind d.buffer m d.read_pos (length (stream ps)) (wire p)
              (omega (arith, length-wire p s))
              (λ j q. same j q ∙ ap (λ (w : ℕ). stored d.buffer w (wire p) j) r.ahead)
            ∙ r.held)
          (sym (circular_mod m (d.read_pos + length (stream ps)) (length (wire p)))
            ∙ ap (λ (w : ℕ). circular m w (length (wire p))) (sym r.ahead)
            ∙ circular-stored d.buffer m d.write_pos (wire p) (omega (arith, r.ahead))
                (omega (arith, length-wire p s)) same)
      ∙ sym (stream-snoc ps p);
  counted = ground (arith, r.counted, length-snoc ps p);
}
  where
    total : length (stream (ps ++ (p ∷ []))) ≡ length (stream ps) + p.total_size
    total =
        omega
          (arith, ap length (stream-snoc ps p), length-append (stream ps) (wire p), length-wire p s)

-- WritePacket of a sound packet on a ring that holds packets, fewer than the semaphore's
-- limit, appends the packet and reports true if the write semaphore's count is not 0 and more
-- than one byte stays free, and otherwise reports false and leaves the queue as it was; the
-- write semaphore's count, which is within the limit, is the same after the call.
pub write_direction_refines :
    (sem_max : ℕ) (p : IpcPacket) (d : Direction) (ps : List IpcPacket)
    → IsSound p
    → Represents d ps
    → d.write_sem ≤ sem_max
    → length ps < sem_max
    → ((write_direction sem_max p d).0 ≡ accepts d ps p)
      × Represents (write_direction sem_max p d).1 (if accepts d ps p then ps ++ (p ∷ []) else ps)
      × ((write_direction sem_max p d).1.write_sem ≡ d.write_sem)
unfolding accepts
write_direction_refines sem_max p d ps s r free few = elim (Bool-cases (accepts d ps p)) [
  | inr no' ↦ simp (no', write_refused sem_max p d ps r free no') (refl, r, refl)
  | inl yes' ↦
      let placed =
        write_ring_lem p d.buffer d.write_pos s (omega (arith, enough yes'))
          (omega (arith, r.ahead)) in
      simp (yes', write_accepted sem_max p d ps placed.0 r free yes' placed.1)
        (refl, written-Represents sem_max p d ps placed.0 s r few (enough yes') placed.2, refl)
]
  where
    enough : accepts d ps p ≡ true → length (stream ps) + p.total_size + 1 < shm_buffer_size
    enough h = ground arith
