-- ===== src/IpcSharedMemory/Receive.antt =====
-- ReadPacket against the queue of packets that the ring holds.
use code_knife.Prelude.{
  ◌^◌, ℕ, suc, ◌+◌, ◌%◌, ◌≡◌, ◌==◌, ltb, refl, sym, ap, ◌∙◌, arith, true, false, not, List, [], ◌∷◌,
  ◌++◌, length, length-append, append-nil, Option, none, some,
}
use code_knife.IpcPacket.{
  PacketHeader, IpcPacket, ipc_packet_magic, header_size, header_bytes, payload_bytes, to_bytes,
  read_header, parse,
}
use code_knife.IpcPacket.Wire.{
  IsSound, wire, length-wire, parse-wire, is_valid-IsSound, read_header-header_bytes,
  length-header_bytes,
}
use code_knife.IpcSharedMemory.{
  Direction, shm_buffer_size, try_wait, signal, available_data, read_ring, read_direction,
}
use code_knife.IpcSharedMemory.Ring.{circular, circular_mod, read_ring_lem}
use code_knife.IpcSharedMemory.Queue.{
  stream, Represents, circular_left, circular_right, available_data_lem,
}

-- What ReadPacket finds at the read position is the oldest packet's bytes.
first_bytes :
    (p : IpcPacket) (ps : List IpcPacket) (d : Direction)
    → IsSound p
    → Represents d (p ∷ ps)
    → circular d.buffer d.read_pos p.total_size ≡ wire p
unfolding stream
first_bytes p ps d s r =
    ap (circular d.buffer d.read_pos) (sym (length-wire p s))
    ∙ circular_left d.buffer d.read_pos (wire p) (stream ps) r.held

first_header :
    (p : IpcPacket) (ps : List IpcPacket) (d : Direction)
    → IsSound p
    → Represents d (p ∷ ps)
    → read_header (read_ring d.buffer d.read_pos header_size) ≡ p.header
unfolding wire
first_header p ps d s r =
    ap read_header (
      read_ring_lem d.buffer d.read_pos header_size r.read_in (omega arith)
      ∙ ap (circular d.buffer d.read_pos) (sym (length-header_bytes p.header))
      ∙ circular_left d.buffer d.read_pos (header_bytes p.header)
          (payload_bytes p.header p.payload ++ to_bytes 4 p.checksum)
          (ap (circular d.buffer d.read_pos) (length-wire p s) ∙ first_bytes p ps d s r)
      ∙ sym (append-nil (header_bytes p.header)))
    ∙ read_header-header_bytes p.header [] s.in_range

first_length :
    (p : IpcPacket) (ps : List IpcPacket)
    → IsSound p
    → length (stream (p ∷ ps)) ≡ p.total_size + length (stream ps)
unfolding stream
first_length p ps s = omega (arith, length-append (wire p) (stream ps), length-wire p s)

-- The packet that ReadPacket parses is the oldest one.
first_packet :
    (unset : PacketHeader) (p : IpcPacket) (ps : List IpcPacket) (d : Direction)
    → IsSound p
    → Represents d (p ∷ ps)
    → parse unset true (some (read_ring d.buffer d.read_pos p.total_size)) p.total_size ≡ p
first_packet unset p ps d s r =
    ap (λ (bs : List ℕ). parse unset true (some bs) p.total_size)
      (read_ring_lem d.buffer d.read_pos p.total_size r.read_in
          (omega (arith, r.room, first_length p ps s))
        ∙ first_bytes p ps d s r)
    ∙ parse-wire unset p s

abbrev taken : ℕ → IpcPacket → List IpcPacket → Direction → Direction
taken sem_max p ps d = record d {
  read_sem = length ps;
  read_pos = (d.read_pos + p.total_size) % shm_buffer_size;
  write_sem = signal sem_max d.write_sem;
}

read_first :
    (sem_max : ℕ) (unset : PacketHeader) (p : IpcPacket) (ps : List IpcPacket) (d : Direction)
    → IsSound p
    → Represents d (p ∷ ps)
    → read_direction sem_max unset true d ≡ (some p, taken sem_max p ps d)
unfolding read_direction try_wait
read_first sem_max unset p ps d s r =
    let header = first_header p ps d s r in
    let waiting =
      ap (λ (w : ℕ). available_data w d.read_pos) r.ahead
      ∙ available_data_lem d.read_pos (length (stream (p ∷ ps))) r.read_in r.room in
    let one = first_length p ps s in
    let counted : d.read_sem ≡ suc (length ps) = r.counted in
    let size : (header_size + p.header.payload_len + 4) % 2 ^ 32 ≡ p.total_size =
      omega (arith, s.fits, s.sized) in
    let some_data : (available_data d.write_pos d.read_pos == 0) ≡ false =
      ground (arith, waiting, one, s.sized) in
    let apart : (d.read_pos == d.write_pos) ≡ false =
      ground (arith, r.ahead, one, s.sized, r.room, r.read_in) in
    let magic : not (p.header.magic_id == ipc_packet_magic) ≡ false = ground (arith, s.magic) in
    let fits : ltb shm_buffer_size p.total_size ≡ false = ground (arith, r.room, one) in
    simp (
      header,
      size,
      some_data,
      apart,
      magic,
      fits,
      counted,
      first_packet unset p ps d s r,
      is_valid-IsSound p s,
    )

taken-Represents :
    (sem_max : ℕ) (p : IpcPacket) (ps : List IpcPacket) (d : Direction)
    → IsSound p
    → Represents d (p ∷ ps)
    → Represents (taken sem_max p ps d) ps
unfolding stream
taken-Represents sem_max p ps d s r = record {
  sound = r.sound.1;
  read_in = omega arith;
  room = omega (arith, r.room, first_length p ps s);
  ahead = omega (arith, r.ahead, first_length p ps s);
  held =
      circular_mod d.buffer (d.read_pos + p.total_size) (length (stream ps))
      ∙ ap (λ (n : ℕ). circular d.buffer (d.read_pos + n) (length (stream ps)))
          (sym (length-wire p s))
      ∙ circular_right d.buffer d.read_pos (wire p) (stream ps) r.held;
  counted = refl;
}

abbrev pub oldest : List IpcPacket → Option IpcPacket
oldest [] = none
oldest (p ∷ ps) = some p

abbrev pub younger : List IpcPacket → List IpcPacket
younger [] = []
younger (p ∷ ps) = ps

-- The count of the write semaphore after ReadPacket: one more where a packet was read.
abbrev pub released : ℕ → ℕ → List IpcPacket → ℕ
released sem_max count [] = count
released sem_max count (p ∷ ps) = signal sem_max count

read_none :
    (sem_max : ℕ) (unset : PacketHeader) (d : Direction)
    → Represents d []
    → read_direction sem_max unset true d ≡ (none, d)
unfolding read_direction stream
read_none sem_max unset d r =
    let waiting =
      ap (λ (w : ℕ). available_data w d.read_pos) r.ahead
      ∙ available_data_lem d.read_pos 0 r.read_in (omega arith) in
    simp waiting

-- ReadPacket on a ring that holds packets, where memory can be allocated, gives the oldest
-- one, takes it off the queue and adds one, up to the limit, to the write semaphore's count;
-- on an empty ring it gives none and leaves the queue and that count as they were.
pub read_direction_refines :
    (sem_max : ℕ) (unset : PacketHeader) (d : Direction) (ps : List IpcPacket)
    → Represents d ps
    → ((read_direction sem_max unset true d).0 ≡ oldest ps)
      × Represents (read_direction sem_max unset true d).1 (younger ps)
      × ((read_direction sem_max unset true d).1.write_sem ≡ released sem_max d.write_sem ps)
read_direction_refines sem_max unset d [] r = simp (read_none sem_max unset d r) (refl, r, refl)
read_direction_refines sem_max unset d (p ∷ ps) r =
    simp (read_first sem_max unset p ps d r.sound.0 r)
      (refl, taken-Represents sem_max p ps d r.sound.0 r, refl)
