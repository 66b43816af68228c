-- ===== src/IpcSharedMemory/Faults.antt =====
-- What stops a ring: a client's start that resets the semaphores, and bytes that are no packet at
-- the read position; and the whole way of a packet from one process to the other.
use code_knife.Prelude.{
  ℕ, ◌+◌, ◌≤◌, ◌<◌, ◌≡◌, ◌≢◌, ◌==◌, if◌then◌else◌, refl, ap, subst, ◌∙◌, arith, Bool, true, false,
  not, [], ◌∷◌, none, some,
}
use code_knife.IpcPacket.{PacketHeader, IpcPacket, ipc_packet_magic, header_size, read_header}
use code_knife.IpcPacket.Wire.{IsSound}
use code_knife.IpcSharedMemory.{
  Direction, SharedMemory, shm_buffer_size, reset, init_server, try_wait, signal, read_ring,
  write_direction, read_direction, write_packet, read_packet,
}
use code_knife.IpcSharedMemory.Ring.{circular}
use code_knife.IpcSharedMemory.Queue.{Represents, stream}
use code_knife.IpcSharedMemory.Send.{accepts, write_direction_refines}
use code_knife.IpcSharedMemory.Receive.{read_direction_refines}

-- After the reset of the semaphores that a client's start makes, ReadPacket gives none and
-- changes nothing, whatever the ring holds.
pub read_direction-reset :
    (sem_max : ℕ) (unset : PacketHeader) (allocated : Bool) (d : Direction)
    → read_direction sem_max unset allocated (reset d) ≡ (none, reset d)
unfolding read_direction reset try_wait
read_direction-reset sem_max unset allocated d = ground arith

-- Where the bytes at the read position do not begin with the magic number and the read
-- semaphore's count is within the limit, ReadPacket gives none and leaves the whole direction
-- as it is.
pub read_direction-foreign :
    (sem_max : ℕ) (unset : PacketHeader) (allocated : Bool) (d : Direction)
    → d.read_sem ≤ sem_max
    → (read_header (read_ring d.buffer d.read_pos header_size)).magic_id ≢ ipc_packet_magic
    → read_direction sem_max unset allocated d ≡ (none, d)
unfolding read_direction try_wait signal
read_direction-foreign sem_max unset allocated d h foreign =
    let bad : ((read_header (read_ring d.buffer d.read_pos header_size)).magic_id
          == ipc_packet_magic)
        ≡ false =
      ground (arith, foreign) in
    ground (arith, bad)

pub init_server-Represents : Represents init_server.server_to_client []
unfolding stream circular
init_server-Represents = record {
  sound = tt;
  read_in = omega arith;
  room = omega arith;
  ahead = refl;
  held = refl;
  counted = refl;
}

one_way :
    (sem_max : ℕ) (unset : PacketHeader) (p : IpcPacket) (d : Direction)
    → IsSound p
    → Represents d []
    → 0 < d.write_sem
    → d.write_sem ≤ sem_max
    → p.total_size + 1 < shm_buffer_size
    → let sent = write_direction sem_max p d in
      let got = read_direction sem_max unset true sent.1 in
      (sent.0 ≡ true)
      × (got.0 ≡ some p)
      × Represents got.1 []
      × (got.1.write_sem ≡ signal sem_max d.write_sem)
unfolding accepts stream
one_way sem_max unset p d sound r free small fits =
    let sent = write_direction_refines sem_max p d [] sound r small (omega arith) in
    let yes' : accepts d [] p ≡ true = ground arith in
    let held : Represents (write_direction sem_max p d).1 (p ∷ []) =
      subst (λ (b : Bool). Represents (write_direction sem_max p d).1 (if b then p ∷ [] else []))
        yes' sent.1 in
    let got = read_direction_refines sem_max unset (write_direction sem_max p d).1 (p ∷ []) held in
    (sent.0 ∙ yes', got.0, got.1, got.2 ∙ ap (signal sem_max) sent.2)

-- The direction that a role, the server (true) or a client (false), writes and the other reads.
abbrev pub outgoing : Bool → SharedMemory → Direction
outgoing true s = s.server_to_client
outgoing false s = s.client_to_server

-- The state after one side wrote a packet and the other side read.
abbrev pub exchanged : ℕ → PacketHeader → Bool → IpcPacket → SharedMemory → SharedMemory
exchanged sem_max unset role p s =
    (read_packet sem_max true (not role) unset true (write_packet sem_max true role p s).1).1

-- Between two sides that are set up: a sound packet that leaves more than one byte of an empty
-- direction free, written by either side while the write semaphore's count is neither 0 nor above the limit, arrives on the
-- other side as it was sent; the direction is then empty again and the opposite one untouched,
-- but the write semaphore's count has grown by one, up to the limit.
pub write_packet-read_packet :
    (sem_max : ℕ) (unset : PacketHeader) (role : Bool) (p : IpcPacket) (s : SharedMemory)
    → IsSound p
    → Represents (outgoing role s) []
    → 0 < (outgoing role s).write_sem
    → (outgoing role s).write_sem ≤ sem_max
    → p.total_size + 1 < shm_buffer_size
    → ((write_packet sem_max true role p s).0 ≡ true)
      × ((read_packet sem_max true (not role) unset true (write_packet sem_max true role p s).1).0
          ≡ some p)
      × Represents (outgoing role (exchanged sem_max unset role p s)) []
      × (outgoing (not role) (exchanged sem_max unset role p s) ≡ outgoing (not role) s)
      × ((outgoing role (exchanged sem_max unset role p s)).write_sem
          ≡ signal sem_max (outgoing role s).write_sem)
unfolding write_packet read_packet
write_packet-read_packet sem_max unset true p s sound r free small fits =
    let there = one_way sem_max unset p s.server_to_client sound r free small fits in
    (there.0, there.1, there.2, refl, there.3)
write_packet-read_packet sem_max unset false p s sound r free small fits =
    let there = one_way sem_max unset p s.client_to_server sound r free small fits in
    (there.0, there.1, there.2, refl, there.3)
