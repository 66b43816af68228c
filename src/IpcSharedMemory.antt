-- ===== src/IpcSharedMemory.antt =====
-- include/util/ipc_shared_memory.hpp and src/util/ipc_shared_memory.cpp, on POSIX: two rings of
-- bytes in shared memory, one for each direction, with a pair of semaphores each.
-- A semaphore is its count. `semop` takes one without waiting where the count is not 0, and adds
-- one below the system's limit `sem_max`, which is a parameter. A call runs with no other process
-- in between.
pub mod Ring
pub mod Queue
pub mod Send
pub mod Receive
pub mod Faults
mod Tests
use code_knife.Memory.{Memory, write, read}
use code_knife.IpcPacket.{
  PacketHeader, IpcPacket, ipc_packet_magic, header_size, read_header, packet_size, parse, is_valid,
  serialize,
}
use code_knife.Prelude.{
  ℕ, zero, suc, ◌+◌, ◌-◌, ◌*◌, ◌/◌, ◌%◌, ◌^◌, ◌==◌, ltb, leb, if◌then◌else◌, Bool, true, false, not,
  Option, none, some, List, [], ◌∷◌, ◌++◌, bit_and,
}

abbrev pub shm_buffer_size : ℕ
shm_buffer_size = 1024 * 1024

-- One direction: its buffer, the two positions in the shared header that it uses, and the counts
-- of its two semaphores.
pub record Direction : Type 0 where
  pub buffer : Memory
  pub write_pos : ℕ
  pub read_pos : ℕ
  pub write_sem : ℕ
  pub read_sem : ℕ

-- server_to_client: server_write_pos, client_read_pos, SEM_SERVER_WRITE, SEM_CLIENT_READ.
-- client_to_server: client_write_pos, server_read_pos, SEM_CLIENT_WRITE, SEM_SERVER_READ.
pub record SharedMemory : Type 0 where
  pub server_to_client : Direction
  pub client_to_server : Direction

abbrev pub fresh_direction : Direction
fresh_direction = record {
  buffer = λ _. 0;
  write_pos = 0;
  read_pos = 0;
  write_sem = 1;
  read_sem = 0;
}

-- SETALL on the two semaphores of a direction.
pub reset : Direction → Direction
reset d = record d { write_sem = 1; read_sem = 0 }

-- What `Init` of the server leaves: positions 0, buffers cleared, and `CreateSemaphore`'s counts.
abbrev pub init_server : SharedMemory
init_server = record { server_to_client = fresh_direction; client_to_server = fresh_direction }

-- What `Init` of a client leaves: it too sets the semaphores' counts, in `CreateSemaphore`.
pub init_client : SharedMemory → SharedMemory
init_client s = record {
  server_to_client = reset s.server_to_client;
  client_to_server = reset s.client_to_server;
}

-- SemaphoreTryWait: the count after taking one, if there is one.
pub try_wait : ℕ → Option ℕ
try_wait zero = none
try_wait (suc n) = some n

-- SemaphoreSignal
pub signal : ℕ → ℕ → ℕ
signal sem_max count = if ltb count sem_max then count + 1 else count

-- The room behind the write position, one byte kept free.
pub available_space : ℕ → ℕ → ℕ
available_space write_pos read_pos =
    if leb read_pos write_pos
    then shm_buffer_size - write_pos + read_pos - 1
    else read_pos - write_pos - 1

-- The bytes between the read position and the write position.
pub available_data : ℕ → ℕ → ℕ
available_data write_pos read_pos =
    if leb read_pos write_pos then write_pos - read_pos else shm_buffer_size - read_pos + write_pos

-- Bytes out of the ring, in one piece or in two.
pub read_ring : Memory → ℕ → ℕ → List ℕ
read_ring buffer pos n =
    if ltb shm_buffer_size (pos + n)
    then read buffer pos (shm_buffer_size - pos) ++ read buffer 0 (n - (shm_buffer_size - pos))
    else read buffer pos n

-- The packet's bytes into the ring, in one piece or, through a temporary buffer, in two.
pub write_ring : IpcPacket → Memory → ℕ → Option Memory
write_ring p buffer pos =
    let first = shm_buffer_size - pos in
    if ltb shm_buffer_size (pos + p.total_size)
    then elim (serialize p (λ _. 0) 0 p.total_size) [
      | none ↦ none
      | some temp ↦
          some (
            write (write buffer pos (read temp 0 first)) 0 (read temp first (p.total_size - first)))
    ]
    else serialize p buffer pos first

module _ (sem_max : ℕ) where
  -- WritePacket once the role has chosen its direction.
  pub write_direction : IpcPacket → Direction → Bool × Direction
  write_direction p d =
      if ltb shm_buffer_size p.total_size then (false, d) else elim (try_wait d.write_sem) [
        | none ↦ (false, d)
        | some taken ↦
            if leb (available_space d.write_pos d.read_pos) p.total_size
            then (false, record d { write_sem = signal sem_max taken })
            else elim (write_ring p d.buffer d.write_pos) [
              | none ↦ (false, record d { write_sem = signal sem_max taken })
              | some buffer ↦ (
                true,
                record d {
                  buffer = buffer;
                  write_pos = (d.write_pos + p.total_size) % shm_buffer_size;
                  read_sem = signal sem_max d.read_sem;
                  write_sem = signal sem_max taken;
                },
              )
            ]
      ]

  -- ReadPacket once the role has chosen its direction: the packet, where the result is true.
  pub read_direction : PacketHeader → Bool → Direction → Option IpcPacket × Direction
  read_direction unset allocated d =
      if available_data d.write_pos d.read_pos == 0 then (none, d) else elim (try_wait d.read_sem) [
        | none ↦ (none, d)
        | some taken ↦
            let refused = record d { read_sem = signal sem_max taken } in
            let header = read_header (read_ring d.buffer d.read_pos header_size) in
            let size = packet_size header.payload_len in
            let packet = parse unset allocated (some (read_ring d.buffer d.read_pos size)) size in
            if d.read_pos == d.write_pos
            then (none, refused)
            else if not (header.magic_id == ipc_packet_magic)
            then (none, refused)
            else if ltb shm_buffer_size size
            then (none, refused)
            else if not (is_valid packet)
            then (none, refused)
            else (
              some packet,
              record d {
                read_sem = taken;
                read_pos = (d.read_pos + size) % shm_buffer_size;
                write_sem = signal sem_max d.write_sem;
              },
            )
      ]

  -- WritePacket, where `ready` is whether Init succeeded and the buffer is there, of the server (true)
  -- or the client (false).
  pub write_packet : Bool → Bool → IpcPacket → SharedMemory → Bool × SharedMemory
  write_packet false role p s = (false, s)
  write_packet true true p s =
      let (done, d) = write_direction p s.server_to_client in
      (done, record s { server_to_client = d })
  write_packet true false p s =
      let (done, d) = write_direction p s.client_to_server in
      (done, record s { client_to_server = d })

  -- ReadPacket, where `ready` is whether Init succeeded, the buffer is there and the caller gave a
  -- packet to fill, of the server (true) or the client (false).
  pub read_packet :
      Bool → Bool → PacketHeader → Bool → SharedMemory → Option IpcPacket × SharedMemory
  read_packet false role unset allocated s = (none, s)
  read_packet true true unset allocated s =
      let (packet, d) = read_direction unset allocated s.client_to_server in
      (packet, record s { client_to_server = d })
  read_packet true false unset allocated s =
      let (packet, d) = read_direction unset allocated s.server_to_client in
      (packet, record s { server_to_client = d })

-- GenerateKey: the hash of the name with its suffix, as a positive int that is not 0. Characters
-- are ASCII, and the int wraps.
pub hash_chars : ℕ → List ℕ → ℕ
hash_chars key [] = key
hash_chars key (c ∷ cs) = hash_chars ((key * 2 ^ 5 + key + c) % 2 ^ 32) cs

pub generate_key : List ℕ → List ℕ → ℕ
unfolding hash_chars
generate_key name suffix =
    let key = bit_and (hash_chars 0 (name ++ suffix)) 0x7FFFFFFF in if key == 0 then 1 else key
