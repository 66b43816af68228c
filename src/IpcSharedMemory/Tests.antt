-- ===== src/IpcSharedMemory/Tests.antt =====
-- The rings run on concrete packets, and the theorems applied to them.
use code_knife.Prelude.{
  ◌≡◌, subst, refl, arith, Bool, true, false, none, some, [], ◌∷◌, if◌then◌else◌,
}
use code_knife.IpcPacket.{MessageType, PacketHeader, IpcPacket, make, seal, read_header, of_bytes}
use code_knife.Memory.{read}
use code_knife.IpcPacket.Wire.{IsSound}
use code_knife.IpcPacket.Validity.{make-IsSound}
use code_knife.IpcSharedMemory.{
  Direction, fresh_direction, init_server, hash_chars, generate_key, signal, read_ring,
  write_direction, read_direction, write_packet, read_packet,
}
use code_knife.IpcSharedMemory.Queue.{Represents, stream}
use code_knife.IpcSharedMemory.Send.{accepts, write_direction_refines}
use code_knife.IpcSharedMemory.Receive.{read_direction_refines}
use code_knife.IpcSharedMemory.Faults.{
  read_direction-foreign, init_server-Represents, outgoing, exchanged, write_packet-read_packet,
}

abbrev unset : PacketHeader
unset = record {
  magic_id = 0;
  version = 0;
  msg_type = 0;
  reserved = 0;
  payload_len = 0;
  seq_num = 0;
  timestamp = 0;
}

abbrev packet : IpcPacket
packet = make true 1700000000 MessageType.response 9 (some (1 ∷ 2 ∷ 3 ∷ [])) 3

abbrev sound : IsSound packet
sound =
    make-IsSound true 1700000000 MessageType.response 9 (1 ∷ 2 ∷ 3 ∷ []) 3 (omega arith)
      (omega arith) (omega arith) (omega arith)

-- The ring of a server that has started, with both semaphore counts as `CreateSemaphore` sets them.
abbrev idle : Direction
idle = fresh_direction

abbrev waiting : Direction
waiting = (write_direction 32767 packet idle).1

key_test : generate_key (97 ∷ 98 ∷ []) [] ≡ 3299
unfolding generate_key hash_chars
key_test = refl

write_direction_refines_example :
    ((write_direction 32767 packet idle).0 ≡ accepts idle [] packet)
    × Represents waiting (if accepts idle [] packet then packet ∷ [] else [])
    × (waiting.write_sem ≡ idle.write_sem)
write_direction_refines_example =
    write_direction_refines 32767 packet idle [] sound init_server-Represents (omega arith)
      (omega arith)

packet_total : packet.total_size ≡ 31
unfolding make seal
packet_total = refl

accepted : accepts idle [] packet ≡ true
unfolding accepts stream
accepted = ground (arith, packet_total)

held : Represents waiting (packet ∷ [])
held =
    subst (λ (b : Bool). Represents waiting (if b then packet ∷ [] else [])) accepted
      (write_direction_refines 32767 packet idle [] sound init_server-Represents (omega arith)
        (omega arith)).1

read_direction_refines_example :
    ((read_direction 32767 unset true waiting).0 ≡ some packet)
    × Represents (read_direction 32767 unset true waiting).1 []
    × ((read_direction 32767 unset true waiting).1.write_sem ≡ signal 32767 waiting.write_sem)
read_direction_refines_example = read_direction_refines 32767 unset waiting (packet ∷ []) held

-- A ring where 28 bytes of zeros wait.
abbrev zeros : Direction
zeros = record { buffer = λ _. 0; write_pos = 28; read_pos = 0; write_sem = 1; read_sem = 1 }

read_direction-foreign_example : read_direction 32767 unset true zeros ≡ (none, zeros)
unfolding read_ring read read_header of_bytes
read_direction-foreign_example =
    read_direction-foreign 32767 unset true zeros (omega arith) (omega arith)

write_packet-read_packet_example :
    ((write_packet 32767 true true packet init_server).0 ≡ true)
    × ((read_packet 32767 true false unset true
          (write_packet 32767 true true packet init_server).1).0
        ≡ some packet)
    × Represents (outgoing true (exchanged 32767 unset true packet init_server)) []
    × (outgoing false (exchanged 32767 unset true packet init_server) ≡ outgoing false init_server)
    × ((outgoing true (exchanged 32767 unset true packet init_server)).write_sem ≡ signal 32767 1)
write_packet-read_packet_example =
    write_packet-read_packet 32767 unset true packet init_server sound init_server-Represents
      (omega arith) (omega arith) (omega (arith, packet_total))
