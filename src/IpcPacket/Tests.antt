-- ===== src/IpcPacket/Tests.antt =====
-- Packets run on concrete data, and the theorems applied to them.
use code_knife.Prelude.{ℕ, ◌≡◌, refl, ap, ◌∙◌, arith, true, false, none, some, List, [], ◌∷◌}
use code_knife.Memory.{Memory, read}
use code_knife.IpcPacket.{
  MessageType, PacketHeader, IpcPacket, make, parse, serialize, is_valid, rejected,
}
use code_knife.IpcPacket.Wire.{IsSound, wire, parse-wire, is_valid-IsSound, parse-serialize}
use code_knife.IpcPacket.Validity.{IsAccepted, make-IsSound, parse-IsAccepted}

abbrev unset : PacketHeader
unset = record {
  magic_id = 0;
  version = 0;
  msg_type = 0;
  reserved = 0;
  payload_len = 0;
  seq_num = 0;
  timestamp = 0;
}

abbrev packet : IpcPacket
packet = make true 1700000000 MessageType.request 5 (some (72 ∷ 105 ∷ [])) 2

abbrev sound : IsSound packet
sound =
    make-IsSound true 1700000000 MessageType.request 5 (72 ∷ 105 ∷ []) 2 (omega arith) (omega arith)
      (omega arith) (omega arith)

abbrev zeros : Memory
zeros = λ _. 0

packet_size_test : packet.total_size ≡ 30
unfolding make
packet_size_test = refl

refuses_small_buffer : serialize packet zeros 0 29 ≡ none
unfolding make serialize
refuses_small_buffer = refl

short_data_test : (parse unset true (some (1 ∷ [])) 1).total_size ≡ 0
unfolding parse rejected
short_data_test = refl

make-IsSound_example :
    IsSound (make false 1700000000 MessageType.heartbeat 5 (some (72 ∷ 105 ∷ [])) 2)
make-IsSound_example =
    make-IsSound false 1700000000 MessageType.heartbeat 5 (72 ∷ 105 ∷ []) 2 (omega arith)
      (omega arith) (omega arith) (omega arith)

parse-serialize_example :
    (m : Memory) × (serialize packet zeros 64 4096 ≡ some m)
    × (parse unset true (some (read m 64 packet.total_size)) packet.total_size ≡ packet)
    × (is_valid (parse unset true (some (read m 64 packet.total_size)) packet.total_size) ≡ true)
parse-serialize_example =
    parse-serialize unset packet zeros 64 4096 sound (omega (arith, packet_size_test))

abbrev wired : List ℕ
wired = wire packet

parse-IsAccepted_example :
    IsAccepted packet.total_size wired (parse unset true (some wired) packet.total_size)
parse-IsAccepted_example =
    parse-IsAccepted unset true wired packet.total_size (omega (arith, packet_size_test))
      (ap is_valid (parse-wire unset packet sound) ∙ is_valid-IsSound packet sound)
