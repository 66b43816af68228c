-- ===== src/IpcPacket.antt =====
-- include/util/ipc_packet.hpp: packets of the IPC layer, their bytes and their checksum.
-- The pointer `payload_` is its bytes or null; memory is a function from addresses to bytes; the
-- machine is little-endian. `new(std::nothrow)` is an argument that says whether it succeeds, the
-- clock an argument, and so are the contents of a header that a constructor leaves unset.

pub mod Wire
pub mod Validity
mod Tests
use code_knife.Memory.{Memory, write, read}
use code_knife.Prelude.{
  ℕ, zero, suc, ◌+◌, ◌-◌, ◌*◌, ◌/◌, ◌%◌, ◌^◌, ◌==◌, ltb, leb, if◌then◌else◌, Bool, true, false, not,
  ◌&&◌, ◌||◌, Option, none, some, List, [], ◌∷◌, ◌++◌, take, drop, length, get_or, bit_and, bit_xor,
}

abbrev pub ipc_packet_magic : ℕ
ipc_packet_magic = 0x5554494C

-- sizeof(PacketHeader), which is packed.
abbrev pub header_size : ℕ
header_size = 24

pub data MessageType : Type 0 where
  request response heartbeat failure : MessageType

pub message_code : MessageType → ℕ
message_code MessageType.request = 1
message_code MessageType.response = 2
message_code MessageType.heartbeat = 3
message_code MessageType.failure = 4

pub record PacketHeader : Type 0 where
  pub magic_id : ℕ
  pub version : ℕ
  pub msg_type : ℕ
  pub reserved : ℕ
  pub payload_len : ℕ
  pub seq_num : ℕ
  pub timestamp : ℕ

pub record IpcPacket : Type 0 where
  pub header : PacketHeader
  pub payload : Option (List ℕ)
  pub checksum : ℕ
  pub total_size : ℕ

-- The low bytes of a number, lowest first, and back.
pub to_bytes : ℕ → ℕ → List ℕ
to_bytes zero n = []
to_bytes (suc k) n = (n % 256) ∷ to_bytes k (n / 256)

unfoldable pub of_bytes : List ℕ → ℕ
of_bytes [] = 0
of_bytes (b ∷ bs) = b + 256 * of_bytes bs

-- The bytes of a packed header.
pub header_bytes : PacketHeader → List ℕ
header_bytes h =
    to_bytes 4 h.magic_id
    ++ (to_bytes 1 h.version
        ++ (to_bytes 1 h.msg_type
            ++ (to_bytes 2 h.reserved
                ++ (to_bytes 4 h.payload_len ++ (to_bytes 4 h.seq_num ++ to_bytes 8 h.timestamp)))))

-- memcpy(&header, data, sizeof(PacketHeader))
unfoldable pub read_header : List ℕ → PacketHeader
read_header data' = record {
  magic_id = of_bytes (take 4 data');
  version = of_bytes (take 1 (drop 4 data'));
  msg_type = of_bytes (take 1 (drop 5 data'));
  reserved = of_bytes (take 2 (drop 6 data'));
  payload_len = of_bytes (take 4 (drop 8 data'));
  seq_num = of_bytes (take 4 (drop 12 data'));
  timestamp = of_bytes (take 8 (drop 16 data'));
}

-- crc = (crc >> 1) ^ (0xEDB88320 & -(crc & 1)), eight times
pub crc_bits : ℕ → ℕ → ℕ
crc_bits zero crc = crc
crc_bits (suc rounds) crc =
    crc_bits rounds (bit_xor (crc / 2) (bit_and 0xEDB88320 ((2 ^ 32 - crc % 2) % 2 ^ 32)))

pub crc_bytes : ℕ → List ℕ → ℕ
crc_bytes crc [] = crc
crc_bytes crc (b ∷ bs) = crc_bytes (crc_bits 8 (bit_xor crc b)) bs

-- The payload bytes that the checksum reads and `Serialize` writes: none through a null pointer.
pub payload_bytes : PacketHeader → Option (List ℕ) → List ℕ
payload_bytes h none = []
payload_bytes h (some bytes) = if ltb 0 h.payload_len then take h.payload_len bytes else []

-- CalculateChecksumInternal
pub calculate_checksum : PacketHeader → Option (List ℕ) → ℕ
unfolding payload_bytes
calculate_checksum h payload =
    2 ^ 32 - 1 - crc_bytes (crc_bytes (2 ^ 32 - 1) (header_bytes h)) (payload_bytes h payload)

-- sizeof(PacketHeader) + payload_len + sizeof(uint32_t), as a uint32_t
abbrev pub packet_size : ℕ → ℕ
packet_size payload_len = (header_size + payload_len + 4) % 2 ^ 32

-- The header and the packet that the constructors build around a payload.
pub make_header : ℕ → MessageType → ℕ → ℕ → PacketHeader
make_header now kind seq_num payload_len = record {
  magic_id = ipc_packet_magic;
  version = 1;
  msg_type = message_code kind;
  reserved = 0;
  payload_len = payload_len;
  seq_num = seq_num;
  timestamp = now;
}

unfoldable pub seal : PacketHeader → Option (List ℕ) → IpcPacket
seal h payload = record {
  header = h;
  payload = payload;
  checksum = calculate_checksum h payload;
  total_size = packet_size h.payload_len;
}

-- IPCPacket(type, seq_num, payload, payload_len)
unfoldable pub make : Bool → ℕ → MessageType → ℕ → Option (List ℕ) → ℕ → IpcPacket
unfolding make_header seal
make allocated now kind seq_num payload payload_len =
    let header = make_header now kind seq_num payload_len in
    elim payload [
      | none ↦ seal header none
      | some bytes ↦
          if ltb 0 payload_len
          then if allocated
            then seal header (some (take payload_len bytes))
            else seal (make_header now kind seq_num 0) none
          else seal header none
    ]

-- IPCPacket()
pub make_default : ℕ → IpcPacket
unfolding make
make_default now = make true now MessageType.request 0 none 0

-- What the parsing constructor leaves where it returns early.
pub rejected : PacketHeader → IpcPacket
rejected h = record { header = h; payload = none; checksum = 0; total_size = 0 }

-- IPCPacket(data, data_size); the header is `unset` where the constructor returns before it.
pub parse : PacketHeader → Bool → Option (List ℕ) → ℕ → IpcPacket
unfolding rejected
parse unset allocated data' data_size = elim data' [
  | none ↦ rejected unset
  | some bytes ↦
      if ltb data_size (header_size + 4)
      then rejected unset
      else (let h = read_header bytes in
          if not (h.magic_id == ipc_packet_magic) || ltb (data_size - header_size - 4) h.payload_len
          then rejected (record h { magic_id = 0 })
          else (let sum = of_bytes (take 4 (drop (header_size + h.payload_len) bytes)) in
              if ltb 0 h.payload_len
              then if allocated
                then record {
                  header = h;
                  payload = some (take h.payload_len (drop header_size bytes));
                  checksum = sum;
                  total_size = packet_size h.payload_len;
                }
                else rejected (record h { magic_id = 0; payload_len = 0 })
              else record {
                header = h;
                payload = none;
                checksum = sum;
                total_size = packet_size h.payload_len;
              }))
]

-- The copy constructor and assignment, where the allocation succeeds.
pub copy : IpcPacket → IpcPacket
copy other = record {
  header = other.header;
  payload = elim other.payload [
    | none ↦ none
    | some bytes ↦
        if ltb 0 other.header.payload_len then some (take other.header.payload_len bytes) else none
  ];
  checksum = other.checksum;
  total_size = other.total_size;
}

-- The move constructor and assignment: the target, and what is left in `other`.
pub move : IpcPacket → IpcPacket × IpcPacket
move other = (
  other,
  record other { payload = none; total_size = 0; header = record other.header { payload_len = 0 } },
)

-- IsValid
pub is_valid : IpcPacket → Bool
is_valid p =
    if not (p.header.magic_id == ipc_packet_magic) || p.total_size == 0
    then false
    else (let sums = calculate_checksum p.header p.payload == p.checksum in
        elim p.payload [
          | none ↦ if ltb 0 p.header.payload_len then false else sums
          | some bytes ↦ sums
        ])

-- Serialize(buffer, buffer_size) into memory at an address; `none` for the result false.
pub serialize : IpcPacket → Memory → ℕ → ℕ → Option Memory
unfolding payload_bytes
serialize p memory at buffer_size =
    let with_header = write memory at (header_bytes p.header) in
    let with_payload = write with_header (at + header_size) (payload_bytes p.header p.payload) in
    if ltb buffer_size p.total_size
    then none
    else some (write with_payload (at + header_size + p.header.payload_len) (to_bytes 4 p.checksum))

-- Serialize() into a string of zeros.
pub serialize_string : IpcPacket → List ℕ
unfolding serialize
serialize_string p = elim (serialize p (λ at. 0) 0 p.total_size) [
  | none ↦ []
  | some memory ↦ read memory 0 p.total_size
]
