-- ===== src/IpcPacket/Validity.antt =====
-- Which packets the constructors make, and which data the receiver accepts.
use code_knife.Prelude.{
  ℕ, ◌+◌, ◌^◌, ◌≤◌, ◌<◌, ◌≡◌, ltb, refl, arith, Bool, true, false, Bool-cases, inl, inr, Option,
  none, some, List, length, take, length-take,
}
use code_knife.IpcPacket.{
  MessageType, PacketHeader, IpcPacket, ipc_packet_magic, message_code, make_header, seal, make,
  calculate_checksum, read_header, rejected, parse, is_valid,
}
use code_knife.IpcPacket.Wire.{InRange, Carries, IsSound}

make_header-InRange :
    (now : ℕ) (kind : MessageType) (seq len : ℕ)
    → now < 256 ^ 8
    → seq < 256 ^ 4
    → 28 + len < 2 ^ 32
    → InRange (make_header now kind seq len)
unfolding make_header message_code
make_header-InRange now MessageType.request seq len t s l = omega arith
make_header-InRange now MessageType.response seq len t s l = omega arith
make_header-InRange now MessageType.heartbeat seq len t s l = omega arith
make_header-InRange now MessageType.failure seq len t s l = omega arith

seal-IsSound :
    (now : ℕ) (kind : MessageType) (seq len : ℕ) (payload : Option (List ℕ))
    → now < 256 ^ 8
    → seq < 256 ^ 4
    → 28 + len < 2 ^ 32
    → Carries len payload
    → IsSound (seal (make_header now kind seq len) payload)
unfolding seal make_header
seal-IsSound now kind seq len payload t s l c = record {
  in_range = make_header-InRange now kind seq len t s l;
  magic = refl;
  fits = l;
  sized = omega arith;
  summed = refl;
  carries = c;
}

-- A packet made from payload bytes is sound, whether its buffer could be allocated or not, if the
-- clock, the sequence number and the size fit their fields.
pub make-IsSound :
    (allocated : Bool) (now : ℕ) (kind : MessageType) (seq : ℕ) (bytes : List ℕ) (len : ℕ)
    → now < 256 ^ 8
    → seq < 256 ^ 4
    → 28 + len < 2 ^ 32
    → len ≤ length bytes
    → IsSound (make allocated now kind seq (some bytes) len)
unfolding make
make-IsSound allocated now kind seq bytes len t s l h = elim (Bool-cases (ltb 0 len)) [
  | inr none_given ↦ simp none_given (seal-IsSound now kind seq len none t s l (ground arith))
  | inl given ↦ elim (Bool-cases allocated) [
    | inl yes' ↦
        simp (given, yes')
          (seal-IsSound now kind seq len (some (take len bytes)) t s l
            (ground arith, omega (arith, length-take len bytes)))
    | inr no' ↦ simp (given, no') (seal-IsSound now kind seq 0 none t s (omega arith) refl)
  ]
]

-- A packet made from a null payload with a length above 0 fails the receiver's check.
pub make_null :
    (allocated : Bool) (now : ℕ) (kind : MessageType) (seq len : ℕ)
    → 0 < len
    → is_valid (make allocated now kind seq none len) ≡ false
unfolding make seal make_header is_valid
make_null allocated now kind seq len h = ground arith

-- What the receiver accepts: the data was there, the header's magic number and length fit it, and
-- the checksum is that of the header and the payload.
pub record IsAccepted (data_size : ℕ) (bytes : List ℕ) (p : IpcPacket) : Type 0 where
  pub header_kept : p.header ≡ read_header bytes
  pub magic_kept : p.header.magic_id ≡ ipc_packet_magic
  pub whole_size : p.total_size ≡ 28 + p.header.payload_len
  pub within : p.total_size ≤ data_size
  pub checked : calculate_checksum p.header p.payload ≡ p.checksum

-- Whatever the data and its size below 2^32, a packet parsed from it that passes the check has
-- the header that begins the data, the magic number, a total size that fits the data, and the
-- checksum of its header and payload.
pub parse-IsAccepted :
    (unset : PacketHeader) (allocated : Bool) (bytes : List ℕ) (data_size : ℕ)
    → data_size < 2 ^ 32
    → is_valid (parse unset allocated (some bytes) data_size) ≡ true
    → IsAccepted data_size bytes (parse unset allocated (some bytes) data_size)
unfolding parse rejected is_valid
parse-IsAccepted unset allocated bytes data_size h v = ground arith
