-- ===== src/IpcPacket/Wire.antt =====
-- The bytes of a header and of a packet, and what the parsing constructor makes of them.
use code_knife.Prelude.{
  ℕ, zero, suc, ◌+◌, ◌/◌, ◌^◌, ◌≤◌, ◌<◌, ◌≡◌, ltb, if◌then◌else◌, refl, sym, ap, ◌∙◌, arith, true,
  ◌⊎◌, inl, inr, Option, none, some, List, ◌++◌, take, drop, length, length-append,
  take-append_left, drop-append_left, take-all, drop-drop,
}
use native.Mathlib.Nat.{pow-succ'}
use code_knife.IpcPacket.{
  PacketHeader, IpcPacket, ipc_packet_magic, header_size, to_bytes, of_bytes, header_bytes,
  read_header, payload_bytes, calculate_checksum, parse, is_valid, serialize, serialize_string,
}
use code_knife.Memory.{Memory, write, read, write-append, read-write_self}

pub length-to_bytes : (k n : ℕ) → length (to_bytes k n) ≡ k
unfolding to_bytes
length-to_bytes zero n = refl
length-to_bytes (suc k) n = ap suc (length-to_bytes k (n / 256))

-- A number that fits k bytes is read back from them.
pub of_bytes-to_bytes : (k n : ℕ) → n < 256 ^ k → of_bytes (to_bytes k n) ≡ n
unfolding to_bytes of_bytes
of_bytes-to_bytes zero n h = omega arith
of_bytes-to_bytes (suc k) n h =
    omega (arith, of_bytes-to_bytes k (n / 256) (omega (arith, pow-succ' 256 k)))

-- Each field fits its width.
pub record InRange (h : PacketHeader) : Type 0 where
  pub magic_in : h.magic_id < 256 ^ 4
  pub version_in : h.version < 256 ^ 1
  pub type_in : h.msg_type < 256 ^ 1
  pub reserved_in : h.reserved < 256 ^ 2
  pub len_in : h.payload_len < 256 ^ 4
  pub seq_in : h.seq_num < 256 ^ 4
  pub time_in : h.timestamp < 256 ^ 8

-- The header is read back from its bytes, whatever follows them.
pub read_header-header_bytes :
    (h : PacketHeader) (rest : List ℕ) → InRange h → read_header (header_bytes h ++ rest) ≡ h
unfolding read_header header_bytes to_bytes of_bytes
read_header-header_bytes h rest r = λ i. record {
  magic_id = of_bytes-to_bytes 4 h.magic_id r.magic_in i;
  version = of_bytes-to_bytes 1 h.version r.version_in i;
  msg_type = of_bytes-to_bytes 1 h.msg_type r.type_in i;
  reserved = of_bytes-to_bytes 2 h.reserved r.reserved_in i;
  payload_len = of_bytes-to_bytes 4 h.payload_len r.len_in i;
  seq_num = of_bytes-to_bytes 4 h.seq_num r.seq_in i;
  timestamp = of_bytes-to_bytes 8 h.timestamp r.time_in i;
}

pub length-header_bytes : (h : PacketHeader) → length (header_bytes h) ≡ 24
unfolding header_bytes to_bytes
length-header_bytes h = refl

-- The payload pointer goes with the length in the header.
abbrev pub Carries : ℕ → Option (List ℕ) → Type 0
Carries len none = len ≡ 0
Carries len (some bytes) = (0 < len) × (length bytes ≡ len)

-- A packet as the constructors build it, of a size that a uint32_t holds.
pub record IsSound (p : IpcPacket) : Type 0 where
  pub in_range : InRange p.header
  pub magic : p.header.magic_id ≡ ipc_packet_magic
  pub fits : 28 + p.header.payload_len < 2 ^ 32
  pub sized : p.total_size ≡ 28 + p.header.payload_len
  pub summed : p.checksum ≡ calculate_checksum p.header p.payload
  pub carries : Carries p.header.payload_len p.payload

-- The bytes of a packet: header, payload, checksum.
unfoldable pub wire : IpcPacket → List ℕ
wire p = header_bytes p.header ++ (payload_bytes p.header p.payload ++ to_bytes 4 p.checksum)

length-payload_bytes :
    (h : PacketHeader) (payload : Option (List ℕ))
    → Carries h.payload_len payload
    → length (payload_bytes h payload) ≡ h.payload_len
unfolding payload_bytes
length-payload_bytes h none c = omega arith
length-payload_bytes h (some bytes) c =
    let whole = ap length (take-all h.payload_len bytes (omega arith)) in ground (arith, whole)

pub length-wire : (p : IpcPacket) → IsSound p → length (wire p) ≡ p.total_size
unfolding wire
length-wire p s = omega (
  arith,
  length-append (header_bytes p.header) (payload_bytes p.header p.payload ++ to_bytes 4 p.checksum),
  length-append (payload_bytes p.header p.payload) (to_bytes 4 p.checksum),
  length-header_bytes p.header,
  length-payload_bytes p.header p.payload s.carries,
  length-to_bytes 4 p.checksum,
  s.sized,
)

-- `Serialize` puts the packet's bytes at the address, or refuses a buffer that is too small.
pub serialize_lem :
    (p : IpcPacket) (memory : Memory) (at size : ℕ)
    → IsSound p
    → serialize p memory at size
      ≡ (if ltb size p.total_size then none else some (write memory at (wire p)))
unfolding serialize wire
serialize_lem p memory at size s =
    ap (λ (m : Memory). if ltb size p.total_size then none else some m) joined
  where
    payload : List ℕ
    payload = payload_bytes p.header p.payload

    joined :
        write
          (write (write memory at (header_bytes p.header)) (at + header_size) payload)
          (at + header_size + p.header.payload_len)
          (to_bytes 4 p.checksum)
        ≡ write memory at (header_bytes p.header ++ (payload ++ to_bytes 4 p.checksum))
    joined =
        ap
          (λ (t : ℕ).
            write (write (write memory at (header_bytes p.header)) (at + header_size) payload) t
              (to_bytes 4 p.checksum))
          {x = at + header_size + p.header.payload_len} {y = at + header_size + length payload}
          (omega (arith, length-payload_bytes p.header p.payload s.carries))
        ∙ write-append (write memory at (header_bytes p.header)) (at + header_size) payload
            (to_bytes 4 p.checksum)
        ∙ ap
            (λ (t : ℕ).
              write (write memory at (header_bytes p.header)) t (payload ++ to_bytes 4 p.checksum))
            {x = at + header_size} {y = at + length (header_bytes p.header)}
            (omega (arith, length-header_bytes p.header))
        ∙ write-append memory at (header_bytes p.header) (payload ++ to_bytes 4 p.checksum)

checksum-lt :
    (h : PacketHeader) (payload : Option (List ℕ)) → calculate_checksum h payload < 256 ^ 4
unfolding calculate_checksum
checksum-lt h payload = omega arith

read_header-wire : (p : IpcPacket) → IsSound p → read_header (wire p) ≡ p.header
unfolding wire
read_header-wire p s =
    read_header-header_bytes p.header (payload_bytes p.header p.payload ++ to_bytes 4 p.checksum)
      s.in_range

behind_header :
    (p : IpcPacket) → drop 24 (wire p) ≡ payload_bytes p.header p.payload ++ to_bytes 4 p.checksum
unfolding wire header_bytes to_bytes
behind_header p = refl

payload-wire :
    (p : IpcPacket)
    → IsSound p
    → take p.header.payload_len (drop 24 (wire p)) ≡ payload_bytes p.header p.payload
payload-wire p s =
    ap (take p.header.payload_len) (behind_header p)
    ∙ ap (λ (n : ℕ). take n (payload_bytes p.header p.payload ++ to_bytes 4 p.checksum))
        (sym (length-payload_bytes p.header p.payload s.carries))
    ∙ take-append_left (payload_bytes p.header p.payload) (to_bytes 4 p.checksum)

checksum-wire :
    (p : IpcPacket)
    → IsSound p
    → of_bytes (take 4 (drop (24 + p.header.payload_len) (wire p))) ≡ p.checksum
checksum-wire p s =
    ap (λ (bs : List ℕ). of_bytes (take 4 bs))
      (sym (drop-drop p.header.payload_len 24 (wire p))
        ∙ ap (drop p.header.payload_len) (behind_header p)
        ∙ ap (λ (n : ℕ). drop n (payload_bytes p.header p.payload ++ to_bytes 4 p.checksum))
            (sym (length-payload_bytes p.header p.payload s.carries))
        ∙ drop-append_left (payload_bytes p.header p.payload) (to_bytes 4 p.checksum))
    ∙ ap of_bytes (take-all 4 (to_bytes 4 p.checksum) (omega (arith, length-to_bytes 4 p.checksum)))
    ∙ of_bytes-to_bytes 4 p.checksum (omega (arith, s.summed, checksum-lt p.header p.payload))

-- A payload is null with length 0, or the bytes that the packet carries.
carried :
    (h : PacketHeader) (payload : Option (List ℕ))
    → Carries h.payload_len payload
    → ((payload ≡ none) × (h.payload_len ≡ 0))
      ⊎ ((payload ≡ some (payload_bytes h payload)) × (0 < h.payload_len))
unfolding payload_bytes
carried h none c = inl (refl, c)
carried h (some bytes) c =
    let whole = take-all h.payload_len bytes (omega arith) in inr (ground (arith, whole), c.0)

-- Parsing the bytes of a sound packet gives the packet back.
pub parse-wire :
    (unset : PacketHeader) (p : IpcPacket)
    → IsSound p
    → parse unset true (some (wire p)) p.total_size ≡ p
unfolding parse
parse-wire unset p s = ground (
  arith,
  read_header-wire p s,
  payload-wire p s,
  checksum-wire p s,
  ap (λ (h : PacketHeader). h.magic_id) (read_header-wire p s),
  ap (λ (h : PacketHeader). h.payload_len) (read_header-wire p s),
  carried p.header p.payload s.carries,
)

-- A sound packet passes the receiver's check.
pub is_valid-IsSound : (p : IpcPacket) → IsSound p → is_valid p ≡ true
unfolding is_valid
is_valid-IsSound p s =
    ground (arith, s.magic, s.sized, s.summed, carried p.header p.payload s.carries)

-- A sound packet that is serialized into a buffer large enough is parsed from there, where
-- memory can be allocated, as it was, and passes the receiver's check.
pub parse-serialize :
    (unset : PacketHeader) (p : IpcPacket) (memory : Memory) (at size : ℕ)
    → IsSound p
    → p.total_size ≤ size
    → (m : Memory) × (serialize p memory at size ≡ some m)
      × (parse unset true (some (read m at p.total_size)) p.total_size ≡ p)
      × (is_valid (parse unset true (some (read m at p.total_size)) p.total_size) ≡ true)
parse-serialize unset p memory at size s fits = (
  write memory at (wire p),
  serialize_lem p memory at size s ∙ ground arith,
  parsed,
  ap is_valid parsed ∙ is_valid-IsSound p s,
)
  where
    parsed :
        parse unset true (some (read (write memory at (wire p)) at p.total_size)) p.total_size ≡ p
    parsed =
        ap (λ (n : ℕ). parse unset true (some (read (write memory at (wire p)) at n)) p.total_size)
          (sym (length-wire p s))
        ∙ ap (λ (bs : List ℕ). parse unset true (some bs) p.total_size)
            (read-write_self memory at (wire p))
        ∙ parse-wire unset p s

-- The string of a sound packet is its bytes.
serialize_string_lem : (p : IpcPacket) → IsSound p → serialize_string p ≡ wire p
unfolding serialize_string
serialize_string_lem p s =
    let fits : serialize p (λ at. 0) 0 p.total_size ≡ some (write (λ at. 0) 0 (wire p)) =
      serialize_lem p (λ at. 0) 0 p.total_size s ∙ ground arith in
    rw (serialize_string, fits)
      (ap (λ (n : ℕ). read (write (λ at. 0) 0 (wire p)) 0 n) (sym (length-wire p s))
        ∙ read-write_self (λ at. 0) 0 (wire p))
