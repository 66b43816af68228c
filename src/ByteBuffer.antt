-- ===== src/ByteBuffer.antt =====
-- include/util/byte_buffer.hpp and src/util/byte_buffer.cpp: a view of shared, immutable bytes.
-- The vector behind the `shared_ptr` is never written, so the pointer is its bytes, or `none` for
-- a null pointer; `char` is compared by `memcmp`, as an unsigned byte.
pub mod Views
pub mod Order
mod Tests
use Prim.Native.Nat.{compare, Ordering}
use code_knife.Prelude.{
  ℕ, zero, suc, ◌+◌, ◌-◌, ◌≡◌, ◌≤◌, ◌==◌, ltb, leb, min, if◌then◌else◌, Bool, true, false, not,
  ◌||◌, Option, none, some, List, [], ◌∷◌, length, take, drop,
}

pub record ByteBuffer : Type 0 where
  pub shared : Option (List ℕ)
  pub offset : ℕ
  pub size : ℕ

-- ByteBuffer()
pub empty : ByteBuffer
empty = record { shared = some []; offset = 0; size = 0 }

-- The constructors from (pointer, size), from a string and from a vector: a copy of the bytes.
pub from_bytes : List ℕ → ByteBuffer
from_bytes bytes = record { shared = some bytes; offset = 0; size = length bytes }

-- The bytes before the first NUL, which `strlen` counts.
pub until_nul : List ℕ → List ℕ
until_nul [] = []
until_nul (c ∷ cs) = if c == 0 then [] else c ∷ until_nul cs

-- ByteBuffer(const char* cstr)
pub from_cstr : List ℕ → ByteBuffer
from_cstr memory = from_bytes (until_nul memory)

-- ByteBuffer(const ByteBuffer& other)
pub copy : ByteBuffer → ByteBuffer
copy other = record { shared = other.shared; offset = other.offset; size = other.size }

-- ByteBuffer(ByteBuffer&& other): the new buffer, and what is left in `other`.
pub move : ByteBuffer → ByteBuffer × ByteBuffer
move other = (copy other, record { shared = none; offset = 0; size = 0 })

-- operator=(const ByteBuffer&); the first argument says whether `this == &other`.
pub copy_assign : Bool → ByteBuffer → ByteBuffer → ByteBuffer
copy_assign same this other = if same then this else copy other

-- operator=(ByteBuffer&&): this buffer and `other` after the call.
pub move_assign : Bool → ByteBuffer → ByteBuffer → ByteBuffer × ByteBuffer
move_assign same this other = if same then (this, this) else move other

is_empty_list : List ℕ → Bool
is_empty_list [] = true
is_empty_list (x ∷ xs) = false

-- Data(): null, or the bytes from the pointer on.
pub data_pointer : ByteBuffer → Option (List ℕ)
unfolding is_empty_list
data_pointer b = elim b.shared [
  | none ↦ none
  | some bytes ↦ if is_empty_list bytes then none else some (drop b.offset bytes)
]

-- A read of n bytes through a pointer; a null pointer has none.
pub read : Option (List ℕ) → ℕ → List ℕ
read none n = []
read (some bytes) n = take n bytes

-- Slice(offset, length)
pub slice : ByteBuffer → ℕ → ℕ → ByteBuffer
slice b offset len = if leb b.size offset then empty else record {
  shared = b.shared;
  offset = b.offset + offset;
  size = if ltb (b.size - offset) len then b.size - offset else len;
}

-- Clone()
pub clone : ByteBuffer → ByteBuffer
clone b = if b.size == 0 then empty else from_bytes (read (data_pointer b) b.size)

-- ToString()
pub to_string : ByteBuffer → List ℕ
to_string b = if b.size == 0 then [] else read (data_pointer b) b.size

-- CopyToBytes()
pub copy_to_bytes : ByteBuffer → List ℕ
copy_to_bytes b = read (data_pointer b) b.size

-- Clear()
pub clear : ByteBuffer → ByteBuffer
clear b = record { shared = none; offset = 0; size = 0 }

-- Empty()
pub is_empty : ByteBuffer → Bool
is_empty b = b.size == 0

-- memcmp of the first n bytes: below, at or above 0.
pub memcmp : List ℕ → List ℕ → ℕ → Ordering
memcmp xs ys zero = Ordering.eq
memcmp [] ys (suc n) = Ordering.eq
memcmp (x ∷ xs) [] (suc n) = Ordering.eq
memcmp (x ∷ xs) (y ∷ ys) (suc n) =
    let rest = memcmp xs ys n in
    elim (compare x y) [ Ordering.lt ↦ Ordering.lt | Ordering.gt ↦ Ordering.gt | _ ↦ rest ]

-- memcmp(a.Data(), b.Data(), n)
abbrev pub compare_data : ByteBuffer → ByteBuffer → ℕ → Ordering
compare_data a b n = memcmp (read (data_pointer a) n) (read (data_pointer b) n) n

-- operator==
pub equal : ByteBuffer → ByteBuffer → Bool
equal a b =
    if not (a.size == b.size)
    then false
    else if a.size == 0
    then true
    else elim (compare_data a b a.size) [ Ordering.eq ↦ true | _ ↦ false ]

-- std::min(size_, other.size_)
abbrev pub min_size : ByteBuffer → ByteBuffer → ℕ
min_size a b = if ltb b.size a.size then b.size else a.size

-- operator<
pub less : ByteBuffer → ByteBuffer → Bool
less a b = if min_size a b == 0 then ltb a.size b.size else elim (compare_data a b (min_size a b)) [
  | Ordering.eq ↦ ltb a.size b.size
  | Ordering.lt ↦ true
  | Ordering.gt ↦ false
]

-- operator>
pub greater : ByteBuffer → ByteBuffer → Bool
greater a b =
    if min_size a b == 0 then ltb b.size a.size else elim (compare_data a b (min_size a b)) [
      | Ordering.eq ↦ ltb b.size a.size
      | Ordering.lt ↦ false
      | Ordering.gt ↦ true
    ]
