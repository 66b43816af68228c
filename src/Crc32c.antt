-- ===== src/Crc32c.antt =====
-- include/util/crc32c.hpp and src/util/crc32c.cpp: the CRC-32C checksum by four lookup tables.
-- A byte and a table entry are numbers; a shift right is a division, `& 0xff` a remainder by 256.
-- The static members are the fields of `Crc32c`, passed and returned.
mod Linear
mod Tables
pub mod Checksum
mod Tests
use code_knife.Prelude.{
  ℕ, zero, suc, ◌+◌, ◌-◌, ◌*◌, ◌/◌, ◌%◌, ◌^◌, ◌==◌, if◌then◌else◌, Bool, true, false, List, [], ◌∷◌,
  ◌++◌, get_or, replicate, bit_or, bit_xor,
}

abbrev pub polynomial : ℕ
polynomial = 0x82F63B78

pub record Crc32c : Type 0 where
  pub table0 : List ℕ
  pub table1 : List ℕ
  pub table2 : List ℕ
  pub table3 : List ℕ
  pub initialized : Bool

-- The static members before any call.
pub static_state : Crc32c
static_state = record {
  table0 = replicate 256 0;
  table1 = replicate 256 0;
  table2 = replicate 256 0;
  table3 = replicate 256 0;
  initialized = false;
}

-- (crc >> 1) ^ ((crc & 1) ? 0x82F63B78 : 0)
pub shift_bit : ℕ → ℕ
shift_bit crc = bit_xor (crc / 2) (if crc % 2 == 1 then polynomial else 0)

-- The inner loop `for j < rounds` of the first table.
pub shift_bits : ℕ → ℕ → ℕ
shift_bits zero crc = crc
shift_bits (suc rounds) crc = shift_bits rounds (shift_bit crc)

-- table[crc & 0xff] ^ (crc >> 8)
pub shift_byte : List ℕ → ℕ → ℕ
shift_byte table crc = bit_xor (get_or table (crc % 256) 0) (crc / 256)

-- The inner loops `for j < rounds` of the other tables.
pub shift_bytes : List ℕ → ℕ → ℕ → ℕ
shift_bytes table zero crc = crc
shift_bytes table (suc rounds) crc = shift_bytes table rounds (shift_byte table crc)

-- `for i < 256: table[i] = entry(i)`
pub fill : (ℕ → ℕ) → ℕ → List ℕ
fill entry zero = []
fill entry (suc n) = fill entry n ++ entry n ∷ []

pub initialize : Crc32c → Crc32c
initialize c =
    if c.initialized
    then c
    else let t0 = fill (shift_bits 8) 256 in
      record {
        table0 = t0;
        table1 = fill (λ i. shift_bytes t0 3 (get_or t0 i 0)) 256;
        table2 = fill (λ i. shift_bytes t0 2 (get_or t0 i 0)) 256;
        table3 = fill (λ i. shift_byte t0 (get_or t0 i 0)) 256;
        initialized = true;
      }

-- ptr[0] | ptr[1] << 8 | ptr[2] << 16 | ptr[3] << 24
pub word : ℕ → ℕ → ℕ → ℕ → ℕ
word b0 b1 b2 b3 = bit_or (bit_or (bit_or b0 (b1 * 2 ^ 8)) (b2 * 2 ^ 16)) (b3 * 2 ^ 24)

-- The four lookups of a block, on the register after the exclusive or with the word.
pub lookups : Crc32c → ℕ → ℕ
lookups c crc =
    bit_xor
      (bit_xor (bit_xor (get_or c.table3 (crc % 256) 0) (get_or c.table2 (crc / 2 ^ 8 % 256) 0))
        (get_or c.table1 (crc / 2 ^ 16 % 256) 0))
      (get_or c.table0 (crc / 2 ^ 24 % 256) 0)

-- while (length-- > 0)
pub rest_bytes : Crc32c → ℕ → List ℕ → ℕ
rest_bytes c crc [] = crc
rest_bytes c crc (b ∷ bs) =
    rest_bytes c (bit_xor (get_or c.table0 (bit_xor crc b % 256) 0) (crc / 256)) bs

-- while (length >= 4), then the loop over the remaining bytes
pub blocks : Crc32c → ℕ → List ℕ → ℕ
blocks c crc (b0 ∷ b1 ∷ b2 ∷ b3 ∷ bs) = blocks c (lookups c (bit_xor crc (word b0 b1 b2 b3))) bs
blocks c crc bs = rest_bytes c crc bs

-- The result and the static members after the call.
pub compute : Crc32c → List ℕ → ℕ × Crc32c
compute c bytes = let ready = initialize c in (2 ^ 32 - 1 - blocks ready (2 ^ 32 - 1) bytes, ready)
