-- ===== src/Crc32c/Checksum.antt =====
-- `Crc32c::Compute` against the bitwise definition of CRC-32C.
use code_knife.Prelude.{
  ℕ, ◌+◌, ◌-◌, ◌*◌, ◌/◌, ◌%◌, ◌^◌, ◌<◌, ◌≡◌, refl, sym, ap, ap₂, ◌∙◌, ◌↔◌, ◌⊎◌, arith, false, List,
  [], ◌∷◌, length, get_or, bit_or, bit_xor,
}
use code_knife.Prelude.Bits.{
  bit_xor_comm, bit_xor_assoc, bit_xor-zero, bit_xor-div_pow, bit_xor-lt, bit_xor_fields,
  bit_or_fields, bit_xor_ones,
}
use code_knife.Crc32c.{Crc32c, shift_bits, initialize, word, lookups, rest_bytes, blocks, compute}
use code_knife.Crc32c.Linear.{
  shift_bits_split, shift_bits-add_mul, shift_bits_enter, shift_bits-lt, shift_bits-injective,
  bit_xor-injective,
}
use code_knife.Crc32c.Tables.{IsReady, lookup_lem, initialize-IsReady}

-- Every number of the list is a byte.
abbrev pub Bytes : List ℕ → Type 0
Bytes [] = Unit {0}
Bytes (b ∷ bs) = (b < 256) × Bytes bs

-- The register of CRC-32C after the bytes: eight shifts for each byte.
unfoldable pub reference_register : ℕ → List ℕ → ℕ
reference_register crc [] = crc
reference_register crc (b ∷ bs) = reference_register (shift_bits 8 (bit_xor crc b)) bs

-- CRC-32C: all ones at the start, inverted at the end.
unfoldable pub crc32c : List ℕ → ℕ
unfolding reference_register
crc32c bytes = 2 ^ 32 - 1 - reference_register (2 ^ 32 - 1) bytes

-- The register with its first and third bytes exchanged.
unfoldable pub exchange : ℕ → ℕ
exchange x =
    x / 2 ^ 24 % 256 * 2 ^ 24 + (x % 256 * 2 ^ 16 + (x / 2 ^ 8 % 256 * 2 ^ 8 + x / 2 ^ 16 % 256))

pub rest_bytes-eq :
    {c : Crc32c} (crc : ℕ) (bs : List ℕ)
    → IsReady c
    → Bytes bs
    → rest_bytes c crc bs ≡ reference_register crc bs
unfolding rest_bytes reference_register
rest_bytes-eq crc [] r h = refl
rest_bytes-eq {c} crc (b ∷ bs) r h =
    ap (λ (t : ℕ). rest_bytes c t bs) byte ∙ rest_bytes-eq (shift_bits 8 (bit_xor crc b)) bs r h.1
  where
    high : bit_xor crc b / 256 ≡ crc / 256
    high =
        bit_xor-div_pow 8 crc b
        ∙ ap (bit_xor (crc / 256)) {x = b / 256} {y = 0} (omega arith)
        ∙ bit_xor-zero (crc / 256)

    byte :
        bit_xor (get_or c.table0 (bit_xor crc b % 256) 0) (crc / 256) ≡ shift_bits 8 (bit_xor crc b)
    byte =
        ap₂ bit_xor (r.entry0 (bit_xor crc b % 256) (omega arith)) (sym high)
        ∙ lookup_lem (bit_xor crc b)

reverse_xor : (a b c : ℕ) → bit_xor (bit_xor a b) c ≡ bit_xor (bit_xor c b) a
reverse_xor a b c =
    bit_xor_comm (bit_xor a b) c ∙ ap (bit_xor c) (bit_xor_comm a b) ∙ sym (bit_xor_assoc c b a)

-- The four lookups shift the register by 32 bits with its first and third bytes exchanged.
pub lookups-exchange : {c : Crc32c} (x : ℕ) → IsReady c → lookups c x ≡ shift_bits 32 (exchange x)
unfolding lookups exchange
lookups-exchange {c} x r =
    ap₂ bit_xor
      (ap₂ bit_xor (ap₂ bit_xor (r.entry3 x0 (omega arith)) (r.entry2 x1 (omega arith)))
        (r.entry1 x2 (omega arith)))
      (r.entry0 x3 (omega arith))
    ∙ ap (λ (t : ℕ). bit_xor t (shift_bits 8 x3))
        (reverse_xor (shift_bits 16 x0) (shift_bits 24 x1) (shift_bits 32 x2)
          ∙ ap (λ (t : ℕ). bit_xor t (shift_bits 16 x0)) (sym two)
          ∙ sym three)
    ∙ sym four
  where
    x0 : ℕ
    x0 = x % 256

    x1 : ℕ
    x1 = x / 2 ^ 8 % 256

    x2 : ℕ
    x2 = x / 2 ^ 16 % 256

    x3 : ℕ
    x3 = x / 2 ^ 24 % 256

    two : shift_bits 32 (x1 * 2 ^ 8 + x2) ≡ bit_xor (shift_bits 32 x2) (shift_bits 24 x1)
    two =
        shift_bits_split 8 32 x2 x1 (omega arith)
        ∙ ap (bit_xor (shift_bits 32 x2)) (shift_bits-add_mul 8 24 x1)

    three :
        shift_bits 32 (x0 * 2 ^ 16 + (x1 * 2 ^ 8 + x2))
        ≡ bit_xor (shift_bits 32 (x1 * 2 ^ 8 + x2)) (shift_bits 16 x0)
    three =
        shift_bits_split 16 32 (x1 * 2 ^ 8 + x2) x0 (omega arith)
        ∙ ap (bit_xor (shift_bits 32 (x1 * 2 ^ 8 + x2))) (shift_bits-add_mul 16 16 x0)

    four :
        shift_bits 32 (x3 * 2 ^ 24 + (x0 * 2 ^ 16 + (x1 * 2 ^ 8 + x2)))
        ≡ bit_xor (shift_bits 32 (x0 * 2 ^ 16 + (x1 * 2 ^ 8 + x2))) (shift_bits 8 x3)
    four =
        shift_bits_split 24 32 (x0 * 2 ^ 16 + (x1 * 2 ^ 8 + x2)) x3 (omega arith)
        ∙ ap (bit_xor (shift_bits 32 (x0 * 2 ^ 16 + (x1 * 2 ^ 8 + x2))))
            (shift_bits-add_mul 24 8 x3)

-- The exclusive or with the word is that with each byte at its place.
pub bit_xor-word :
    (crc b0 b1 b2 b3 : ℕ)
    → b0 < 256
    → b1 < 256
    → b2 < 256
    → (word b0 b1 b2 b3 ≡ b3 * 2 ^ 24 + (b2 * 2 ^ 16 + (b1 * 2 ^ 8 + b0)))
      × (bit_xor (bit_xor (bit_xor (bit_xor crc b0) (b1 * 2 ^ 8)) (b2 * 2 ^ 16)) (b3 * 2 ^ 24)
          ≡ bit_xor crc (word b0 b1 b2 b3))
unfolding word
bit_xor-word crc b0 b1 b2 b3 h0 h1 h2 = (
  sum,
  rw
      (
        bit_xor_assoc crc b0 (b1 * 2 ^ 8),
        bit_xor_fields 8 b1 b0 h0,
        bit_xor_assoc crc (b1 * 2 ^ 8 + b0) (b2 * 2 ^ 16),
        bit_xor_fields 16 b2 (b1 * 2 ^ 8 + b0) (omega arith),
        bit_xor_assoc crc (b2 * 2 ^ 16 + (b1 * 2 ^ 8 + b0)) (b3 * 2 ^ 24),
        bit_xor_fields 24 b3 (b2 * 2 ^ 16 + (b1 * 2 ^ 8 + b0)) (omega arith),
      )
      (ap (bit_xor crc) (sym sum)),
)
  where
    or01 : bit_or b0 (b1 * 2 ^ 8) ≡ b1 * 2 ^ 8 + b0
    or01 = bit_or_fields 8 b1 b0 h0

    sum :
        bit_or (bit_or (bit_or b0 (b1 * 2 ^ 8)) (b2 * 2 ^ 16)) (b3 * 2 ^ 24)
        ≡ b3 * 2 ^ 24 + (b2 * 2 ^ 16 + (b1 * 2 ^ 8 + b0))
    sum =
        rw (or01, bit_or_fields 16 b2 (b1 * 2 ^ 8 + b0) (omega arith))
          (bit_or_fields 24 b3 (b2 * 2 ^ 16 + (b1 * 2 ^ 8 + b0)) (omega arith))

-- Four bytes of the reference are 32 shifts of the register after the exclusive or with the word.
pub reference_register-word :
    (crc b0 b1 b2 b3 : ℕ) (bs : List ℕ)
    → b0 < 256
    → b1 < 256
    → b2 < 256
    → reference_register crc (b0 ∷ b1 ∷ b2 ∷ b3 ∷ bs)
      ≡ reference_register (shift_bits 32 (bit_xor crc (word b0 b1 b2 b3))) bs
unfolding reference_register
reference_register-word crc b0 b1 b2 b3 bs h0 h1 h2 =
    ap (λ (t : ℕ). reference_register t bs)
      (ap (λ (t : ℕ). shift_bits 8 (bit_xor (shift_bits 8 (bit_xor t b2)) b3))
          (shift_bits_enter 8 8 (bit_xor crc b0) b1)
        ∙ ap (λ (t : ℕ). shift_bits 8 (bit_xor t b3))
            (shift_bits_enter 16 8 (bit_xor (bit_xor crc b0) (b1 * 2 ^ 8)) b2)
        ∙ shift_bits_enter 24 8 (bit_xor (bit_xor (bit_xor crc b0) (b1 * 2 ^ 8)) (b2 * 2 ^ 16)) b3
        ∙ ap (shift_bits 32) (bit_xor-word crc b0 b1 b2 b3 h0 h1 h2).1)

blocks_short :
    (c : Crc32c) (crc : ℕ) (bs : List ℕ) → length bs < 4 → blocks c crc bs ≡ rest_bytes c crc bs
unfolding blocks
blocks_short c crc [] h = refl
blocks_short c crc (a ∷ []) h = refl
blocks_short c crc (a ∷ b ∷ []) h = refl
blocks_short c crc (a ∷ b ∷ d ∷ []) h = refl
blocks_short c crc (a ∷ b ∷ d ∷ e ∷ bs) h = absurd (omega arith)

reference_register-injective :
    (a b : ℕ) (bs : List ℕ)
    → Bytes bs
    → a < 2 ^ 32
    → b < 2 ^ 32
    → reference_register a bs ≡ reference_register b bs
    → a ≡ b
unfolding reference_register
reference_register-injective a b [] h p q e = e
reference_register-injective a b (x ∷ bs) h p q e =
    let pa : bit_xor a x < 2 ^ 32 = bit_xor-lt 32 a x p (omega arith) in
    let pb : bit_xor b x < 2 ^ 32 = bit_xor-lt 32 b x q (omega arith) in
    let same : bit_xor a x ≡ bit_xor b x =
      shift_bits-injective 8 (bit_xor a x) (bit_xor b x) pa pb (
        reference_register-injective (shift_bits 8 (bit_xor a x)) (shift_bits 8 (bit_xor b x)) bs
          h.1 (shift_bits-lt 8 (bit_xor a x) pa) (shift_bits-lt 8 (bit_xor b x) pb) e) in
    bit_xor-injective x a b (bit_xor_comm x a ∙ same ∙ bit_xor_comm b x)

reference_register-lt :
    (a : ℕ) (bs : List ℕ) → Bytes bs → a < 2 ^ 32 → reference_register a bs < 2 ^ 32
unfolding reference_register
reference_register-lt a [] h p = p
reference_register-lt a (x ∷ bs) h p =
    reference_register-lt (shift_bits 8 (bit_xor a x)) bs h.1
      (shift_bits-lt 8 (bit_xor a x) (bit_xor-lt 32 a x p (omega arith)))

-- The static members before the first call, or after one.
abbrev pub Usable : Crc32c → Type 0
Usable c = (c.initialized ≡ false) ⊎ IsReady c

-- With tables that are unset or complete, fewer than four bytes are checked as CRC-32C defines
-- it.
pub compute_short :
    (c : Crc32c) (bytes : List ℕ)
    → Usable c
    → Bytes bytes
    → length bytes < 4
    → (compute c bytes).0 ≡ crc32c bytes
unfolding compute crc32c
compute_short c bytes u h short =
    ap (λ (t : ℕ). 2 ^ 32 - 1 - t)
      (blocks_short (initialize c) (2 ^ 32 - 1) bytes short
        ∙ rest_bytes-eq (2 ^ 32 - 1) bytes (initialize-IsReady c u) h)

exchange-lt : (x : ℕ) → exchange x < 2 ^ 32
unfolding exchange
exchange-lt x = omega arith

-- The register after the first word, all ones before it.
ones-word :
    (b0 b1 b2 b3 : ℕ)
    → b0 < 256
    → b1 < 256
    → b2 < 256
    → b3 < 256
    → bit_xor (2 ^ 32 - 1) (word b0 b1 b2 b3)
      ≡ 2 ^ 32 - 1 - (b3 * 2 ^ 24 + (b2 * 2 ^ 16 + (b1 * 2 ^ 8 + b0)))
ones-word b0 b1 b2 b3 h0 h1 h2 h3 =
    ap (bit_xor (2 ^ 32 - 1)) (bit_xor-word 0 b0 b1 b2 b3 h0 h1 h2).0
    ∙ bit_xor_ones 32 (b3 * 2 ^ 24 + (b2 * 2 ^ 16 + (b1 * 2 ^ 8 + b0))) (omega arith)

exchange-word :
    (b0 b1 b2 b3 : ℕ)
    → b0 < 256
    → b1 < 256
    → b2 < 256
    → b3 < 256
    → exchange (bit_xor (2 ^ 32 - 1) (word b0 b1 b2 b3)) ≡ bit_xor (2 ^ 32 - 1) (word b2 b1 b0 b3)
unfolding exchange
exchange-word b0 b1 b2 b3 h0 h1 h2 h3 =
    omega (arith, ones-word b0 b1 b2 b3 h0 h1 h2 h3, ones-word b2 b1 b0 b3 h2 h1 h0 h3)

-- With tables that are unset or complete, four to seven bytes get the CRC-32C of the bytes
-- with the first and the third exchanged.
pub compute_block :
    (c : Crc32c) (b0 b1 b2 b3 : ℕ) (bs : List ℕ)
    → Usable c
    → Bytes (b0 ∷ b1 ∷ b2 ∷ b3 ∷ bs)
    → length bs < 4
    → (compute c (b0 ∷ b1 ∷ b2 ∷ b3 ∷ bs)).0 ≡ crc32c (b2 ∷ b1 ∷ b0 ∷ b3 ∷ bs)
unfolding compute crc32c blocks
compute_block c b0 b1 b2 b3 bs u h short =
    ap (λ (t : ℕ). 2 ^ 32 - 1 - t)
      (blocks_short (initialize c) (lookups (initialize c) x) bs short
        ∙ rest_bytes-eq (lookups (initialize c) x) bs ready h.1.1.1.1
        ∙ ap (λ (t : ℕ). reference_register t bs)
            (lookups-exchange x ready ∙ ap (shift_bits 32) swapped)
        ∙ sym (reference_register-word (2 ^ 32 - 1) b2 b1 b0 b3 bs h.1.1.0 h.1.0 h.0))
  where
    ready : IsReady (initialize c)
    ready = initialize-IsReady c u

    x : ℕ
    x = bit_xor (2 ^ 32 - 1) (word b0 b1 b2 b3)

    swapped : exchange x ≡ bit_xor (2 ^ 32 - 1) (word b2 b1 b0 b3)
    swapped = exchange-word b0 b1 b2 b3 h.0 h.1.0 h.1.1.0 h.1.1.1.0

-- Exchanging the first and third bytes changes CRC-32C unless they are equal.
crc32c_exchange :
    (b0 b1 b2 b3 : ℕ) (bs : List ℕ)
    → Bytes (b0 ∷ b1 ∷ b2 ∷ b3 ∷ bs)
    → crc32c (b2 ∷ b1 ∷ b0 ∷ b3 ∷ bs) ≡ crc32c (b0 ∷ b1 ∷ b2 ∷ b3 ∷ bs)
    → b0 ≡ b2
unfolding crc32c
crc32c_exchange b0 b1 b2 b3 bs h e = omega (
  arith,
  ones-word b0 b1 b2 b3 h.0 h.1.0 h.1.1.0 h.1.1.1.0,
  ones-word b2 b1 b0 b3 h.1.1.0 h.1.0 h.0 h.1.1.1.0,
  same_word,
)
  where
    x : ℕ
    x = bit_xor (2 ^ 32 - 1) (word b2 b1 b0 b3)

    y : ℕ
    y = bit_xor (2 ^ 32 - 1) (word b0 b1 b2 b3)

    x-lt : x < 2 ^ 32
    x-lt = omega (arith, ones-word b2 b1 b0 b3 h.1.1.0 h.1.0 h.0 h.1.1.1.0)

    y-lt : y < 2 ^ 32
    y-lt = omega (arith, ones-word b0 b1 b2 b3 h.0 h.1.0 h.1.1.0 h.1.1.1.0)

    tails : reference_register (shift_bits 32 x) bs ≡ reference_register (shift_bits 32 y) bs
    tails =
        let p = reference_register-word (2 ^ 32 - 1) b2 b1 b0 b3 bs h.1.1.0 h.1.0 h.0 in
        let q = reference_register-word (2 ^ 32 - 1) b0 b1 b2 b3 bs h.0 h.1.0 h.1.1.0 in
        let l = reference_register-lt (shift_bits 32 x) bs h.1.1.1.1 (shift_bits-lt 32 x x-lt) in
        let r = reference_register-lt (shift_bits 32 y) bs h.1.1.1.1 (shift_bits-lt 32 y y-lt) in
        omega (arith, e, p, q, l, r)

    same_word : x ≡ y
    same_word = shift_bits-injective 32 x y x-lt y-lt (
        reference_register-injective (shift_bits 32 x) (shift_bits 32 y) bs h.1.1.1.1
          (shift_bits-lt 32 x x-lt) (shift_bits-lt 32 y y-lt) tails)

-- For four to seven bytes, with tables that are unset or complete, the result is CRC-32C
-- exactly when the first and third bytes are equal.
pub compute_correct_iff :
    (c : Crc32c) (b0 b1 b2 b3 : ℕ) (bs : List ℕ)
    → Usable c
    → Bytes (b0 ∷ b1 ∷ b2 ∷ b3 ∷ bs)
    → length bs < 4
    → ((compute c (b0 ∷ b1 ∷ b2 ∷ b3 ∷ bs)).0 ≡ crc32c (b0 ∷ b1 ∷ b2 ∷ b3 ∷ bs)) ↔ (b0 ≡ b2)
compute_correct_iff c b0 b1 b2 b3 bs u h short = (
  λ e. crc32c_exchange b0 b1 b2 b3 bs h (sym code ∙ e),
  λ e. code ∙ ap₂ (λ (s t : ℕ). crc32c (s ∷ b1 ∷ t ∷ b3 ∷ bs)) (sym e) e,
)
  where
    code : (compute c (b0 ∷ b1 ∷ b2 ∷ b3 ∷ bs)).0 ≡ crc32c (b2 ∷ b1 ∷ b0 ∷ b3 ∷ bs)
    code = compute_block c b0 b1 b2 b3 bs u h short

-- The static members after a call make the next call give what the first would have given.
pub compute_again :
    (c : Crc32c) (first bytes : List ℕ) → compute (compute c first).1 bytes ≡ compute c bytes
unfolding compute initialize
compute_again c first bytes = ground arith
