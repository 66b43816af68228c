-- ===== src/Crc32c/Linear.antt =====
-- The register of the checksum as a linear map: a shift by one bit commutes with exclusive or, so
-- a shift by n bits of a register is the exclusive or of the shifts of its parts.
use code_knife.Prelude.{
  ℕ, zero, suc, ◌+◌, ◌*◌, ◌/◌, ◌%◌, ◌^◌, ◌<◌, ◌==◌, if◌then◌else◌, ◌≡◌, refl, sym, ap, ap₂, ◌∙◌,
  arith, bit_xor,
}
use code_knife.Prelude.Bits.{
  bit_xor-half, bit_xor-parity, bit_xor-zero, zero-bit_xor, bit_xor_comm, bit_xor_assoc,
  bit_xor_cancel, bit_xor-div_pow, bit_xor-lt, bit_xor_fields,
}
use native.Mathlib.Nat.{pow-suc}
use code_knife.Crc32c.{polynomial, shift_bit, shift_bits}

-- (a ^ b) ^ (c ^ d) with the inner two exchanged
pub swap_inner :
    (a b c d : ℕ) → bit_xor (bit_xor a b) (bit_xor c d) ≡ bit_xor (bit_xor a c) (bit_xor b d)
swap_inner a b c d =
    bit_xor_assoc a b (bit_xor c d)
    ∙ ap (bit_xor a) (
        sym (bit_xor_assoc b c d)
        ∙ ap (λ (t : ℕ). bit_xor t d) (bit_xor_comm b c)
        ∙ bit_xor_assoc c b d)
    ∙ sym (bit_xor_assoc a c (bit_xor b d))

abbrev feedback : ℕ → ℕ
feedback r = if r == 1 then polynomial else 0

feedback-bit_xor :
    (r s : ℕ) → r < 2 → s < 2 → feedback ((r + s) % 2) ≡ bit_xor (feedback r) (feedback s)
feedback-bit_xor zero zero p q = refl
feedback-bit_xor zero (suc zero) p q = refl
feedback-bit_xor zero (suc (suc s)) p q = absurd (omega arith)
feedback-bit_xor (suc zero) zero p q = refl
feedback-bit_xor (suc zero) (suc zero) p q = refl
feedback-bit_xor (suc zero) (suc (suc s)) p q = absurd (omega arith)
feedback-bit_xor (suc (suc r)) s p q = absurd (omega arith)

pub shift_bit-bit_xor : (a b : ℕ) → shift_bit (bit_xor a b) ≡ bit_xor (shift_bit a) (shift_bit b)
unfolding shift_bit
shift_bit-bit_xor a b =
    ap₂ bit_xor (bit_xor-half a b) (
      ap feedback (bit_xor-parity a b)
      ∙ feedback-bit_xor (a % 2) (b % 2) (omega arith) (omega arith))
    ∙ swap_inner (a / 2) (b / 2) (feedback (a % 2)) (feedback (b % 2))

pub shift_bits-bit_xor :
    (n a b : ℕ) → shift_bits n (bit_xor a b) ≡ bit_xor (shift_bits n a) (shift_bits n b)
unfolding shift_bits
shift_bits-bit_xor zero a b = refl
shift_bits-bit_xor (suc n) a b =
    ap (shift_bits n) (shift_bit-bit_xor a b) ∙ shift_bits-bit_xor n (shift_bit a) (shift_bit b)

pub shift_bits-add : (n m a : ℕ) → shift_bits (n + m) a ≡ shift_bits m (shift_bits n a)
unfolding shift_bits
shift_bits-add zero m a = let e : zero + m ≡ m = omega arith in ap (λ (t : ℕ). shift_bits t a) e
shift_bits-add (suc n) m a =
    let e : suc n + m ≡ suc (n + m) = omega arith in
    ap (λ (t : ℕ). shift_bits t a) e ∙ shift_bits-add n m (shift_bit a)

shift_bit-even : (a b : ℕ) → a ≡ 2 * b → shift_bit a ≡ b
unfolding shift_bit
shift_bit-even a b e = ground (arith, bit_xor-zero (a / 2))

-- Zero bits at the bottom are shifted out with no feedback.
pub shift_bits-mul : (n q : ℕ) → shift_bits n (q * 2 ^ n) ≡ q
unfolding shift_bits
shift_bits-mul zero q = omega arith
shift_bits-mul (suc n) q =
    ap (shift_bits n) (
      shift_bit-even (q * 2 ^ suc n) (q * 2 ^ n)
        (omega (arith, ap (λ (t : ℕ). q * t) (pow-suc 2 n))))
    ∙ shift_bits-mul n q

pub shift_bits-add_mul : (n m q : ℕ) → shift_bits (n + m) (q * 2 ^ n) ≡ shift_bits m q
shift_bits-add_mul n m q = shift_bits-add n m (q * 2 ^ n) ∙ ap (shift_bits m) (shift_bits-mul n q)

pub shift_bits-zero : (n : ℕ) → shift_bits n 0 ≡ 0
unfolding shift_bits shift_bit
shift_bits-zero zero = refl
shift_bits-zero (suc n) = shift_bits-zero n

-- A register is the exclusive or of its lowest n bits and the rest.
pub shift_bits_split :
    (n m r q : ℕ)
    → r < 2 ^ n
    → shift_bits m (q * 2 ^ n + r) ≡ bit_xor (shift_bits m r) (shift_bits m (q * 2 ^ n))
shift_bits_split n m r q h =
    ap (shift_bits m) (sym (bit_xor_fields n q r h)) ∙ shift_bits-bit_xor m r (q * 2 ^ n)

-- A byte that enters after n shifts is the same as one that enters n digits higher before them.
pub shift_bits_enter :
    (n m a b : ℕ)
    → shift_bits m (bit_xor (shift_bits n a) b) ≡ shift_bits (n + m) (bit_xor a (b * 2 ^ n))
shift_bits_enter n m a b =
    ap (λ (t : ℕ). shift_bits m (bit_xor (shift_bits n a) t)) (sym (shift_bits-mul n b))
    ∙ ap (shift_bits m) (sym (shift_bits-bit_xor n a (b * 2 ^ n)))
    ∙ sym (shift_bits-add n m (bit_xor a (b * 2 ^ n)))

-- The top bit of a shifted register is the bit that was shifted out.
feedback-div : (r : ℕ) → r < 2 → feedback r / 2 ^ 31 ≡ r
feedback-div zero h = refl
feedback-div (suc zero) h = refl
feedback-div (suc (suc r)) h = absurd (omega arith)

feedback-lt : (r : ℕ) → r < 2 → feedback r < 2 ^ 32
feedback-lt r h = ground arith

shift_bit_top : (a : ℕ) → a < 2 ^ 32 → shift_bit a / 2 ^ 31 ≡ a % 2
unfolding shift_bit
shift_bit_top a h =
    bit_xor-div_pow 31 (a / 2) (feedback (a % 2))
    ∙ ap₂ bit_xor {x = a / 2 / 2 ^ 31} {y = 0} (omega arith) (feedback-div (a % 2) (omega arith))
    ∙ zero-bit_xor (a % 2)

pub shift_bits-lt : (n a : ℕ) → a < 2 ^ 32 → shift_bits n a < 2 ^ 32
unfolding shift_bits shift_bit
shift_bits-lt zero a h = h
shift_bits-lt (suc n) a h =
    shift_bits-lt n (shift_bit a)
      (bit_xor-lt 32 (a / 2) (feedback (a % 2)) (omega arith) (feedback-lt (a % 2) (omega arith)))

-- Exclusive or with the same number can be undone.
pub bit_xor-injective : (a b c : ℕ) → bit_xor a b ≡ bit_xor a c → b ≡ c
bit_xor-injective a b c e = sym (bit_xor_cancel a b) ∙ ap (bit_xor a) e ∙ bit_xor_cancel a c

shift_bit-injective : (a b : ℕ) → a < 2 ^ 32 → b < 2 ^ 32 → shift_bit a ≡ shift_bit b → a ≡ b
unfolding shift_bit
shift_bit-injective a b p q e =
    let parity : a % 2 ≡ b % 2 =
      sym (shift_bit_top a p) ∙ ap (λ (t : ℕ). t / 2 ^ 31) e ∙ shift_bit_top b q in
    let half : a / 2 ≡ b / 2 = bit_xor-injective (feedback (b % 2)) (a / 2) (b / 2) (
      bit_xor_comm (feedback (b % 2)) (a / 2)
      ∙ ap (λ (t : ℕ). bit_xor (a / 2) (feedback t)) (sym parity)
      ∙ e
      ∙ bit_xor_comm (b / 2) (feedback (b % 2))) in
    omega arith

-- Different registers stay different under any number of shifts.
pub shift_bits-injective :
    (n a b : ℕ) → a < 2 ^ 32 → b < 2 ^ 32 → shift_bits n a ≡ shift_bits n b → a ≡ b
unfolding shift_bits
shift_bits-injective zero a b p q e = e
shift_bits-injective (suc n) a b p q e = shift_bit-injective a b p q (
    shift_bits-injective n (shift_bit a) (shift_bit b) (shift_bits-lt 1 a p) (shift_bits-lt 1 b q)
      e)
