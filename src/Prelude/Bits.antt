-- ===== src/Prelude/Bits.antt =====
-- Exclusive or, or and and of native numbers at variables: the equation for the lowest digit, and
-- the laws that follow from it by induction on the number of digits.
use Prim.Native.Nat.{
  ℕ, zero, suc, ◌+◌, ◌-◌, ◌*◌, ◌/◌, ◌%◌, ◌^◌, ◌≤◌, ◌<◌, min, max, bit_and, bit_or, bit_xor, digits,
  bitwise, differ, bit_and-bitwise, bit_or-bitwise, bit_xor-bitwise,
}
use mathlib.Core.Path.{◌≡◌, refl, sym, ap, ◌∙◌}
use native.Mathlib.Nat.{
  le_refl, pow-suc, pow-succ', div-div-eq-div-mul, div-one, div-eq_of_lt, div-lt_iff_lt-mul,
  one-le-pow,
}
use native.Mathlib.Omega.{arith}

-- The recursion on binary digits that the native operations stand for counts its steps; any count
-- that is at least the first number gives the same result.
module _ (rest : ℕ → ℕ) (join : ℕ → ℕ → ℕ) where
  digits-none : (steps y : ℕ) → digits rest join steps 0 y ≡ rest y
  digits-none zero y = refl
  digits-none (suc steps) y = refl

  steps_enough : (x y steps : ℕ) → x ≤ steps → digits rest join steps x y ≡ bitwise rest join x y
  steps_enough x y steps within = compare_steps x y steps x within (le_refl x)
    where
      compare_steps :
          (x y p q : ℕ) → x ≤ p → x ≤ q → digits rest join p x y ≡ digits rest join q x y
      compare_steps zero y p q i j = digits-none p y ∙ sym (digits-none q y)
      compare_steps (suc x) y zero q i j = elim i [ ]
      compare_steps (suc x) y (suc p) zero i j = elim j [ ]
      compare_steps (suc x) y (suc p) (suc q) i j =
          let half = compare_steps (suc x / 2) (y / 2) p q (omega arith) (omega arith) in
          ap (λ (t : ℕ). t * 2 + join (suc x % 2) (y % 2)) half

  lowest_digit :
      (x y : ℕ)
      → bitwise rest join (suc x) y
        ≡ bitwise rest join (suc x / 2) (y / 2) * 2 + join (suc x % 2) (y % 2)
  lowest_digit x y =
      ap (λ (t : ℕ). t * 2 + join (suc x % 2) (y % 2))
        (steps_enough (suc x / 2) (y / 2) x (omega arith))

bit_or_step : (x y : ℕ) → bit_or x y ≡ bit_or (x / 2) (y / 2) * 2 + max (x % 2) (y % 2)
bit_or_step zero y = simp bit_or-bitwise (omega arith)
bit_or_step (suc x) y = simp bit_or-bitwise (lowest_digit (λ r. r) max x y)

bit_xor_step : (x y : ℕ) → bit_xor x y ≡ bit_xor (x / 2) (y / 2) * 2 + differ (x % 2) (y % 2)
bit_xor_step zero y = simp bit_xor-bitwise (omega arith)
bit_xor_step (suc x) y = simp bit_xor-bitwise (lowest_digit (λ r. r) differ x y)

-- Two binary digits differ in their sum modulo 2.
differ_small : (x y : ℕ) → x < 2 → y < 2 → differ x y ≡ (x + y) % 2
differ_small zero zero p q = refl
differ_small zero (suc zero) p q = refl
differ_small zero (suc (suc y)) p q = absurd (omega arith)
differ_small (suc zero) zero p q = refl
differ_small (suc zero) (suc zero) p q = refl
differ_small (suc zero) (suc (suc y)) p q = absurd (omega arith)
differ_small (suc (suc x)) y p q = absurd (omega arith)

differ-mod : (a b : ℕ) → differ (a % 2) (b % 2) ≡ (a % 2 + b % 2) % 2
differ-mod a b = differ_small (a % 2) (b % 2) (omega arith) (omega arith)

-- Halves and parities of an exclusive or.
pub bit_xor-half : (a b : ℕ) → bit_xor a b / 2 ≡ bit_xor (a / 2) (b / 2)
bit_xor-half a b = omega (arith, bit_xor_step a b, differ-mod a b)

pub bit_xor-parity : (a b : ℕ) → bit_xor a b % 2 ≡ (a % 2 + b % 2) % 2
bit_xor-parity a b = omega (arith, bit_xor_step a b, differ-mod a b)

bit_xor-zero_fuel : (n a : ℕ) → a ≤ n → bit_xor a 0 ≡ a
bit_xor-zero_fuel n zero h = refl
bit_xor-zero_fuel zero (suc a) h = absurd (omega arith)
bit_xor-zero_fuel (suc n) (suc a) h = omega (
  arith,
  bit_xor-half (suc a) 0,
  bit_xor-parity (suc a) 0,
  bit_xor-zero_fuel n (suc a / 2) (omega arith),
)

pub bit_xor-zero : (a : ℕ) → bit_xor a 0 ≡ a
bit_xor-zero a = bit_xor-zero_fuel a a (le_refl a)

pub zero-bit_xor : (a : ℕ) → bit_xor 0 a ≡ a
zero-bit_xor a = bit_xor-bitwise 0 a

bit_xor-comm_fuel : (n a b : ℕ) → a ≤ n → bit_xor a b ≡ bit_xor b a
bit_xor-comm_fuel n zero b h = omega (arith, zero-bit_xor b, bit_xor-zero b)
bit_xor-comm_fuel zero (suc a) b h = absurd (omega arith)
bit_xor-comm_fuel (suc n) (suc a) b h = omega (
  arith,
  bit_xor-half (suc a) b,
  bit_xor-parity (suc a) b,
  bit_xor-half b (suc a),
  bit_xor-parity b (suc a),
  bit_xor-comm_fuel n (suc a / 2) (b / 2) (omega arith),
)

pub bit_xor_comm : (a b : ℕ) → bit_xor a b ≡ bit_xor b a
bit_xor_comm a b = bit_xor-comm_fuel a a b (le_refl a)

-- Two numbers with equal halves and parities are equal.
eq_of_halves : (x y : ℕ) → x / 2 ≡ y / 2 → x % 2 ≡ y % 2 → x ≡ y
eq_of_halves x y p q = omega arith

bit_xor-assoc_fuel : (n a b c : ℕ) → a ≤ n → bit_xor (bit_xor a b) c ≡ bit_xor a (bit_xor b c)
bit_xor-assoc_fuel n zero b c h = rw (zero-bit_xor b) (rw (zero-bit_xor (bit_xor b c)) refl)
bit_xor-assoc_fuel zero (suc a) b c h = absurd (omega arith)
bit_xor-assoc_fuel (suc n) (suc a) b c h =
    eq_of_halves _ _
      (rw
        (
          bit_xor-half (bit_xor (suc a) b) c,
          bit_xor-half (suc a) b,
          bit_xor-half (suc a) (bit_xor b c),
          bit_xor-half b c,
        )
        (bit_xor-assoc_fuel n (suc a / 2) (b / 2) (c / 2) (omega arith)))
      (omega (
        arith,
        bit_xor-parity (bit_xor (suc a) b) c,
        bit_xor-parity (suc a) b,
        bit_xor-parity (suc a) (bit_xor b c),
        bit_xor-parity b c,
      ))

pub bit_xor_assoc : (a b c : ℕ) → bit_xor (bit_xor a b) c ≡ bit_xor a (bit_xor b c)
bit_xor_assoc a b c = bit_xor-assoc_fuel a a b c (le_refl a)

bit_xor_self_fuel : (n a : ℕ) → a ≤ n → bit_xor a a ≡ 0
bit_xor_self_fuel n zero h = refl
bit_xor_self_fuel zero (suc a) h = absurd (omega arith)
bit_xor_self_fuel (suc n) (suc a) h = omega (
  arith,
  bit_xor-half (suc a) (suc a),
  bit_xor-parity (suc a) (suc a),
  bit_xor_self_fuel n (suc a / 2) (omega arith),
)

pub bit_xor_self : (a : ℕ) → bit_xor a a ≡ 0
bit_xor_self a = bit_xor_self_fuel a a (le_refl a)

-- b ^ a ^ a
pub bit_xor_cancel : (a b : ℕ) → bit_xor a (bit_xor a b) ≡ b
bit_xor_cancel a b =
    sym (bit_xor_assoc a a b) ∙ ap (λ (t : ℕ). bit_xor t b) (bit_xor_self a) ∙ zero-bit_xor b

div-pow_suc : (k a : ℕ) → a / 2 ^ suc k ≡ a / 2 / 2 ^ k
div-pow_suc k a = rw pow-succ' (sym (div-div-eq-div-mul a 2 (2 ^ k)))

-- Exclusive or acts on the digits above a position.
pub bit_xor-div_pow : (k a b : ℕ) → bit_xor a b / 2 ^ k ≡ bit_xor (a / 2 ^ k) (b / 2 ^ k)
bit_xor-div_pow zero a b = simp div-one
bit_xor-div_pow (suc k) a b =
    rw (div-pow_suc k (bit_xor a b), div-pow_suc k a, div-pow_suc k b, bit_xor-half a b)
      (bit_xor-div_pow k (a / 2) (b / 2))

-- Exclusive or stays within a width.
pub bit_xor-lt : (k a b : ℕ) → a < 2 ^ k → b < 2 ^ k → bit_xor a b < 2 ^ k
bit_xor-lt k a b p q = omega (
  arith,
  (div-lt_iff_lt-mul {k = 2 ^ k} {x = bit_xor a b} {y = 1} (one-le-pow k 2 (omega arith))).0
      (rw (bit_xor-div_pow k a b, div-eq_of_lt p, div-eq_of_lt q) (omega arith)),
)

mul-two-pow_suc : (q k : ℕ) → q * 2 ^ suc k ≡ 2 * (q * 2 ^ k)
mul-two-pow_suc q k = omega (arith, ap (λ (t : ℕ). q * t) (pow-suc 2 k))

-- r ^ (q << k) and r | (q << k) are sums where r fits k bits.
pub bit_xor_fields : (k q r : ℕ) → r < 2 ^ k → bit_xor r (q * 2 ^ k) ≡ q * 2 ^ k + r
bit_xor_fields zero q r h = ground (arith, zero-bit_xor (q * 1))
bit_xor_fields (suc k) q r h = ground (
  arith,
  bit_xor_step r (q * 2 ^ suc k),
  differ-mod r (q * 2 ^ suc k),
  mul-two-pow_suc q k,
  pow-suc 2 k,
  bit_xor_fields k q (r / 2) (omega arith),
)

pub zero-bit_or : (a : ℕ) → bit_or 0 a ≡ a
zero-bit_or a = bit_or-bitwise 0 a

pub bit_or_fields : (k q r : ℕ) → r < 2 ^ k → bit_or r (q * 2 ^ k) ≡ q * 2 ^ k + r
bit_or_fields zero q r h = ground (arith, zero-bit_or (q * 1))
bit_or_fields (suc k) q r h = ground (
  arith,
  bit_or_step r (q * 2 ^ suc k),
  mul-two-pow_suc q k,
  pow-suc 2 k,
  bit_or_fields k q (r / 2) (omega arith),
)

-- ~w on k digits
pub bit_xor_ones : (k w : ℕ) → w < 2 ^ k → bit_xor (2 ^ k - 1) w ≡ 2 ^ k - 1 - w
bit_xor_ones zero w h = omega (arith, zero-bit_xor w)
bit_xor_ones (suc k) w h =
    let ones : (2 ^ suc k - 1) / 2 ≡ 2 ^ k - 1 =
      omega (arith, pow-suc 2 k, one-le-pow k 2 (omega arith)) in
    omega (
      arith,
      pow-suc 2 k,
      one-le-pow k 2 (omega arith),
      bit_xor-half (2 ^ suc k - 1) w,
      bit_xor-parity (2 ^ suc k - 1) w,
      ap (λ (t : ℕ). bit_xor t (w / 2)) ones,
      bit_xor_ones k (w / 2) (omega (arith, pow-suc 2 k)),
    )

bit_and_halves : (x y : ℕ) → bit_and x y ≡ bit_and (x / 2) (y / 2) * 2 + min (x % 2) (y % 2)
bit_and_halves zero y = simp bit_and-bitwise (omega arith)
bit_and_halves (suc x) y = simp bit_and-bitwise (lowest_digit (λ _. 0) min x y)

no_digits_left : (bound x : ℕ) → x ≤ bound → bit_and x 0 ≡ 0
no_digits_left bound zero h = refl
no_digits_left zero (suc x) h = elim h [ ]
no_digits_left (suc bound) (suc x) h =
    let half = no_digits_left bound (suc x / 2) (omega arith) in
    omega (arith, half, bit_and_halves (suc x) 0)

low_digits : (k high low : ℕ) → low < 2 ^ k → bit_and (high * 2 ^ k + low) (2 ^ k - 1) ≡ low
low_digits zero high low h =
    no_digits_left (high * 1 + low) (high * 1 + low) (le_refl _) ∙ omega arith
low_digits (suc k) high low h =
    let half = low_digits k high (low / 2) (omega (arith, pow-suc 2 k)) in
    ground (
      arith,
      half,
      pow-suc 2 k,
      mul-two-pow_suc high k,
      bit_and_halves (high * 2 ^ suc k + low) (2 ^ suc k - 1),
    )

-- a & (2^k - 1)
pub bit_and_mask : (k a : ℕ) → bit_and a (2 ^ k - 1) ≡ a % 2 ^ k
bit_and_mask k a = ground (arith, low_digits k (a / 2 ^ k) (a % 2 ^ k), one-le-pow k 2)
