-- ===== src/Crc32c/Tests.antt =====
-- Runs and instances of the theorems on crc32c.cpp.
use code_knife.Prelude.{ℕ, ◌≡◌, refl, ◌↔◌, inl, false, arith, [], ◌∷◌}
use code_knife.Crc32c.{static_state, shift_bit, shift_bits, compute}
use code_knife.Crc32c.Checksum.{crc32c, compute_short, compute_correct_iff}

static_not_set_up : (static_state).initialized ≡ false
unfolding static_state
static_not_set_up = refl

compute_short_example : (compute static_state (49 ∷ 50 ∷ 51 ∷ [])).0 ≡ crc32c (49 ∷ 50 ∷ 51 ∷ [])
compute_short_example =
    compute_short static_state (49 ∷ 50 ∷ 51 ∷ []) (inl static_not_set_up) (omega arith)
      (omega arith)

compute_correct_iff_example :
    ((compute static_state (49 ∷ 50 ∷ 51 ∷ 52 ∷ [])).0 ≡ crc32c (49 ∷ 50 ∷ 51 ∷ 52 ∷ []))
    ↔ ◌≡◌ {A = ℕ} 49 51
compute_correct_iff_example =
    compute_correct_iff static_state 49 50 51 52 [] (inl static_not_set_up) (omega arith)
      (omega arith)

-- The check value of CRC-32C, over the digits 1 to 9.
check_value : crc32c (49 ∷ 50 ∷ 51 ∷ 52 ∷ 53 ∷ 54 ∷ 55 ∷ 56 ∷ 57 ∷ []) ≡ 0xE3069283
unfolding crc32c shift_bits shift_bit
check_value = refl
