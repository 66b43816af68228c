-- ===== src/ByteBuffer/Tests.antt =====
-- Runs and instances of the theorems on byte_buffer.cpp.
use code_knife.Prelude.{◌≡◌, refl, ◌↔◌, arith, true, false, some, [], ◌∷◌}
use code_knife.ByteBuffer.{
  ByteBuffer, from_bytes, from_cstr, until_nul, move_assign, is_empty, slice, to_string, equal,
  less, greater,
}
use code_knife.ByteBuffer.Views.{
  contents, IsValid, contents-slice, slice-slice, slice-IsValid, to_string_lem, move_assign_lem,
}
use code_knife.ByteBuffer.Order.{
  lex_less, ExactlyOne, less_lem, greater_lem, equal_iff, compare_trichotomy,
}

-- "bcd" within "abcde"
abbrev middle : ByteBuffer
middle = record { shared = some (97 ∷ 98 ∷ 99 ∷ 100 ∷ 101 ∷ []); offset = 1; size = 3 }

-- "bd"
abbrev other : ByteBuffer
other = record { shared = some (98 ∷ 100 ∷ []); offset = 0; size = 2 }

literal : contents (from_cstr (104 ∷ 105 ∷ 0 ∷ 33 ∷ [])) ≡ 104 ∷ 105 ∷ []
unfolding from_cstr from_bytes until_nul
literal = refl

contents-slice_example : contents (slice middle 1 9) ≡ 99 ∷ 100 ∷ []
contents-slice_example = contents-slice middle 1 9

slice-slice_example : contents (slice (slice middle 1 9) 1 1) ≡ 100 ∷ []
slice-slice_example = slice-slice middle 1 9 1 1

slice-IsValid_example : IsValid (slice middle 1 9)
slice-IsValid_example = slice-IsValid middle 1 9 (omega arith)

to_string_lem_example : to_string middle ≡ 98 ∷ 99 ∷ 100 ∷ []
to_string_lem_example = to_string_lem middle (omega arith)

move_assign_lem_example :
    (contents (move_assign false other middle).0 ≡ 98 ∷ 99 ∷ 100 ∷ [])
    × IsValid (move_assign false other middle).0
    × (is_empty (move_assign false other middle).1 ≡ true)
    × (move_assign true other other ≡ (other, other))
move_assign_lem_example = move_assign_lem other middle (omega arith)

less_lem_example : less middle other ≡ true
unfolding lex_less
less_lem_example = less_lem middle other (omega arith) (omega arith)

greater_lem_example : greater middle other ≡ false
unfolding lex_less
greater_lem_example = greater_lem middle other (omega arith) (omega arith)

equal_iff_example : (equal middle other ≡ true) ↔ (contents middle ≡ contents other)
equal_iff_example = equal_iff middle other (omega arith) (omega arith)

compare_trichotomy_example :
    ExactlyOne (less middle other) (equal middle other) (greater middle other)
compare_trichotomy_example = compare_trichotomy middle other (omega arith) (omega arith)
