-- ===== src/Crc32c/Tables.antt =====
-- What `Crc32c::Initialize` puts into the four tables.
use code_knife.Prelude.{
  ℕ, zero, suc, ◌+◌, ◌*◌, ◌/◌, ◌%◌, ◌<◌, ◌≡◌, refl, sym, ap, ◌∙◌, subst, ◌⊎◌, inl, inr, arith, true,
  false, List, [], ◌∷◌, ◌++◌, get_or, length, length-append, get_or-append_left,
  get_or-append_right, bit_xor,
}
use native.Mathlib.Decide.{dec_lt}
use code_knife.Crc32c.{Crc32c, shift_bits, shift_byte, shift_bytes, fill, initialize}
use code_knife.Crc32c.Linear.{shift_bits-add, shift_bits_split, shift_bits-mul}

length-fill : (f : ℕ → ℕ) (n : ℕ) → length (fill f n) ≡ n
unfolding fill
length-fill f zero = refl
length-fill f (suc n) = omega (arith, length-append (fill f n) (f n ∷ []), length-fill f n)

get_or-fill_last : (f : ℕ → ℕ) (n : ℕ) → get_or (fill f (suc n)) n 0 ≡ f n
unfolding fill
get_or-fill_last f n =
    let e : n ≡ length (fill f n) + 0 = omega (arith, length-fill f n) in
    ap (λ (t : ℕ). get_or (fill f n ++ f n ∷ []) t 0) e
    ∙ get_or-append_right (fill f n) (f n ∷ []) 0 0

pub get_or-fill : (f : ℕ → ℕ) (n i : ℕ) → i < n → get_or (fill f n) i 0 ≡ f i
unfolding fill
get_or-fill f zero i h = absurd (omega arith)
get_or-fill f (suc n) i h = elim (dec_lt i n) [
  | yes p ↦
      get_or-append_left (fill f n) (f n ∷ []) i 0 (omega (arith, length-fill f n))
      ∙ get_or-fill f n i p
  | no p ↦
      let e : i ≡ n = omega arith in
      subst (λ (t : ℕ). get_or (fill f (suc n)) t 0 ≡ f t) (sym e) (get_or-fill_last f n)
]

-- Each entry of a table is its index shifted by 8, 32, 24 or 16 bits.
pub record IsReady (c : Crc32c) : Type 0 where
  pub set_up : c.initialized ≡ true
  pub entry0 : (i : ℕ) → i < 256 → get_or c.table0 i 0 ≡ shift_bits 8 i
  pub entry1 : (i : ℕ) → i < 256 → get_or c.table1 i 0 ≡ shift_bits 32 i
  pub entry2 : (i : ℕ) → i < 256 → get_or c.table2 i 0 ≡ shift_bits 24 i
  pub entry3 : (i : ℕ) → i < 256 → get_or c.table3 i 0 ≡ shift_bits 16 i

-- One lookup and a shift by a byte are eight shifts by a bit.
pub lookup_lem : (x : ℕ) → bit_xor (shift_bits 8 (x % 256)) (x / 256) ≡ shift_bits 8 x
lookup_lem x =
    ap (bit_xor (shift_bits 8 (x % 256))) (sym (shift_bits-mul 8 (x / 256)))
    ∙ sym (shift_bits_split 8 8 (x % 256) (x / 256) (omega arith))
    ∙ ap (shift_bits 8) (omega arith)

module _ (t : List ℕ) (entries : (i : ℕ) → i < 256 → get_or t i 0 ≡ shift_bits 8 i) where
  shift_byte-eq : (x : ℕ) → shift_byte t x ≡ shift_bits 8 x
  unfolding shift_byte
  shift_byte-eq x =
      ap (λ (u : ℕ). bit_xor u (x / 256)) (entries (x % 256) (omega arith)) ∙ lookup_lem x

  shift_bytes-eq : (n x : ℕ) → shift_bytes t n x ≡ shift_bits (8 * n) x
  unfolding shift_bytes shift_bits
  shift_bytes-eq zero x = refl
  shift_bytes-eq (suc n) x =
      shift_bytes-eq n (shift_byte t x)
      ∙ ap (shift_bits (8 * n)) (shift_byte-eq x)
      ∙ sym (shift_bits-add 8 (8 * n) x)
      ∙ ap (λ (u : ℕ). shift_bits u x) {x = 8 + 8 * n} {y = 8 * suc n} (omega arith)

-- `Initialize` leaves the four tables ready, whether they were ready or never set up.
pub initialize-IsReady : (c : Crc32c) → (c.initialized ≡ false) ⊎ IsReady c → IsReady (initialize c)
unfolding initialize
initialize-IsReady c (inr r) = simp r.set_up r
initialize-IsReady c (inl e) = simp e (record {
  set_up = refl;
  entry0 = λ i h. t0_entries i h;
  entry1 = λ i h.
      get_or-fill (λ i. shift_bytes t0 3 (get_or t0 i 0)) 256 i h
      ∙ shift_bytes-eq t0 t0_entries 3 (get_or t0 i 0)
      ∙ ap (shift_bits 24) (t0_entries i h)
      ∙ sym (shift_bits-add 8 24 i);
  entry2 = λ i h.
      get_or-fill (λ i. shift_bytes t0 2 (get_or t0 i 0)) 256 i h
      ∙ shift_bytes-eq t0 t0_entries 2 (get_or t0 i 0)
      ∙ ap (shift_bits 16) (t0_entries i h)
      ∙ sym (shift_bits-add 8 16 i);
  entry3 = λ i h.
      get_or-fill (λ i. shift_byte t0 (get_or t0 i 0)) 256 i h
      ∙ shift_byte-eq t0 t0_entries (get_or t0 i 0)
      ∙ ap (shift_bits 8) (t0_entries i h)
      ∙ sym (shift_bits-add 8 8 i);
})
  where
    t0 : List ℕ
    t0 = fill (shift_bits 8) 256

    t0_entries : (i : ℕ) → i < 256 → get_or t0 i 0 ≡ shift_bits 8 i
    t0_entries i h = get_or-fill (shift_bits 8) 256 i h
