-- ===== src/ByteBuffer/Order.antt =====
-- The comparison operators of byte_buffer.cpp are those of the byte sequences.
use Prim.Native.Nat.{compare, Ordering}
use code_knife.Prelude.{
  ℕ, zero, suc, ◌≡◌, ◌≤◌, ◌==◌, ltb, refl, sym, ap, ap₂, ◌∙◌, arith, Bool, true, false, List, [],
  ◌∷◌, length, take, ◌⊎◌, inl, inr, ◌↔◌, Bool-cases, if◌then◌else◌,
}
use code_knife.ByteBuffer.{ByteBuffer, memcmp, compare_data, min_size, equal, less, greater}
use code_knife.ByteBuffer.Views.{contents, IsValid, length-contents, read_lem}

-- The lexicographic order of byte sequences, a proper prefix below.
unfoldable pub lex_less : List ℕ → List ℕ → Bool
lex_less xs [] = false
lex_less [] (y ∷ ys) = true
lex_less (x ∷ xs) (y ∷ ys) =
    let rest = lex_less xs ys in
    elim (compare x y) [ Ordering.lt ↦ true | Ordering.gt ↦ false | _ ↦ rest ]

-- The code's test on a prefix of n bytes, with the lengths where the prefixes are equal.
abbrev tie_break : Ordering → ℕ → ℕ → Bool
tie_break Ordering.lt n m = true
tie_break Ordering.eq n m = ltb n m
tie_break Ordering.gt n m = false

abbrev shorter : ℕ → ℕ → ℕ
shorter n m = if ltb m n then m else n

shorter-suc : (n m : ℕ) → shorter (suc n) (suc m) ≡ suc (shorter n m)
shorter-suc n m = ground arith

memcmp-lex_less :
    (xs ys : List ℕ)
    → tie_break (memcmp xs ys (shorter (length xs) (length ys))) (length xs) (length ys)
      ≡ lex_less xs ys
unfolding memcmp lex_less
memcmp-lex_less [] [] = refl
memcmp-lex_less [] (y ∷ ys) = ground arith
memcmp-lex_less (x ∷ xs) [] = ground arith
memcmp-lex_less (x ∷ xs) (y ∷ ys) =
    ap (λ (k : ℕ). tie_break (memcmp (x ∷ xs) (y ∷ ys) k) (suc (length xs)) (suc (length ys)))
      (shorter-suc (length xs) (length ys))
    ∙ ground (arith, memcmp-lex_less xs ys)

memcmp-take : (n : ℕ) (xs ys : List ℕ) → memcmp (take n xs) (take n ys) n ≡ memcmp xs ys n
unfolding memcmp
memcmp-take zero xs ys = refl
memcmp-take (suc n) [] ys = refl
memcmp-take (suc n) (x ∷ xs) [] = refl
memcmp-take (suc n) (x ∷ xs) (y ∷ ys) = ground (arith, memcmp-take n xs ys)

compare_data_lem :
    (a b : ByteBuffer) (n : ℕ)
    → IsValid a
    → IsValid b
    → n ≤ a.size
    → n ≤ b.size
    → compare_data a b n ≡ memcmp (contents a) (contents b) n
compare_data_lem a b n va vb p q =
    ap₂ (λ (xs ys : List ℕ). memcmp xs ys n) (read_lem a n va p) (read_lem b n vb q)
    ∙ memcmp-take n (contents a) (contents b)

-- The operators' two steps, the test for an empty side and `memcmp`, as one.
less-tie_break :
    (a b : ByteBuffer)
    → IsValid a
    → IsValid b
    → less a b ≡ tie_break (memcmp (contents a) (contents b) (min_size a b)) a.size b.size
unfolding less memcmp
less-tie_break a b va vb = elim (Bool-cases (min_size a b == 0)) [
  | inl e ↦ simp e (
      ap (λ (k : ℕ). tie_break (memcmp (contents a) (contents b) k) a.size b.size) {x = 0}
        {y = min_size a b} (ground arith))
  | inr e ↦
      simp (e, compare_data_lem a b (min_size a b) va vb (ground arith) (ground arith))
        (by_ordering (memcmp (contents a) (contents b) (min_size a b)))
]
  where
    by_ordering :
        (o : Ordering)
        → ◌≡◌ {A = Bool}
            (elim o [ Ordering.eq ↦ ltb a.size b.size | Ordering.lt ↦ true | Ordering.gt ↦ false ])
            (tie_break o a.size b.size)
    by_ordering Ordering.lt = refl
    by_ordering Ordering.eq = refl
    by_ordering Ordering.gt = refl

-- `<` of two valid buffers is the lexicographic order of the bytes that they show.
pub less_lem :
    (a b : ByteBuffer) → IsValid a → IsValid b → less a b ≡ lex_less (contents a) (contents b)
less_lem a b va vb =
    less-tie_break a b va vb
    ∙ ap₂ (λ (n m : ℕ). tie_break (memcmp (contents a) (contents b) (shorter n m)) n m)
        (sym (length-contents a va)) (sym (length-contents b vb))
    ∙ memcmp-lex_less (contents a) (contents b)

memcmp-flip :
    (xs ys : List ℕ) (n : ℕ)
    → memcmp ys xs n ≡ elim (memcmp xs ys n) [
      | Ordering.lt ↦ Ordering.gt
      | Ordering.gt ↦ Ordering.lt
      | _ ↦ Ordering.eq
    ]
unfolding memcmp
memcmp-flip xs ys zero = refl
memcmp-flip [] [] (suc n) = refl
memcmp-flip [] (y ∷ ys) (suc n) = refl
memcmp-flip (x ∷ xs) [] (suc n) = refl
memcmp-flip (x ∷ xs) (y ∷ ys) (suc n) = ground (arith, memcmp-flip xs ys n)

greater-tie_break :
    (a b : ByteBuffer)
    → IsValid a
    → IsValid b
    → greater a b ≡ tie_break (memcmp (contents b) (contents a) (min_size a b)) b.size a.size
unfolding greater memcmp
greater-tie_break a b va vb = elim (Bool-cases (min_size a b == 0)) [
  | inl e ↦ simp e (
      ap (λ (k : ℕ). tie_break (memcmp (contents b) (contents a) k) b.size a.size) {x = 0}
        {y = min_size a b} (ground arith))
  | inr e ↦
      simp (e, compare_data_lem a b (min_size a b) va vb (ground arith) (ground arith))
        (by_ordering (memcmp (contents a) (contents b) (min_size a b))
          ∙ ap (λ (o : Ordering). tie_break o b.size a.size)
              (sym (memcmp-flip (contents a) (contents b) (min_size a b))))
]
  where
    by_ordering :
        (o : Ordering)
        → ◌≡◌ {A = Bool}
            (elim o [ Ordering.eq ↦ ltb b.size a.size | Ordering.lt ↦ false | Ordering.gt ↦ true ])
            (tie_break
              (elim o [ Ordering.lt ↦ Ordering.gt | Ordering.gt ↦ Ordering.lt | _ ↦ Ordering.eq ])
              b.size
              a.size)
    by_ordering Ordering.lt = refl
    by_ordering Ordering.eq = refl
    by_ordering Ordering.gt = refl

-- `>` is the same order the other way round.
pub greater_lem :
    (a b : ByteBuffer) → IsValid a → IsValid b → greater a b ≡ lex_less (contents b) (contents a)
greater_lem a b va vb =
    greater-tie_break a b va vb
    ∙ ap (λ (k : ℕ). tie_break (memcmp (contents b) (contents a) k) b.size a.size)
        {x = min_size a b} {y = shorter b.size a.size} (ground arith)
    ∙ ap₂ (λ (n m : ℕ). tie_break (memcmp (contents b) (contents a) (shorter n m)) n m)
        (sym (length-contents b vb)) (sym (length-contents a va))
    ∙ memcmp-lex_less (contents b) (contents a)

memcmp_eq :
    (xs ys : List ℕ) → length xs ≡ length ys → memcmp xs ys (length xs) ≡ Ordering.eq → xs ≡ ys
unfolding memcmp
memcmp_eq [] [] e h = refl
memcmp_eq [] (y ∷ ys) e h = absurd (omega arith)
memcmp_eq (x ∷ xs) [] e h = absurd (omega arith)
memcmp_eq (x ∷ xs) (y ∷ ys) e h = ground (arith, memcmp_eq xs ys)

memcmp_self : (xs : List ℕ) (n : ℕ) → memcmp xs xs n ≡ Ordering.eq
unfolding memcmp
memcmp_self xs zero = refl
memcmp_self [] (suc n) = refl
memcmp_self (x ∷ xs) (suc n) = ground (arith, memcmp_self xs n)

is_eq : Ordering → Bool
is_eq Ordering.eq = true
is_eq _ = false

-- What `==` tests: equal sizes, and no difference in the bytes.
equal_test :
    (a b : ByteBuffer)
    → IsValid a
    → IsValid b
    → equal a b
      ≡ (if a.size == b.size then is_eq (memcmp (contents a) (contents b) a.size) else false)
unfolding equal memcmp is_eq
equal_test a b va vb = elim (Bool-cases (a.size == b.size)) [
  | inr differ ↦ simp differ
  | inl same ↦ elim (Bool-cases (a.size == 0)) [
    | inl e ↦
        simp (same, e)
          (ap (λ (k : ℕ). is_eq (memcmp (contents a) (contents b) k)) {x = 0} {y = a.size}
            (ground arith))
    | inr e ↦
        simp (same, e, compare_data_lem a b a.size va vb (omega arith) (ground arith))
          (by_ordering (memcmp (contents a) (contents b) a.size))
  ]
]
  where
    by_ordering :
        (o : Ordering) → ◌≡◌ {A = Bool} (elim o [ Ordering.eq ↦ true | _ ↦ false ]) (is_eq o)
    by_ordering Ordering.lt = refl
    by_ordering Ordering.eq = refl
    by_ordering Ordering.gt = refl

-- Two valid buffers compare equal exactly when they show the same bytes.
pub equal_iff :
    (a b : ByteBuffer) → IsValid a → IsValid b → (equal a b ≡ true) ↔ (contents a ≡ contents b)
unfolding is_eq
equal_iff a b va vb = (
  λ h. found (sym (equal_test a b va vb) ∙ h),
  λ e.
      equal_test a b va vb
      ∙ ground (
        arith,
        ap length e,
        length-contents a va,
        length-contents b vb,
        memcmp_self (contents a) a.size,
        ap (λ (ys : List ℕ). memcmp (contents a) ys a.size) e,
      ),
)
  where
    found :
        (if a.size == b.size then is_eq (memcmp (contents a) (contents b) a.size) else false) ≡ true
        → contents a ≡ contents b
    found h =
        let no_difference : memcmp (contents a) (contents b) a.size ≡ Ordering.eq = ground arith in
        memcmp_eq (contents a) (contents b)
          (omega (arith, length-contents a va, length-contents b vb, same))
          (ap (memcmp (contents a) (contents b)) (length-contents a va) ∙ no_difference)
      where
        same : a.size ≡ b.size
        same = ground arith

abbrev pub ExactlyOne : Bool → Bool → Bool → Type 0
ExactlyOne p q r =
    ((p ≡ true) × (q ≡ false) × (r ≡ false))
    ⊎ (((p ≡ false) × (q ≡ true) × (r ≡ false)) ⊎ ((p ≡ false) × (q ≡ false) × (r ≡ true)))

-- Of two valid buffers exactly one of `a < b`, `a == b` and `a > b` holds.
pub compare_trichotomy :
    (a b : ByteBuffer) → IsValid a → IsValid b → ExactlyOne (less a b) (equal a b) (greater a b)
unfolding is_eq
compare_trichotomy a b va vb = ground (
  arith,
  less-tie_break a b va vb,
  greater-tie_break a b va vb,
  equal_test a b va vb,
  memcmp-flip (contents a) (contents b) (min_size a b),
  ap (memcmp (contents a) (contents b)) {x = a.size} {y = min_size a b},
)
