-- ===== src/ByteBuffer/Views.antt =====
-- What a buffer shows of the shared bytes, under each operation of byte_buffer.cpp.
use code_knife.Prelude.{
  ℕ, ◌+◌, ◌-◌, ◌≡◌, ◌≤◌, ◌==◌, ltb, leb, refl, sym, ap, ◌∙◌, arith, true, false, Option, none, some,
  List, [], ◌∷◌, length, take, drop, length-take, length-drop, take-take, take-nil, drop-nil,
  drop-take, drop-drop, take-all, drop-all, leb→le, ltb→lt, inl, inr, Bool-cases, if◌then◌else◌,
}
use code_knife.ByteBuffer.{
  ByteBuffer, empty, from_bytes, copy, move, move_assign, data_pointer, read, slice, clone,
  to_string, is_empty,
}

-- The bytes behind the pointer.
abbrev pub storage : Option (List ℕ) → List ℕ
storage none = []
storage (some bytes) = bytes

-- The bytes that a buffer shows.
abbrev pub contents : ByteBuffer → List ℕ
contents b = take b.size (drop b.offset (storage b.shared))

-- The view lies within the shared bytes.
abbrev pub IsValid : ByteBuffer → Type 0
IsValid b = b.offset + b.size ≤ length (storage b.shared)

pub length-contents : (b : ByteBuffer) → IsValid b → length (contents b) ≡ b.size
length-contents b v = omega (
  arith,
  length-take b.size (drop b.offset (storage b.shared)),
  length-drop b.offset (storage b.shared),
)

nothing : (n o : ℕ) → ◌≡◌ {A = List ℕ} (take n (drop o [])) []
nothing n o = ap (take n) (drop-nil o) ∙ take-nil n

-- A read through the pointer within the view gives the first bytes of the view.
pub read_lem :
    (b : ByteBuffer) (n : ℕ)
    → IsValid b
    → n ≤ b.size
    → read (data_pointer b) n ≡ take n (contents b)
unfolding read data_pointer
read_lem b n v h = by_storage b.shared refl
  where
    by_storage :
        (s : Option (List ℕ)) → b.shared ≡ s → read (data_pointer b) n ≡ take n (contents b)
    by_storage none e =
        rw (e, data_pointer) (sym (ap (take n) (nothing b.size b.offset) ∙ take-nil n))
    by_storage (some []) e =
        rw (e, data_pointer) (sym (ap (take n) (nothing b.size b.offset) ∙ take-nil n))
    by_storage (some (x ∷ xs)) e =
        rw (e, data_pointer) (sym (take-take n b.size (drop b.offset (x ∷ xs)) h))

-- A slice shows that part of the view which starts at the offset, cut at the end of the view.
pub contents-slice :
    (b : ByteBuffer) (o l : ℕ) → contents (slice b o l) ≡ take l (drop o (contents b))
unfolding slice empty
contents-slice b o l = elim (Bool-cases (leb b.size o)) [
  | inl out ↦ simp out (
      sym (
        ap (take l) (
          drop-all o (contents b) (
            omega
              (arith, length-take b.size (drop b.offset (storage b.shared)), leb→le b.size o out)))
        ∙ take-nil l))
  | inr within ↦ simp within (cut ∙ sym (ap (take l) moved))
]
  where
    moved : drop o (contents b) ≡ take (b.size - o) (drop (b.offset + o) (storage b.shared))
    moved =
        drop-take o b.size (drop b.offset (storage b.shared))
        ∙ ap (take (b.size - o)) (drop-drop o b.offset (storage b.shared))

    cut :
        take (if ltb (b.size - o) l then b.size - o else l) (drop (b.offset + o) (storage b.shared))
        ≡ take l (take (b.size - o) (drop (b.offset + o) (storage b.shared)))
    cut = elim (Bool-cases (ltb (b.size - o) l)) [
      | inl short ↦ rw short (
          sym (
            take-all l (take (b.size - o) (drop (b.offset + o) (storage b.shared))) (
              omega (
                arith,
                length-take (b.size - o) (drop (b.offset + o) (storage b.shared)),
                ltb→lt (b.size - o) l short,
              ))))
      | inr long ↦ rw long (sym (take-take l (b.size - o) _ (ground arith)))
    ]

pub slice-IsValid : (b : ByteBuffer) (o l : ℕ) → IsValid b → IsValid (slice b o l)
unfolding slice empty
slice-IsValid b o l v = ground arith

pub read_all : (b : ByteBuffer) → IsValid b → read (data_pointer b) b.size ≡ contents b
read_all b v =
    read_lem b b.size v (omega arith)
    ∙ take-take b.size b.size (drop b.offset (storage b.shared)) (omega arith)

contents-zero : (b : ByteBuffer) → b.size ≡ 0 → contents b ≡ []
contents-zero b e = ap (λ (t : ℕ). take t (drop b.offset (storage b.shared))) e

-- A string copy holds the view's bytes.
pub to_string_lem : (b : ByteBuffer) → IsValid b → to_string b ≡ contents b
unfolding to_string
to_string_lem b v = ground (arith, contents-zero b, read_all b v)

pub contents-from_bytes :
    (bytes : List ℕ) → (contents (from_bytes bytes) ≡ bytes) × IsValid (from_bytes bytes)
unfolding from_bytes
contents-from_bytes bytes = (take-all (length bytes) bytes (omega arith), omega arith)

-- A clone of a valid buffer is valid and shows the same bytes, from storage of its own with
-- nothing before or behind them.
pub clone_lem :
    (b : ByteBuffer)
    → IsValid b
    → (contents (clone b) ≡ contents b)
      × ((clone b).shared ≡ some (contents b))
      × ((clone b).offset ≡ 0)
      × IsValid (clone b)
unfolding clone empty from_bytes
clone_lem b v = elim (Bool-cases (b.size == 0)) [
  | inl e ↦
      let z = contents-zero b (ground arith) in simp e (sym z, ap some (sym z), refl, omega arith)
  | inr e ↦ simp e (
    take-all (length (read (data_pointer b) b.size)) _ (omega arith) ∙ read_all b v,
    ap some (read_all b v),
    refl,
    omega arith,
  )
]

-- A slice of a slice is one slice.
pub slice-slice :
    (b : ByteBuffer) (o l p m : ℕ)
    → contents (slice (slice b o l) p m) ≡ take m (take (l - p) (drop (o + p) (contents b)))
slice-slice b o l p m =
    contents-slice (slice b o l) p m
    ∙ ap (λ (t : List ℕ). take m (drop p t)) (contents-slice b o l)
    ∙ ap (take m)
        (drop-take p l (drop o (contents b)) ∙ ap (take (l - p)) (drop-drop p o (contents b)))

-- A move leaves the source empty and the target with the source's view; a self-move does nothing.
pub move_assign_lem :
    (this other : ByteBuffer)
    → IsValid other
    → (contents (move_assign false this other).0 ≡ contents other)
      × IsValid (move_assign false this other).0
      × (is_empty (move_assign false this other).1 ≡ true)
      × (move_assign true this this ≡ (this, this))
unfolding move_assign move copy is_empty
move_assign_lem this other v = (refl, v, refl, refl)
