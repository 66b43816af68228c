-- ===== src/MemoryPool/Blocks.antt =====
-- Where each block is: in one bin, which its header names, or with the program.
use code_knife.Prelude.{
  ℕ, suc, ◌+◌, ◌%◌, ◌^◌, ◌≡◌, ◌<◌, ◌≤◌, ◌==◌, ltb, if◌then◌else◌, refl, ap, subst, ◌∙◌, sym, arith,
  false, ◌&&◌, List, [], ◌∷◌, inl, inr, Bool-cases,
}
use code_knife.MemoryPool.{
  BlockHeader, SizeClassBin, ThreadCache, Pool, with_cache, with_bin, take_block,
}

-- How often a block is in a list.
abbrev pub occurrences : ℕ → List ℕ → ℕ
occurrences a [] = 0
occurrences a (b ∷ bs) = let rest = occurrences a bs in if b == a then suc rest else rest

abbrev pub in_bin : ℕ → SizeClassBin → ℕ
in_bin a bin = occurrences a bin.private_list + occurrences a bin.mailbox

-- How many blocks of a list a cache owns.
abbrev pub owned : (ℕ → BlockHeader) → ℕ → List ℕ → ℕ
owned headers c [] = 0
owned headers c (a ∷ as') =
    let rest = owned headers c as' in if (headers a).owner == c then suc rest else rest

abbrev pub without : ℕ → List ℕ → List ℕ
without a [] = []
without a (b ∷ bs) = let rest = without a bs in if b == a then bs else b ∷ rest

-- A cache's references: one of the live thread, and one for each of its blocks in `out`.
abbrev pub IsCounted : Pool → List ℕ → ℕ → Type 0
IsCounted p out c =
    (p.caches c).ref_count ≡ ((if (p.caches c).dead then 0 else 1) + owned p.headers c out) % 2 ^ 64

-- The blocks in `out` are the program's; every other block is in one bin at most.
pub record IsSound (p : Pool) (out : List ℕ) : Type 0 where
  pub placed : (c k a : ℕ) → in_bin a ((p.caches c).bins k) + occurrences a out ≤ 1
  pub named :
      (c k a : ℕ)
      → 0 < in_bin a ((p.caches c).bins k)
      → ((p.headers a).owner ≡ c) × ((p.headers a).size_class ≡ k)
  pub counted : (c : ℕ) → IsCounted p out c

-- A block is in no other bin than its header names.
pub in_bin-other :
    (p : Pool) (out : List ℕ) (tc k c j b : ℕ)
    → IsSound p out
    → (p.headers b).owner ≡ tc
    → (p.headers b).size_class ≡ k
    → ((c == tc) && (j == k)) ≡ false
    → in_bin b ((p.caches c).bins j) ≡ 0
in_bin-other p out tc k c j b s owner class apart =
    elim (Bool-cases (ltb 0 (in_bin b ((p.caches c).bins j)))) [
      | inr none_there ↦ ground (arith, none_there)
      | inl some_there ↦
          let found = s.named c j b (ground (arith, some_there)) in
          let at_c : c ≡ tc = sym found.0 ∙ owner in
          let at_j : j ≡ k = sym found.1 ∙ class in ground (arith, at_c, at_j, apart)
    ]

-- The bins after one bin of one cache was replaced.
pub bins_at :
    (c0 k0 : ℕ) (bin : SizeClassBin) (cache : ThreadCache) (p : Pool)
    → cache.bins ≡ (p.caches c0).bins
    → (c k a : ℕ)
    → in_bin a (((with_cache c0 (with_bin k0 bin cache) p).caches c).bins k)
      ≡ (if (c == c0) && (k == k0) then in_bin a bin else in_bin a ((p.caches c).bins k))
bins_at c0 k0 bin cache p same c k a = elim (Bool-cases (c == c0)) [
  | inr other ↦ simp other refl
  | inl this ↦ elim (Bool-cases (k == k0)) [
    | inl it ↦ simp (this, it) refl
    | inr apart ↦
        let at_c : c ≡ c0 = ground (arith, this) in
        simp (this, apart)
          (ap (λ (bins : ℕ → SizeClassBin). in_bin a (bins k)) same
            ∙ ap (λ (d : ℕ). in_bin a ((p.caches d).bins k)) (sym at_c))
  ]
]

-- A block leaves the bin that had it.
pub take_block-IsSound :
    (tc k a : ℕ) (bin : SizeClassBin) (p : Pool) (out : List ℕ)
    → IsSound p out
    → ((b : ℕ)
        → in_bin b ((p.caches tc).bins k) ≡ (if a == b then suc (in_bin b bin) else in_bin b bin))
    → IsSound (take_block tc k bin p) (a ∷ out)
take_block-IsSound tc k a bin p out s e =
    let here : 0 < in_bin a ((p.caches tc).bins k) = ground (arith, e a) in
    let name = s.named tc k a here in
    let cache : ThreadCache = record (p.caches tc) {
      alloc_count = (p.caches tc).alloc_count + 1;
      ref_count = ((p.caches tc).ref_count + 1) % 2 ^ 64;
    } in
    let bins = bins_at tc k bin cache p refl in
    record {
      placed = λ c j b. elim (Bool-cases ((c == tc) && (j == k))) [
        | inl it ↦ ground (arith, bins c j b, it, s.placed tc k b, e b)
        | inr apart ↦ elim (Bool-cases (a == b)) [
          | inr different ↦ ground (arith, bins c j b, apart, s.placed c j b, different)
          | inl same ↦
              let q : a ≡ b = ground (arith, same) in
              let gone =
                in_bin-other p out tc k c j b s
                  (ap (λ (d : ℕ). (p.headers d).owner) (sym q) ∙ name.0)
                  (ap (λ (d : ℕ). (p.headers d).size_class) (sym q) ∙ name.1) apart in
              let there = ap (λ (d : ℕ). in_bin d ((p.caches tc).bins k)) (sym q) in
              ground (arith, bins c j b, apart, gone, same, s.placed tc k b, there, here)
        ]
      ];
      named = λ c j b h. elim (Bool-cases ((c == tc) && (j == k))) [
        | inl it ↦
            let at_c : c ≡ tc = ground (arith, it) in
            let at_j : j ≡ k = ground (arith, it) in
            let found = s.named tc k b (ground (arith, bins c j b, it, e b, h)) in
            (found.0 ∙ sym at_c, found.1 ∙ sym at_j)
        | inr apart ↦ s.named c j b (ground (arith, bins c j b, apart, h))
      ];
      counted = λ c. elim (Bool-cases (c == tc)) [
        | inl it ↦
            let at_c : c ≡ tc = ground (arith, it) in
            subst (IsCounted (take_block tc k bin p) (a ∷ out)) (sym at_c)
              (ground (arith, s.counted tc, name.0))
        | inr apart ↦ ground (arith, apart, s.counted c, name.0)
      ];
    }
