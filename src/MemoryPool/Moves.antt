-- ===== src/MemoryPool/Moves.antt =====
-- What the moves of a block to a bin and the loss of a reference change.
use code_knife.Prelude.{
  ℕ, suc, ◌+◌, ◌-◌, ◌%◌, ◌^◌, ◌≡◌, ◌≢◌, ◌<◌, ◌==◌, if◌then◌else◌, refl, ap, ◌∙◌, sym, arith, true,
  ◌&&◌, List, [], ◌∷◌, inl, inr, Bool-cases,
}
use code_knife.MemoryPool.{
  BlockHeader, SizeClassBin, ThreadCache, Pool, with_cache, with_bin, keep_block, release,
  post_block,
}
use code_knife.MemoryPool.Blocks.{occurrences, in_bin, owned, without, IsCounted, IsSound, bins_at}

pub occurrences-without :
    (a b : ℕ) (out : List ℕ)
    → occurrences b (without a out) ≡ (if a == b then occurrences b out - 1 else occurrences b out)
occurrences-without a b [] = ground arith
occurrences-without a b (c ∷ cs) = ground (arith, occurrences-without a b cs)

pub owned-without :
    (headers : ℕ → BlockHeader) (c a : ℕ) (out : List ℕ)
    → 0 < occurrences a out
    → owned headers c out ≡ (
        if (headers a).owner == c
        then suc (owned headers c (without a out))
        else owned headers c (without a out))
owned-without headers c a [] h = ground (arith, h)
owned-without headers c a (b ∷ bs) h = elim (Bool-cases (b == a)) [
  | inl it ↦
      let same : b ≡ a = ground (arith, it) in
      let owner = ap (λ (d : ℕ). (headers d).owner) same in ground (arith, it, owner)
  | inr other ↦ ground (arith, other, owned-without headers c a bs (ground (arith, h, other)))
]

-- The owners of other blocks do not count.
pub owned_ext :
    (headers others : ℕ → BlockHeader) (c a : ℕ) (out : List ℕ)
    → ((b : ℕ) → a ≢ b → (others b).owner ≡ (headers b).owner)
    → occurrences a out ≡ 0
    → owned others c out ≡ owned headers c out
owned_ext headers others c a [] same h = refl
owned_ext headers others c a (b ∷ bs) same h =
    ground (
      arith,
      h,
      same b (ground (arith, h)),
      owned_ext headers others c a bs same (ground (arith, h)),
    )

-- A block of the program's is in one bin, of the cache c0, as its header says; no other block has moved.
pub record IsPut (c0 a : ℕ) (p q : Pool) (out : List ℕ) : Type 0 where
  pub sound : IsSound q (without a out)
  pub owner : (q.headers a).owner ≡ c0
  pub class : (q.headers a).size_class ≡ (p.headers a).size_class
  pub at_home : in_bin a ((q.caches c0).bins (q.headers a).size_class) ≡ 1
  pub stays : (c k b : ℕ) → a ≢ b → in_bin b ((q.caches c).bins k) ≡ in_bin b ((p.caches c).bins k)

moved-IsSound :
    (c0 k0 a : ℕ) (p q : Pool) (out : List ℕ)
    → IsSound p out
    → occurrences a out ≡ 1
    → ((c j b : ℕ)
        → in_bin b ((q.caches c).bins j) ≡ (
            if ((c == c0) && (j == k0)) && (a == b)
            then suc (in_bin b ((p.caches c).bins j))
            else in_bin b ((p.caches c).bins j)))
    → ((b : ℕ)
        → a ≢ b
        → ((q.headers b).owner ≡ (p.headers b).owner)
          × ((q.headers b).size_class ≡ (p.headers b).size_class))
    → (q.headers a).owner ≡ c0
    → (q.headers a).size_class ≡ k0
    → ((c : ℕ) → IsCounted q (without a out) c)
    → IsSound q (without a out)
moved-IsSound c0 k0 a p q out s one bins same owner class counted = record {
  placed = λ c j b.
      let here : a ≡ b → occurrences a out ≡ occurrences b out =
        λ e. ap (λ (d : ℕ). occurrences d out) e in
      ground (arith, bins c j b, occurrences-without a b out, s.placed c j b, one, here);
  named = λ c j b h. elim (Bool-cases (a == b)) [
    | inr other ↦
        let names = same b (ground (arith, other)) in
        let found = s.named c j b (ground (arith, bins c j b, other, h)) in
        (names.0 ∙ found.0, names.1 ∙ found.1)
    | inl it ↦
        let e : a ≡ b = ground (arith, it) in
        let out_b = ap (λ (d : ℕ). occurrences d out) (sym e) ∙ one in
        let in_place : ((c == c0) && (j == k0)) ≡ true =
          ground (arith, bins c j b, s.placed c j b, out_b, h) in
        let at_c : c0 ≡ c = ground (arith, in_place) in
        let at_j : k0 ≡ j = ground (arith, in_place) in
        (
          ap (λ (d : ℕ). (q.headers d).owner) (sym e) ∙ owner ∙ at_c,
          ap (λ (d : ℕ). (q.headers d).size_class) (sym e) ∙ class ∙ at_j,
        )
  ];
  counted = counted;
}

pub moved-IsPut :
    (c0 a : ℕ) (p q : Pool) (out : List ℕ)
    → IsSound p out
    → occurrences a out ≡ 1
    → ((c j b : ℕ)
        → in_bin b ((q.caches c).bins j) ≡ (
            if ((c == c0) && (j == (p.headers a).size_class)) && (a == b)
            then suc (in_bin b ((p.caches c).bins j))
            else in_bin b ((p.caches c).bins j)))
    → ((b : ℕ)
        → a ≢ b
        → ((q.headers b).owner ≡ (p.headers b).owner)
          × ((q.headers b).size_class ≡ (p.headers b).size_class))
    → (q.headers a).owner ≡ c0
    → (q.headers a).size_class ≡ (p.headers a).size_class
    → ((c : ℕ) → IsCounted q (without a out) c)
    → IsPut c0 a p q out
moved-IsPut c0 a p q out s one bins same owner class counted =
    let k0 = (p.headers a).size_class in
    let free : in_bin a ((p.caches c0).bins k0) ≡ 0 = omega (arith, s.placed c0 k0 a, one) in
    let here : in_bin a ((q.caches c0).bins k0) ≡ 1 = bins c0 k0 a ∙ ground (arith, free) in
    record {
      sound = moved-IsSound c0 k0 a p q out s one bins same owner class counted;
      owner = owner;
      class = class;
      at_home = ap (λ (k : ℕ). in_bin a ((q.caches c0).bins k)) class ∙ here;
      stays = λ c k b n. bins c k b ∙ ground (arith, n);
    }

module _ (c0 : ℕ) (p : Pool) where
  pub release_bins :
      (c j b : ℕ) → in_bin b (((release c0 p).caches c).bins j) ≡ in_bin b ((p.caches c).bins j)
  release_bins c j b = elim (Bool-cases (c == c0)) [
    | inr other ↦ simp other refl
    | inl this ↦
        let at_c : c ≡ c0 = ground (arith, this) in
        simp this (ap (λ (d : ℕ). in_bin b ((p.caches d).bins j)) (sym at_c))
  ]

  pub release_ref :
      (c : ℕ)
      → ((release c0 p).caches c).ref_count ≡ (
          if c == c0
          then ((p.caches c0).ref_count + (2 ^ 64 - 1)) % 2 ^ 64
          else (p.caches c).ref_count)
  release_ref c = ground arith

  pub release_dead : (c : ℕ) → ((release c0 p).caches c).dead ≡ (p.caches c).dead
  release_dead c =
      let here : c ≡ c0 → (p.caches c0).dead ≡ (p.caches c).dead =
        λ e. ap (λ (d : ℕ). (p.caches d).dead) (sym e) in
      ground (arith, here)

  module _ (k0 a : ℕ) where
    -- The bins after a block went to the front of one list of a bin.
    pub put_bins :
        (bin : SizeClassBin) (cache : ThreadCache)
        → cache.bins ≡ (p.caches c0).bins
        → ((b : ℕ)
            → in_bin b bin ≡ (
                if a == b
                then suc (in_bin b ((p.caches c0).bins k0))
                else in_bin b ((p.caches c0).bins k0)))
        → (c j b : ℕ)
        → in_bin b (((with_cache c0 (with_bin k0 bin cache) p).caches c).bins j) ≡ (
            if ((c == c0) && (j == k0)) && (a == b)
            then suc (in_bin b ((p.caches c).bins j))
            else in_bin b ((p.caches c).bins j))
    put_bins bin cache same new c j b = elim (Bool-cases ((c == c0) && (j == k0))) [
      | inr apart ↦ bins_at c0 k0 bin cache p same c j b ∙ ground (arith, apart)
      | inl it ↦
          let at_c : c0 ≡ c = ground (arith, it) in
          let at_j : k0 ≡ j = ground (arith, it) in
          let there =
            ap (λ (d : ℕ). in_bin b ((p.caches d).bins k0)) at_c
            ∙ ap (λ (d : ℕ). in_bin b ((p.caches c).bins d)) at_j in
          bins_at c0 k0 bin cache p same c j b ∙ ground (arith, it, new b, there)
    ]

    pub keep_bins :
        (c j b : ℕ)
        → in_bin b (((keep_block c0 k0 a p).caches c).bins j) ≡ (
            if ((c == c0) && (j == k0)) && (a == b)
            then suc (in_bin b ((p.caches c).bins j))
            else in_bin b ((p.caches c).bins j))
    keep_bins =
        put_bins
          (record ((p.caches c0).bins k0) {
            private_list = a ∷ ((p.caches c0).bins k0).private_list;
          })
          (record (p.caches c0) { free_count = (p.caches c0).free_count + 1 }) refl
          (λ b. ground arith)

    pub post_bins :
        (c j b : ℕ)
        → in_bin b (((post_block c0 k0 a p).caches c).bins j) ≡ (
            if ((c == c0) && (j == k0)) && (a == b)
            then suc (in_bin b ((p.caches c).bins j))
            else in_bin b ((p.caches c).bins j))
    post_bins =
        put_bins (record ((p.caches c0).bins k0) { mailbox = a ∷ ((p.caches c0).bins k0).mailbox })
          (p.caches c0) refl (λ b. ground arith)

    pub keep_counts :
        (c : ℕ)
        → (((keep_block c0 k0 a p).caches c).ref_count ≡ (p.caches c).ref_count)
          × (((keep_block c0 k0 a p).caches c).dead ≡ (p.caches c).dead)
    keep_counts c =
        let refs : c ≡ c0 → (p.caches c0).ref_count ≡ (p.caches c).ref_count =
          λ e. ap (λ (d : ℕ). (p.caches d).ref_count) (sym e) in
        let deaths : c ≡ c0 → (p.caches c0).dead ≡ (p.caches c).dead =
          λ e. ap (λ (d : ℕ). (p.caches d).dead) (sym e) in
        (ground (arith, refs), ground (arith, deaths))

    pub post_counts :
        (c : ℕ)
        → (((post_block c0 k0 a p).caches c).ref_count ≡ (p.caches c).ref_count)
          × (((post_block c0 k0 a p).caches c).dead ≡ (p.caches c).dead)
    post_counts c =
        let refs : c ≡ c0 → (p.caches c0).ref_count ≡ (p.caches c).ref_count =
          λ e. ap (λ (d : ℕ). (p.caches d).ref_count) (sym e) in
        let deaths : c ≡ c0 → (p.caches c0).dead ≡ (p.caches c).dead =
          λ e. ap (λ (d : ℕ). (p.caches d).dead) (sym e) in
        (ground (arith, refs), ground (arith, deaths))
