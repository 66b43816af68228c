-- ===== src/SkipList/Pointers.antt =====
-- What the writes of pointers change, and which addresses are apart.
use code_knife.Prelude.{
  ℕ, ◌≡◌, ◌≢◌, ◌==◌, if◌then◌else◌, refl, sym, ap, ap₂, ◌∙◌, arith, Bool, true, false, not, ◌&&◌,
  Bool-cases, inl, inr, List, [], ◌∷◌, ◌++◌, filter,
}
use code_knife.SkipList.{SkipList, next_of, set_next_after}
use code_knife.SkipList.Levels.{last_or, all_of, all_of-filter, at_level}
use code_knife.SkipList.Chains.{lacks, Distinct}
use code_knife.SkipList.Search.{IsOrder, keys, heights}
use code_knife.SkipList.Ordered.{Ascending}

module _ {K V : Type 0} (prev level target : ℕ) (s : SkipList K V) where
  pub next_of-set_next_after :
      (a j : ℕ)
      → next_of (set_next_after prev level target s) a j
        ≡ (if (a == prev) && (j == level) then target else next_of s a j)
  unfolding set_next_after
  next_of-set_next_after a j = elim (Bool-cases (prev == 0)) [
    | inl head ↦ ground (arith, head)
    | inr node ↦
        let here : a ≡ prev → (s.node a).next j ≡ (s.node prev).next j =
          λ e. ap (λ (t : ℕ). (s.node t).next j) e in
        ground (arith, node, here)
  ]

  pub keys-set_next_after : (a : ℕ) → keys (set_next_after prev level target s) a ≡ keys s a
  unfolding set_next_after
  keys-set_next_after a =
      let here : a ≡ prev → keys s prev ≡ keys s a = λ e. ap (keys s) (sym e) in
      ground (arith, here)

  pub heights-set_next_after :
      (a : ℕ) → heights (set_next_after prev level target s) a ≡ heights s a
  unfolding set_next_after
  heights-set_next_after a =
      let here : a ≡ prev → heights s prev ≡ heights s a = λ e. ap (heights s) (sym e) in
      ground (arith, here)

  pub values-set_next_after :
      (a : ℕ) → ((set_next_after prev level target s).node a).value ≡ (s.node a).value
  unfolding set_next_after
  values-set_next_after a =
      let here : a ≡ prev → (s.node prev).value ≡ (s.node a).value =
        λ e. ap (λ (t : ℕ). (s.node t).value) (sym e) in
      ground (arith, here)

  pub size-set_next_after : (set_next_after prev level target s).size ≡ s.size
  unfolding set_next_after
  size-set_next_after = ground arith

  pub max_height-set_next_after : (set_next_after prev level target s).max_height ≡ s.max_height
  unfolding set_next_after
  max_height-set_next_after = ground arith

pub last_or-lacks : (a q : ℕ) (xs : List ℕ) → q ≢ a → lacks a xs ≡ true → last_or q xs ≢ a
last_or-lacks a q [] n h = n
last_or-lacks a q (x ∷ xs) n h = last_or-lacks a x xs (ground arith) (ground arith)

pub Distinct-filter : (keep : ℕ → Bool) (xs : List ℕ) → Distinct xs → Distinct (filter keep xs)
Distinct-filter keep [] d = tt
Distinct-filter keep (x ∷ xs) d = elim (Bool-cases (keep x)) [
  | inl yes' ↦
      simp yes' (all_of-filter (λ b. not (b == x)) keep xs d.0, Distinct-filter keep xs d.1)
  | inr no' ↦ simp no' (Distinct-filter keep xs d.1)
]

-- The last of the first part is not in the second.
pub lacks-last :
    (q : ℕ) (xs ys : List ℕ)
    → Distinct (xs ++ ys)
    → lacks q ys ≡ true
    → lacks (last_or q xs) ys ≡ true
lacks-last q [] ys d h = h
lacks-last q (x ∷ xs) ys d h = lacks-last x xs ys d.1 (behind xs d.0)
  where
    behind : (zs : List ℕ) → lacks x (zs ++ ys) ≡ true → lacks x ys ≡ true
    behind [] l = l
    behind (z ∷ zs) l = behind zs (ground arith)

pub Distinct-left : (xs ys : List ℕ) → Distinct (xs ++ ys) → Distinct xs
Distinct-left [] ys d = tt
Distinct-left (x ∷ xs) ys d = (ahead xs d.0, Distinct-left xs ys d.1)
  where
    ahead : (zs : List ℕ) → lacks x (zs ++ ys) ≡ true → lacks x zs ≡ true
    ahead [] l = refl
    ahead (z ∷ zs) l = ground (arith, ahead zs (ground arith))

module _ {K : Type 0} (before : K → K → Bool) (o : IsOrder before) (key : ℕ → K) where
  ascending_lacks :
      (x : ℕ) (xs : List ℕ) → all_of (λ b. before (key x) (key b)) xs ≡ true → lacks x xs ≡ true
  ascending_lacks x [] h = refl
  ascending_lacks x (b ∷ bs) h =
      let self : b ≡ x → before (key x) (key b) ≡ false =
        λ e. ap (λ (t : ℕ). before (key x) (key t)) e ∙ o.irreflexive (key x) in
      ground (arith, self, ascending_lacks x bs (ground arith))

  -- Nodes with ascending keys are distinct.
  pub Ascending-Distinct : (xs : List ℕ) → Ascending before key xs → Distinct xs
  Ascending-Distinct [] up = tt
  Ascending-Distinct (x ∷ xs) up = (ascending_lacks x xs up.0, Ascending-Distinct xs up.1)

-- Two states that agree on the keys and heights of all nodes but one.
module _ (fresh : ℕ) where
  pub at_level_ext :
      (h g : ℕ → ℕ) (level : ℕ) (xs : List ℕ)
      → ((a : ℕ) → a ≢ fresh → g a ≡ h a)
      → lacks fresh xs ≡ true
      → at_level g level xs ≡ at_level h level xs
  at_level_ext h g level [] same l = refl
  at_level_ext h g level (x ∷ xs) same l =
      ground (arith, same x (ground arith), at_level_ext h g level xs same (ground arith))

  pub all_of_ext :
      (p q : ℕ → Bool) (xs : List ℕ)
      → ((a : ℕ) → a ≢ fresh → q a ≡ p a)
      → lacks fresh xs ≡ true
      → all_of q xs ≡ all_of p xs
  all_of_ext p q [] same l = refl
  all_of_ext p q (x ∷ xs) same l =
      ground (arith, same x (ground arith), all_of_ext p q xs same (ground arith))

  pub Ascending-ext :
      {K : Type 0} (before : K → K → Bool) (key other : ℕ → K) (xs : List ℕ)
      → ((a : ℕ) → a ≢ fresh → other a ≡ key a)
      → lacks fresh xs ≡ true
      → Ascending before key xs
      → Ascending before other xs
  Ascending-ext before key other [] same l up = tt
  Ascending-ext before key other (x ∷ xs) same l up =
      let here = same x (ground arith) in
      (
        all_of_ext (λ b. before (key x) (key b)) (λ b. before (other x) (other b)) xs
              (λ a n. ap₂ before here (same a n)) (ground arith)
            ∙ up.0,
        Ascending-ext before key other xs same (ground arith) up.1,
      )
