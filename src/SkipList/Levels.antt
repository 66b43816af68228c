-- ===== src/SkipList/Levels.antt =====
-- The lists of the levels: of a list of addresses, those nodes that are tall enough.
use code_knife.Prelude.{
  ℕ, suc, ◌≡◌, ◌≢◌, ◌≤◌, ltb, ◌==◌, refl, ap, ◌∙◌, arith, Bool, true, false, ◌&&◌, Bool-cases, inl,
  inr, ◌⊎◌, List, [], ◌∷◌, ◌++◌, length, filter,
}

-- The last of a list, and the first of one, where null stands for none.
abbrev pub last_or : ℕ → List ℕ → ℕ
last_or q [] = q
last_or q (x ∷ xs) = last_or x xs

abbrev pub first_or_null : List ℕ → ℕ
first_or_null [] = 0
first_or_null (x ∷ xs) = x

pub last_or-append : (q : ℕ) (xs ys : List ℕ) → last_or q (xs ++ ys) ≡ last_or (last_or q xs) ys
last_or-append q [] ys = refl
last_or-append q (x ∷ xs) ys = last_or-append x xs ys

abbrev pub all_of : {A : Type 0} → (A → Bool) → List A → Bool
all_of test [] = true
all_of test (x ∷ xs) = test x && all_of test xs

pub all_of-filter :
    {A : Type 0} (test keep : A → Bool) (xs : List A)
    → all_of test xs ≡ true
    → all_of test (filter keep xs) ≡ true
all_of-filter test keep [] h = refl
all_of-filter test keep (x ∷ xs) h =
    let first : test x ≡ true = ground arith in
    let rest = all_of-filter test keep xs (ground arith) in
    elim (Bool-cases (keep x)) [ inl yes' ↦ simp (yes', first) rest | inr no' ↦ simp no' rest ]

pub all_of-append :
    {A : Type 0} (test : A → Bool) (xs ys : List A)
    → all_of test (xs ++ ys) ≡ (all_of test xs && all_of test ys)
all_of-append test [] ys = refl
all_of-append test (x ∷ xs) ys = ground (arith, all_of-append test xs ys)

pub all_of_mono :
    {A : Type 0} (test other : A → Bool) (xs : List A)
    → ((x : A) → test x ≡ true → other x ≡ true)
    → all_of test xs ≡ true
    → all_of other xs ≡ true
all_of_mono test other [] f h = refl
all_of_mono test other (x ∷ xs) f h =
    let first = f x (ground arith) in
    ground (arith, first, all_of_mono test other xs f (ground arith))

pub length-filter-le :
    {A : Type 0} (keep : A → Bool) (xs : List A) → length (filter keep xs) ≤ length xs
length-filter-le keep [] = omega arith
length-filter-le keep (x ∷ xs) = ground (arith, length-filter-le keep xs)

module _ (height : ℕ → ℕ) where
  abbrev pub at_level : ℕ → List ℕ → List ℕ
  at_level level xs = filter (λ a. ltb level (height a)) xs

  -- Cut the list of a level behind the last node of the level above.
  pub record Cut (level : ℕ) (xs : List ℕ) : Type 0 where
    pub left : List ℕ
    pub right : List ℕ
    pub joined : at_level level xs ≡ left ++ right
    pub last : (q : ℕ) → last_or q left ≡ last_or q (at_level (suc level) xs)

  nonempty_last : (x q : ℕ) (xs : List ℕ) → length xs ≢ 0 → last_or x xs ≡ last_or q xs
  nonempty_last x q [] h = absurd (h refl)
  nonempty_last x q (y ∷ ys) h = refl

  empty_last : (q : ℕ) (xs : List ℕ) → length xs ≡ 0 → q ≡ last_or q xs
  empty_last q [] h = refl
  empty_last q (y ∷ ys) h = absurd (omega arith)

  pub cut : (level : ℕ) (xs : List ℕ) → Cut level xs
  cut level [] = record { left = []; right = []; joined = refl; last = λ q. refl }
  cut level (x ∷ xs) =
      add (cut level xs) (Bool-cases (ltb (suc level) (height x)))
        (Bool-cases (ltb level (height x))) (Bool-cases (length (at_level (suc level) xs) == 0))
    where
      add :
          Cut level xs
          → ((ltb (suc level) (height x) ≡ true) ⊎ (ltb (suc level) (height x) ≡ false))
          → ((ltb level (height x) ≡ true) ⊎ (ltb level (height x) ≡ false))
          → (((length (at_level (suc level) xs) == 0) ≡ true)
              ⊎ ((length (at_level (suc level) xs) == 0) ≡ false))
          → Cut level (x ∷ xs)
      add c (inl tall) (inl low) e = record {
        left = x ∷ c.left;
        right = c.right;
        joined = simp low (ap (◌∷◌ x) c.joined);
        last = λ q. simp tall (c.last x);
      }
      add c (inl tall) (inr low) e = absurd (ground arith)
      add c (inr small) (inr low) e = record {
        left = c.left;
        right = c.right;
        joined = simp low c.joined;
        last = λ q. simp small (c.last q);
      }
      add c (inr small) (inl low) (inl none_above) = record {
        left = [];
        right = x ∷ at_level level xs;
        joined = simp low refl;
        last = λ q. simp small (empty_last q (at_level (suc level) xs) (ground arith));
      }
      add c (inr small) (inl low) (inr some_above) = record {
        left = x ∷ c.left;
        right = c.right;
        joined = simp low (ap (◌∷◌ x) c.joined);
        last =
            λ q. simp small (c.last x ∙ nonempty_last x q (at_level (suc level) xs) (ground arith));
      }
