-- ===== src/SkipList/Emplaced.antt =====
-- emplace: a new key's node stands between the nodes before the key and the others; a key that is
-- there stays.
use code_knife.Prelude.{
  ℕ, suc, ◌≡◌, ◌≢◌, ◌<◌, ◌≤◌, if◌then◌else◌, refl, sym, ap, ap₂, subst, ◌∙◌, arith, Bool, true,
  false, none, some, List, [], ◌∷◌, ◌++◌, length, find_if,
}
use code_knife.SkipList.{Node, SkipList, find_path, emplace_loop, create_node, emplace, keys_equal}
use code_knife.SkipList.Chains.{lacks}
use code_knife.SkipList.Search.{IsOrder, keys, heights}
use code_knife.SkipList.Ordered.{passing, failing, Represents}
use code_knife.SkipList.Find.{lower_nodes, upper_nodes, node_with, find_path_lem}
use code_knife.SkipList.Emplace.{Represents_frame, loop_new}

module _ (fresh : ℕ) (f g : ℕ → Bool) (same : (a : ℕ) → a ≢ fresh → g a ≡ f a) where
  passing_ext : (xs : List ℕ) → lacks fresh xs ≡ true → passing g xs ≡ passing f xs
  passing_ext [] l = refl
  passing_ext (x ∷ xs) l = ground (arith, same x (ground arith), passing_ext xs (ground arith))

  failing_ext : (xs : List ℕ) → lacks fresh xs ≡ true → failing g xs ≡ failing f xs
  failing_ext [] l = refl
  failing_ext (x ∷ xs) l = ground (arith, same x (ground arith), failing_ext xs (ground arith))

  find_if_ext : (xs : List ℕ) → lacks fresh xs ≡ true → find_if g xs ≡ find_if f xs
  find_if_ext [] l = refl
  find_if_ext (x ∷ xs) l = ground (arith, same x (ground arith), find_if_ext xs (ground arith))

module _ {K V : Type 0} (before : K → K → Bool) (tries fuel fresh height : ℕ) (key : K) (value : V)
    (s : SkipList K V) (xs : List ℕ) where
  abbrev created : SkipList K V
  created = create_node before fresh height key value s

  abbrev drawn_node : Node K V
  drawn_node = record { key = key; value = value; height = height; next = λ level. 0 }

  created_key : keys created fresh ≡ key
  created_key = ground arith

  module _ (unused : lacks fresh xs ≡ true) where
    same_lower : lower_nodes before (keys created fresh) created xs ≡ lower_nodes before key s xs
    same_lower =
        ap (λ k. lower_nodes before k created xs) created_key
        ∙ passing_ext fresh (λ a. before (keys s a) key) (λ a. before (keys created a) key)
            (λ a n. ground (arith, n)) xs unused

    same_upper : upper_nodes before (keys created fresh) created xs ≡ upper_nodes before key s xs
    same_upper =
        ap (λ k. upper_nodes before k created xs) created_key
        ∙ failing_ext fresh (λ a. before (keys s a) key) (λ a. before (keys created a) key)
            (λ a n. ground (arith, n)) xs unused

    same_node_with : node_with before (keys created fresh) created xs ≡ node_with before key s xs
    same_node_with =
        ap (λ k. node_with before k created xs) created_key
        ∙ find_if_ext fresh (λ a. keys_equal before (keys s a) key)
            (λ a. keys_equal before (keys created a) key) (λ a n. ground (arith, n)) xs unused

  -- What emplace leaves of a new key.
  pub record IsEmplaced (t : SkipList K V) : Type 0 where
    pub holds :
        Represents before t (lower_nodes before key s xs ++ (fresh ∷ upper_nodes before key s xs))
    pub new_key : keys t fresh ≡ key
    pub new_value : (t.node fresh).value ≡ value
    pub other_keys : (a : ℕ) → a ≢ fresh → keys t a ≡ keys s a
    pub other_values : (a : ℕ) → a ≢ fresh → (t.node a).value ≡ (s.node a).value

  -- With nothing else running, emplace of a key that no node has ends and gives the iterator of the
  -- new node, whose height is from 1 to 16, and true: the list then holds the nodes before the key,
  -- the new node with the key and the value, and the other nodes, with all pointers of all levels as a
  -- skip list has them, ascending and counted, and no other node's key or value has changed.
  pub emplace_new :
      IsOrder before
      → Represents before s xs
      → 0 < fresh
      → lacks fresh xs ≡ true
      → 0 < height
      → height ≤ 16
      → length xs < fuel
      → node_with before key s xs ≡ none
      → (t : SkipList K V) × (emplace before (suc (suc tries)) fuel fresh height key value s
          ≡ some ((fresh, true), t))
        × IsEmplaced t
  unfolding emplace
  emplace_new o r live unused tall few enough new =
      let drawn : heights created fresh ≡ height = ground arith in
      let p =
        loop_new before tries fuel fresh created xs o
          (Represents_frame before fresh drawn_node s xs unused r) live unused
          (omega (arith, drawn, tall)) (omega (arith, drawn, few)) enough (λ level. ground arith)
          (same_node_with unused ∙ new) in
      (
        p.final,
        p.run,
        record {
          holds =
              subst (Represents before p.final)
                (ap₂ (λ (a b : List ℕ). a ++ (fresh ∷ b)) (same_lower unused) (same_upper unused))
                p.holds;
          new_key = p.same_keys fresh ∙ created_key;
          new_value = p.same_values fresh ∙ ground arith;
          other_keys = λ a n. p.same_keys a ∙ ground (arith, n);
          other_values = λ a n. p.same_values a ∙ ground (arith, n);
        },
      )

  -- emplace of a key that a node has gives the iterator of that node and false; the list stays.
  pub emplace_again :
      (a : ℕ)
      → IsOrder before
      → Represents before s xs
      → lacks fresh xs ≡ true
      → length xs < fuel
      → node_with before key s xs ≡ some a
      → (emplace before (suc tries) fuel fresh height key value s ≡ some ((a, false), created))
        × Represents before created xs
  unfolding emplace emplace_loop
  emplace_again a o r unused enough there =
      let still = Represents_frame before fresh drawn_node s xs unused r in
      let f = find_path_lem before o fuel (keys created fresh) created xs still enough in
      let it = found f.0 (f.2 0) (sym f.5 ∙ same_node_with unused ∙ there) in
      let run : find_path before fuel (keys created fresh) created ≡ some (true, f.1, f.2) =
        f.3 ∙ ap (λ (b : Bool). some (b, f.1, f.2)) it.0 in
      (rw (run, it.1, emplace, emplace_loop) refl, still)
    where
      found : (b : Bool) (n : ℕ) → (if b then some n else none) ≡ some a → (b ≡ true) × (n ≡ a)
      found true n e = (refl, ground (arith, e))
      found false n e = ground (arith, e)
