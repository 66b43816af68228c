-- ===== src/SkipList/EraseKey.antt =====
-- unsafe_erase on every branch: the node that has the key leaves the list, if there is one.
use code_knife.Prelude.{
  ℕ, ◌-◌, ◌≡◌, ◌<◌, ltb, leb, ◌==◌, if◌then◌else◌, refl, sym, ap, subst, ◌∙◌, arith, Bool, true,
  false, not, ◌&&◌, Option, none, some, List, [], ◌∷◌, ◌++◌, length, filter, find_if-append,
  or_else,
}
use code_knife.SkipList.{
  SkipList, unlink_levels, trim_max_height, find_path, unsafe_erase, keys_equal,
}
use code_knife.SkipList.Levels.{first_or_null, all_of, at_level}
use code_knife.SkipList.Chains.{lacks, Distinct}
use code_knife.SkipList.Search.{IsOrder, keys, heights}
use code_knife.SkipList.Ordered.{or_null, passing-failing, all_of-passing, bottom, Represents}
use code_knife.SkipList.Find.{
  lower_nodes, upper_nodes, node_with, node_with-lower, Around, find_path_lem,
}
use code_knife.SkipList.Pointers.{Ascending-Distinct}
use code_knife.SkipList.Inserted.{lacks-null, all_of-parts}
use code_knife.SkipList.Erased.{unlink_levels_lem}
use code_knife.SkipList.Erase.{Represents-IsUnlinked}

abbrev pub without : ℕ → List ℕ → List ℕ
without x xs = filter (λ a. not (a == x)) xs

abbrev pub count : Option ℕ → ℕ
count none = 0
count (some a) = 1

without-lacks : (x : ℕ) (xs : List ℕ) → lacks x xs ≡ true → without x xs ≡ xs
without-lacks x [] h = refl
without-lacks x (a ∷ xs) h = ground (arith, without-lacks x xs (ground arith))

without-middle :
    (xs : List ℕ) (x : ℕ) (ys : List ℕ)
    → Distinct (xs ++ (x ∷ ys))
    → without x (xs ++ (x ∷ ys)) ≡ xs ++ ys
without-middle [] x ys d = ground (arith, without-lacks x ys d.0)
without-middle (a ∷ xs) x ys d =
    let apart = all_of-parts (λ b. not (b == a)) xs (x ∷ ys) d.0 in
    ground (arith, apart.1, without-middle xs x ys d.1)

lacks_null_in :
    (keep : ℕ → Bool) (xs : List ℕ)
    → all_of keep xs ≡ true
    → lacks 0 (filter keep xs) ≡ true
    → lacks 0 xs ≡ true
lacks_null_in keep [] h l = refl
lacks_null_in keep (a ∷ xs) h l =
    ground (arith, lacks_null_in keep xs (ground arith) (ground arith))

module _ {K V : Type 0} (before : K → K → Bool) (o : IsOrder before) (fuel : ℕ) (key : K)
    (s : SkipList K V) (xs : List ℕ) (r : Represents before s xs) (h : length xs < fuel) where
  abbrev lo : List ℕ
  lo = lower_nodes before key s xs

  abbrev hi : List ℕ
  hi = upper_nodes before key s xs

  whole : lo ++ hi ≡ xs
  whole = passing-failing (λ a. before (keys s a) key) xs

  no_null : lacks 0 xs ≡ true
  no_null =
      lacks_null_in (λ a. ltb 0 (heights s a)) xs (has_height xs r.linked.tall)
        (lacks-null s 0 (s.head 0) (at_level (heights s) 0 xs) (r.linked.chained 0 (omega arith)))
    where
      has_height :
          (ys : List ℕ)
          → all_of (λ a. ltb 0 (heights s a) && leb (heights s a) s.max_height) ys ≡ true
          → all_of (λ a. ltb 0 (heights s a)) ys ≡ true
      has_height [] t = refl
      has_height (a ∷ ys) t = ground (arith, has_height ys (ground arith))

  -- The node found is the first that is not before the key.
  upper_shape :
      (x : ℕ) (ys : List ℕ)
      → node_with before key s (lo ++ ys) ≡ some x
      → first_or_null ys ≡ x
      → (rest : List ℕ) × (ys ≡ x ∷ rest)
  upper_shape x [] n f =
      let low = node_with-lower before key s lo (all_of-passing (λ a. before (keys s a) key) xs) in
      let none_there =
        find_if-append (λ a. keys_equal before (keys s a) key) lo []
        ∙ ap (λ (t : Option ℕ). or_else t none) low in
      ground (arith, n, none_there)
  upper_shape x (y ∷ ys) n f = (ys, ap (λ (a : ℕ). a ∷ ys) f)

  -- What unsafe_erase leaves, with the number that it returns.
  pub record IsErased (t : SkipList K V) : Type 0 where
    pub holds : Represents before t (without (or_null (node_with before key s xs)) xs)
    pub same_keys : (a : ℕ) → keys t a ≡ keys s a
    pub same_values : (a : ℕ) → (t.node a).value ≡ (s.node a).value

  absent :
      (prevs nexts : ℕ → ℕ)
      → find_path before fuel key s ≡ some (false, prevs, nexts)
      → node_with before key s xs ≡ none
      → (t : SkipList K V) × (unsafe_erase before fuel key s
          ≡ some (count (node_with before key s xs), t))
        × IsErased t
  unfolding unsafe_erase
  absent prevs nexts f n = (
    s,
    rw (f, n, unsafe_erase) refl,
    record {
      holds =
          subst (Represents before s)
            (sym (ap (λ (a : Option ℕ). without (or_null a) xs) n ∙ without-lacks 0 xs no_null)) r;
      same_keys = λ a. refl;
      same_values = λ a. refl;
    },
  )

  present :
      (prevs nexts : ℕ → ℕ)
      → find_path before fuel key s ≡ some (true, prevs, nexts)
      → Around before key s xs prevs nexts
      → node_with before key s xs ≡ some (nexts 0)
      → (t : SkipList K V) × (unsafe_erase before fuel key s
          ≡ some (count (node_with before key s xs), t))
        × IsErased t
  unfolding unsafe_erase trim_max_height
  present prevs nexts f path n =
      let x = nexts 0 in
      let shape = upper_shape x hi (ap (node_with before key s) whole ∙ n) (
        sym (path.nexts_at 0 ∙ ap first_or_null (bottom before (λ k. before k key) s xs fuel r))) in
      let split : lo ++ (x ∷ shape.0) ≡ xs = ap (lo ++◌) (sym shape.1) ∙ whole in
      let holding = subst (Represents before s) (sym split) r in
      let live : 0 < x =
        let parts =
          all_of-parts (λ b. not (b == 0)) lo (x ∷ shape.0) (ap (lacks 0) split ∙ no_null) in
        ground (arith, parts.1) in
      let u = unlink_levels_lem x (heights s x) prevs s live in
      let unlinked = unlink_levels x (heights s x) 0 prevs s in
      let rest : without (or_null (node_with before key s xs)) xs ≡ lo ++ shape.0 =
        ap (λ (a : Option ℕ). without (or_null a) xs) n
        ∙ ap (without x) (sym split)
        ∙ without-middle lo x shape.0
            (Ascending-Distinct before o (keys s) (lo ++ (x ∷ shape.0)) holding.ascending) in
      (
        trim_max_height (record unlinked { size = unlinked.size - 1 }),
        rw (f, n, unsafe_erase) refl,
        record {
          holds =
              subst
                (Represents before (trim_max_height (record unlinked { size = unlinked.size - 1 })))
                (sym rest)
                (Represents-IsUnlinked before x lo shape.0 prevs s unlinked o holding u
                  path.prevs_at);
          same_keys = u.keys_at;
          same_values = u.values_at;
        },
      )

  -- unsafe_erase ends. Where a node has the key it returns 1, and the list holds the other nodes, on
  -- each level and within the new maximal height, and counts them; where none has it, it returns 0 and
  -- holds the same nodes. No node's key or value changes.
  pub unsafe_erase_lem :
      (t : SkipList K V) × (unsafe_erase before fuel key s
        ≡ some (count (node_with before key s xs), t))
      × IsErased t
  unsafe_erase_lem =
      let f = find_path_lem before o fuel key s xs r h in branch f.0 f.1 f.2 f.3 f.4 f.5
    where
      branch :
          (found : Bool) (prevs nexts : ℕ → ℕ)
          → find_path before fuel key s ≡ some (found, prevs, nexts)
          → Around before key s xs prevs nexts
          → node_with before key s xs ≡ (if found then some (nexts 0) else none)
          → (t : SkipList K V) × (unsafe_erase before fuel key s
              ≡ some (count (node_with before key s xs), t))
            × IsErased t
      branch true prevs nexts f path n = present prevs nexts f path n
      branch false prevs nexts f path n = absent prevs nexts f n
