-- ===== src/SkipList/Emplace.antt =====
-- emplace against the ascending list: the new node between the nodes before its key and the others,
-- or the node that has the key already.
use code_knife.Prelude.{
  ℕ, suc, ◌+◌, ◌-◌, ◌≡◌, ◌≢◌, ◌<◌, ◌≤◌, ltb, leb, ◌==◌, if◌then◌else◌, refl, sym, ap, subst, ◌∙◌,
  arith, Bool, true, false, not, ◌&&◌, Option, none, some, List, [], ◌∷◌, ◌++◌, length,
  filter-append, or_else, find_if-append,
}
use code_knife.SkipList.{
  Node, SkipList, next_of, put, publish_max_height, find_path, prepare, set_next_after, link_after,
  link_levels, emplace_loop, keys_equal,
}
use code_knife.SkipList.Levels.{last_or, all_of, all_of-filter, at_level}
use code_knife.SkipList.Chains.{Chain, Chain-first, Chain-after, lacks, Chain-frame}
use code_knife.SkipList.Search.{IsOrder, keys, heights}
use code_knife.SkipList.Ordered.{all_of-passing, all_of-failing, passing-failing, Represents}
use code_knife.SkipList.Find.{
  lower_nodes, upper_nodes, node_with, node_with-lower, Around, find_path_lem,
}
use code_knife.SkipList.Pointers.{
  last_or-lacks, at_level_ext, all_of_ext, Ascending-ext, max_height-set_next_after,
}
use code_knife.SkipList.Insert.{IsLinked, linked_more, link_after_lem, link_levels_lem}
use code_knife.SkipList.Inserted.{all_of-parts, IsInserted, Represents-IsInserted}

module _ {K V : Type 0} (before : K → K → Bool) where
  -- Writing a node that is not in the list changes nothing that it holds.
  pub Represents_frame :
      (fresh : ℕ) (n : Node K V) (s : SkipList K V) (xs : List ℕ)
      → lacks fresh xs ≡ true
      → Represents before s xs
      → Represents before (record s { node = put s.node fresh n }) xs
  Represents_frame fresh n s xs out r =
      let t : SkipList K V = record s { node = put s.node fresh n } in
      record {
        linked = record {
          chained = λ level h.
              subst (Chain t level (s.head level))
                (sym (
                  at_level_ext fresh (heights s) (heights t) level xs (λ a k. ground (arith, k))
                    out))
                (Chain-frame s t level (λ a. not (a == fresh)) (s.head level)
                  (at_level (heights s) level xs) (λ a k live. ground (arith, k))
                  (all_of-filter (λ b. not (b == fresh)) (λ a. ltb level (heights s a)) xs out)
                  (r.linked.chained level h));
          tall =
              all_of_ext fresh (λ a. ltb 0 (heights s a) && leb (heights s a) s.max_height)
                (λ a. ltb 0 (heights t a) && leb (heights t a) s.max_height) xs
                (λ a k. ground (arith, k)) out
              ∙ r.linked.tall;
          some_level = r.linked.some_level;
          few_levels = r.linked.few_levels;
        };
        ascending =
            Ascending-ext fresh before (keys s) (keys t) xs (λ a k. ground (arith, k)) out
              r.ascending;
        counted = r.counted;
      }

  -- The neighbours of a key point at each other.
  neighbours :
      (key : K) (s : SkipList K V) (xs : List ℕ) (prevs nexts : ℕ → ℕ)
      → Represents before s xs
      → Around before key s xs prevs nexts
      → (j : ℕ) → j < 16
      → next_of s (prevs j) j ≡ nexts j
  neighbours key s xs prevs nexts r path j h =
      let low = at_level (heights s) j (lower_nodes before key s xs) in
      let high = at_level (heights s) j (upper_nodes before key s xs) in
      let chain =
        subst (Chain s j (s.head j))
          (ap (at_level (heights s) j) (sym (passing-failing (λ a. before (keys s a) key) xs))
            ∙ filter-append (λ a. ltb j (heights s a)) (lower_nodes before key s xs)
                (upper_nodes before key s xs))
          (r.linked.chained j h) in
      ap (λ (q : ℕ). next_of s q j) (path.prevs_at j)
      ∙ Chain-first s j (next_of s (last_or 0 low) j) high
          (Chain-after s j (s.head j) 0 low high chain refl)
      ∙ sym (path.nexts_at j)

  prevs_apart :
      (fresh : ℕ) (key : K) (s : SkipList K V) (xs : List ℕ) (prevs nexts : ℕ → ℕ)
      → 0 < fresh
      → lacks fresh xs ≡ true
      → Around before key s xs prevs nexts
      → (j : ℕ) → prevs j ≢ fresh
  prevs_apart fresh key s xs prevs nexts live out path j =
      let parts =
        all_of-parts (λ b. not (b == fresh)) (lower_nodes before key s xs)
          (upper_nodes before key s xs)
          (ap (lacks fresh) (passing-failing (λ a. before (keys s a) key) xs) ∙ out) in
      let apart =
        last_or-lacks fresh 0 (at_level (heights s) j (lower_nodes before key s xs)) (omega arith) (
          all_of-filter (λ b. not (b == fresh)) (λ a. ltb j (heights s a))
            (lower_nodes before key s xs) parts.0) in
      ground (arith, apart, path.prevs_at j)

  -- Nodes that are neither before a key nor have it come after it.
  after_key :
      (key : K) (s : SkipList K V) (xs : List ℕ)
      → all_of (λ a. not (before (keys s a) key)) xs ≡ true
      → node_with before key s xs ≡ none
      → all_of (λ a. before key (keys s a)) xs ≡ true
  after_key key s [] h n = refl
  after_key key s (x ∷ xs) h n =
      let different : keys_equal before (keys s x) key ≡ false = ground (arith, n) in
      let rest : node_with before key s xs ≡ none = ground (arith, n) in
      ground (arith, different, after_key key s xs (ground arith) rest)

  module _ (tries fuel fresh : ℕ) (s : SkipList K V) (xs : List ℕ) (o : IsOrder before)
      (r : Represents before s xs) (live : 0 < fresh) (unused : lacks fresh xs ≡ true)
      (some_height : 0 < heights s fresh) (few : heights s fresh ≤ 16) where
    abbrev key : K
    key = keys s fresh

    abbrev lo : List ℕ
    lo = lower_nodes before key s xs

    abbrev hi : List ℕ
    hi = upper_nodes before key s xs

    whole : lo ++ hi ≡ xs
    whole = passing-failing (λ a. before (keys s a) key) xs

    module _ (prevs nexts : ℕ → ℕ) (path : Around before key s xs prevs nexts) where
      abbrev prepared : SkipList K V
      prepared = prepare before fresh (heights s fresh) nexts s

      abbrev lowest : SkipList K V
      lowest = set_next_after (prevs 0) 0 fresh prepared

      none_linked : IsLinked before fresh 0 prevs prepared prepared
      none_linked = record {
        next_at = λ a j. ground arith;
        keys_at = λ a. refl;
        heights_at = λ a. refl;
        values_at = λ a. refl;
        size_at = refl;
      }

      one_linked :
          IsLinked before fresh 1 prevs prepared (publish_max_height (heights s fresh) lowest)
      one_linked =
          let first = linked_more before fresh 0 prevs prepared prepared none_linked in
          record {
            next_at = first.next_at;
            keys_at = first.keys_at;
            heights_at = first.heights_at;
            values_at = first.values_at;
            size_at = first.size_at;
          }

      expected : (j : ℕ) → j < 16 → next_of prepared (prevs j) j ≡ nexts j
      expected j h = ground (
        arith,
        prevs_apart fresh key s xs prevs nexts live unused path j,
        neighbours key s xs prevs nexts r path j h,
      )

      -- The writes of an insertion, for the neighbours that a search has found.
      linked :
          (t : SkipList K V) × (link_levels before
              (suc tries)
              fuel
              fresh
              (heights s fresh - 1)
              1
              prevs
              nexts
              (publish_max_height (heights s fresh) lowest)
            ≡ some t)
          × IsLinked before fresh (heights s fresh) prevs prepared t
          × (t.max_height
              ≡ (if ltb s.max_height (heights s fresh) then heights s fresh else s.max_height))
      linked =
          let rest =
            link_levels_lem before tries fuel fresh (heights s fresh - 1) 1 prevs nexts prepared
              (publish_max_height (heights s fresh) lowest) one_linked
              (λ j h. expected j (omega (arith, few, h))) in
          let all : 1 + (heights s fresh - 1) ≡ heights s fresh = omega (arith, some_height) in
          (
            rest.0,
            rest.1,
            subst (λ n. IsLinked before fresh n prevs prepared rest.0) all rest.2,
            rest.3
                ∙ ap (λ (m : ℕ). if ltb m (heights s fresh) then heights s fresh else m)
                    (max_height-set_next_after (prevs 0) 0 fresh prepared),
          )

      inserted :
          ((level : ℕ) → (s.node fresh).next level ≡ 0)
          → node_with before key s xs ≡ none
          → IsInserted before fresh
              (heights s fresh)
              lo
              hi
              s
              (record linked.0 { size = linked.0.size + 1 })
      inserted empty new =
          let l = linked.2 in
          let whole_order = λ (a b : K) (p : before a b ≡ true) (q : before b key ≡ true).
            o.transitive a b key p q in
          let upper_new =
            sym (
              ap (λ (t : Option ℕ). or_else t (node_with before key s hi))
                (node_with-lower before key s lo (all_of-passing (λ a. before (keys s a) key) xs)))
            ∙ sym (find_if-append (λ a. keys_equal before (keys s a) key) lo hi)
            ∙ ap (node_with before key s) whole
            ∙ new in
          let same : keys linked.0 fresh ≡ key = l.keys_at fresh ∙ ground arith in
          record {
            live = live;
            unused = ap (lacks fresh) whole ∙ unused;
            some_height = some_height;
            few = few;
            pointers = λ a j.
                ground (arith, l.next_at a j, empty j, path.prevs_at j, path.nexts_at j, live);
            same_keys = λ a n. l.keys_at a ∙ ground (arith, n);
            same_heights = λ a n. l.heights_at a ∙ ground (arith, n);
            new_height = l.heights_at fresh ∙ ground arith;
            above_low =
                subst (λ k. all_of (λ a. before (keys s a) k) lo ≡ true) (sym same)
                  (all_of-passing (λ a. before (keys s a) key) xs);
            below_high =
                subst (λ k. all_of (λ a. before k (keys s a)) hi ≡ true) (sym same)
                  (after_key key s hi
                    (all_of-failing before (keys s) (λ k. before k key) xs whole_order r.ascending)
                    upper_new);
            new_size = ap (λ (n : ℕ). n + 1) l.size_at;
            new_max = linked.3;
          }

    -- A round of the loop, by what its calls return.
    round :
        (prevs nexts : ℕ → ℕ) (below t : SkipList K V)
        → find_path before fuel (keys s fresh) s ≡ some (false, prevs, nexts)
        → link_after (prevs 0) 0 (nexts 0) fresh (prepare before fresh (heights s fresh) nexts s)
          ≡ (true, below)
        → link_levels before
            (suc tries)
            fuel
            fresh
            (heights s fresh - 1)
            1
            prevs
            nexts
            (publish_max_height (heights s fresh) below)
          ≡ some t
        → emplace_loop before (suc (suc tries)) fuel fresh s
          ≡ some ((fresh, true), record t { size = t.size + 1 })
    unfolding emplace_loop
    round prevs nexts below t f first rest =
        let done = ap (λ (r : Bool × SkipList K V). r.0) first in
        let state = ap (λ (r : Bool × SkipList K V). r.1) first in
        rw (f, done, state, rest, emplace_loop) refl

    -- What the loop of emplace makes of a node that was created with a new key.
    pub record Placed (result : Option ((ℕ × Bool) × SkipList K V)) : Type 0 where
      pub final : SkipList K V
      pub run : result ≡ some ((fresh, true), final)
      pub holds : Represents before final (lo ++ (fresh ∷ hi))
      pub same_keys : (a : ℕ) → keys final a ≡ keys s a
      pub same_values : (a : ℕ) → (final.node a).value ≡ (s.node a).value

    pub loop_new :
        length xs < fuel
        → ((level : ℕ) → (s.node fresh).next level ≡ 0)
        → node_with before key s xs ≡ none
        → Placed (emplace_loop before (suc (suc tries)) fuel fresh s)
    unfolding emplace_loop
    loop_new h empty new =
        let f = find_path_lem before o fuel key s xs r h in
        let prevs = f.1 in
        let nexts = f.2 in
        let path = f.4 in
        let absent : f.0 ≡ false = not_found f.0 (nexts 0) (sym f.5 ∙ new) in
        let l = linked prevs nexts path in
        let first =
          link_after_lem before fresh 0 prevs nexts (prepared prevs nexts path)
            (prepared prevs nexts path) (none_linked prevs nexts path)
            (expected prevs nexts path 0 (omega arith)) in
        record {
          final = record l.0 { size = l.0.size + 1 };
          run =
              round prevs nexts (lowest prevs nexts path) l.0
                (f.3 ∙ ap (λ (b : Bool). some (b, prevs, nexts)) absent) first l.1;
          holds =
              Represents-IsInserted before fresh (heights s fresh) lo hi s
                (record l.0 { size = l.0.size + 1 }) o (subst (Represents before s) (sym whole) r)
                (inserted prevs nexts path empty new);
          same_keys = λ a.
              let here : a ≡ fresh → keys s fresh ≡ keys s a = λ e. ap (keys s) (sym e) in
              l.2.keys_at a ∙ ground (arith, here);
          same_values = λ a.
              let here : a ≡ fresh → (s.node fresh).value ≡ (s.node a).value =
                λ e. ap (λ (b : ℕ). (s.node b).value) (sym e) in
              l.2.values_at a ∙ ground (arith, here);
        }
      where
        not_found : (b : Bool) (a : ℕ) → (if b then some a else none) ≡ none → b ≡ false
        not_found true a e = ground arith
        not_found false a e = refl
