-- ===== src/SkipList.antt =====
-- include/util/skiplist.hpp: nodes at addresses with one pointer for each level, used by one thread
-- at a time. The address 0 is null, and as a predecessor it stands for the head. The order
-- `compare` of the keys is the parameter `before`, the address of a new node and its random height
-- are arguments. Loops over pointers run on fuel, and `none` means that it ran out.
pub mod Levels
pub mod Chains
pub mod Search
pub mod Ordered
pub mod Find
pub mod Pointers
pub mod Insert
pub mod Inserted
pub mod Emplace
pub mod Emplaced
pub mod Erased
pub mod Erase
pub mod EraseKey
pub mod Heights
mod Tests
use code_knife.Prelude.{
  ℕ, zero, suc, ◌+◌, ◌-◌, ◌==◌, ltb, leb, if◌then◌else◌, Bool, true, false, not, ◌&&◌, ◌||◌, Option,
  none, some, List, [], ◌∷◌,
}

abbrev pub max_level : ℕ
max_level = 16

pub record Node (K V : Type 0) : Type 0 where
  pub key : K
  pub value : V
  pub height : ℕ
  pub next : ℕ → ℕ

-- `node` is the memory; an address that holds no node is never followed.
pub record SkipList (K V : Type 0) : Type 0 where
  pub head : ℕ → ℕ
  pub node : ℕ → Node K V
  pub size : ℕ
  pub max_height : ℕ

-- An array of MAX_LEVEL pointers, and one of its entries set.
abbrev pub Pointers : Type 0
Pointers = ℕ → ℕ

abbrev pub put : {A : Type 0} → (ℕ → A) → ℕ → A → ℕ → A
put f i v j = if j == i then v else f j

module _ {K V : Type 0} where
  abbrev pub next_of : SkipList K V → ℕ → ℕ → ℕ
  next_of s prev level = if prev == 0 then s.head level else (s.node prev).next level

  abbrev pub with_next : Node K V → ℕ → ℕ → Node K V
  with_next n level target = record n { next = put n.next level target }

  -- set_next_after
  pub set_next_after : ℕ → ℕ → ℕ → SkipList K V → SkipList K V
  set_next_after prev level target s =
      if prev == 0
      then record s { head = put s.head level target }
      else record s { node = put s.node prev (with_next (s.node prev) level target) }

  -- link_after: the compare-and-exchange of one pointer.
  pub link_after : ℕ → ℕ → ℕ → ℕ → SkipList K V → Bool × SkipList K V
  unfolding set_next_after
  link_after prev level expected desired s =
      if next_of s prev level == expected
      then (true, set_next_after prev level desired s)
      else (false, s)

  -- The inner loop of a search, along one level: while the key of `current` passes the test.
  pub walk : (K → Bool) → SkipList K V → ℕ → ℕ → ℕ → ℕ → Option (ℕ × ℕ)
  walk test s level zero prev current = none
  walk test s level (suc fuel) prev current =
      if not (current == 0) && test (s.node current).key
      then walk test s level fuel current ((s.node current).next level)
      else some (prev, current)

  -- The loop over the levels of lower_bound_node and upper_bound_node, `level` of them left.
  pub descend : (K → Bool) → SkipList K V → ℕ → ℕ → ℕ → Option ℕ
  unfolding walk
  descend test s fuel zero prev = some prev
  descend test s fuel (suc level) prev = elim (walk test s level fuel prev (next_of s prev level)) [
    | none ↦ none
    | some (last, current) ↦ descend test s fuel level last
  ]

  -- The loop over the levels of find_path, with the two arrays.
  pub find_levels :
      (K → Bool) → SkipList K V → ℕ → ℕ → ℕ → Pointers → Pointers → Option (Pointers × Pointers)
  unfolding walk
  find_levels test s fuel zero prev prevs nexts = some (prevs, nexts)
  find_levels test s fuel (suc level) prev prevs nexts =
      elim (walk test s level fuel prev (next_of s prev level)) [
        | none ↦ none
        | some (last, current) ↦
            find_levels test s fuel level last (put prevs level last) (put nexts level current)
      ]

  -- begin, and the iterator's ++
  pub begin : SkipList K V → ℕ
  begin s = s.head 0

  pub advance : SkipList K V → ℕ → ℕ
  advance s node = if node == 0 then 0 else (s.node node).next 0

  -- publish_max_height
  abbrev pub publish_max_height : ℕ → SkipList K V → SkipList K V
  publish_max_height height s = record s {
    max_height = if ltb s.max_height height then height else s.max_height;
  }

  -- The loop of trim_max_height, from a height on.
  pub trim : SkipList K V → ℕ → ℕ
  trim s zero = zero
  trim s (suc n) = let lower = trim s n in if ltb 1 (suc n) && (s.head n == 0) then lower else suc n

  pub trim_max_height : SkipList K V → SkipList K V
  unfolding trim
  trim_max_height s = record s { max_height = trim s s.max_height }

  -- unsafe_clear
  pub unsafe_clear : SkipList K V → SkipList K V
  unsafe_clear s = record s { head = λ level. 0; size = 0; max_height = 1 }

  -- unsafe_swap of two lists, which share the memory.
  pub unsafe_swap : SkipList K V × SkipList K V → SkipList K V × SkipList K V
  unsafe_swap (a, b) = (
    record a { head = b.head; size = b.size; max_height = b.max_height },
    record b { head = a.head; size = a.size; max_height = a.max_height },
  )

  -- for (level = 0; level < height; ++level) set_next_after(...), `left` levels from `level` on.
  pub unlink_levels : ℕ → ℕ → ℕ → Pointers → SkipList K V → SkipList K V
  unfolding set_next_after
  unlink_levels node zero level prevs s = s
  unlink_levels node (suc left) level prevs s =
      unlink_levels node left (level + 1) prevs
        (set_next_after (prevs level) level ((s.node node).next level) s)

-- random_level: `draws` at a level is what the distribution gives there; `left` levels are above it.
pub random_level_from : (ℕ → ℕ) → ℕ → ℕ → ℕ
random_level_from draws zero level = level
random_level_from draws (suc left) level =
    let higher = random_level_from draws left (level + 1) in
    if draws level == 0 then higher else level

pub random_level : (ℕ → ℕ) → ℕ
unfolding random_level_from
random_level draws = random_level_from draws 15 1

-- move_from: this list, and the one that it takes from.
pub move_from : {K V : Type 0} → SkipList K V × SkipList K V → SkipList K V × SkipList K V
unfolding unsafe_clear
move_from (a, b) =
    (record a { head = b.head; size = b.size; max_height = b.max_height }, unsafe_clear b)

abbrev pub keys_equal : {K : Type 0} → (K → K → Bool) → K → K → Bool
keys_equal before a b = not (before a b) && not (before b a)

module _ {K V : Type 0} (before : K → K → Bool) where
  -- find_path: the predecessors and successors of a key on each level, and whether it is there.
  pub find_path : ℕ → K → SkipList K V → Option (Bool × Pointers × Pointers)
  unfolding find_levels
  find_path fuel key s =
      elim (find_levels (λ k. before k key) s fuel s.max_height 0 (λ level. 0) (λ level. 0)) [
        | none ↦ none
        | some (prevs, nexts) ↦
            some (not (nexts 0 == 0) && keys_equal before (s.node (nexts 0)).key key, prevs, nexts)
      ]

  pub find_node : ℕ → K → SkipList K V → Option ℕ
  unfolding find_path
  find_node fuel key s = elim (find_path fuel key s) [
    | none ↦ none
    | some (found, prevs, nexts) ↦ some (if found then nexts 0 else 0)
  ]

  pub contains : ℕ → K → SkipList K V → Option Bool
  unfolding find_node
  contains fuel key s = elim (find_node fuel key s) [
    | none ↦ none
    | some node ↦ some (not (node == 0))
  ]

  pub lower_bound : ℕ → K → SkipList K V → Option ℕ
  unfolding descend
  lower_bound fuel key s = elim (descend (λ k. before k key) s fuel s.max_height 0) [
    | none ↦ none
    | some prev ↦ some (next_of s prev 0)
  ]

  pub upper_bound : ℕ → K → SkipList K V → Option ℕ
  unfolding descend
  upper_bound fuel key s = elim (descend (λ k. not (before key k)) s fuel s.max_height 0) [
    | none ↦ none
    | some prev ↦ some (next_of s prev 0)
  ]

  -- for (level = 0; level < height; ++level) new_node->set_next(level, next_nodes[level])
  abbrev pub prepare : ℕ → ℕ → Pointers → SkipList K V → SkipList K V
  prepare fresh height nexts s = record s {
    node = put s.node fresh (record (s.node fresh) {
      next = λ level. if ltb level height then nexts level else (s.node fresh).next level;
    });
  }

  -- The loop that links one level above the lowest: again with a new search where it fails.
  pub link_level :
      ℕ
      → ℕ
      → ℕ
      → ℕ
      → Pointers
      → Pointers
      → SkipList K V
      → Option (Pointers × Pointers × SkipList K V)
  unfolding link_after find_path
  link_level zero fuel fresh level prevs nexts s = none
  link_level (suc tries) fuel fresh level prevs nexts s =
      let (done, linked) = link_after (prevs level) level (nexts level) fresh s in
      elim done [
        | true ↦ some (prevs, nexts, linked)
        | false ↦ elim (find_path fuel (s.node fresh).key s) [
          | none ↦ none
          | some (found, prevs', nexts') ↦
              link_level tries fuel fresh level prevs' nexts' (record s {
                node = put s.node fresh (with_next (s.node fresh) level (nexts' level));
              })
        ]
      ]

  -- for (level = 1; level < height; ++level), `left` levels from `level` on.
  pub link_levels : ℕ → ℕ → ℕ → ℕ → ℕ → Pointers → Pointers → SkipList K V → Option (SkipList K V)
  unfolding link_level
  link_levels tries fuel fresh zero level prevs nexts s = some s
  link_levels tries fuel fresh (suc left) level prevs nexts s =
      elim (link_level tries fuel fresh level prevs nexts s) [
        | none ↦ none
        | some (prevs', nexts', linked) ↦
            link_levels tries fuel fresh left (level + 1) prevs' nexts' linked
      ]

  -- The loop of emplace, once the new node is there; the iterator and whether it was inserted.
  pub emplace_loop : ℕ → ℕ → ℕ → SkipList K V → Option ((ℕ × Bool) × SkipList K V)
  unfolding find_path link_after link_levels
  emplace_loop zero fuel fresh s = none
  emplace_loop (suc tries) fuel fresh s =
      let n = s.node fresh in
      elim (find_path fuel n.key s) [
        | none ↦ none
        | some (true, prevs, nexts) ↦ some ((nexts 0, false), s)
        | some (false, prevs, nexts) ↦
            let (done, linked) =
              link_after (prevs 0) 0 (nexts 0) fresh (prepare fresh n.height nexts s) in
            elim done [
              | false ↦ emplace_loop tries fuel fresh linked
              | true ↦
                  elim (link_levels tries fuel fresh (n.height - 1) 1 prevs nexts
                    (publish_max_height n.height linked)) [
                      | none ↦ none
                      | some all ↦ some ((fresh, true), record all { size = all.size + 1 })
                    ]
            ]
      ]

  -- create_node, and emplace with its height drawn.
  abbrev pub create_node : ℕ → ℕ → K → V → SkipList K V → SkipList K V
  create_node fresh height key value s = record s {
    node =
        put s.node fresh (record { key = key; value = value; height = height; next = λ level. 0 });
  }

  pub emplace : ℕ → ℕ → ℕ → ℕ → K → V → SkipList K V → Option ((ℕ × Bool) × SkipList K V)
  unfolding emplace_loop
  emplace tries fuel fresh height key value s =
      emplace_loop tries fuel fresh (create_node fresh height key value s)

  pub unsafe_erase : ℕ → K → SkipList K V → Option (ℕ × SkipList K V)
  unfolding find_path unlink_levels trim_max_height
  unsafe_erase fuel key s = elim (find_path fuel key s) [
    | none ↦ none
    | some (false, prevs, nexts) ↦ some (0, s)
    | some (true, prevs, nexts) ↦
        let unlinked = unlink_levels (nexts 0) (s.node (nexts 0)).height 0 prevs s in
        some (1, trim_max_height (record unlinked { size = unlinked.size - 1 }))
  ]

  -- unsafe_erase at an iterator, with the iterator that it returns.
  pub erase_at : ℕ → ℕ → SkipList K V → Option (ℕ × SkipList K V)
  unfolding unsafe_erase
  erase_at fuel node s =
      let next = (s.node node).next 0 in
      elim (node == 0) [
        | true ↦ some (0, s)
        | false ↦ elim (unsafe_erase fuel (s.node node).key s) [
          | none ↦ none
          | some (erased, t) ↦ some (next, t)
        ]
      ]

  -- unsafe_erase of the nodes from `first` up to `last`, within `tries` of them.
  pub erase_range : ℕ → ℕ → ℕ → ℕ → SkipList K V → Option (ℕ × SkipList K V)
  unfolding erase_at
  erase_range zero fuel first last s = if first == last then some (first, s) else none
  erase_range (suc tries) fuel first last s = elim (first == last) [
    | true ↦ some (first, s)
    | false ↦ elim (erase_at fuel first s) [
      | none ↦ none
      | some (next, t) ↦ erase_range tries fuel next last t
    ]
  ]
