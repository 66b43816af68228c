-- ===== src/ConnectionManager/Entries.antt =====
-- The association list of the connections: what each operation on it does to the list of a sender,
-- and that each sender keeps having one list.
use code_knife.Prelude.{
  ℕ, ◌≡◌, ◌==◌, if◌then◌else◌, refl, ap, ◌∙◌, arith, true, false, not, Bool-cases, inl, inr, Option,
  none, some, List, [], ◌∷◌, ◌++◌, filter, or_else,
}
use code_knife.ConnectionManager.{
  Connection, Connections, find_list, set_list, erase_list, drop_receiver, drop_empty,
}

abbrev pub or_empty : Option (List Connection) → List Connection
or_empty none = []
or_empty (some list) = list

-- The connections of a sender, in the order in which they were made.
abbrev pub list_of : Connections → ℕ → List Connection
list_of m sender = or_empty (find_list m sender)

-- Each sender has one list.
abbrev pub Distinct : Connections → Type 0
Distinct [] = Unit {0}
Distinct ((key, list) ∷ entries) = (find_list entries key ≡ none) × Distinct entries

pub find_list-set_list :
    (m : Connections) (s k : ℕ) (old list : List Connection)
    → find_list m s ≡ some old
    → find_list (set_list m s list) k ≡ (if s == k then some list else find_list m k)
unfolding find_list set_list
find_list-set_list [] s k old list h = ground arith
find_list-set_list ((key, l) ∷ entries) s k old list h = elim (Bool-cases (key == s)) [
  | inl yes' ↦ ground (arith, yes')
  | inr no' ↦
      let rest : find_list entries s ≡ some old = ground arith in
      ground (arith, no', find_list-set_list entries s k old list rest)
]

pub find_list-append :
    (m : Connections) (s k : ℕ) (list : List Connection)
    → find_list (m ++ ((s, list) ∷ [])) k
      ≡ or_else (find_list m k) (if s == k then some list else none)
unfolding find_list
find_list-append [] s k list = ground arith
find_list-append ((key, l) ∷ entries) s k list = ground (arith, find_list-append entries s k list)

pub find_list-erase_list :
    (m : Connections) (s k : ℕ)
    → Distinct m
    → find_list (erase_list m s) k ≡ (if s == k then none else find_list m k)
unfolding find_list erase_list
find_list-erase_list [] s k d = ground arith
find_list-erase_list ((key, l) ∷ entries) s k d = elim (Bool-cases (key == s)) [
  | inl yes' ↦
      let there : s == k ≡ true → find_list entries k ≡ none =
        λ h. ap (find_list entries) {x = k} {y = key} (ground arith) ∙ d.0 in
      ground (arith, yes', there)
  | inr no' ↦ ground (arith, no', find_list-erase_list entries s k d.1)
]

abbrev pub keep_others : ℕ → Option (List Connection) → Option (List Connection)
keep_others obj none = none
keep_others obj (some list) = some (filter (λ c. not (c.receiver == obj)) list)

pub find_list-drop_receiver :
    (m : Connections) (obj k : ℕ)
    → find_list (drop_receiver obj m) k ≡ keep_others obj (find_list m k)
unfolding find_list drop_receiver
find_list-drop_receiver [] obj k = refl
find_list-drop_receiver ((key, l) ∷ entries) obj k =
    ground (arith, find_list-drop_receiver entries obj k)

find_list-drop_empty-none :
    (m : Connections) (k : ℕ) → find_list m k ≡ none → find_list (drop_empty m) k ≡ none
unfolding find_list drop_empty
find_list-drop_empty-none [] k h = refl
find_list-drop_empty-none ((key, l) ∷ entries) k h =
    let rest : find_list entries k ≡ none = ground arith in
    ground (arith, find_list-drop_empty-none entries k rest)

-- Dropping empty lists changes no sender's list.
pub list_of-drop_empty :
    (m : Connections) (k : ℕ) → Distinct m → list_of (drop_empty m) k ≡ list_of m k
unfolding find_list drop_empty
list_of-drop_empty [] k d = refl
list_of-drop_empty ((key, []) ∷ entries) k d = elim (Bool-cases (key == k)) [
  | inl yes' ↦
      let absent : find_list entries k ≡ none =
        ap (find_list entries) {x = k} {y = key} (ground arith) ∙ d.0 in
      simp (yes', find_list-drop_empty-none entries k absent) refl
  | inr no' ↦ simp no' (list_of-drop_empty entries k d.1)
]
list_of-drop_empty ((key, c ∷ cs) ∷ entries) k d = elim (Bool-cases (key == k)) [
  | inl yes' ↦ simp yes' refl
  | inr no' ↦ simp no' (list_of-drop_empty entries k d.1)
]

pub drop_receiver-Distinct :
    (m : Connections) (obj : ℕ) → Distinct m → Distinct (drop_receiver obj m)
unfolding drop_receiver
drop_receiver-Distinct [] obj d = tt
drop_receiver-Distinct ((key, l) ∷ entries) obj d = (
  find_list-drop_receiver entries obj key ∙ ap (keep_others obj) d.0,
  drop_receiver-Distinct entries obj d.1,
)

pub erase_list-Distinct : (m : Connections) (s : ℕ) → Distinct m → Distinct (erase_list m s)
unfolding erase_list find_list
erase_list-Distinct [] s d = tt
erase_list-Distinct ((key, l) ∷ entries) s d = elim (Bool-cases (key == s)) [
  | inl yes' ↦ simp yes' d.1
  | inr no' ↦ simp no' (
    find_list-erase_list entries s key d.1 ∙ ground (arith, d.0),
    erase_list-Distinct entries s d.1,
  )
]

pub drop_empty-Distinct : (m : Connections) → Distinct m → Distinct (drop_empty m)
unfolding drop_empty
drop_empty-Distinct [] d = tt
drop_empty-Distinct ((key, []) ∷ entries) d = drop_empty-Distinct entries d.1
drop_empty-Distinct ((key, c ∷ cs) ∷ entries) d =
    (find_list-drop_empty-none entries key d.0, drop_empty-Distinct entries d.1)

find_list-set_list-none :
    (m : Connections) (s k : ℕ) (list : List Connection)
    → find_list m k ≡ none
    → find_list (set_list m s list) k ≡ none
unfolding find_list set_list
find_list-set_list-none [] s k list h = refl
find_list-set_list-none ((key, l) ∷ entries) s k list h =
    let rest : find_list entries k ≡ none = ground arith in
    let apart : key == k ≡ false = ground arith in
    ground (arith, apart, find_list-set_list-none entries s k list rest)

pub set_list-Distinct :
    (m : Connections) (s : ℕ) (list : List Connection) → Distinct m → Distinct (set_list m s list)
unfolding set_list find_list
set_list-Distinct [] s list d = tt
set_list-Distinct ((key, l) ∷ entries) s list d = elim (Bool-cases (key == s)) [
  | inl yes' ↦ simp yes' d
  | inr no' ↦
      simp no'
        (find_list-set_list-none entries s key list d.0, set_list-Distinct entries s list d.1)
]

pub append-Distinct :
    (m : Connections) (s : ℕ) (list : List Connection)
    → Distinct m
    → find_list m s ≡ none
    → Distinct (m ++ ((s, list) ∷ []))
unfolding find_list
append-Distinct [] s list d h = (refl, tt)
append-Distinct ((key, l) ∷ entries) s list d h =
    let rest : find_list entries s ≡ none = ground arith in
    let apart : s == key ≡ false = ground arith in
    (
      find_list-append entries s key list ∙ ground (arith, d.0, apart),
      append-Distinct entries s list d.1 rest,
    )
