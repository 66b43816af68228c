-- ===== src/ConnectionManager/Lookup.antt =====
-- What a sender's list is after each operation on the connections.
use code_knife.Prelude.{
  ℕ, ◌≡◌, ◌==◌, ◌<◌, if◌then◌else◌, refl, sym, ap, ◌∙◌, arith, Bool, true, false, not, Bool-cases,
  Option-cases, inl, inr, Option, none, some, List, [], ◌∷◌, ◌++◌, filter, or_else, any_of,
}
use code_knife.MetaObject.{Name}
use code_knife.ConnectionManager.{
  Connection, same_connection, Connections, find_list, set_list, erase_list, is_empty_list, add,
  matches, disconnect, drop_receiver, disconnect_all,
}
use code_knife.ConnectionManager.Entries.{
  or_empty, list_of, Distinct, find_list-set_list, find_list-append, find_list-erase_list,
  keep_others, find_list-drop_receiver, list_of-drop_empty, drop_receiver-Distinct,
  erase_list-Distinct, set_list-Distinct, append-Distinct,
}

-- After `disconnectAll` of an object it has no connections as a sender, and each other sender keeps
-- exactly those that do not lead to the object, in their order.
pub list_of-disconnect_all :
    (m : Connections) (obj k : ℕ)
    → 0 < obj
    → Distinct m
    → list_of (disconnect_all obj m) k
      ≡ (if obj == k then [] else filter (λ c. not (c.receiver == obj)) (list_of m k))
unfolding disconnect_all
list_of-disconnect_all m obj k live d =
    let some_object : obj == 0 ≡ false = ground arith in
    simp some_object (
      list_of-drop_empty (drop_receiver obj (erase_list m obj)) k
        (drop_receiver-Distinct (erase_list m obj) obj (erase_list-Distinct m obj d))
      ∙ ap or_empty (
          find_list-drop_receiver (erase_list m obj) obj k
          ∙ ap (keep_others obj) (find_list-erase_list m obj k d))
      ∙ kept (find_list m k) (obj == k))
  where
    kept :
        (o : Option (List Connection)) (b : Bool)
        → or_empty (keep_others obj (if b then none else o))
          ≡ (if b then [] else filter (λ c. not (c.receiver == obj)) (or_empty o))
    kept none true = refl
    kept none false = refl
    kept (some l) true = refl
    kept (some l) false = refl

add_absent :
    (m : Connections) (conn : Connection)
    → find_list m conn.sender ≡ none
    → add m conn ≡ (true, m ++ ((conn.sender, conn ∷ []) ∷ []))
unfolding add
add_absent m conn absent = ground (arith, absent)

add_there :
    (m : Connections) (conn : Connection) (list : List Connection)
    → find_list m conn.sender ≡ some list
    → add m conn ≡ (
        if any_of (λ e. same_connection e conn) list
        then (false, m)
        else (true, set_list m conn.sender (list ++ (conn ∷ []))))
unfolding add
add_there m conn list there = ground (arith, there)

-- A new connection in its sender's list.
pub list_of-add :
    (m : Connections) (conn : Connection) (k : ℕ)
    → any_of (λ e. same_connection e conn) (list_of m conn.sender) ≡ false
    → ((add m conn).0 ≡ true)
      × (list_of (add m conn).1 k
          ≡ (if conn.sender == k then list_of m k ++ (conn ∷ []) else list_of m k))
list_of-add m conn k new = elim (Option-cases (find_list m conn.sender)) [
  | inl absent ↦
      let appended = find_list-append m conn.sender k (conn ∷ []) in
      let nowhere : conn.sender == k ≡ true → find_list m k ≡ none =
        λ h. ap (find_list m) {x = k} {y = conn.sender} (ground arith) ∙ absent in
      simp (add_absent m conn absent)
        (refl, ap or_empty appended ∙ added (find_list m k) (conn.sender == k) nowhere)
  | inr (list, there) ↦
      let replaced = find_list-set_list m conn.sender k list (list ++ (conn ∷ [])) there in
      let same_list : conn.sender == k ≡ true → find_list m k ≡ some list =
        λ h. ap (find_list m) {x = k} {y = conn.sender} (ground arith) ∙ there in
      let fresh : any_of (λ e. same_connection e conn) list ≡ false =
        ap (λ o. any_of (λ e. same_connection e conn) (or_empty o)) (sym there) ∙ new in
      simp (add_there m conn list there, fresh)
        (refl, ap or_empty replaced ∙ extended (find_list m k) (conn.sender == k) list same_list)
]
  where
    added :
        (o : Option (List Connection)) (b : Bool)
        → (b ≡ true → o ≡ none)
        → or_empty (or_else o (if b then some (conn ∷ []) else none))
          ≡ (if b then or_empty o ++ (conn ∷ []) else or_empty o)
    added none true h = refl
    added none false h = refl
    added (some l) false h = refl
    added (some l) true h = let impossible : some l ≡ none = h refl in ground arith

    extended :
        (o : Option (List Connection)) (b : Bool) (list : List Connection)
        → (b ≡ true → o ≡ some list)
        → or_empty (if b then some (list ++ (conn ∷ [])) else o)
          ≡ (if b then or_empty o ++ (conn ∷ []) else or_empty o)
    extended o true list h = ap (λ p. or_empty p ++ (conn ∷ [])) (sym (h refl))
    extended o false list h = refl

pub list_of-add_again :
    (m : Connections) (conn : Connection)
    → any_of (λ e. same_connection e conn) (list_of m conn.sender) ≡ true
    → add m conn ≡ (false, m)
list_of-add_again m conn again = elim (Option-cases (find_list m conn.sender)) [
  | inl absent ↦
      let nothing : false ≡ true =
        ap (λ o. any_of (λ e. same_connection e conn) (or_empty o)) (sym absent) ∙ again in
      ground (arith, nothing)
  | inr (list, there) ↦
      let old : any_of (λ e. same_connection e conn) list ≡ true =
        ap (λ o. any_of (λ e. same_connection e conn) (or_empty o)) (sym there) ∙ again in
      simp (add_there m conn list there, old) refl
]

pub add-Distinct : (m : Connections) (conn : Connection) → Distinct m → Distinct (add m conn).1
add-Distinct m conn d = elim (Option-cases (find_list m conn.sender)) [
  | inl absent ↦
      simp (add_absent m conn absent) (append-Distinct m conn.sender (conn ∷ []) d absent)
  | inr (list, there) ↦
      let kept = set_list-Distinct m conn.sender (list ++ (conn ∷ [])) d in
      elim (Bool-cases (any_of (λ e. same_connection e conn) list)) [
        | inl old ↦ simp (add_there m conn list there, old) d
        | inr new ↦ simp (add_there m conn list there, new) kept
      ]
]

-- Where each sender has one list and the sender is not null, `disconnect` takes the matching
-- connections, a null argument matching any, out of the sender's list, keeps the order of the
-- rest, and changes no other sender's list.
pub list_of-disconnect :
    (m : Connections) (sender : ℕ) (signal : Option Name) (receiver : ℕ) (slot : Option Name)
    (k : ℕ)
    → 0 < sender
    → Distinct m
    → list_of (disconnect sender signal receiver slot m).1 k ≡ (
        if sender == k
        then filter (λ c. not (matches signal receiver slot c)) (list_of m k)
        else list_of m k)
unfolding disconnect
list_of-disconnect m sender signal receiver slot k live d =
    elim (Option-cases (find_list m sender)) [
      | inl absent ↦
          let nothing : sender == k ≡ true → find_list m k ≡ none =
            λ h. ap (find_list m) {x = k} {y = sender} (ground arith) ∙ absent in
          simp (some_sender, absent) (unchanged (find_list m k) (sender == k) nothing)
      | inr (list, there) ↦
          let same_list : sender == k ≡ true → find_list m k ≡ some list =
            λ h. ap (find_list m) {x = k} {y = sender} (ground arith) ∙ there in
          elim (Bool-cases (is_empty_list (filter left list))) [
            | inl gone ↦
                simp (some_sender, there, gone)
                  (ap or_empty (find_list-erase_list m sender k d)
                    ∙ erased (find_list m k) (sender == k) list gone same_list)
            | inr remains ↦
                simp (some_sender, there, remains)
                  (ap or_empty (find_list-set_list m sender k list (filter left list) there)
                    ∙ filtered (find_list m k) (sender == k) list same_list)
          ]
    ]
  where
    left : Connection → Bool
    left c = not (matches signal receiver slot c)

    some_sender : sender == 0 ≡ false
    some_sender = ground arith

    unchanged :
        (o : Option (List Connection)) (b : Bool)
        → (b ≡ true → o ≡ none)
        → or_empty o ≡ (if b then filter left (or_empty o) else or_empty o)
    unchanged none true h = refl
    unchanged none false h = refl
    unchanged (some l) false h = refl
    unchanged (some l) true h = let impossible : some l ≡ none = h refl in ground arith

    no_element : (xs : List Connection) → is_empty_list xs ≡ true → xs ≡ []
    no_element [] h = refl
    no_element (x ∷ xs) h = ground arith

    erased :
        (o : Option (List Connection)) (b : Bool) (list : List Connection)
        → is_empty_list (filter left list) ≡ true
        → (b ≡ true → o ≡ some list)
        → or_empty (if b then none else o) ≡ (if b then filter left (or_empty o) else or_empty o)
    erased o true list e h =
        sym (ap (λ p. filter left (or_empty p)) (h refl) ∙ no_element (filter left list) e)
    erased o false list e h = refl

    filtered :
        (o : Option (List Connection)) (b : Bool) (list : List Connection)
        → (b ≡ true → o ≡ some list)
        → or_empty (if b then some (filter left list) else o)
          ≡ (if b then filter left (or_empty o) else or_empty o)
    filtered o true list h = ap (λ p. filter left (or_empty p)) (sym (h refl))
    filtered o false list h = refl
