-- ===== src/ConnectionManager/Wired.antt =====
-- Which connections a sender's list has after any sequence of calls.
use code_knife.Prelude.{
  ℕ, ◌≡◌, ◌==◌, if◌then◌else◌, refl, sym, ◌∙◌, arith, Bool, true, false, not, ◌&&◌, Bool-cases, inl,
  inr, Option, none, some, List, [], ◌∷◌, ◌++◌, filter, any_of, any_of-append, any_of-filter, subst,
}
use code_knife.MetaObject.{Name, MetaObject, find_signal, find_method}
use code_knife.ConnectionManager.{
  ConnectionType, Connection, same_connection, Connections, connect, disconnect, disconnect_all,
  matches, find_list,
}
use code_knife.ConnectionManager.Entries.{list_of}
use code_knife.ConnectionManager.Lookup.{
  list_of-add, list_of-add_again, list_of-disconnect, list_of-disconnect_all,
}
use code_knife.ConnectionManager.Valid.{
  new_connection, already, connect-cases, Reachable, start, connected, disconnected, left,
  Reachable-Distinct,
}

abbrev is_there : {A : Type 0} → Option A → Bool
is_there none = false
is_there (some a) = true

-- No connection of the list is the same as a later one.
abbrev pub no_repeats : List Connection → Bool
no_repeats [] = true
no_repeats (c ∷ cs) = not (any_of (λ e. same_connection c e) cs) && no_repeats cs

module _ {W V : Type 0} (meta_object : ℕ → MetaObject W V) where
  -- A connection of the sender k, between objects that are not null, of a signal and a slot of
  -- their classes.
  abbrev pub is_wired : ℕ → Connection → Bool
  is_wired k c =
      c.sender == k
      && (not (c.sender == 0)
          && (not (c.receiver == 0)
              && (is_there (find_signal (meta_object c.sender) c.signal)
                  && is_there (find_method (meta_object c.receiver) c.slot))))

  abbrev pub unwired : ℕ → List Connection → Bool
  unwired k cs = any_of (λ c. not (is_wired k c)) cs

  no_repeats-filter :
      (keep : Connection → Bool) (cs : List Connection)
      → no_repeats cs ≡ true
      → no_repeats (filter keep cs) ≡ true
  no_repeats-filter keep [] h = refl
  no_repeats-filter keep (c ∷ cs) h =
      let rest = no_repeats-filter keep cs (ground (arith, h)) in
      let fresh = any_of-filter (λ e. same_connection c e) keep cs (ground (arith, h)) in
      elim (Bool-cases (keep c)) [ inl yes' ↦ simp (yes', fresh) rest | inr no' ↦ simp no' rest ]

  no_repeats-append :
      (cs : List Connection) (conn : Connection)
      → no_repeats cs ≡ true
      → any_of (λ e. same_connection e conn) cs ≡ false
      → no_repeats (cs ++ (conn ∷ [])) ≡ true
  no_repeats-append [] conn h new = refl
  no_repeats-append (c ∷ cs) conn h new =
      let both = any_of-append (λ e. same_connection c e) cs (conn ∷ []) in
      let rest = no_repeats-append cs conn (ground (arith, h)) (ground (arith, new)) in
      ground (arith, both, h, new, rest)

  -- What is claimed of one list.
  abbrev Good : ℕ → List Connection → Type 0
  Good k cs = (unwired k cs ≡ false) × (no_repeats cs ≡ true)

  Good-filter :
      (k : ℕ) (keep : Connection → Bool) (cs : List Connection)
      → Good k cs
      → Good k (filter keep cs)
  Good-filter k keep cs g =
      (any_of-filter (λ c. not (is_wired k c)) keep cs g.0, no_repeats-filter keep cs g.1)

  Good-append :
      (k : ℕ) (conn : Connection) (cs : List Connection)
      → is_wired k conn ≡ true
      → any_of (λ e. same_connection e conn) cs ≡ false
      → Good k cs
      → Good k (cs ++ (conn ∷ []))
  Good-append k conn cs w new g = (
    any_of-append (λ c. not (is_wired k c)) cs (conn ∷ []) ∙ ground (arith, g.0, w),
    no_repeats-append cs conn g.1 new,
  )

  connect-Good :
      (m : Connections) (sender : ℕ) (signal : Name) (receiver : ℕ) (slot : Name)
      (kind : ConnectionType)
      → ((k : ℕ) → Good k (list_of m k))
      → (k : ℕ)
      → Good k (list_of (connect meta_object sender (some signal) receiver (some slot) kind m).1 k)
  connect-Good m sender signal receiver slot kind g k =
      let conn = new_connection meta_object sender signal receiver slot kind in
      elim (connect-cases meta_object m sender signal receiver slot kind) [
        | inl refused ↦ simp refused (g k)
        | inr (ls, lr, (s, hs), (f, hf), e) ↦ elim (Bool-cases (already meta_object m conn)) [
          | inl old ↦ simp (e, list_of-add_again m conn old) (g k)
          | inr new ↦ elim (Bool-cases (sender == k)) [
            | inl here ↦
                let is_k : sender ≡ k = ground (arith, here) in
                let fits : is_wired k conn ≡ true =
                  subst (λ (n : ℕ). is_wired n conn ≡ true) is_k (ground (arith, ls, lr, hs, hf)) in
                let fresh : any_of (λ e. same_connection e conn) (list_of m k) ≡ false =
                  subst (λ (n : ℕ). any_of (λ e. same_connection e conn) (list_of m n) ≡ false) is_k
                    new in
                simp (e, (list_of-add m conn k new).1, here)
                  (Good-append k conn (list_of m k) fits fresh (g k))
            | inr elsewhere ↦ simp (e, (list_of-add m conn k new).1, elsewhere) (g k)
          ]
        ]
      ]

  disconnect-Good :
      (m : Connections) (sender : ℕ) (signal : Option Name) (receiver : ℕ) (slot : Option Name)
      → Reachable meta_object m
      → ((k : ℕ) → Good k (list_of m k))
      → (k : ℕ) → Good k (list_of (disconnect sender signal receiver slot m).1 k)
  unfolding disconnect
  disconnect-Good m sender signal receiver slot h g k = elim (Bool-cases (sender == 0)) [
    | inl null ↦ simp null (g k)
    | inr live ↦
        let lists =
          list_of-disconnect m sender signal receiver slot k (ground (arith, live))
            (Reachable-Distinct meta_object m h) in
        subst (Good k) (sym lists) (kept (λ c. not (matches signal receiver slot c)) (sender == k))
  ]
    where
      kept :
          (keep : Connection → Bool) (b : Bool)
          → Good k (if b then filter keep (list_of m k) else list_of m k)
      kept keep true = Good-filter k keep (list_of m k) (g k)
      kept keep false = g k

  disconnect_all-Good :
      (m : Connections) (obj : ℕ)
      → Reachable meta_object m
      → ((k : ℕ) → Good k (list_of m k))
      → (k : ℕ) → Good k (list_of (disconnect_all obj m) k)
  unfolding disconnect_all
  disconnect_all-Good m obj h g k = elim (Bool-cases (obj == 0)) [
    | inl null ↦ simp null (g k)
    | inr live ↦
        let lists =
          list_of-disconnect_all m obj k (ground (arith, live))
            (Reachable-Distinct meta_object m h) in
        subst (Good k) (sym lists) (kept (obj == k))
  ]
    where
      kept :
          (b : Bool)
          → Good k (if b then [] else filter (λ c. not (c.receiver == obj)) (list_of m k))
      kept true = (refl, refl)
      kept false = Good-filter k (λ c. not (c.receiver == obj)) (list_of m k) (g k)

  -- After any sequence of connect, disconnect and disconnectAll calls from no connections, each
  -- connection in a sender's list has that sender, leads to an object that is not null, and is for a
  -- signal that the sender's class has and a slot that the receiver's class has; no sender is null;
  -- and no connection is in a list twice.
  pub Reachable-is_wired :
      (m : Connections)
      → Reachable meta_object m
      → (k : ℕ)
      → (any_of (λ c. not (is_wired k c)) (list_of m k) ≡ false) × (no_repeats (list_of m k) ≡ true)
  unfolding connect find_list
  Reachable-is_wired m start k = (refl, refl)
  Reachable-is_wired m (connected n sender none receiver slot kind h) k = Reachable-is_wired n h k
  Reachable-is_wired m (connected n sender (some signal) receiver none kind h) k =
      Reachable-is_wired n h k
  Reachable-is_wired m (connected n sender (some signal) receiver (some slot) kind h) k =
      connect-Good n sender signal receiver slot kind (Reachable-is_wired n h) k
  Reachable-is_wired m (disconnected n sender signal receiver slot h) k =
      disconnect-Good n sender signal receiver slot h (Reachable-is_wired n h) k
  Reachable-is_wired m (left n obj h) k = disconnect_all-Good n obj h (Reachable-is_wired n h) k
