-- ===== src/ConnectionManager/Valid.antt =====
-- Connecting, and what holds of the connections that any sequence of calls leaves.
use code_knife.Prelude.{
  ℕ, ◌≡◌, ◌==◌, ◌<◌, if◌then◌else◌, refl, sym, ap, ◌∙◌, arith, Bool, true, false, not, ◌&&◌, ◌||◌,
  Bool-cases, Option-cases, inl, inr, ◌⊎◌, Option, none, some, [], ◌∷◌, ◌++◌, filter, any_of,
}
use code_knife.MetaObject.{Name, MetaMethod, MetaSignal, MetaObject, find_signal, find_method}
use code_knife.ConnectionManager.{
  ConnectionType, Connection, same_connection, Connections, find_list, erase_list, is_empty_list,
  add, connect, disconnect, drop_receiver, disconnect_all, matches,
}
use code_knife.ConnectionManager.Entries.{
  list_of, Distinct, erase_list-Distinct, set_list-Distinct, drop_receiver-Distinct,
  drop_empty-Distinct,
}
use code_knife.ConnectionManager.Lookup.{list_of-add, list_of-add_again, add-Distinct}

module _ {W V : Type 0} (meta_object : ℕ → MetaObject W V) where
  -- The connection that `connect` builds.
  abbrev pub new_connection : ℕ → Name → ℕ → Name → ConnectionType → Connection
  new_connection sender signal receiver slot kind = record {
    sender = sender;
    signal = signal;
    receiver = receiver;
    slot = slot;
    kind = kind;
    enabled = true;
  }

  abbrev pub already : Connections → Connection → Bool
  already m conn = any_of (λ e. same_connection e conn) (list_of m conn.sender)

  -- `connect` between objects that are not null and have the signal and the slot appends its
  -- connection to the sender's list and reports true, or, where the same connection is there
  -- already, reports false; no other list changes.
  pub list_of-connect :
      (m : Connections) (sender : ℕ) (signal : Name) (receiver : ℕ) (slot : Name)
      (kind : ConnectionType) (s : MetaSignal W V) (f : MetaMethod W V) (k : ℕ)
      → 0 < sender
      → 0 < receiver
      → find_signal (meta_object sender) signal ≡ some s
      → find_method (meta_object receiver) slot ≡ some f
      → let conn = new_connection sender signal receiver slot kind in
        let result = connect meta_object sender (some signal) receiver (some slot) kind m in
        (result.0 ≡ not (already m conn))
        × (list_of result.1 k ≡ (
            if not (already m conn) && sender == k
            then list_of m k ++ (conn ∷ [])
            else list_of m k))
  unfolding connect
  list_of-connect m sender signal receiver slot kind s f k ls lr hs hf =
      let conn = new_connection sender signal receiver slot kind in
      let no_sender : sender == 0 ≡ false = ground arith in
      let no_receiver : receiver == 0 ≡ false = ground arith in
      elim (Bool-cases (already m conn)) [
        | inl old ↦
            simp (no_sender, no_receiver, hs, hf, list_of-add_again m conn old, old) (refl, refl)
        | inr new ↦ simp (no_sender, no_receiver, hs, hf, new) (list_of-add m conn k new)
      ]

  -- Either a check fails, or the connection is handed to `add`.
  pub connect-cases :
      (m : Connections) (sender : ℕ) (signal : Name) (receiver : ℕ) (slot : Name)
      (kind : ConnectionType)
      → let result = connect meta_object sender (some signal) receiver (some slot) kind m in
        (result ≡ (false, m))
        ⊎ ((0 < sender)
            × (0 < receiver)
            × ((s : MetaSignal W V) × (find_signal (meta_object sender) signal ≡ some s))
            × ((f : MetaMethod W V) × (find_method (meta_object receiver) slot ≡ some f))
            × (result ≡ add m (new_connection sender signal receiver slot kind)))
  unfolding connect
  connect-cases m sender signal receiver slot kind =
      elim (Bool-cases (sender == 0 || receiver == 0)) [
        | inl null ↦ inl (simp null refl)
        | inr live ↦ elim (Option-cases (find_signal (meta_object sender) signal)) [
          | inl no_signal ↦ inl (simp (live, no_signal) refl)
          | inr (s, hs) ↦ elim (Option-cases (find_method (meta_object receiver) slot)) [
            | inl no_slot ↦ inl (simp (live, hs, no_slot) refl)
            | inr (f, hf) ↦
                inr (ground arith, ground arith, (s, hs), (f, hf), simp (live, hs, hf) refl)
          ]
        ]
      ]

  -- `connect` reports true only between objects that are not null, for a signal that the
  -- sender's class has and a slot that the receiver's class has.
  pub connect_checked :
      (m : Connections) (sender : ℕ) (signal : Name) (receiver : ℕ) (slot : Name)
      (kind : ConnectionType)
      → (connect meta_object sender (some signal) receiver (some slot) kind m).0 ≡ true
      → (0 < sender)
        × (0 < receiver)
        × ((s : MetaSignal W V) × (find_signal (meta_object sender) signal ≡ some s))
        × ((f : MetaMethod W V) × (find_method (meta_object receiver) slot ≡ some f))
  connect_checked m sender signal receiver slot kind h =
      elim (connect-cases m sender signal receiver slot kind) [
        | inl refused ↦
            let impossible : true ≡ false = sym h ∙ ap (λ r. r.0) refused in ground arith
        | inr (ls, lr, s, f, e) ↦ (ls, lr, s, f)
      ]

  -- The connections that calls can leave.
  pub data Reachable : Connections → Type 0 where
    start : Reachable []
    connected :
        (m : Connections) (sender : ℕ) (signal : Option Name) (receiver : ℕ) (slot : Option Name)
        (kind : ConnectionType)
        → Reachable m
        → Reachable (connect meta_object sender signal receiver slot kind m).1
    disconnected :
        (m : Connections) (sender : ℕ) (signal : Option Name) (receiver : ℕ) (slot : Option Name)
        → Reachable m
        → Reachable (disconnect sender signal receiver slot m).1
    left : (m : Connections) (obj : ℕ) → Reachable m → Reachable (disconnect_all obj m)

  connect-Distinct :
      (m : Connections) (sender : ℕ) (signal : Option Name) (receiver : ℕ) (slot : Option Name)
      (kind : ConnectionType)
      → Distinct m
      → Distinct (connect meta_object sender signal receiver slot kind m).1
  unfolding connect
  connect-Distinct m sender none receiver slot kind d = d
  connect-Distinct m sender (some signal) receiver none kind d = d
  connect-Distinct m sender (some signal) receiver (some slot) kind d =
      elim (connect-cases m sender signal receiver slot kind) [
        | inl refused ↦ simp refused d
        | inr (ls, lr, s, f, e) ↦
            simp e (add-Distinct m (new_connection sender signal receiver slot kind) d)
      ]

  disconnect-Distinct :
      (m : Connections) (sender : ℕ) (signal : Option Name) (receiver : ℕ) (slot : Option Name)
      → Distinct m
      → Distinct (disconnect sender signal receiver slot m).1
  unfolding disconnect
  disconnect-Distinct m sender signal receiver slot d = elim (Bool-cases (sender == 0)) [
    | inl null ↦ simp null d
    | inr live ↦ elim (Option-cases (find_list m sender)) [
      | inl absent ↦ simp (live, absent) d
      | inr (list, there) ↦
          let kept = filter (λ c. not (matches signal receiver slot c)) list in
          elim (Bool-cases (is_empty_list kept)) [
            | inl gone ↦ simp (live, there, gone) (erase_list-Distinct m sender d)
            | inr remains ↦ simp (live, there, remains) (set_list-Distinct m sender kept d)
          ]
    ]
  ]

  disconnect_all-Distinct :
      (m : Connections) (obj : ℕ) → Distinct m → Distinct (disconnect_all obj m)
  unfolding disconnect_all
  disconnect_all-Distinct m obj d = elim (Bool-cases (obj == 0)) [
    | inl null ↦ simp null d
    | inr live ↦ simp live (
        drop_empty-Distinct (drop_receiver obj (erase_list m obj))
          (drop_receiver-Distinct (erase_list m obj) obj (erase_list-Distinct m obj d)))
  ]

  -- Whatever sequence of connect, disconnect and disconnectAll calls was made, each sender has
  -- at most one list.
  pub Reachable-Distinct : (m : Connections) → Reachable m → Distinct m
  Reachable-Distinct m start = tt
  Reachable-Distinct m (connected n s sig r sl kind h) =
      connect-Distinct n s sig r sl kind (Reachable-Distinct n h)
  Reachable-Distinct m (disconnected n s sig r sl h) =
      disconnect-Distinct n s sig r sl (Reachable-Distinct n h)
  Reachable-Distinct m (left n obj h) = disconnect_all-Distinct n obj (Reachable-Distinct n h)
