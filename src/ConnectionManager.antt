-- ===== src/ConnectionManager.antt =====
-- include/cobject/connection_manager.hpp and src/cobject/connection_manager.cpp, and the dispatch of
-- CObject::metacall in src/cobject/cobject.cpp.
-- A pointer to an object is its address, 0 for null; a `const char*` is an optional name. The
-- unordered map from senders is an association list: which of its entries comes first is not used.
-- The MetaObject of an object, a virtual function, is the parameter `meta_object`.
pub mod Entries
pub mod Lookup
pub mod Valid
pub mod Emit
pub mod Wired
mod Tests
use code_knife.Prelude.{
  ℕ, ◌≡◌, ◌==◌, ltb, if◌then◌else◌, Bool, true, false, not, ◌&&◌, ◌||◌, Option, none, some, List,
  [], ◌∷◌, ◌++◌, map, length, same, filter, any_of,
}
use code_knife.MetaObject.{Name, MetaMethod, MetaSignal, MetaObject, find_signal, find_method}

pub data ConnectionType : Type 0 where
  auto_connection direct_connection queued_connection blocking_connection : ConnectionType

pub record Connection : Type 0 where
  pub sender : ℕ
  pub signal : Name
  pub receiver : ℕ
  pub slot : Name
  pub kind : ConnectionType
  pub enabled : Bool

-- Connection::operator==
pub same_connection : Connection → Connection → Bool
same_connection a b =
    a.sender == b.sender
    && (same a.signal b.signal && (a.receiver == b.receiver && same a.slot b.slot))

-- connections_
abbrev pub Connections : Type 0
Connections = List (ℕ × List Connection)

-- connections_.find
pub find_list : Connections → ℕ → Option (List Connection)
find_list [] sender = none
find_list ((key, list) ∷ entries) sender =
    let rest = find_list entries sender in if key == sender then some list else rest

-- The list of a key that is there, replaced.
pub set_list : Connections → ℕ → List Connection → Connections
set_list [] sender list = []
set_list ((key, old) ∷ entries) sender list =
    let rest = set_list entries sender list in
    if key == sender then (key, list) ∷ entries else (key, old) ∷ rest

-- connections_.erase
pub erase_list : Connections → ℕ → Connections
erase_list [] sender = []
erase_list ((key, list) ∷ entries) sender =
    let rest = erase_list entries sender in if key == sender then entries else (key, list) ∷ rest

abbrev pub is_empty_list : List Connection → Bool
is_empty_list [] = true
is_empty_list (c ∷ cs) = false

-- The part of `connect` behind its checks.
pub add : Connections → Connection → Bool × Connections
add m conn = elim (find_list m conn.sender) [
  | none ↦ (true, m ++ ((conn.sender, conn ∷ []) ∷ []))
  | some list ↦
      if any_of (λ existing. same_connection existing conn) list
      then (false, m)
      else (true, set_list m conn.sender (list ++ (conn ∷ [])))
]

module _ {W V : Type 0} (meta_object : ℕ → MetaObject W V) where
  pub connect :
      ℕ → Option Name → ℕ → Option Name → ConnectionType → Connections → Bool × Connections
  connect sender none receiver slot kind m = (false, m)
  connect sender (some signal) receiver none kind m = (false, m)
  connect sender (some signal) receiver (some slot) kind m =
      if sender == 0 || receiver == 0
      then (false, m)
      else elim (find_signal (meta_object sender) signal) [
        | none ↦ (false, m)
        | some found ↦ elim (find_method (meta_object receiver) slot) [
          | none ↦ (false, m)
          | some method ↦ add m (record {
            sender = sender;
            signal = signal;
            receiver = receiver;
            slot = slot;
            kind = kind;
            enabled = true;
          })
        ]
      ]

-- `!pattern || name == pattern`, for names and for objects.
abbrev pub name_matches : Option Name → Name → Bool
name_matches none name = true
name_matches (some pattern') name = same name pattern'

abbrev pub object_matches : ℕ → ℕ → Bool
object_matches wanted object = if wanted == 0 then true else object == wanted

pub matches : Option Name → ℕ → Option Name → Connection → Bool
matches signal receiver slot conn =
    name_matches signal conn.signal
    && (object_matches receiver conn.receiver && name_matches slot conn.slot)

pub disconnect : ℕ → Option Name → ℕ → Option Name → Connections → Bool × Connections
disconnect sender signal receiver slot m =
    if sender == 0 then (false, m) else elim (find_list m sender) [
      | none ↦ (false, m)
      | some list ↦
          let left = filter (λ c. not (matches signal receiver slot c)) list in
          let removed = ltb (length left) (length list) in
          if is_empty_list left
          then (removed, erase_list m sender)
          else (removed, set_list m sender left)
    ]

-- The loops of `disconnectAll`: the receiver's connections out of each list, then the empty lists
-- out of the map.
pub drop_receiver : ℕ → Connections → Connections
drop_receiver obj [] = []
drop_receiver obj ((key, list) ∷ entries) =
    (key, filter (λ c. not (c.receiver == obj)) list) ∷ drop_receiver obj entries

pub drop_empty : Connections → Connections
drop_empty [] = []
drop_empty ((key, list) ∷ entries) =
    let rest = drop_empty entries in if is_empty_list list then rest else (key, list) ∷ rest

pub disconnect_all : ℕ → Connections → Connections
disconnect_all obj m = if obj == 0 then m else drop_empty (drop_receiver obj (erase_list m obj))

pub find_connections : ℕ → Name → Connections → List Connection
find_connections sender signal m = elim (find_list m sender) [
  | none ↦ []
  | some list ↦ filter (λ c. same c.signal signal && c.enabled) list
]

-- What `metacall` does: nothing, a call of the method in the sender's thread, a posted event, or a
-- posted event whose handling it waits for.
pub data Call (W V : Type 0) : Type 0 where
  ignored : Call W V
  invoked : ℕ → MetaMethod W V → List (Option V) → Call W V
  posted : ℕ → Name → List (Option V) → Call W V
  awaited : ℕ → Name → List (Option V) → Call W V

-- The type that `metacall` acts on.
pub effective : ConnectionType → Bool → ConnectionType
effective ConnectionType.auto_connection same_thread =
    if same_thread then ConnectionType.direct_connection else ConnectionType.queued_connection
effective ConnectionType.direct_connection same_thread = ConnectionType.direct_connection
effective ConnectionType.queued_connection same_thread = ConnectionType.queued_connection
effective ConnectionType.blocking_connection same_thread = ConnectionType.blocking_connection

module _ {W V : Type 0} (meta_object : ℕ → MetaObject W V) (thread : ℕ → ℕ) where
  pub metacall : ℕ → Name → List (Option V) → ConnectionType → ℕ → Call W V
  metacall object slot args kind sender =
      let same_thread = thread sender == thread object in
      if sender == 0 then ignored else elim (find_method (meta_object object) slot) [
        | none ↦ ignored
        | some method ↦ elim (effective kind same_thread) [
          | ConnectionType.direct_connection ↦ invoked object method args
          | ConnectionType.queued_connection ↦ posted object slot args
          | ConnectionType.blocking_connection ↦
              if same_thread then invoked object method args else awaited object slot args
          | ConnectionType.auto_connection ↦ ignored
        ]
      ]

  -- `emitSignal`: the calls it makes, in order.
  pub call_all : List (Option V) → List Connection → List (Call W V)
  call_all args [] = []
  call_all args (c ∷ cs) =
      let rest = call_all args cs in
      if c.enabled then metacall c.receiver c.slot args c.kind c.sender ∷ rest else rest

  pub emit_signal : ℕ → Option Name → List (Option V) → Connections → List (Call W V)
  emit_signal sender none args m = []
  emit_signal sender (some signal) args m =
      if sender == 0 then [] else call_all args (find_connections sender signal m)
