-- ===== src/ConnectionManager/Emit.antt =====
-- Which objects the calls of an emission reach.
use code_knife.Prelude.{
  ℕ, ◌≡◌, ◌==◌, ◌<◌, if◌then◌else◌, refl, ap, ◌∙◌, arith, Bool, true, false, not, ◌&&◌, Bool-cases,
  Option-cases, inl, inr, Option, none, some, List, [], ◌∷◌, same, filter, any_of,
  any_of-filter_none, any_of-filter,
}
use code_knife.MetaObject.{Name, MetaMethod, MetaObject, find_method}
use code_knife.ConnectionManager.{
  ConnectionType, Connection, Connections, find_list, disconnect_all, find_connections, Call,
  ignored, invoked, posted, awaited, effective, metacall, call_all, emit_signal,
}
use code_knife.ConnectionManager.Entries.{list_of}
use code_knife.ConnectionManager.Lookup.{list_of-disconnect_all}
use code_knife.ConnectionManager.Valid.{Reachable, Reachable-Distinct}

-- Whether a call runs a method of an object or posts an event to it.
abbrev pub reaches : {W V : Type 0} → ℕ → Call W V → Bool
reaches obj ignored = false
reaches obj (invoked object method args) = object == obj
reaches obj (posted object slot args) = object == obj
reaches obj (awaited object slot args) = object == obj

module _ {W V : Type 0} (meta_object : ℕ → MetaObject W V) (thread : ℕ → ℕ) where
  metacall-reaches :
      (obj object : ℕ) (slot : Name) (args : List (Option V)) (kind : ConnectionType) (sender : ℕ)
      → object == obj ≡ false
      → reaches obj (metacall meta_object thread object slot args kind sender) ≡ false
  unfolding metacall
  metacall-reaches obj object slot args kind sender h = elim (Bool-cases (sender == 0)) [
    | inl null ↦ simp null refl
    | inr live ↦ elim (Option-cases (find_method (meta_object object) slot)) [
      | inl absent ↦ simp (live, absent) refl
      | inr (f, there) ↦
          simp (live, there)
            (dispatched f (effective kind (thread sender == thread object))
              (thread sender == thread object))
    ]
  ]
    where
      dispatched :
          (f : MetaMethod W V) (k : ConnectionType) (same_thread : Bool)
          → reaches {W = W} {V = V} obj (elim k [
            | ConnectionType.direct_connection ↦ invoked object f args
            | ConnectionType.queued_connection ↦ posted object slot args
            | ConnectionType.blocking_connection ↦
                if same_thread then invoked object f args else awaited object slot args
            | ConnectionType.auto_connection ↦ ignored
          ])
            ≡ false
      dispatched f ConnectionType.direct_connection b = h
      dispatched f ConnectionType.queued_connection b = h
      dispatched f ConnectionType.blocking_connection true = h
      dispatched f ConnectionType.blocking_connection false = h
      dispatched f ConnectionType.auto_connection b = refl

  find_connections_lem :
      (sender : ℕ) (signal : Name) (m : Connections)
      → find_connections sender signal m
        ≡ filter (λ c. same c.signal signal && c.enabled) (list_of m sender)
  unfolding find_connections
  find_connections_lem sender signal m = elim (Option-cases (find_list m sender)) [
    | inl absent ↦ ground (arith, absent)
    | inr (list, there) ↦ ground (arith, there)
  ]

  call_all-reaches :
      (obj : ℕ) (args : List (Option V)) (cs : List Connection)
      → any_of (λ c. c.receiver == obj) cs ≡ false
      → any_of (reaches obj) (call_all meta_object thread args cs) ≡ false
  unfolding call_all
  call_all-reaches obj args [] h = refl
  call_all-reaches obj args (c ∷ cs) h =
      let first : c.receiver == obj ≡ false = ground arith in
      let rest : any_of (λ d. d.receiver == obj) cs ≡ false = ground arith in
      let called = metacall-reaches obj c.receiver c.slot args c.kind c.sender first in
      elim (Bool-cases c.enabled) [
        | inl yes' ↦ simp (yes', called) (call_all-reaches obj args cs rest)
        | inr no' ↦ simp no' (call_all-reaches obj args cs rest)
      ]

  -- After `disconnectAll` of an object that is not null, no signal of any sender invokes a
  -- method of the object or posts an event to it, whatever sequence of connect, disconnect and
  -- disconnectAll calls led to the connections before.
  pub emit_signal-disconnect_all :
      (m : Connections) (obj sender : ℕ) (signal : Option Name) (args : List (Option V))
      → 0 < obj
      → Reachable meta_object m
      → any_of
          (reaches obj)
          (emit_signal meta_object thread sender signal args (disconnect_all obj m))
        ≡ false
  unfolding emit_signal
  emit_signal-disconnect_all m obj sender none args live h = refl
  emit_signal-disconnect_all m obj sender (some signal) args live h =
      let emptied =
        ap (any_of (λ c. c.receiver == obj))
          (list_of-disconnect_all m obj sender live (Reachable-Distinct meta_object m h))
        ∙ none_leads (obj == sender) (list_of m sender) in
      elim (Bool-cases (sender == 0)) [
        | inl null ↦ simp null refl
        | inr some_sender ↦
            simp (some_sender, find_connections_lem sender signal (disconnect_all obj m))
              (call_all-reaches obj args
                (filter (λ c. same c.signal signal && c.enabled)
                  (list_of (disconnect_all obj m) sender))
                (any_of-filter (λ c. c.receiver == obj) (λ c. same c.signal signal && c.enabled)
                  (list_of (disconnect_all obj m) sender) emptied))
      ]
    where
      none_leads :
          (b : Bool) (cs : List Connection)
          → any_of
              (λ c. c.receiver == obj)
              (if b then [] else filter (λ c. not (c.receiver == obj)) cs)
            ≡ false
      none_leads true cs = refl
      none_leads false cs =
          any_of-filter_none (λ c. c.receiver == obj) (λ c. not (c.receiver == obj)) cs
            (λ c k. ground arith)
