-- ===== src/ConnectionManager/Tests.antt =====
-- A button connected to a label, and the theorems applied to it.
use code_knife.Prelude.{
  ℕ, ◌≡◌, ◌==◌, ◌<◌, if◌then◌else◌, refl, arith, true, false, not, ◌&&◌, none, some, [], ◌∷◌, ◌++◌,
  same, filter, any_of,
}
use code_knife.MetaObject.{Name, MetaMethod, MetaSignal, MetaObject, root, find_signal, find_method}
use code_knife.ConnectionManager.{
  ConnectionType, Connections, find_list, add, connect, matches, disconnect, disconnect_all,
  emit_signal,
}
use code_knife.ConnectionManager.Entries.{list_of}
use code_knife.ConnectionManager.Lookup.{list_of-disconnect}
use code_knife.ConnectionManager.Valid.{
  new_connection, already, list_of-connect, connect_checked, Reachable, start, connected,
  Reachable-Distinct,
}
use code_knife.ConnectionManager.Wired.{no_repeats, is_wired, Reachable-is_wired}
use code_knife.ConnectionManager.Emit.{reaches, emit_signal-disconnect_all}

abbrev clicked : Name
clicked = 99 ∷ []

abbrev show : Name
show = 115 ∷ []

abbrev signal_clicked : MetaSignal ℕ ℕ
signal_clicked = record { name = clicked; signature = clicked; invoker = none }

abbrev method_show : MetaMethod ℕ ℕ
method_show = record { name = show; signature = show; invoker = some (λ object args w. (none, w)) }

-- Every object has the one class.
abbrev widget : ℕ → MetaObject ℕ ℕ
widget object = root (record {
  address = 16;
  class_name = 119 ∷ [];
  factory = none;
  properties = [];
  methods = method_show ∷ [];
  signals = signal_clicked ∷ [];
})

has_signal : find_signal (widget 100) clicked ≡ some signal_clicked
unfolding find_signal same
has_signal = refl

has_slot : find_method (widget 200) show ≡ some method_show
unfolding find_method same
has_slot = refl

abbrev wired : Connections
wired = (connect widget 100 (some clicked) 200 (some show) ConnectionType.direct_connection []).1

abbrev wired_reachable : Reachable widget wired
wired_reachable =
    connected [] 100 (some clicked) 200 (some show) ConnectionType.direct_connection start

list_of-connect_example :
    let conn = new_connection widget 100 clicked 200 show ConnectionType.direct_connection in
    ((connect widget 100 (some clicked) 200 (some show) ConnectionType.direct_connection []).0
      ≡ not (already widget [] conn))
    × (list_of wired 100 ≡ (
        if not (already widget [] conn) && 100 == 100
        then list_of [] 100 ++ (conn ∷ [])
        else list_of [] 100))
list_of-connect_example =
    list_of-connect widget [] 100 clicked 200 show ConnectionType.direct_connection signal_clicked
      method_show 100 (omega arith) (omega arith) has_signal has_slot

made :
    (connect widget 100 (some clicked) 200 (some show) ConnectionType.direct_connection []).0 ≡ true
unfolding connect add find_list find_signal find_method same
made = refl

connect_checked_example :
    (0 < 100)
    × (0 < 200)
    × ((s : MetaSignal ℕ ℕ) × (find_signal (widget 100) clicked ≡ some s))
    × ((f : MetaMethod ℕ ℕ) × (find_method (widget 200) show ≡ some f))
connect_checked_example =
    connect_checked widget [] 100 clicked 200 show ConnectionType.direct_connection made

Reachable-is_wired_example :
    (any_of (λ c. not (is_wired widget 100 c)) (list_of wired 100) ≡ false)
    × (no_repeats (list_of wired 100) ≡ true)
Reachable-is_wired_example = Reachable-is_wired widget wired wired_reachable 100

list_of-disconnect_example : list_of (disconnect 100 none 200 none wired).1 100 ≡ (
    if 100 == 100
    then filter (λ c. not (matches none 200 none c)) (list_of wired 100)
    else list_of wired 100)
list_of-disconnect_example =
    list_of-disconnect wired 100 none 200 none 100 (omega arith)
      (Reachable-Distinct widget wired wired_reachable)

emit_signal-disconnect_all_example :
    any_of
      (reaches 200)
      (emit_signal widget (λ o. 1) 100 (some clicked) [] (disconnect_all 200 wired))
    ≡ false
emit_signal-disconnect_all_example =
    emit_signal-disconnect_all widget (λ o. 1) wired 200 100 (some clicked) [] (omega arith)
      wired_reachable
