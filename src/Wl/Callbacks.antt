-- ===== src/Wl/Callbacks.antt =====
-- The functions of wl.c that libwayland calls back: each runs the Janet function of its source or
-- listener with the collector locked. Also the marking of a source's and a listener's members.
use janetland.Prelude.{ℕ, Option, none, some, List, [], ◌∷◌, ◌++◌, String, ◌==◌, if◌then◌else◌}
use janetland.Prelude.Int.{ℤ, pos, unsigned32}
use janetland.Janet.{
  Janet, Value, abstract, array, from_list, pointer, keyword, function, cell, Result, ok, fault,
}
use janetland.Headers.{Headers}
use janetland.KeyDefs.{KeyDef, terminated, get_flag_keys}
use janetland.Action.{Action, ◌>>=◌, ◌>>◌, lift, give, reading}
use janetland.Wl.{EventSource, Listener, World, Host, run, read_source, read_listener}
use janetland.Wl.Tables.{posix_signal_rows, wl_event_rows}
use janetland.Wl.Sources.{stream_value}

abbrev pub listener_value : ℕ → Value
listener_value p = abstract "wl/listener" (cell p)

-- The search of `jwl_event_loop_signal_callback`: the name of the first row with the number.
unfoldable pub find_signal_name : List KeyDef → ℕ → Result (Option String)
find_signal_name [] n = fault
find_signal_name (d ∷ defs) n = elim d.name [
  | none ↦ ok none
  | some name ↦ if n == d.key then ok (some name) else find_signal_name defs n
]

module _ {W : Type 0} (J : Janet) (H : Headers) (N : Host W) where
  -- `janet_pcall` between `janet_gclock` and `janet_gcunlock`.
  unfoldable pub locked_call : ℕ → List Value → Action (World W) (Option Value)
  locked_call fn argv = do
    locked ← reading (λ w. N.lock w.outside)
    run N.gclock
    ret ← (λ w. (ok (N.pcall fn argv w).0, (N.pcall fn argv w).1))
    run (N.gcunlock locked)
    give ret

  -- What a callback hands to libwayland: the integer that the function returned, or 0.
  unfoldable pub callback_result : Option Value → Action (World W) ℤ
  callback_result none = do run N.stacktrace; give (pos 0)
  callback_result (some ret) = elim (J.checkint ret) [
    | some i ↦ give i
    | none ↦ (do run (N.eprintf ret); give (pos 0))
  ]

  -- The end of the callbacks that hand nothing back.
  unfoldable pub report : Option Value → Action (World W) (Unit {0})
  report none = run N.stacktrace
  report (some ret) = give tt

  unfoldable pub event_loop_fd_callback : ℤ → ℕ → ℕ → Action (World W) ℤ
  unfolding locked_call callback_result
  event_loop_fd_callback fd mask data_p = do
    source ← read_source data_p
    keys ← lift (get_flag_keys mask (terminated (wl_event_rows H)))
    ret ← locked_call source.cb_fn (
        (if source.stream == 0 then J.wrap_integer fd else stream_value source.stream)
        ∷ array (from_list keys)
        ∷ [])
    callback_result ret

  unfoldable pub event_loop_timer_callback : ℕ → Action (World W) ℤ
  unfolding locked_call callback_result
  event_loop_timer_callback data_p = do
    source ← read_source data_p
    ret ← locked_call source.cb_fn []
    callback_result ret

  unfoldable pub event_loop_signal_callback : ℤ → ℕ → Action (World W) ℤ
  unfolding find_signal_name locked_call callback_result
  event_loop_signal_callback signal_number data_p = do
    name ← lift (find_signal_name (terminated (posix_signal_rows H)) (unsigned32 signal_number))
    source ← read_source data_p
    ret ←
        locked_call source.cb_fn
          (elim name [ none ↦ J.wrap_integer signal_number | some s ↦ keyword s ] ∷ [])
    callback_result ret

  unfoldable pub event_loop_idle_callback : ℕ → Action (World W) (Unit {0})
  unfolding locked_call report
  event_loop_idle_callback data_p = do
    source ← read_source data_p
    ret ← locked_call source.cb_fn []
    report ret

  -- `data_p` is the raw pointer that the signal carries.
  unfoldable pub listener_notify_callback : ℕ → ℕ → Action (World W) (Unit {0})
  unfolding locked_call report
  listener_notify_callback wl_listener data_p = do
    listener ← read_listener wl_listener
    ret ← locked_call listener.notify_fn (listener_value wl_listener ∷ pointer data_p ∷ [])
    report ret

-- The values that the collector is told to mark, in order.
unfoldable pub method_event_source_gcmark : EventSource → List Value
method_event_source_gcmark source =
    (if source.stream == 0 then [] else stream_value source.stream ∷ [])
    ++ (if source.cb_fn == 0 then [] else function source.cb_fn ∷ [])

unfoldable pub method_listener_gcmark : Listener → List Value
method_listener_gcmark listener =
    if listener.notify_fn == 0 then [] else function listener.notify_fn ∷ []
