-- ===== src/Wl/Sources.antt =====
-- The event sources of wl.c: they are added to an event loop, updated, checked and removed.
use janetland.Prelude.{ℕ, none, some, List, String, ◌==◌, if◌then◌else◌}
use janetland.Prelude.Int.{ℤ, signed32}
use janetland.Janet.{Janet, Value, nil, abstract, function, cell, Result, ok, panic, fault, arg}
use janetland.Headers.{Headers}
use janetland.KeyDefs.{terminated, get_key_def, get_key_flags}
use janetland.Action.{Action, ◌>>=◌, ◌>>◌, lift, give, reading}
use janetland.Wl.{
  EventSource, World, Host, call, run, write_source, read_source, fixarity, object_pointer,
  object_address,
}
use janetland.Wl.Tables.{posix_signal_rows, wl_event_rows}

abbrev pub stream_value : ℕ → Value
stream_value p = abstract "core/stream" (cell p)

abbrev pub source_value : ℕ → Value
source_value p = abstract "wl/event-source" (cell p)

-- `memset(source, 0, sizeof(*source))`
abbrev pub empty_source : EventSource
empty_source = record { event_source = 0; stream = 0; cb_fn = 0 }

module _ {W : Type 0} (J : Janet) (H : Headers) (N : Host W) where
  -- `janet_abstract` and `memset` of a new source.
  unfoldable pub new_source : Action (World W) ℕ
  new_source = do source ← call N.new_abstract; write_source source empty_source; give source

  -- The end of the functions that add a source: the test of what libwayland gave, the write of
  -- `cb_fn` behind it and the root of the function.
  unfoldable pub keep_source : ℕ → ℕ → ℕ → ℕ → String → Action (World W) (Unit {0})
  keep_source source event_source stream func message =
      if event_source == 0
      then (do
        write_source source (record { event_source = 0; stream = stream; cb_fn = 0 })
        lift (panic message))
      else (do
        write_source source (record { event_source = event_source; stream = stream; cb_fn = func })
        run (N.gcroot (function func)))

  -- The second argument of `wl-event-loop-add-fd`: a number, or a stream with a handle. The stream
  -- is 0 for a number.
  unfoldable pub fd_or_stream : List Value → ℕ → Action (World W) (ℤ × ℕ)
  fd_or_stream argv source = do
    v ← lift (arg argv 1)
    elim (J.checkint v) [
      | some i ↦ (do fd ← lift (J.getinteger v); give (fd, 0))
      | none ↦ (do
        stream ← object_address J argv 1 "core/stream"
        write_source source (record empty_source { stream = stream })
        reading (λ w. (N.stream_handle w.outside stream, stream)))
    ]

  unfoldable pub cfun_wl_event_loop_add_fd : List Value → Action (World W) Value
  unfolding new_source keep_source fd_or_stream
  cfun_wl_event_loop_add_fd argv = do
    fixarity argv 4
    source ← new_source
    event_loop ← object_pointer J N argv 0 "wl/wl-event-loop"
    (fd, stream) ← fd_or_stream argv source
    flags_v ← lift (arg argv 2)
    mask ← lift (get_key_flags J flags_v (terminated (wl_event_rows H)))
    func_v ← lift (arg argv 3)
    func ← lift (J.getfunction func_v)
    event_source ← call (N.event_loop_add_fd event_loop fd mask source)
    keep_source source event_source stream func "failed to add fd to wayland event loop"
    if stream == 0
        then give (source_value source)
        else (do run (N.gcroot (stream_value stream)); give (source_value source))

  unfoldable pub cfun_wl_event_source_fd_update : List Value → Action (World W) Value
  cfun_wl_event_source_fd_update argv = do
    fixarity argv 2
    p ← object_address J argv 0 "wl/event-source"
    flags_v ← lift (arg argv 1)
    mask ← lift (get_key_flags J flags_v (terminated (wl_event_rows H)))
    source ← read_source p
    i ← call (N.event_source_fd_update source.event_source mask)
    give (J.wrap_integer i)

  unfoldable pub cfun_wl_event_loop_add_timer : List Value → Action (World W) Value
  unfolding new_source keep_source
  cfun_wl_event_loop_add_timer argv = do
    fixarity argv 2
    source ← new_source
    event_loop ← object_pointer J N argv 0 "wl/wl-event-loop"
    func_v ← lift (arg argv 1)
    func ← lift (J.getfunction func_v)
    event_source ← call (N.event_loop_add_timer event_loop source)
    keep_source source event_source 0 func "failed to add timer to wayland event loop"
    give (source_value source)

  unfoldable pub cfun_wl_event_source_timer_update : List Value → Action (World W) Value
  cfun_wl_event_source_timer_update argv = do
    fixarity argv 2
    p ← object_address J argv 0 "wl/event-source"
    delay_v ← lift (arg argv 1)
    ms_delay ← lift (J.getinteger delay_v)
    source ← read_source p
    i ← call (N.event_source_timer_update source.event_source ms_delay)
    give (J.wrap_integer i)

  -- A signal by its number or by its name.
  unfoldable pub signal_number : Value → Result ℤ
  signal_number v = elim (J.checkint v) [
    | some i ↦ J.getinteger v
    | none ↦ signed_key (get_key_def J v (terminated (posix_signal_rows H)))
  ]
    where
      signed_key : Result ℕ → Result ℤ
      signed_key (ok key) = ok (signed32 key)
      signed_key (panic m) = panic m
      signed_key fault = fault

  unfoldable pub cfun_wl_event_loop_add_signal : List Value → Action (World W) Value
  unfolding new_source keep_source signal_number
  cfun_wl_event_loop_add_signal argv = do
    fixarity argv 3
    source ← new_source
    event_loop ← object_pointer J N argv 0 "wl/wl-event-loop"
    signal_v ← lift (arg argv 1)
    signal ← lift (signal_number signal_v)
    func_v ← lift (arg argv 2)
    func ← lift (J.getfunction func_v)
    event_source ← call (N.event_loop_add_signal event_loop signal source)
    keep_source source event_source 0 func "failed to add signal handler to wayland event loop"
    give (source_value source)

  unfoldable pub cfun_wl_event_loop_add_idle : List Value → Action (World W) Value
  unfolding new_source keep_source
  cfun_wl_event_loop_add_idle argv = do
    fixarity argv 2
    source ← new_source
    event_loop ← object_pointer J N argv 0 "wl/wl-event-loop"
    func_v ← lift (arg argv 1)
    func ← lift (J.getfunction func_v)
    event_source ← call (N.event_loop_add_idle event_loop source)
    keep_source source event_source 0 func "failed to add idle source to wayland event loop"
    give (source_value source)

  unfoldable pub cfun_wl_event_source_check : List Value → Action (World W) Value
  cfun_wl_event_source_check argv = do
    fixarity argv 1
    p ← object_address J argv 0 "wl/event-source"
    source ← read_source p
    run (N.event_source_check source.event_source)
    give nil

  -- `if (p) janet_gcunroot(...)`
  abbrev pub unroot_unless_null : ℕ → Value → Action (World W) (Unit {0})
  unroot_unless_null p v = if p == 0 then give tt else run (N.gcunroot v)

  unfoldable pub cfun_wl_event_source_remove : List Value → Action (World W) Value
  cfun_wl_event_source_remove argv = do
    fixarity argv 1
    p ← object_address J argv 0 "wl/event-source"
    source ← read_source p
    i ← call (N.event_source_remove source.event_source)
    unroot_unless_null source.stream (stream_value source.stream)
    unroot_unless_null source.cb_fn (function source.cb_fn)
    give (J.wrap_integer i)
