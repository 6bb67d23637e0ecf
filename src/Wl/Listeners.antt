-- ===== src/Wl/Listeners.antt =====
-- The listeners of wl.c: they are added to a signal, removed and run.
use janetland.Prelude.{ℕ, List}
use janetland.Janet.{Janet, Value, nil, function, ok, arg}
use janetland.Action.{Action, ◌>>=◌, ◌>>◌, lift, give}
use janetland.Wl.{
  World, Host, call, run, write_listener, read_listener, fixarity, object_pointer, object_address,
}
use janetland.Wl.Callbacks.{listener_value}

module _ {W : Type 0} (J : Janet) (N : Host W) where
  -- The new listener that `wl-event-loop-add-destroy-listener` and `wl-signal-add` make, rooted.
  unfoldable pub new_listener : ℕ → Action (World W) ℕ
  new_listener notify_fn = do
    listener ← call N.new_abstract
    write_listener listener (record { notify_fn = notify_fn })
    run (N.gcroot (function notify_fn))
    give listener

  unfoldable pub cfun_wl_event_loop_add_destroy_listener : List Value → Action (World W) Value
  unfolding new_listener
  cfun_wl_event_loop_add_destroy_listener argv = do
    fixarity argv 2
    event_loop ← object_pointer J N argv 0 "wl/wl-event-loop"
    fn_v ← lift (arg argv 1)
    notify_fn ← lift (J.getfunction fn_v)
    listener ← new_listener notify_fn
    run (N.event_loop_add_destroy_listener event_loop listener)
    give (listener_value listener)

  unfoldable pub cfun_wl_signal_add : List Value → Action (World W) Value
  unfolding new_listener
  cfun_wl_signal_add argv = do
    fixarity argv 2
    signal ← object_pointer J N argv 0 "wl/wl-signal"
    fn_v ← lift (arg argv 1)
    notify_fn ← lift (J.getfunction fn_v)
    listener ← new_listener notify_fn
    run (N.signal_add signal listener)
    give (listener_value listener)

  unfoldable pub cfun_wl_signal_remove : List Value → Action (World W) Value
  cfun_wl_signal_remove argv = do
    fixarity argv 1
    p ← object_address J argv 0 "wl/listener"
    run (N.link_remove p)
    listener ← read_listener p
    run (N.gcunroot (function listener.notify_fn))
    give nil

  -- The listeners get the address of a variable that holds the value.
  unfoldable pub cfun_wl_signal_emit : List Value → Action (World W) Value
  cfun_wl_signal_emit argv = do
    fixarity argv 2
    signal ← object_pointer J N argv 0 "wl/wl-signal"
    value ← lift (arg argv 1)
    (λ w. (ok tt, N.signal_emit signal value w))
    give nil
