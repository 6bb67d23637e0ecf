-- ===== src/Wl/Displays.antt =====
-- The displays of wl.c.
use janetland.Prelude.{none, some, List, ◌==◌, if◌then◌else◌}
use janetland.Janet.{Janet, Value, nil, string, panic}
use janetland.Jl.{pointer_to_abs_obj}
use janetland.Action.{Action, ◌>>=◌, ◌>>◌, lift, give, reading, change}
use janetland.Wl.{World, Host, call, fixarity, object_pointer}
use janetland.Wl.Loops.{Libwayland}

module _ {W : Type 0} (J : Janet) (N : Host W) (L : Libwayland W) where
  unfoldable pub cfun_wl_display_create : List Value → Action (World W) Value
  cfun_wl_display_create argv = do
    fixarity argv 0
    display ← call L.display_create
    if display == 0
        then lift (panic "failed to create Wayland display object")
        else give (pointer_to_abs_obj display "wl/wl-display")

  unfoldable pub cfun_wl_display_terminate : List Value → Action (World W) Value
  cfun_wl_display_terminate argv = do
    fixarity argv 1
    display ← object_pointer J N argv 0 "wl/wl-display"
    change (L.display_terminate display)
    give nil

  unfoldable pub cfun_wl_display_destroy : List Value → Action (World W) Value
  cfun_wl_display_destroy argv = do
    fixarity argv 1
    display ← object_pointer J N argv 0 "wl/wl-display"
    change (L.display_destroy display)
    give nil

  unfoldable pub cfun_wl_display_destroy_clients : List Value → Action (World W) Value
  cfun_wl_display_destroy_clients argv = do
    fixarity argv 1
    display ← object_pointer J N argv 0 "wl/wl-display"
    change (L.display_destroy_clients display)
    give nil

  unfoldable pub cfun_wl_display_run : List Value → Action (World W) Value
  cfun_wl_display_run argv = do
    fixarity argv 1
    display ← object_pointer J N argv 0 "wl/wl-display"
    change (L.display_run display)
    give nil

  unfoldable pub cfun_wl_display_add_socket_auto : List Value → Action (World W) Value
  cfun_wl_display_add_socket_auto argv = do
    fixarity argv 1
    display ← object_pointer J N argv 0 "wl/wl-display"
    socket ← call (L.display_add_socket_auto display)
    elim socket [ none ↦ lift (panic "failed to create Wayland socket") | some s ↦ give (string s) ]

  unfoldable pub cfun_wl_display_get_event_loop : List Value → Action (World W) Value
  cfun_wl_display_get_event_loop argv = do
    fixarity argv 1
    display ← object_pointer J N argv 0 "wl/wl-display"
    event_loop ← reading (λ w. L.display_get_event_loop w.outside display)
    if event_loop == 0
        then lift (panic "failed to get Wayland event loop")
        else give (pointer_to_abs_obj event_loop "wl/wl-event-loop")

  unfoldable pub cfun_wl_display_flush_clients : List Value → Action (World W) Value
  cfun_wl_display_flush_clients argv = do
    fixarity argv 1
    display ← object_pointer J N argv 0 "wl/wl-display"
    change (L.display_flush_clients display)
    give nil
