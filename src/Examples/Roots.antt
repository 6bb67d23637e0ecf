-- ===== src/Examples/Roots.antt =====
-- Event sources, listeners and callbacks in a concrete world.
use janetland.Prelude.{ℕ, ◌≢◌, List, [], ◌∷◌, arith}
use janetland.Prelude.Int.{pos}
use janetland.Janet.{Value, function, abstract, wraps}
use janetland.Action.{Ends}
use janetland.Wl.Sources.{
  cfun_wl_event_loop_add_fd, cfun_wl_event_loop_add_timer, cfun_wl_event_loop_add_signal,
  cfun_wl_event_loop_add_idle,
}
use janetland.Wl.Callbacks.{
  event_loop_fd_callback, event_loop_timer_callback, event_loop_signal_callback,
  event_loop_idle_callback, listener_notify_callback,
}
use janetland.Wl.Listeners.{cfun_wl_signal_add, cfun_wl_event_loop_add_destroy_listener}
use janetland.Wl.Roots.{Removable, SameRoots, source_remove-add_source}
use janetland.Wl.Removal.{Unlistens, signal_remove-add_listener}
use janetland.Wl.Locking.{Answered, SameLock, callbacks_lock}
use janetland.Examples.{janet, headers, host, world}

abbrev timer_args : List Value
timer_args = abstract "wl/wl-event-loop" (wraps 32) ∷ function 9 ∷ []

abbrev signal_args : List Value
signal_args = abstract "wl/wl-signal" (wraps 32) ∷ function 9 ∷ []

source_remove-add_source_example :
    Ends
      (Removable janet headers host world)
      (SameRoots janet headers host world)
      (cfun_wl_event_loop_add_fd janet headers host timer_args world)
    × Ends
        (Removable janet headers host world)
        (SameRoots janet headers host world)
        (cfun_wl_event_loop_add_timer janet headers host timer_args world)
    × Ends
        (Removable janet headers host world)
        (SameRoots janet headers host world)
        (cfun_wl_event_loop_add_signal janet headers host timer_args world)
    × Ends
        (Removable janet headers host world)
        (SameRoots janet headers host world)
        (cfun_wl_event_loop_add_idle janet headers host timer_args world)
source_remove-add_source_example = source_remove-add_source janet headers host timer_args world

signal_remove-add_listener_example :
    Ends
      (Unlistens janet headers host world)
      (SameRoots janet headers host world)
      (cfun_wl_signal_add janet host signal_args world)
    × Ends
        (Unlistens janet headers host world)
        (SameRoots janet headers host world)
        (cfun_wl_event_loop_add_destroy_listener janet host signal_args world)
signal_remove-add_listener_example = signal_remove-add_listener janet headers host signal_args world

not_null : ◌≢◌ {A = ℕ} 64 0
not_null e = omega (arith, e)

fn_not_null : ◌≢◌ {A = ℕ} 9 0
fn_not_null e = omega (arith, e)

callbacks_lock_example :
    Ends
      (Answered janet headers host world)
      (SameLock janet headers host world)
      (event_loop_fd_callback janet headers host (pos 3) 1 64 world)
    × Ends
        (Answered janet headers host world)
        (SameLock janet headers host world)
        (event_loop_timer_callback janet headers host 64 world)
    × Ends
        (Answered janet headers host world)
        (SameLock janet headers host world)
        (event_loop_signal_callback janet headers host (pos 2) 64 world)
    × Ends
        (λ _. SameLock janet headers host world)
        (SameLock janet headers host world)
        (event_loop_idle_callback janet headers host 64 world)
    × Ends
        (λ _. SameLock janet headers host world)
        (SameLock janet headers host world)
        (listener_notify_callback janet headers host 96 64 world)
callbacks_lock_example = callbacks_lock janet headers host (pos 3) (pos 2) 1 64 96 world
