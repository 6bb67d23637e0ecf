-- ===== src/Wl/Loops.antt =====
-- The event loops and the linked lists of wl.c.
use janetland.Prelude.{ℕ, Bool, Option, List, String, ◌==◌, if◌then◌else◌}
use janetland.Prelude.Int.{ℤ}
use janetland.Janet.{Janet, Value, nil, boolean, ok, panic, arg}
use janetland.Jl.{pointer_to_abs_obj}
use janetland.Action.{Action, ◌>>=◌, ◌>>◌, lift, give, reading, change}
use janetland.Wl.{World, Host, call, fixarity, object_pointer}

-- The functions of libwayland on event loops, displays and lists. What can run Janet code in turn changes
-- the whole `World`.
pub record Libwayland (W : Type 0) : Type 0 where
  pub event_loop_create : W → ℕ × W
  pub event_loop_destroy : ℕ → World W → World W
  pub event_loop_dispatch : ℕ → ℤ → World W → ℤ × World W
  pub event_loop_dispatch_idle : ℕ → World W → World W
  pub event_loop_get_fd : W → ℕ → ℤ
  pub list_empty : W → ℕ → Bool
  pub list_length : W → ℕ → ℤ
  pub display_create : W → ℕ × W
  pub display_terminate : ℕ → World W → World W
  pub display_destroy : ℕ → World W → World W
  pub display_destroy_clients : ℕ → World W → World W
  pub display_run : ℕ → World W → World W
  pub display_add_socket_auto : ℕ → W → Option String × W
  pub display_get_event_loop : W → ℕ → ℕ
  pub display_flush_clients : ℕ → World W → World W

-- A call with a result that can run Janet code.
abbrev pub reenter : {W A : Type 0} → (World W → A × World W) → Action (World W) A
reenter f w = (ok (f w).0, (f w).1)

module _ {W : Type 0} (J : Janet) (N : Host W) (L : Libwayland W) where
  unfoldable pub cfun_wl_event_loop_create : List Value → Action (World W) Value
  cfun_wl_event_loop_create argv = do
    fixarity argv 0
    event_loop ← call L.event_loop_create
    if event_loop == 0
        then lift (panic "failed to create wayland event loop")
        else give (pointer_to_abs_obj event_loop "wl/wl-event-loop")

  unfoldable pub cfun_wl_event_loop_destroy : List Value → Action (World W) Value
  cfun_wl_event_loop_destroy argv = do
    fixarity argv 1
    event_loop ← object_pointer J N argv 0 "wl/wl-event-loop"
    change (L.event_loop_destroy event_loop)
    give nil

  unfoldable pub cfun_wl_event_loop_dispatch : List Value → Action (World W) Value
  cfun_wl_event_loop_dispatch argv = do
    fixarity argv 2
    event_loop ← object_pointer J N argv 0 "wl/wl-event-loop"
    timeout_v ← lift (arg argv 1)
    timeout ← lift (J.getinteger timeout_v)
    ret ← reenter (L.event_loop_dispatch event_loop timeout)
    give (J.wrap_integer ret)

  unfoldable pub cfun_wl_event_loop_dispatch_idle : List Value → Action (World W) Value
  cfun_wl_event_loop_dispatch_idle argv = do
    fixarity argv 1
    event_loop ← object_pointer J N argv 0 "wl/wl-event-loop"
    change (L.event_loop_dispatch_idle event_loop)
    give nil

  unfoldable pub cfun_wl_event_loop_get_fd : List Value → Action (World W) Value
  cfun_wl_event_loop_get_fd argv = do
    fixarity argv 1
    event_loop ← object_pointer J N argv 0 "wl/wl-event-loop"
    reading (λ w. J.wrap_integer (L.event_loop_get_fd w.outside event_loop))

  unfoldable pub cfun_wl_list_empty : List Value → Action (World W) Value
  cfun_wl_list_empty argv = do
    fixarity argv 1
    list ← object_pointer J N argv 0 "wl/wl-list"
    reading (λ w. boolean (L.list_empty w.outside list))

  unfoldable pub cfun_wl_list_length : List Value → Action (World W) Value
  cfun_wl_list_length argv = do
    fixarity argv 1
    list ← object_pointer J N argv 0 "wl/wl-list"
    reading (λ w. J.wrap_integer (L.list_length w.outside list))
