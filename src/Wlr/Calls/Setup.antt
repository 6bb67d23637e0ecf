-- ===== src/Wlr/Calls/Setup.antt =====
-- wlr.c: the functions for backends, renderers, allocators and the globals that a compositor creates.
use janetland.Prelude.{List, [], ◌∷◌}
use janetland.Prelude.Int.{unsigned32}
use janetland.Janet.{Janet, Value, nil}
use janetland.Headers.{Headers}
use janetland.Action.{Action}
use janetland.Wlr.Calls.{
  Wlroots, ◌>>=◌, ◌>>◌, give, fixarity, call, integer_arg, object_or_panic, pointer_arg,
  pointer_by_name_arg, ptr, uint, wrap_boolean,
}

module _ {S : Type 0} (H : Headers) (J : Janet) (L : Wlroots S) where
  unfoldable pub cfun_wlr_backend_autocreate : List Value → Action S Value
  cfun_wlr_backend_autocreate argv = do
    fixarity argv 1
    display ← pointer_by_name_arg J L argv 0 "wl/wl-display"
    backend ← call L "wlr_backend_autocreate" (ptr display ∷ [])
    object_or_panic backend.value "wlr/wlr-backend" "failed to create wlroots backend object"

  unfoldable pub cfun_wlr_backend_destroy : List Value → Action S Value
  cfun_wlr_backend_destroy argv = do
    fixarity argv 1
    backend ← pointer_arg J L argv 0 "wlr/wlr-backend"
    done ← call L "wlr_backend_destroy" (ptr backend ∷ [])
    give nil

  unfoldable pub cfun_wlr_backend_start : List Value → Action S Value
  cfun_wlr_backend_start argv = do
    fixarity argv 1
    backend ← pointer_arg J L argv 0 "wlr/wlr-backend"
    ret ← call L "wlr_backend_start" (ptr backend ∷ [])
    give (wrap_boolean ret.value)

  unfoldable pub cfun_wlr_renderer_autocreate : List Value → Action S Value
  cfun_wlr_renderer_autocreate argv = do
    fixarity argv 1
    backend ← pointer_arg J L argv 0 "wlr/wlr-backend"
    renderer ← call L "wlr_renderer_autocreate" (ptr backend ∷ [])
    object_or_panic renderer.value "wlr/wlr-renderer" "failed to create wlroots renderer object"

  unfoldable pub cfun_wlr_renderer_init_wl_display : List Value → Action S Value
  cfun_wlr_renderer_init_wl_display argv = do
    fixarity argv 2
    renderer ← pointer_arg J L argv 0 "wlr/wlr-renderer"
    display ← pointer_by_name_arg J L argv 1 "wl/wl-display"
    ret ← call L "wlr_renderer_init_wl_display" (ptr renderer ∷ ptr display ∷ [])
    give (wrap_boolean ret.value)

  unfoldable pub cfun_wlr_allocator_autocreate : List Value → Action S Value
  cfun_wlr_allocator_autocreate argv = do
    fixarity argv 2
    backend ← pointer_arg J L argv 0 "wlr/wlr-backend"
    renderer ← pointer_arg J L argv 1 "wlr/wlr-renderer"
    allocator ← call L "wlr_allocator_autocreate" (ptr backend ∷ ptr renderer ∷ [])
    object_or_panic allocator.value "wlr/wlr-allocator" "failed to create wlroots allocator object"

  unfoldable pub cfun_wlr_compositor_create : List Value → Action S Value
  cfun_wlr_compositor_create argv = do
    fixarity argv 2
    display ← pointer_by_name_arg J L argv 0 "wl/wl-display"
    renderer ← pointer_arg J L argv 1 "wlr/wlr-renderer"
    compositor ← call L "wlr_compositor_create" (ptr display ∷ ptr renderer ∷ [])
    object_or_panic compositor.value "wlr/wlr-compositor"
        "failed to create wlroots compositor object"

  unfoldable pub cfun_wlr_subcompositor_create : List Value → Action S Value
  cfun_wlr_subcompositor_create argv = do
    fixarity argv 1
    display ← pointer_by_name_arg J L argv 0 "wl/wl-display"
    subcompositor ← call L "wlr_subcompositor_create" (ptr display ∷ [])
    object_or_panic subcompositor.value "wlr/wlr-subcompositor"
        "failed to create wlroots subcompositor object"

  unfoldable pub cfun_wlr_data_device_manager_create : List Value → Action S Value
  cfun_wlr_data_device_manager_create argv = do
    fixarity argv 1
    display ← pointer_by_name_arg J L argv 0 "wl/wl-display"
    manager ← call L "wlr_data_device_manager_create" (ptr display ∷ [])
    object_or_panic manager.value "wlr/wlr-data-device-manager"
        "failed to create wlroots data device manager object"

  unfoldable pub cfun_wlr_xdg_shell_create : List Value → Action S Value
  cfun_wlr_xdg_shell_create argv = do
    fixarity argv 2
    display ← pointer_by_name_arg J L argv 0 "wl/wl-display"
    version ← integer_arg J argv 1
    xdg_shell ← call L "wlr_xdg_shell_create" (ptr display ∷ uint (unsigned32 version) ∷ [])
    object_or_panic xdg_shell.value "wlr/wlr-xdg-shell" "failed to create wlroots xdg shell object"

  unfoldable pub cfun_wlr_layer_shell_v1_create : List Value → Action S Value
  cfun_wlr_layer_shell_v1_create argv = do
    fixarity argv 1
    display ← pointer_by_name_arg J L argv 0 "wl/wl-display"
    layer_shell ← call L "wlr_layer_shell_v1_create" (ptr display ∷ [])
    object_or_panic layer_shell.value "wlr/wlr-layer-shell-v1"
        "failed to create wlroots layer shell object"
