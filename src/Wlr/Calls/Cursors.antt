-- ===== src/Wlr/Calls/Cursors.antt =====
-- wlr.c: the functions for cursors and cursor themes.
use janetland.Prelude.{List, [], ◌∷◌, some}
use janetland.Prelude.Int.{unsigned32}
use janetland.Janet.{Janet, Value, nil}
use janetland.Headers.{Headers}
use janetland.Action.{Action}
use janetland.Wlr.Calls.{
  Wlroots, ◌>>=◌, ◌>>◌, give, fixarity, call, cstring_arg, double, float, int, integer_arg,
  number_arg, object_or_panic, optional_string_arg, pointer_arg, ptr, text, uint, wrap_boolean,
}

module _ {S : Type 0} (H : Headers) (J : Janet) (L : Wlroots S) where
  unfoldable pub cfun_wlr_cursor_create : List Value → Action S Value
  cfun_wlr_cursor_create argv = do
    fixarity argv 0
    cursor ← call L "wlr_cursor_create" []
    object_or_panic cursor.value "wlr/wlr-cursor" "failed to create wlroots cursor object"

  unfoldable pub cfun_wlr_cursor_move : List Value → Action S Value
  cfun_wlr_cursor_move argv = do
    fixarity argv 4
    cursor ← pointer_arg J L argv 0 "wlr/wlr-cursor"
    dev ← pointer_arg J L argv 1 "wlr/wlr-input-device"
    dx ← number_arg J argv 2
    dy ← number_arg J argv 3
    done ← call L "wlr_cursor_move" (ptr cursor ∷ ptr dev ∷ double dx ∷ double dy ∷ [])
    give nil

  unfoldable pub cfun_wlr_cursor_warp_absolute : List Value → Action S Value
  cfun_wlr_cursor_warp_absolute argv = do
    fixarity argv 4
    cursor ← pointer_arg J L argv 0 "wlr/wlr-cursor"
    dev ← pointer_arg J L argv 1 "wlr/wlr-input-device"
    x ← number_arg J argv 2
    y ← number_arg J argv 3
    done ← call L "wlr_cursor_warp_absolute" (ptr cursor ∷ ptr dev ∷ double x ∷ double y ∷ [])
    give nil

  unfoldable pub cfun_wlr_cursor_attach_output_layout : List Value → Action S Value
  cfun_wlr_cursor_attach_output_layout argv = do
    fixarity argv 2
    cursor ← pointer_arg J L argv 0 "wlr/wlr-cursor"
    layout ← pointer_arg J L argv 1 "wlr/wlr-output-layout"
    done ← call L "wlr_cursor_attach_output_layout" (ptr cursor ∷ ptr layout ∷ [])
    give nil

  unfoldable pub cfun_wlr_cursor_attach_input_device : List Value → Action S Value
  cfun_wlr_cursor_attach_input_device argv = do
    fixarity argv 2
    cursor ← pointer_arg J L argv 0 "wlr/wlr-cursor"
    device ← pointer_arg J L argv 1 "wlr/wlr-input-device"
    done ← call L "wlr_cursor_attach_input_device" (ptr cursor ∷ ptr device ∷ [])
    give nil

  unfoldable pub cfun_wlr_cursor_set_surface : List Value → Action S Value
  cfun_wlr_cursor_set_surface argv = do
    fixarity argv 4
    cursor ← pointer_arg J L argv 0 "wlr/wlr-cursor"
    surface ← pointer_arg J L argv 1 "wlr/wlr-surface"
    hotspot_x ← integer_arg J argv 2
    hotspot_y ← integer_arg J argv 3
    done ←
        call L "wlr_cursor_set_surface"
          (ptr cursor ∷ ptr surface ∷ int hotspot_x ∷ int hotspot_y ∷ [])
    give nil

  unfoldable pub cfun_wlr_cursor_destroy : List Value → Action S Value
  cfun_wlr_cursor_destroy argv = do
    fixarity argv 1
    cursor ← pointer_arg J L argv 0 "wlr/wlr-cursor"
    done ← call L "wlr_cursor_destroy" (ptr cursor ∷ [])
    give nil

  unfoldable pub cfun_wlr_xcursor_manager_create : List Value → Action S Value
  cfun_wlr_xcursor_manager_create argv = do
    fixarity argv 2
    name ← optional_string_arg J argv 0
    size ← integer_arg J argv 1
    manager ← call L "wlr_xcursor_manager_create" (text name ∷ uint (unsigned32 size) ∷ [])
    object_or_panic manager.value "wlr/wlr-xcursor-manager"
        "failed to create wlroots xcursor manager object"

  unfoldable pub cfun_wlr_xcursor_manager_load : List Value → Action S Value
  cfun_wlr_xcursor_manager_load argv = do
    fixarity argv 2
    manager ← pointer_arg J L argv 0 "wlr/wlr-xcursor-manager"
    scale ← number_arg J argv 1
    ret ← call L "wlr_xcursor_manager_load" (ptr manager ∷ float (L.to_float scale) ∷ [])
    give (wrap_boolean ret.value)

  unfoldable pub cfun_wlr_xcursor_manager_get_xcursor : List Value → Action S Value
  cfun_wlr_xcursor_manager_get_xcursor argv = do
    fixarity argv 3
    manager ← pointer_arg J L argv 0 "wlr/wlr-xcursor-manager"
    name ← cstring_arg J argv 1
    scale ← number_arg J argv 2
    xcursor ←
        call L "wlr_xcursor_manager_get_xcursor"
          (ptr manager ∷ text (some name) ∷ float (L.to_float scale) ∷ [])
    object_or_panic xcursor.value "wlr/wlr-xcursor" "failed to find cursor: %s"

  unfoldable pub cfun_wlr_xcursor_manager_set_cursor_image : List Value → Action S Value
  cfun_wlr_xcursor_manager_set_cursor_image argv = do
    fixarity argv 3
    manager ← pointer_arg J L argv 0 "wlr/wlr-xcursor-manager"
    name ← cstring_arg J argv 1
    cursor ← pointer_arg J L argv 2 "wlr/wlr-cursor"
    done ←
        call L "wlr_xcursor_manager_set_cursor_image"
          (ptr manager ∷ text (some name) ∷ ptr cursor ∷ [])
    give nil
