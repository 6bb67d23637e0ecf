-- ===== src/Wlr/Calls/Xwayland.antt =====
-- wlr.c: the functions for Xwayland and its surfaces.
use janetland.Prelude.{ℕ, ◌%◌, ◌^◌, List, [], ◌∷◌, String}
use janetland.Janet.{Janet, Value, nil}
use janetland.Headers.{Headers}
use janetland.KeyDefs.{terminated}
use janetland.Action.{Action}
use janetland.Wlr.Calls.{
  Wlroots, ◌>>=◌, ◌>>◌, give, fixarity, boolean_arg, buffer_arg, bytes, call, flag, int,
  integer_arg, key_def_arg, object_or_panic, optional_pointer_arg, pointer_arg, pointer_by_name_arg,
  ptr, to_int16, to_uint16, uint, uint64_arg, wrap_boolean,
}

abbrev pub xcb_stack_mode_rows : Headers → List (String × ℕ)
xcb_stack_mode_rows H =
    ("above", H.const "XCB_STACK_MODE_ABOVE")
    ∷ ("below", H.const "XCB_STACK_MODE_BELOW")
    ∷ ("top-if", H.const "XCB_STACK_MODE_TOP_IF")
    ∷ ("bottom-if", H.const "XCB_STACK_MODE_BOTTOM_IF")
    ∷ ("opposite", H.const "XCB_STACK_MODE_OPPOSITE")
    ∷ []

module _ {S : Type 0} (H : Headers) (J : Janet) (L : Wlroots S) where
  unfoldable pub cfun_wlr_xwayland_surface_from_wlr_surface : List Value → Action S Value
  cfun_wlr_xwayland_surface_from_wlr_surface argv = do
    fixarity argv 1
    surface ← pointer_arg J L argv 0 "wlr/wlr-surface"
    xw_surface ← call L "wlr_xwayland_surface_from_wlr_surface" (ptr surface ∷ [])
    object_or_panic xw_surface.value "wlr/wlr-xwayland-surface"
        "cannot retrieve xwayland surface from wlr-surface"

  unfoldable pub cfun_wlr_xwayland_create : List Value → Action S Value
  cfun_wlr_xwayland_create argv = do
    fixarity argv 3
    display ← pointer_by_name_arg J L argv 0 "wl/wl-display"
    compositor ← pointer_arg J L argv 1 "wlr/wlr-compositor"
    lazy ← boolean_arg J argv 2
    xwayland ← call L "wlr_xwayland_create" (ptr display ∷ ptr compositor ∷ flag lazy ∷ [])
    object_or_panic xwayland.value "wlr/wlr-xwayland" "failed to create wlroots XWayland object"

  unfoldable pub cfun_wlr_xwayland_destroy : List Value → Action S Value
  cfun_wlr_xwayland_destroy argv = do
    fixarity argv 1
    xwayland ← pointer_arg J L argv 0 "wlr/wlr-xwayland"
    done ← call L "wlr_xwayland_destroy" (ptr xwayland ∷ [])
    give nil

  unfoldable pub cfun_wlr_xwayland_set_seat : List Value → Action S Value
  cfun_wlr_xwayland_set_seat argv = do
    fixarity argv 2
    xwayland ← pointer_arg J L argv 0 "wlr/wlr-xwayland"
    seat ← pointer_arg J L argv 1 "wlr/wlr-seat"
    done ← call L "wlr_xwayland_set_seat" (ptr xwayland ∷ ptr seat ∷ [])
    give nil

  unfoldable pub cfun_wlr_xwayland_set_cursor : List Value → Action S Value
  cfun_wlr_xwayland_set_cursor argv = do
    fixarity argv 7
    xwayland ← pointer_arg J L argv 0 "wlr/wlr-xwayland"
    pixels ← buffer_arg J argv 1
    stride ← uint64_arg J argv 2
    width ← uint64_arg J argv 3
    height ← uint64_arg J argv 4
    hotspot_x ← integer_arg J argv 5
    hotspot_y ← integer_arg J argv 6
    done ← call L "wlr_xwayland_set_cursor" (
        ptr xwayland
        ∷ bytes pixels
        ∷ uint (stride % 2 ^ 32)
        ∷ uint (width % 2 ^ 32)
        ∷ uint (height % 2 ^ 32)
        ∷ int hotspot_x
        ∷ int hotspot_y
        ∷ [])
    give nil

  unfoldable pub cfun_wlr_xwayland_or_surface_wants_focus : List Value → Action S Value
  cfun_wlr_xwayland_or_surface_wants_focus argv = do
    fixarity argv 1
    surface ← pointer_arg J L argv 0 "wlr/wlr-xwayland-surface"
    ret ← call L "wlr_xwayland_or_surface_wants_focus" (ptr surface ∷ [])
    give (wrap_boolean ret.value)

  unfoldable pub cfun_wlr_xwayland_surface_configure : List Value → Action S Value
  cfun_wlr_xwayland_surface_configure argv = do
    fixarity argv 5
    surface ← pointer_arg J L argv 0 "wlr/wlr-xwayland-surface"
    x ← integer_arg J argv 1
    y ← integer_arg J argv 2
    width ← integer_arg J argv 3
    height ← integer_arg J argv 4
    done ← call L "wlr_xwayland_surface_configure" (
        ptr surface
        ∷ int (to_int16 x)
        ∷ int (to_int16 y)
        ∷ uint (to_uint16 width)
        ∷ uint (to_uint16 height)
        ∷ [])
    give nil

  unfoldable pub cfun_wlr_xwayland_surface_activate : List Value → Action S Value
  cfun_wlr_xwayland_surface_activate argv = do
    fixarity argv 2
    surface ← pointer_arg J L argv 0 "wlr/wlr-xwayland-surface"
    activated ← boolean_arg J argv 1
    done ← call L "wlr_xwayland_surface_activate" (ptr surface ∷ flag activated ∷ [])
    give nil

  unfoldable pub cfun_wlr_xwayland_surface_set_maximized : List Value → Action S Value
  cfun_wlr_xwayland_surface_set_maximized argv = do
    fixarity argv 2
    surface ← pointer_arg J L argv 0 "wlr/wlr-xwayland-surface"
    maximized ← boolean_arg J argv 1
    done ← call L "wlr_xwayland_surface_set_maximized" (ptr surface ∷ flag maximized ∷ [])
    give nil

  unfoldable pub cfun_wlr_xwayland_surface_set_minimized : List Value → Action S Value
  cfun_wlr_xwayland_surface_set_minimized argv = do
    fixarity argv 2
    surface ← pointer_arg J L argv 0 "wlr/wlr-xwayland-surface"
    minimized ← boolean_arg J argv 1
    done ← call L "wlr_xwayland_surface_set_minimized" (ptr surface ∷ flag minimized ∷ [])
    give nil

  unfoldable pub cfun_wlr_xwayland_surface_set_fullscreen : List Value → Action S Value
  cfun_wlr_xwayland_surface_set_fullscreen argv = do
    fixarity argv 2
    surface ← pointer_arg J L argv 0 "wlr/wlr-xwayland-surface"
    fullscreen ← boolean_arg J argv 1
    done ← call L "wlr_xwayland_surface_set_fullscreen" (ptr surface ∷ flag fullscreen ∷ [])
    give nil

  unfoldable pub cfun_wlr_xwayland_surface_close : List Value → Action S Value
  cfun_wlr_xwayland_surface_close argv = do
    fixarity argv 1
    surface ← pointer_arg J L argv 0 "wlr/wlr-xwayland-surface"
    done ← call L "wlr_xwayland_surface_close" (ptr surface ∷ [])
    give nil

  unfoldable pub cfun_wlr_xwayland_surface_restack : List Value → Action S Value
  cfun_wlr_xwayland_surface_restack argv = do
    fixarity argv 3
    surface ← pointer_arg J L argv 0 "wlr/wlr-xwayland-surface"
    sibling ← optional_pointer_arg J L argv 1 "wlr/wlr-xwayland-surface"
    mode ← key_def_arg J argv 2 (terminated (xcb_stack_mode_rows H))
    done ← call L "wlr_xwayland_surface_restack" (ptr surface ∷ ptr sibling ∷ uint mode ∷ [])
    give nil
